-- ===== src/Storage/Metrics.antt =====
-- storage/metrics.go: `Metrics`, a storage that counts the events that another one stores. The
-- latencies that it observes change nothing.
use consul_timeline.Common.{ℕ, ◌+◌, ◌≡◌, refl, Option, none, some, List, [], ◌∷◌, length, arith}
use consul_timeline.Timeline.Event.{Event}
use consul_timeline.Storage.Backend.{Backend}
use consul_timeline.Storage.Distributed.{Write, store, upsert, maintains, call, write, write_all}

-- `Metrics`, with the value of `storedCounter`.
pub record Metrics (S : Type 0) : Type 0 where
  pub inner : S
  pub stored : ℕ

-- `NewMetrics`.
abbrev pub new_metrics : {S : Type 0} → S → Metrics S
new_metrics s = record { inner = s; stored = 0 }

abbrev pub counted : {E : Type 0} → Option E → ℕ → ℕ → ℕ
counted none n stored = stored + n
counted (some e) n stored = stored

module _ {S E : Type 0} (b : Backend S E) where
  -- `StoreEvents`.
  abbrev store_counted : List Event → Metrics S → Option E × Metrics S
  store_counted es m =
      let (r, s) = b.store_events es m.inner in
      (r, record { inner = s; stored = counted r (length es) m.stored })

  abbrev with_inner : Metrics S → Option E × S → Option E × Metrics S
  with_inner m (r, s) = (r, record m { inner = s })

  -- The wrapper as a backend.
  unfoldable pub metered : Backend (Metrics S) E
  metered = record {
    store_events = store_counted;
    upsert_instances = λ is m. with_inner m (b.upsert_instances is m.inner);
    maintain = λ m. with_inner m (b.maintain m.inner);
    events = λ q m. b.events q m.inner;
    histogram = λ q buckets split m. b.histogram q buckets split m.inner;
    facets = λ q fields limit m. b.facets q fields limit m.inner;
    suggest = λ dc field prefix limit m. b.suggest dc field prefix limit m.inner;
    instance_of = λ dc node id m. b.instance_of dc node id m.inner;
    datacenters = λ m. b.datacenters m.inner;
    since = λ dc after limit m. b.since dc after limit m.inner;
  }

  -- The number of events in the batches that are stored without an error.
  abbrev pub stored_by : List Write → S → ℕ
  stored_by [] s = 0
  stored_by (store es ∷ ws) s =
      let rest = stored_by ws (write b (store es) s) in
      counted (b.store_events es s).0 (length es) rest
  stored_by (upsert is ∷ ws) s = stored_by ws (write b (upsert is) s)
  stored_by (maintains ∷ ws) s = stored_by ws (write b maintains s)

  -- Under the wrapper a storage takes the same writes, and the counter grows by the events that were
  -- stored without an error.
  pub write_all-metered :
      (ws : List Write) (m : Metrics S)
      → ((write_all metered ws m).inner ≡ write_all b ws m.inner)
        × ((write_all metered ws m).stored ≡ m.stored + stored_by ws m.inner)
  unfolding write_all call metered
  write_all-metered [] m = (refl, omega arith)
  write_all-metered (store es ∷ ws) m =
      let (p, q) = write_all-metered ws (store_counted es m).1 in (p, ground (arith, q))
  write_all-metered (upsert is ∷ ws) m =
      write_all-metered ws (with_inner m (b.upsert_instances is m.inner)).1
  write_all-metered (maintains ∷ ws) m = write_all-metered ws (with_inner m (b.maintain m.inner)).1
