-- ===== src/Storage/Memory/Walk.antt =====
-- A client that follows the cursors of storage/memory/storage.go from page to page.
use consul_timeline.Common.{
  ℕ, zero, suc, ◌-◌, ◌<◌, ◌≡◌, ◌≢◌, refl, ap, ◌∙◌, none, List, [], ◌++◌, if◌then◌else◌, ltb, length,
  take, drop, get_or, All, All-keep, arith, inl, inr, Bool-cases, take-append-drop, length-drop,
  ltb→lt,
}
use consul_timeline.Common.Text.{Text}
use consul_timeline.Common.Sort.{All-sort}
use consul_timeline.Timeline.Event.{Event, empty_event}
use consul_timeline.Storage.Query.{Query, Page, Result, ok, err, validate}
use consul_timeline.Storage.Match.{matches}
use consul_timeline.Storage.Memory.{
  Store, history, precedes, page_of, matching, from_cursor, query_events, or_default,
}
use consul_timeline.Storage.Memory.Order.{IsStore, matching-IsSorted}
use consul_timeline.Storage.Memory.Paging.{
  continue_after, continue_lem, All-from_cursor, All-get_or, get_or-take, default_pos,
}

-- What a client does with an answer: `rest` reads on from a query.
follow : (Query → List Event) → Query → Result Page → List Event
follow rest q (err e) = []
follow rest q (ok p) =
    if p.has_more then p.events ++ rest (record q { cursor = p.next }) else p.events

follow-page_of :
    (rest : Query → List Event) (q : Query) (all : List Event) (n : ℕ)
    → follow rest q (ok (page_of all n)) ≡ (
        if ltb n (length all)
        then take n all ++ rest (continue_after q (get_or (take n all) (n - 1) empty_event))
        else all)
unfolding follow page_of
follow-page_of rest q all n = elim (Bool-cases (ltb n (length all))) [
  | inl e ↦ rw e refl
  | inr e ↦ rw e refl
]

from_cursor-zero : (q : Query) (all : List Event) → q.cursor.time ≡ 0 → from_cursor q all ≡ all
unfolding from_cursor
from_cursor-zero q all z = ground (arith, z)

module _ (to_lower : Text → Text) where
  -- The client reads a page, and goes on at its `Next` while it has more. The fuel counts pages.
  pub walk : ℕ → Store → Query → List Event
  walk zero s q = []
  walk (suc fuel) s q = follow (walk fuel s) q (query_events to_lower s q)

  -- What is left to read from the cursor of a query on.
  abbrev remaining : Store → Query → List Event
  remaining s q = from_cursor q (matching to_lower s q)

  -- Every stored event has a time.
  abbrev pub IsTimed : Store → Type 0
  IsTimed s = All (λ e. e.time ≢ 0) (history s)

  remaining-timed :
      (s : Store) (q : Query) → IsStore s → IsTimed s → All (λ e. e.time ≢ 0) (remaining s q)
  unfolding matching
  remaining-timed s q v t =
      All-from_cursor q (matching to_lower s q) (matching-IsSorted to_lower s q v) (λ e. e.time ≢ 0)
        (All-sort precedes (λ e. e.time ≢ 0) _ (All-keep (λ e. e.time ≢ 0) _ (history s) t))

  abbrev limit_of : Query → ℕ
  limit_of q = or_default q.limit 100

  first_page :
      (s : Store) (q : Query)
      → validate q ≡ none
      → query_events to_lower s q ≡ ok (page_of (remaining s q) (or_default q.limit 100))
  unfolding query_events
  first_page s q h = rw (h, query_events)

  module _ (s : Store) where
    abbrev last_of : Query → Event
    last_of q = get_or (take (limit_of q) (remaining s q)) (limit_of q - 1) empty_event

  module _ (s : Store) (v : IsStore s) (t : IsTimed s) where
    next_at :
        (q : Query) (x : Event) (k : ℕ)
        → x ≡ get_or (remaining s q) k empty_event
        → k < length (remaining s q)
        → remaining s (continue_after q x) ≡ drop (suc k) (remaining s q)
    unfolding matching matches
    next_at q x k e b =
        ap (λ y. from_cursor (continue_after q y) (matching to_lower s q)) e
        ∙ continue_lem q (matching to_lower s q) (matching-IsSorted to_lower s q v) k b
            (All-get_or (λ e. e.time ≢ 0) (remaining s q) k (remaining-timed s q v t) b)

    -- Behind a full page stands what the page does not hold.
    next_page :
        (q : Query) (n : ℕ)
        → 0 < n
        → n < length (remaining s q)
        → remaining s (continue_after q (get_or (take n (remaining s q)) (n - 1) empty_event))
          ≡ drop n (remaining s q)
    next_page q zero p b = absurd (omega arith)
    next_page q (suc k) p b =
        next_at q (get_or (take (suc k) (remaining s q)) (suc k - 1) empty_event) k
          (ap (λ j. get_or (take (suc k) (remaining s q)) j empty_event) (omega arith)
            ∙ get_or-take (suc k) k (remaining s q) (omega arith))
          (omega arith)

    walk_lem :
        (fuel : ℕ) (q : Query)
        → validate q ≡ none
        → length (remaining s q) < fuel
        → walk fuel s q ≡ remaining s q
    unfolding walk page_of validate
    walk_lem zero q h b = absurd (omega arith)
    walk_lem (suc fuel) q h b =
        ap (follow (walk fuel s) q) (first_page s q h)
        ∙ follow-page_of (walk fuel s) q (remaining s q) (limit_of q)
        ∙ elim (Bool-cases (ltb (limit_of q) (length (remaining s q)))) [
          | inr e ↦ rw e refl
          | inl e ↦
              let np =
                next_page q (limit_of q) (default_pos q.limit)
                  (ltb→lt (limit_of q) (length (remaining s q)) e) in
              rw e (
                ap (◌++◌ (take (limit_of q) (remaining s q))) (
                  walk_lem fuel (continue_after q (last_of s q)) h (
                    omega (
                      arith,
                      ap length np,
                      length-drop (limit_of q) (remaining s q),
                      default_pos q.limit,
                      ltb→lt (limit_of q) (length (remaining s q)) e,
                    ))
                  ∙ np)
                ∙ take-append-drop (limit_of q) (remaining s q))
        ]

  -- Following the cursors from the first page on reads every matching event once, newest first,
  -- whatever the page size. The store is in order and every stored event has a time, the query is
  -- valid and starts at no cursor, and the client may read more pages than there are matching
  -- events.
  pub walk-matching :
      (s : Store) (q : Query) (fuel : ℕ)
      → IsStore s
      → IsTimed s
      → validate q ≡ none
      → q.cursor.time ≡ 0
      → length (matching to_lower s q) < fuel
      → walk fuel s q ≡ matching to_lower s q
  walk-matching s q fuel v t h z b =
      let start : from_cursor q (matching to_lower s q) ≡ matching to_lower s q =
        from_cursor-zero q (matching to_lower s q) z in
      walk_lem s v t fuel q h (omega (arith, ap length start)) ∙ start
