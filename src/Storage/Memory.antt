-- ===== src/Storage/Memory.antt =====
-- storage/memory/storage.go: the most recent events in a ring buffer, and the instances in a map.
pub mod Ring
pub mod Order
pub mod Paging
pub mod Walk
pub mod Instances
use consul_timeline.Common.{
  ℕ, zero, suc, ◌+◌, ◌-◌, ◌%◌, ◌≡◌, Bool, true, false, Option, none, some, List, [], ◌∷◌, ◌==◌,
  ◌&&◌, ◌||◌, if◌then◌else◌, ltb, nat_beq, length, get_or, set, take, drop, replicate, keep, Eq,
  ◌↔◌, arith,
}
use mathlib.Core.List.{reverse}
use consul_timeline.Common.Text.{Text, text_eq, text_beq, text_beq_iff}
use consul_timeline.Common.Int.{ℤ, pos, negsuc, ltb_ℤ}
use consul_timeline.Common.Assoc.{lookup, insert}
use consul_timeline.Common.Sort.{sort, binary_search}
use consul_timeline.Timeline.Event.{Event, Instance, Time, empty_event, zero_time}
use consul_timeline.Storage.Query.{
  Query, Cursor, Page, Result, ok, err, validate, cursor_is_zero, zero_cursor,
}
use consul_timeline.Storage.Match.{matches}

-- `instanceKey`: datacenter, node and service id.
pub record InstanceKey : Type 0 where
  pub dc : Text
  pub node : Text
  pub id : Text

abbrev pub key_beq : InstanceKey → InstanceKey → Bool
key_beq a b = text_beq a.dc b.dc && (text_beq a.node b.node && text_beq a.id b.id)

pub key_beq_iff : (a b : InstanceKey) → (key_beq a b ≡ true) ↔ (a ≡ b)
key_beq_iff a b =
    ground (arith, text_beq_iff a.dc b.dc, text_beq_iff a.node b.node, text_beq_iff a.id b.id)

instance abbrev pub key_eq : Eq InstanceKey
key_eq = record { beq = key_beq; beq_iff = key_beq_iff }

-- `Storage`. `events` is the array; its length is the capacity.
pub record Store : Type 0 where
  pub events : List Event
  pub next : ℕ
  pub size : ℕ
  pub next_id : ℕ
  pub instances : List (InstanceKey × Instance)

-- `DefaultConfig.MaxSize`.
abbrev pub default_max_size : ℕ
default_max_size = 10000

-- A parameter that is not positive means its default.
abbrev pub or_default : ℤ → ℕ → ℕ
or_default (pos zero) d = d
or_default (pos (suc n)) d = suc n
or_default (negsuc n) d = d

-- `New(cfg)`, by `cfg.MaxSize`.
unfoldable pub new : ℤ → Store
new max_size = record {
  events = replicate (or_default max_size default_max_size) empty_event;
  next = 0;
  size = 0;
  next_id = 0;
  instances = [];
}

-- One round of the loop of `StoreEvents`.
unfoldable pub store_one : Store → Event → Store
store_one s e = record s {
  events = set s.events s.next (record e { id = s.next_id + 1 });
  next = (s.next + 1) % length s.events;
  size = if ltb s.size (length s.events) then s.size + 1 else s.size;
  next_id = s.next_id + 1;
}

unfoldable pub store_events : Store → List Event → Store
unfolding store_one
store_events s [] = s
store_events s (e ∷ es) = store_events (store_one s e) es

abbrev pub key_of : Instance → InstanceKey
key_of i = record { dc = i.datacenter; node = i.node_name; id = i.service_id }

-- The record to store, given what the map holds.
abbrev pub merged : Option Instance → Instance → Instance
merged none i = i
merged (some old) i = record i { first_seen = old.first_seen }

-- One round of the loop of `UpsertInstances`.
unfoldable pub upsert_one : Store → Instance → Store
unfolding lookup insert
upsert_one s i = record s {
  instances = insert (key_of i) (merged (lookup (key_of i) s.instances) i) s.instances;
}

unfoldable pub upsert_instances : Store → List Instance → Store
unfolding upsert_one
upsert_instances s [] = s
upsert_instances s (i ∷ is) = upsert_instances (upsert_one s i) is

-- `s.events[(s.next-1-j+len(s.events))%len(s.events)]` for the `k` values of j from `j` on.
unfoldable pub newest : Store → ℕ → ℕ → List Event
newest s j zero = []
newest s j (suc k) =
    get_or s.events ((s.next + length s.events - 1 - j) % length s.events) empty_event
    ∷ newest s (suc j) k

-- The stored events, newest first.
abbrev pub history : Store → List Event
history s = newest s 0 s.size

-- The comparison of the `sort.Slice` call: newest time first, then highest id.
abbrev pub precedes : Event → Event → Bool
precedes e f = if nat_beq e.time f.time then ltb f.id e.id else ltb f.time e.time

-- The test of the `sort.Search` call: the event stands after the cursor.
abbrev pub after_cursor : Cursor → Event → Bool
after_cursor c e = ltb e.time c.time || (nat_beq e.time c.time && ltb_ℤ (pos e.id) c.id)

abbrev pub cursor_of : Event → Cursor
cursor_of e = record { time = e.time; id = pos e.id }

-- `all[:limit]`, and where the next page starts.
unfoldable pub page_of : List Event → ℕ → Page
page_of all limit =
    if ltb limit (length all)
    then record {
      events = take limit all;
      next = cursor_of (get_or (take limit all) (limit - 1) empty_event);
      has_more = true;
    }
    else record { events = all; next = zero_cursor; has_more = false }

-- The matching events from the cursor on.
unfoldable pub from_cursor : Query → List Event → List Event
unfolding binary_search
from_cursor q all =
    if cursor_is_zero q.cursor
    then all
    else drop (binary_search (length all) (λ i. after_cursor q.cursor (get_or all i empty_event)))
        all

module _ (to_lower : Text → Text) where
  unfoldable pub matching : Store → Query → List Event
  unfolding newest sort
  matching s q = sort precedes (keep (λ e. matches to_lower e q) (history s))

  -- `Events`.
  unfoldable pub query_events : Store → Query → Result Page
  unfolding matching from_cursor page_of validate
  query_events s q = elim (validate q) [
    | some e ↦ err e
    | none ↦ ok (page_of (from_cursor q (matching s q)) (or_default q.limit 100))
  ]

  -- `Since`: a millisecond is 10^6 nanoseconds.
  unfoldable pub since : Store → Text → Time → ℤ → List Event
  unfolding matching
  since s dc after limit = take (or_default limit 100) (
      reverse (
        matching s (record {
          datacenter = dc;
          from = after + 1000000;
          to = zero_time;
          filters = [];
          text = [];
          cursor = zero_cursor;
          limit = pos 0;
        })))

-- `Instance`: `nil` is `none`.
unfoldable pub find_instance : Store → Text → Text → Text → Option Instance
unfolding lookup
find_instance s dc node id = lookup (record { dc = dc; node = node; id = id }) s.instances
