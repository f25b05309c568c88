-- ===== src/Tests/Mysql.antt =====
-- Examples on storage/mysql/.
use consul_timeline.Common.{
  ℕ, ◌-◌, ◌*◌, ◌/◌, ◌≤◌, ◌<◌, ◌≡◌, refl, ap, subst, ◌∙◌, Bool, true, false, ◌&&◌, Option, none,
  some, List, [], ◌∷◌, ◌++◌, ◌⊎◌, inr, if◌then◌else◌, nat_beq, ltb, length, length-append,
  length-replicate, keep, take, take-append, drop, replicate, min, All, arith, ◌==◌,
}
use consul_timeline.Common.Text.{
  Text, text_eq, text_beq, text_beq_iff, bytes, has_prefix, has_suffix,
}
use consul_timeline.Common.Int.{pos}
use consul_timeline.Common.Assoc.{RangeOrder, IsDistinct}
use consul_timeline.Common.Counts.{total}
use consul_timeline.Timeline.Event.{Event, Time}
use consul_timeline.Storage.Query.{Filter, Query, field_check_type, field_service}
use consul_timeline.Storage.Match.{match_filter, star}
use consul_timeline.Storage.Mysql.Where.{Arg, build_where, filter_sql}
use consul_timeline.Storage.Mysql.Where.Marks.{IsFilled}
use consul_timeline.Storage.Mysql.Where.Shape.{build_where_shape}
use consul_timeline.Storage.Mysql.Where.Like.{Collation, CollationLaws}
use consul_timeline.Storage.Mysql.Where.Meaning.{spell, holds, condition_of}
use consul_timeline.Storage.Mysql.Where.Rows.{check_type_differs}
use consul_timeline.Storage.Mysql.Tags.{Json, JsonLaws}
use consul_timeline.Storage.Mysql.Write.{
  RollupKey, rollup_eq, rollup_of, insert_sql, rollup_sql, upsert_sql, Driver, insert_chunk,
  store_chunk, store_events,
}
use consul_timeline.Storage.Mysql.Write.Filled.{writes-AreFilled}
use consul_timeline.Storage.Mysql.Write.Chunks.{DriverLaws, Outcome, store_events-Outcome}
use consul_timeline.Storage.Mysql.Write.Rollup.{IsRow, rollup_of-counts}
use consul_timeline.Storage.Mysql.Maintain.{
  day_length, Calendar, Connection, partition_name, create_failed, drop_failed, create,
  drop_partition, ensure_partitions, drop_expired, delete_batches,
}
use consul_timeline.Storage.Mysql.Maintain.Names.{is_in}
use consul_timeline.Storage.Mysql.Maintain.Planned.{run_all, Above, highest}
use consul_timeline.Storage.Mysql.Maintain.Latest.{IsLatest, ReadsBack}
use consul_timeline.Storage.Mysql.Maintain.Create.{ensure_partitions-creates}
use consul_timeline.Storage.Mysql.Maintain.Drop.{is_over, drop_expired-over}
use consul_timeline.Storage.Mysql.Maintain.Batches.{delete_batches-remaining}
use consul_timeline.Storage.Mysql.Histogram.{Found, found}
use consul_timeline.Common.Int.{ℤ}
use consul_timeline.Tests.Data.{event_at, three_events, web_query}

-- LIKE with a backslash as its escape, by recursion on the pattern.
abbrev any_suffix : (Text → Bool) → Text → Bool
any_suffix k [] = k []
any_suffix k (d ∷ s) = if k (d ∷ s) then true else any_suffix k s

abbrev one : ℕ → (Text → Bool) → Text → Bool
one c k [] = false
one c k (d ∷ s) = nat_beq d c && k s

abbrev some_one : (Text → Bool) → Text → Bool
some_one k [] = false
some_one k (d ∷ s) = k s

abbrev is_nil : Text → Bool
is_nil [] = true
is_nil (d ∷ s) = false

abbrev pattern_like : Text → Bool → Text → Bool
pattern_like [] quoted s = is_nil s
pattern_like (c ∷ p) true s = one c (pattern_like p false) s
pattern_like (c ∷ p) false s =
    let quote = pattern_like p true in
    let next = pattern_like p false in
    if nat_beq c b'\\'
    then quote s
    else if nat_beq c b'%'
    then any_suffix next s
    else if nat_beq c b'_'
    then some_one next s
    else one c next s

abbrev like : Text → Text → Bool
like s p = pattern_like p false s

any_suffix_end : (s : Text) → any_suffix is_nil s ≡ true
any_suffix_end [] = refl
any_suffix_end (d ∷ s) = any_suffix_end s

any_suffix_here : (k : Text → Bool) (s : Text) → k s ≡ true → any_suffix k s ≡ true
any_suffix_here k [] h = h
any_suffix_here k (d ∷ s) h = rw h refl

-- A binary collation.
abbrev binary : Collation
binary = record { same = text_beq; like = like }

binary_laws : CollationLaws binary
binary_laws = record {
  same_refl = λ s. (text_beq_iff s s).1 refl;
  plain = λ b s p w h. ground (arith, w, h);
  escaped = λ b s p h. ground (arith, h);
  any_end = any_suffix_end;
  any_here = λ s p h. any_suffix_here (pattern_like p false) s h;
  any_later = λ b s p h. later (like (b ∷ s) p) _ h;
}
  where
    later : (a b : Bool) → b ≡ true → (if a then true else b) ≡ true
    later a b h = ground arith

abbrev http_event : Event
http_event = record (event_at (bytes "web-1") 10) { check_type = bytes "http" }

abbrev like_web : Filter
like_web = record { field = field_service; values = bytes "web*" ∷ []; not = false }

check_type_differs_example :
    let f : Filter = record {
      field = field_check_type;
      values = (bytes "ht" ++ star) ∷ [];
      not = false;
    } in
    (match_filter f http_event ≡ false)
    × ((spell (condition_of f) ≡ filter_sql f)
        × (holds binary binary http_event (condition_of f) ≡ true))
check_type_differs_example =
    check_type_differs binary binary binary_laws binary_laws http_event (bytes "ht")
      (unfold has_prefix in refl) (λ e. absurd (cc))

abbrev db_query : Query
db_query = record web_query { filters = record like_web { values = bytes "db" ∷ [] } ∷ [] }

build_where_shape_example : (build_where web_query 30).0 ≡ (build_where db_query 40).0
build_where_shape_example = build_where_shape web_query db_query 30 40 (record {
  datacenter = refl;
  filters =
      (record { field = refl; sign = refl; patterns = unfold has_suffix text_beq in refl }, tt);
  text = refl;
})

-- An encoder of arrays of one text without escapes.
abbrev json : Json
json = record {
  encode = λ ts. elim ts [
    | [] ↦ none
    | t ∷ us ↦ elim us [ [] ↦ some (bytes "[?" ++ (t ++ bytes "?]")) | u ∷ vs ↦ none ]
  ];
  decode = λ s. some (take (length s - 4) (drop 2 s) ∷ []);
}

one_text :
    (t s : Text)
    → bytes "[?" ++ (t ++ bytes "?]") ≡ s
    → (some (take (length s - 4) (drop 2 s) ∷ []) ≡ some (t ∷ [])) × (2 ≤ length s - 2)
one_text t s e =
    subst (λ u. (some (take (length u - 4) (drop 2 u) ∷ []) ≡ some (t ∷ [])) × (2 ≤ length u - 2)) e
      (
        ap (λ u. some (u ∷ []))
            (take-append t (bytes "?]") (length (bytes "[?" ++ (t ++ bytes "?]")) - 4)
              (omega (arith, length-append t (bytes "?]")))),
        omega (arith, length-append t (bytes "?]")),
      )

json_laws : JsonLaws json
json_laws = record { decode_encode = decoded; long = lengthy }
  where
    decoded : (ts : List Text) (s : Text) → json.encode ts ≡ some s → json.decode s ≡ some ts
    decoded [] s e = absurd (cc)
    decoded (t ∷ []) s e = (one_text t s (cc e)).0
    decoded (t ∷ u ∷ vs) s e = absurd (cc)

    lengthy : (t : Text) (ts : List Text) (s : Text) → json.encode (t ∷ ts) ≡ some s → 2 < length s
    lengthy t [] s e = omega (arith, (one_text t s (cc e)).1)
    lengthy t (u ∷ vs) s e = absurd (cc)

abbrev rollup_order : RangeOrder RollupKey ℕ
rollup_order = record { range = λ m. m; lookup-range = λ k m. refl; range-IsDistinct = λ m d. d }

abbrev no_map : List (Text × Text) → Option Text
no_map m = none

writes-AreFilled_example :
    IsFilled (insert_sql json three_events)
    × (IsFilled (rollup_sql rollup_order three_events) × IsFilled (upsert_sql json no_map []))
writes-AreFilled_example = writes-AreFilled json no_map rollup_order three_events []

rollup_of-counts_example :
    IsDistinct (rollup_of three_events)
    × (All (IsRow three_events) (rollup_of three_events)
        × (total (rollup_of three_events) ≡ length three_events))
rollup_of-counts_example = rollup_of-counts rollup_order three_events

-- A database that keeps the statements it committed, and refuses the third of a transaction.
abbrev Log : Type 0
Log = List (Text × List Arg)

abbrev log_driver : Driver Log (Log × Log) Text
log_driver = record {
  begin = λ d. inr (d, []);
  exec = λ s t. (if ltb (length t.1) 2 then none else some (bytes "too many"), (t.0, s ∷ t.1));
  commit = λ t. (none, t.1 ++ t.0);
  rollback = λ t. t.0;
  exec_alone = λ s d. (none, s ∷ d);
}

log_laws : DriverLaws log_driver
log_laws = record {
  before = λ t. t.0;
  before-begin = λ d t e. cc e;
  before-exec = λ s t. refl;
  rolled_back = λ t. refl;
  not_committed = λ t e d h. absurd (cc h);
}

store_events-Outcome_example :
    Outcome insert_chunk
      (store_chunk json rollup_order log_driver)
      three_events
      []
      (store_events json rollup_order log_driver three_events [])
store_events-Outcome_example =
    store_events-Outcome json rollup_order log_driver log_laws three_events []

-- Days in unary.
abbrev zeros : Text → Option Time
zeros s = if s == replicate (length s) b'0' then some (length s * day_length) else none

abbrev calendar : Calendar
calendar = record {
  compact = λ t. replicate (t / day_length) b'0';
  dashed = λ t. replicate (t / day_length) b'0';
  parse = λ s. elim s [ [] ↦ none | c ∷ t ↦ if nat_beq c b'p' then zeros t else none ];
}

zeros-replicate : (n : ℕ) → zeros (replicate n b'0') ≡ some (n * day_length)
zeros-replicate n =
    let c : ℕ = b'0' in
    ground (
      arith,
      length-replicate n c,
      text_beq_iff (replicate n c) (replicate (length (replicate n c)) c),
    )

calendar-ReadsBack : ReadsBack calendar
unfolding partition_name
calendar-ReadsBack day m = zeros-replicate (day / day_length) ∙ ap some (omega (arith, m))

-- A connection that keeps what was sent, and lists one partition of a day beside `p_max`.
abbrev sent : Connection (List Text) Text
sent = record {
  connect = λ d. none;
  statement = λ s d. (inr 0, s.0 ∷ d);
  names = λ d. inr (bytes "p0" ∷ bytes "p_max" ∷ []);
  lock = λ s d. (inr (some (pos 1)), d);
}

abbrev name_order : RangeOrder Text Bool
name_order = record { range = λ m. m; lookup-range = λ k m. refl; range-IsDistinct = λ m d. d }

abbrev two_names : List Text
two_names = bytes "p0" ∷ bytes "p_max" ∷ []

ensure_partitions-creates_example :
    (b : Time) × ((days : List Time) × (IsLatest calendar two_names b
        × (Above b days
            × ((days ≡ keep (λ x. ltb b x) (day_length ∷ (2 * day_length) ∷ (3 * day_length) ∷ []))
                × ((3 * day_length ≤ highest b days)
                    × (ensure_partitions calendar sent name_order (2 * day_length) []
                        ≡ run_all
                            (λ x. create_failed (partition_name calendar x))
                            (create calendar sent)
                            days
                            []))))))
ensure_partitions-creates_example =
    ensure_partitions-creates calendar sent name_order (2 * day_length) [] two_names
      calendar-ReadsBack refl refl (unfold text_beq in refl)

drop_expired-over_example :
    (dropped : List Text) × (((n : Text)
        → is_in n dropped ≡ (is_in n two_names && is_over (2 * day_length) (calendar.parse n)))
      × (drop_expired calendar sent name_order (2 * day_length) []
          ≡ run_all drop_failed (drop_partition calendar sent) dropped []))
drop_expired-over_example =
    drop_expired-over calendar sent name_order (2 * day_length) [] two_names refl

-- A table of rows, all of which are to be deleted, five at a time.
abbrev delete_five : ℕ → (Text ⊎ ℕ) × ℕ
delete_five d = (inr (min 5 d), d - min 5 d)

delete_batches-remaining_example :
    (d : ℕ) × ((delete_batches 20 delete_five 112 ≡ (none, d)) × (d ≡ 112 - 20 * 5))
delete_batches-remaining_example =
    delete_batches-remaining (λ d. d) 5 20 delete_five 112 (omega arith)
      (λ d. (d - min 5 d, (refl, refl)))

-- Eight hours, which the rollup answers with one row; 900 buckets are asked for.
abbrev long_query : Query
long_query = record web_query {
  filters = [];
  from = 63_082_281_601_000_000_000;
  to = 63_082_310_400_000_000_000;
}

abbrev one_minute : Text × List Arg → Found (Time × (Text × ℕ)) Text
one_minute s = found ((63_082_281_660_000_000_000, (bytes "4", 3)) ∷ []) none

abbrev no_sample : Text × List Arg → Found (ℤ × (Text × ℕ)) Text
no_sample s = found [] none
