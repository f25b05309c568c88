-- ===== src/Storage/Mysql/Maintain.antt =====
-- storage/mysql/storage.go: `Maintain`, which creates and drops the daily partitions and deletes old
-- rollups and instances.
pub mod Names
pub mod Latest
pub mod Planned
pub mod Create
pub mod Drop
pub mod Batches
use consul_timeline.Common.{
  ℕ, zero, suc, ◌+◌, ◌-◌, ◌*◌, ◌%◌, ◌≡◌, Bool, true, false, not, ◌||◌, Option, none, some, List, [],
  ◌∷◌, ◌++◌, ◌⊎◌, inl, inr, if◌then◌else◌, ltb, nat_beq, map,
}
use consul_timeline.Common.Text.{Text, text_eq, bytes}
use consul_timeline.Common.Int.{ℤ, pos, negsuc}
use consul_timeline.Common.Assoc.{RangeOrder, lookup, insert}
use consul_timeline.Timeline.Event.{Time, zero_time}
use consul_timeline.Storage.Facets.{mark_seen}
use consul_timeline.Storage.Mysql.Where.{Arg, text_arg, time_arg}

-- A day, in nanoseconds.
abbrev pub day_length : ℕ
day_length = 86_400_000_000_000

abbrev pub maintain_lock : Text
maintain_lock = bytes "consul_timeline_maintain"

-- What `time` does for the code: the layouts `20060102` and `2006-01-02` of a time, and the parser
-- of the layout `p20060102`.
pub record Calendar : Type 0 where
  pub compact : Time → Text
  pub dashed : Time → Text
  pub parse : Text → Option Time

-- What the code does with the connection: `statement` answers the number of rows affected, which is 0
-- where the driver does not tell it, and `lock` the value of GET_LOCK, which may be NULL.
pub record Connection (D E : Type 0) : Type 0 where
  pub connect : D → Option E
  pub statement : Text × List Arg → D → (E ⊎ ℕ) × D
  pub names : D → E ⊎ List Text
  pub lock : Text × List Arg → D → (E ⊎ Option ℤ) × D

pub data MaintainError (E : Type 0) : Type 0 where
  no_connection : E → MaintainError E
  lock_failed : E → MaintainError E
  list_failed : E → MaintainError E
  no_p_max : MaintainError E
  create_failed : Text → E → MaintainError E
  drop_failed : Text → E → MaintainError E
  rollup_failed : E → MaintainError E
  instances_failed : E → MaintainError E

-- `partitionName`.
unfoldable pub partition_name : Calendar → Time → Text
partition_name cal day = bytes "p" ++ cal.compact day

-- `existing[name]`.
abbrev pub is_existing : Text → List (Text × Bool) → Bool
is_existing n existing = elim (lookup n existing) [ none ↦ false | some b ↦ b ]

abbrev pub later_day : Time → Option Time → Time
later_day latest none = latest
later_day latest (some d) = if ltb latest d then d else latest

-- The loop that finds `latest`.
unfoldable pub latest_of : Calendar → Time → List Text → Time
latest_of cal latest [] = latest
latest_of cal latest (n ∷ ns) = latest_of cal (later_day latest (cal.parse n)) ns

abbrev pub create_ddl : Calendar → Time → Text
create_ddl cal day =
    bytes "ALTER TABLE events_v2 REORGANIZE PARTITION p_max INTO (PARTITION "
    ++ (partition_name cal day
        ++ (bytes " VALUES LESS THAN (TO_DAYS('"
            ++ (cal.dashed (day + day_length)
                ++ bytes "')), PARTITION p_max VALUES LESS THAN MAXVALUE)")))

abbrev pub drop_ddl : Text → Text
drop_ddl n = bytes "ALTER TABLE events_v2 DROP PARTITION " ++ n

abbrev pub p_max : Text
p_max = bytes "p_max"

-- What a statement leads to: the end with its error, or the rest of the loop.
abbrev pub unless_failed :
    {D E : Type 0}
    → (E → MaintainError E)
    → (E ⊎ ℕ) × D
    → (D → Option (MaintainError E) × D)
    → Option (MaintainError E) × D
unless_failed failed (inl e, d) rest = (some (failed e), d)
unless_failed failed (inr n, d) rest = rest d

-- Whether the loop passes a partition over: it is not one of a day, or it may hold newer rows.
abbrev pub is_kept : Time → Option Time → Bool
is_kept cutoff none = true
is_kept cutoff (some day) = ltb cutoff (day + day_length)

module _ {D E : Type 0} (cal : Calendar) (conn : Connection D E) where
  -- One `ALTER TABLE` that adds a partition, and one that drops a partition.
  abbrev pub create : Time → D → (E ⊎ ℕ) × D
  create day d = conn.statement (create_ddl cal day, []) d

  abbrev pub drop_partition : Text → D → (E ⊎ ℕ) × D
  drop_partition n d = conn.statement (drop_ddl n, []) d

  -- The loop over the three days.
  unfoldable pub create_days :
      List (Text × Bool) → Time → List Time → D → Option (MaintainError E) × D
  unfolding partition_name lookup
  create_days existing latest [] d = (none, d)
  create_days existing latest (day ∷ days) d =
      let skip = create_days existing latest days d in
      let rest = create_days existing day days in
      if is_existing (partition_name cal day) existing || not (ltb latest day)
      then skip
      else unless_failed (create_failed (partition_name cal day)) (create day d) rest

  -- `ensurePartitions`.
  unfoldable pub ensure_partitions : RangeOrder Text Bool → Time → D → Option (MaintainError E) × D
  unfolding create_days latest_of mark_seen
  ensure_partitions order today d = elim (conn.names d) [
    | inl e ↦ (some (list_failed e), d)
    | inr ns ↦
        let existing = mark_seen [] ns in
        if not (is_existing p_max existing)
        then (some no_p_max, d)
        else create_days existing (latest_of cal zero_time (map (λ p. p.0) (order.range existing)))
            ((today - day_length) ∷ today ∷ (today + day_length) ∷ []) d
  ]

  -- The loop over the partitions.
  unfoldable pub drop_days : Time → List Text → D → Option (MaintainError E) × D
  drop_days cutoff [] d = (none, d)
  drop_days cutoff (n ∷ ns) d =
      let rest = drop_days cutoff ns in
      if is_kept cutoff (cal.parse n)
      then rest d
      else unless_failed (drop_failed n) (drop_partition n d) rest

  -- `dropExpiredPartitions`.
  unfoldable pub drop_expired : RangeOrder Text Bool → Time → D → Option (MaintainError E) × D
  unfolding drop_days mark_seen
  drop_expired order cutoff d = elim (conn.names d) [
    | inl e ↦ (some (list_failed e), d)
    | inr ns ↦ drop_days cutoff (map (λ p. p.0) (order.range (mark_seen [] ns))) d
  ]

abbrev pub while_some : {D E : Type 0} → (E ⊎ ℕ) × D → (D → Option E × D) → Option E × D
while_some (inl e, d) rest = (some e, d)
while_some (inr zero, d) rest = (none, d)
while_some (inr (suc n), d) rest = rest d

-- `deleteBatches`; the number bounds the rounds, 20 in the code.
unfoldable pub delete_batches : {D E : Type 0} → ℕ → (D → (E ⊎ ℕ) × D) → D → Option E × D
delete_batches zero run d = (none, d)
delete_batches (suc n) run d = while_some (run d) (delete_batches n run)

-- `today.AddDate(0, 0, -days)`; a time before Go's zero time is cut off to it.
abbrev pub days_before : Time → ℤ → Time
days_before today (pos n) = today - n * day_length
days_before today (negsuc n) = today + suc n * day_length

abbrev pub gather : {E : Type 0} → (E → MaintainError E) → Option E → List (MaintainError E)
gather failed none = []
gather failed (some e) = failed e ∷ []

abbrev pub to_list : {E : Type 0} → Option (MaintainError E) → List (MaintainError E)
to_list none = []
to_list (some e) = e ∷ []

module _ {D E : Type 0} (cal : Calendar) (conn : Connection D E)
    (order : RangeOrder Text Bool) where
  -- The four steps, whose errors are joined.
  unfoldable pub maintain_steps : Time → Time → D → List (MaintainError E) × D
  unfolding ensure_partitions drop_expired delete_batches
  maintain_steps today cutoff d0 =
      let (created, d1) = ensure_partitions cal conn order today d0 in
      let (dropped, d2) = drop_expired cal conn order cutoff d1 in
      let (rollups, d3) =
        delete_batches 20
          (conn.statement
            (bytes "DELETE FROM events_rollup WHERE minute < ? LIMIT 50000", time_arg cutoff ∷ []))
          d2 in
      let (instances, d4) =
        delete_batches 20
          (conn.statement
            (bytes "DELETE FROM instances WHERE last_seen < ? LIMIT 10000", time_arg cutoff ∷ []))
          d3 in
      (
        to_list created
            ++ (to_list dropped
                ++ (gather rollup_failed rollups ++ gather instances_failed instances)),
        d4,
      )

  abbrev pub is_one : Option ℤ → Bool
  is_one none = false
  is_one (some (pos n)) = nat_beq n 1
  is_one (some (negsuc n)) = false

  abbrev release : List (MaintainError E) × D → List (MaintainError E) × D
  release (errors, d) =
      (errors, (conn.statement (bytes "SELECT RELEASE_LOCK(?)", text_arg maintain_lock ∷ []) d).1)

  -- `Maintain` at a time; no error is the empty list.
  unfoldable pub maintain : Time → ℤ → D → List (MaintainError E) × D
  unfolding maintain_steps
  maintain now retention_days d = elim (conn.connect d) [
    | some e ↦ (no_connection e ∷ [], d)
    | none ↦
        let (got, d1) = conn.lock (bytes "SELECT GET_LOCK(?, 0)", text_arg maintain_lock ∷ []) d in
        let today = now - now % day_length in
        elim got [
          | inl e ↦ (lock_failed e ∷ [], d1)
          | inr g ↦
              if is_one g
              then release (maintain_steps today (days_before today retention_days) d1)
              else ([], d1)
        ]
  ]
