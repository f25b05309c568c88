-- ===== src/Storage/Mysql/Maintain/Create.antt =====
-- The partitions that `ensurePartitions` of storage/mysql/storage.go creates.
use consul_timeline.Common.{
  ◌+◌, ◌-◌, ◌%◌, ◌≤◌, ◌≡◌, refl, sym, ap, ◌∙◌, Bool, true, false, not, Option, some, List, [], ◌∷◌,
  ◌⊎◌, inl, inr, if◌then◌else◌, arith, All, keep, ltb,
}
use consul_timeline.Common.Text.{Text, text_eq}
use consul_timeline.Common.Assoc.{RangeOrder}
use consul_timeline.Timeline.Event.{Time, zero_time}
use consul_timeline.Storage.Facets.{mark_seen}
use consul_timeline.Storage.Mysql.Maintain.{
  day_length, Calendar, Connection, MaintainError, list_failed, no_p_max, create_failed,
  partition_name, is_existing, later_day, latest_of, p_max, create, create_days, ensure_partitions,
}
use consul_timeline.Storage.Mysql.Maintain.Names.{
  is_in, is_existing-mark_seen, names_of, is_in-names_of,
}
use consul_timeline.Storage.Mysql.Maintain.Planned.{
  run_all, Above, highest, planned, create_days-planned, Above-planned, planned-keep,
  highest-planned,
}
use consul_timeline.Storage.Mysql.Maintain.Latest.{
  IsLatest, All-is_in, not_later, ReadsBack, latest_of-bound, latest_of-attained,
}

-- Of the partitions for yesterday, today and tomorrow, `ensurePartitions` creates exactly those that
-- are later than every partition of a day: the statements are sent one after the other until one
-- fails, each day is later than the one before it and than all partitions, as the database asks of a
-- new bound, and where none fails the last partition is for tomorrow or later. `today` is a midnight, the
-- database lists the partitions, of which `p_max` is one, and `time` reads back the name of a day.
pub ensure_partitions-creates :
    {D E : Type 0} (cal : Calendar) (conn : Connection D E) (order : RangeOrder Text Bool)
    (today : Time) (d : D) (ns : List Text)
    → ReadsBack cal
    → today % day_length ≡ 0
    → conn.names d ≡ inr ns
    → is_in p_max ns ≡ true
    → (b : Time) × ((days : List Time) × (IsLatest cal ns b
          × (Above b days
              × ((days
                    ≡ keep
                        (λ x. ltb b x)
                        ((today - day_length) ∷ today ∷ (today + day_length) ∷ []))
                  × ((today + day_length ≤ highest b days)
                      × (ensure_partitions cal conn order today d
                          ≡ run_all
                              (λ x. create_failed (partition_name cal x))
                              (create cal conn)
                              days
                              d))))))
unfolding ensure_partitions
ensure_partitions-creates {D = D} {E = E} cal conn order today d ns back mid listed has =
    let existing : List (Text × Bool) = mark_seen [] ns in
    let keys : List Text = names_of order ns in
    let b : Time = latest_of cal zero_time keys in
    let three : List Time = (today - day_length) ∷ today ∷ (today + day_length) ∷ [] in
    let bound : (n : Text) (x : Time) → is_in n ns ≡ true → cal.parse n ≡ some x → x ≤ b =
      λ n x i p. (latest_of-bound cal keys zero_time).1 n x (is_in-names_of order n ns ∙ i) p in
    let named : (x : Time)
        → x % day_length ≡ 0
        → is_existing (partition_name cal x) existing ≡ true
        → x ≤ b =
      λ x m i.
        bound (partition_name cal x) x (sym (is_existing-mark_seen (partition_name cal x) ns) ∙ i)
          (back x m) in
    let old : All (λ x. is_existing (partition_name cal x) existing ≡ true → x ≤ b) three = (
      named (today - day_length) (omega arith),
      (named today mid, (named (today + day_length) (omega arith), tt)),
    ) in
    let reached = highest-planned cal conn existing three b old in
    (
      b,
      (
        planned cal conn existing b three,
        (
          record {
            bound =
                All-is_in (λ n. later_day b (cal.parse n) ≡ b) ns
                  (λ n i. not_later b (cal.parse n) (λ x p. bound n x i p));
            attained = elim (latest_of-attained cal keys zero_time) [
              | inl z ↦ inl z
              | inr (n, (i, p)) ↦ inr (n, (sym (is_in-names_of order n ns) ∙ i, p))
            ];
          },
          (
            Above-planned cal conn existing three b,
            (
              planned-keep cal conn existing three b b (refl, (refl, (refl, tt)))
                  (
                    ((λ p. omega arith), ((λ p. omega arith), tt)),
                    (((λ p. omega arith), tt), (tt, tt)),
                  )
                  old,
              (
                reached.1.1.0,
                ap (λ o. answered o) listed
                    ∙ allowed (is_existing p_max existing) (is_existing-mark_seen p_max ns ∙ has)
                    ∙ create_days-planned cal conn existing three b d,
              ),
            ),
          ),
        ),
      ),
    )
  where
    allowed :
        (c : Bool)
        → c ≡ true
        → (◌≡◌ {A = Option (MaintainError E) × D}
            (if not c
              then (some no_p_max, d)
              else create_days cal conn
                  (mark_seen [] ns)
                  (latest_of cal zero_time (names_of order ns))
                  ((today - day_length) ∷ today ∷ (today + day_length) ∷ [])
                  d)
            (create_days cal conn
              (mark_seen [] ns)
              (latest_of cal zero_time (names_of order ns))
              ((today - day_length) ∷ today ∷ (today + day_length) ∷ [])
              d))
    allowed true e = refl
    allowed false e = absurd (cc)

    answered : E ⊎ List Text → Option (MaintainError E) × D
    answered (inl e) = (some (list_failed e), d)
    answered (inr ms) =
        if not (is_existing p_max (mark_seen [] ms))
        then (some no_p_max, d)
        else create_days cal conn (mark_seen [] ms) (latest_of cal zero_time (names_of order ms))
            ((today - day_length) ∷ today ∷ (today + day_length) ∷ []) d
