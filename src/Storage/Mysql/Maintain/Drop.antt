-- ===== src/Storage/Mysql/Maintain/Drop.antt =====
-- The partitions that `dropExpiredPartitions` of storage/mysql/storage.go drops.
use consul_timeline.Common.{
  ℕ, ◌+◌, ◌≡◌, refl, ap, ◌∙◌, Bool, true, false, not, ◌&&◌, Option, none, some, List, [], ◌∷◌, ◌⊎◌,
  inl, inr, if◌then◌else◌, leb, keep, arith, ◌==◌, Bool-cases,
}
use consul_timeline.Common.Text.{Text, text_eq, text_beq_iff}
use consul_timeline.Common.Assoc.{RangeOrder}
use consul_timeline.Timeline.Event.{Time}
use consul_timeline.Storage.Mysql.Maintain.{
  day_length, Calendar, Connection, MaintainError, list_failed, drop_failed, unless_failed,
  drop_partition, is_kept, drop_days, drop_expired,
}
use consul_timeline.Storage.Mysql.Maintain.Names.{is_in, names_of, is_in-names_of}
use consul_timeline.Storage.Mysql.Maintain.Planned.{run_all}

-- A partition of a day that ended at the cutoff or before it.
abbrev pub is_over : Time → Option Time → Bool
is_over cutoff none = false
is_over cutoff (some day) = leb (day + day_length) cutoff

module _ {D E : Type 0} (cal : Calendar) (conn : Connection D E) (cutoff : Time) where
  abbrev over : List Text → List Text
  over ns = keep (λ n. is_over cutoff (cal.parse n)) ns

  is_kept-is_over : (o : Option Time) → is_kept cutoff o ≡ not (is_over cutoff o)
  is_kept-is_over none = refl
  is_kept-is_over (some day) = ground arith

  is_in-over :
      (n : Text) (ns : List Text) → is_in n (over ns) ≡ (is_in n ns && is_over cutoff (cal.parse n))
  is_in-over n [] = refl
  is_in-over n (m ∷ ns) = elim (Bool-cases (m == n)) [
    | inl e ↦
        ground (
          arith,
          e,
          ap (λ k. is_over cutoff (cal.parse k)) ((text_beq_iff m n).0 e),
          is_in-over n ns,
        )
    | inr e ↦ ground (arith, e, is_in-over n ns)
  ]

  drop_days-over :
      (ns : List Text) (d : D)
      → drop_days cal conn cutoff ns d ≡ run_all drop_failed (drop_partition cal conn) (over ns) d
  unfolding drop_days
  drop_days-over [] d = refl
  drop_days-over (n ∷ ns) d =
      go (is_kept cutoff (cal.parse n)) (is_over cutoff (cal.parse n))
        (is_kept-is_over (cal.parse n)) (λ c. drop_days-over ns c)
    where
      run : List Text → D → Option (MaintainError E) × D
      run = run_all drop_failed (drop_partition cal conn)

      tail :
          (r : (E ⊎ ℕ) × D)
          → ((c : D) → drop_days cal conn cutoff ns c ≡ run (over ns) c)
          → unless_failed (drop_failed n) r (drop_days cal conn cutoff ns)
            ≡ unless_failed (drop_failed n) r (run (over ns))
      tail (inl e, c) h = refl
      tail (inr k, c) h = h c

      go :
          (a b : Bool)
          → a ≡ not b
          → ((c : D) → drop_days cal conn cutoff ns c ≡ run (over ns) c)
          → (if a
              then drop_days cal conn cutoff ns d
              else unless_failed
                  (drop_failed n)
                  (drop_partition cal conn n d)
                  (drop_days cal conn cutoff ns))
            ≡ run (if b then n ∷ over ns else over ns) d
      go true false e h = h d
      go false true e h = tail (drop_partition cal conn n d) h
      go true true e h = absurd (cc)
      go false false e h = absurd (cc)

-- `dropExpiredPartitions` sends one statement after the other, until one fails, for exactly the
-- listed partitions of a day that is over at the cutoff: no partition that may hold a row of the
-- cutoff or later is dropped, and none that is not of a day. The database lists the partitions, and
-- the runtime may visit them in any order.
pub drop_expired-over :
    {D E : Type 0} (cal : Calendar) (conn : Connection D E) (order : RangeOrder Text Bool)
    (cutoff : Time) (d : D) (ns : List Text)
    → conn.names d ≡ inr ns
    → (dropped : List Text) × (((n : Text)
          → is_in n dropped ≡ (is_in n ns && is_over cutoff (cal.parse n)))
        × (drop_expired cal conn order cutoff d
            ≡ run_all drop_failed (drop_partition cal conn) dropped d))
unfolding drop_expired
drop_expired-over {D = D} {E = E} cal conn order cutoff d ns listed = (
  over cal conn cutoff (names_of order ns),
  (
    λ n.
        is_in-over cal conn cutoff n (names_of order ns)
        ∙ ap (λ b. b && is_over cutoff (cal.parse n)) (is_in-names_of order n ns),
    ap (λ o. answered o) listed ∙ drop_days-over cal conn cutoff (names_of order ns) d,
  ),
)
  where
    answered : E ⊎ List Text → Option (MaintainError E) × D
    answered (inl e) = (some (list_failed e), d)
    answered (inr ms) = drop_days cal conn cutoff (names_of order ms) d
