-- ===== src/Storage/Mysql/Write/Rollup.antt =====
-- The counts of `storeChunk` of storage/mysql/storage.go.
use consul_timeline.Common.Text.{text_beq}
use consul_timeline.Common.{
  ℕ, suc, ◌%◌, ◌&&◌, Bool, true, false, leb, ltb, keep, if◌then◌else◌, ◌+◌, ◌≡◌, refl, sym, ap, ◌∙◌,
  none, some, List, [], ◌∷◌, length, map, arith, ◌==◌, Eq, All, inl, inr, Bool-cases,
}
use consul_timeline.Common.Assoc.{
  RangeOrder, lookup, delete, lookup-delete, delete-IsDistinct, IsDistinct,
}
use consul_timeline.Common.Counts.{
  count_at, count_values, count_values-IsDistinct, lookup-count_values, occurrences, All-lookup,
  All-count_values, total, total-count_values,
}
use consul_timeline.Timeline.Event.{Event, int_beq, new_status}
use consul_timeline.Storage.Mysql.Write.{RollupKey, rollup_eq, rollup_beq, rollup_key, rollup_of}

module _ {K : Type 0} ⦃e : Eq K⦄ where
  delete_missing : (k : K) (m : List (K × ℕ)) → lookup k m ≡ none → delete k m ≡ m
  unfolding lookup delete
  delete_missing k [] h = refl
  delete_missing k ((j, n) ∷ m) h = elim (Bool-cases (j == k)) [
    | inl b ↦ ground (arith, b)
    | inr b ↦ ground (arith, b, e.beq_iff j k, e.beq_iff k j, delete_missing k m)
  ]

  total-delete :
      (k : K) (m : List (K × ℕ)) → IsDistinct m → total m ≡ count_at k m + total (delete k m)
  unfolding lookup delete
  total-delete k [] d = omega arith
  total-delete k ((j, n) ∷ m) d = elim (Bool-cases (j == k)) [
    | inl b ↦ ground (
      arith,
      b,
      e.beq_iff k j,
      e.beq_iff j k,
      ap total (delete_missing j m d.0),
      ap (λ i. total (delete i m)) ((e.beq_iff j k).0 b),
    )
    | inr b ↦ ground (arith, b, e.beq_iff j k, e.beq_iff k j, total-delete k m d.1)
  ]

  total-cons :
      (k : K) (n : ℕ) (m m' : List (K × ℕ))
      → IsDistinct m'
      → lookup k m' ≡ some n
      → total m ≡ total (delete k m')
      → total ((k, n) ∷ m) ≡ total m'
  total-cons k n m m' d h t =
      let c : count_at k m' ≡ n = ap (λ o. elim o [ none ↦ 0 | some i ↦ i ]) h in
      omega (arith, c, t, total-delete k m' d)

  -- Maps with the same entries have the same sum, in whatever order the entries stand.
  total-same :
      (m m' : List (K × ℕ))
      → IsDistinct m
      → IsDistinct m'
      → ((k : K) → lookup k m ≡ lookup k m')
      → total m ≡ total m'
  unfolding lookup delete
  total-same [] [] d d' h = refl
  total-same [] ((k, n) ∷ m') d d' h = absurd (ground (arith, h k, e.beq_iff k k))
  total-same ((k, n) ∷ m) m' d d' h = total-cons k n m m' d' (ground (arith, h k, e.beq_iff k k)) (
      total-same m (delete k m') d.1 (delete-IsDistinct k m' d')
        (λ j. ground (arith, h j, lookup-delete k j m', e.beq_iff k j, d.0)))

length-map : {A B : Type 0} (g : A → B) (xs : List A) → length (map g xs) ≡ length xs
length-map g [] = refl
length-map g (x ∷ xs) = ap suc (length-map g xs)

-- Whether an event counts in a row: it has the datacenter, the kind and the status of the row as its
-- new headline status, and its time is in the minute that begins at the row's.
abbrev pub belongs : RollupKey → Event → Bool
belongs k e =
    text_beq e.datacenter k.dc
    && ((leb k.minute e.time && ltb e.time (k.minute + 60_000_000_000))
        && (int_beq e.kind k.kind && int_beq (new_status e) k.status))

-- A row of some events: it is for a whole minute, and has the number of the events that belong to it.
abbrev pub IsRow : List Event → RollupKey × ℕ → Type 0
IsRow es (k, n) = (k.minute % 60_000_000_000 ≡ 0) × (n ≡ length (keep (belongs k) es))

rollup_key-belongs :
    (k : RollupKey) (e : Event)
    → k.minute % 60_000_000_000 ≡ 0
    → rollup_beq (rollup_key e) k ≡ belongs k e
rollup_key-belongs k e h = ground (arith, h)

occurrences-belongs :
    (k : RollupKey) (es : List Event)
    → k.minute % 60_000_000_000 ≡ 0
    → occurrences k (map rollup_key es) ≡ length (keep (belongs k) es)
occurrences-belongs k [] h = refl
occurrences-belongs k (e ∷ es) h =
    go (rollup_beq (rollup_key e) k) (belongs k e) (rollup_key-belongs k e h)
      (occurrences-belongs k es h)
  where
    go :
        (a b : Bool)
        → a ≡ b
        → occurrences k (map rollup_key es) ≡ length (keep (belongs k) es)
        → length (
            if a
            then rollup_key e ∷ keep (λ j. j == k) (map rollup_key es)
            else keep (λ j. j == k) (map rollup_key es))
          ≡ length (if b then e ∷ keep (belongs k) es else keep (belongs k) es)
    go true true p q = ap suc q
    go true false p q = absurd (cc)
    go false true p q = absurd (cc)
    go false false p q = q

whole_minutes : (es : List Event) → All (λ k. k.minute % 60_000_000_000 ≡ 0) (map rollup_key es)
whole_minutes [] = tt
whole_minutes (e ∷ es) = (omega arith, whole_minutes es)

-- The rows that `storeChunk` adds to the rollup, in whatever order the runtime visits the counts: no
-- key stands twice; each row is for a whole minute, and holds the number of the chunk's events in that
-- minute with its datacenter, its kind and its status as their new headline status; and together the
-- rows count every event once.
pub rollup_of-counts :
    (order : RangeOrder RollupKey ℕ) (es : List Event)
    → IsDistinct (order.range (rollup_of es))
      × (All (IsRow es) (order.range (rollup_of es))
          × (total (order.range (rollup_of es)) ≡ length es))
unfolding rollup_of lookup
rollup_of-counts order es =
    let keys : List RollupKey = map rollup_key es in
    let m : List (RollupKey × ℕ) = count_values [] keys in
    let d : IsDistinct m = count_values-IsDistinct keys [] tt in
    let d' : IsDistinct (order.range m) = order.range-IsDistinct m d in
    (
      d',
      (
        All-lookup (IsRow es) (order.range m) d' (λ k n h.
            let l : lookup k m ≡ some n = sym (order.lookup-range k m) ∙ h in
            let w : k.minute % 60_000_000_000 ≡ 0 =
              All-count_values (λ j. j.minute % 60_000_000_000 ≡ 0) keys [] k n (whole_minutes es)
                (λ i q. absurd (nothing k i q)) l in
            (w, lookup-count_values k n keys l ∙ occurrences-belongs k es w)),
        omega (
          arith,
          total-same (order.range m) m d' d (λ k. order.lookup-range k m),
          total-count_values keys [],
          length-map rollup_key es,
        ),
      ),
    )
  where
    nothing : (k : RollupKey) (i : ℕ) → lookup {V = ℕ} k [] ≡ some i → ⊥
    nothing k i q = absurd (cc)
