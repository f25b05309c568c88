-- ===== src/Storage/Mysql/Maintain/Planned.antt =====
-- The days for which the loop of `ensurePartitions` of storage/mysql/storage.go adds a partition.
use consul_timeline.Common.{
  ℕ, ◌≤◌, ◌<◌, ◌≡◌, refl, sym, subst, Bool, true, false, not, ◌||◌, Option, none, List, [], ◌∷◌,
  ◌⊎◌, inl, inr, if◌then◌else◌, ltb, arith, Bool-cases, All, All-map, keep, ap,
}
use consul_timeline.Common.Text.{Text, text_eq}
use consul_timeline.Timeline.Event.{Time}
use consul_timeline.Storage.Mysql.Maintain.{
  Calendar, Connection, MaintainError, create_failed, partition_name, is_existing, unless_failed,
  create, create_days,
}

-- The statements for a list of things, one after the other, up to the first that fails.
abbrev pub run_all :
    {A D E : Type 0}
    → (A → E → MaintainError E)
    → (A → D → (E ⊎ ℕ) × D)
    → List A
    → D
    → Option (MaintainError E) × D
run_all failed run [] d = (none, d)
run_all failed run (x ∷ xs) d = unless_failed (failed x) (run x d) (run_all failed run xs)

-- Each is later than the one before it, and the first than a bound.
abbrev pub Above : Time → List Time → Type 0
Above b [] = Unit
Above b (x ∷ xs) = (b < x) × Above x xs

-- The last of them, or the bound.
abbrev pub highest : Time → List Time → Time
highest b [] = b
highest b (x ∷ xs) = highest x xs

-- Each is before all that follow, unless it is Go's zero time.
abbrev pub Rises : List Time → Type 0
Rises [] = Unit
Rises (x ∷ xs) = All (λ y. 0 < x → x < y) xs × Rises xs

module _ {D E : Type 0} (cal : Calendar) (conn : Connection D E)
    (existing : List (Text × Bool)) where
  abbrev pub is_skipped : Time → Time → Bool
  is_skipped latest day = is_existing (partition_name cal day) existing || not (ltb latest day)

  -- The days for which the loop adds a partition, where no statement fails.
  abbrev pub planned : Time → List Time → List Time
  planned latest [] = []
  planned latest (x ∷ xs) =
      let skip = planned latest xs in
      let rest = planned x xs in if is_skipped latest x then skip else x ∷ rest

  pub create_days-planned :
      (days : List Time) (latest : Time) (d : D)
      → create_days cal conn existing latest days d
        ≡ run_all
            (λ x. create_failed (partition_name cal x))
            (create cal conn)
            (planned latest days)
            d
  unfolding create_days
  create_days-planned [] latest d = refl
  create_days-planned (x ∷ xs) latest d =
      go (is_skipped latest x) (create_days-planned xs latest d) (λ c. create_days-planned xs x c)
    where
      run : List Time → D → Option (MaintainError E) × D
      run = run_all (λ y. create_failed (partition_name cal y)) (create cal conn)

      tail :
          (r : (E ⊎ ℕ) × D)
          → ((c : D) → create_days cal conn existing x xs c ≡ run (planned x xs) c)
          → unless_failed
              (create_failed (partition_name cal x))
              r
              (create_days cal conn existing x xs)
            ≡ unless_failed (create_failed (partition_name cal x)) r (run (planned x xs))
      tail (inl e, c) h = refl
      tail (inr n, c) h = h c

      go :
          (b : Bool)
          → create_days cal conn existing latest xs d ≡ run (planned latest xs) d
          → ((c : D) → create_days cal conn existing x xs c ≡ run (planned x xs) c)
          → (if b
              then create_days cal conn existing latest xs d
              else unless_failed
                  (create_failed (partition_name cal x))
                  (create cal conn x d)
                  (create_days cal conn existing x xs))
            ≡ run (if b then planned latest xs else x ∷ planned x xs) d
      go true h k = h
      go false h k = tail (create cal conn x d) k

  pub Above-planned : (days : List Time) (latest : Time) → Above latest (planned latest days)
  Above-planned [] latest = tt
  Above-planned (x ∷ xs) latest = elim (Bool-cases (is_skipped latest x)) [
    | inl e ↦ rw e (Above-planned xs latest)
    | inr e ↦ rw e (ground (arith, e), Above-planned xs x)
  ]

  -- In a rising list of days, of which no existing one is above a bound, the days of the plan are those
  -- above the bound.
  pub planned-keep :
      (days : List Time) (latest b : Time)
      → All (λ x. ltb latest x ≡ ltb b x) days
      → Rises days
      → All (λ x. is_existing (partition_name cal x) existing ≡ true → x ≤ b) days
      → planned latest days ≡ keep (λ x. ltb b x) days
  planned-keep [] latest b same up h = refl
  planned-keep (x ∷ xs) latest b same up h = elim (Bool-cases (is_skipped latest x)) [
    | inl e ↦
        let below : ltb b x ≡ false = skipped e in
        rw (e, below) (planned-keep xs latest b same.1 up.1 h.1)
    | inr e ↦
        let above : ltb b x ≡ true = ground (arith, e, same.0) in
        rw (e, above)
          (ap (◌∷◌ x) (
            planned-keep xs x b
              (All-map {P = λ y. 0 < x → x < y} {Q = λ y. ltb x y ≡ ltb b y}
                (λ y k. ground (arith, k (ground (arith, above)), above)) xs up.0)
              up.1 h.1))
  ]
    where
      skipped : is_skipped latest x ≡ true → ltb b x ≡ false
      skipped e = elim (Bool-cases (is_existing (partition_name cal x) existing)) [
        | inl p ↦ ground (arith, h.0 p)
        | inr p ↦ ground (arith, e, p, same.0)
      ]

  le-highest : (xs : List Time) (b : Time) → Above b xs → b ≤ highest b xs
  le-highest [] b h = omega arith
  le-highest (x ∷ xs) b h = omega (arith, h.0, le-highest xs x h.1)

  -- No day is left above the last partition.
  pub highest-planned :
      (days : List Time) (latest : Time)
      → All (λ x. is_existing (partition_name cal x) existing ≡ true → x ≤ latest) days
      → All (λ x. x ≤ highest latest (planned latest days)) days
  highest-planned [] latest h = tt
  highest-planned (x ∷ xs) latest h = elim (Bool-cases (is_skipped latest x)) [
    | inl e ↦
        let up : latest ≤ highest latest (planned latest xs) =
          le-highest (planned latest xs) latest (Above-planned xs latest) in
        let same : planned latest (x ∷ xs) ≡ planned latest xs = rw e refl in
        subst (λ (ps : List Time). All (λ y. y ≤ highest latest ps) (x ∷ xs)) (sym same)
          (skipped e up, highest-planned xs latest h.1)
    | inr e ↦
        let above : latest < x = ground (arith, e) in
        let same : planned latest (x ∷ xs) ≡ x ∷ planned x xs = rw e refl in
        subst (λ (ps : List Time). All (λ y. y ≤ highest latest ps) (x ∷ xs)) (sym same)
          (
            le-highest (planned x xs) x (Above-planned xs x),
            highest-planned xs x (weaken xs h.1 above),
          )
  ]
    where
      skipped :
          is_skipped latest x ≡ true
          → latest ≤ highest latest (planned latest xs)
          → x ≤ highest latest (planned latest xs)
      skipped e up = elim (Bool-cases (is_existing (partition_name cal x) existing)) [
        | inl p ↦ omega (arith, h.0 p, up)
        | inr p ↦ ground (arith, e, p, up)
      ]

      weaken :
          (ys : List Time)
          → All (λ y. is_existing (partition_name cal y) existing ≡ true → y ≤ latest) ys
          → latest < x
          → All (λ y. is_existing (partition_name cal y) existing ≡ true → y ≤ x) ys
      weaken [] k l = tt
      weaken (y ∷ ys) k l = ((λ p. omega (arith, k.0 p, l)), weaken ys k.1 l)
