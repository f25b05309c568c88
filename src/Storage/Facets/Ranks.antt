-- ===== src/Storage/Facets/Ranks.antt =====
-- Which values `Facets` of storage/memory/storage.go lists for a field, and in which order.
use consul_timeline.Common.{
  ℕ, ◌≤◌, ◌<◌, ◌≡◌, ◌⊎◌, refl, sym, ap, ◌∙◌, Bool, true, false, ◌||◌, Option, none, some, List, [],
  ◌∷◌, ◌==◌, keep, length, take, map, arith, All, All-map, Bool-cases, inl, inr,
}
use consul_timeline.Common.Text.{Text, text_eq, text_beq, text_beq_iff, text_ltb}
use consul_timeline.Common.Assoc.{lookup, RangeOrder, IsDistinct}
use consul_timeline.Common.Counts.{
  count_at, count_values, count_values-IsDistinct, lookup-count_values, count_at-count_values,
  All-lookup, All-count_values,
}
use consul_timeline.Common.Sort.{sort, insert_sorted, IsSorted, All-sort, insert_sorted-IsSorted}
use consul_timeline.Timeline.Event.{Event}
use consul_timeline.Storage.Backend.{FacetValue}
use consul_timeline.Storage.Facets.{all_values, facet_precedes, to_value, field_facet}

not_empty : (v : Text) (n : ℕ) → lookup {V = ℕ} v [] ≡ some n → ⊥
unfolding lookup
not_empty v n h = cc

text_ltb_trans : (s t u : Text) → text_ltb s t ≡ true → text_ltb t u ≡ true → text_ltb s u ≡ true
unfolding text_ltb
text_ltb_trans s t [] h k = absurd (cc)
text_ltb_trans s [] (c ∷ u) h k = absurd (cc)
text_ltb_trans [] (b ∷ t) (c ∷ u) h k = refl
text_ltb_trans (a ∷ s) (b ∷ t) (c ∷ u) h k = ground (arith, h, k, text_ltb_trans s t u)

text_ltb_total : (s t : Text) → text_ltb s t ≡ false → text_beq s t ≡ false → text_ltb t s ≡ true
unfolding text_ltb text_beq
text_ltb_total [] [] h k = absurd (cc)
text_ltb_total [] (b ∷ t) h k = absurd (cc)
text_ltb_total (a ∷ s) [] h k = refl
text_ltb_total (a ∷ s) (b ∷ t) h k = ground (arith, h, k, text_ltb_total s t)

facet_trans :
    (x y z : FacetValue)
    → facet_precedes x y ≡ true
    → facet_precedes y z ≡ true
    → facet_precedes x z ≡ true
facet_trans x y z h k = ground (arith, h, k, text_ltb_trans x.value y.value z.value)

facet_total :
    (x y : FacetValue)
    → text_beq y.value x.value ≡ false
    → facet_precedes y x ≡ false
    → facet_precedes x y ≡ true
facet_total x y n h = ground (arith, h, n, text_ltb_total y.value x.value)

-- Every value is followed by values that are rarer, or as frequent and greater.
abbrev pub IsAhead : FacetValue → FacetValue → Type 0
IsAhead x y = (y.count < x.count) ⊎ ((y.count ≡ x.count) × (text_ltb x.value y.value ≡ true))

abbrev pub AreRanked : List FacetValue → Type 0
AreRanked [] = Unit
AreRanked (x ∷ xs) = All (IsAhead x) xs × AreRanked xs

facet_precedes-IsAhead : (x y : FacetValue) → facet_precedes x y ≡ true → IsAhead x y
facet_precedes-IsAhead x y h = ground (arith, h)

IsSorted-AreRanked : (xs : List FacetValue) → IsSorted facet_precedes xs → AreRanked xs
IsSorted-AreRanked [] h = tt
IsSorted-AreRanked (x ∷ xs) h = (
  All-map {P = λ y. facet_precedes x y ≡ true} {Q = IsAhead x} (λ y k. facet_precedes-IsAhead x y k)
      xs h.0,
  IsSorted-AreRanked xs h.1,
)

-- A facet value that tells how often it occurs, which is once or more.
abbrev pub IsCount : List Text → FacetValue → Type 0
IsCount vs x = (x.count ≡ length (keep (λ u. u == x.value) vs)) × (1 ≤ x.count)

-- Whether a value is listed.
abbrev pub is_listed : Text → List FacetValue → Bool
is_listed v [] = false
is_listed v (x ∷ xs) = text_beq x.value v || is_listed v xs

abbrev pub is_value : Text → List Text → Bool
is_value v [] = false
is_value v (u ∷ us) = text_beq u v || is_value v us

module _ (less : FacetValue → FacetValue → Bool) (v : Text) where
  is_listed-insert_sorted :
      (x : FacetValue) (xs : List FacetValue)
      → is_listed v (insert_sorted less x xs) ≡ (text_beq x.value v || is_listed v xs)
  unfolding insert_sorted
  is_listed-insert_sorted x [] = refl
  is_listed-insert_sorted x (y ∷ ys) = elim (Bool-cases (less y x)) [
    | inl e ↦ rw e (ground (arith, is_listed-insert_sorted x ys))
    | inr e ↦ rw e refl
  ]

  is_listed-sort : (xs : List FacetValue) → is_listed v (sort less xs) ≡ is_listed v xs
  unfolding sort
  is_listed-sort [] = refl
  is_listed-sort (x ∷ xs) =
      is_listed-insert_sorted x (sort less xs)
      ∙ ap (λ b. text_beq x.value v || b) (is_listed-sort xs)

is_listed-lookup :
    (v : Text) (m : List (Text × ℕ)) (n : ℕ)
    → lookup v m ≡ some n
    → is_listed v (map to_value m) ≡ true
unfolding lookup
is_listed-lookup v [] n h = absurd (cc)
is_listed-lookup v ((u, i) ∷ m) n h = elim (Bool-cases (text_beq u v)) [
  | inl e ↦ ground (arith, e)
  | inr e ↦ ground (arith, e, is_listed-lookup v m n (let q : lookup v m ≡ some n = rw e at h in q))
]

occurs : (v : Text) (vs : List Text) → is_value v vs ≡ true → 1 ≤ length (keep (λ u. u == v) vs)
occurs v [] h = absurd (cc)
occurs v (u ∷ us) h = elim (Bool-cases (text_beq u v)) [
  | inl e ↦ rw e (omega arith)
  | inr e ↦ rw e (occurs v us (ground (arith, e, h)))
]

own_values :
    (vs us : List Text)
    → ((v : Text) → is_value v us ≡ true → is_value v vs ≡ true)
    → All (λ v. is_value v vs ≡ true) us
own_values vs [] h = tt
own_values vs (u ∷ us) h = (
  h u (ground (arith, (text_beq_iff u u).1 refl)),
  own_values vs us (λ v k. h v (ground (arith, k))),
)

All-apart :
    (k : Text) (m : List (Text × ℕ))
    → lookup k m ≡ none
    → All (λ y. text_beq y.value k ≡ false) (map to_value m)
unfolding lookup
All-apart k [] h = tt
All-apart k ((j, n) ∷ m) h = elim (Bool-cases (text_beq j k)) [
  | inl e ↦ absurd (let q : some n ≡ none = rw e at h in cc)
  | inr e ↦ (e, All-apart k m (let q : lookup k m ≡ none = rw e at h in q))
]

sort-IsSorted :
    (m : List (Text × ℕ))
    → IsDistinct m
    → IsSorted facet_precedes (sort facet_precedes (map to_value m))
unfolding sort
sort-IsSorted [] d = tt
sort-IsSorted ((k, n) ∷ m) d =
    let x : FacetValue = to_value (k, n) in
    insert_sorted-IsSorted facet_precedes facet_trans x (sort facet_precedes (map to_value m))
      (All-sort facet_precedes (λ y. facet_precedes y x ≡ false → facet_precedes x y ≡ true)
        (map to_value m)
        (All-map {P = λ y. text_beq y.value k ≡ false}
          {Q = λ y. facet_precedes y x ≡ false → facet_precedes x y ≡ true}
          (λ y a. facet_total x y a) (map to_value m) (All-apart k m d.0)))
      (sort-IsSorted m d.1)

All-to_value :
    (vs : List Text) (m : List (Text × ℕ))
    → All (λ p. IsCount vs (to_value p)) m
    → All (IsCount vs) (map to_value m)
All-to_value vs [] h = tt
All-to_value vs (p ∷ m) h = (h.0, All-to_value vs m h.1)

-- What `Facets` lists for a field is the beginning, up to the limit, of a ranking of all values of the
-- matching events for that field: each value is in it, with the number of its occurrences, and is
-- followed by values that are rarer, or as frequent and greater. The runtime may visit the map of
-- counts in any order.
pub field_facet-AreRanked :
    (order : RangeOrder Text ℕ) (limit : ℕ) (all : List Event) (f : Text)
    → (ranked : List FacetValue) × ((field_facet order limit all f ≡ take limit ranked)
        × (AreRanked ranked
            × (All (IsCount (all_values f all)) ranked
                × ((v : Text) → is_value v (all_values f all) ≡ true → is_listed v ranked ≡ true))))
unfolding field_facet
field_facet-AreRanked order limit all f =
    let vs : List Text = all_values f all in
    let m : List (Text × ℕ) = count_values [] vs in
    let d : IsDistinct (order.range m) =
      order.range-IsDistinct m (count_values-IsDistinct vs [] tt) in
    (
      sort facet_precedes (map to_value (order.range m)),
      (
        refl,
        (
          IsSorted-AreRanked _ (sort-IsSorted (order.range m) d),
          (
            All-sort facet_precedes (IsCount vs) _ (
                All-to_value vs (order.range m) (
                  All-lookup (λ p. IsCount vs (to_value p)) (order.range m) d
                    (λ v n h. own_count vs v n (sym (order.lookup-range v m) ∙ h)))),
            λ v h.
                is_listed-sort facet_precedes v (map to_value (order.range m))
                ∙ present v vs (lookup v m) refl
                    (λ n e. is_listed-lookup v (order.range m) n (order.lookup-range v m ∙ e)) h,
          ),
        ),
      ),
    )
  where
    own_count :
        (vs : List Text) (v : Text) (n : ℕ)
        → lookup v (count_values [] vs) ≡ some n
        → IsCount vs (to_value (v, n))
    own_count vs v n e =
        let same = lookup-count_values v n vs e in
        let here : is_value v vs ≡ true =
          All-count_values (λ u. is_value u vs ≡ true) vs [] v n (own_values vs vs (λ u k. k))
            (λ i q. absurd (not_empty v i q)) e in
        (same, omega (arith, same, occurs v vs here))

    present :
        (v : Text) (vs : List Text) (o : Option ℕ)
        → lookup v (count_values [] vs) ≡ o
        → ((n : ℕ)
            → o ≡ some n
            → is_listed v (map to_value (order.range (count_values [] vs))) ≡ true)
        → is_value v vs ≡ true
        → is_listed v (map to_value (order.range (count_values [] vs))) ≡ true
    present v vs (some n) e k h = k n refl
    present v vs none e k h =
        let zero_times : count_at v (count_values [] vs) ≡ 0 =
          ap (λ o. elim o [ none ↦ 0 | some i ↦ i ]) e in
        absurd (omega (arith, zero_times, count_at-count_values v vs [], occurs v vs h))
