-- ===== src/Timeline/Derive.antt =====
-- timeline/derive.go: the team, app and version of a registration.
use consul_timeline.Common.{
  ◌≡◌, ◌≢◌, refl, none, some, List, [], ◌∷◌, ◌++◌, ◌==◌, if◌then◌else◌, arith, Bool-cases, inl, inr,
  ◌⊎◌, All, keep, map, not,
}
use consul_timeline.Common.Text.{Text, text_eq, text_beq, text_beq_iff, bytes}
use consul_timeline.Common.Assoc.{lookup}
use consul_timeline.Common.Split.{split_on}

pub record Derive : Type 0 where
  pub team : List Text
  pub app : List Text
  pub version : List Text

abbrev pub default_derive : Derive
default_derive = record {
  team = bytes "team" ∷ bytes "owner" ∷ bytes "owners" ∷ [];
  app = bytes "app" ∷ bytes "application" ∷ [];
  version = bytes "version" ∷ [];
}

-- `meta[k]`, which is "" where the key is missing.
unfoldable pub meta_at : List (Text × Text) → Text → Text
unfolding lookup
meta_at meta k = elim (lookup k meta) [ none ↦ [] | some v ↦ v ]

unfoldable pub first : List (Text × Text) → List Text → Text
unfolding meta_at
first meta [] = []
first meta (k ∷ keys) = if meta_at meta k == [] then first meta keys else meta_at meta k

-- `Derive.Apply`.
unfoldable pub apply : Derive → List (Text × Text) → Text × Text × Text
apply d meta = (first meta d.team, first meta d.app, first meta d.version)

-- `SplitList`; `trim_space` is `strings.TrimSpace`.
unfoldable pub split_list : (Text → Text) → Text → List Text
unfolding split_on
split_list trim_space s = keep (λ v. not (v == [])) (map trim_space (split_on b',' s))

-- `first` is "" exactly when no listed key has a value; otherwise it is the value of a listed key
-- before which no listed key has a value.
pub first_lem :
    (meta : List (Text × Text)) (keys : List Text)
    → ((first meta keys ≡ []) × All (λ k. meta_at meta k ≡ []) keys)
      ⊎ ((before : List Text) × (k : Text) × (after : List Text) × (keys ≡ before ++ (k ∷ after))
          × All (λ j. meta_at meta j ≡ []) before
          × (first meta keys ≡ meta_at meta k)
          × (first meta keys ≢ []))
unfolding first
first_lem meta [] = inl (refl, tt)
first_lem meta (k ∷ keys) = elim (Bool-cases (text_beq (meta_at meta k) [])) [
  | inr e ↦ inr (
    [],
    k,
    keys,
    refl,
    tt,
    ground (arith, e),
    ground (arith, e, text_beq_iff (meta_at meta k) []),
  )
  | inl e ↦ elim (first_lem meta keys) [
    | inl (p, q) ↦ inl (rw e p, ((text_beq_iff _ _).0 e, q))
    | inr (b, j, a, p, q, r, s) ↦
        inr (k ∷ b, j, a, ground (arith, p), ((text_beq_iff _ _).0 e, q), rw e r, rw e s)
  ]
]
