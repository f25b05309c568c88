-- ===== src/Storage/Mysql/Where/Like.antt =====
-- What `escapeLike` of storage/mysql/query.go is for: the patterns that it builds for LIKE.
use consul_timeline.Common.{
  ℕ, ◌≡◌, sym, subst, Bool, true, false, [], ◌∷◌, ◌++◌, if_ind, arith, inl, inr, Bool-cases,
}
use consul_timeline.Common.Text.{Text, bytes, has_prefix, contains}
use consul_timeline.Storage.Mysql.Where.{escape_like, is_wild, text_pattern}

-- How the database compares texts under a collation: `=` and LIKE.
pub record Collation : Type 0 where
  pub same : Text → Text → Bool
  pub like : Text → Text → Bool

-- What holds under every collation, as the manual describes LIKE: a text equals itself, a byte and a
-- byte after a backslash match themselves, and `%` matches any bytes. A collation may well take more
-- texts for equal, as the default one does with upper and lower case.
pub record CollationLaws (c : Collation) : Type 0 where
  pub same_refl : (s : Text) → c.same s s ≡ true
  pub plain :
      (b : ℕ) (s p : Text) → is_wild b ≡ false → c.like s p ≡ true → c.like (b ∷ s) (b ∷ p) ≡ true
  pub escaped : (b : ℕ) (s p : Text) → c.like s p ≡ true → c.like (b ∷ s) (b'\\' ∷ b ∷ p) ≡ true
  pub any_end : (s : Text) → c.like s (b'%' ∷ []) ≡ true
  pub any_here : (s p : Text) → c.like s p ≡ true → c.like s (b'%' ∷ p) ≡ true
  pub any_later :
      (b : ℕ) (s p : Text) → c.like s (b'%' ∷ p) ≡ true → c.like (b ∷ s) (b'%' ∷ p) ≡ true

module _ (c : Collation) (laws : CollationLaws c) where
  -- An escaped text followed by `%` selects the texts that begin with it.
  pub like-escape_like :
      (p s : Text) → has_prefix s p ≡ true → c.like s (escape_like p ++ bytes "%") ≡ true
  unfolding escape_like has_prefix
  like-escape_like [] s h = laws.any_end s
  like-escape_like (b ∷ p) [] h = absurd (cc)
  like-escape_like (b ∷ p) (d ∷ s) h =
      let same : d ≡ b = ground (arith, h) in
      let rest : c.like s (escape_like p ++ bytes "%") ≡ true =
        like-escape_like p s (ground (arith, h)) in
      if_ind (λ (e : Text). c.like (d ∷ s) ((e ++ escape_like p) ++ bytes "%") ≡ true) (is_wild b) _
        _
        (λ _.
          subst (λ x. c.like (x ∷ s) (b'\\' ∷ b ∷ (escape_like p ++ bytes "%")) ≡ true) (sym same)
            (laws.escaped b s (escape_like p ++ bytes "%") rest))
        (λ w.
          subst (λ x. c.like (x ∷ s) (b ∷ (escape_like p ++ bytes "%")) ≡ true) (sym same)
            (laws.plain b s (escape_like p ++ bytes "%") w rest))

  -- With a `%` on either side it selects the texts that contain it.
  pub like-text_pattern : (t s : Text) → contains s t ≡ true → c.like s (text_pattern t) ≡ true
  unfolding contains
  like-text_pattern t [] h = laws.any_here [] (escape_like t ++ bytes "%") (like-escape_like t [] h)
  like-text_pattern t (d ∷ s) h = elim (Bool-cases (has_prefix (d ∷ s) t)) [
    | inl e ↦ laws.any_here (d ∷ s) (escape_like t ++ bytes "%") (like-escape_like t (d ∷ s) e)
    | inr e ↦
        laws.any_later d s (escape_like t ++ bytes "%")
          (like-text_pattern t s (ground (arith, h, e)))
  ]
