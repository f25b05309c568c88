-- ===== src/Storage/Mysql/Maintain/Batches.antt =====
-- What `deleteBatches` of storage/mysql/storage.go achieves.
use consul_timeline.Common.{
  ℕ, zero, suc, ◌-◌, ◌*◌, ◌≤◌, ◌≡◌, refl, ap, ◌∙◌, none, ◌⊎◌, inr, min, arith,
}
use consul_timeline.Storage.Mysql.Maintain.{while_some, delete_batches}

-- A DELETE with a LIMIT that succeeds: it affects the rows in question up to the limit, and those are
-- gone.
abbrev pub Deletes : {D E : Type 0} → (D → ℕ) → ℕ → (D → (E ⊎ ℕ) × D) → Type 0
Deletes {D = D} {E = E} remaining limit run =
    (d : D)
    → (d' : D) × ((run d ≡ (inr (min limit (remaining d)), d'))
        × (remaining d' ≡ remaining d - min limit (remaining d)))

-- Where no DELETE fails, `deleteBatches` ends without an error, and of the rows in question `rounds`
-- times the limit are gone, or all of them if there are no more. The limit is not 0, and a DELETE does
-- what SQL says of its LIMIT.
pub delete_batches-remaining :
    {D E : Type 0} (remaining : D → ℕ) (limit rounds : ℕ) (run : D → (E ⊎ ℕ) × D) (d : D)
    → 1 ≤ limit
    → Deletes remaining limit run
    → (d' : D) × ((delete_batches rounds run d ≡ (none, d'))
        × (remaining d' ≡ remaining d - rounds * limit))
unfolding delete_batches
delete_batches-remaining remaining limit zero run d l law = (d, (refl, omega arith))
delete_batches-remaining {D = D} {E = E} remaining limit (suc rounds) run d l law =
    let (c, (p, q)) = law d in
    step (min limit (remaining d)) refl c p q
      (delete_batches-remaining remaining limit rounds run c l law)
  where
    step :
        (n : ℕ)
        → min limit (remaining d) ≡ n
        → (c : D) → run d ≡ (inr (min limit (remaining d)), c)
        → remaining c ≡ remaining d - min limit (remaining d)
        → ((d' : D) × ((delete_batches rounds run c ≡ (none, d'))
              × (remaining d' ≡ remaining c - rounds * limit)))
        → (d' : D) × ((while_some (run d) (delete_batches rounds run) ≡ (none, d'))
            × (remaining d' ≡ remaining d - suc rounds * limit))
    step zero m c p q ih = (
      c,
      (
        ap (λ r. while_some r (delete_batches rounds run)) (p ∙ ap (λ k. (inr k, c)) m),
        omega (arith, m, q),
      ),
    )
    step (suc n) m c p q (d', (r, t)) = (
      d',
      (
        ap (λ r. while_some r (delete_batches rounds run)) (p ∙ ap (λ k. (inr k, c)) m) ∙ r,
        omega (arith, m, q, t),
      ),
    )
