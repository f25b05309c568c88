-- ===== src/Storage/Writer/Persist.antt =====
-- How `persist` of storage/writer.go ends.
use native.Mathlib.Decide.{dec_lt}
use consul_timeline.Common.{
  ℕ, zero, suc, ◌+◌, ◌≤◌, ◌<◌, ◌≡◌, refl, true, false, Option, some, leb, arith, ◌⊎◌, inl, inr,
  Bool-cases, subst,
}
use consul_timeline.Storage.Writer.{
  Outcome, stored, dropped, abandoned, Attempts, persist_loop, persist,
}

-- What an outcome says of the last attempt.
abbrev pub Explains : Attempts → Outcome → ℕ → Type 0
Explains env stored n = env.fails n ≡ false
Explains env dropped n = (env.fails n ≡ true) × ((n ≡ 3) ⊎ (env.ended n ≡ true))
Explains env abandoned n =
    (env.fails n ≡ true) × (env.ended n ≡ false) × (env.ends_waiting n ≡ true)

-- An attempt that is followed by another one.
abbrev pub Retried : Attempts → ℕ → Type 0
Retried env k = (env.fails k ≡ true) × (env.ended k ≡ false) × (env.ends_waiting k ≡ false)

-- A run of the loop that ends, with every attempt before the last retried.
abbrev pub Ends : Attempts → Option (Outcome × ℕ) → Type 0
Ends env r =
    (o : Outcome) × (n : ℕ) × (r ≡ some (o, n))
    × (1 ≤ n)
    × (n ≤ 3)
    × Explains env o n
    × ((k : ℕ) → 1 ≤ k → k < n → Retried env k)

persist_loop-Ends :
    (fuel : ℕ) (env : Attempts) (a : ℕ)
    → 1 ≤ a
    → 0 < fuel
    → fuel + a ≡ 4
    → ((k : ℕ) → 1 ≤ k → k < a → Retried env k)
    → Ends env (persist_loop fuel env a)
unfolding persist_loop
persist_loop-Ends zero env a p q e h = absurd (omega arith)
persist_loop-Ends (suc fuel) env a p q e h = elim (Bool-cases (env.fails a)) [
  | inr f ↦ (stored, a, rw f refl, p, omega arith, f, h)
  | inl f ↦ elim (Bool-cases (leb 3 a)) [
    | inl l ↦ (dropped, a, rw (f, l) refl, p, omega arith, (f, inl (ground arith)), h)
    | inr l ↦ elim (Bool-cases (env.ended a)) [
      | inl d ↦ (dropped, a, rw (f, l, d) refl, p, omega arith, (f, inr d), h)
      | inr d ↦ elim (Bool-cases (env.ends_waiting a)) [
        | inl w ↦ (abandoned, a, rw (f, l, d, w) refl, p, omega arith, (f, d, w), h)
        | inr w ↦
            rw (f, l, d, w)
              (persist_loop-Ends fuel env (a + 1) (omega arith) (ground arith) (omega arith)
                (λ k r s. elim (dec_lt k a) [
                  | yes t ↦ h k r t
                  | no t ↦ subst (Retried env) (omega arith) (f, d, w)
                ]))
      ]
    ]
  ]
]

-- `persist` always ends, after three attempts at most. Every attempt but the last fails, with the
-- context alive through the wait that follows, and the outcome says how the last one went: stored
-- if the write succeeded, dropped if it failed as the third or with the context ended, and
-- abandoned if the context ended during the wait.
pub persist-Ends : (env : Attempts) → Ends env (persist env)
unfolding persist
persist-Ends env =
    persist_loop-Ends 3 env 1 (omega arith) (omega arith) (omega arith)
      (λ k p q. absurd (omega arith))
