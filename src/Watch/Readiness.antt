-- ===== src/Watch/Readiness.antt =====
-- watch/watch.go: readiness, the count of the initial fetches still outstanding.
use consul_timeline.Common.{
  ℕ, suc, ◌+◌, ◌≤◌, ◌≡◌, refl, ◌∙◌, ap, subst, Bool, true, false, ◌&&◌, ◌||◌, not, Option, none,
  some, List, [], ◌∷◌, if◌then◌else◌, leb, nat_beq, arith,
}
use consul_timeline.Common.Int.{ℤ, pos, pos_part, neg_part, ◌+ℤ◌, ◌-ℤ◌, +ℤ_parts, -ℤ_parts}

-- `done_closed` says that the channel `done` is closed. The mutex makes each operation one step.
pub record Readiness : Type 0 where
  pub lists : ℕ
  pub pending : ℤ
  pub closed : Bool
  pub done_closed : Bool

-- `readiness{done: make(chan struct{})}`.
abbrev pub fresh : Readiness
fresh = record { lists = 0; pending = pos 0; closed = false; done_closed = false }

abbrev not_positive : ℤ → Bool
not_positive p = leb (pos_part p) (neg_part p)

-- `close(r.done)`: closing a closed channel panics, which is `none`.
abbrev close_done : Readiness → Option Readiness
close_done r = if r.done_closed then none else some (record r { done_closed = true })

unfoldable pub check : Readiness → Option Readiness
check r =
    if not r.closed && (nat_beq r.lists 2 && not_positive r.pending)
    then close_done (record r { closed = true })
    else some r

unfoldable pub list_arrived : ℕ → Readiness → Option Readiness
unfolding check
list_arrived children r =
    check (record r { lists = r.lists + 1; pending = r.pending +ℤ pos children })

unfoldable pub child_ready : Readiness → Option Readiness
unfolding check
child_ready r = check (record r { pending = r.pending -ℤ pos 1 })

infixl 5 ◌>>=◌
abbrev ◌>>=◌ : Option Readiness → (Readiness → Option Readiness) → Option Readiness
none >>= f = none
some r >>= f = f r

-- The calls that the service list, the node list and their children make, in any interleaving.
pub data Call : Type 0 where
  list : ℕ → Call
  child : Call

unfoldable pub run : Readiness → List Call → Option Readiness
unfolding list_arrived child_ready
run r [] = some r
run r (list n ∷ cs) = do s ← list_arrived n r; run s cs
run r (child ∷ cs) = do s ← child_ready r; run s cs

-- How many lists arrived, how many children they announced, and how many reported.
unfoldable pub lists_in : List Call → ℕ
lists_in [] = 0
lists_in (list n ∷ cs) = suc (lists_in cs)
lists_in (child ∷ cs) = lists_in cs

unfoldable pub announced : List Call → ℕ
announced [] = 0
announced (list n ∷ cs) = n + announced cs
announced (child ∷ cs) = announced cs

unfoldable pub reported : List Call → ℕ
reported [] = 0
reported (list n ∷ cs) = reported cs
reported (child ∷ cs) = suc (reported cs)

-- The state after `l` lists with `a` children, `d` of which have reported.
record Counts (r : Readiness) (l a d : ℕ) : Type 0 where
  seen : r.lists ≡ l
  left : pos_part r.pending + d ≡ neg_part r.pending + a
  flag : r.closed ≡ (nat_beq l 2 && leb a d)
  channel : r.done_closed ≡ r.closed

-- What `check` leaves, where the channel is closed exactly when the flag is set.
checked : Readiness → Readiness
checked r =
    let ready : Bool = r.closed || (nat_beq r.lists 2 && not_positive r.pending) in
    record r { closed = ready; done_closed = ready }

check-checked : (r : Readiness) → r.done_closed ≡ r.closed → check r ≡ some (checked r)
unfolding check checked
check-checked r h = ground arith

checked-Counts :
    (r : Readiness) (l a d : ℕ)
    → r.lists ≡ l
    → pos_part r.pending + d ≡ neg_part r.pending + a
    → (r.closed ≡ true → (l ≡ 2) × (a ≤ d))
    → Counts (checked r) l a d
unfolding checked
checked-Counts r l a d h k c = record { seen = h; left = k; flag = ground arith; channel = refl }

list_arrived-Counts :
    (r : Readiness) (l a d n : ℕ)
    → Counts r l a d
    → suc l ≤ 2
    → (s : Readiness) × (list_arrived n r ≡ some s) × Counts s (suc l) (n + a) d
unfolding list_arrived
list_arrived-Counts r l a d n c h =
    let r' : Readiness = record r { lists = r.lists + 1; pending = r.pending +ℤ pos n } in
    (
      checked r',
      check-checked r' c.channel,
      checked-Counts r' (suc l) (n + a) d (omega (arith, c.seen))
          (omega (arith, c.left, +ℤ_parts r.pending (pos n)))
          (λ e. absurd (ground (arith, c.flag))),
    )

child_ready-Counts :
    (r : Readiness) (l a d : ℕ)
    → Counts r l a d
    → (s : Readiness) × (child_ready r ≡ some s) × Counts s l a (suc d)
unfolding child_ready
child_ready-Counts r l a d c =
    let r' : Readiness = record r { pending = r.pending -ℤ pos 1 } in
    (
      checked r',
      check-checked r' c.channel,
      checked-Counts r' l a (suc d) c.seen (omega (arith, c.left, -ℤ_parts r.pending (pos 1)))
          (λ e. ground (arith, c.flag)),
    )

recount :
    {s : Readiness} {l a d : ℕ} (l' a' d' : ℕ)
    → l ≡ l'
    → a ≡ a'
    → d ≡ d'
    → Counts s l a d
    → Counts s l' a' d'
recount {s} {l} {a} l' a' d' p q r c =
    subst (λ n. Counts s n a' d') p
      (subst (λ n. Counts s l n d') q (subst (λ n. Counts s l a n) r c))

run-Counts :
    (cs : List Call) (r : Readiness) (l a d : ℕ)
    → Counts r l a d
    → l + lists_in cs ≤ 2
    → (s : Readiness) × (run r cs ≡ some s)
      × Counts s (l + lists_in cs) (a + announced cs) (d + reported cs)
unfolding run lists_in announced reported
run-Counts [] r l a d c h =
    (r, refl, recount (l + 0) (a + 0) (d + 0) (omega arith) (omega arith) (omega arith) c)
run-Counts (list n ∷ cs) r l a d c h =
    let (s, e, k) = list_arrived-Counts r l a d n c (omega arith) in
    let (u, f, m) = run-Counts cs s (suc l) (n + a) d k (omega arith) in
    (
      u,
      ap (λ o. o >>= λ t. run t cs) e ∙ f,
      recount _ _ _ (omega arith) (omega arith) (omega arith) m,
    )
run-Counts (child ∷ cs) r l a d c h =
    let (s, e, k) = child_ready-Counts r l a d c in
    let (u, f, m) = run-Counts cs s l a (suc d) k h in
    (
      u,
      ap (λ o. o >>= λ t. run t cs) e ∙ f,
      recount _ _ _ (omega arith) (omega arith) (omega arith) m,
    )

-- Whatever the interleaving of the two lists and of their children, no call panics, and the channel
-- is closed exactly when both lists have arrived and at least as many children have reported as the
-- lists announced. At most two lists arrive.
pub run-ready :
    (cs : List Call)
    → lists_in cs ≤ 2
    → (s : Readiness) × (run fresh cs ≡ some s)
      × (s.done_closed ≡ (nat_beq (lists_in cs) 2 && leb (announced cs) (reported cs)))
run-ready cs h =
    let start : Counts fresh 0 0 0 = record {
      seen = refl;
      left = refl;
      flag = refl;
      channel = refl;
    } in
    let (s, e, c) = run-Counts cs fresh 0 0 0 start (omega arith) in
    let c' : Counts s (lists_in cs) (announced cs) (reported cs) =
      recount _ _ _ (omega arith) (omega arith) (omega arith) c in
    (s, e, c'.channel ∙ c'.flag)
