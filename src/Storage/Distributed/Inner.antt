-- ===== src/Storage/Distributed/Inner.antt =====
-- What reaches the inner storage behind the lock of storage/distributed.go.
use consul_timeline.Common.{
  ℕ, zero, suc, ◌≡◌, refl, sym, ap, subst, ◌∙◌, Bool, true, false, Option, none, some, List, [],
  ◌∷◌, ◌++◌, if◌then◌else◌, arith, ap₂, Bool-cases, inl, inr,
}
use consul_timeline.Storage.Backend.{Backend}
use consul_timeline.Storage.Distributed.{
  Stage, making, acquiring, adding, setting, holding, losing, lost, stopping, unlocking, finishing,
  returned, Turn, goes_on, fails, sees_loss, sees_stop, Write, Distributed, new_distributed,
  done_done, advance, is_waiting, lock_step, take_out, call, write_all, Op, turns, checks, performs,
  run,
}

-- The stage that follows.
unfoldable pub next_stage : Stage → Turn → Stage
next_stage making goes_on = acquiring
next_stage acquiring goes_on = adding
next_stage adding goes_on = setting
next_stage setting goes_on = holding
next_stage holding sees_loss = losing
next_stage holding sees_stop = stopping
next_stage losing goes_on = lost
next_stage lost goes_on = acquiring
next_stage stopping goes_on = unlocking
next_stage unlocking goes_on = finishing
next_stage finishing goes_on = returned
next_stage stage turn = stage

-- From the acquisition of the lock until its loss or `stop` has been noticed and the flag cleared.
abbrev pub is_led : Stage → Bool
is_led holding = true
is_led losing = true
is_led stopping = true
is_led _ = false

-- From `s.done.Add(1)` to `s.done.Done()`.
abbrev pub is_counted : Stage → Bool
is_counted making = false
is_counted acquiring = false
is_counted adding = false
is_counted returned = false
is_counted _ = true

-- The writes that are to reach the inner storage, given those on their way.
unfoldable pub passed : Stage → List Write → List Op → List Write
unfolding next_stage take_out
passed stage ps [] = []
passed stage ps (turns t ∷ ops) = passed (next_stage stage t) ps ops
passed stage ps (checks w ∷ ops) = passed stage (if is_led stage then ps ++ (w ∷ []) else ps) ops
passed stage ps (performs i ∷ ops) = elim (take_out i ps) [
  | none ↦ passed stage ps ops
  | some (w, qs) ↦ w ∷ passed stage qs ops
]

-- The leader flag and the counter say where the loop stands.
pub record IsLed {S E : Type 0} (d : Distributed S E) : Type 0 where
  pub flag : d.leader ≡ is_led d.stage
  pub count : d.waiting ≡ (if is_counted d.stage then 1 else 0)

-- A result that is a state with the invariant, a given stage, and all else that a step of the loop
-- leaves alone.
abbrev Reaches : {S E : Type 0} → Distributed S E → Stage → Option (Distributed S E) → Type 0
Reaches {S = S} {E = E} d stage o =
    (e : Distributed S E) × (o ≡ some e)
    × IsLed e
    × (e.stage ≡ stage)
    × (e.inner ≡ d.inner)
    × (e.pending ≡ d.pending)

module _ {S E : Type 0} (d : Distributed S E) where
  done_done-IsLed :
      (stage : Stage) (n : ℕ)
      → d.leader ≡ false
      → is_led stage ≡ false
      → is_counted stage ≡ false
      → n ≡ 1
      → Reaches d stage (done_done d stage n)
  done_done-IsLed stage zero l a c h = absurd (omega (arith, h))
  done_done-IsLed stage (suc n) l a c h = (
    _,
    refl,
    record { flag = l ∙ sym a; count = omega (arith, h) ∙ ap (λ x. if x then 1 else 0) (sym c) },
    refl,
    refl,
    refl,
  )

  advance-IsLed :
      (stage : Stage)
      → d.leader ≡ is_led stage
      → d.waiting ≡ (if is_counted stage then 1 else 0)
      → d.stage ≡ stage
      → Reaches d (next_stage stage goes_on) (advance d stage)
  unfolding advance next_stage
  advance-IsLed making l c p = (_, refl, record { flag = l; count = c }, refl, refl, refl)
  advance-IsLed acquiring l c p = (_, refl, record { flag = l; count = c }, refl, refl, refl)
  advance-IsLed adding l c p =
      (_, refl, record { flag = l; count = omega (arith, c) }, refl, refl, refl)
  advance-IsLed setting l c p = (_, refl, record { flag = refl; count = c }, refl, refl, refl)
  advance-IsLed holding l c p = (
    d,
    refl,
    record {
      flag = l ∙ ap is_led (sym p);
      count = c ∙ ap (λ s. if is_counted s then 1 else 0) (sym p);
    },
    p,
    refl,
    refl,
  )
  advance-IsLed losing l c p = (_, refl, record { flag = refl; count = c }, refl, refl, refl)
  advance-IsLed lost l c p = done_done-IsLed acquiring d.waiting l refl refl c
  advance-IsLed stopping l c p = (_, refl, record { flag = refl; count = c }, refl, refl, refl)
  advance-IsLed unlocking l c p = (_, refl, record { flag = l; count = c }, refl, refl, refl)
  advance-IsLed finishing l c p = done_done-IsLed returned d.waiting l refl refl c
  advance-IsLed returned l c p = (
    d,
    refl,
    record {
      flag = l ∙ ap is_led (sym p);
      count = c ∙ ap (λ s. if is_counted s then 1 else 0) (sym p);
    },
    p,
    refl,
    refl,
  )

  -- What the `select` sees leaves the flag and the counter alone.
  seen-IsLed :
      (t : Turn) (stage next : Stage)
      → d.stage ≡ stage
      → next ≡ next_stage stage t
      → d.leader ≡ is_led next
      → d.waiting ≡ (if is_counted next then 1 else 0)
      → Reaches d (next_stage stage t) (some (record d { stage = next }))
  seen-IsLed t stage next p n l c = (_, refl, record { flag = l; count = c }, n, refl, refl)

  stays :
      (t : Turn) (stage : Stage)
      → IsLed d
      → d.stage ≡ stage
      → next_stage stage t ≡ stage
      → Reaches d (next_stage stage t) (some d)
  stays t stage v p n = (d, refl, v, p ∙ sym n, refl, refl)

  select-IsLed :
      (t : Turn) (next stage : Stage)
      → IsLed d
      → d.leader ≡ is_led stage
      → d.waiting ≡ (if is_counted stage then 1 else 0)
      → d.stage ≡ stage
      → next_stage holding t ≡ next
      → is_led next ≡ true
      → is_counted next ≡ true
      → ((s : Stage) → is_waiting s ≡ false → next_stage s t ≡ s)
      → Reaches d
          (next_stage stage t)
          (some (if is_waiting stage then record d { stage = next } else d))
  select-IsLed t next stage v l c p n a k other = elim (Bool-cases (is_waiting stage)) [
    | inl w ↦
        let h : stage ≡ holding = is_holding stage w in
        subst
          (λ (b : Bool).
            Reaches d (next_stage stage t) (some (if b then record d { stage = next } else d)))
          (sym w)
          (seen-IsLed t stage next p (sym n ∙ ap (λ s. next_stage s t) (sym h))
            (l ∙ ap is_led h ∙ sym a)
            (c ∙ ap (λ s. if is_counted s then 1 else 0) h ∙ ap (λ b. if b then 1 else 0) (sym k)))
    | inr w ↦
        subst
          (λ (b : Bool).
            Reaches d (next_stage stage t) (some (if b then record d { stage = next } else d)))
          (sym w) (stays t stage v p (other stage w))
  ]
    where
      is_holding : (s : Stage) → is_waiting s ≡ true → s ≡ holding
      is_holding s h = ground (arith, h)

  lock_step-IsLed : (t : Turn) → IsLed d → Reaches d (next_stage d.stage t) (lock_step d t)
  unfolding lock_step next_stage
  lock_step-IsLed goes_on v = advance-IsLed d.stage v.flag v.count refl
  lock_step-IsLed fails v = stays fails d.stage v refl (failed d.stage)
    where
      failed : (s : Stage) → next_stage s fails ≡ s
      failed s = ground arith
  lock_step-IsLed sees_loss v =
      select-IsLed sees_loss losing d.stage v v.flag v.count refl refl refl refl
        (λ s h. ground (arith, h))
  lock_step-IsLed sees_stop v =
      select-IsLed sees_stop stopping d.stage v v.flag v.count refl refl refl refl
        (λ s h. ground (arith, h))

module _ {S E : Type 0} (b : Backend S E) where
  abbrev Outcome : Distributed S E → List Op → Option (Distributed S E) → Type 0
  Outcome d ops o =
      (e : Distributed S E) × (o ≡ some e)
      × IsLed e
      × (e.inner ≡ write_all b (passed d.stage d.pending ops) d.inner)

  run_lem : (d : Distributed S E) (ops : List Op) → IsLed d → Outcome d ops (run b d ops)
  unfolding run passed write_all
  run_lem d [] v = (d, refl, v, refl)
  run_lem d (turns t ∷ ops) v =
      let (e, p, u, q, r, m) = lock_step-IsLed d t v in
      let (g, k, w, n) = run_lem e ops u in
      (
        g,
        rw (p, run) k,
        w,
        n
            ∙ ap (λ s. write_all b (passed e.stage e.pending ops) s) r
            ∙ ap₂ (λ s ps. write_all b (passed s ps ops) d.inner) q m,
      )
  run_lem d (checks w ∷ ops) v =
      go d.leader (is_led d.stage) v.flag
        (run_lem (record d { pending = d.pending ++ (w ∷ []) }) ops
          (record { flag = v.flag; count = v.count }))
        (run_lem (record d { replies = d.replies ++ (none ∷ []) }) ops
          (record { flag = v.flag; count = v.count }))
    where
      go :
          (x y : Bool)
          → x ≡ y
          → Outcome
              (record d { pending = d.pending ++ (w ∷ []) })
              ops
              (run b (record d { pending = d.pending ++ (w ∷ []) }) ops)
          → Outcome
              (record d { replies = d.replies ++ (none ∷ []) })
              ops
              (run b (record d { replies = d.replies ++ (none ∷ []) }) ops)
          → (e : Distributed S E) × (run b
                (if x
                  then record d { pending = d.pending ++ (w ∷ []) }
                  else record d { replies = d.replies ++ (none ∷ []) })
                ops
              ≡ some e)
            × IsLed e
            × (e.inner
                ≡ write_all b
                    (passed d.stage (if y then d.pending ++ (w ∷ []) else d.pending) ops)
                    d.inner)
      go true true h p q = p
      go true false h p q = absurd (cc)
      go false true h p q = absurd (cc)
      go false false h p q = q
  run_lem d (performs i ∷ ops) v = go (take_out i d.pending) (λ e u. run_lem e ops u)
    where
      go :
          (o : Option (Write × List Write))
          → ((e : Distributed S E) → IsLed e → Outcome e ops (run b e ops))
          → (e : Distributed S E) × (run b
                (elim o [
                  | none ↦ d
                  | some (w, rest) ↦ record d {
                    inner = (call b w d.inner).1;
                    pending = rest;
                    replies = d.replies ++ ((call b w d.inner).0 ∷ []);
                  }
                ])
                ops
              ≡ some e)
            × IsLed e
            × (e.inner
                ≡ write_all b
                    (elim o [
                      | none ↦ passed d.stage d.pending ops
                      | some (w, qs) ↦ w ∷ passed d.stage qs ops
                    ])
                    d.inner)
      go none h = h d v
      go (some (w, rest)) h =
          h
            (record d {
              inner = (call b w d.inner).1;
              pending = rest;
              replies = d.replies ++ ((call b w d.inner).0 ∷ []);
            })
            (record { flag = v.flag; count = v.count })

  -- From the start, whatever the lock answers, and however the steps of the loop and of the calls that
  -- write interleave: nothing panics; the leader flag is set exactly from the acquisition of the lock
  -- until the loop has noticed its loss, or `stop`, and cleared it; and the inner storage has taken
  -- exactly the writes of calls that looked at the flag while it was set, each once, in the order in
  -- which they came to write. Such a call may come to write after the flag is cleared.
  pub run-inner :
      (s : S) (ops : List Op)
      → (e : Distributed S E) × (run b (new_distributed s) ops ≡ some e)
        × IsLed e
        × (e.inner ≡ write_all b (passed making [] ops) s)
  run-inner s ops = run_lem (new_distributed s) ops (record { flag = refl; count = refl })
