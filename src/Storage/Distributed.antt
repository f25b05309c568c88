-- ===== src/Storage/Distributed.antt =====
-- storage/distributed.go: a backend behind a lock, of which only the holder writes.
pub mod Inner
use consul_timeline.Common.{
  ℕ, zero, suc, ◌+◌, Bool, true, false, Option, none, some, List, [], ◌∷◌, ◌++◌, if◌then◌else◌,
}
use consul_timeline.Timeline.Event.{Event, Instance}
use consul_timeline.Storage.Backend.{Backend}

-- The statement of `lockLoop` that comes next: `Lock()` of the first loop, `lock.Lock`,
-- `s.done.Add(1)`, `s.leader.Store(true)`, the `select`; after the loss of the lock
-- `s.leader.Store(false)` and `s.done.Done()`; after `stop` `s.leader.Store(false)`, `lock.Unlock`
-- and `s.done.Done()`; or none.
pub data Stage : Type 0 where
  making acquiring adding setting holding losing lost stopping unlocking finishing returned : Stage

-- What makes the loop take its next step: the statement is done, which for a call of the Consul
-- client library means that it answers without an error, and for `lock.Unlock`, whose error is only
-- logged, that it answers; the call fails; or the `select` sees the channel of the lock closed, or
-- `stop`.
pub data Turn : Type 0 where
  goes_on fails sees_loss sees_stop : Turn

-- The writes of a backend.
pub data Write : Type 0 where
  store : List Event → Write
  upsert : List Instance → Write
  maintains : Write

-- `Distributed`, with its inner storage. `waiting` is the counter of the `done` group; `pending` are
-- the calls that have seen the flag set and not yet written; `replies` are what the calls returned.
pub record Distributed (S E : Type 0) : Type 0 where
  pub inner : S
  pub leader : Bool
  pub waiting : ℕ
  pub stage : Stage
  pub pending : List Write
  pub replies : List (Option E)

-- `NewDistributed`.
abbrev pub new_distributed : {S E : Type 0} → S → Distributed S E
new_distributed s = record {
  inner = s;
  leader = false;
  waiting = 0;
  stage = making;
  pending = [];
  replies = [];
}

-- `s.done.Done()`: a counter below 0 panics, which is `none`.
abbrev pub done_done : {S E : Type 0} → Distributed S E → Stage → ℕ → Option (Distributed S E)
done_done d stage zero = none
done_done d stage (suc n) = some (record d { waiting = n; stage = stage })

-- The statement that comes next is done.
unfoldable pub advance : {S E : Type 0} → Distributed S E → Stage → Option (Distributed S E)
advance d making = some (record d { stage = acquiring })
advance d acquiring = some (record d { stage = adding })
advance d adding = some (record d { waiting = d.waiting + 1; stage = setting })
advance d setting = some (record d { leader = true; stage = holding })
advance d holding = some d
advance d losing = some (record d { leader = false; stage = lost })
advance d lost = done_done d acquiring d.waiting
advance d stopping = some (record d { leader = false; stage = unlocking })
advance d unlocking = some (record d { stage = finishing })
advance d finishing = done_done d returned d.waiting
advance d returned = some d

-- Whether the loop is in its `select`.
abbrev pub is_waiting : Stage → Bool
is_waiting holding = true
is_waiting _ = false

-- One step of `lockLoop`. A call that fails is made again.
unfoldable pub lock_step : {S E : Type 0} → Distributed S E → Turn → Option (Distributed S E)
unfolding advance
lock_step d goes_on = advance d d.stage
lock_step d fails = some d
lock_step d sees_loss = some (if is_waiting d.stage then record d { stage = losing } else d)
lock_step d sees_stop = some (if is_waiting d.stage then record d { stage = stopping } else d)

-- `StoreEvents`, `UpsertInstances` and `Maintain` up to their look at the flag: without it they return
-- at once, and succeed.
unfoldable pub check_leader : {S E : Type 0} → Write → Distributed S E → Distributed S E
check_leader w d =
    if d.leader
    then record d { pending = d.pending ++ (w ∷ []) }
    else record d { replies = d.replies ++ (none ∷ []) }

-- The element at an index, and the others.
unfoldable pub take_out : ℕ → List Write → Option (Write × List Write)
take_out i [] = none
take_out zero (w ∷ ws) = some (w, ws)
take_out (suc i) (w ∷ ws) = elim (take_out i ws) [ none ↦ none | some (v, vs) ↦ some (v, w ∷ vs) ]

-- A write on any backend.
unfoldable pub call : {S E : Type 0} → Backend S E → Write → S → Option E × S
call b (store es) s = b.store_events es s
call b (upsert is) s = b.upsert_instances is s
call b maintains s = b.maintain s

-- The state that it leaves.
abbrev pub write : {S E : Type 0} → Backend S E → Write → S → S
write b w s = (call b w s).1

unfoldable pub write_all : {S E : Type 0} → Backend S E → List Write → S → S
unfolding call
write_all b [] s = s
write_all b (w ∷ ws) s = write_all b ws (write b w s)

-- What happens to a distributed storage, in any order: no mutex keeps a call between its look at the
-- flag and its write from the steps of the loop, or from other calls.
pub data Op : Type 0 where
  turns : Turn → Op
  checks : Write → Op
  performs : ℕ → Op

module _ {S E : Type 0} (b : Backend S E) where
  -- The rest of the three: one of the calls that have seen the flag set writes, and returns what the
  -- inner storage does.
  unfoldable pub perform : ℕ → Distributed S E → Distributed S E
  unfolding take_out call
  perform i d = elim (take_out i d.pending) [
    | none ↦ d
    | some (w, rest) ↦ record d {
      inner = (call b w d.inner).1;
      pending = rest;
      replies = d.replies ++ ((call b w d.inner).0 ∷ []);
    }
  ]

  unfoldable pub run : Distributed S E → List Op → Option (Distributed S E)
  unfolding lock_step check_leader perform
  run d [] = some d
  run d (turns t ∷ ops) = elim (lock_step d t) [ none ↦ none | some e ↦ run e ops ]
  run d (checks w ∷ ops) = run (check_leader w d) ops
  run d (performs i ∷ ops) = run (perform i d) ops
