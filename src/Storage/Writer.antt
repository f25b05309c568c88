-- ===== src/Storage/Writer.antt =====
-- storage/writer.go: `RunWriter`, which batches what the watcher emits, and `persist`.
pub mod Persist
pub mod Conserve
use consul_timeline.Common.{
  ℕ, zero, suc, ◌+◌, Bool, true, false, Option, none, some, List, [], ◌∷◌, ◌++◌, if◌then◌else◌, leb,
  length,
}
use consul_timeline.Common.Int.{ℤ, pos, negsuc}
use consul_timeline.Timeline.Event.{Event, Instance}

-- How a call of `persist` ends: the batch is written, dropped and counted, or left at the end of
-- the context, which happens during the wait before a retry.
pub data Outcome : Type 0 where
  stored dropped abandoned : Outcome

-- What `persist` meets at its attempts, which count from 1: whether the write fails, whether the
-- context has ended when it has failed, and whether the context ends during the wait that follows.
pub record Attempts : Type 0 where
  pub fails : ℕ → Bool
  pub ended : ℕ → Bool
  pub ends_waiting : ℕ → Bool

-- The loop, from an attempt on; the number is that of the last attempt made. `none` is fuel run out.
unfoldable pub persist_loop : ℕ → Attempts → ℕ → Option (Outcome × ℕ)
persist_loop zero env attempt = none
persist_loop (suc fuel) env attempt =
    let again = persist_loop fuel env (attempt + 1) in
    if env.fails attempt
    then (if leb 3 attempt
        then some (dropped, attempt)
        else if env.ended attempt
        then some (dropped, attempt)
        else if env.ends_waiting attempt
        then some (abandoned, attempt)
        else again)
    else some (stored, attempt)

-- Three rounds are enough, since the third attempt is the last.
unfoldable pub persist : Attempts → Option (Outcome × ℕ)
unfolding persist_loop
persist env = persist_loop 3 env 1

-- A call of `w.StoreEvents` or `w.UpsertInstances` under `persist`, and how it ended.
pub data Write : Type 0 where
  events : List Event → Option (Outcome × ℕ) → Write
  instances : List Instance → Option (Outcome × ℕ) → Write

-- The variables of `RunWriter`, and its calls of `persist` so far, oldest first.
pub record Writer : Type 0 where
  pub ev_batch : List Event
  pub inst_batch : List Instance
  pub writes : List Write

abbrev pub empty_writer : Writer
empty_writer = record { ev_batch = []; inst_batch = []; writes = [] }

-- `cfg.BatchSize`, with its default.
abbrev pub batch_size : ℤ → ℕ
batch_size (pos zero) = 500
batch_size (pos (suc n)) = suc n
batch_size (negsuc n) = 500

-- What stands in a channel.
pub data Item : Type 0 where
  event : Event → Item
  instance_item : Instance → Item

-- What a round of the loop receives. At the end of the context it is what `drain` finds queued, in
-- the order in which the runtime takes it.
pub data Input : Type 0 where
  received : Item → Input
  tick : Input
  done : List Item → Input

-- `env n` is what the n-th call of `persist` meets.
module _ (size : ℕ) (env : ℕ → Attempts) where
  -- The two halves of the closure `flush`: a batch that is not empty is written.
  unfoldable pub flush_events : Writer → List Event → Writer
  flush_events s [] = s
  flush_events s (e ∷ es) = record s {
    ev_batch = [];
    writes = s.writes ++ (events (e ∷ es) (persist (env (length s.writes))) ∷ []);
  }

  unfoldable pub flush_instances : Writer → List Instance → Writer
  flush_instances s [] = s
  flush_instances s (i ∷ is) = record s {
    inst_batch = [];
    writes = s.writes ++ (instances (i ∷ is) (persist (env (length s.writes))) ∷ []);
  }

  -- The closure `flush`.
  unfoldable pub flush : Writer → Writer
  unfolding flush_events flush_instances
  flush s = let t = flush_events s s.ev_batch in flush_instances t t.inst_batch

  -- `append` to the batch of the item.
  abbrev pub add_item : Writer → Item → Writer
  add_item s (event e) = record s { ev_batch = s.ev_batch ++ (e ∷ []) }
  add_item s (instance_item i) = record s { inst_batch = s.inst_batch ++ (i ∷ []) }

  -- The closure `drain`.
  unfoldable pub drain : Writer → List Item → Writer
  drain s [] = s
  drain s (i ∷ is) = drain (add_item s i) is

  abbrev pub batch_of : Writer → Item → ℕ
  batch_of s (event e) = length s.ev_batch
  batch_of s (instance_item i) = length s.inst_batch

  -- A round that receives an item: the batch is flushed when it is full.
  unfoldable pub receive : Writer → Item → Writer
  unfolding flush
  receive s i = if leb size (batch_of (add_item s i) i) then flush (add_item s i) else add_item s i

  -- The loop. It returns at the end of the context; what is left of the inputs is not read.
  unfoldable pub run_writer : Writer → List Input → Writer
  unfolding flush receive drain
  run_writer s [] = s
  run_writer s (received i ∷ ins) = run_writer (receive s i) ins
  run_writer s (tick ∷ ins) = run_writer (flush s) ins
  run_writer s (done queued ∷ ins) = flush (drain s queued)
