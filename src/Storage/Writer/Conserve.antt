-- ===== src/Storage/Writer/Conserve.antt =====
-- `RunWriter` of storage/writer.go loses, repeats and reorders nothing between what it receives and
-- its calls of `persist`.
use consul_timeline.Common.{
  ℕ, ◌≡◌, refl, sym, ap, ◌∙◌, Bool, true, false, List, [], ◌∷◌, ◌++◌, leb, length, inl, inr,
  Bool-cases, append-nil, append_assoc,
}
use consul_timeline.Timeline.Event.{Event, Instance}
use consul_timeline.Storage.Writer.{
  Attempts, persist, Write, events, instances, Writer, empty_writer, Item, event, instance_item,
  Input, received, tick, done, flush, flush_events, flush_instances, persist, add_item, batch_of,
  drain, receive, run_writer,
}

-- The events and the instances of some writes, items and inputs, in order.
pub written_events : List Write → List Event
written_events [] = []
written_events (events es o ∷ ws) = es ++ written_events ws
written_events (instances is o ∷ ws) = written_events ws

pub written_instances : List Write → List Instance
written_instances [] = []
written_instances (events es o ∷ ws) = written_instances ws
written_instances (instances is o ∷ ws) = is ++ written_instances ws

pub item_events : List Item → List Event
item_events [] = []
item_events (event e ∷ is) = e ∷ item_events is
item_events (instance_item i ∷ is) = item_events is

pub item_instances : List Item → List Instance
item_instances [] = []
item_instances (event e ∷ is) = item_instances is
item_instances (instance_item i ∷ is) = i ∷ item_instances is

-- The items that a run reads: all up to the end of the context, and what is queued then.
pub items_of : List Input → List Item
items_of [] = []
items_of (received i ∷ ins) = i ∷ items_of ins
items_of (tick ∷ ins) = items_of ins
items_of (done queued ∷ ins) = queued

-- What the writer has taken: the written events, then those of the batch.
abbrev pub taken_events : Writer → List Event
taken_events s = written_events s.writes ++ s.ev_batch

abbrev pub taken_instances : Writer → List Instance
taken_instances s = written_instances s.writes ++ s.inst_batch

written_events-append :
    (ws vs : List Write) → written_events (ws ++ vs) ≡ written_events ws ++ written_events vs
unfolding written_events
written_events-append [] vs = refl
written_events-append (events es o ∷ ws) vs =
    ap (◌++◌ es) (written_events-append ws vs)
    ∙ sym (append_assoc es (written_events ws) (written_events vs))
written_events-append (instances is o ∷ ws) vs = written_events-append ws vs

written_instances-append :
    (ws vs : List Write)
    → written_instances (ws ++ vs) ≡ written_instances ws ++ written_instances vs
unfolding written_instances
written_instances-append [] vs = refl
written_instances-append (instances es o ∷ ws) vs =
    ap (◌++◌ es) (written_instances-append ws vs)
    ∙ sym (append_assoc es (written_instances ws) (written_instances vs))
written_instances-append (events is o ∷ ws) vs = written_instances-append ws vs

-- Closing a batch appends it to what is written.
close_batch : {A : Type 0} (ws b : List A) → (ws ++ (b ++ [])) ++ [] ≡ ws ++ b
close_batch ws b = rw (append-nil b, append-nil (ws ++ b)) refl

-- A state whose batches are as given, after what was taken.
record Took (t : Writer) (es : List Event) (is : List Instance) : Type 0 where
  took_events : taken_events t ≡ es
  took_instances : taken_instances t ≡ is

module _ (size : ℕ) (env : ℕ → Attempts) where
  flush_events-Took :
      (s : Writer) (b : List Event)
      → s.ev_batch ≡ b
      → Took (flush_events size env s b) (taken_events s) (taken_instances s)
        × ((flush_events size env s b).ev_batch ≡ [])
  unfolding flush_events written_events written_instances
  flush_events-Took s [] h = (record { took_events = refl; took_instances = refl }, h)
  flush_events-Took s (e ∷ es) h = (
    record {
      took_events =
          rw
            (written_events-append s.writes
              (events (e ∷ es) (persist (env (length s.writes))) ∷ []))
            (close_batch (written_events s.writes) (e ∷ es)
              ∙ ap (◌++◌ (written_events s.writes)) (sym h));
      took_instances =
          rw
            (written_instances-append s.writes
              (events (e ∷ es) (persist (env (length s.writes))) ∷ []))
            (ap (λ l. l ++ s.inst_batch) (append-nil (written_instances s.writes)));
    },
    refl,
  )

  flush_instances-Took :
      (s : Writer) (b : List Instance)
      → s.inst_batch ≡ b
      → Took (flush_instances size env s b) (taken_events s) (taken_instances s)
        × ((flush_instances size env s b).inst_batch ≡ [])
        × ((flush_instances size env s b).ev_batch ≡ s.ev_batch)
  unfolding flush_instances written_events written_instances
  flush_instances-Took s [] h = (record { took_events = refl; took_instances = refl }, h, refl)
  flush_instances-Took s (i ∷ is) h = (
    record {
      took_events =
          rw
            (written_events-append s.writes
              (instances (i ∷ is) (persist (env (length s.writes))) ∷ []))
            (ap (λ l. l ++ s.ev_batch) (append-nil (written_events s.writes)));
      took_instances =
          rw
            (written_instances-append s.writes
              (instances (i ∷ is) (persist (env (length s.writes))) ∷ []))
            (close_batch (written_instances s.writes) (i ∷ is)
              ∙ ap (◌++◌ (written_instances s.writes)) (sym h));
    },
    refl,
    refl,
  )

  -- A flush keeps what was taken and empties both batches.
  flush-Took :
      (s : Writer)
      → Took (flush size env s) (taken_events s) (taken_instances s)
        × ((flush size env s).ev_batch ≡ [])
        × ((flush size env s).inst_batch ≡ [])
  unfolding flush
  flush-Took s =
      let t : Writer = flush_events size env s s.ev_batch in
      let (a, b) = flush_events-Took s s.ev_batch refl in
      let (c, d, e) = flush_instances-Took t t.inst_batch refl in
      (
        record {
          took_events = c.took_events ∙ a.took_events;
          took_instances = c.took_instances ∙ a.took_instances;
        },
        e ∙ b,
        d,
      )

  add_item-Took :
      (s : Writer) (i : Item)
      → Took
          (add_item size env s i)
          (taken_events s ++ item_events (i ∷ []))
          (taken_instances s ++ item_instances (i ∷ []))
  unfolding item_events item_instances
  add_item-Took s (event e) = record {
    took_events = sym (append_assoc (written_events s.writes) s.ev_batch (e ∷ []));
    took_instances = sym (append-nil (taken_instances s));
  }
  add_item-Took s (instance_item i) = record {
    took_events = sym (append-nil (taken_events s));
    took_instances = sym (append_assoc (written_instances s.writes) s.inst_batch (i ∷ []));
  }

  receive-Took :
      (s : Writer) (i : Item)
      → Took
          (receive size env s i)
          (taken_events s ++ item_events (i ∷ []))
          (taken_instances s ++ item_instances (i ∷ []))
  unfolding receive
  receive-Took s i = elim (Bool-cases (leb size (batch_of size env (add_item size env s i) i))) [
    | inl e ↦
        let (a, b, c) = flush-Took (add_item size env s i) in
        let k = add_item-Took s i in
        rw e (record {
          took_events = a.took_events ∙ k.took_events;
          took_instances = a.took_instances ∙ k.took_instances;
        })
    | inr e ↦ rw e (add_item-Took s i)
  ]

  item-cons :
      (i : Item) (is : List Item)
      → (item_events (i ∷ []) ++ item_events is ≡ item_events (i ∷ is))
        × (item_instances (i ∷ []) ++ item_instances is ≡ item_instances (i ∷ is))
  unfolding item_events item_instances
  item-cons (event e) is = (refl, refl)
  item-cons (instance_item i) is = (refl, refl)

  -- One more item in front of those still to come.
  cons-Took :
      (s t u : Writer) (i : Item) (is : List Item)
      → Took t
          (taken_events s ++ item_events (i ∷ []))
          (taken_instances s ++ item_instances (i ∷ []))
      → Took u (taken_events t ++ item_events is) (taken_instances t ++ item_instances is)
      → Took u
          (taken_events s ++ item_events (i ∷ is))
          (taken_instances s ++ item_instances (i ∷ is))
  cons-Took s t u i is a b =
      let (p, q) = item-cons i is in
      record {
        took_events =
            b.took_events
            ∙ ap (λ l. l ++ item_events is) a.took_events
            ∙ append_assoc (taken_events s) (item_events (i ∷ [])) (item_events is)
            ∙ ap (◌++◌ (taken_events s)) p;
        took_instances =
            b.took_instances
            ∙ ap (λ l. l ++ item_instances is) a.took_instances
            ∙ append_assoc (taken_instances s) (item_instances (i ∷ [])) (item_instances is)
            ∙ ap (◌++◌ (taken_instances s)) q;
      }

  nil-Took :
      (s : Writer)
      → Took s (taken_events s ++ item_events []) (taken_instances s ++ item_instances [])
  unfolding item_events item_instances
  nil-Took s = record {
    took_events = sym (append-nil (taken_events s));
    took_instances = sym (append-nil (taken_instances s));
  }

  drain-Took :
      (s : Writer) (is : List Item)
      → Took
          (drain size env s is)
          (taken_events s ++ item_events is)
          (taken_instances s ++ item_instances is)
  unfolding drain
  drain-Took s [] = nil-Took s
  drain-Took s (i ∷ is) =
      cons-Took s (add_item size env s i) _ i is (add_item-Took s i)
        (drain-Took (add_item size env s i) is)

  -- Whether the context ends within some inputs.
  abbrev pub ends : List Input → Bool
  ends [] = false
  ends (received i ∷ ins) = ends ins
  ends (tick ∷ ins) = ends ins
  ends (done queued ∷ ins) = true

  run_writer-Took :
      (s : Writer) (ins : List Input)
      → Took
          (run_writer size env s ins)
          (taken_events s ++ item_events (items_of ins))
          (taken_instances s ++ item_instances (items_of ins))
        × (ends ins ≡ true
            → ((run_writer size env s ins).ev_batch ≡ [])
              × ((run_writer size env s ins).inst_batch ≡ []))
  unfolding run_writer items_of
  run_writer-Took s [] = (nil-Took s, λ e. absurd (cc))
  run_writer-Took s (received i ∷ ins) =
      let (a, b) = run_writer-Took (receive size env s i) ins in
      (cons-Took s (receive size env s i) _ i (items_of ins) (receive-Took s i) a, b)
  run_writer-Took s (tick ∷ ins) =
      let (a, b) = run_writer-Took (flush size env s) ins in
      let (c, d, e) = flush-Took s in
      (
        record {
          took_events = a.took_events ∙ ap (λ l. l ++ item_events (items_of ins)) c.took_events;
          took_instances =
              a.took_instances ∙ ap (λ l. l ++ item_instances (items_of ins)) c.took_instances;
        },
        b,
      )
  run_writer-Took s (done queued ∷ ins) =
      let (a, b, c) = flush-Took (drain size env s queued) in
      let d = drain-Took s queued in
      (
        record {
          took_events = a.took_events ∙ d.took_events;
          took_instances = a.took_instances ∙ d.took_instances;
        },
        λ _. (b, c),
      )

  -- From the start, whatever is received in whatever order: the batches handed to `persist`, one
  -- after the other and followed by the unwritten batch, are exactly the events received, in order,
  -- and likewise for instances.
  pub run_writer_conserves :
      (ins : List Input)
      → let s = run_writer size env empty_writer ins in
        (written_events s.writes ++ s.ev_batch ≡ item_events (items_of ins))
        × (written_instances s.writes ++ s.inst_batch ≡ item_instances (items_of ins))
  unfolding written_events written_instances
  run_writer_conserves ins =
      let (a, b) = run_writer-Took empty_writer ins in (a.took_events, a.took_instances)

  -- Once the context has ended, nothing is left unwritten: every event received, queued ones
  -- included, stands in a batch handed to `persist`, in order, and likewise every instance.
  pub run_writer_drains :
      (ins : List Input)
      → ends ins ≡ true
      → let s = run_writer size env empty_writer ins in
        (written_events s.writes ≡ item_events (items_of ins))
        × (written_instances s.writes ≡ item_instances (items_of ins))
  unfolding written_events written_instances
  run_writer_drains ins h =
      let (a, b) = run_writer-Took empty_writer ins in
      let s = run_writer size env empty_writer ins in
      let (c, d) = b h in
      (
        sym (append-nil (written_events s.writes))
            ∙ ap (◌++◌ (written_events s.writes)) (sym c)
            ∙ a.took_events,
        sym (append-nil (written_instances s.writes))
            ∙ ap (◌++◌ (written_instances s.writes)) (sym d)
            ∙ a.took_instances,
      )
