-- ===== src/Server/Hub.antt =====
-- server/stream.go: the hub, which fans events out to stream clients, and the loop of a stream.
pub mod Safety
pub mod Delivery
use consul_timeline.Common.{
  ℕ, suc, Bool, true, false, not, ◌&&◌, Option, none, some, List, [], ◌∷◌, ◌++◌, if◌then◌else◌, ltb,
  length, modify,
}
use consul_timeline.Common.Text.{Text}
use consul_timeline.Timeline.Event.{Event}
use consul_timeline.Storage.Query.{Query}
use consul_timeline.Storage.Match.{matches}

-- `clientBuffer`.
abbrev pub client_buffer : ℕ
client_buffer = 256

-- `client`, with what belongs to its stream: whether the hub's set holds it, what stands in its
-- channel, whether the channel is still open, whether `handleStream` still runs its loop, the events
-- that it has written, whether it stands between a write and its look at `overflow`, and whether it
-- has ended with a "reset" frame.
pub record Client : Type 0 where
  pub query : Query
  pub buffer : List Event
  pub overflow : Bool
  pub open_channel : Bool
  pub member : Bool
  pub serving : Bool
  pub written : List Event
  pub checking : Bool
  pub was_reset : Bool

-- `Hub`. All clients ever made, by number; the pointers of `clients` are those with `member`.
pub record Hub : Type 0 where
  pub clients : List Client
  pub closed : Bool

-- `NewHub`.
abbrev pub new_hub : Hub
new_hub = record { clients = []; closed = false }

abbrev pub both : Option Client → Option (List Client) → Option (List Client)
both none ds = none
both (some d) none = none
both (some d) (some ds) = some (d ∷ ds)

-- A loop over the members. Each round touches its own client alone, so the order does not show.
unfoldable pub for_all : (Client → Option Client) → List Client → Option (List Client)
for_all f [] = some []
for_all f (c ∷ cs) = both (f c) (for_all f cs)

abbrev pub new_client : Query → Bool → Client
new_client q closed = record {
  query = q;
  buffer = [];
  overflow = false;
  open_channel = not closed;
  member = not closed;
  serving = true;
  written = [];
  checking = false;
  was_reset = false;
}

-- `subscribe`: the new client is the last one.
unfoldable pub subscribe : Query → Hub → Hub
subscribe q h = record h { clients = h.clients ++ (new_client q h.closed ∷ []) }

-- The return of `handleStream`, with its deferred `unsubscribe`.
unfoldable pub leave : Client → Client
leave c = record c { member = false; serving = false }

-- The request's context is done. The loop sees it in its `select`, so not before `checking` is over.
unfoldable pub cancel : Client → Client
unfolding leave
cancel c = if c.checking then c else leave c

unfoldable pub disconnect : ℕ → Hub → Hub
unfolding cancel
disconnect i h = record h { clients = modify h.clients i cancel }

-- The loop of `handleStream` reads the channel and writes the event; on an empty open channel it
-- waits.
unfoldable pub read_channel : Client → List Event → Client
unfolding leave
read_channel c [] = if c.open_channel then c else leave c
read_channel c (e ∷ rest) = record c {
  buffer = rest;
  written = c.written ++ (e ∷ []);
  checking = true;
}

-- Its look at `overflow`, some time after the event was read: the mutex is not held, so the hub may
-- publish in between.
unfoldable pub check_overflow : Client → Client
unfolding leave
check_overflow c =
    if c.overflow
    then leave (record c { was_reset = true; checking = false })
    else record c { checking = false }

-- The next step of the loop.
unfoldable pub serve_client : Client → Client
unfolding read_channel check_overflow
serve_client c =
    if c.serving then (if c.checking then check_overflow c else read_channel c c.buffer) else c

unfoldable pub serve : ℕ → Hub → Hub
unfolding serve_client
serve i h = record h { clients = modify h.clients i serve_client }

-- A round of the loop of `Close`. To close a closed channel panics: `none`.
unfoldable pub close_client : Client → Option Client
close_client c =
    if not c.member
    then some c
    else if c.open_channel
    then some (record c { open_channel = false; member = false })
    else none

-- `Close`.
unfoldable pub close : Hub → Option Hub
unfolding close_client for_all
close h = elim (for_all close_client h.clients) [
  | none ↦ none
  | some cs ↦ some (record { clients = cs; closed = true })
]

-- What happens to a hub, in any order. `Publish`, `subscribe`, `unsubscribe` and `Close` hold the
-- mutex, so each is one step; a round of a stream's loop is two, `serves` twice.
pub data Call : Type 0 where
  publishes : Event → Call
  subscribes : Query → Call
  serves : ℕ → Call
  disconnects : ℕ → Call
  closes : Call

module _ (to_lower : Text → Text) where
  -- The `select` of `Publish`, which never blocks. A send on a closed channel panics: `none`.
  unfoldable pub deliver : Event → Client → Option Client
  deliver e c =
      if not c.member
      then some c
      else if not (matches to_lower e c.query)
      then some c
      else if not c.open_channel
      then none
      else if ltb (length c.buffer) client_buffer
      then some (record c { buffer = c.buffer ++ (e ∷ []) })
      else some (record c { overflow = true })

  -- `Publish`.
  unfoldable pub publish : Event → Hub → Option Hub
  unfolding deliver for_all
  publish e h = if h.closed then some h else elim (for_all (deliver e) h.clients) [
    | none ↦ none
    | some cs ↦ some (record h { clients = cs })
  ]

  unfoldable pub step : Hub → Call → Option Hub
  unfolding publish subscribe serve disconnect close
  step h (publishes e) = publish e h
  step h (subscribes q) = some (subscribe q h)
  step h (serves i) = some (serve i h)
  step h (disconnects i) = some (disconnect i h)
  step h closes = close h

  unfoldable pub run : Hub → List Call → Option Hub
  unfolding step
  run h [] = some h
  run h (c ∷ cs) = elim (step h c) [ none ↦ none | some g ↦ run g cs ]
