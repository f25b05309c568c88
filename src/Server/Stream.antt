-- ===== src/Server/Stream.antt =====
-- server/stream.go: `handleStream` up to its loop: the query of a stream, and what it replays.
use consul_timeline.Common.{
  ℕ, Option, none, some, List, [], ◌∷◌, ◌++◌, ◌⊎◌, inl, inr, if◌then◌else◌, leb, length, map, keep,
  ◌==◌,
}
use consul_timeline.Common.Text.{Text, text_eq}
use consul_timeline.Common.Int.{pos}
use consul_timeline.Timeline.Event.{Event, Time, zero_time}
use consul_timeline.Storage.Query.{Query, zero_cursor, is_zero}
use consul_timeline.Storage.Match.{matches}
use consul_timeline.Storage.Backend.{Backend}
use consul_timeline.Server.Hub.{Hub, subscribe}
use consul_timeline.Server.Request.{RequestError}

abbrev pub replay_limit : ℕ
replay_limit = 1000

-- What a stream writes before its loop.
pub data Frame (E : Type 0) : Type 0 where
  event_frame : Event → Frame E
  warning_frame : E → Frame E
  gap_frame : Frame E

-- The query of a stream, on the local datacenter and without times, cursor or limit; `none` is
-- refused.
unfoldable pub stream_query : Text → Query → Option Query
stream_query local q =
    let dc = if q.datacenter == [] then local else q.datacenter in
    if dc == local
    then some (record q {
      datacenter = dc;
      from = zero_time;
      to = zero_time;
      cursor = zero_cursor;
      limit = pos 0;
    })
    else none

-- The time to replay from: that of the header, and where there is none that of the parameter.
unfoldable pub replay_time : Option Time → Option Time → Time
replay_time (some t) parameter =
    if is_zero t then (elim parameter [ none ↦ zero_time | some u ↦ u ]) else t
replay_time none none = zero_time
replay_time none (some u) = u

-- The frames of the events that were missed, from what the storage answers to `Since`.
unfoldable pub replay : {E : Type 0} → (Text → Text) → Query → E ⊎ List Event → List (Frame E)
unfolding matches
replay to_lower q (inl e) = warning_frame e ∷ []
replay to_lower q (inr missed) =
    map event_frame (keep (λ e. matches to_lower e q) missed)
    ++ (if leb replay_limit (length missed) then gap_frame ∷ [] else [])

-- `handleStream` up to its loop: the client joins the hub before the storage is asked, so what is
-- published meanwhile stands in its channel. `none` is an answer 400.
unfoldable pub start_stream :
    {S E : Type 0}
    → (Text → Text)
    → Backend S E
    → S
    → Text
    → RequestError ⊎ Query
    → Option Time
    → Option Time
    → Hub
    → Option (Hub × List (Frame E))
unfolding stream_query replay_time replay subscribe
start_stream to_lower b s local (inl e) header parameter h = none
start_stream to_lower b s local (inr r) header parameter h = elim (stream_query local r) [
  | none ↦ none
  | some q ↦
      let since = replay_time header parameter in
      some (
        subscribe q h,
        if is_zero since
            then []
            else replay to_lower q (b.since q.datacenter since (pos replay_limit) s),
      )
]
