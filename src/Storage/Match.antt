-- ===== src/Storage/Match.antt =====
-- storage/storage.go: the filter semantics, shared by every backend and the live stream.
use consul_timeline.Common.{
  ℕ, ◌-◌, Bool, true, false, ◌&&◌, Option, none, some, List, [], ◌∷◌, ◌==◌, if◌then◌else◌, ltb,
  length, take, any, nat_beq,
}
use consul_timeline.Common.Text.{Text, text_eq, bytes, has_prefix, has_suffix, contains}
use consul_timeline.Common.Int.{ℤ, pos, negsuc}
use consul_timeline.Common.Decimal.{atoi}
use consul_timeline.Timeline.Status.{Status, kind_string, status_string}
use consul_timeline.Timeline.Event.{Event, old_status, new_status}
use consul_timeline.Storage.Query.{
  Filter, Query, is_zero, field_datacenter, field_service, field_node, field_check, field_kind,
  field_tag, field_team, field_app, field_version, field_check_type, field_to, field_from,
  field_healthy,
}

abbrev pub star : Text
star = bytes "*"

-- `MatchName`.
unfoldable pub match_name : Text → Text → Bool
match_name name pattern =
    if has_suffix pattern star
    then has_prefix name (take (length pattern - 1) pattern)
    else name == pattern

-- `n, err := strconv.Atoi(v); err == nil && e.NewHealthy == n`.
abbrev pub match_number : ℕ → Option ℤ → Bool
match_number healthy none = false
match_number healthy (some (pos n)) = nat_beq healthy n
match_number healthy (some (negsuc n)) = false

-- `Filter.matchOne`.
unfoldable pub match_one : Text → Event → Text → Bool
match_one f e v =
    if f == field_datacenter
    then match_name e.datacenter v
    else if f == field_service
    then match_name e.service_name v
    else if f == field_node
    then match_name e.node_name v
    else if f == field_check
    then match_name e.check_name v
    else if f == field_team
    then match_name e.team v
    else if f == field_app
    then match_name e.app v
    else if f == field_version
    then match_name e.version v
    else if f == field_check_type
    then e.check_type == v
    else if f == field_kind
    then kind_string e.kind == v
    else if f == field_tag
    then any (λ t. match_name t v) e.tags
    else if f == field_to
    then status_string (new_status e) == v
    else if f == field_from
    then status_string (old_status e) == v
    else if f == field_healthy
    then match_number e.new_healthy (atoi v)
    else false

-- `Filter.match`.
unfoldable pub match_filter : Filter → Event → Bool
match_filter f e = any (match_one f.field e) f.values

-- The loop over the filters: one fails where its match equals its `Not`.
unfoldable pub match_filters : List Filter → Event → Bool
match_filters [] e = true
match_filters (f ∷ fs) e =
    if match_filter f e
    then (if f.not then false else match_filters fs e)
    else (if f.not then match_filters fs e else false)

-- `strings.ToLower` follows the tables of Unicode, which are Go's: it is a parameter.
module _ (to_lower : Text → Text) where
  unfoldable pub match_text : Text → Event → Bool
  match_text text e =
      if text == []
      then true
      else if contains (to_lower e.check_output) (to_lower text)
      then true
      else if contains (to_lower e.service_name) (to_lower text)
      then true
      else if contains (to_lower e.node_name) (to_lower text)
      then true
      else contains (to_lower e.check_name) (to_lower text)

  -- `Match`.
  unfoldable pub matches : Event → Query → Bool
  matches e q =
      if (if q.datacenter == []
        then false
        else if e.datacenter == q.datacenter
        then false
        else true)
      then false
      else if (if is_zero q.from then false else ltb e.time q.from)
      then false
      else if (if is_zero q.to then false else ltb q.to e.time)
      then false
      else match_filters q.filters e && match_text q.text e

-- `HeadlineStatus`.
abbrev pub headline_status : Event → Status × Status
headline_status e = (old_status e, new_status e)
