-- ===== src/Storage/Query.antt =====
-- storage/storage.go: filters, queries, cursors, pages, and the validation of a query.
use consul_timeline.Common.{
  Bool, true, Option, none, some, List, [], ◌∷◌, ◌==◌, if◌then◌else◌, nat_beq,
}
use consul_timeline.Common.Text.{Text, text_eq, bytes}
use consul_timeline.Common.Int.{ℤ}
use consul_timeline.Common.Decimal.{atoi}
use consul_timeline.Timeline.Status.{parse_kind, parse_status}
use consul_timeline.Timeline.Event.{Event, Time, zero_time}

abbrev pub field_datacenter : Text
field_datacenter = bytes "dc"

abbrev pub field_service : Text
field_service = bytes "service"

abbrev pub field_node : Text
field_node = bytes "node"

abbrev pub field_check : Text
field_check = bytes "check"

abbrev pub field_kind : Text
field_kind = bytes "kind"

abbrev pub field_tag : Text
field_tag = bytes "tag"

abbrev pub field_team : Text
field_team = bytes "team"

abbrev pub field_app : Text
field_app = bytes "app"

abbrev pub field_version : Text
field_version = bytes "version"

abbrev pub field_check_type : Text
field_check_type = bytes "type"

abbrev pub field_to : Text
field_to = bytes "to"

abbrev pub field_from : Text
field_from = bytes "from"

abbrev pub field_healthy : Text
field_healthy = bytes "healthy"

pub record Filter : Type 0 where
  pub field : Text
  pub values : List Text
  pub not : Bool

pub record Cursor : Type 0 where
  pub time : Time
  pub id : ℤ

abbrev pub zero_cursor : Cursor
zero_cursor = record { time = zero_time; id = ℤ.pos 0 }

pub record Query : Type 0 where
  pub datacenter : Text
  pub from : Time
  pub to : Time
  pub filters : List Filter
  pub text : Text
  pub cursor : Cursor
  pub limit : ℤ

-- `time.Time.IsZero` and `Cursor.IsZero`.
abbrev pub is_zero : Time → Bool
is_zero t = nat_beq t 0

abbrev pub cursor_is_zero : Cursor → Bool
cursor_is_zero c = is_zero c.time

pub record Page : Type 0 where
  pub events : List Event
  pub next : Cursor
  pub has_more : Bool

-- The errors of `Filter.Validate`.
pub data FilterError : Type 0 where
  no_value : Text → FilterError
  unknown_kind : Text → FilterError
  unknown_status : Text → FilterError
  not_number : Text → FilterError
  unknown_field : Text → FilterError

-- A loop over the values that stops at the first refused one.
abbrev pub each_value : (Text → Option FilterError) → List Text → Option FilterError
each_value check [] = none
each_value check (v ∷ vs) = elim (check v) [ none ↦ each_value check vs | some e ↦ some e ]

abbrev pub kind_value : Text → Option FilterError
kind_value v = if (parse_kind v).1 then none else some (unknown_kind v)

abbrev pub status_value : Text → Option FilterError
status_value v = if (parse_status v).1 then none else some (unknown_status v)

abbrev pub healthy_value : Text → Option FilterError
healthy_value v = elim (atoi v) [ none ↦ some (not_number v) | some n ↦ none ]

-- The cases of the `switch` that accept any value.
abbrev pub is_name_field : Text → Bool
is_name_field f =
    if f == field_datacenter
    then true
    else if f == field_service
    then true
    else if f == field_node
    then true
    else if f == field_check
    then true
    else if f == field_team
    then true
    else if f == field_app
    then true
    else if f == field_version
    then true
    else if f == field_check_type
    then true
    else f == field_tag

unfoldable pub validate_values : Text → List Text → Option FilterError
validate_values field values =
    if is_name_field field
    then none
    else if field == field_kind
    then each_value kind_value values
    else if field == field_to
    then each_value status_value values
    else if field == field_from
    then each_value status_value values
    else if field == field_healthy
    then each_value healthy_value values
    else some (unknown_field field)

-- `Filter.Validate`.
unfoldable pub validate_filter : Filter → Option FilterError
unfolding validate_values
validate_filter f = elim f.values [
  | [] ↦ some (no_value f.field)
  | v ∷ vs ↦ validate_values f.field (v ∷ vs)
]

unfoldable pub validate_filters : List Filter → Option FilterError
unfolding validate_filter
validate_filters [] = none
validate_filters (f ∷ fs) = elim (validate_filter f) [
  | none ↦ validate_filters fs
  | some e ↦ some e
]

-- `Query.Validate`.
unfoldable pub validate : Query → Option FilterError
unfolding validate_filters
validate q = validate_filters q.filters

-- A result or the error that `Validate` gave.
pub data Result {ℓ} (A : Type ℓ) : Type ℓ where
  ok : A → Result A
  err : FilterError → Result A
