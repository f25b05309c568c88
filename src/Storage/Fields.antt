-- ===== src/Storage/Fields.antt =====
-- storage/fields.go: the values that an event has for a filter field.
use consul_timeline.Common.{List, [], ◌∷◌, ◌==◌, if◌then◌else◌}
use consul_timeline.Common.Text.{Text, text_eq}
use consul_timeline.Common.Decimal.{itoa}
use consul_timeline.Timeline.Status.{kind_string, status_string}
use consul_timeline.Timeline.Event.{Event, old_status, new_status}
use consul_timeline.Storage.Query.{
  field_datacenter, field_service, field_node, field_check, field_kind, field_tag, field_team,
  field_app, field_version, field_check_type, field_to, field_from, field_healthy,
}

unfoldable pub field_value : Event → Text → Text
field_value e f =
    if f == field_datacenter
    then e.datacenter
    else if f == field_service
    then e.service_name
    else if f == field_node
    then e.node_name
    else if f == field_check
    then e.check_name
    else if f == field_team
    then e.team
    else if f == field_app
    then e.app
    else if f == field_version
    then e.version
    else if f == field_check_type
    then e.check_type
    else if f == field_kind
    then kind_string e.kind
    else if f == field_to
    then status_string (new_status e)
    else if f == field_from
    then status_string (old_status e)
    else if f == field_healthy
    then itoa e.new_healthy
    else []

unfoldable pub field_values : Event → Text → List Text
unfolding field_value
field_values e f =
    if f == field_tag then e.tags else if field_value e f == [] then [] else field_value e f ∷ []

-- `FacetFields`.
abbrev pub facet_fields : List Text
facet_fields =
    field_datacenter ∷ field_kind ∷ field_to ∷ field_tag ∷ field_team ∷ field_app ∷ field_service
    ∷ field_node ∷ field_check ∷ field_check_type ∷ field_version ∷ []
