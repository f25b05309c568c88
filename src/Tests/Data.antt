-- ===== src/Tests/Data.antt =====
-- The events, queries, checks and registrations that the examples share.
use consul_timeline.Common.{ℕ, List, [], ◌∷◌, none, some, false, refl}
use consul_timeline.Common.Text.{Text, text_eq, bytes}
use consul_timeline.Common.Int.{pos}
use consul_timeline.Common.Assoc.{RangeOrder}
use consul_timeline.Timeline.Status.{ConsulApi, kind_check, status_passing, status_critical}
use consul_timeline.Timeline.Event.{Event, empty_event}
use consul_timeline.Timeline.Derive.{default_derive}
use consul_timeline.Storage.Query.{Query, zero_cursor, field_service}
use consul_timeline.Storage.Memory.{Store, new, store_events}
use consul_timeline.Consul.{Node, NodeService, HealthCheck, CheckServiceNode, Registration}
use consul_timeline.Watch.Compare.{InstanceKey, key_eq}
use consul_timeline.Watch.Service.{Watcher, Sink}

-- A conversion that leaves lower-case text alone.
abbrev pub same_case : Text → Text
same_case t = t

-- A check event of a service, at a time.
abbrev pub event_at : Text → ℕ → Event
event_at service at = record empty_event {
  time = at;
  datacenter = bytes "dc1";
  kind = kind_check;
  service_name = service;
  old_check_status = status_passing;
  new_check_status = status_critical;
}

abbrev pub three_events : List Event
three_events = event_at (bytes "web") 10 ∷ event_at (bytes "db") 10 ∷ event_at (bytes "web") 20 ∷ []

-- What is asked: the service "web", one event at a time.
abbrev pub web_query : Query
web_query = record {
  datacenter = [];
  from = 0;
  to = 0;
  filters = record { field = field_service; values = bytes "web" ∷ []; not = false } ∷ [];
  text = [];
  cursor = zero_cursor;
  limit = pos 1;
}

abbrev pub small_store : Store
small_store = store_events (new (pos 3)) three_events

abbrev pub consul_api : ConsulApi
consul_api = record {
  health_passing = bytes "passing";
  health_warning = bytes "warning";
  health_critical = bytes "critical";
  health_maint = bytes "maintenance";
  node_maint = bytes "_node_maintenance";
  service_maint_prefix = bytes "_service_maintenance:";
}

-- A runtime that visits every map in the order of insertion.
abbrev pub check_order : RangeOrder Text HealthCheck
check_order = record { range = λ m. m; lookup-range = λ k m. refl; range-IsDistinct = λ m d. d }

abbrev pub instance_order : RangeOrder InstanceKey Registration
instance_order = record { range = λ m. m; lookup-range = λ k m. refl; range-IsDistinct = λ m d. d }

abbrev pub check_in : Text → HealthCheck
check_in state = record {
  node = bytes "n1";
  check_id = bytes "c";
  name = bytes "http";
  status = state;
  notes = [];
  output = bytes "connection refused";
  service_id = bytes "web-1";
  service_name = bytes "web";
  type = bytes "http";
}

abbrev pub web_node : Node
web_node = record {
  id = [];
  node = bytes "n1";
  address = bytes "10.0.0.1";
  datacenter = bytes "dc1";
  meta = [];
}

abbrev pub web_service : Text → NodeService
web_service id = record {
  kind = [];
  id = id;
  service = bytes "web";
  tags = [];
  address = [];
  meta = (bytes "owner", bytes "core") ∷ [];
  port = pos 80;
}

abbrev pub registered : Text → Text → CheckServiceNode
registered id state = record {
  node = some web_node;
  service = some (web_service id);
  checks = check_in state ∷ [];
}

-- One instance turns critical, one leaves, and an entry without a node is passed over.
abbrev pub old_state : List CheckServiceNode
old_state =
    registered (bytes "web-1") (bytes "passing") ∷ registered (bytes "web-2") (bytes "passing") ∷ []

abbrev pub new_state : List CheckServiceNode
new_state =
    record { node = none; service = some (web_service (bytes "web-3")); checks = [] }
    ∷ registered (bytes "web-1") (bytes "critical")
    ∷ []

abbrev pub watcher : Watcher
watcher = record { derive = default_derive; datacenter = bytes "dc1" }

abbrev pub empty_sink : Sink
empty_sink = record { events = []; instances = []; marks = [] }
