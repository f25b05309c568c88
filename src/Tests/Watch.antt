-- ===== src/Tests/Watch.antt =====
-- Examples on watch/compare.go and watch/watch.go.
use consul_timeline.Common.{
  ◌≡◌, refl, [], ◌∷◌, ◌++◌, List, some, length, arith, if◌then◌else◌, ◌&&◌, leb, nat_beq,
}
use consul_timeline.Common.Text.{text_eq, text_beq, text_apart, bytes}
use consul_timeline.Common.Assoc.{with_key}
use consul_timeline.Timeline.Status.{kind_check, status_passing, status_missing}
use consul_timeline.Timeline.Event.{empty_event}
use consul_timeline.Consul.{HealthCheck, Node}
use consul_timeline.Watch.Health.{instance_status, node_status}
use consul_timeline.Watch.Health.Worst.{HasDistinctStates, worst, is_empty, statuses-worst}
use consul_timeline.Watch.Compare.{InstanceKey, key_eq, compare_checks}
use consul_timeline.Watch.Compare.Checks.{last_check, change, with_key-compare_checks}
use consul_timeline.Watch.Service.{round_of, compare_service}
use consul_timeline.Watch.Service.Index.{last_instance}
use consul_timeline.Watch.Service.Events.{event_key, instance_change, with_key-compare_service}
use consul_timeline.Watch.Readiness.{
  Readiness, Call, list, child, fresh, run, lists_in, announced, reported, run-ready,
}
use consul_timeline.Common.{true, false}
use consul_timeline.Watch.Loop.{
  Turn, stops, ends, fails, replies, ServiceWatch, NodeWatch, service_round, watch_service,
  has_reply,
}
use consul_timeline.Consul.{CheckServiceNode}
use consul_timeline.Watch.Loop.Reports.{watch_service-reports}
use consul_timeline.Watch.Sync.Starts.{count, sync_services-Starts}
use consul_timeline.Common.{◌+◌, ◌&&◌, not}
use consul_timeline.Watch.Sync.{Services, Nodes, has, sync_services}
use consul_timeline.Common.Text.{Text}
use consul_timeline.Watch.Lists.{ListWatch, watch_services, watch_nodes, watch_lists-arrived}
use consul_timeline.Tests.Data.{
  web_node, consul_api, check_order, instance_order, check_in, old_state, new_state, watcher,
  empty_sink,
}

-- The instance that leaves.
abbrev gone_key : InstanceKey
gone_key = record { node = bytes "n1"; id = bytes "web-2" }

with_key-compare_service_example :
    with_key event_key gone_key
      (compare_service consul_api check_order instance_order watcher 50 7 old_state new_state
        empty_sink).events
    ≡ with_key event_key gone_key []
      ++ instance_change consul_api check_order watcher
          (round_of consul_api check_order instance_order watcher 50 7 old_state new_state)
          (last_instance gone_key old_state)
          (last_instance gone_key new_state)
with_key-compare_service_example =
    with_key-compare_service consul_api check_order instance_order watcher 50 7 old_state new_state
      empty_sink gone_key

with_key-compare_checks_example :
    with_key
      (λ e. e.check_id)
      (bytes "c")
      (compare_checks consul_api check_order empty_event kind_check
        (λ e. e)
        (check_in (bytes "passing") ∷ [])
        (check_in (bytes "critical") ∷ []))
    ≡ change consul_api empty_event kind_check
        (λ e. e)
        (last_check (bytes "c") (check_in (bytes "passing") ∷ []))
        (last_check (bytes "c") (check_in (bytes "critical") ∷ []))
with_key-compare_checks_example =
    with_key-compare_checks consul_api empty_event kind_check (λ e. e) check_order (λ e. refl)
      (check_in (bytes "passing") ∷ []) (check_in (bytes "critical") ∷ []) (bytes "c")

consul_api-HasDistinctStates : HasDistinctStates consul_api
unfolding text_beq
consul_api-HasDistinctStates = record {
  passing_warning = text_apart (bytes "passing") (bytes "warning") refl;
  passing_critical = text_apart (bytes "passing") (bytes "critical") refl;
  warning_critical = text_apart (bytes "warning") (bytes "critical") refl;
}

abbrev two_checks : List HealthCheck
two_checks = check_in (bytes "passing") ∷ check_in (bytes "critical") ∷ []

statuses-worst_example :
    (instance_status consul_api two_checks ≡ (
      if is_empty consul_api consul_api-HasDistinctStates two_checks
      then status_passing
      else worst consul_api two_checks))
    × (node_status consul_api two_checks ≡ (
        if is_empty consul_api consul_api-HasDistinctStates two_checks
        then status_missing
        else worst consul_api two_checks))
statuses-worst_example = statuses-worst consul_api consul_api-HasDistinctStates two_checks

-- A service list with two children, a node list with none, and the children's reports.
abbrev calls : List Call
calls = list 2 ∷ child ∷ list 0 ∷ child ∷ []

run-ready_example :
    (s : Readiness) × (run fresh calls ≡ some s)
    × (s.done_closed ≡ (nat_beq (lists_in calls) 2 && leb (announced calls) (reported calls)))
unfolding lists_in
run-ready_example = run-ready calls (omega arith)

-- Before the first fetch: the fetch fails, and the context ends.
abbrev unread : ServiceWatch
unread = record {
  index = 7;
  last = [];
  first = true;
  reported = 0;
  running = true;
  sink = empty_sink;
}

abbrev unread_turns : List (Turn (List CheckServiceNode))
unread_turns = fails true ∷ ends ∷ []

watch_service-reports_example : 0 ≡ 0 + (if true && has_reply unread_turns then 1 else 0)
unfolding watch_service service_round
watch_service-reports_example =
    watch_service-reports consul_api check_order instance_order watcher true unread
      (record unread { running = false }) unread_turns refl refl refl

abbrev node_watch : NodeWatch
node_watch = record {
  index = 7;
  last = [];
  first = true;
  reported = 0;
  running = true;
  events = [];
}

-- The node's check turns critical, and the node leaves.
abbrev node_turns : List (Turn (List HealthCheck))
node_turns =
    replies 50 7 (record (check_in (bytes "passing")) { service_id = [] } ∷ [])
    ∷ replies 60 8 (record (check_in (bytes "critical")) { service_id = [] } ∷ [])
    ∷ stops 70
    ∷ []

-- One service stays, one comes, one leaves.
abbrev some_services : Services
some_services = record {
  names = bytes "web" ∷ bytes "db" ∷ [];
  started = bytes "web" ∷ bytes "db" ∷ [];
  stopped = [];
}

sync_services-Starts_example :
    let t = (sync_services (bytes "web" ∷ bytes "api" ∷ []) some_services).0 in
    let listed = has (bytes "web" ∷ bytes "api" ∷ []) in
    (starts : List Text) × ((stops : List Text) × ((t.started ≡ some_services.started ++ starts)
        × ((t.stopped ≡ [] ++ stops)
            × ((name : Text)
                → (has t.names name ≡ listed name)
                  × ((count name starts
                        ≡ (if listed name && not (has some_services.names name) then 1 else 0))
                      × (count name stops
                          ≡ (if listed name then 0 else count name some_services.names)))))))
sync_services-Starts_example = sync_services-Starts (bytes "web" ∷ bytes "api" ∷ []) some_services

abbrev no_nodes : Nodes
no_nodes = record { names = bytes "n0" ∷ []; ips = []; started = []; stopped = []; events = [] }

-- A reply, an error, and the end of the context, for both lists.
abbrev service_list : ListWatch Services
service_list = record {
  index = 0;
  first = true;
  running = true;
  watches = some_services;
  arrived = [];
}

abbrev node_list : ListWatch Nodes
node_list = record { index = 0; first = true; running = true; watches = no_nodes; arrived = [] }

abbrev service_turns : List (Turn (List Text))
service_turns = replies 50 7 (bytes "web" ∷ []) ∷ fails true ∷ replies 60 8 [] ∷ ends ∷ []

abbrev node_list_turns : List (Turn (List Node))
node_list_turns = replies 50 7 (web_node ∷ []) ∷ replies 55 7 (web_node ∷ []) ∷ fails false ∷ []

watch_lists-arrived_example :
    (length (watch_services service_list service_turns).arrived
      ≡ 0 + (if has_reply service_turns then 1 else 0))
    × (length (watch_nodes (bytes "dc1") node_list node_list_turns).arrived
        ≡ 0 + (if has_reply node_list_turns then 1 else 0))
watch_lists-arrived_example =
    watch_lists-arrived (bytes "dc1") service_list node_list service_turns node_list_turns
      (refl, refl) (refl, refl)
