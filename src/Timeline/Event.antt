-- ===== src/Timeline/Event.antt =====
-- timeline/event.go: Event and Instance, with the headline statuses of an event.
use consul_timeline.Common.{ℕ, ◌≡◌, ◌↔◌, true, arith, Bool, List, [], if◌then◌else◌, nat_beq}
use consul_timeline.Common.Text.{Text}
use consul_timeline.Common.Int.{ℤ, pos, negsuc}
use consul_timeline.Timeline.Status.{
  Status, Kind, status_unknown, kind_unknown, kind_node, kind_instance,
}

-- `time.Time`, as nanoseconds since Go's zero time (the first of January of the year 1, UTC).
abbrev pub Time : Type 0
Time = ℕ

abbrev pub zero_time : Time
zero_time = 0

pub record Event : Type 0 where
  pub id : ℕ
  pub time : Time
  pub datacenter : Text
  pub kind : Kind
  pub consul_index : ℕ
  pub node_name : Text
  pub node_ip : Text
  pub old_node_status : Status
  pub new_node_status : Status
  pub service_name : Text
  pub service_id : Text
  pub team : Text
  pub app : Text
  pub version : Text
  pub tags : List Text
  pub old_service_status : Status
  pub new_service_status : Status
  pub old_healthy : ℕ
  pub new_healthy : ℕ
  pub total_instances : ℕ
  pub check_id : Text
  pub check_name : Text
  pub check_type : Text
  pub old_check_status : Status
  pub new_check_status : Status
  pub check_output : Text

-- `Event{}`.
abbrev pub empty_event : Event
empty_event = record {
  id = 0;
  time = zero_time;
  datacenter = [];
  kind = kind_unknown;
  consul_index = 0;
  node_name = [];
  node_ip = [];
  old_node_status = status_unknown;
  new_node_status = status_unknown;
  service_name = [];
  service_id = [];
  team = [];
  app = [];
  version = [];
  tags = [];
  old_service_status = status_unknown;
  new_service_status = status_unknown;
  old_healthy = 0;
  new_healthy = 0;
  total_instances = 0;
  check_id = [];
  check_name = [];
  check_type = [];
  old_check_status = status_unknown;
  new_check_status = status_unknown;
  check_output = [];
}

-- Equality of kinds, as in a `switch`.
abbrev pub int_beq : ℤ → ℤ → Bool
int_beq (pos a) (pos b) = nat_beq a b
int_beq (negsuc a) (negsuc b) = nat_beq a b
int_beq (pos a) (negsuc b) = Bool.false
int_beq (negsuc a) (pos b) = Bool.false

pub int_beq_iff : (a b : ℤ) → (int_beq a b ≡ true) ↔ (a ≡ b)
int_beq_iff a b = ground arith

unfoldable pub old_status : Event → Status
old_status e =
    if int_beq e.kind kind_node
    then e.old_node_status
    else if int_beq e.kind kind_instance
    then e.old_service_status
    else e.old_check_status

unfoldable pub new_status : Event → Status
new_status e =
    if int_beq e.kind kind_node
    then e.new_node_status
    else if int_beq e.kind kind_instance
    then e.new_service_status
    else e.new_check_status

pub record Instance : Type 0 where
  pub datacenter : Text
  pub node_name : Text
  pub service_id : Text
  pub service_name : Text
  pub node_ip : Text
  pub address : Text
  pub port : ℤ
  pub team : Text
  pub app : Text
  pub version : Text
  pub tags : List Text
  pub meta : List (Text × Text)
  pub node_meta : List (Text × Text)
  pub first_seen : Time
  pub last_seen : Time
