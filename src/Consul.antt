-- ===== src/Consul.antt =====
-- consul/types.go: the replies of Consul that the program decodes.
pub mod Client
use consul_timeline.Common.{List, Option}
use consul_timeline.Common.Text.{Text}
use consul_timeline.Common.Int.{ℤ}

pub record Node : Type 0 where
  pub id : Text
  pub node : Text
  pub address : Text
  pub datacenter : Text
  pub meta : List (Text × Text)

pub record NodeService : Type 0 where
  pub kind : Text
  pub id : Text
  pub service : Text
  pub tags : List Text
  pub address : Text
  pub meta : List (Text × Text)
  pub port : ℤ

pub record HealthCheck : Type 0 where
  pub node : Text
  pub check_id : Text
  pub name : Text
  pub status : Text
  pub notes : Text
  pub output : Text
  pub service_id : Text
  pub service_name : Text
  pub type : Text

-- `nil` pointers are `none`.
pub record CheckServiceNode : Type 0 where
  pub node : Option Node
  pub service : Option NodeService
  pub checks : List HealthCheck

-- A `CheckServiceNode` whose two pointers are not `nil`.
pub record Registration : Type 0 where
  pub node : Node
  pub service : NodeService
  pub checks : List HealthCheck
