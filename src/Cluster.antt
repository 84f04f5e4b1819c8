-- ===== src/Cluster.antt =====
-- The Kubernetes objects that the operator reads, with the fields that it reads: the AgentSession
-- of operator/api/v1alpha1/agentsession_types.go, and the Pods and Nodes of the core API.
-- A quantity is a number (CPU in millicores, memory in bytes), and 0 where it is not given; an
-- instant is a number of nanoseconds, and 0 is the zero time.
use bosun.Prelude.{ℕ, String, Bool, true, false, Option, none, some, List, [], ◌∷◌, str_eq, find}
use bosun.Prelude.Dict.{Dict, lookup}
use bosun.Policy.{Requirements, ResourceList}
use bosun.Policy.Load.{LoadClass}

-- A Go read of a `map[string]string`: a missing key reads as the empty text.
abbrev pub text_or_empty : Option String → String
text_or_empty none = ""
text_or_empty (some s) = s

abbrev pub label : String → Dict String → String
label k m = text_or_empty (lookup k m)

pub record Condition : Type 0 where
  pub kind : String
  pub status : String
  pub reason : String

pub record Container : Type 0 where
  pub name : String
  pub resources : Requirements

pub record ContainerStatus : Type 0 where
  pub name : String
  pub restart_count : ℕ
  pub container_id : String
  pub resources : Option Requirements

pub record Pod : Type 0 where
  pub namespace : String
  pub name : String
  pub uid : String
  pub labels : Dict String
  pub deleting : Bool
  pub node_name : String
  pub containers : List Container
  pub init_containers : List Container
  pub ephemeral_containers : List Container
  pub overhead_memory : Option ℕ
  pub phase : String
  pub conditions : List Condition
  pub container_statuses : List ContainerStatus

pub record Taint : Type 0 where
  pub key : String
  pub value : String
  pub effect : String

pub record Toleration : Type 0 where
  pub key : String
  pub operator : String
  pub value : String
  pub effect : String

pub record Node : Type 0 where
  pub name : String
  pub labels : Dict String
  pub unschedulable : Bool
  pub taints : List Taint
  pub conditions : List Condition
  pub allocatable : ResourceList

pub record ResourceScalingStatus : Type 0 where
  pub load_class : LoadClass
  pub recommended_cpu_millicores : ℕ
  pub last_applied_at : Option ℕ
  pub last_error : String

pub record AgentSession : Type 0 where
  pub namespace : String
  pub name : String
  pub uid : String
  pub generation : ℕ
  pub creation_timestamp : ℕ
  pub annotations : Dict String
  pub deleting : Bool
  pub session_id : String
  pub desired_state : String
  pub priority_class_name : String
  pub memory_request : ℕ
  pub phase : String
  pub resource_scaling : Option ResourceScalingStatus
  pub conditions : List Condition

abbrev pub session_label : String
session_label = "bosun.io/session"

abbrev pub scheduling_node_annotation : String
scheduling_node_annotation = "bosun.io/scheduling-node"

abbrev pub agent_container_name : String
agent_container_name = "agent"

-- `findPodContainer(pod, name)`.
unfoldable pub find_pod_container : Pod → String → Option Container
find_pod_container pod name = find (λ c. str_eq c.name name) pod.containers

-- `actualAgentResources`: the first status of the Agent container that reports resources.
pub resources_reported : List ContainerStatus → Option Requirements
resources_reported [] = none
resources_reported (s ∷ ss) = elim (str_eq s.name agent_container_name) [
  | true ↦ elim s.resources [ some r ↦ some r | none ↦ resources_reported ss ]
  | false ↦ resources_reported ss
]

unfoldable pub actual_agent_resources : Pod → Option Requirements
unfolding resources_reported
actual_agent_resources pod = resources_reported pod.container_statuses
