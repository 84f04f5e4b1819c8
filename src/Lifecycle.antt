-- ===== src/Lifecycle.antt =====
-- operator/internal/controller/agentsession_controller.go: the life cycle of an AgentSession. This
-- file has the objects with the fields that the controller reads and writes (the spec and the status
-- of operator/api/v1alpha1/agentsession_types.go), and the Kubernetes API as a parameter.
pub mod Checks
pub mod Workload
pub mod Phases
pub mod Reconcile
pub mod Effects
pub mod Protocol
pub mod Retries
use bosun.Prelude.{ℕ, String, Bool, Option, List}
use bosun.Prelude.Dict.{Dict}
use bosun.Prelude.Run.{Run, Reply}
use bosun.Policy.{Requirements}

pub data DesiredState : Type 0 where
  want_running want_hibernated : DesiredState

-- `unset` is the empty text of a new status.
pub data Phase : Type 0 where
  unset pending provisioning running idle hibernating hibernated : Phase
  archiving archived restoring deleting failed : Phase

pub data CheckpointMode : Type 0 where
  application process : CheckpointMode

pub data CheckpointState : Type 0 where
  creating ready rebuilding consumed broken : CheckpointState

pub record Checkpoint : Type 0 where
  pub mode : CheckpointMode
  pub state : CheckpointState
  pub id : String
  pub node_name : String
  pub created_at : Option ℕ
  pub size_bytes : ℕ
  pub sha256 : String
  pub agent_image_digest : String
  pub reason : String

pub record SessionCondition : Type 0 where
  pub kind : String
  pub status : String
  pub observed_generation : ℕ
  pub reason : String
  pub message : String

-- The archive and the scaling status are left alone by the controller, and left out.
pub record Status : Type 0 where
  pub phase : Phase
  pub observed_generation : ℕ
  pub observed_resume_nonce : String
  pub node_name : String
  pub pod_name : String
  pub pvc_name : String
  pub last_active_at : Option ℕ
  pub checkpoint : Option Checkpoint
  pub conditions : List SessionCondition

pub record Session : Type 0 where
  pub namespace : String
  pub name : String
  pub generation : ℕ
  pub labels : Dict String
  pub annotations : Dict String
  pub is_deleting : Bool
  pub has_finalizer : Bool
  pub session_id : String
  pub user_id : String
  pub desired_state : DesiredState
  pub resume_nonce : String
  pub runtime : String
  pub provider_mode : String
  pub credential_id : String
  pub storage_policy : String
  pub idle_timeout_seconds : ℕ
  pub active_deadline_seconds : ℕ
  pub priority_class_name : String
  pub memory_request : ℕ
  pub status : Status

pub record Mount : Type 0 where
  pub volume : String
  pub path : String
  pub sub_path : String
  pub read_only : Bool

pub record ContainerSpec : Type 0 where
  pub name : String
  pub image : String
  pub command : List String
  pub args : List String
  pub env : Dict String
  pub resources : Requirements
  pub allow_privilege_escalation : Bool
  pub read_only_root_filesystem : Bool
  pub dropped_capabilities : List String
  pub mounts : List Mount
  pub probe : List String

pub data VolumeSource : Type 0 where
  claim_source : String → VolumeSource
  empty_dir : ℕ → VolumeSource
  -- The audience, the expiration in seconds, and the path.
  service_account_token : String → ℕ → String → VolumeSource

-- The Nodes that may take the Pod: their role, and their name if one is given.
pub record Affinity : Type 0 where
  pub role : String
  pub node_name : Option String

pub record PodSpec : Type 0 where
  pub service_account_name : String
  pub automount_token : Bool
  pub restart_policy : String
  pub priority_class_name : String
  pub active_deadline_seconds : ℕ
  pub termination_grace_seconds : ℕ
  pub run_as_non_root : Bool
  pub run_as_user : ℕ
  pub run_as_group : ℕ
  pub fs_group : ℕ
  pub affinity : Affinity
  pub containers : List ContainerSpec
  pub init_containers : List ContainerSpec
  pub volumes : List (String × VolumeSource)

pub record PodCondition : Type 0 where
  pub kind : String
  pub status : String
  pub reason : String
  pub message : String

-- `terminations` has the reason of each container that is terminated.
pub record AgentPod : Type 0 where
  pub namespace : String
  pub name : String
  pub labels : Dict String
  pub annotations : Dict String
  pub spec : PodSpec
  pub creation_timestamp : ℕ
  pub node_name : String
  pub phase : String
  pub message : String
  pub reason : String
  pub conditions : List PodCondition
  pub terminations : List String

pub record Claim : Type 0 where
  pub namespace : String
  pub name : String
  pub labels : Dict String
  pub is_deleting : Bool
  pub storage_class : String
  pub storage : ℕ

pub record ServiceAccount : Type 0 where
  pub namespace : String
  pub name : String
  pub labels : Dict String
  pub automount_token : Bool

pub data WorkState : Type 0 where
  state_unknown working awaiting_approval awaiting_choice awaiting_input stopped : WorkState

pub record QuiesceResult : Type 0 where
  pub created_at : ℕ
  pub size_bytes : ℕ
  pub sha256 : String
  pub agent_image_digest : String

-- The answer to a read.
pub data Lookup (A : Type 0) : Type 0 where
  present : A → Lookup A
  absent : Lookup A
  unreadable : String → Lookup A

-- The answer to a write.
pub data Answer : Type 0 where
  accepted conflict already_exists not_there : Answer
  refused : String → Answer

-- The controller's client, clock, quiescer and state reader.
pub record Kube : Type 1 where
  pub World : Type 0
  pub get_session : String → String → World → Lookup Session
  pub update_session : Session → Run World Answer
  -- The object as it was read, and the status that is set in it.
  pub update_status : Session → Status → Run World Answer
  pub get_pod : String → String → Run World (Lookup AgentPod)
  pub create_pod : AgentPod → Run World Answer
  -- The grace period, where one is given.
  pub delete_pod : AgentPod → Option ℕ → Run World Answer
  pub get_claim : String → String → Run World (Lookup Claim)
  pub create_claim : Claim → Run World Answer
  pub delete_claim : Claim → Run World Answer
  pub get_account : String → String → Run World (Lookup ServiceAccount)
  pub create_account : ServiceAccount → Run World Answer
  pub delete_account : String → String → Run World Answer
  pub now : World → ℕ
  pub quiesce : AgentPod → Run World (Reply QuiesceResult)
  pub read_state : AgentPod → World → Option WorkState
  -- The steps of `retry.DefaultBackoff`.
  pub backoff_steps : ℕ

-- Functions of Go's and of Kubernetes' libraries.
pub record Tools : Type 0 where
  pub sha256_hex : String → String
  pub is_uuid_v7 : String → Bool
  pub trim_space : String → String
  -- `strings.TrimPrefix(s, p)` where `strings.HasPrefix(s, p)`, and `strings.SplitN(s, sep, 2)[0]`.
  pub without_prefix : String → String → Option String
  pub before_separator : String → String → String
  pub decimal : ℕ → String
  -- The number that `strconv.Atoi` returns, which is 0 for a text that is no number.
  pub atoi : String → ℕ
  pub parse_time : String → Option ℕ
  -- `reflect.DeepEqual`.
  pub same_status : Status → Status → Bool
  pub set_condition : SessionCondition → List SessionCondition → List SessionCondition
  pub remove_condition : String → List SessionCondition → List SessionCondition
  pub find_condition : String → List SessionCondition → Option SessionCondition
  -- The error text of `SetControllerReference` for the object of that name, if there is one.
  pub owner_error : Session → String → Option String

-- The fields of the reconciler.
pub record Reconciler : Type 0 where
  pub agent_image : String
  pub storage_class_name : String
  pub gateway_url : String
  pub egress_proxy_url : String
  pub idle_scan_interval : ℕ
  pub capacity_scheduling_enabled : Bool
  pub has_quiescer : Bool
  pub has_state_reader : Bool

-- `ctrl.Result` and the error.
pub record Outcome : Type 0 where
  pub requeue : Bool
  pub requeue_after : ℕ
  pub error : Option String
