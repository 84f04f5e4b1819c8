-- ===== src/Environment.antt =====
-- operator/internal/controller/userenvironment_controller.go: the namespace of a user, with its quota
-- and its policies. This file has the objects (operator/api/v1alpha1/userenvironment_types.go for the
-- UserEnvironment), and the Kubernetes API as a parameter.
pub mod Baseline
pub mod Reconcile
pub mod Protocol
pub mod Progress
use bosun.Prelude.{ℕ, String, Bool, Option, List}
use bosun.Prelude.Dict.{Dict}
use bosun.Prelude.Run.{Run}
use bosun.Lifecycle.{SessionCondition, Lookup, Answer}

-- `unset` is the empty text of a new status.
pub data EnvironmentPhase : Type 0 where
  unset pending ready failed : EnvironmentPhase

pub record EnvironmentStatus : Type 0 where
  pub phase : EnvironmentPhase
  pub observed_generation : ℕ
  pub conditions : List SessionCondition

pub record UserEnvironment : Type 0 where
  pub name : String
  pub generation : ℕ
  pub labels : Dict String
  pub user_id : String
  pub namespace : String
  pub quota_profile : String
  pub status : EnvironmentStatus

-- Peers of one namespace and one label of their Pods, and the ports with their protocols.
pub record EgressRule : Type 0 where
  pub to_namespace : String
  pub to_pods : String × String
  pub ports : List (String × ℕ)

pub record RoleRef : Type 0 where
  pub api_group : String
  pub kind : String
  pub name : String

pub record Subject : Type 0 where
  pub kind : String
  pub name : String
  pub namespace : String

-- CPU is in millicores, memory and storage in bytes. A policy is for all Pods of its namespace.
pub data ObjectSpec : Type 0 where
  namespace_spec : ObjectSpec
  quota_spec : Dict ℕ → ObjectSpec
  -- The default requests and the default limits of a container.
  limit_range_spec : Dict ℕ → Dict ℕ → ObjectSpec
  -- The policy types, and the egress that is allowed.
  network_policy_spec : List String → List EgressRule → ObjectSpec
  role_binding_spec : RoleRef → List Subject → ObjectSpec

pub record Object : Type 0 where
  pub namespace : String
  pub name : String
  pub labels : Dict String
  pub resource_version : String
  pub spec : ObjectSpec

-- An error: a `permanentReconcileError` with its reason and message, `errGenerationChanged`, or another.
pub data Problem : Type 0 where
  permanent : String → String → Problem
  generation_changed : Problem
  transient : String → Problem

pub data Checked (A : Type 0) : Type 0 where
  ok : A → Checked A
  err : Problem → Checked A

pub record Client : Type 1 where
  pub World : Type 0
  pub get_environment : String → World → Lookup UserEnvironment
  -- The object as it was read, and the status that is set in it.
  pub update_status : UserEnvironment → EnvironmentStatus → Run World Answer
  -- The object of the kind, the namespace and the name of the argument.
  pub get_object : Object → Run World (Lookup Object)
  -- `controllerutil.CreateOrUpdate`: the object as it is built, and the change that is made to what
  -- is stored, or to the object itself; its error is that of the change or another one.
  pub create_or_update : Object → (Object → Checked Object) → Run World (Checked Unit)
  -- The steps of `retry.DefaultBackoff`.
  pub backoff_steps : ℕ

-- Functions of Go's and of Kubernetes' libraries.
pub record Library : Type 0 where
  pub sha256_hex : String → String
  pub is_uuid_v7 : String → Bool
  -- `reflect.DeepEqual`.
  pub same_status : EnvironmentStatus → EnvironmentStatus → Bool
  pub set_condition : SessionCondition → List SessionCondition → List SessionCondition
  -- The error text of `SetControllerReference`, if there is one.
  pub owner_error : UserEnvironment → Object → Option String
