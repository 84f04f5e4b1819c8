-- ===== src/Lifecycle/Checks.antt =====
-- operator/internal/controller/agentsession_controller.go: the checks of objects, the names that
-- belong to a session, and what is read from a Pod.
use Prim.Native.String.{◌++◌, slice, len}
use bosun.Prelude.{
  ℕ, String, Bool, false, not, ◌&&◌, ◌||◌, Option, none, some, List, [], ◌∷◌, ltb, ◌==◌, str_eq,
  if◌then◌else◌, any, find,
}
use bosun.Prelude.Dict.{Dict}
use bosun.Policy.{policy}
use bosun.Cluster.{label, session_label}
use bosun.Lifecycle.{
  Session, AgentPod, PodCondition, SessionCondition, Phase, unset, pending, provisioning, running,
  idle, hibernating, hibernated, archiving, archived, restoring, deleting, failed, Tools,
}

abbrev pub phase_code : Phase → ℕ
phase_code unset = 0
phase_code pending = 1
phase_code provisioning = 2
phase_code running = 3
phase_code idle = 4
phase_code hibernating = 5
phase_code hibernated = 6
phase_code archiving = 7
phase_code archived = 8
phase_code restoring = 9
phase_code deleting = 10
phase_code failed = 11

abbrev pub same_phase : Phase → Phase → Bool
same_phase p q = phase_code p == phase_code q

abbrev pub managed_by_label : String
managed_by_label = "app.kubernetes.io/managed-by"

abbrev pub managed_by_value : String
managed_by_value = "bosun"

abbrev pub user_label : String
user_label = "bosun.io/user"

abbrev pub resume_nonce_annotation : String
resume_nonce_annotation = "bosun.io/resume-nonce"

abbrev pub last_active_annotation : String
last_active_annotation = "bosun.io/last-active-at"

abbrev pub retry_condition : String
retry_condition = "ReconcileRetry"

unfoldable pub session_labels : Session → Dict String
session_labels s =
    (managed_by_label, managed_by_value)
    ∷ (user_label, s.user_id)
    ∷ (session_label, s.session_id)
    ∷ []

-- `validateSessionWorkload`, on the labels of the object.
unfoldable pub belongs : Session → Dict String → Bool
belongs s labels =
    str_eq (label managed_by_label labels) managed_by_value
    && str_eq (label user_label labels) s.user_id
    && str_eq (label session_label labels) s.session_id

unfoldable pub supported_priority_class : String → Bool
supported_priority_class name =
    str_eq name "bosun-free" || str_eq name "bosun-normal" || str_eq name "bosun-high"

unfoldable pub pod_ready : AgentPod → Bool
pod_ready pod = elim (find (λ c. str_eq c.kind "Ready") pod.conditions) [
  | none ↦ false
  | some c ↦ str_eq c.status "True"
]

unfoldable pub pod_scheduled_condition : AgentPod → Option PodCondition
pod_scheduled_condition pod = find (λ c. str_eq c.kind "PodScheduled") pod.conditions

unfoldable pub pod_stopped_by_deadline : AgentPod → Bool
pod_stopped_by_deadline pod =
    str_eq pod.reason "DeadlineExceeded" || any (λ r. str_eq r "DeadlineExceeded") pod.terminations

-- The condition that says that the Pod has no Node, if there is one.
unfoldable pub unschedulable : AgentPod → Option PodCondition
unfolding pod_scheduled_condition
unschedulable pod = elim (pod_scheduled_condition pod) [
  | none ↦ none
  | some c ↦ if str_eq c.status "False" && str_eq c.reason "Unschedulable" then some c else none
]

module _ (tools : Tools) where
  open tools use {
    sha256_hex, is_uuid_v7, trim_space, without_prefix, before_separator, atoi, parse_time,
    find_condition,
  }

  unfoldable pub short_id : String → String
  short_id id = slice (sha256_hex id) 0 12

  unfoldable pub session_name : String → String
  unfolding short_id
  session_name id = "sess-" ++ short_id id

  unfoldable pub pod_name : String → String
  unfolding short_id
  pod_name id = "agent-" ++ short_id id

  unfoldable pub claim_name : String → String
  unfolding short_id
  claim_name id = "workspace-" ++ short_id id

  unfoldable pub account_name : String → String
  unfolding short_id
  account_name id = "bosun-session-" ++ short_id id

  -- `validateAgentSession`: the text of the first check that fails.
  unfoldable pub validate_session : Session → Option String
  unfolding belongs supported_priority_class session_name
  validate_session s =
      if not (is_uuid_v7 s.session_id) || not (is_uuid_v7 s.user_id)
      then some "spec.sessionID and spec.userID must be UUID v7"
      else if not (str_eq s.name (session_name s.session_id))
      then some "metadata.name must match spec.sessionID"
      else if not (belongs s s.labels)
      then some "required Bosun management labels must match spec IDs"
      else if not (str_eq s.runtime "claude-code")
          || not (str_eq s.provider_mode "platform")
          || not (str_eq s.credential_id "")
          || not (str_eq s.storage_policy "local")
          || not (supported_priority_class s.priority_class_name)
      then some "session must use a supported Bosun priority class"
      else if ltb s.memory_request policy.min_memory_request_bytes
          || ltb policy.max_memory_request_bytes s.memory_request
      then some "spec.memoryRequest must be between 1Gi and 64Gi"
      else none

  abbrev pub time_of : Option ℕ → ℕ → ℕ
  time_of none fallback = fallback
  time_of (some t) fallback = t

  unfoldable pub session_activity : Session → ℕ → ℕ
  session_activity s fallback =
      let raw = label last_active_annotation s.annotations in
      let recorded = time_of s.status.last_active_at fallback in
      if str_eq raw "" then recorded else time_of (parse_time raw) recorded

  unfoldable pub safe_message : String → String
  safe_message message =
      let trimmed = trim_space message in
      if ltb 512 (len trimmed) then slice trimmed 0 512 else trimmed

  unfoldable pub readable_scheduling_message : String → String
  unfolding safe_message
  readable_scheduling_message message =
      if str_eq (trim_space message) ""
      then "No eligible node currently has sufficient capacity"
      else safe_message message

  -- The number after "attempt=", up to the next ";".
  unfoldable pub attempt_in : String → ℕ
  attempt_in message = elim (without_prefix message "attempt=") [
    | none ↦ 0
    | some rest ↦ atoi (before_separator rest ";")
  ]

  unfoldable pub retry_attempt : List SessionCondition → ℕ → ℕ
  unfolding attempt_in
  retry_attempt conditions generation = elim (find_condition retry_condition conditions) [
    | none ↦ 0
    | some c ↦ if c.observed_generation == generation then attempt_in c.message else 0
  ]
