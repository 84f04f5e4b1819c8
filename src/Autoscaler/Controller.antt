-- ===== src/Autoscaler/Controller.antt =====
-- operator/internal/controller/resource_autoscaler.go: the autoscaler's own state, the Kubernetes
-- API that it calls, and the writes of the scaling status. The API, the clock and the Go library's
-- `strings.TrimSpace` are a parameter: what a call returns and how it changes the world is theirs.
pub mod Backoff
use Prim.Native.String.{len, slice}
use bosun.Prelude.{
  ℕ, zero, suc, ◌+◌, String, Bool, true, false, ◌&&◌, Option, none, some, [], ◌∷◌, ltb, ◌==◌,
  str_eq, if◌then◌else◌,
}
use bosun.Prelude.Dict.{Dict, lookup, insert, delete}
use bosun.Policy.Load.{LoadClass, unset, unknown, warming_up, stable, cpu_high, cpu_low}
use bosun.Policy.Window.{SampleWindow, empty}
use bosun.Cluster.{AgentSession, Pod, ResourceScalingStatus}

pub data Fetched {ℓ} (A : Type ℓ) : Type ℓ where
  found : A → Fetched A
  not_found : Fetched A
  unavailable : Fetched A

-- The answer to a write: done, refused for a newer version of the object, or failed otherwise.
pub data Written : Type 0 where
  written conflict rejected : Written

pub record Api : Type 1 where
  pub World : Type 0
  pub now : World → ℕ
  pub get_session : String → String → World → Fetched AgentSession
  pub get_pod : String → String → World → Fetched Pod
  pub update_status : AgentSession → World → World × Written
  -- The error text, if the call fails.
  pub update_resize : Pod → World → World × Option String
  pub trim_space : String → String
  pub backoff_steps : ℕ

pub record FailedResizeIntent : Type 0 where
  pub pod_uid : String
  pub cpu : ℕ
  pub memory : ℕ
  pub attempted_at : ℕ

pub record Controller : Type 0 where
  pub scale_up_cooldown : ℕ
  pub scale_down_cooldown : ℕ
  pub retry_interval : ℕ
  pub windows : Dict SampleWindow
  pub failed_attempts : Dict FailedResizeIntent

-- One minute, in nanoseconds.
abbrev pub default_resize_retry_interval : ℕ
default_resize_retry_interval = 60_000_000_000

abbrev pub window_or_empty : Option SampleWindow → SampleWindow
window_or_empty none = empty
window_or_empty (some w) = w

-- `r.window(uid)`: the window of a session, which is made where there is none.
unfoldable pub window : String → Controller → SampleWindow
window uid c = window_or_empty (lookup uid c.windows)

unfoldable pub set_window : String → SampleWindow → Controller → Controller
set_window uid w c = record c { windows = insert uid w c.windows }

unfoldable pub clear_window : String → Controller → Controller
clear_window uid c = record c { windows = delete uid c.windows }

unfoldable pub record_failed_attempt : String → FailedResizeIntent → Controller → Controller
record_failed_attempt uid intent c = record c {
  failed_attempts = insert uid intent c.failed_attempts;
}

unfoldable pub clear_failed_attempt : String → Controller → Controller
clear_failed_attempt uid c = record c { failed_attempts = delete uid c.failed_attempts }

abbrev pub interval_of : Controller → ℕ
interval_of c = if c.retry_interval == 0 then default_resize_retry_interval else c.retry_interval

abbrev pub same_intent : FailedResizeIntent → FailedResizeIntent → Bool
same_intent x y = str_eq x.pod_uid y.pod_uid && x.cpu == y.cpu && x.memory == y.memory

-- `now - attempted_at < interval`.
unfoldable pub retry_suppressed : String → FailedResizeIntent → ℕ → Controller → Bool
retry_suppressed uid intent now c = elim (lookup uid c.failed_attempts) [
  | none ↦ false
  | some failed ↦
      if same_intent failed intent then ltb now (failed.attempted_at + interval_of c) else false
]

-- `pruneState`: only what belongs to a session that was seen is kept.
unfoldable pub prune {ℓ} : {V : Type ℓ} → (String → Bool) → Dict V → Dict V
prune seen [] = []
prune seen ((uid, v) ∷ m) = if seen uid then (uid, v) ∷ prune seen m else prune seen m

unfoldable pub prune_state : (String → Bool) → Controller → Controller
unfolding prune
prune_state seen c = record c {
  windows = prune seen c.windows;
  failed_attempts = prune seen c.failed_attempts;
}

abbrev pub load_class_code : LoadClass → ℕ
load_class_code unset = 5
load_class_code unknown = 0
load_class_code warming_up = 1
load_class_code stable = 2
load_class_code cpu_high = 3
load_class_code cpu_low = 4

abbrev pub same_instant : Option ℕ → Option ℕ → Bool
same_instant none none = true
same_instant (some a) (some b) = a == b
same_instant _ _ = false

-- `reflect.DeepEqual(current.Status.ResourceScaling, desired)`; the second is never nil.
abbrev pub same_scaling : Option ResourceScalingStatus → ResourceScalingStatus → Bool
same_scaling none desired = false
same_scaling (some s) desired =
    load_class_code s.load_class == load_class_code desired.load_class
    && s.recommended_cpu_millicores == desired.recommended_cpu_millicores
    && same_instant s.last_applied_at desired.last_applied_at
    && str_eq s.last_error desired.last_error

-- The zero value of the status.
abbrev pub no_scaling : ResourceScalingStatus
no_scaling = record {
  load_class = unset;
  recommended_cpu_millicores = 0;
  last_applied_at = none;
  last_error = "";
}

abbrev pub scaling_or_default : Option ResourceScalingStatus → ResourceScalingStatus
scaling_or_default none = no_scaling
scaling_or_default (some s) = s

module _ (api : Api) where
  open api use {World, get_session, update_status, trim_space, backoff_steps}

  -- The body that `retry.RetryOnConflict` runs at most `n` times.
  unfoldable pub update_scaling_from :
      ℕ → String → String → (ResourceScalingStatus → ResourceScalingStatus) → World → World × Bool
  update_scaling_from zero namespace name mutate w = (w, false)
  update_scaling_from (suc n) namespace name mutate w = elim (get_session namespace name w) [
    | not_found ↦ (w, false)
    | unavailable ↦ (w, false)
    | found current ↦
        let desired = mutate (scaling_or_default current.resource_scaling) in
        elim (same_scaling current.resource_scaling desired) [
          | true ↦ (w, true)
          | false ↦
              let (w', answer) =
                update_status (record current { resource_scaling = some desired }) w in
              elim answer [
                | written ↦ (w', true)
                | conflict ↦ update_scaling_from n namespace name mutate w'
                | rejected ↦ (w', false)
              ]
        ]
  ]

  unfoldable pub update_scaling_status :
      AgentSession → (ResourceScalingStatus → ResourceScalingStatus) → World → World × Bool
  unfolding update_scaling_from
  update_scaling_status s mutate w = update_scaling_from backoff_steps s.namespace s.name mutate w

  unfoldable pub safe_condition_message : String → String
  safe_condition_message message =
      let trimmed = trim_space message in
      if ltb 512 (len trimmed) then slice trimmed 0 512 else trimmed

  unfoldable pub record_scaling_error : AgentSession → String → World → World
  unfolding update_scaling_status safe_condition_message
  record_scaling_error s message w =
      (update_scaling_status s
        (λ status. record status { last_error = safe_condition_message message }) w).0

  -- The `mutate` function of `updateAutoStatus`.
  abbrev pub auto_status :
      Controller
      → String
      → LoadClass
      → ℕ
      → Option String
      → ResourceScalingStatus
      → ResourceScalingStatus
  auto_status c uid load_class target (some message) status = record status {
    load_class = load_class;
    recommended_cpu_millicores = target;
    last_error = safe_condition_message message;
  }
  auto_status c uid load_class target none status = record status {
    load_class = load_class;
    recommended_cpu_millicores = target;
    last_error = elim (lookup uid c.failed_attempts) [ none ↦ "" | some _ ↦ status.last_error ];
  }

  -- `updateAutoStatus`; a message stands for `isError`.
  unfoldable pub update_auto_status :
      Controller → AgentSession → LoadClass → ℕ → Option String → World → World × Bool
  unfolding update_scaling_status safe_condition_message
  update_auto_status c s load_class target message w =
      update_scaling_status s (auto_status c s.uid load_class target message) w
