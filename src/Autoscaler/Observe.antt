-- ===== src/Autoscaler/Observe.antt =====
-- operator/internal/controller/resource_autoscaler.go: the observation of one session, from its
-- Pod and a metric reading to a demand, and the status that reports it.
pub mod Demands
use Prim.Native.String.{◌++◌}
use bosun.Prelude.{
  ℕ, ◌+◌, String, Bool, true, false, not, ◌&&◌, ◌||◌, Option, none, some, List, [], ◌∷◌, ltb, leb,
  ◌==◌, str_eq, if◌then◌else◌,
}
use bosun.Policy.{policy}
use bosun.Policy.Load.{LoadClass, unknown, cpu_high, cpu_low, recommendation}
use bosun.Policy.Window.{SampleWindow, prepare, add}
use bosun.Cluster.{
  AgentSession, Pod, Container, ContainerStatus, Condition, ResourceScalingStatus,
  agent_container_name, find_pod_container, actual_agent_resources,
}
use bosun.Autoscaler.Plan.{AutoscaleSession, priority_rank}
use bosun.Autoscaler.Controller.{
  Api, Controller, window, set_window, clear_window, clear_failed_attempt, update_auto_status,
  record_scaling_error,
}
use bosun.Autoscaler.Resize.{pod_has_active_resize}

pub record AgentPodMetric : Type 0 where
  pub timestamp : ℕ
  pub metric_window : ℕ
  pub cpu_usage_millicores : ℕ

-- The answer of `GetAgentPodMetric`.
pub data Reading : Type 0 where
  unreadable : String → Reading
  not_ready : Reading
  ready : AgentPodMetric → Reading

-- 45 seconds, in nanoseconds.
abbrev pub metrics_max_age : ℕ
metrics_max_age = 45_000_000_000

unfoldable pub identity_from : (ℕ → String) → String → List ContainerStatus → String
identity_from decimal uid [] = uid
identity_from decimal uid (s ∷ ss) =
    if str_eq s.name agent_container_name
    then uid ++ "/" ++ decimal s.restart_count ++ "/" ++ s.container_id
    else identity_from decimal uid ss

-- `decimal` is the `%d` of `fmt.Sprintf`.
unfoldable pub agent_metric_identity : (ℕ → String) → Pod → String
unfolding identity_from
agent_metric_identity decimal pod = identity_from decimal pod.uid pod.container_statuses

unfoldable pub auto_observation_allowed : AgentSession → Pod → Bool
auto_observation_allowed s pod =
    if not (str_eq s.desired_state "Running")
      || not (str_eq pod.phase "Running")
      || str_eq pod.node_name ""
    then false
    else str_eq s.phase "Running" || str_eq s.phase "Idle"

-- The first condition that says `Ready` decides.
unfoldable pub work_allows : List Condition → Bool
work_allows [] = false
work_allows (c ∷ cs) =
    if not (str_eq c.kind "Ready") || not (str_eq c.status "True")
    then work_allows cs
    else not (
        str_eq c.reason "AgentWorking"
        || str_eq c.reason "AwaitingApproval"
        || str_eq c.reason "AwaitingChoice")

unfoldable pub work_state_allows_scale_down : AgentSession → Bool
unfolding work_allows
work_state_allows_scale_down s = work_allows s.conditions

abbrev pub last_applied : Option ResourceScalingStatus → Option ℕ
last_applied none = none
last_applied (some s) = s.last_applied_at

abbrev pub elapsed_since : Option ℕ → ℕ → ℕ → Bool
elapsed_since none now cooldown = true
elapsed_since (some t) now cooldown = leb (t + cooldown) now

-- `now - last >= cooldown`, or no resize was applied yet.
unfoldable pub cooldown_elapsed : Option ResourceScalingStatus → ℕ → ℕ → Bool
cooldown_elapsed status now cooldown = elapsed_since (last_applied status) now cooldown

abbrev pub current_limit : Container → ℕ
current_limit agent =
    if agent.resources.limits.cpu == 0 then policy.min_cpu_limit else agent.resources.limits.cpu

abbrev pub start_state : AgentSession → Pod → Container → String → AutoscaleSession
start_state s pod agent key = record {
  key = key;
  session = s;
  pod = pod;
  priority = priority_rank s.priority_class_name;
  current = current_limit agent;
  target = current_limit agent;
  demand = current_limit agent;
  scale_up = false;
  needs_sync =
      not (agent.resources.requests.cpu == current_limit agent)
      || not (agent.resources.requests.memory == s.memory_request)
      || not (agent.resources.limits.memory == s.memory_request);
}

-- The `switch` on the load class.
unfoldable pub decide : Controller → ℕ → LoadClass → ℕ → AutoscaleSession → AutoscaleSession
decide c now cpu_high target state =
    if cooldown_elapsed state.session.resource_scaling now c.scale_up_cooldown
    then record state { demand = target; scale_up = true }
    else state
decide c now cpu_low target state =
    if work_state_allows_scale_down state.session
      && cooldown_elapsed state.session.resource_scaling now c.scale_down_cooldown
    then record state { target = target; demand = target }
    else state
decide c now _ target state = state

-- What follows the recommendation, once the status is written.
unfoldable pub demand_state : Controller → ℕ → LoadClass × ℕ → AutoscaleSession → AutoscaleSession
unfolding decide
demand_state c now (load_class, target) state =
    if target == 0 || target == state.current || pod_has_active_resize state.pod
    then state
    else decide c now load_class target state

module _ (api : Api) (decimal : ℕ → String) where
  open api use {World, now}

  -- The new world and controller, and the state unless an error is returned.
  pub record Observed : Type 0 where
    pub world : World
    pub controller : Controller
    pub state : Option AutoscaleSession

  -- Writes the status; an error of the write discards the state.
  unfoldable pub report :
      Controller → AutoscaleSession → LoadClass → ℕ → Option String → World → Observed
  report c state load_class target message w =
      let (w', done) = update_auto_status api c state.session load_class target message w in
      record { world = w'; controller = c; state = if done then some state else none }

  -- From the recommendation on, with the window as it is now.
  unfoldable pub recommend : Controller → AutoscaleSession → SampleWindow → World → Observed
  unfolding demand_state
  recommend c state samples w =
      let advice = recommendation samples.samples state.current policy in
      let c' = set_window state.session.uid samples c in
      let (w', done) = update_auto_status api c' state.session advice.0 advice.1 none w in
      record {
        world = w';
        controller = c';
        state = if done then some (demand_state c' (now w') advice state) else none;
      }

  -- The handling of a reading, after the checks of the session and of the Pod.
  unfoldable pub read_metric :
      Controller → AutoscaleSession → SampleWindow → ℕ → Reading → World → Observed
  unfolding report recommend
  read_metric c state samples actual_limit (unreadable error) w =
      report c state unknown 0 (some ("read Kubelet metrics: " ++ error)) w
  read_metric c state samples actual_limit not_ready w = recommend c state samples w
  read_metric c state samples actual_limit (ready metric) w =
      if metric.timestamp == 0
      then report c state unknown 0 (some "Kubelet metric timestamp is unavailable") w
      else if ltb (metric.timestamp + metrics_max_age) (now w)
      then report c state unknown 0 (some "Kubelet metric is older than 45s") w
      else recommend c state
          (add
            (record {
              pod_uid = agent_metric_identity decimal state.pod;
              observed_at = metric.timestamp;
              metric_window = metric.metric_window;
              cpu_usage = metric.cpu_usage_millicores;
              actual_cpu_limit = actual_limit;
            })
            samples).0
          w

  abbrev pub actual_limit_of : Pod → ℕ
  actual_limit_of pod = elim (actual_agent_resources pod) [ none ↦ 0 | some r ↦ r.limits.cpu ]

  -- The window after `Prepare`, and the controller that holds it.
  abbrev pub prepared : AgentSession → Pod → Controller → SampleWindow × Bool
  prepared s pod c = prepare (agent_metric_identity decimal pod) s.generation (window s.uid c)

  abbrev pub enter : AgentSession → Pod → Controller → Controller
  enter s pod c =
      let c' = set_window s.uid (prepared s pod c).0 c in
      if (prepared s pod c).1 then clear_failed_attempt s.uid c' else c'

  -- The observation of a Pod whose Agent container is found.
  unfoldable pub observe_agent :
      AgentSession → Pod → Reading → Controller → World → Container → Observed
  unfolding read_metric report
  observe_agent s pod reading c w agent =
      let state = start_state s pod agent (s.namespace ++ "/" ++ s.name) in
      let c' = enter s pod c in
      if state.priority == 1
      then report (clear_window s.uid c')
          (record state { target = policy.min_cpu_limit; demand = policy.min_cpu_limit }) unknown
          policy.min_cpu_limit none w
      else if not (auto_observation_allowed s pod)
      then report c' state unknown 0 none w
      else if actual_limit_of pod == 0
      then report c' state unknown 0 (some "agent actual CPU limit is unavailable") w
      else read_metric c' state (prepared s pod c).0 (actual_limit_of pod) reading w

  unfoldable pub observe_found :
      AgentSession → Pod → Reading → Controller → World → Option Container → Observed
  unfolding observe_agent
  observe_found s pod reading c w none = record {
    world = record_scaling_error api s "agent container is unavailable" w;
    controller = c;
    state = none;
  }
  observe_found s pod reading c w (some agent) = observe_agent s pod reading c w agent

  unfoldable pub observe_session : AgentSession → Pod → Reading → Controller → World → Observed
  unfolding observe_found
  observe_session s pod reading c w =
      observe_found s pod reading c w (find_pod_container pod agent_container_name)
