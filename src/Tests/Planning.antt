-- ===== src/Tests/Planning.antt =====
-- The plan of a Node with one session of high and one of normal priority.
use bosun.Prelude.{
  ℕ, ◌+◌, ◌*◌, ◌≤◌, ◌≡◌, refl, ap, inl, inr, arith, String, true, false, Option, none, some,
  if◌then◌else◌, str_eq, List, [], ◌∷◌, All, length,
}
use bosun.Prelude.Dict.{Dict, get, total, lookup, insert}
use bosun.Policy.{resource_requirements}
use bosun.Cluster.{AgentSession, Pod, Container, agent_container_name, find_pod_container}
use bosun.Autoscaler.Plan.{
  AutoscaleSession, plan_node, plan_fair_priority, new_extras, pool_of, demands_of, allocate,
}
use bosun.Prelude.Sort.{sort}
use bosun.Scheduler.{max_min_cpu, round}
use bosun.Autoscaler.Plan.Reclaim.{targets, IsReady}
use bosun.Autoscaler.Plan.Conservation.{currents, plan_node-targets-le, plan_node-IsReady}
use bosun.Autoscaler.Controller.{Api, Controller, found, written, retry_suppressed}
use bosun.Autoscaler.Resize.{apply_node_plan, resize_state}
use bosun.Autoscaler.Resize.Effect.{IsCluster}
use bosun.Autoscaler.Resize.Order.{resize, apply_node_plan-total-le, apply_node_plan-refused}

abbrev agent_container : Container
agent_container = record { name = "agent"; resources = resource_requirements 0 }

abbrev pub pod_of : String → Pod
pod_of name = record {
  namespace = "user";
  name = name;
  uid = "pod-uid";
  labels = [];
  deleting = false;
  node_name = "node";
  containers = agent_container ∷ [];
  init_containers = [];
  ephemeral_containers = [];
  overhead_memory = none;
  phase = "Running";
  conditions = [];
  container_statuses = [];
}

abbrev pub session_of_class : String → String → AgentSession
session_of_class name class_name = record {
  namespace = "user";
  name = name;
  uid = name;
  generation = 1;
  creation_timestamp = 1;
  annotations = [];
  deleting = false;
  session_id = name;
  desired_state = "Running";
  priority_class_name = class_name;
  memory_request = 2147483648;
  phase = "Running";
  resource_scaling = none;
  conditions = [];
}

abbrev pub high : AutoscaleSession
high = record {
  key = "user/high";
  session = session_of_class "high" "bosun-high";
  pod = pod_of "agent-high";
  priority = 3;
  current = 1000;
  target = 1000;
  demand = 2000;
  scale_up = true;
  needs_sync = false;
}

abbrev pub normal : AutoscaleSession
normal = record {
  key = "user/normal";
  session = session_of_class "normal" "bosun-normal";
  pod = pod_of "agent-normal";
  priority = 2;
  current = 1000;
  target = 1000;
  demand = 1000;
  scale_up = false;
  needs_sync = false;
}

abbrev states : List AutoscaleSession
states = high ∷ normal ∷ []

abbrev limits : Dict ℕ
limits = ("user/high", 1000) ∷ ("user/normal", 1000) ∷ []

plan_node-targets-le_example :
    targets (plan_node 100 states) ≤ currents states + 100 + 2 * length states
plan_node-targets-le_example =
    plan_node-targets-le 100 states ((refl, tt), (tt, tt))
      ((omega arith, omega arith), ((omega arith, omega arith), tt))
      (omega arith, (omega arith, tt))

plan_node-IsReady_example : All IsReady (plan_node 100 states)
plan_node-IsReady_example =
    plan_node-IsReady 100 states ((refl, tt), (tt, tt))
      ((omega arith, omega arith), ((omega arith, omega arith), tt))
      (omega arith, (omega arith, tt))

-- A cluster whose world is the limits; each Pod has the key of its session, and no update fails.
abbrev agent_cpu : Option Container → ℕ
agent_cpu none = 0
agent_cpu (some c) = c.resources.limits.cpu

abbrev willing : Api
willing = record {
  World = Dict ℕ;
  now = λ w. 5;
  get_session = λ namespace name w. found (session_of_class name "bosun-high");
  get_pod = λ namespace name w. found (record (pod_of name) {
    uid = if str_eq name "agent-high" then "user/high" else "user/normal";
  });
  update_status = λ s w. (w, written);
  update_resize =
      λ p w. (insert p.uid (agent_cpu (find_pod_container p agent_container_name)) w, none);
  trim_space = λ s. s;
  backoff_steps = 5;
}

willing-IsCluster : IsCluster willing (λ w. w) (λ uid. uid)
willing-IsCluster = record {
  status_keeps = λ s w. refl;
  resize_sets = λ p c w there. (true, ap (λ o. insert p.uid (agent_cpu o) w) there, λ _. refl);
}

abbrev idle_controller : Controller
idle_controller = record {
  scale_up_cooldown = 1;
  scale_down_cooldown = 1;
  retry_interval = 60;
  windows = [];
  failed_attempts = [];
}

abbrev with_uid : AutoscaleSession → AutoscaleSession
with_uid s = record s { pod = record s.pod { uid = s.key } }

-- The session of high priority takes the free CPU, and 400 millicores of the other one.
abbrev at_work : List AutoscaleSession
at_work = with_uid (record high { target = 1500 }) ∷ with_uid (record normal { target = 600 }) ∷ []

apply_node_plan-total-le_example :
    total
      (apply_node_plan
        (resize willing (λ w. w) (λ uid. uid) willing-IsCluster)
        at_work
        (idle_controller, limits)).1
    ≤ total limits + 100
unfolding lookup
apply_node_plan-total-le_example =
    apply_node_plan-total-le willing (λ w. w) (λ uid. uid) willing-IsCluster at_work idle_controller
      limits ((refl, tt), (tt, tt)) ((refl, refl), ((refl, refl), tt)) (refl, (refl, tt)) 100
      (omega arith)

-- The session that is to be lowered has another generation by now.
abbrev changed_since : List AutoscaleSession
changed_since =
    with_uid (record high { target = 1500 })
    ∷ with_uid (record normal { target = 600; session = record normal.session { generation = 7 } })
    ∷ []

apply_node_plan-refused_example :
    get "user/high"
      (apply_node_plan
        (resize willing (λ w. w) (λ uid. uid) willing-IsCluster)
        changed_since
        (idle_controller, limits)).1
    ≤ get "user/high" limits
unfolding lookup resize_state retry_suppressed
apply_node_plan-refused_example =
    apply_node_plan-refused willing (λ w. w) (λ uid. uid) willing-IsCluster changed_since
      idle_controller limits ((refl, tt), (tt, tt)) ((refl, refl), ((refl, refl), tt))
      (refl, (refl, tt)) "user/high" (inr (refl, inl (refl, inl refl)))

-- Three sessions of high priority without free CPU: the one that gets no grant keeps its target.
abbrev contenders : List AutoscaleSession
contenders =
    record high { key = "user/a"; current = 500; target = 500; demand = 1000 }
    ∷ record high { key = "user/b"; current = 500; target = 500; demand = 1000 }
    ∷ record high { key = "user/c"; current = 501; target = 501; demand = 501; scale_up = false }
    ∷ []

plan_node_over : targets (plan_node 0 contenders) ≡ 1 + currents contenders
unfolding plan_node sort plan_fair_priority new_extras lookup max_min_cpu pool_of demands_of round
    insert allocate
plan_node_over = refl
