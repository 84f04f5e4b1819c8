-- ===== src/Tests/Resizing.antt =====
-- Observations, resizes and reservations over a cluster of one Pod.
use bosun.Prelude.{
  ◌-◌, ◌≤◌, ◌≡◌, refl, ◌⊎◌, inr, arith, String, true, false, none, some, List, [], ◌∷◌, All, str_eq,
  if◌then◌else◌,
}
use bosun.Prelude.Dict.{get}
use bosun.Policy.{policy, resource_requirements}
use bosun.Cluster.{AgentSession, Pod, Container, Node, find_pod_container, agent_container_name}
use bosun.Scheduler.{agent_base_cpu_millicores}
use bosun.Autoscaler.Capacity.{
  pending_reservation_cpu, pending_reservation_memory, session_memory_reservation,
}
use bosun.Autoscaler.Capacity.Reserved.{AddsUp, pending_reservations-get}
use bosun.Autoscaler.Plan.{AutoscaleSession}
use bosun.Autoscaler.Controller.{Api, Controller, found, written}
use bosun.Autoscaler.Resize.{
  skipped, target_of, equal_resources, resized_pod, send_resize, resize_state,
}
use bosun.Autoscaler.Resize.Guards.{
  IsIdle, IsGuarded, IsHeld, OnlyAgents, resize_state-IsGuarded, resize_state_backoff,
  resized_pod-containers,
}
use bosun.Autoscaler.Observe.{Reading, ready, observe_session}
use bosun.Autoscaler.Observe.Demands.{IsPlannable, Hands, observe_session-IsPlannable}
use bosun.Autoscaler.Reserve.{waiting_sessions, selected_node, first}
use bosun.Autoscaler.Reserve.Choice.{
  precedes, IsWaiting, IsIn, IsChosen, waiting_sessions-first, IsFit, IsOfFit, cpu_left,
  selected_node-IsFit,
}
use bosun.Tests.Planning.{pod_of, session_of_class, high, normal}

-- A cluster that refuses every resize; its world is the Pod of the session.
abbrev refusing : Api
refusing = record {
  World = Pod;
  now = λ w. 5;
  get_session = λ namespace name w. found (session_of_class name "bosun-high");
  get_pod = λ namespace name w. found w;
  update_status = λ s w. (w, written);
  update_resize = λ p w. (w, some "node is full");
  trim_space = λ s. s;
  backoff_steps = 5;
}

abbrev fresh : Controller
fresh = record {
  scale_up_cooldown = 1;
  scale_down_cooldown = 1;
  retry_interval = 60;
  windows = [];
  failed_attempts = [];
}

abbrev agent_pod : Pod
agent_pod = pod_of "agent-high"

resize_state-IsGuarded_example :
    (IsHeld refusing high fresh agent_pod
      × IsIdle refusing fresh agent_pod (resize_state refusing high fresh agent_pod))
    ⊎ ((latest : Pod) × IsGuarded refusing high fresh agent_pod latest
        × (resize_state refusing high fresh agent_pod
            ≡ send_resize refusing high latest fresh agent_pod))
resize_state-IsGuarded_example = resize_state-IsGuarded refusing high fresh agent_pod

resize_state_backoff_example :
    let c' = (send_resize refusing high agent_pod fresh agent_pod).controller in
    resize_state refusing high c' agent_pod
    ≡ record { world = agent_pod; controller = c'; outcome = skipped }
resize_state_backoff_example =
    resize_state_backoff refusing high agent_pod fresh agent_pod agent_pod "node is full" refl
      (omega arith)

resized_pod-containers_example :
    (record (resized_pod high agent_pod) { containers = agent_pod.containers } ≡ agent_pod)
    × OnlyAgents
        (equal_resources (target_of high) high.session.memory_request)
        (resized_pod high agent_pod).containers
        agent_pod.containers
    × (find_pod_container (resized_pod high agent_pod) "agent"
        ≡ elim (find_pod_container agent_pod "agent") [
          | none ↦ none
          | some c ↦ some (
              if str_eq "agent" agent_container_name
              then record c {
                resources = equal_resources (target_of high) high.session.memory_request;
              }
              else c)
        ])
    × (policy.min_cpu_limit ≤ target_of high)
    × (target_of high ≤ policy.max_cpu_limit)
resized_pod-containers_example = resized_pod-containers high agent_pod "agent"

abbrev reading : Reading
reading = ready (record { timestamp = 4; metric_window = 10; cpu_usage_millicores = 450 })

abbrev agent : Container
agent = record { name = "agent"; resources = resource_requirements 0 }

observe_session-IsPlannable_example :
    Hands IsPlannable
      (observe_session refusing (λ n. "0") high.session agent_pod reading fresh agent_pod).state
unfolding find_pod_container resource_requirements
observe_session-IsPlannable_example =
    observe_session-IsPlannable refusing (λ n. "0") high.session agent_pod agent reading fresh
      agent_pod refl (inr (omega arith, omega arith))

abbrev waiting : List AgentSession
waiting = session_of_class "a" "bosun-normal" ∷ session_of_class "b" "bosun-high" ∷ []

waiting_sessions-first_example :
    IsChosen
      (λ s.
        (IsWaiting [] s × IsIn s waiting) × All (λ t. IsWaiting [] t → precedes s t ≡ true) waiting)
      (All (λ t. IsWaiting [] t → ⊥) waiting)
      (first (waiting_sessions waiting []))
waiting_sessions-first_example = waiting_sessions-first waiting []

abbrev worker : Node
worker = record {
  name = "node";
  labels = ("role", "worker") ∷ [];
  unschedulable = false;
  taints = [];
  conditions = record { kind = "Ready"; status = "True"; reason = "" } ∷ [];
  allocatable = record { cpu = 4000; memory = 8589934592 };
}

abbrev on_node : String → List AutoscaleSession
on_node name = high ∷ normal ∷ []

selected_node-IsFit_example :
    IsChosen
      (λ c.
        IsOfFit waiting (agent_pod ∷ []) on_node 2147483648 (worker ∷ []) c
        × All
            (λ n.
              IsFit waiting (agent_pod ∷ []) on_node 2147483648 n
              → agent_base_cpu_millicores - c.free
                ≤ agent_base_cpu_millicores
                  - cpu_left waiting (agent_pod ∷ []) on_node 2147483648 n)
            (worker ∷ []))
      (All (λ n. IsFit waiting (agent_pod ∷ []) on_node 2147483648 n → ⊥) (worker ∷ []))
      (selected_node waiting (agent_pod ∷ []) on_node 2147483648 (worker ∷ []))
selected_node-IsFit_example =
    selected_node-IsFit waiting (agent_pod ∷ []) on_node 2147483648 (worker ∷ [])

pending_reservations-get_example :
    AddsUp
      (λ _. agent_base_cpu_millicores)
      "node"
      (agent_pod ∷ [])
      waiting
      (get "node" (pending_reservation_cpu waiting (agent_pod ∷ [])))
    × AddsUp session_memory_reservation "node"
        (agent_pod ∷ [])
        waiting
        (get "node" (pending_reservation_memory waiting (agent_pod ∷ [])))
pending_reservations-get_example = pending_reservations-get "node" waiting (agent_pod ∷ [])
