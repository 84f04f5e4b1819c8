-- ===== src/Autoscaler/Capacity.antt =====
-- operator/internal/controller/resource_autoscaler.go: what a Node has left for Agents, and which
-- Nodes may take one.
pub mod Reserved
use bosun.Prelude.{
  ℕ, ◌+◌, ◌-◌, ◌*◌, max, String, Bool, false, not, ◌&&◌, ◌||◌, none, some, List, [], ◌∷◌, str_eq,
  if◌then◌else◌, any, all, sum_by,
}
use bosun.Prelude.Dict.{Dict, get, insert}
use bosun.Scheduler.{agent_base_cpu_millicores}
use bosun.Cluster.{
  Pod, Container, Node, Taint, Toleration, AgentSession, label, session_label,
  scheduling_node_annotation,
}

abbrev pub auth_proxy_memory_request_bytes : ℕ
auth_proxy_memory_request_bytes = 16 * 1024 * 1024

-- The Pod counts against the Node's capacity.
abbrev pub is_on_node : Node → Pod → Bool
is_on_node node pod =
    str_eq pod.node_name node.name
    && not (str_eq pod.phase "Succeeded")
    && not (str_eq pod.phase "Failed")

abbrev cpu_limits : List Container → ℕ
cpu_limits = sum_by (λ c. c.resources.limits.cpu)

unfoldable pub pod_cpu_limits : Pod → ℕ
pod_cpu_limits pod =
    cpu_limits pod.init_containers + cpu_limits pod.containers + cpu_limits pod.ephemeral_containers

unfoldable pub init_request : List Container → ℕ
init_request [] = 0
init_request (c ∷ cs) = max c.resources.requests.memory (init_request cs)

unfoldable pub pod_memory_requests : Pod → ℕ
unfolding init_request
pod_memory_requests pod =
    let app_requests = sum_by (λ c. c.resources.requests.memory) pod.containers in
    let effective = max app_requests (init_request pod.init_containers) in
    elim pod.overhead_memory [ none ↦ effective | some m ↦ effective + m ]

unfoldable pub used_on : (Pod → ℕ) → Node → List Pod → ℕ
used_on amount node [] = 0
used_on amount node (p ∷ ps) = (if is_on_node node p then amount p else 0) + used_on amount node ps

unfoldable pub node_free_cpu : Node → List Pod → ℕ
unfolding used_on pod_cpu_limits
node_free_cpu node pods = node.allocatable.cpu - used_on pod_cpu_limits node pods

unfoldable pub node_free_memory : Node → List Pod → ℕ
unfolding used_on pod_memory_requests
node_free_memory node pods = node.allocatable.memory - used_on pod_memory_requests node pods

-- The sessions whose Pod has a Node.
abbrev pub is_scheduled : List Pod → String → Bool
is_scheduled pods session_id =
    any
      (λ p.
        not (str_eq p.node_name "")
        && not (str_eq (label session_label p.labels) "")
        && str_eq (label session_label p.labels) session_id)
      pods

unfoldable pub session_memory_reservation : AgentSession → ℕ
session_memory_reservation s = s.memory_request + auth_proxy_memory_request_bytes

-- The session holds a reservation that no Pod of its own uses yet.
abbrev pub holds_reservation : List Pod → AgentSession → Bool
holds_reservation pods s =
    not (str_eq (label scheduling_node_annotation s.annotations) "")
    && not s.deleting
    && str_eq s.desired_state "Running"
    && not (is_scheduled pods s.session_id)

abbrev reserve : String → ℕ → Dict ℕ → Dict ℕ
reserve node amount reserved = insert node (get node reserved + amount) reserved

-- The loop over the sessions, with the map so far.
unfoldable pub add_reservations :
    (AgentSession → ℕ) → List Pod → List AgentSession → Dict ℕ → Dict ℕ
add_reservations amount pods [] reserved = reserved
add_reservations amount pods (s ∷ ss) reserved = add_reservations amount pods ss (
    if holds_reservation pods s
    then reserve (label scheduling_node_annotation s.annotations) (amount s) reserved
    else reserved)

unfoldable pub pending_reservation_cpu : List AgentSession → List Pod → Dict ℕ
unfolding add_reservations
pending_reservation_cpu sessions pods =
    add_reservations (λ _. agent_base_cpu_millicores) pods sessions []

unfoldable pub pending_reservation_memory : List AgentSession → List Pod → Dict ℕ
unfolding add_reservations session_memory_reservation
pending_reservation_memory sessions pods =
    add_reservations session_memory_reservation pods sessions []

abbrev pub agent_tolerations : List Toleration
agent_tolerations =
    record {
      key = "node.kubernetes.io/unreachable";
      operator = "Exists";
      value = "";
      effect = "NoExecute";
    }
    ∷ record {
      key = "node.kubernetes.io/not-ready";
      operator = "Exists";
      value = "";
      effect = "NoExecute";
    }
    ∷ []

unfoldable pub tolerates : Toleration → Taint → Bool
tolerates t taint =
    if not (str_eq t.effect "") && not (str_eq t.effect taint.effect)
    then false
    else if str_eq t.operator "Exists"
    then str_eq t.key "" || str_eq t.key taint.key
    else if str_eq t.operator "Equal" || str_eq t.operator ""
    then str_eq t.key taint.key && str_eq t.value taint.value
    else false

abbrev pub is_hard : Taint → Bool
is_hard taint = str_eq taint.effect "NoSchedule" || str_eq taint.effect "NoExecute"

unfoldable pub taints_tolerated : List Taint → Bool
unfolding tolerates
taints_tolerated =
    all λ taint. not (is_hard taint) || any (λ t. tolerates t taint) agent_tolerations

unfoldable pub node_eligible_for_agent : Node → Bool
unfolding taints_tolerated
node_eligible_for_agent node =
    if node.unschedulable || not (str_eq (label "role" node.labels) "worker")
    then false
    else if not (any (λ c. str_eq c.kind "Ready" && str_eq c.status "True") node.conditions)
    then false
    else taints_tolerated node.taints
