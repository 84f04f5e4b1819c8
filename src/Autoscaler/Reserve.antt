-- ===== src/Autoscaler/Reserve.antt =====
-- operator/internal/controller/resource_autoscaler.go: the reservation of a Node for the first
-- waiting session, with the CPU that is reclaimed for it.
pub mod Choice
use Prim.Native.String.{◌++◌}
use bosun.Prelude.{
  ℕ, ◌+◌, ◌-◌, min, String, Bool, true, false, not, ◌&&◌, ◌||◌, Option, none, some, List, [], ◌∷◌,
  ltb, leb, ◌==◌, str_eq, str_lt, if◌then◌else◌, any, keep_if, find,
}
use bosun.Prelude.Sort.{sort}
use bosun.Prelude.Dict.{Dict, get, insert, total}
use bosun.Scheduler.{agent_base_cpu_millicores, proportional_cpu}
use bosun.Cluster.{AgentSession, Pod, Node, label, session_label, scheduling_node_annotation}
use bosun.Autoscaler.Capacity.{
  node_free_cpu, node_free_memory, pending_reservation_cpu, pending_reservation_memory,
  session_memory_reservation, node_eligible_for_agent,
}
use bosun.Autoscaler.Plan.{AutoscaleSession, priority_rank, extra}
use bosun.Autoscaler.Resize.{Outcome, is_applied}

-- Some Pod carries the session's label.
abbrev pub has_pod : List Pod → String → Bool
has_pod pods session_id =
    any
      (λ p.
        not (str_eq (label session_label p.labels) "")
        && str_eq (label session_label p.labels) session_id)
      pods

unfoldable pub is_waiting : List Pod → AgentSession → Bool
is_waiting pods s =
    not s.deleting
    && str_eq s.desired_state "Running"
    && str_eq (label scheduling_node_annotation s.annotations) ""
    && not (has_pod pods s.session_id)

abbrev pub object_key : AgentSession → String
object_key s = s.namespace ++ "/" ++ s.name

-- Higher priority first, then the older session, then by key.
abbrev pub waits_before : AgentSession → AgentSession → Bool
waits_before x y =
    let rank_x = priority_rank x.priority_class_name in
    let rank_y = priority_rank y.priority_class_name in
    if ltb rank_y rank_x
    then true
    else if ltb rank_x rank_y
    then false
    else if ltb x.creation_timestamp y.creation_timestamp
    then true
    else if ltb y.creation_timestamp x.creation_timestamp
    then false
    else not (str_lt (object_key y) (object_key x))

unfoldable pub waiting_sessions : List AgentSession → List Pod → List AgentSession
unfolding is_waiting
waiting_sessions sessions pods = sort waits_before (keep_if (is_waiting pods) sessions)

pub record NodeReservationCandidate : Type 0 where
  pub node : Node
  pub free : ℕ
  pub free_memory : ℕ
  pub reclaimable : ℕ

abbrev pub is_changing : AutoscaleSession → Bool
is_changing s = not (s.target == s.current) || s.needs_sync

unfoldable pub reclaimable_of : List AutoscaleSession → ℕ
reclaimable_of [] = 0
reclaimable_of (s ∷ ss) = (if ltb 1 s.priority then extra s.current else 0) + reclaimable_of ss

abbrev pub candidate_of :
    List AgentSession
    → List Pod
    → (String → List AutoscaleSession)
    → Node
    → NodeReservationCandidate
candidate_of sessions pods by_node node = record {
  node = node;
  free = node_free_cpu node pods - get node.name (pending_reservation_cpu sessions pods);
  free_memory =
      node_free_memory node pods - get node.name (pending_reservation_memory sessions pods);
  reclaimable = reclaimable_of (by_node node.name);
}

-- The candidate can take the session, after a reclaim if need be.
abbrev pub can_take : ℕ → NodeReservationCandidate → Bool
can_take required_memory c =
    leb agent_base_cpu_millicores (c.free + c.reclaimable) && leb required_memory c.free_memory

unfoldable pub candidates :
    List AgentSession
    → List Pod
    → (String → List AutoscaleSession)
    → ℕ
    → List Node
    → List NodeReservationCandidate
candidates sessions pods by_node required_memory [] = []
candidates sessions pods by_node required_memory (node ∷ nodes) =
    let rest = candidates sessions pods by_node required_memory nodes in
    if not (node_eligible_for_agent node)
    then rest
    else if any is_changing (by_node node.name)
    then rest
    else if can_take required_memory (candidate_of sessions pods by_node node)
    then candidate_of sessions pods by_node node ∷ rest
    else rest

abbrev pub needed : NodeReservationCandidate → ℕ
needed c = agent_base_cpu_millicores - c.free

-- Less to reclaim first, then more CPU left, then less memory left, then by name.
abbrev pub fits_before : ℕ → NodeReservationCandidate → NodeReservationCandidate → Bool
fits_before required_memory x y =
    let left_x = x.free + x.reclaimable - agent_base_cpu_millicores in
    let left_y = y.free + y.reclaimable - agent_base_cpu_millicores in
    if ltb (needed x) (needed y)
    then true
    else if ltb (needed y) (needed x)
    then false
    else if ltb left_y left_x
    then true
    else if ltb left_x left_y
    then false
    else if ltb (x.free_memory - required_memory) (y.free_memory - required_memory)
    then true
    else if ltb (y.free_memory - required_memory) (x.free_memory - required_memory)
    then false
    else not (str_lt y.node.name x.node.name)

abbrev pub first {ℓ} : {A : Type ℓ} → List A → Option A
first [] = none
first (x ∷ xs) = some x

unfoldable pub selected_node :
    List AgentSession
    → List Pod
    → (String → List AutoscaleSession)
    → ℕ
    → List Node
    → Option NodeReservationCandidate
unfolding candidates
selected_node sessions pods by_node required_memory nodes =
    first
      (sort (fits_before required_memory) (candidates sessions pods by_node required_memory nodes))

-- What the sessions of one priority can give back.
unfoldable pub reclaim_capacities : ℕ → List AutoscaleSession → Dict ℕ → Dict ℕ
reclaim_capacities priority [] m = m
reclaim_capacities priority (s ∷ ss) m = reclaim_capacities priority ss (
    if s.priority == priority && ltb 0 (extra s.current)
    then insert s.key (extra s.current) m
    else m)

abbrev pub entry_before : String × ℕ → String × ℕ → Bool
entry_before x y = not (str_lt y.0 x.0)

-- `byKey[key]`: keys are unique on a Node.
abbrev pub session_of : ℕ → String → List AutoscaleSession → Option AutoscaleSession
session_of priority key =
    find λ s. s.priority == priority && ltb 0 (extra s.current) && str_eq s.key key

module _ {ℓ} {W : Type ℓ} (resize : AutoscaleSession → W → W × Outcome) where
  -- The loop over the sorted keys; it stops at the first resize that is not applied.
  unfoldable pub reclaim_entries : ℕ → List AutoscaleSession → Dict ℕ → W → W × Bool
  reclaim_entries priority states [] w = (w, true)
  reclaim_entries priority states ((key, amount) ∷ m) w = elim (session_of priority key states) [
    | none ↦ (w, false)
    | some s ↦
        let (w', outcome) = resize (record s { target = s.current - amount }) w in
        let rest = reclaim_entries priority states m w' in
        if is_applied outcome then rest else (w', false)
  ]

  -- One priority: the world, whether all resizes were applied, and what is still required.
  abbrev pub reclaim_priority : ℕ → List AutoscaleSession → ℕ → W → (W × Bool) × ℕ
  reclaim_priority priority states required w =
      let capacities = reclaim_capacities priority states [] in
      let reclaim = min required (total capacities) in
      (
        reclaim_entries priority states (sort entry_before (proportional_cpu reclaim capacities)) w,
        required - reclaim,
      )

  unfoldable pub reclaim_for_reservation : List AutoscaleSession → ℕ → W → W × Bool
  unfolding reclaim_entries
  reclaim_for_reservation states required w =
      let ((w', normal_applied), required') = reclaim_priority 2 states required w in
      let ((w'', high_applied), required'') = reclaim_priority 3 states required' w' in
      if not normal_applied
      then (w', false)
      else if required' == 0
      then (w', true)
      else if not high_applied
      then (w'', false)
      else (w'', required'' == 0)

  -- `reserveWaitingSession`; `patch` writes the annotation that reserves the Node.
  unfoldable pub reserve_waiting_session :
      (AgentSession → String → W → W)
      → List AgentSession
      → List Pod
      → List Node
      → (String → List AutoscaleSession)
      → W
      → W
  unfolding waiting_sessions selected_node reclaim_for_reservation
  reserve_waiting_session patch sessions pods nodes by_node w =
      elim (first (waiting_sessions sessions pods)) [
        | none ↦ w
        | some s ↦ elim (selected_node sessions pods by_node (session_memory_reservation s) nodes) [
          | none ↦ w
          | some c ↦
              let (w', reclaimed) = reclaim_for_reservation (by_node c.node.name) (needed c) w in
              if needed c == 0
              then patch s c.node.name w
              else if reclaimed
              then patch s c.node.name w'
              else w'
        ]
      ]
