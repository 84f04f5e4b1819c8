-- ===== src/Autoscaler/Capacity/Reserved.antt =====
-- The reservations of a Node by the annotations of the sessions, added up in one map.
use bosun.Prelude.{
  ◌≢◌, ◌⊎◌, refl, true, false, All, sym, subst, ℕ, ◌+◌, ◌≡◌, String, ◌&&◌, List, [], ◌∷◌, arith,
  eq_iff, str_eq, if◌then◌else◌, Bool-cases, inl, inr,
}
use bosun.Prelude.Dict.{Dict, get, lookup, insert, get-insert}
use bosun.Scheduler.{agent_base_cpu_millicores}
use bosun.Cluster.{AgentSession, Pod, label, session_label, scheduling_node_annotation}
use bosun.Autoscaler.Capacity.{
  is_scheduled, holds_reservation, add_reservations, pending_reservation_cpu,
  pending_reservation_memory, session_memory_reservation,
}

-- What the sessions that hold a reservation of the Node need together.
abbrev pub reserved_for : (AgentSession → ℕ) → String → List Pod → List AgentSession → ℕ
reserved_for amount node pods [] = 0
reserved_for amount node pods (s ∷ ss) =
    (if holds_reservation pods s && str_eq (label scheduling_node_annotation s.annotations) node
      then amount s
      else 0)
    + reserved_for amount node pods ss

add_reservations-get :
    (amount : AgentSession → ℕ) (node : String) (pods : List Pod) (ss : List AgentSession)
    (m : Dict ℕ)
    → get node (add_reservations amount pods ss m) ≡ get node m + reserved_for amount node pods ss
unfolding add_reservations
add_reservations-get amount node pods [] m = omega arith
add_reservations-get amount node pods (s ∷ ss) m =
    let annotated = label scheduling_node_annotation s.annotations in
    elim (Bool-cases (holds_reservation pods s)) [
      | inl e ↦
          let v = get annotated m + amount s in
          ground (
            arith,
            e,
            eq_iff annotated node,
            get-insert annotated node v m,
            add_reservations-get amount node pods ss (insert annotated v m),
          )
      | inr e ↦ ground (arith, e, add_reservations-get amount node pods ss m)
    ]

-- The maps as sums.
pub pending_sums :
    (node : String) (sessions : List AgentSession) (pods : List Pod)
    → (get node (pending_reservation_cpu sessions pods)
        ≡ reserved_for (λ _. agent_base_cpu_millicores) node pods sessions)
      × (get node (pending_reservation_memory sessions pods)
          ≡ reserved_for session_memory_reservation node pods sessions)
unfolding pending_reservation_cpu pending_reservation_memory lookup
pending_sums node sessions pods =
    let cpu = add_reservations-get (λ _. agent_base_cpu_millicores) node pods sessions [] in
    let memory = add_reservations-get session_memory_reservation node pods sessions [] in
    (omega (arith, cpu), omega (arith, memory))

-- No Pod of the session has a Node yet.
abbrev pub IsUnplaced : String → List Pod → Type 0
IsUnplaced id = All λ p.
    (p.node_name ≡ "") ⊎ (label session_label p.labels ≡ "") ⊎ (label session_label p.labels ≢ id)

-- The session is to run, is reserved for the Node, and none of its Pods has a Node.
abbrev pub IsReserved : String → List Pod → AgentSession → Type 0
IsReserved node pods s =
    (node ≢ "")
    × (label scheduling_node_annotation s.annotations ≡ node)
    × (s.deleting ≡ false)
    × (s.desired_state ≡ "Running")
    × IsUnplaced s.session_id pods

-- The sum of the amounts of the sessions that are reserved for the Node.
pub data AddsUp (amount : AgentSession → ℕ) (node : String) (pods : List Pod)
    : List AgentSession → ℕ → Type 0 where
  nothing : AddsUp amount node pods [] 0
  counted :
      {s : AgentSession} {ss : List AgentSession} {n : ℕ}
      → IsReserved node pods s
      → AddsUp amount node pods ss n
      → AddsUp amount node pods (s ∷ ss) (amount s + n)
  passed :
      {s : AgentSession} {ss : List AgentSession} {n : ℕ}
      → ¬ IsReserved node pods s
      → AddsUp amount node pods ss n
      → AddsUp amount node pods (s ∷ ss) n

is_scheduled-IsUnplaced :
    (pods : List Pod) (id : String) → is_scheduled pods id ≡ false → IsUnplaced id pods
is_scheduled-IsUnplaced [] id h = tt
is_scheduled-IsUnplaced (p ∷ pods) id h =
    let placed = str_eq p.node_name "" in
    let owner = label session_label p.labels in
    (
      elim (Bool-cases (str_eq p.node_name "")) [
        | inl e ↦ inl ((eq_iff p.node_name "").0 e)
        | inr e ↦ elim (Bool-cases (str_eq owner "")) [
          | inl o ↦ inr (inl ((eq_iff owner "").0 o))
          | inr o ↦ inr (inr (λ same. ground (arith, e, o, h, (eq_iff owner id).1 same)))
        ]
      ],
      is_scheduled-IsUnplaced pods id (ground (arith, h)),
    )

IsUnplaced-is_scheduled :
    (pods : List Pod) (id : String) → IsUnplaced id pods → is_scheduled pods id ≡ false
IsUnplaced-is_scheduled [] id h = refl
IsUnplaced-is_scheduled (p ∷ pods) id h =
    let rest = IsUnplaced-is_scheduled pods id h.1 in
    let owner = label session_label p.labels in
    elim h.0 [
      | inl e ↦ ground (arith, (eq_iff p.node_name "").1 e, rest)
      | inr (inl e) ↦ ground (arith, (eq_iff owner "").1 e, rest)
      | inr (inr e) ↦ elim (Bool-cases (str_eq owner id)) [
        | inl o ↦ elim (e ((eq_iff owner id).0 o)) [ ]
        | inr o ↦ ground (arith, o, rest)
      ]
    ]

holds-IsReserved :
    (node : String) (pods : List Pod) (s : AgentSession)
    → holds_reservation pods s && str_eq (label scheduling_node_annotation s.annotations) node
      ≡ true
    → IsReserved node pods s
holds-IsReserved node pods s h =
    let annotated = label scheduling_node_annotation s.annotations in
    let same = (eq_iff annotated node).0 (ground (arith, h)) in
    (
      λ empty. ground (arith, h, (eq_iff annotated "").1 (subst (λ n. annotated ≡ n) empty same)),
      same,
      ground (arith, h),
      (eq_iff s.desired_state "Running").0 (ground (arith, h)),
      is_scheduled-IsUnplaced pods s.session_id (ground (arith, h)),
    )

IsReserved-holds :
    (node : String) (pods : List Pod) (s : AgentSession)
    → IsReserved node pods s
    → holds_reservation pods s && str_eq (label scheduling_node_annotation s.annotations) node
      ≡ true
IsReserved-holds node pods s (named, same, kept, running, unplaced) =
    let annotated = label scheduling_node_annotation s.annotations in
    elim (Bool-cases (str_eq annotated "")) [
      | inl e ↦ elim (named (subst (λ n. n ≡ "") same ((eq_iff annotated "").0 e))) [ ]
      | inr e ↦ ground (
        arith,
        e,
        (eq_iff annotated node).1 same,
        kept,
        (eq_iff s.desired_state "Running").1 running,
        IsUnplaced-is_scheduled pods s.session_id unplaced,
      )
    ]

reserved_for-AddsUp :
    (amount : AgentSession → ℕ) (node : String) (pods : List Pod) (ss : List AgentSession)
    → AddsUp amount node pods ss (reserved_for amount node pods ss)
reserved_for-AddsUp amount node pods [] = nothing
reserved_for-AddsUp amount node pods (s ∷ ss) =
    let rest = reserved_for-AddsUp amount node pods ss in
    let test =
      holds_reservation pods s && str_eq (label scheduling_node_annotation s.annotations) node in
    elim (Bool-cases test) [
      | inl e ↦ rw e (counted (holds-IsReserved node pods s e) rest)
      | inr e ↦
          let total = reserved_for amount node pods ss in
          let same : total ≡ 0 + total = omega arith in
          rw e (
            subst (AddsUp amount node pods (s ∷ ss)) same
              (passed (λ h. cc (IsReserved-holds node pods s h, e)) rest))
    ]

-- For every Node, the two maps of pending reservations hold the base allotment of CPU, and the
-- memory reservation, added up over the sessions that are to run, are reserved for that Node, and have
-- no Pod with a Node.
pub pending_reservations-get :
    (node : String) (sessions : List AgentSession) (pods : List Pod)
    → AddsUp
        (λ _. agent_base_cpu_millicores)
        node
        pods
        sessions
        (get node (pending_reservation_cpu sessions pods))
      × AddsUp session_memory_reservation node pods sessions
          (get node (pending_reservation_memory sessions pods))
pending_reservations-get node sessions pods =
    let sums = pending_sums node sessions pods in
    (
      subst (AddsUp (λ _. agent_base_cpu_millicores) node pods sessions) (sym sums.0)
          (reserved_for-AddsUp (λ _. agent_base_cpu_millicores) node pods sessions),
      subst (AddsUp session_memory_reservation node pods sessions) (sym sums.1)
          (reserved_for-AddsUp session_memory_reservation node pods sessions),
    )
