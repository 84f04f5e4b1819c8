-- ===== src/Autoscaler/Reserve/Choice.antt =====
-- Who is served first, and on which Node.
use bosun.Prelude.{
  ℕ, ◌+◌, ◌-◌, ◌≤◌, ◌≡◌, ◌≢◌, refl, ◌⊎◌, inl, inr, String, Bool, true, false, not, ◌&&◌, Option,
  none, some, List, [], ◌∷◌, arith, eq_iff, str_eq, ltb, leb, ◌==◌, if◌then◌else◌, Bool-cases, any,
  All, keep_if,
}
use bosun.Prelude.Dict.{get}
use bosun.Prelude.Sort.{sort, sort-All, sort-All_inv, sort-IsSorted, IsSorted}
use bosun.Scheduler.{agent_base_cpu_millicores}
use bosun.Cluster.{AgentSession, Pod, Node, label, session_label, scheduling_node_annotation}
use bosun.Autoscaler.Capacity.{
  node_free_cpu, node_free_memory, pending_reservation_cpu, pending_reservation_memory,
  session_memory_reservation, node_eligible_for_agent,
}
use bosun.Autoscaler.Capacity.Reserved.{reserved_for, pending_sums}
use bosun.Autoscaler.Plan.{AutoscaleSession, priority_rank}
use bosun.Autoscaler.Reserve.{
  has_pod, is_waiting, waits_before, waiting_sessions, NodeReservationCandidate, is_changing,
  reclaimable_of, candidate_of, can_take, candidates, needed, fits_before, first, selected_node,
}

-- The order by rank and age alone.
abbrev pub precedes : AgentSession → AgentSession → Bool
precedes x y =
    let rank_x = priority_rank x.priority_class_name in
    let rank_y = priority_rank y.priority_class_name in
    if ltb rank_y rank_x
    then true
    else rank_x == rank_y && leb x.creation_timestamp y.creation_timestamp

precedes_fits : (x y : AgentSession) → waits_before x y ≡ true → precedes x y ≡ true
precedes_fits x y h = ground arith

precedes_total : (x y : AgentSession) → waits_before x y ≡ false → precedes y x ≡ true
precedes_total x y h = ground arith

precedes_trans :
    (x y z : AgentSession) → precedes x y ≡ true → precedes y z ≡ true → precedes x z ≡ true
precedes_trans x y z h k = ground arith

-- No Pod carries the session's label.
abbrev pub HasNoPod : String → List Pod → Type 0
HasNoPod id = All λ p. (label session_label p.labels ≡ "") ⊎ (label session_label p.labels ≢ id)

-- The session is to run, has no Node reserved, and no Pod.
abbrev pub IsWaiting : List Pod → AgentSession → Type 0
IsWaiting pods s =
    (s.deleting ≡ false)
    × (s.desired_state ≡ "Running")
    × (label scheduling_node_annotation s.annotations ≡ "")
    × HasNoPod s.session_id pods

has_pod-HasNoPod : (pods : List Pod) (id : String) → has_pod pods id ≡ false → HasNoPod id pods
has_pod-HasNoPod [] id h = tt
has_pod-HasNoPod (p ∷ pods) id h =
    let owner = label session_label p.labels in
    (
      elim (Bool-cases (str_eq owner "")) [
        | inl o ↦ inl ((eq_iff owner "").0 o)
        | inr o ↦ inr (λ same. ground (arith, o, h, (eq_iff owner id).1 same))
      ],
      has_pod-HasNoPod pods id (ground (arith, h)),
    )

HasNoPod-has_pod : (pods : List Pod) (id : String) → HasNoPod id pods → has_pod pods id ≡ false
HasNoPod-has_pod [] id h = refl
HasNoPod-has_pod (p ∷ pods) id h =
    let rest = HasNoPod-has_pod pods id h.1 in
    let owner = label session_label p.labels in
    elim h.0 [
      | inl e ↦ ground (arith, (eq_iff owner "").1 e, rest)
      | inr e ↦ elim (Bool-cases (str_eq owner id)) [
        | inl o ↦ elim (e ((eq_iff owner id).0 o)) [ ]
        | inr o ↦ ground (arith, o, rest)
      ]
    ]

is_waiting-IsWaiting :
    (pods : List Pod) (s : AgentSession) → is_waiting pods s ≡ true → IsWaiting pods s
unfolding is_waiting
is_waiting-IsWaiting pods s h =
    let annotated = label scheduling_node_annotation s.annotations in
    (
      ground (arith, h),
      (eq_iff s.desired_state "Running").0 (ground (arith, h)),
      (eq_iff annotated "").0 (ground (arith, h)),
      has_pod-HasNoPod pods s.session_id (ground (arith, h)),
    )

IsWaiting-is_waiting :
    (pods : List Pod) (s : AgentSession) → IsWaiting pods s → is_waiting pods s ≡ true
unfolding is_waiting
IsWaiting-is_waiting pods s (kept, running, free, alone) = ground (
  arith,
  kept,
  (eq_iff s.desired_state "Running").1 running,
  (eq_iff (label scheduling_node_annotation s.annotations) "").1 free,
  HasNoPod-has_pod pods s.session_id alone,
)

-- What holds of every waiting entry of the filtered list holds of every waiting session.
keep_if-All_inv {κ} :
    (P : AgentSession → Type κ) (pods : List Pod) (xs : List AgentSession)
    → All P (keep_if (is_waiting pods) xs)
    → All (λ t. IsWaiting pods t → P t) xs
keep_if-All_inv P pods [] h = tt
keep_if-All_inv P pods (x ∷ xs) h = by_head (is_waiting pods x) refl h (keep_if-All_inv P pods xs)
  where
    by_head :
        (b : Bool)
        → is_waiting pods x ≡ b
        → All P (if b then x ∷ keep_if (is_waiting pods) xs else keep_if (is_waiting pods) xs)
        → (All P (keep_if (is_waiting pods) xs) → All (λ t. IsWaiting pods t → P t) xs)
        → All (λ t. IsWaiting pods t → P t) (x ∷ xs)
    by_head true e h' rest = (λ _. h'.0, rest h'.1)
    by_head false e h' rest = (λ w. cc (IsWaiting-is_waiting pods x w, e), rest h')

-- The entry is one of the list.
abbrev pub IsIn : {A : Type 0} → A → List A → Type 0
IsIn x [] = ⊥
IsIn x (y ∷ ys) = (x ≡ y) ⊎ IsIn x ys

All-map :
    {A : Type 0} {P : A → Type 0} {Q : A → Type 0} (f : (x : A) → P x → Q x) (xs : List A)
    → All P xs
    → All Q xs
All-map f [] h = tt
All-map f (x ∷ xs) h = (f x h.0, All-map f xs h.1)

All-IsIn : {A : Type 0} (xs : List A) → All (λ x. IsIn x xs) xs
All-IsIn [] = tt
All-IsIn (x ∷ xs) = (inl refl, All-map (λ y h. inr h) xs (All-IsIn xs))

kept-IsWaiting :
    (pods : List Pod) (all xs : List AgentSession)
    → All (λ s. IsIn s all) xs
    → All (λ s. IsWaiting pods s × IsIn s all) (keep_if (is_waiting pods) xs)
kept-IsWaiting pods all [] h = tt
kept-IsWaiting pods all (x ∷ xs) h = elim (Bool-cases (is_waiting pods x)) [
  | inl e ↦ rw e ((is_waiting-IsWaiting pods x e, h.0), kept-IsWaiting pods all xs h.1)
  | inr e ↦ rw e (kept-IsWaiting pods all xs h.1)
]

-- The first entry satisfies `P`; without one there is nothing to choose from, as `None` says.
abbrev pub IsChosen : {A : Type 0} → (A → Type 0) → Type 0 → Option A → Type 0
IsChosen P None none = None
IsChosen P None (some x) = P x

-- The first entry of a sorted list `ys` stands before all entries, itself included.
first-IsChosen :
    {A : Type 0} (order : A → A → Bool) (P : A → Type 0) (reflexive : (x : A) → order x x ≡ true)
    (ys : List A)
    → All P ys
    → IsSorted order ys
    → IsChosen (λ x. P x × All (λ y. order x y ≡ true) ys) (All (λ y. ⊥) ys) (first ys)
first-IsChosen order P reflexive [] p h = tt
first-IsChosen order P reflexive (x ∷ xs) p h = (p.0, (reflexive x, h.0))

IsChosen-map :
    {A : Type 0} (P : A → Type 0) (Q : A → Type 0) (None : Type 0) (None' : Type 0)
    → ((x : A) → P x → Q x)
    → (None → None')
    → (o : Option A) → IsChosen P None o
    → IsChosen Q None' o
IsChosen-map P Q None None' f g none h = g h
IsChosen-map P Q None None' f g (some x) h = f x h

-- The session that is served first is one of the sessions, is to run, has no Node reserved and no
-- Pod, and of all such sessions none has a higher priority, nor the same priority and an earlier
-- creation. Where none is served first there is no such session.
pub waiting_sessions-first :
    (sessions : List AgentSession) (pods : List Pod)
    → IsChosen
        (λ s.
          (IsWaiting pods s × IsIn s sessions)
          × All (λ t. IsWaiting pods t → precedes s t ≡ true) sessions)
        (All (λ t. IsWaiting pods t → ⊥) sessions)
        (first (waiting_sessions sessions pods))
unfolding waiting_sessions
waiting_sessions-first sessions pods =
    let xs = keep_if (is_waiting pods) sessions in
    IsChosen-map _ _ _ _
      (λ s h. (
        h.0,
        keep_if-All_inv (λ t. precedes s t ≡ true) pods sessions
            (sort-All_inv waits_before (λ t. precedes s t ≡ true) xs h.1),
      ))
      (λ h. keep_if-All_inv (λ t. ⊥) pods sessions (sort-All_inv waits_before (λ t. ⊥) xs h))
      (first (sort waits_before xs))
      (first-IsChosen precedes (λ s. IsWaiting pods s × IsIn s sessions) (λ s. ground arith)
        (sort waits_before xs)
        (sort-All waits_before (λ s. IsWaiting pods s × IsIn s sessions) xs
          (kept-IsWaiting pods sessions sessions (All-IsIn sessions)))
        (sort-IsSorted waits_before precedes precedes_fits precedes_total precedes_trans xs))

-- The order by what has to be reclaimed alone.
abbrev pub needs_less : NodeReservationCandidate → NodeReservationCandidate → Bool
needs_less x y = leb (needed x) (needed y)

module _ (sessions : List AgentSession) (pods : List Pod) (by_node : String → List AutoscaleSession)
    (required_memory : ℕ) where
  -- What the Node's Pods and the pending reservations leave.
  abbrev pub cpu_left : Node → ℕ
  cpu_left node =
      node_free_cpu node pods
      - reserved_for (λ _. agent_base_cpu_millicores) node.name pods sessions

  abbrev pub memory_left : Node → ℕ
  memory_left node =
      node_free_memory node pods - reserved_for session_memory_reservation node.name pods sessions

  -- A Node that may be reserved: eligible, with no change under way, and with enough CPU, after a
  -- reclaim if need be, and enough memory.
  abbrev pub IsFit : Node → Type 0
  IsFit node =
      (node_eligible_for_agent node ≡ true)
      × (any is_changing (by_node node.name) ≡ false)
      × (agent_base_cpu_millicores ≤ cpu_left node + reclaimable_of (by_node node.name))
      × (required_memory ≤ memory_left node)

  -- The candidate is that of a Node of the list which may be reserved.
  abbrev pub IsOfFit : List Node → NodeReservationCandidate → Type 0
  IsOfFit nodes c =
      IsIn c.node nodes
      × IsFit c.node
      × (c.free ≡ cpu_left c.node)
      × (c.free_memory ≡ memory_left c.node)
      × (c.reclaimable ≡ reclaimable_of (by_node c.node.name))

  candidates-IsOfFit :
      (all nodes : List Node)
      → All (λ n. IsIn n all) nodes
      → All (IsOfFit all) (candidates sessions pods by_node required_memory nodes)
  unfolding candidates
  candidates-IsOfFit all [] h = tt
  candidates-IsOfFit all (node ∷ nodes) h =
      let c = candidate_of sessions pods by_node node in
      let rest = candidates-IsOfFit all nodes h.1 in
      let sums = pending_sums node.name sessions pods in
      elim (Bool-cases (node_eligible_for_agent node)) [
        | inr e ↦ rw e rest
        | inl e ↦ rw e (elim (Bool-cases (any is_changing (by_node node.name))) [
          | inl b ↦ rw b rest
          | inr b ↦ rw b (elim (Bool-cases (can_take required_memory c)) [
            | inl t ↦ rw t (
              (
                h.0,
                (e, b, ground (arith, t, sums.0), ground (arith, t, sums.1)),
                omega (arith, sums.0),
                omega (arith, sums.1),
                refl,
              ),
              rest,
            )
            | inr t ↦ rw t rest
          ])
        ])
      ]

  -- What holds of all candidates holds of those of all Nodes that may be reserved.
  candidates-All_inv :
      (P : NodeReservationCandidate → Type 0) (nodes : List Node)
      → All P (candidates sessions pods by_node required_memory nodes)
      → All (λ n. IsFit n → P (candidate_of sessions pods by_node n)) nodes
  unfolding candidates
  candidates-All_inv P [] h = tt
  candidates-All_inv P (node ∷ nodes) h =
      let c = candidate_of sessions pods by_node node in
      by_tests (node_eligible_for_agent node) refl (any is_changing (by_node node.name)) refl
        (can_take required_memory c) refl h (candidates-All_inv P nodes)
    where
      by_tests :
          (e : Bool)
          → node_eligible_for_agent node ≡ e
          → (b : Bool) → any is_changing (by_node node.name) ≡ b
          → (t : Bool) → can_take required_memory (candidate_of sessions pods by_node node) ≡ t
          → let rest = candidates sessions pods by_node required_memory nodes in
            All P (
              if not e
              then rest
              else if b
              then rest
              else if t
              then candidate_of sessions pods by_node node ∷ rest
              else rest)
            → (All P (candidates sessions pods by_node required_memory nodes)
                → All (λ n. IsFit n → P (candidate_of sessions pods by_node n)) nodes)
            → All (λ n. IsFit n → P (candidate_of sessions pods by_node n)) (node ∷ nodes)
      by_tests false k b l t m h' rest = (λ f. cc (f.0, k), rest h')
      by_tests true k true l t m h' rest = (λ f. cc (f.1, l), rest h')
      by_tests true k false l true m h' rest = (λ f. h'.0, rest h'.1)
      by_tests true k false l false m h' rest = (
        λ f.
            let sums = pending_sums node.name sessions pods in
            elim (too_small m sums.0 sums.1 f.2 f.3) [ ],
        rest h',
      )
        where
          too_small :
              can_take required_memory (candidate_of sessions pods by_node node) ≡ false
              → get node.name (pending_reservation_cpu sessions pods)
                ≡ reserved_for (λ _. agent_base_cpu_millicores) node.name pods sessions
              → get node.name (pending_reservation_memory sessions pods)
                ≡ reserved_for session_memory_reservation node.name pods sessions
              → agent_base_cpu_millicores ≤ cpu_left node + reclaimable_of (by_node node.name)
              → required_memory ≤ memory_left node
              → ⊥
          too_small m x y f g = ground (arith, m, x, y, f, g)

  -- The Node that is selected for a reservation is one of the Nodes, is eligible, has no change under
  -- way, and has enough CPU, after a reclaim if need be, and memory beside its Pods and the pending
  -- reservations; of all such Nodes none needs less CPU to be reclaimed. Where none is selected there
  -- is no such Node.
  pub selected_node-IsFit :
      (nodes : List Node)
      → IsChosen
          (λ c.
            IsOfFit nodes c
            × All
                (λ n.
                  IsFit n
                  → agent_base_cpu_millicores - c.free ≤ agent_base_cpu_millicores - cpu_left n)
                nodes)
          (All (λ n. IsFit n → ⊥) nodes)
          (selected_node sessions pods by_node required_memory nodes)
  unfolding selected_node
  selected_node-IsFit nodes =
      let xs = candidates sessions pods by_node required_memory nodes in
      let before = fits_before required_memory in
      IsChosen-map _ _ _ _
        (λ c h. (
          h.0,
          All-map
              (λ n k f. let sums = pending_sums n.name sessions pods in ground (arith, k f, sums.0))
              nodes
              (candidates-All_inv (λ d. needs_less c d ≡ true) nodes
                (sort-All_inv before (λ d. needs_less c d ≡ true) xs h.1)),
        ))
        (λ h. candidates-All_inv (λ d. ⊥) nodes (sort-All_inv before (λ d. ⊥) xs h))
        (first (sort before xs))
        (first-IsChosen needs_less (IsOfFit nodes) (λ c. ground arith) (sort before xs)
          (sort-All before (IsOfFit nodes) xs (candidates-IsOfFit nodes nodes (All-IsIn nodes)))
          (sort-IsSorted before needs_less (λ x y h. ground arith) (λ x y h. ground arith)
            (λ x y z h k. ground arith) xs))
