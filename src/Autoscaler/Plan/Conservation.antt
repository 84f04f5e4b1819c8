-- ===== src/Autoscaler/Plan/Conservation.antt =====
-- The plan of a Node gives out what the Node has: the targets together stay within the current
-- limits and the free CPU, but for a millicore for each session in each of the two phases.
use bosun.Prelude.{
  ℕ, ◌+◌, ◌*◌, ◌≤◌, ◌≡◌, refl, true, false, List, [], ◌∷◌, arith, eq_iff, if◌then◌else◌, Bool-cases,
  inl, inr, length, sum_by, All,
}
use bosun.Prelude.Sort.{IsApart, sort, sum_by-sort, sort-IsApart, sort-All, length-sort}
use bosun.Autoscaler.Plan.{
  AutoscaleSession, at_priority, nobody, has_scale_up, plan_fair_priority, plan_node, released,
  session_before,
}
use bosun.Autoscaler.Plan.Reclaim.{same_session, targets, IsReady}
use bosun.Autoscaler.Plan.Phase.{
  plan_fair_priority-targets-le, plan_fair_priority-IsReady, plan_fair_priority-IsApart,
  plan_fair_priority-length,
}

-- What the sessions may use now.
abbrev pub currents : List AutoscaleSession → ℕ
currents = sum_by (λ s. s.current)

-- The observation has set no target above the current limit.
abbrev pub IsLowered : AutoscaleSession → Type 0
IsLowered s = s.target ≤ s.current

released-targets :
    (ss : List AutoscaleSession) → All IsLowered ss → targets ss + released ss ≡ currents ss
unfolding released
released-targets [] h = refl
released-targets (s ∷ ss) h = ground (arith, h.0, released-targets ss h.1)

high_ne_normal : (s : AutoscaleSession) → at_priority 3 s ≡ true → at_priority 2 s ≡ false
high_ne_normal s h = ground arith

same_session_sym : (x y : AutoscaleSession) → same_session x y ≡ false → same_session y x ≡ false
same_session_sym x y h = ground (arith, eq_iff x.key y.key, eq_iff y.key x.key)

-- The two phases, after the reductions.
abbrev IsPlanned : ℕ → List AutoscaleSession → List AutoscaleSession × ℕ → Type 0
IsPlanned bound ss planned =
    (targets planned.0 + planned.1 ≤ bound)
    × All IsReady planned.0
    × IsApart same_session planned.0
    × (length planned.0 ≡ length ss)

high_phase :
    (free : ℕ) (ss : List AutoscaleSession)
    → IsApart same_session ss
    → All IsReady ss
    → IsPlanned (targets ss + free + length ss) ss (
        if has_scale_up (at_priority 3) ss
        then plan_fair_priority (at_priority 3) (at_priority 2) free true ss
        else (ss, free))
high_phase free ss a v = elim (Bool-cases (has_scale_up (at_priority 3) ss)) [
  | inl e ↦ rw e (
    plan_fair_priority-targets-le (at_priority 3) (at_priority 2) (λ s t. refl) high_ne_normal free
        true ss a v,
    plan_fair_priority-IsReady (at_priority 3) (at_priority 2) (λ s t. refl) high_ne_normal free
        true ss a v,
    plan_fair_priority-IsApart (at_priority 3) (at_priority 2) (λ s t. refl) high_ne_normal free
        true ss a,
    plan_fair_priority-length (at_priority 3) (at_priority 2) (λ s t. refl) high_ne_normal free true
        ss,
  )
  | inr e ↦ rw e (omega arith, v, a, refl)
]

normal_phase :
    (free : ℕ) (ss : List AutoscaleSession)
    → IsApart same_session ss
    → All IsReady ss
    → let planned =
        if has_scale_up (at_priority 2) ss
        then (plan_fair_priority (at_priority 2) nobody free false ss).0
        else ss in
      (targets planned ≤ targets ss + free + length ss) × All IsReady planned
normal_phase free ss a v = elim (Bool-cases (has_scale_up (at_priority 2) ss)) [
  | inl e ↦
      let kept =
        plan_fair_priority-targets-le (at_priority 2) nobody (λ s t. refl) (λ s h. refl) free false
          ss a v in
      rw e (
        omega (arith, kept),
        plan_fair_priority-IsReady (at_priority 2) nobody (λ s t. refl) (λ s h. refl) free false ss
            a v,
      )
  | inr e ↦ rw e (omega arith, v)
]

plan_node_parts :
    (free : ℕ) (states : List AutoscaleSession)
    → IsApart same_session states
    → All IsReady states
    → All IsLowered states
    → (targets (plan_node free states) ≤ currents states + free + 2 * length states)
      × All IsReady (plan_node free states)
unfolding plan_node
plan_node_parts free states a v low =
    let ss = sort session_before states in
    let apart = sort-IsApart session_before same_session same_session_sym states a in
    let ready = sort-All session_before IsReady states v in
    let lowered = sort-All session_before IsLowered states low in
    let free' = free + released ss in
    let planned =
      if has_scale_up (at_priority 3) ss
      then plan_fair_priority (at_priority 3) (at_priority 2) free' true ss
      else (ss, free') in
    let first = high_phase free' ss apart ready in
    let second = normal_phase planned.1 planned.0 first.2 first.1 in
    (
      omega (
        arith,
        first.0,
        first.3,
        second.0,
        released-targets ss lowered,
        sum_by-sort session_before (λ s. s.current) states,
        length-sort session_before states,
      ),
      second.1,
    )

-- For sessions of different keys, each between its base allotment and its demand and none raised
-- yet, the planned targets together exceed the current limits and the free CPU by at most two
-- millicores for each session.
pub plan_node-targets-le :
    (free : ℕ) (states : List AutoscaleSession)
    → IsApart same_session states
    → All IsReady states
    → All IsLowered states
    → targets (plan_node free states) ≤ currents states + free + 2 * length states
plan_node-targets-le free states a v low = (plan_node_parts free states a v low).0

-- For such sessions the plan leaves every session its base allotment and raises none above its
-- demand.
pub plan_node-IsReady :
    (free : ℕ) (states : List AutoscaleSession)
    → IsApart same_session states
    → All IsReady states
    → All IsLowered states
    → All IsReady (plan_node free states)
plan_node-IsReady free states a v low = (plan_node_parts free states a v low).1
