-- ===== src/Autoscaler/Observe/Demands.antt =====
-- What an observation may ask for: states that the plan of a Node accepts, in the policy's range.
use Prim.Native.String.{◌++◌}
use bosun.Prelude.{
  ℕ, ◌+◌, ◌≤◌, ◌<◌, ◌≡◌, refl, sym, subst, ◌⊎◌, inl, inr, String, Bool, true, false, ◌&&◌, ◌||◌,
  Option, none, some, arith, ltb, ◌==◌, if◌then◌else◌, Bool-cases,
}
use bosun.Policy.{policy}
use bosun.Policy.Load.{
  LoadClass, unset, unknown, warming_up, stable, cpu_high, cpu_low, recommendation,
}
use bosun.Policy.Load.Targets.{IsSound, recommendation-IsSound}
use bosun.Policy.Window.{SampleWindow}
use bosun.Cluster.{AgentSession, Pod, Container, agent_container_name, find_pod_container}
use bosun.Autoscaler.Plan.{AutoscaleSession, priority_rank}
use bosun.Autoscaler.Resize.{pod_has_active_resize}
use bosun.Autoscaler.Plan.Reclaim.{IsReady}
use bosun.Autoscaler.Plan.Conservation.{IsLowered}
use bosun.Autoscaler.Controller.{Api, Controller, set_window, update_auto_status}
use bosun.Autoscaler.Observe.{
  Reading, unreadable, not_ready, ready, start_state, decide, demand_state, report, recommend,
  read_metric, observe_agent, observe_found, observe_session, work_state_allows_scale_down,
  cooldown_elapsed, actual_limit_of, metrics_max_age, auto_observation_allowed,
}

-- What the plan needs, and what the policy allows.
pub record IsPlannable (s : AutoscaleSession) : Type 0 where
  pub accepted : IsReady s
  pub lowered : IsLowered s
  pub capped : s.demand ≤ policy.max_cpu_limit
  pub raises : s.target < s.demand → s.scale_up ≡ true
  pub spared :
      s.target < s.current → (s.priority ≡ 1) ⊎ (work_state_allows_scale_down s.session ≡ true)

abbrev IsInRange : ℕ → Type 0
IsInRange limit = (policy.min_cpu_limit ≤ limit) × (limit ≤ policy.max_cpu_limit)

-- A state as it starts: nothing asked for.
record IsStart (s : AutoscaleSession) : Type 0 where
  in_range : IsInRange s.current
  same_target : s.target ≡ s.current
  same_demand : s.demand ≡ s.current

IsStart-IsPlannable : {s : AutoscaleSession} → IsStart s → IsPlannable s
IsStart-IsPlannable v = record {
  accepted = (omega arith, omega arith);
  lowered = omega arith;
  capped = omega arith;
  raises = λ h. absurd (omega arith);
  spared = λ h. absurd (omega arith);
}

decide-IsPlannable :
    (c : Controller) (now : ℕ) (advice : LoadClass × ℕ) (samples : SampleWindow)
    (s : AutoscaleSession)
    → IsStart s
    → IsSound policy samples.samples s.current advice
    → IsPlannable (decide c now advice.0 advice.1 s)
unfolding decide
decide-IsPlannable c now (cpu_high, target) samples s v h =
    elim (Bool-cases (cooldown_elapsed s.session.resource_scaling now c.scale_up_cooldown)) [
      | inl e ↦ rw e (record {
        accepted = (omega arith, omega arith);
        lowered = omega arith;
        capped = omega arith;
        raises = λ h. refl;
        spared = λ h. absurd (omega arith);
      })
      | inr e ↦ rw e (IsStart-IsPlannable v)
    ]
decide-IsPlannable c now (cpu_low, target) samples s v h =
    elim (Bool-cases (work_state_allows_scale_down s.session && elapsed)) [
      | inl e ↦ rw e (record {
        accepted = (omega arith, omega arith);
        lowered = omega arith;
        capped = omega arith;
        raises = λ h. absurd (omega arith);
        spared = λ h. inr (ground arith);
      })
      | inr e ↦ rw e (IsStart-IsPlannable v)
    ]
  where
    elapsed : Bool
    elapsed = cooldown_elapsed s.session.resource_scaling now c.scale_down_cooldown
decide-IsPlannable c now (unset, target) samples s v h = absurd h
decide-IsPlannable c now (unknown, target) samples s v h = IsStart-IsPlannable v
decide-IsPlannable c now (warming_up, target) samples s v h = IsStart-IsPlannable v
decide-IsPlannable c now (stable, target) samples s v h = IsStart-IsPlannable v

demand_state-IsPlannable :
    (c : Controller) (now : ℕ) (samples : SampleWindow) (s : AutoscaleSession)
    → IsStart s
    → IsPlannable (demand_state c now (recommendation samples.samples s.current policy) s)
unfolding demand_state
demand_state-IsPlannable c now samples s v =
    let advice = recommendation samples.samples s.current policy in
    let sound =
      recommendation-IsSound policy samples.samples s.current (inr v.in_range.0) v.in_range.1 in
    elim (Bool-cases (advice.1 == 0 || advice.1 == s.current || pod_has_active_resize s.pod)) [
      | inl e ↦ rw e (IsStart-IsPlannable v)
      | inr e ↦ rw e (decide-IsPlannable c now advice samples s v sound)
    ]

-- A property of the state that an observation hands on, if it hands one on.
abbrev pub Hands : (AutoscaleSession → Type 0) → Option AutoscaleSession → Type 0
Hands P none = Unit
Hands P (some s) = P s

module _ (api : Api) (decimal : ℕ → String) where
  open api use {World, now}

  Hands-if :
      (P : AutoscaleSession → Type 0) (b : Bool) (s : AutoscaleSession)
      → P s
      → Hands P (if b then some s else none)
  Hands-if P true s h = h
  Hands-if P false s h = tt

  report-Hands :
      (P : AutoscaleSession → Type 0) (c : Controller) (s : AutoscaleSession)
      (load_class : LoadClass) (target : ℕ) (message : Option String) (w : World)
      → P s
      → Hands P (report api decimal c s load_class target message w).state
  unfolding report
  report-Hands P c s load_class target message w h =
      Hands-if P (update_auto_status api c s.session load_class target message w).1 s h

  recommend-Hands :
      (c : Controller) (s : AutoscaleSession) (samples : SampleWindow) (w : World)
      → IsStart s
      → Hands IsPlannable (recommend api decimal c s samples w).state
  unfolding recommend
  recommend-Hands c s samples w v =
      Hands-if IsPlannable _ _
        (demand_state-IsPlannable (set_window s.session.uid samples c) _ samples s v)

  read_metric-Hands :
      (c : Controller) (s : AutoscaleSession) (samples : SampleWindow) (actual : ℕ)
      (reading : Reading) (w : World)
      → IsStart s
      → Hands IsPlannable (read_metric api decimal c s samples actual reading w).state
  unfolding read_metric
  read_metric-Hands c s samples actual (unreadable error) w v =
      report-Hands IsPlannable c s unknown 0 _ w (IsStart-IsPlannable v)
  read_metric-Hands c s samples actual not_ready w v = recommend-Hands c s samples w v
  read_metric-Hands c s samples actual (ready metric) w v =
      elim (Bool-cases (metric.timestamp == 0)) [
        | inl e ↦ rw e (report-Hands IsPlannable c s unknown 0 _ w (IsStart-IsPlannable v))
        | inr e ↦ rw e (elim (Bool-cases (ltb (metric.timestamp + metrics_max_age) (now w))) [
          | inl old ↦ rw old (report-Hands IsPlannable c s unknown 0 _ w (IsStart-IsPlannable v))
          | inr fresh ↦ rw fresh (recommend-Hands c s _ w v)
        ])
      ]

  start_state-IsStart :
      (s : AgentSession) (pod : Pod) (agent : Container) (key : String)
      → (agent.resources.limits.cpu ≡ 0) ⊎ IsInRange agent.resources.limits.cpu
      → IsStart (start_state s pod agent key)
  start_state-IsStart s pod agent key limit = record {
    in_range = ground arith;
    same_target = refl;
    same_demand = refl;
  }

  low-IsPlannable :
      (s : AutoscaleSession)
      → IsStart s
      → s.priority ≡ 1
      → IsPlannable (record s { target = policy.min_cpu_limit; demand = policy.min_cpu_limit })
  low-IsPlannable s v p = record {
    accepted = (omega arith, omega arith);
    lowered = omega arith;
    capped = omega arith;
    raises = λ h. absurd (omega arith);
    spared = λ h. inl p;
  }

  observe_agent-Hands :
      (s : AgentSession) (pod : Pod) (reading : Reading) (c : Controller) (w : World)
      (agent : Container)
      → (agent.resources.limits.cpu ≡ 0) ⊎ IsInRange agent.resources.limits.cpu
      → Hands IsPlannable (observe_agent api decimal s pod reading c w agent).state
  unfolding observe_agent
  observe_agent-Hands s pod reading c w agent limit =
      let start : IsStart (start_state s pod agent (s.namespace ++ "/" ++ s.name)) =
        start_state-IsStart s pod agent (s.namespace ++ "/" ++ s.name) limit in
      elim (Bool-cases (priority_rank s.priority_class_name == 1)) [
        | inl e ↦ rw e (
            report-Hands IsPlannable _ _ unknown policy.min_cpu_limit none w
              (low-IsPlannable _ start (ground arith)))
        | inr e ↦ rw e (elim (Bool-cases (auto_observation_allowed s pod)) [
          | inr o ↦ rw o (report-Hands IsPlannable _ _ unknown 0 none w (IsStart-IsPlannable start))
          | inl o ↦ rw o (elim (Bool-cases (actual_limit_of api decimal pod == 0)) [
            | inl z ↦ rw z (report-Hands IsPlannable _ _ unknown 0 _ w (IsStart-IsPlannable start))
            | inr z ↦ rw z (read_metric-Hands _ _ _ _ reading w start)
          ])
        ])
      ]

  observe_session-found :
      (s : AgentSession) (pod : Pod) (agent : Container) (reading : Reading) (c : Controller)
      (w : World)
      → find_pod_container pod agent_container_name ≡ some agent
      → observe_session api decimal s pod reading c w
        ≡ observe_agent api decimal s pod reading c w agent
  unfolding observe_session observe_found
  observe_session-found s pod agent reading c w e = rw (e, observe_session)

  -- For an Agent whose CPU limit is absent or within the policy's range, an observation hands on
  -- only states that the plan accepts: the base allotment at least, no target above the limit of
  -- now or above the demand, no demand above the maximum; a higher demand is marked as a scale-up,
  -- and a lower target is that of a session of low priority or of one that is not at work.
  pub observe_session-IsPlannable :
      (s : AgentSession) (pod : Pod) (agent : Container) (reading : Reading) (c : Controller)
      (w : World)
      → find_pod_container pod agent_container_name ≡ some agent
      → (agent.resources.limits.cpu ≡ 0) ⊎ IsInRange agent.resources.limits.cpu
      → Hands IsPlannable (observe_session api decimal s pod reading c w).state
  observe_session-IsPlannable s pod agent reading c w found_agent limit =
      subst (λ o. Hands IsPlannable o.state)
        (sym (observe_session-found s pod agent reading c w found_agent))
        (observe_agent-Hands s pod reading c w agent limit)
