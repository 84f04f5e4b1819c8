-- ===== src/Autoscaler/Plan/Phase.antt =====
-- One phase of the plan, `planFairPriority`: it keeps the sum of targets and free CPU, but for one
-- millicore for each session, and each session between its base allotment and its demand.
use bosun.Prelude.{
  ℕ, ◌+◌, ◌-◌, ◌≤◌, ◌≡◌, refl, Bool, true, false, List, [], ◌∷◌, arith, eq_iff, ltb, str_eq,
  if◌then◌else◌, Bool-cases, inl, inr, length, All, All-map,
}
use bosun.Prelude.Sort.{IsApart}
use bosun.Prelude.Dict.{Dict, get}
use bosun.Scheduler.{agent_base_cpu_millicores, max_min_cpu, proportional_cpu}
use bosun.Scheduler.MaxMin.{DemandCaps, max_min_cpu-le, max_min_cpu-total-le}
use bosun.Autoscaler.Plan.{
  AutoscaleSession, extra, takes_part, allocate_one, allocate, new_extras, current_extras,
  demands_of, reclaimable_extras, capacities_of, pool_of, plan_fair_priority,
}
use bosun.Autoscaler.Plan.Reclaim.{
  same_session, targets, IsReady, reclaim-targets, reclaim-IsReady, new_extras-le,
  reclaim_all-IsApart, reclaim_all-length,
}
use bosun.Autoscaler.Plan.Accounts.{allocate-targets, stale-le_length, current-le-demand}

module _ (group : AutoscaleSession → Bool) where
  allocate-apart :
      (k : AutoscaleSession) (m : Dict ℕ) (ss : List AutoscaleSession)
      → All (λ t. same_session k t ≡ false) ss
      → All (λ t. same_session k t ≡ false) (allocate group m ss)
  unfolding allocate
  allocate-apart k m [] h = tt
  allocate-apart k m (s ∷ ss) h = (ground (arith, h.0), allocate-apart k m ss h.1)

  allocate_one-key : (m : Dict ℕ) (s : AutoscaleSession) → (allocate_one group m s).key ≡ s.key
  allocate_one-key m s = ground arith

  allocate-IsApart :
      (m : Dict ℕ) (ss : List AutoscaleSession)
      → IsApart same_session ss
      → IsApart same_session (allocate group m ss)
  unfolding allocate
  allocate-IsApart m [] a = tt
  allocate-IsApart m (s ∷ ss) a =
      (rw (allocate_one-key m s) (allocate-apart s m ss a.0), allocate-IsApart m ss a.1)

  allocate-length :
      (m : Dict ℕ) (ss : List AutoscaleSession) → length (allocate group m ss) ≡ length ss
  unfolding allocate
  allocate-length m [] = refl
  allocate-length m (s ∷ ss) = omega (arith, allocate-length m ss)

  -- Each grant stays within the demand.
  abbrev Bounded : Dict ℕ → AutoscaleSession → Type 0
  Bounded m s = (if group s then get s.key m else 0) ≤ extra s.demand

  allocate-IsReady :
      (m : Dict ℕ) (ss : List AutoscaleSession)
      → All (λ s. get s.key m ≤ extra s.demand) ss
      → All IsReady ss
      → All IsReady (allocate group m ss)
  unfolding allocate
  allocate-IsReady m [] b v = tt
  allocate-IsReady m (s ∷ ss) b v =
      ((ground (arith, b.0, v.0), ground (arith, b.0, v.0)), allocate-IsReady m ss b.1 v.1)

  caps_apart :
      (k : AutoscaleSession) (cap : ℕ) (ss : List AutoscaleSession)
      → All (λ t. same_session k t ≡ false) ss
      → DemandCaps k.key cap (demands_of group ss)
  unfolding demands_of
  caps_apart k cap [] h = tt
  caps_apart k cap (s ∷ ss) h =
      let rest = caps_apart k cap ss h.1 in
      elim (Bool-cases (takes_part group s)) [
        | inl e ↦ rw e (ground (arith, eq_iff k.key s.key, eq_iff s.key k.key, h.0), rest)
        | inr e ↦ rw e rest
      ]

  caps_cons :
      (x : AutoscaleSession) (ds : List AutoscaleSession) (k : AutoscaleSession) (cap : ℕ)
      → (if str_eq x.key k.key then extra x.demand else 0) ≤ cap
      → DemandCaps k.key cap (demands_of group ds)
      → DemandCaps k.key cap (demands_of group (x ∷ ds))
  unfolding demands_of
  caps_cons x ds k cap h c = elim (Bool-cases (takes_part group x)) [
    | inl e ↦ rw e (h, c)
    | inr e ↦ rw e c
  ]

  caps_tail :
      (x : AutoscaleSession) (ds es : List AutoscaleSession)
      → All (λ e. same_session x e ≡ false) es
      → All (λ e. DemandCaps e.key (extra e.demand) (demands_of group ds)) es
      → All (λ e. DemandCaps e.key (extra e.demand) (demands_of group (x ∷ ds))) es
  caps_tail x ds [] h c = tt
  caps_tail x ds (e ∷ es) h c =
      (caps_cons x ds e (extra e.demand) (ground (arith, h.0)) c.0, caps_tail x ds es h.1 c.1)

  caps_self :
      (ss : List AutoscaleSession)
      → IsApart same_session ss
      → All (λ s. DemandCaps s.key (extra s.demand) (demands_of group ss)) ss
  caps_self [] a = tt
  caps_self (s ∷ ss) a = (
    caps_cons s ss s (extra s.demand) (ground (arith, eq_iff s.key s.key))
        (caps_apart s (extra s.demand) ss a.0),
    caps_tail s ss ss a.0 (caps_self ss a.1),
  )

  grants_bounded :
      (pool : ℕ) (ss : List AutoscaleSession)
      → IsApart same_session ss
      → All (λ s. get s.key (max_min_cpu pool (demands_of group ss)) ≤ extra s.demand) ss
  grants_bounded pool ss a =
      All-map (λ s. DemandCaps s.key (extra s.demand) (demands_of group ss)) _
        (λ s c. max_min_cpu-le s.key (extra s.demand) pool (demands_of group ss) c) ss
        (caps_self ss a)

module _ (group reclaimable : AutoscaleSession → Bool)
    (steady : (s : AutoscaleSession) (t : ℕ)
      → reclaimable (record s { target = t }) ≡ reclaimable s)
    (disjoint : (s : AutoscaleSession) → group s ≡ true → reclaimable s ≡ false) where
  allocate-reclaimable :
      (m : Dict ℕ) (ss : List AutoscaleSession)
      → reclaimable_extras reclaimable (allocate group m ss) ≡ reclaimable_extras reclaimable ss
  unfolding allocate reclaimable_extras
  allocate-reclaimable m [] = refl
  allocate-reclaimable m (s ∷ ss) = elim (Bool-cases (group s)) [
    | inl e ↦ rw e (
        ground (
          arith,
          disjoint s e,
          steady s (agent_base_cpu_millicores + get s.key m),
          allocate-reclaimable m ss,
        ))
    | inr e ↦ rw e (ground (arith, allocate-reclaimable m ss))
  ]

  new-le_pool :
      (free : ℕ) (allow : Bool) (ss : List AutoscaleSession)
      → IsApart same_session ss
      → let pool = pool_of group reclaimable free allow ss in
        new_extras group (max_min_cpu pool (demands_of group ss)) ss ≤ pool
  new-le_pool free allow ss a =
      let pool = pool_of group reclaimable free allow ss in
      omega (
        arith,
        new_extras-le group (max_min_cpu pool (demands_of group ss)) ss a,
        max_min_cpu-total-le pool (demands_of group ss),
      )

  pool-le :
      (free : ℕ) (allow : Bool) (ss : List AutoscaleSession)
      → pool_of group reclaimable free allow ss
        ≤ current_extras group ss + free + reclaimable_extras reclaimable ss
  unfolding pool_of
  pool-le free true ss = omega arith
  pool-le free false ss = omega arith

  current-le_pool :
      (free : ℕ) (allow : Bool) (ss : List AutoscaleSession)
      → All IsReady ss
      → current_extras group ss ≤ pool_of group reclaimable free allow ss
  unfolding pool_of
  current-le_pool free true ss v = omega (arith, current-le-demand group ss v)
  current-le_pool free false ss v = omega (arith, current-le-demand group ss v)

  -- For sessions of different keys, each between its base allotment and its demand, a phase keeps
  -- the sum of the targets and the free CPU, up to one millicore for each session.
  pub plan_fair_priority-targets-le :
      (free : ℕ) (allow : Bool) (ss : List AutoscaleSession)
      → IsApart same_session ss
      → All IsReady ss
      → let planned = plan_fair_priority group reclaimable free allow ss in
        targets planned.0 + planned.1 ≤ targets ss + free + length ss
  unfolding plan_fair_priority
  plan_fair_priority-targets-le free allow ss a v =
      let pool = pool_of group reclaimable free allow ss in
      let m = max_min_cpu pool (demands_of group ss) in
      let allocated = allocate group m ss in
      let reclaim = new_extras group m ss - (current_extras group ss + free) in
      let same = allocate-reclaimable m ss in
      let accounts = allocate-targets group m ss v in
      let few = stale-le_length group pool ss a v (current-le_pool free allow ss v) in
      let backed : reclaim ≤ reclaimable_extras reclaimable allocated =
        omega (arith, same, new-le_pool free allow ss a, pool-le free allow ss) in
      let taken =
        reclaim-targets reclaimable steady reclaim allocated (allocate-IsApart group m ss a)
          backed in
      elim (Bool-cases (ltb 0 reclaim)) [
        | inl e ↦ rw e (omega (arith, accounts, few, taken))
        | inr e ↦
            let none_taken : reclaim ≡ 0 = ground arith in
            rw e (omega (arith, accounts, few, none_taken))
      ]

  pub plan_fair_priority-IsReady :
      (free : ℕ) (allow : Bool) (ss : List AutoscaleSession)
      → IsApart same_session ss
      → All IsReady ss
      → All IsReady (plan_fair_priority group reclaimable free allow ss).0
  unfolding plan_fair_priority
  plan_fair_priority-IsReady free allow ss a v =
      let pool = pool_of group reclaimable free allow ss in
      let m = max_min_cpu pool (demands_of group ss) in
      let reclaim = new_extras group m ss - (current_extras group ss + free) in
      let ready = allocate-IsReady group m ss (grants_bounded group pool ss a) v in
      elim (Bool-cases (ltb 0 reclaim)) [
        | inl e ↦ rw e (
            reclaim-IsReady reclaimable steady reclaim (allocate group m ss)
              (allocate-IsApart group m ss a) ready)
        | inr e ↦ rw e ready
      ]

  pub plan_fair_priority-IsApart :
      (free : ℕ) (allow : Bool) (ss : List AutoscaleSession)
      → IsApart same_session ss
      → IsApart same_session (plan_fair_priority group reclaimable free allow ss).0
  unfolding plan_fair_priority
  plan_fair_priority-IsApart free allow ss a =
      let m = max_min_cpu (pool_of group reclaimable free allow ss) (demands_of group ss) in
      let reclaim = new_extras group m ss - (current_extras group ss + free) in
      let apart = allocate-IsApart group m ss a in
      elim (Bool-cases (ltb 0 reclaim)) [
        | inl e ↦ rw e (reclaim_all-IsApart reclaimable _ _ apart)
        | inr e ↦ rw e apart
      ]

  pub plan_fair_priority-length :
      (free : ℕ) (allow : Bool) (ss : List AutoscaleSession)
      → length (plan_fair_priority group reclaimable free allow ss).0 ≡ length ss
  unfolding plan_fair_priority
  plan_fair_priority-length free allow ss =
      let m = max_min_cpu (pool_of group reclaimable free allow ss) (demands_of group ss) in
      let allocated = allocate group m ss in
      let reclaim = new_extras group m ss - (current_extras group ss + free) in
      let same = allocate-length group m ss in
      elim (Bool-cases (ltb 0 reclaim)) [
        | inl e ↦ rw e (
            omega (
              arith,
              same,
              reclaim_all-length reclaimable
                  (proportional_cpu reclaim (capacities_of reclaimable allocated [])) allocated,
            ))
        | inr e ↦ rw e same
      ]
