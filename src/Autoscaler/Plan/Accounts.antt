-- ===== src/Autoscaler/Plan/Accounts.antt =====
-- The accounts of one allocation: targets, current extra CPU, new extra CPU, and what is left out.
use bosun.Prelude.{
  ℕ, ◌+◌, ◌≤◌, ◌<◌, min, ◌≡◌, refl, Bool, false, none, some, List, [], ◌∷◌, arith, leb, str_eq,
  if◌then◌else◌, Bool-cases, inl, inr, length, All,
}
use bosun.Prelude.Sort.{IsApart}
use bosun.Prelude.Dict.{Dict, lookup, get}
use bosun.Scheduler.{max_min_cpu}
use bosun.Scheduler.Rounds.{same_key}
use bosun.Scheduler.Fairness.{max_min_cpu-pos}
use bosun.Autoscaler.Plan.{
  AutoscaleSession, extra, takes_part, allocate, new_extras, current_extras, demand_extras,
  demands_of,
}
use bosun.Autoscaler.Plan.Reclaim.{same_session, targets, IsReady}

-- The extra CPU of sessions that the allocation leaves out: their targets stay as they were.
pub stale : (AutoscaleSession → Bool) → Dict ℕ → List AutoscaleSession → ℕ
stale group m [] = 0
stale group m (s ∷ ss) =
    (if group s then elim (lookup s.key m) [ none ↦ extra s.target | some n ↦ 0 ] else 0)
    + stale group m ss

module _ (group : AutoscaleSession → Bool) where
  pub allocate-targets :
      (m : Dict ℕ) (ss : List AutoscaleSession)
      → All IsReady ss
      → targets (allocate group m ss) + current_extras group ss
        ≡ targets ss + new_extras group m ss + stale group m ss
  unfolding allocate current_extras new_extras stale
  allocate-targets m [] v = omega arith
  allocate-targets m (s ∷ ss) v = ground (arith, v.0, allocate-targets m ss v.1)

  pub stale-le :
      (m : Dict ℕ) (ss : List AutoscaleSession) → stale group m ss ≤ current_extras group ss
  unfolding current_extras stale
  stale-le m [] = omega arith
  stale-le m (s ∷ ss) = ground (arith, stale-le m ss)

  pub stale_none :
      (m : Dict ℕ) (ss : List AutoscaleSession)
      → All IsReady ss
      → All (λ d. min 1 d.limit ≤ get d.key m) (demands_of group ss)
      → stale group m ss ≡ 0
  unfolding stale demands_of
  stale_none m [] v h = refl
  stale_none m (s ∷ ss) v h = elim (Bool-cases (takes_part group s)) [
    | inl e ↦ let h' = (rw e at h) in ground (arith, v.0, h'.0, stale_none m ss v.1 h'.1)
    | inr e ↦ let h' = (rw e at h) in ground (arith, v.0, stale_none m ss v.1 h')
  ]

  pub current-le-demand :
      (ss : List AutoscaleSession)
      → All IsReady ss
      → current_extras group ss ≤ demand_extras group ss
  unfolding current_extras demand_extras
  current-le-demand [] v = omega arith
  current-le-demand (s ∷ ss) v = ground (arith, v.0, current-le-demand ss v.1)

  pub length-demands_of-le : (ss : List AutoscaleSession) → length (demands_of group ss) ≤ length ss
  unfolding demands_of
  length-demands_of-le [] = omega arith
  length-demands_of-le (s ∷ ss) = ground (arith, length-demands_of-le ss)

  pub demands_of-apart :
      (k : AutoscaleSession) (ss : List AutoscaleSession)
      → All (λ t. same_session k t ≡ false) ss
      → All (λ d. str_eq k.key d.key ≡ false) (demands_of group ss)
  unfolding demands_of
  demands_of-apart k [] h = tt
  demands_of-apart k (s ∷ ss) h = elim (Bool-cases (takes_part group s)) [
    | inl e ↦ rw e (h.0, demands_of-apart k ss h.1)
    | inr e ↦ rw e (demands_of-apart k ss h.1)
  ]

  pub demands_of-IsApart :
      (ss : List AutoscaleSession)
      → IsApart same_session ss
      → IsApart same_key (demands_of group ss)
  unfolding demands_of
  demands_of-IsApart [] a = tt
  demands_of-IsApart (s ∷ ss) a = elim (Bool-cases (takes_part group s)) [
    | inl e ↦ rw e (demands_of-apart s ss a.0, demands_of-IsApart ss a.1)
    | inr e ↦ rw e (demands_of-IsApart ss a.1)
  ]

  -- At most one millicore for each session is left out of the account.
  pub stale-le_length :
      (pool : ℕ) (ss : List AutoscaleSession)
      → IsApart same_session ss
      → All IsReady ss
      → current_extras group ss ≤ pool
      → stale group (max_min_cpu pool (demands_of group ss)) ss ≤ length ss
  stale-le_length pool ss a v h =
      let demands = demands_of group ss in
      let m = max_min_cpu pool demands in
      elim (Bool-cases (leb (length demands) pool)) [
        | inl e ↦ omega (
          arith,
          stale_none m ss v (max_min_cpu-pos pool demands (ground arith) (demands_of-IsApart ss a)),
        )
        | inr e ↦
            let short : pool < length demands = ground arith in
            omega (arith, stale-le m ss, length-demands_of-le ss)
      ]
