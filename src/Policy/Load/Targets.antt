-- ===== src/Policy/Load/Targets.antt =====
-- What the recommended CPU limits are: in the policy's range, in the direction of the load.
use bosun.Prelude.{
  ℕ, ◌+◌, ◌*◌, ◌≤◌, ◌<◌, ◌≡◌, refl, ◌⊎◌, inl, inr, Bool-cases, List, arith, true, false, ◌==◌, all,
  take_last, length, any,
}
use bosun.Policy.{ResourcePolicy, policy}
use bosun.Policy.Window.{ResourceSample}
use bosun.Policy.Load.{
  LoadClass, unset, unknown, warming_up, stable, cpu_high, cpu_low, scale_up_target,
  scale_down_target, count_high, recommendation, utilization_below, warmup_samples,
  scale_down_samples, scale_down_threshold,
}

-- A limit to go by, for the session and in each sample.
abbrev pub IsMeasured : List ResourceSample → ℕ → Type 0
IsMeasured samples current = (0 < current) × (any (λ s. s.actual_cpu_limit == 0) samples ≡ false)

-- What a pair of a class and a target promises at the limit `current`.
abbrev pub IsSound : ResourcePolicy → List ResourceSample → ℕ → LoadClass × ℕ → Type 0
IsSound p samples current (unset, target) = ⊥
IsSound p samples current (unknown, target) =
    (target ≡ 0) × ((current ≡ 0) ⊎ (any (λ s. s.actual_cpu_limit == 0) samples ≡ true))
IsSound p samples current (warming_up, target) =
    (target ≡ 0) × IsMeasured samples current × (length samples < warmup_samples)
IsSound p samples current (stable, target) =
    (target ≡ 0)
    × IsMeasured samples current
    × (warmup_samples ≤ length samples)
    × (count_high (take_last warmup_samples samples) < 2)
    × (all (λ s. utilization_below s scale_down_threshold) (take_last scale_down_samples samples)
        ≡ false)
IsSound p samples current (cpu_high, target) =
    IsMeasured samples current
    × (warmup_samples ≤ length samples)
    × (2 ≤ count_high (take_last warmup_samples samples))
    × (current ≤ target)
    × (target ≤ 2 * current)
    × (target ≤ p.max_cpu_limit)
    × (current < p.max_cpu_limit → current < target)
IsSound p samples current (cpu_low, target) =
    IsMeasured samples current
    × (warmup_samples ≤ length samples)
    × (all (λ s. utilization_below s scale_down_threshold) (take_last scale_down_samples samples)
        ≡ true)
    × (count_high (take_last warmup_samples samples) < 2)
    × (target ≤ current)
    × (p.min_cpu_limit ≤ target)
    × (current ≤ 2 * target + 1)
    × (p.min_cpu_limit < current → target < current)

-- With a current limit that is 0 or in the policy's range: without a limit of the session or of a
-- sample the class is unknown, with fewer than three samples the session warms up, and only with
-- these limits and samples there is advice: at a high load at most twice the limit up to the maximum,
-- at a low load at least half of it down to the minimum, and both change the limit unless it is at
-- that end already. Each class is recommended only for samples that bear it out, and the classes
-- without advice come with the target 0.
pub recommendation-IsSound :
    (p : ResourcePolicy) (samples : List ResourceSample) (current : ℕ)
    → (current ≡ 0) ⊎ (p.min_cpu_limit ≤ current)
    → current ≤ p.max_cpu_limit
    → IsSound p samples current (recommendation samples current p)
unfolding recommendation scale_up_target scale_down_target
recommendation-IsSound p samples current (inl none_set) l = rw none_set (refl, inl refl)
recommendation-IsSound p samples current (inr k) l =
    elim (Bool-cases (any (λ s. s.actual_cpu_limit == 0) samples)) [
      | inl e ↦ ground (arith, e)
      | inr e ↦ ground (arith, e)
    ]

-- From any limit in the range, three scale-ups reach the maximum and three scale-downs the minimum.
pub scale_converges :
    (current : ℕ)
    → policy.min_cpu_limit ≤ current
    → current ≤ policy.max_cpu_limit
    → (scale_up_target (scale_up_target (scale_up_target current policy) policy) policy
        ≡ policy.max_cpu_limit)
      × (scale_down_target (scale_down_target (scale_down_target current policy) policy) policy
          ≡ policy.min_cpu_limit)
unfolding scale_up_target scale_down_target
scale_converges current h k = ground arith
