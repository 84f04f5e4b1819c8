-- ===== src/Policy/Load.antt =====
-- operator/pkg/resourcepolicy/autoscaling.go: the classification of recent CPU load.
pub mod Targets
use bosun.Prelude.{
  ℕ, ◌+◌, ◌*◌, ◌/◌, Bool, List, [], ◌∷◌, ltb, leb, ◌==◌, if◌then◌else◌, length, take_last, all, any,
}
use bosun.Policy.{ResourcePolicy}
use bosun.Policy.Window.{ResourceSample}

-- `ResourceLoadClass` of operator/api/v1alpha1; `unset` is the empty text of a new status.
pub data LoadClass : Type 0 where
  unset unknown warming_up stable cpu_high cpu_low : LoadClass

abbrev pub warmup_samples : ℕ
warmup_samples = 3

abbrev pub scale_down_samples : ℕ
scale_down_samples = 3

abbrev pub scale_up_threshold : ℕ
scale_up_threshold = 75

abbrev pub scale_down_threshold : ℕ
scale_down_threshold = 35

abbrev pub utilization_at_least : ResourceSample → ℕ → Bool
utilization_at_least s percentage = leb (s.actual_cpu_limit * percentage) (s.cpu_usage * 100)

abbrev pub utilization_below : ResourceSample → ℕ → Bool
utilization_below s percentage = ltb (s.cpu_usage * 100) (s.actual_cpu_limit * percentage)

unfoldable pub clamp : ℕ → ℕ → ℕ → ℕ
clamp value minimum maximum =
    if ltb value minimum then minimum else if ltb maximum value then maximum else value

unfoldable pub scale_up_target : ℕ → ResourcePolicy → ℕ
unfolding clamp
scale_up_target current_limit p = clamp (current_limit * 2) p.min_cpu_limit p.max_cpu_limit

unfoldable pub scale_down_target : ℕ → ResourcePolicy → ℕ
unfolding clamp
scale_down_target current_limit p = clamp (current_limit / 2) p.min_cpu_limit p.max_cpu_limit

-- The loop that counts the high samples.
unfoldable pub count_high : List ResourceSample → ℕ
count_high [] = 0
count_high (s ∷ ss) = (if utilization_at_least s scale_up_threshold then 1 else 0) + count_high ss

unfoldable pub recommendation : List ResourceSample → ℕ → ResourcePolicy → LoadClass × ℕ
recommendation samples current_limit p =
    if current_limit == 0
    then (unknown, 0)
    else if any (λ s. s.actual_cpu_limit == 0) samples
    then (unknown, 0)
    else if ltb (length samples) warmup_samples
    then (warming_up, 0)
    else if leb 2 (count_high (take_last warmup_samples samples))
    then (cpu_high, scale_up_target current_limit p)
    else if leb scale_down_samples (length samples)
    then if all (λ s. utilization_below s scale_down_threshold)
        (take_last scale_down_samples samples)
      then (cpu_low, scale_down_target current_limit p)
      else (stable, 0)
    else (stable, 0)
