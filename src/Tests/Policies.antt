-- ===== src/Tests/Policies.antt =====
-- The window and the recommendation on three observations of one Pod.
use bosun.Prelude.{ℕ, ◌≡◌, refl, inr, arith, List, [], ◌∷◌}
use bosun.Prelude.Sort.{sort}
use bosun.Policy.{policy}
use bosun.Policy.Window.{ResourceSample, SampleWindow, add}
use bosun.Policy.Window.Invariant.{IsWindow, add-IsWindow}
use bosun.Policy.Load.{cpu_high, scale_up_target, scale_down_target, count_high, recommendation}
use bosun.Policy.Load.Targets.{IsSound, recommendation-IsSound, scale_converges}

abbrev sample : ℕ → ℕ → ResourceSample
sample at usage = record {
  pod_uid = "pod";
  observed_at = at;
  metric_window = 10;
  cpu_usage = usage;
  actual_cpu_limit = 1000;
}

abbrev two_samples : SampleWindow
two_samples = record {
  pod_uid = "pod";
  generation = 1;
  samples = sample 10 900 ∷ sample 30 100 ∷ [];
}

abbrev busy : List ResourceSample
busy = sample 10 900 ∷ sample 20 800 ∷ sample 30 100 ∷ []

-- A late observation goes to its place.
add_late : (add (sample 20 800) two_samples).0.samples ≡ busy
unfolding add sort
add_late = refl

recommendation-busy : recommendation busy 1000 policy ≡ (cpu_high, 2000)
unfolding recommendation count_high scale_up_target
recommendation-busy = refl

add-IsWindow_example : IsWindow (add (sample 20 800) two_samples).0
add-IsWindow_example = add-IsWindow (sample 20 800) two_samples (record {
  bounded = omega arith;
  ordered = ((refl, tt), (tt, tt));
  distinct = ((refl, tt), (tt, tt));
})

recommendation-IsSound_example : IsSound policy busy 1000 (recommendation busy 1000 policy)
recommendation-IsSound_example =
    recommendation-IsSound policy busy 1000 (inr (omega arith)) (omega arith)

scale_converges_example :
    (scale_up_target (scale_up_target (scale_up_target 700 policy) policy) policy
      ≡ policy.max_cpu_limit)
    × (scale_down_target (scale_down_target (scale_down_target 700 policy) policy) policy
        ≡ policy.min_cpu_limit)
scale_converges_example = scale_converges 700 (omega arith) (omega arith)
