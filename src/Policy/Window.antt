-- ===== src/Policy/Window.antt =====
-- operator/pkg/resourcepolicy/autoscaling.go: the bounded window of CPU observations.
-- An instant is a number of nanoseconds, a Pod UID a text.
pub mod Invariant
use bosun.Prelude.{
  ℕ, String, Bool, true, false, ◌&&◌, List, [], ◌∷◌, ◌++◌, leb, ltb, ◌==◌, str_eq, if◌then◌else◌,
  length, any, take_last,
}
use bosun.Prelude.Sort.{sort}

abbrev pub sample_capacity : ℕ
sample_capacity = 20

pub record ResourceSample : Type 0 where
  pub pod_uid : String
  pub observed_at : ℕ
  pub metric_window : ℕ
  pub cpu_usage : ℕ
  pub actual_cpu_limit : ℕ

pub record SampleWindow : Type 0 where
  pub pod_uid : String
  pub generation : ℕ
  pub samples : List ResourceSample

-- The zero value of the struct.
abbrev pub empty : SampleWindow
empty = record { pod_uid = ""; generation = 0; samples = [] }

unfoldable pub prepare : String → ℕ → SampleWindow → SampleWindow × Bool
prepare pod_uid generation w =
    if str_eq w.pod_uid pod_uid && w.generation == generation
    then (w, false)
    else (record { pod_uid = pod_uid; generation = generation; samples = [] }, true)

unfoldable pub reset : SampleWindow → SampleWindow
reset w = empty

abbrev pub same_observation : ResourceSample → ResourceSample → Bool
same_observation x y = str_eq x.pod_uid y.pod_uid && x.observed_at == y.observed_at

-- `left.ObservedAt.Compare(right.ObservedAt) <= 0`.
abbrev pub observed_before : ResourceSample → ResourceSample → Bool
observed_before x y = leb x.observed_at y.observed_at

abbrev pub trim : List ResourceSample → List ResourceSample
trim samples =
    if ltb sample_capacity (length samples) then take_last sample_capacity samples else samples

unfoldable pub add : ResourceSample → SampleWindow → SampleWindow × Bool
add s w =
    if any (λ x. same_observation x s) w.samples
    then (w, false)
    else (record w { samples = trim (sort observed_before (w.samples ++ s ∷ [])) }, true)
