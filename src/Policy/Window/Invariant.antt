-- ===== src/Policy/Window/Invariant.antt =====
-- The window of CPU observations stays bounded, ordered by time and free of duplicates.
use bosun.Prelude.{
  ℕ, ◌-◌, ◌≤◌, ◌≡◌, String, true, false, List, [], ◌∷◌, ◌++◌, arith, eq_iff, ltb, Bool-cases, inl,
  inr, length, length-drop, any,
}
use bosun.Prelude.Sort.{
  sort, IsSorted, sort-IsSorted, IsSorted-drop, IsApart, IsApart-snoc, sort-IsApart, IsApart-drop,
}
use bosun.Policy.Window.{
  ResourceSample, SampleWindow, empty, sample_capacity, prepare, add, trim, same_observation,
  observed_before,
}

-- At most `sample_capacity` samples, oldest first, no two of one Pod and one instant.
pub record IsWindow (w : SampleWindow) : Type 0 where
  pub bounded : length w.samples ≤ sample_capacity
  pub ordered : IsSorted observed_before w.samples
  pub distinct : IsApart same_observation w.samples

pub empty-IsWindow : IsWindow empty
empty-IsWindow = record { bounded = omega arith; ordered = tt; distinct = tt }

-- Preparing a window for another identity empties it; for the same one it changes nothing.
pub prepare-IsWindow :
    (pod_uid : String) (generation : ℕ) (w : SampleWindow)
    → IsWindow w
    → IsWindow (prepare pod_uid generation w).0
unfolding prepare
prepare-IsWindow pod_uid generation w v = ground arith

length-trim-le : (xs : List ResourceSample) → length (trim xs) ≤ sample_capacity
length-trim-le xs = ground (arith, length-drop (length xs - sample_capacity) xs)

trim-IsSorted :
    (xs : List ResourceSample) → IsSorted observed_before xs → IsSorted observed_before (trim xs)
trim-IsSorted xs h = elim (Bool-cases (ltb sample_capacity (length xs))) [
  | inl e ↦ rw e (IsSorted-drop observed_before (length xs - sample_capacity) xs h)
  | inr e ↦ rw e h
]

trim-IsApart :
    (xs : List ResourceSample) → IsApart same_observation xs → IsApart same_observation (trim xs)
trim-IsApart xs h = elim (Bool-cases (ltb sample_capacity (length xs))) [
  | inl e ↦ rw e (IsApart-drop same_observation (length xs - sample_capacity) xs h)
  | inr e ↦ rw e h
]

before_total : (x y : ResourceSample) → observed_before x y ≡ false → observed_before y x ≡ true
before_total x y h = ground arith

before_trans :
    (x y z : ResourceSample)
    → observed_before x y ≡ true
    → observed_before y z ≡ true
    → observed_before x z ≡ true
before_trans x y z h k = ground arith

same_sym : (x y : ResourceSample) → same_observation x y ≡ false → same_observation y x ≡ false
same_sym x y h = ground (arith, eq_iff x.pod_uid y.pod_uid, eq_iff y.pod_uid x.pod_uid)

-- Adding a sample, refused or accepted, keeps the window bounded, ordered and without duplicates.
pub add-IsWindow : (s : ResourceSample) (w : SampleWindow) → IsWindow w → IsWindow (add s w).0
unfolding add
add-IsWindow s w v = elim (Bool-cases (any (λ x. same_observation x s) w.samples)) [
  | inl e ↦ rw e v
  | inr e ↦
      let xs = w.samples ++ s ∷ [] in
      rw e (record {
        bounded = length-trim-le (sort observed_before xs);
        ordered = trim-IsSorted _ (
            sort-IsSorted observed_before observed_before (λ x y e. e) before_total before_trans
              xs);
        distinct = trim-IsApart _ (
            sort-IsApart observed_before same_observation same_sym xs
              (IsApart-snoc same_observation w.samples s v.distinct e));
      })
]
