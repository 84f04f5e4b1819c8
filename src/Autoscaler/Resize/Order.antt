-- ===== src/Autoscaler/Resize/Order.antt =====
-- Decreases come before increases, and an increase only after every decrease was applied: while a
-- plan is carried out the limits never take more than the plan or the state before it allows.
use bosun.Prelude.{
  ℕ, ◌+◌, ◌-◌, ◌≤◌, ◌≡◌, refl, sym, ap, subst, ◌⊎◌, inl, inr, String, Bool, true, false, not, ◌&&◌,
  ◌||◌, List, [], ◌∷◌, arith, eq_iff, ltb, str_eq, if◌then◌else◌, Bool-cases, All,
}
use bosun.Prelude.Sort.{IsApart}
use bosun.Prelude.Dict.{Dict, get, total, get-insert, total-insert}
use bosun.Autoscaler.Controller.{Api, Controller}
use bosun.Autoscaler.Plan.{AutoscaleSession, released}
use bosun.Autoscaler.Plan.Reclaim.{same_session, targets}
use bosun.Autoscaler.Plan.Conservation.{currents}
use bosun.Autoscaler.Resize.{
  Outcome, target_of, resize_state, run_decreases, run_increases, apply_node_plan, is_decrease,
  is_increase, is_applied,
}
use bosun.Autoscaler.Resize.Effect.{set_if, IsCluster, resize_state-MaySet}

-- The recorded limit of each session is the one that the plan was made for.
abbrev pub AreCurrent : Dict ℕ → List AutoscaleSession → Type 0
AreCurrent limits = All λ s. get s.key limits ≡ s.current

-- How far the targets lie above and below the current limits.
abbrev pub raised : List AutoscaleSession → ℕ
raised [] = 0
raised (s ∷ ss) = (if ltb s.current s.target then s.target - s.current else 0) + raised ss

raised-released : (ss : List AutoscaleSession) → targets ss + released ss ≡ currents ss + raised ss
unfolding released
raised-released [] = refl
raised-released (s ∷ ss) = ground (arith, raised-released ss)

-- What a session that is not lowered has at least.
abbrev floor : AutoscaleSession → ℕ
floor s = if is_decrease s then 0 else s.current

abbrev HasFloor : Dict ℕ → AutoscaleSession → Type 0
HasFloor limits s = floor s ≤ get s.key limits

-- No session of the list that is lowered shares the key of `t`, if `t` is not lowered.
abbrev Untouched : AutoscaleSession → List AutoscaleSession → Type 0
Untouched t = All λ s. (str_eq s.key t.key && is_decrease s && not (is_decrease t)) ≡ false

Untouched-apart :
    (t : AutoscaleSession) (ss : List AutoscaleSession)
    → All (λ s. same_session t s ≡ false) ss
    → Untouched t ss
Untouched-apart t [] h = tt
Untouched-apart t (s ∷ ss) h =
    (ground (arith, eq_iff t.key s.key, eq_iff s.key t.key, h.0), Untouched-apart t ss h.1)

Untouched-tail :
    (x : AutoscaleSession) (ds es : List AutoscaleSession)
    → All (λ e. same_session x e ≡ false) es
    → All (λ e. Untouched e ds) es
    → All (λ e. Untouched e (x ∷ ds)) es
Untouched-tail x ds [] h c = tt
Untouched-tail x ds (e ∷ es) h c = ((ground (arith, h.0), c.0), Untouched-tail x ds es h.1 c.1)

Untouched-self :
    (ss : List AutoscaleSession) → IsApart same_session ss → All (λ s. Untouched s ss) ss
Untouched-self [] a = tt
Untouched-self (s ∷ ss) a =
    ((ground arith, Untouched-apart s ss a.0), Untouched-tail s ss ss a.0 (Untouched-self ss a.1))

kept_after :
    (s : AutoscaleSession) (limits : Dict ℕ) (b : Bool) (ss : List AutoscaleSession)
    → All (λ t. same_session s t ≡ false) ss
    → AreCurrent limits ss
    → AreCurrent (set_if b s.key s.target limits) ss
kept_after s limits b [] a h = tt
kept_after s limits b (t ∷ ss) a h = (
  ground (arith, get-insert s.key t.key s.target limits, a.0, h.0),
  kept_after s limits b ss a.1 h.1,
)

floors_after :
    (s : AutoscaleSession) (limits : Dict ℕ) (b : Bool) (ss : List AutoscaleSession)
    → All (λ t. same_session s t ≡ false) ss
    → All (HasFloor limits) ss
    → All (HasFloor (set_if b s.key s.target limits)) ss
floors_after s limits b [] a h = tt
floors_after s limits b (t ∷ ss) a h = (
  ground (arith, get-insert s.key t.key s.target limits, a.0, h.0),
  floors_after s limits b ss a.1 h.1,
)

floors_start :
    (limits : Dict ℕ) (ss : List AutoscaleSession) → AreCurrent limits ss → All (HasFloor limits) ss
floors_start limits [] h = tt
floors_start limits (s ∷ ss) h = (ground (arith, h.0), floors_start limits ss h.1)

implied : (x b : Bool) → (x ≡ true → b ≡ true) → not x || b ≡ true
implied true b h = h refl
implied false b h = refl

module _ {W : Type 0} (limits : W → Dict ℕ) (resize : AutoscaleSession → W → W × Outcome) where
  -- A resize of the session sets its limit to the target or leaves all limits, and sets it if it is
  -- reported as applied.
  abbrev IsOrderly : AutoscaleSession → Type 0
  IsOrderly s =
      (w : W)
      → (b : Bool) × (limits (resize s w).0 ≡ set_if b s.key s.target (limits w))
        × (is_applied (resize s w).1 ≡ true → b ≡ true)

  -- The loop of the decreases lowers the total, by all that is released if all were applied.
  decreases_total :
      (ss : List AutoscaleSession) (w : W)
      → All IsOrderly ss
      → IsApart same_session ss
      → AreCurrent (limits w) ss
      → let after = run_decreases resize ss w in
        total (limits after.0) + (if after.1 then released ss else 0) ≤ total (limits w)
  unfolding run_decreases released
  decreases_total [] w o a h = omega arith
  decreases_total (s ∷ ss) w o a h = elim (Bool-cases (is_decrease s)) [
    | inr d ↦ rw d (ground (arith, d, decreases_total ss w o.1 a.1 h.1))
    | inl d ↦
        let (b, e, done) = o.0 w in
        let w' = (resize s w).0 in
        let still = subst (λ l. AreCurrent l ss) (sym e) (kept_after s (limits w) b ss a.0 h.1) in
        rw d (
          ground (
            arith,
            d,
            h.0,
            ap total e,
            implied _ b done,
            total-insert s.key s.target (limits w),
            decreases_total ss w' o.1 a.1 still,
          ))
  ]

  decreases_floor :
      (t : AutoscaleSession) (ss : List AutoscaleSession) (w : W)
      → All IsOrderly ss
      → Untouched t ss
      → HasFloor (limits w) t
      → HasFloor (limits (run_decreases resize ss w).0) t
  unfolding run_decreases
  decreases_floor t [] w o u h = h
  decreases_floor t (s ∷ ss) w o u h = elim (Bool-cases (is_decrease s)) [
    | inr d ↦ rw d (decreases_floor t ss w o.1 u.1 h)
    | inl d ↦
        let (b, e, done) = o.0 w in
        rw d (
          decreases_floor t ss (resize s w).0 o.1 u.1 (
            subst (λ l. HasFloor l t) (sym e)
              (ground (arith, d, u.0, h, get-insert s.key t.key s.target (limits w)))))
  ]

  floors_decreased :
      (ss es : List AutoscaleSession) (w : W)
      → All IsOrderly ss
      → All (λ e. Untouched e ss) es
      → All (HasFloor (limits w)) es
      → All (HasFloor (limits (run_decreases resize ss w).0)) es
  floors_decreased ss [] w o u h = tt
  floors_decreased ss (e ∷ es) w o u h =
      (decreases_floor e ss w o u.0 h.0, floors_decreased ss es w o u.1 h.1)

  increases_total :
      (ss : List AutoscaleSession) (w : W)
      → All IsOrderly ss
      → IsApart same_session ss
      → All (HasFloor (limits w)) ss
      → total (limits (run_increases resize ss w)) ≤ total (limits w) + raised ss
  unfolding run_increases
  increases_total [] w o a h = omega arith
  increases_total (s ∷ ss) w o a h = elim (Bool-cases (is_increase s)) [
    | inr d ↦ rw d (ground (arith, d, increases_total ss w o.1 a.1 h.1))
    | inl d ↦
        let (b, e, done) = o.0 w in
        let still =
          subst (λ l. All (HasFloor l) ss) (sym e) (floors_after s (limits w) b ss a.0 h.1) in
        rw d (
          ground (
            arith,
            d,
            h.0,
            ap total e,
            total-insert s.key s.target (limits w),
            increases_total ss (resize s w).0 o.1 a.1 still,
          ))
  ]

  -- A decrease of the list, in the state in which its turn comes, is not reported as applied.
  abbrev pub IsRefused : List AutoscaleSession → W → Type 0
  IsRefused [] w = ⊥
  IsRefused (s ∷ ss) w =
      ((is_decrease s ≡ true) × ((is_applied (resize s w).1 ≡ false) ⊎ IsRefused ss (resize s w).0))
      ⊎ ((is_decrease s ≡ false) × IsRefused ss w)

  run_decreases_refused :
      (ss : List AutoscaleSession) (w : W) → IsRefused ss w → (run_decreases resize ss w).1 ≡ false
  unfolding run_decreases
  run_decreases_refused [] w h = elim h [ ]
  run_decreases_refused (s ∷ ss) w (inr (d, h)) = rw d (run_decreases_refused ss w h)
  run_decreases_refused (s ∷ ss) w (inl (d, inl h)) = rw (d, h) refl
  run_decreases_refused (s ∷ ss) w (inl (d, inr h)) =
      rw d (ground (arith, run_decreases_refused ss (resize s w).0 h))

  decreases_get_le :
      (key : String) (ss : List AutoscaleSession) (w : W)
      → All IsOrderly ss
      → IsApart same_session ss
      → AreCurrent (limits w) ss
      → get key (limits (run_decreases resize ss w).0) ≤ get key (limits w)
  unfolding run_decreases
  decreases_get_le key [] w o a h = omega arith
  decreases_get_le key (s ∷ ss) w o a h = elim (Bool-cases (is_decrease s)) [
    | inr d ↦ rw d (decreases_get_le key ss w o.1 a.1 h.1)
    | inl d ↦
        let (b, e, done) = o.0 w in
        let still = subst (λ l. AreCurrent l ss) (sym e) (kept_after s (limits w) b ss a.0 h.1) in
        rw d (
          ground (
            arith,
            d,
            h.0,
            eq_iff s.key key,
            ap (get key) e,
            get-insert s.key key s.target (limits w),
            decreases_get_le key ss (resize s w).0 o.1 a.1 still,
          ))
  ]

module _ (api : Api) (limits : api.World → Dict ℕ) (key_of : String → String)
    (cluster : IsCluster api limits key_of) where
  open api use {World}

  -- The autoscaler's own state and the cluster.
  abbrev pub resize : AutoscaleSession → Controller × World → (Controller × World) × Outcome
  resize s w = let r = resize_state api s w.0 w.1 in ((r.controller, r.world), r.outcome)

  abbrev pub limits_in : Controller × World → Dict ℕ
  limits_in w = limits w.1

  -- The planned sessions have the keys of their Pods, and targets within the policy's range.
  abbrev pub AreNamed : List AutoscaleSession → Type 0
  AreNamed = All λ s. (key_of s.pod.uid ≡ s.key) × (target_of s ≡ s.target)

  resize-IsOrderly :
      (ss : List AutoscaleSession) → AreNamed ss → All (IsOrderly limits_in resize) ss
  resize-IsOrderly [] h = tt
  resize-IsOrderly (s ∷ ss) h = (
    λ w.
        let (b, e, done) = resize_state-MaySet api limits key_of cluster s w.0 w.1 h.0.0 in
        (b, subst (λ t. limits (resize s w).0.1 ≡ set_if b s.key t (limits w.1)) h.0.1 e, done),
    resize-IsOrderly ss h.1,
  )

  module _ (ss : List AutoscaleSession) (c : Controller) (w : World)
      (apart : IsApart same_session ss) (named : AreNamed ss)
      (current : AreCurrent (limits w) ss) where
    -- For planned sessions of different keys, with targets in the policy's range and the limits that
    -- they were planned for, on a cluster where the update of a Pod sets its CPU limit or changes
    -- none: whatever resizes are skipped, are refused, or take effect and are reported as failed,
    -- carrying out a plan that fits raises the limits together by at most the free amount.
    pub apply_node_plan-total-le :
        (free : ℕ)
        → targets ss ≤ currents ss + free
        → total (limits (apply_node_plan resize ss (c, w)).1) ≤ total (limits w) + free
    unfolding apply_node_plan
    apply_node_plan-total-le free fits =
        let o = resize-IsOrderly ss named in
        let after = run_decreases resize ss (c, w) in
        let floors =
          floors_decreased limits_in resize ss ss (c, w) o (Untouched-self ss apart)
            (floors_start (limits w) ss current) in
        ground (
          arith,
          decreases_total limits_in resize ss (c, w) o apart current,
          increases_total limits_in resize ss after.0 o apart floors,
          raised-released ss,
        )

    -- For such sessions on such a cluster: when a reduction of the plan is not reported as applied, no
    -- limit is raised.
    pub apply_node_plan-refused :
        (key : String)
        → IsRefused limits_in resize ss (c, w)
        → get key (limits (apply_node_plan resize ss (c, w)).1) ≤ get key (limits w)
    unfolding apply_node_plan
    apply_node_plan-refused key refused =
        rw (run_decreases_refused limits_in resize ss (c, w) refused) (
          decreases_get_le limits_in resize key ss (c, w) (resize-IsOrderly ss named) apart current)
