-- ===== src/Autoscaler/Plan/Reclaim.antt =====
-- What the plan takes back from the reclaimable sessions, and what its allocations add.
use bosun.Prelude.{
  ℕ, ◌+◌, ◌-◌, ◌≤◌, ◌≡◌, refl, String, Bool, false, ◌&&◌, List, [], ◌∷◌, arith, eq_iff, str_eq,
  if◌then◌else◌, Bool-cases, inl, inr, length, sum_by, All,
}
use bosun.Prelude.Sort.{IsApart}
use bosun.Prelude.Dict.{
  Dict, lookup, insert, get, total, get-insert, total-insert, HasKeys, insert-HasKeys, All-get,
  same_entry,
}
use bosun.Scheduler.{agent_base_cpu_millicores, proportional_cpu}
use bosun.Scheduler.Proportional.{
  proportional_cpu-total, proportional_cpu-le_capacity, proportional_cpu-HasKeys,
}
use bosun.Autoscaler.Plan.{
  AutoscaleSession, extra, new_extras, capacities_of, reclaim_one, reclaim_all, reclaimable_extras,
}

abbrev pub same_session : AutoscaleSession → AutoscaleSession → Bool
same_session x y = str_eq x.key y.key

abbrev pub targets : List AutoscaleSession → ℕ
targets = sum_by (λ s. s.target)

-- A session has its base allotment, and no more than it asks for.
abbrev pub IsReady : AutoscaleSession → Type 0
IsReady s = (agent_base_cpu_millicores ≤ s.target) × (s.target ≤ s.demand)

-- The extra CPU of the first reclaimable session of that key.
pub available : (AutoscaleSession → Bool) → String → List AutoscaleSession → ℕ
available r key [] = 0
available r key (s ∷ ss) = if r s && str_eq s.key key then extra s.target else available r key ss

module _ (r : AutoscaleSession → Bool) where
  reclaim_one-targets :
      (key : String) (amount : ℕ) (ss : List AutoscaleSession)
      → amount ≤ available r key ss
      → targets (reclaim_one r key amount ss) + amount ≡ targets ss
  unfolding reclaim_one available
  reclaim_one-targets key amount [] h = omega arith
  reclaim_one-targets key amount (s ∷ ss) h = ground (arith, reclaim_one-targets key amount ss)

module _ (r : AutoscaleSession → Bool)
    (steady : (s : AutoscaleSession) (t : ℕ) → r (record s { target = t }) ≡ r s) where
  reclaim_one-available :
      (key other : String) (amount : ℕ) (ss : List AutoscaleSession)
      → str_eq key other ≡ false
      → available r other (reclaim_one r key amount ss) ≡ available r other ss
  unfolding reclaim_one available
  reclaim_one-available key other amount [] h = refl
  reclaim_one-available key other amount (s ∷ ss) h = ground (
    arith,
    eq_iff s.key key,
    eq_iff s.key other,
    eq_iff key other,
    steady s (s.target - amount),
    reclaim_one-available key other amount ss h,
  )

  fits_after :
      (key : String) (amount : ℕ) (m : Dict ℕ) (ss : List AutoscaleSession)
      → All (λ e. same_entry (key, amount) e ≡ false) m
      → All (λ e. e.1 ≤ available r e.0 ss) m
      → All (λ e. e.1 ≤ available r e.0 (reclaim_one r key amount ss)) m
  fits_after key amount [] ss a h = tt
  fits_after key amount ((j, v) ∷ m) ss a h = (
    omega (arith, h.0, reclaim_one-available key j amount ss a.0),
    fits_after key amount m ss a.1 h.1,
  )

  reclaim_one-IsReady :
      (key : String) (amount : ℕ) (ss : List AutoscaleSession)
      → amount ≤ available r key ss
      → All IsReady ss
      → All IsReady (reclaim_one r key amount ss)
  unfolding reclaim_one available
  reclaim_one-IsReady key amount [] h v = tt
  reclaim_one-IsReady key amount (s ∷ ss) h v = elim (Bool-cases (r s && str_eq s.key key)) [
    | inl e ↦ rw e ((ground arith, ground arith), v.1)
    | inr e ↦ rw e (v.0, reclaim_one-IsReady key amount ss (ground arith) v.1)
  ]

  pub reclaim_all-IsReady :
      (m : Dict ℕ) (ss : List AutoscaleSession)
      → HasKeys m
      → All (λ e. e.1 ≤ available r e.0 ss) m
      → All IsReady ss
      → All IsReady (reclaim_all r m ss)
  unfolding reclaim_all
  reclaim_all-IsReady [] ss a h v = v
  reclaim_all-IsReady ((key, amount) ∷ m) ss a h v =
      reclaim_all-IsReady m (reclaim_one r key amount ss) a.1 (fits_after key amount m ss a.0 h.1)
        (reclaim_one-IsReady key amount ss h.0 v)

  -- What is reclaimed leaves the targets.
  pub reclaim_all-targets :
      (m : Dict ℕ) (ss : List AutoscaleSession)
      → HasKeys m
      → All (λ e. e.1 ≤ available r e.0 ss) m
      → targets (reclaim_all r m ss) + total m ≡ targets ss
  unfolding reclaim_all
  reclaim_all-targets [] ss a h = omega arith
  reclaim_all-targets ((key, amount) ∷ m) ss a h = omega (
    arith,
    reclaim_one-targets r key amount ss h.0,
    reclaim_all-targets m (reclaim_one r key amount ss) a.1 (fits_after key amount m ss a.0 h.1),
  )

module _ (r : AutoscaleSession → Bool) where
  available-absent :
      (s : AutoscaleSession) (ss : List AutoscaleSession)
      → All (λ t. same_session s t ≡ false) ss
      → available r s.key ss ≡ 0
  unfolding available
  available-absent s [] h = refl
  available-absent s (t ∷ ss) h =
      ground (arith, eq_iff s.key t.key, eq_iff t.key s.key, available-absent s ss h.1)

  capacities_of-get :
      (key : String) (ss : List AutoscaleSession) (m : Dict ℕ)
      → IsApart same_session ss
      → get key (capacities_of r ss m) ≤ get key m + available r key ss
  unfolding capacities_of available
  capacities_of-get key [] m a = omega arith
  capacities_of-get key (s ∷ ss) m a = ground (
    arith,
    eq_iff s.key key,
    get-insert s.key key (extra s.target) m,
    available-absent s ss a.0,
    capacities_of-get key ss (if r s then insert s.key (extra s.target) m else m) a.1,
  )

  capacities_of-HasKeys :
      (ss : List AutoscaleSession) (m : Dict ℕ) → HasKeys m → HasKeys (capacities_of r ss m)
  unfolding capacities_of
  capacities_of-HasKeys [] m a = a
  capacities_of-HasKeys (s ∷ ss) m a = elim (Bool-cases (r s)) [
    | inl e ↦ rw e (capacities_of-HasKeys ss _ (insert-HasKeys s.key (extra s.target) m a))
    | inr e ↦ rw e (capacities_of-HasKeys ss m a)
  ]

  fresh_after :
      (s : AutoscaleSession) (v : ℕ) (m : Dict ℕ) (ss : List AutoscaleSession)
      → All (λ t. same_session s t ≡ false) ss
      → All (λ t. get t.key m ≡ 0) ss
      → All (λ t. get t.key (if r s then insert s.key v m else m) ≡ 0) ss
  fresh_after s v m [] a h = tt
  fresh_after s v m (t ∷ ss) a h =
      (ground (arith, get-insert s.key t.key v m, a.0, h.0), fresh_after s v m ss a.1 h.1)

  capacities_of-total :
      (ss : List AutoscaleSession) (m : Dict ℕ)
      → IsApart same_session ss
      → All (λ t. get t.key m ≡ 0) ss
      → total (capacities_of r ss m) ≡ total m + reclaimable_extras r ss
  unfolding capacities_of reclaimable_extras
  capacities_of-total [] m a h = omega arith
  capacities_of-total (s ∷ ss) m a h =
      let m' = if r s then insert s.key (extra s.target) m else m in
      let rest = capacities_of-total ss m' a.1 (fresh_after s (extra s.target) m ss a.0 h.1) in
      ground (arith, h.0, total-insert s.key (extra s.target) m, rest)

  fresh-nil : (ss : List AutoscaleSession) → All (λ t. get t.key [] ≡ 0) ss
  unfolding lookup
  fresh-nil [] = tt
  fresh-nil (s ∷ ss) = (refl, fresh-nil ss)

-- Reclaiming an amount that the sessions have in extra CPU lowers the targets by that amount.
module _ (r : AutoscaleSession → Bool)
    (steady : (s : AutoscaleSession) (t : ℕ) → r (record s { target = t }) ≡ r s) where
  reclaims_fit :
      (amount : ℕ) (ss : List AutoscaleSession)
      → IsApart same_session ss
      → All (λ e. e.1 ≤ available r e.0 ss) (proportional_cpu amount (capacities_of r ss []))
  unfolding lookup
  reclaims_fit amount ss a =
      let capacities = capacities_of r ss [] in
      All-get (λ k. available r k ss) (proportional_cpu amount capacities)
        (proportional_cpu-HasKeys amount capacities)
        λ k. omega (
          arith,
          proportional_cpu-le_capacity k amount capacities (capacities_of-HasKeys r ss [] tt),
          capacities_of-get r k ss [] a,
        )

  pub reclaim-targets :
      (amount : ℕ) (ss : List AutoscaleSession)
      → IsApart same_session ss
      → amount ≤ reclaimable_extras r ss
      → targets (reclaim_all r (proportional_cpu amount (capacities_of r ss [])) ss) + amount
        ≡ targets ss
  reclaim-targets amount ss a h =
      let capacities = capacities_of r ss [] in
      omega (
        arith,
        reclaim_all-targets r steady (proportional_cpu amount capacities) ss
            (proportional_cpu-HasKeys amount capacities) (reclaims_fit amount ss a),
        proportional_cpu-total amount capacities (capacities_of-HasKeys r ss [] tt),
        capacities_of-total r ss [] a (fresh-nil r ss),
      )

  pub reclaim-IsReady :
      (amount : ℕ) (ss : List AutoscaleSession)
      → IsApart same_session ss
      → All IsReady ss
      → All IsReady (reclaim_all r (proportional_cpu amount (capacities_of r ss [])) ss)
  reclaim-IsReady amount ss a v =
      reclaim_all-IsReady r steady (proportional_cpu amount (capacities_of r ss [])) ss
        (proportional_cpu-HasKeys amount (capacities_of r ss [])) (reclaims_fit amount ss a) v

-- What sessions of different keys are granted is at most the total of the grants.
module _ (group : AutoscaleSession → Bool) where
  new_extras-absent :
      (key : String) (v : ℕ) (m : Dict ℕ) (ss : List AutoscaleSession)
      → All (λ t. str_eq key t.key ≡ false) ss
      → new_extras group ((key, v) ∷ m) ss ≡ new_extras group m ss
  unfolding new_extras lookup
  new_extras-absent key v m [] h = refl
  new_extras-absent key v m (s ∷ ss) h = ground (arith, h.0, new_extras-absent key v m ss h.1)

  new_extras-cons :
      (key : String) (v : ℕ) (m : Dict ℕ) (ss : List AutoscaleSession)
      → IsApart same_session ss
      → new_extras group ((key, v) ∷ m) ss ≤ v + new_extras group m ss
  unfolding new_extras lookup
  new_extras-cons key v m [] a = omega arith
  new_extras-cons key v m (s ∷ ss) a = elim (Bool-cases (str_eq key s.key)) [
    | inl e ↦
        rw e (ground (arith, new_extras-absent key v m ss (rw (← (eq_iff key s.key).0 e) at a.0)))
    | inr e ↦ rw e (ground (arith, new_extras-cons key v m ss a.1))
  ]

  new_extras-nil : (ss : List AutoscaleSession) → new_extras group [] ss ≡ 0
  unfolding new_extras lookup
  new_extras-nil [] = refl
  new_extras-nil (s ∷ ss) = ground (arith, new_extras-nil ss)

  pub new_extras-le :
      (m : Dict ℕ) (ss : List AutoscaleSession)
      → IsApart same_session ss
      → new_extras group m ss ≤ total m
  new_extras-le [] ss a = omega (arith, new_extras-nil ss)
  new_extras-le ((key, v) ∷ m) ss a =
      omega (arith, new_extras-cons key v m ss a, new_extras-le m ss a)

-- Reclaiming changes no key.
module _ (r : AutoscaleSession → Bool) where
  reclaim_one-apart :
      (k : AutoscaleSession) (key : String) (amount : ℕ) (ss : List AutoscaleSession)
      → All (λ t. same_session k t ≡ false) ss
      → All (λ t. same_session k t ≡ false) (reclaim_one r key amount ss)
  unfolding reclaim_one
  reclaim_one-apart k key amount [] h = tt
  reclaim_one-apart k key amount (s ∷ ss) h = elim (Bool-cases (r s && str_eq s.key key)) [
    | inl e ↦ rw e h
    | inr e ↦ rw e (h.0, reclaim_one-apart k key amount ss h.1)
  ]

  reclaim_one-IsApart :
      (key : String) (amount : ℕ) (ss : List AutoscaleSession)
      → IsApart same_session ss
      → IsApart same_session (reclaim_one r key amount ss)
  unfolding reclaim_one
  reclaim_one-IsApart key amount [] a = tt
  reclaim_one-IsApart key amount (s ∷ ss) a = elim (Bool-cases (r s && str_eq s.key key)) [
    | inl e ↦ rw e a
    | inr e ↦ rw e (reclaim_one-apart s key amount ss a.0, reclaim_one-IsApart key amount ss a.1)
  ]

  pub reclaim_all-IsApart :
      (m : Dict ℕ) (ss : List AutoscaleSession)
      → IsApart same_session ss
      → IsApart same_session (reclaim_all r m ss)
  unfolding reclaim_all
  reclaim_all-IsApart [] ss a = a
  reclaim_all-IsApart ((key, amount) ∷ m) ss a =
      reclaim_all-IsApart m _ (reclaim_one-IsApart key amount ss a)

  reclaim_one-length :
      (key : String) (amount : ℕ) (ss : List AutoscaleSession)
      → length (reclaim_one r key amount ss) ≡ length ss
  unfolding reclaim_one
  reclaim_one-length key amount [] = refl
  reclaim_one-length key amount (s ∷ ss) = ground (arith, reclaim_one-length key amount ss)

  pub reclaim_all-length :
      (m : Dict ℕ) (ss : List AutoscaleSession) → length (reclaim_all r m ss) ≡ length ss
  unfolding reclaim_all
  reclaim_all-length [] ss = refl
  reclaim_all-length ((key, amount) ∷ m) ss =
      omega (
        arith,
        reclaim_one-length key amount ss,
        reclaim_all-length m (reclaim_one r key amount ss),
      )
