-- ===== src/Scheduler/Fairness.antt =====
-- How fair `max_min_cpu` is: a demand that is not met in full is behind no other demand by more
-- than one millicore for each round, and there are at most as many rounds as demands.
use native.Mathlib.Nat.{div-add-mod, mod-lt}
use bosun.Prelude.{
  ℕ, zero, suc, ◌+◌, ◌-◌, ◌*◌, ◌/◌, ◌%◌, ◌≤◌, ◌<◌, min, ◌≡◌, refl, sym, subst, String, ◌⊎◌, List,
  [], ◌∷◌, arith, eq_iff, ltb, Bool-cases, inl, inr, length, All, All-map,
}
use bosun.Prelude.Sort.{sort, sort-IsApart, IsApart, length-sort, sort-All, sort-All_inv}
use bosun.Prelude.Dict.{Dict, lookup, get}
use bosun.Scheduler.{CpuDemand, demand_before, grant_of, credit, round, distribute, max_min_cpu}
use bosun.Scheduler.Rounds.{
  same_key, IsShort, round-get_other, get-credit, round-next-IsApart, round-next-IsShort,
  round-used-pos,
}
use bosun.Scheduler.MaxMin.{same_key_sym, IsShort-nil}

-- A round raises no grant by more than a share and one.
round-get-rise :
    (key : String) (share remainder i : ℕ) (ds : List CpuDemand) (result : Dict ℕ)
    → IsApart same_key ds
    → get key (round share remainder i ds result).result ≤ get key result + (share + 1)
unfolding round
round-get-rise key share remainder i [] result a = omega arith
round-get-rise key share remainder i (d ∷ ds) result a =
    let grant = grant_of share remainder i d result in
    let result' = credit d.key grant result in
    ground (
      arith,
      eq_iff d.key key,
      get-credit d.key key grant result,
      round-get_other d share remainder (suc i) ds result' a.0,
      round-get-rise key share remainder (suc i) ds result' a.1,
    )

round-get_mono :
    (key : String) (share remainder i : ℕ) (ds : List CpuDemand) (result : Dict ℕ)
    → get key result ≤ get key (round share remainder i ds result).result
unfolding round
round-get_mono key share remainder i [] result = omega arith
round-get_mono key share remainder i (d ∷ ds) result =
    let grant = grant_of share remainder i d result in
    ground (
      arith,
      get-credit d.key key grant result,
      round-get_mono key share remainder (suc i) ds (credit d.key grant result),
    )

distribute-get_mono :
    (key : String) (fuel pool : ℕ) (ds : List CpuDemand) (result : Dict ℕ)
    → get key result ≤ get key (distribute fuel pool ds result)
unfolding distribute
distribute-get_mono key zero pool ds result = omega arith
distribute-get_mono key (suc fuel) pool ds result =
    let n = length ds in
    let r = round (pool / n) (pool % n) 0 ds result in
    ground (
      arith,
      round-get_mono key (pool / n) (pool % n) 0 ds result,
      distribute-get_mono key fuel (pool - r.used) r.next r.result,
    )

get-credit_mono :
    (key j : String) (grant : ℕ) (result : Dict ℕ) → get j result ≤ get j (credit key grant result)
get-credit_mono key j grant result = ground (arith, get-credit key j grant result)

-- Every demand that stays active got at least the share.
round-next-level :
    (level share remainder i : ℕ) (ds : List CpuDemand) (result : Dict ℕ)
    → IsApart same_key ds
    → All (λ d. level ≤ get d.key result) ds
    → let r = round share remainder i ds result in
      All (λ d. level + share ≤ get d.key r.result) r.next
unfolding round
round-next-level level share remainder i [] result a h = tt
round-next-level level share remainder i (d ∷ ds) result a h =
    let grant = grant_of share remainder i d result in
    let result' = credit d.key grant result in
    let raised = get-credit d.key d.key grant result in
    let same = round-get_other d share remainder (suc i) ds result' a.0 in
    let kept =
      All-map (λ e. level ≤ get e.key result) (λ e. level ≤ get e.key result')
        (λ e le. omega (arith, get-credit_mono d.key e.key grant result)) ds h.1 in
    let rest = round-next-level level share remainder (suc i) ds result' a.1 kept in
    elim (Bool-cases (ltb (get d.key result') d.limit)) [
      | inl e ↦ rw e (ground (arith, eq_iff d.key d.key, raised, same, h.0), rest)
      | inr e ↦ rw e rest
    ]

-- A round drops a demand, or gives out everything.
round-shrinks :
    (share remainder i : ℕ) (ds : List CpuDemand) (result : Dict ℕ)
    → let r = round share remainder i ds result in
      (length r.next < length ds)
      ⊎ ((length r.next ≡ length ds)
          × (r.used ≡ length ds * share + min (remainder - i) (length ds)))
unfolding round
round-shrinks share remainder i [] result = inr (refl, omega arith)
round-shrinks share remainder i (d ∷ ds) result =
    let grant = grant_of share remainder i d result in
    ground (
      arith,
      eq_iff d.key d.key,
      get-credit d.key d.key grant result,
      round-shrinks share remainder (suc i) ds (credit d.key grant result),
    )

-- Who leaves has its limit: a property of the met demands and of those that stay holds of all.
round-All_inv {κ} :
    (P : CpuDemand → Type κ) (share remainder i : ℕ) (ds : List CpuDemand) (result : Dict ℕ)
    → IsApart same_key ds
    → ((d : CpuDemand) → d.limit ≤ get d.key (round share remainder i ds result).result → P d)
    → All P (round share remainder i ds result).next
    → All P ds
unfolding round
round-All_inv P share remainder i [] result a met h = tt
round-All_inv P share remainder i (d ∷ ds) result a met h =
    let result' = credit d.key (grant_of share remainder i d result) result in
    let same = round-get_other d share remainder (suc i) ds result' a.0 in
    elim (Bool-cases (ltb (get d.key result') d.limit)) [
      | inl e ↦
          let h' = (rw e at h) in
          (h'.0, round-All_inv P share remainder (suc i) ds result' a.1 met h'.1)
      | inr e ↦
          let h' = (rw e at h) in
          (
            met d (ground (arith, same)),
            round-All_inv P share remainder (suc i) ds result' a.1 met h',
          )
    ]

-- A demand of the list is met, or no further behind `key` than `slack`.
abbrev pub IsNear : String → ℕ → Dict ℕ → CpuDemand → Type 0
IsNear key slack result d =
    (d.limit ≤ get d.key result) ⊎ (get key result ≤ get d.key result + slack)

distribute-zero :
    (fuel : ℕ) (ds : List CpuDemand) (result : Dict ℕ) → distribute fuel 0 ds result ≡ result
unfolding distribute
distribute-zero zero ds result = refl
distribute-zero (suc fuel) ds result = ground arith

IsNear-start :
    (key : String) (level slack more : ℕ) (result : Dict ℕ) (ds : List CpuDemand)
    → get key result ≤ level + slack
    → All (λ d. level ≤ get d.key result) ds
    → All (IsNear key (slack + more) result) ds
IsNear-start key level slack more result ds h l =
    All-map (λ d. level ≤ get d.key result) _ (λ d low. inr (omega arith)) ds l

-- One turn of the outer loop, when there is a pool and a demand that is not met.
distribute-suc :
    (fuel pool : ℕ) (d : CpuDemand) (ds : List CpuDemand) (result : Dict ℕ)
    → IsShort result d
    → let n = length (d ∷ ds) in
      let r = round (suc pool / n) (suc pool % n) 0 (d ∷ ds) result in
      distribute (suc fuel) (suc pool) (d ∷ ds) result
      ≡ distribute fuel (suc pool - r.used) r.next r.result
unfolding distribute
distribute-suc fuel pool d ds result s =
    ground (arith, round-used-pos (suc pool) d ds result (omega arith) s)

IsNear-weaken :
    (key : String) (slack slack' : ℕ) (result : Dict ℕ) (ds : List CpuDemand)
    → slack ≤ slack'
    → All (IsNear key slack result) ds
    → All (IsNear key slack' result) ds
IsNear-weaken key slack slack' result [] h n = tt
IsNear-weaken key slack slack' result (d ∷ ds) h n =
    (ground (arith, n.0), IsNear-weaken key slack slack' result ds h n.1)

-- The rest of the rounds adds at most one millicore of distance for each active demand.
distribute-IsNear :
    (key : String) (fuel pool level slack : ℕ) (ds : List CpuDemand) (result : Dict ℕ)
    → pool ≤ fuel
    → IsApart same_key ds
    → All (IsShort result) ds
    → All (λ d. level ≤ get d.key result) ds
    → get key result ≤ level + slack
    → All (IsNear key (slack + length ds) (distribute fuel pool ds result)) ds
distribute-IsNear key zero pool level slack ds result f a s l h =
    let e : pool ≡ 0 = omega arith in
    rw (e, distribute-zero zero ds result) (IsNear-start key level slack (length ds) result ds h l)
distribute-IsNear key (suc fuel) pool level slack [] result f a s l h = tt
distribute-IsNear key (suc fuel) zero level slack (d ∷ ds) result f a s l h =
    subst (λ m. All (IsNear key (slack + length (d ∷ ds)) m) (d ∷ ds))
      (sym (distribute-zero (suc fuel) (d ∷ ds) result))
      (IsNear-start key level slack (length (d ∷ ds)) result (d ∷ ds) h l)
distribute-IsNear key (suc fuel) (suc pool) level slack (d ∷ ds) result f a s l h =
    let n = length (d ∷ ds) in
    let share = suc pool / n in
    let remainder = suc pool % n in
    let r = round share remainder 0 (d ∷ ds) result in
    let final = distribute fuel (suc pool - r.used) r.next r.result in
    let raised = round-next-level level share remainder 0 (d ∷ ds) result a l in
    let rise = round-get-rise key share remainder 0 (d ∷ ds) result a in
    let later =
      distribute-IsNear key fuel (suc pool - r.used) (level + share) (slack + 1) r.next r.result
        (omega (arith, round-used-pos (suc pool) d ds result (omega arith) s.0))
        (round-next-IsApart share remainder 0 (d ∷ ds) result a)
        (round-next-IsShort share remainder 0 (d ∷ ds) result a) raised (omega (arith, rise, h)) in
    let near : All (IsNear key (slack + n) final) r.next =
      elim (round-shrinks share remainder 0 (d ∷ ds) result) [
        | inl fewer ↦ IsNear-weaken key _ (slack + n) final r.next (omega arith) later
        | inr (_, all_used) ↦
            let done : suc pool - r.used ≡ 0 = omega (
              arith,
              all_used,
              div-add-mod (suc pool) n,
              mod-lt (suc pool) {m = n} (omega arith),
            ) in
            rw (done, distribute-zero fuel r.next r.result)
              (IsNear-weaken key (slack + 1 + 0) (slack + n) r.result r.next (omega arith) (
                IsNear-start key (level + share) (slack + 1) 0 r.result r.next
                  (omega (arith, rise, h)) raised))
      ] in
    subst (λ m. All (IsNear key (slack + n) m) (d ∷ ds))
      (sym (distribute-suc fuel pool d ds result s.0))
      (round-All_inv (IsNear key (slack + n) final) share remainder 0 (d ∷ ds) result a
        (λ e met.
          inl (omega (arith, distribute-get_mono e.key fuel (suc pool - r.used) r.next r.result)))
        near)

-- For demands of different keys, none of them zero: a demand that is not met in full is behind
-- no key by more than one millicore for each demand.
pub max_min_cpu-IsNear :
    (key : String) (pool : ℕ) (demands : List CpuDemand)
    → IsApart same_key demands
    → All (λ d. 0 < d.limit) demands
    → All (IsNear key (length demands) (max_min_cpu pool demands)) demands
unfolding max_min_cpu lookup
max_min_cpu-IsNear key pool demands a h =
    let active = sort demand_before demands in
    let short = IsShort-nil active (sort-All demand_before (λ d. 0 < d.limit) demands h) in
    sort-All_inv demand_before (IsNear key (length demands) (max_min_cpu pool demands)) demands (
      IsNear-weaken key (0 + length active) (length demands) (max_min_cpu pool demands) active
        (omega (arith, length-sort demand_before demands))
        (distribute-IsNear key pool pool 0 0 active [] (omega arith)
          (sort-IsApart demand_before same_key same_key_sym demands a) short
          (All-map (IsShort []) (λ d. 0 ≤ get d.key []) (λ d _. omega arith) active short)
          (omega arith)))

-- With a share of at least one, a round gives something to each demand.
round-get-pos :
    (share remainder i : ℕ) (ds : List CpuDemand) (result : Dict ℕ)
    → 0 < share
    → IsApart same_key ds
    → All (λ d. min 1 d.limit ≤ get d.key (round share remainder i ds result).result) ds
unfolding round
round-get-pos share remainder i [] result h a = tt
round-get-pos share remainder i (d ∷ ds) result h a =
    let grant = grant_of share remainder i d result in
    let result' = credit d.key grant result in
    (
      ground (
        arith,
        eq_iff d.key d.key,
        get-credit d.key d.key grant result,
        round-get_mono d.key share remainder (suc i) ds result',
      ),
      round-get-pos share remainder (suc i) ds result' h a.1,
    )

distribute-get-pos :
    (fuel pool : ℕ) (ds : List CpuDemand)
    → pool ≤ fuel
    → length ds ≤ pool
    → IsApart same_key ds
    → All (λ d. min 1 d.limit ≤ get d.key (distribute fuel pool ds [])) ds
unfolding distribute
distribute-get-pos fuel pool [] f h a = tt
distribute-get-pos zero pool (d ∷ ds) f h a = absurd (omega arith)
distribute-get-pos (suc fuel) pool (d ∷ ds) f h a =
    let n = length (d ∷ ds) in
    let share : 0 < pool / n =
      grind (arith, div-add-mod pool n, mod-lt pool {m = n} (omega arith)) in
    let r = round (pool / n) (pool % n) 0 (d ∷ ds) [] in
    All-map (λ e. min 1 e.limit ≤ get e.key r.result)
      (λ e. min 1 e.limit ≤ get e.key (distribute (suc fuel) pool (d ∷ ds) []))
      (λ e h'. ground (arith, distribute-get_mono e.key fuel (pool - r.used) r.next r.result))
      (d ∷ ds) (round-get-pos (pool / n) (pool % n) 0 (d ∷ ds) [] share a)

-- A pool with a millicore for each demand leaves no demand without a grant.
pub max_min_cpu-pos :
    (pool : ℕ) (demands : List CpuDemand)
    → length demands ≤ pool
    → IsApart same_key demands
    → All (λ d. min 1 d.limit ≤ get d.key (max_min_cpu pool demands)) demands
unfolding max_min_cpu
max_min_cpu-pos pool demands h a =
    sort-All_inv demand_before (λ d. min 1 d.limit ≤ get d.key (max_min_cpu pool demands)) demands
      (distribute-get-pos pool pool (sort demand_before demands) (omega arith)
        (omega (arith, length-sort demand_before demands))
        (sort-IsApart demand_before same_key same_key_sym demands a))
