-- ===== src/Scheduler/MaxMin.antt =====
-- `max_min_cpu` gives out the whole pool up to the demands, and never more than a demand's limit.
use bosun.Prelude.{
  ℕ, zero, suc, ◌+◌, ◌-◌, ◌/◌, ◌%◌, ◌≤◌, ◌<◌, min, ◌≡◌, refl, String, false, List, [], ◌∷◌, arith,
  eq_iff, str_eq, if◌then◌else◌, length, All, All-map,
}
use bosun.Prelude.Sort.{sort, sum_by-sort, sort-IsApart, IsApart, sort-All}
use bosun.Prelude.Dict.{Dict, lookup, get, total}
use bosun.Scheduler.{CpuDemand, demand_before, grant_of, credit, round, distribute, max_min_cpu}
use bosun.Scheduler.Rounds.{
  same_key, limits, room, IsShort, round-total, round-room, round-next-All, round-next-IsApart,
  round-next-IsShort, round-used-pos, round-used-le_pool, get-credit,
}

-- Enough fuel gives out the pool, up to the room of the active demands.
distribute-total :
    (fuel pool : ℕ) (ds : List CpuDemand) (result : Dict ℕ)
    → pool ≤ fuel
    → IsApart same_key ds
    → All (IsShort result) ds
    → total (distribute fuel pool ds result) ≡ total result + min pool (room result ds)
unfolding distribute
distribute-total zero pool ds result h a s = omega arith
distribute-total (suc fuel) pool [] result h a s = ground arith
distribute-total (suc fuel) zero (d ∷ ds) result h a s = ground arith
distribute-total (suc fuel) (suc pool) (d ∷ ds) result h a s =
    let n = length (d ∷ ds) in
    let share = suc pool / n in
    let remainder = suc pool % n in
    let r = round share remainder 0 (d ∷ ds) result in
    ground (
      arith,
      round-used-pos (suc pool) d ds result (omega arith) s.0,
      round-used-le_pool (suc pool) d ds result,
      round-total share remainder 0 (d ∷ ds) result,
      round-room share remainder 0 (d ∷ ds) result a,
      distribute-total fuel (suc pool - r.used) r.next r.result
          (omega (arith, round-used-pos (suc pool) d ds result (omega arith) s.0))
          (round-next-IsApart share remainder 0 (d ∷ ds) result a)
          (round-next-IsShort share remainder 0 (d ∷ ds) result a),
    )

pub same_key_sym : (x y : CpuDemand) → same_key x y ≡ false → same_key y x ≡ false
same_key_sym x y h = ground (arith, eq_iff x.key y.key, eq_iff y.key x.key)

pub IsShort-nil : (ds : List CpuDemand) → All (λ d. 0 < d.limit) ds → All (IsShort []) ds
unfolding lookup
IsShort-nil [] h = tt
IsShort-nil (d ∷ ds) h = (h.0, IsShort-nil ds h.1)

room-nil : (ds : List CpuDemand) → room [] ds ≡ limits ds
unfolding lookup
room-nil [] = refl
room-nil (d ∷ ds) = omega (arith, room-nil ds)

-- For demands of different keys, none of them zero, exactly the pool is given out, or what all
-- demands together ask for where that is less.
pub max_min_cpu-total :
    (pool : ℕ) (demands : List CpuDemand)
    → IsApart same_key demands
    → All (λ d. 0 < d.limit) demands
    → total (max_min_cpu pool demands) ≡ min pool (limits demands)
unfolding max_min_cpu
max_min_cpu-total pool demands a h =
    let active = sort demand_before demands in
    omega (
      arith,
      distribute-total pool pool active [] (omega arith)
          (sort-IsApart demand_before same_key same_key_sym demands a)
          (IsShort-nil active (sort-All demand_before (λ d. 0 < d.limit) demands h)),
      room-nil active,
      sum_by-sort demand_before (λ d. d.limit) demands,
    )

-- Where the demands name `key`, they ask for at most `cap`.
abbrev pub DemandCaps : String → ℕ → List CpuDemand → Type 0
DemandCaps key cap = All λ d. (if str_eq d.key key then d.limit else 0) ≤ cap

round-get-le :
    (key : String) (cap share remainder i : ℕ) (ds : List CpuDemand) (result : Dict ℕ)
    → DemandCaps key cap ds
    → get key result ≤ cap
    → get key (round share remainder i ds result).result ≤ cap
unfolding round
round-get-le key cap share remainder i [] result c h = h
round-get-le key cap share remainder i (d ∷ ds) result c h =
    let grant = grant_of share remainder i d result in
    round-get-le key cap share remainder (suc i) ds (credit d.key grant result) c.1
      (ground (arith, eq_iff d.key key, get-credit d.key key grant result, c.0))

distribute-get-le :
    (key : String) (cap fuel pool : ℕ) (ds : List CpuDemand) (result : Dict ℕ)
    → DemandCaps key cap ds
    → get key result ≤ cap
    → get key (distribute fuel pool ds result) ≤ cap
unfolding distribute
distribute-get-le key cap zero pool ds result c h = h
distribute-get-le key cap (suc fuel) pool ds result c h =
    let n = length ds in
    let r = round (pool / n) (pool % n) 0 ds result in
    let step = round-get-le key cap (pool / n) (pool % n) 0 ds result c h in
    ground (
      arith,
      step,
      distribute-get-le key cap fuel (pool - r.used) r.next r.result
          (round-next-All _ (pool / n) (pool % n) 0 ds result c) step,
    )

-- No key gets more than any demand that bounds all demands under that key.
pub max_min_cpu-le :
    (key : String) (cap pool : ℕ) (demands : List CpuDemand)
    → DemandCaps key cap demands
    → get key (max_min_cpu pool demands) ≤ cap
unfolding max_min_cpu lookup
max_min_cpu-le key cap pool demands c =
    distribute-get-le key cap pool pool (sort demand_before demands) []
      (sort-All demand_before _ demands c) (omega arith)

DemandCaps-apart :
    (k : CpuDemand) (cap : ℕ) (ds : List CpuDemand)
    → All (λ e. same_key k e ≡ false) ds
    → DemandCaps k.key cap ds
DemandCaps-apart k cap [] h = tt
DemandCaps-apart k cap (d ∷ ds) h =
    (ground (arith, eq_iff k.key d.key, eq_iff d.key k.key, h.0), DemandCaps-apart k cap ds h.1)

DemandCaps-tail :
    (x : CpuDemand) (ds es : List CpuDemand)
    → All (λ e. same_key x e ≡ false) es
    → All (λ e. DemandCaps e.key e.limit ds) es
    → All (λ e. DemandCaps e.key e.limit (x ∷ ds)) es
DemandCaps-tail x ds [] h c = tt
DemandCaps-tail x ds (e ∷ es) h c = ((ground (arith, h.0), c.0), DemandCaps-tail x ds es h.1 c.1)

DemandCaps-self :
    (ds : List CpuDemand) → IsApart same_key ds → All (λ e. DemandCaps e.key e.limit ds) ds
DemandCaps-self [] a = tt
DemandCaps-self (d ∷ ds) a = (
  (ground (arith, eq_iff d.key d.key), DemandCaps-apart d d.limit ds a.0),
  DemandCaps-tail d ds ds a.0 (DemandCaps-self ds a.1),
)

-- For demands of different keys, no demand gets more than its limit.
pub max_min_cpu-le_limit :
    (pool : ℕ) (demands : List CpuDemand)
    → IsApart same_key demands
    → All (λ d. get d.key (max_min_cpu pool demands) ≤ d.limit) demands
max_min_cpu-le_limit pool demands a =
    All-map (λ d. DemandCaps d.key d.limit demands) _
      (λ d c. max_min_cpu-le d.key d.limit pool demands c) demands (DemandCaps-self demands a)

-- The grants never exceed the pool, whatever the demands are.
distribute-total-le :
    (fuel pool : ℕ) (ds : List CpuDemand) (result : Dict ℕ)
    → total (distribute fuel pool ds result) ≤ total result + pool
unfolding distribute
distribute-total-le zero pool ds result = omega arith
distribute-total-le (suc fuel) pool [] result = ground arith
distribute-total-le (suc fuel) pool (d ∷ ds) result =
    let n = length (d ∷ ds) in
    let r = round (pool / n) (pool % n) 0 (d ∷ ds) result in
    ground (
      arith,
      round-used-le_pool pool d ds result,
      round-total (pool / n) (pool % n) 0 (d ∷ ds) result,
      distribute-total-le fuel (pool - r.used) r.next r.result,
    )

pub max_min_cpu-total-le :
    (pool : ℕ) (demands : List CpuDemand) → total (max_min_cpu pool demands) ≤ pool
unfolding max_min_cpu
max_min_cpu-total-le pool demands =
    omega (arith, distribute-total-le pool pool (sort demand_before demands) [])
