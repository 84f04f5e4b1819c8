-- ===== src/Scheduler.antt =====
-- operator/internal/controller/cpu_scheduler.go: the two distributions of CPU millicores.
-- `maxMinCPU` gives a pool out in rounds, `proportionalCPU` takes an amount in proportion.
-- A Go map is a list of entries; where Go iterates over one, any order of the list is covered.
pub mod Rounds
pub mod MaxMin
pub mod Fairness
pub mod Shares
pub mod Proportional
use bosun.Prelude.{
  ℕ, zero, suc, ◌+◌, ◌-◌, ◌*◌, ◌/◌, ◌%◌, min, String, Bool, ◌&&◌, ◌||◌, not, List, [], ◌∷◌, ltb,
  ◌==◌, str_lt, if◌then◌else◌, length,
}
use bosun.Prelude.Sort.{sort}
use bosun.Prelude.Dict.{Dict, get, insert, total}

abbrev pub agent_base_cpu_millicores : ℕ
agent_base_cpu_millicores = 500

pub record CpuDemand : Type 0 where
  pub key : String
  pub limit : ℕ

-- `cmp.Compare(left.key, right.key) <= 0`.
abbrev pub demand_before : CpuDemand → CpuDemand → Bool
demand_before x y = not (str_lt y.key x.key)

-- The variables of one round: the grants so far, what the round used, who stays active.
pub record Round : Type 0 where
  pub result : Dict ℕ
  pub used : ℕ
  pub next : List CpuDemand

abbrev pub grant_of : ℕ → ℕ → ℕ → CpuDemand → Dict ℕ → ℕ
grant_of share remainder i d result =
    min (if ltb i remainder then share + 1 else share) (d.limit - get d.key result)

abbrev pub credit : String → ℕ → Dict ℕ → Dict ℕ
credit key grant result = if ltb 0 grant then insert key (get key result + grant) result else result

-- The inner loop, from index `i` on: entries that are still short of their limit stay active.
unfoldable pub round : ℕ → ℕ → ℕ → List CpuDemand → Dict ℕ → Round
round share remainder i [] result = record { result = result; used = 0; next = [] }
round share remainder i (d ∷ ds) result =
    let grant = grant_of share remainder i d result in
    let result' = credit d.key grant result in
    let rest = round share remainder (suc i) ds result' in
    record {
      result = rest.result;
      used = grant + rest.used;
      next = if ltb (get d.key result') d.limit then d ∷ rest.next else rest.next;
    }

-- The outer loop, on fuel; `used` is at least 1 in each round, so `pool` rounds are enough.
unfoldable pub distribute : ℕ → ℕ → List CpuDemand → Dict ℕ → Dict ℕ
distribute zero pool active result = result
distribute (suc fuel) pool active result =
    let n = length active in
    let r = round (pool / n) (pool % n) 0 active result in
    let rest = distribute fuel (pool - r.used) r.next r.result in
    if pool == 0 || n == 0 then result else if r.used == 0 then r.result else rest

unfoldable pub max_min_cpu : ℕ → List CpuDemand → Dict ℕ
unfolding distribute
max_min_cpu pool demands = distribute pool pool (sort demand_before demands) []

pub record ProportionalShare : Type 0 where
  pub key : String
  pub capacity : ℕ
  pub allocated : ℕ
  pub remainder : ℕ

-- The second loop of `proportionalCPU`: a share for each key with a capacity.
unfoldable pub shares_of : ℕ → ℕ → Dict ℕ → List ProportionalShare
shares_of amount total_capacity [] = []
shares_of amount total_capacity ((key, capacity) ∷ cs) =
    let rest = shares_of amount total_capacity cs in
    if capacity == 0
    then rest
    else record {
      key = key;
      capacity = capacity;
      allocated = amount * capacity / total_capacity;
      remainder = amount * capacity % total_capacity;
    }
      ∷ rest

-- What that loop leaves in `result` and in `used`.
unfoldable pub allocate_shares : List ProportionalShare → Dict ℕ → Dict ℕ
allocate_shares [] result = result
allocate_shares (s ∷ ss) result = allocate_shares ss (insert s.key s.allocated result)

unfoldable pub used_shares : List ProportionalShare → ℕ
used_shares [] = 0
used_shares (s ∷ ss) = s.allocated + used_shares ss

-- Larger remainders first, then by key.
abbrev pub share_before : ProportionalShare → ProportionalShare → Bool
share_before x y =
    ltb y.remainder x.remainder || (x.remainder == y.remainder && not (str_lt y.key x.key))

-- One more millicore for the first share that is below its capacity.
unfoldable pub give_one : List ProportionalShare → Dict ℕ → Dict ℕ
give_one [] result = result
give_one (s ∷ ss) result =
    if ltb (get s.key result) s.capacity
    then insert s.key (get s.key result + 1) result
    else give_one ss result

unfoldable pub give_remaining : ℕ → List ProportionalShare → Dict ℕ → Dict ℕ
give_remaining zero shares result = result
give_remaining (suc remaining) shares result =
    give_remaining remaining shares (give_one shares result)

unfoldable pub proportional_cpu : ℕ → Dict ℕ → Dict ℕ
proportional_cpu amount capacities =
    let total_capacity = total capacities in
    let amount' = min amount total_capacity in
    let shares = shares_of amount' total_capacity capacities in
    if amount' == 0 || total_capacity == 0
    then []
    else give_remaining (amount' - used_shares shares) (sort share_before shares)
        (allocate_shares shares [])
