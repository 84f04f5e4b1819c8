-- ===== src/Autoscaler/Plan.antt =====
-- operator/internal/controller/resource_autoscaler.go: the plan of one Node. The Node's sessions are
-- one list; a Go slice of pointers into it (`statesAtPriority`) is a test on its entries, so that an
-- update through the pointer is an update of the list.
pub mod Reclaim
pub mod Accounts
pub mod Phase
pub mod Conservation
use bosun.Prelude.{
  ℕ, ◌+◌, ◌-◌, min, String, Bool, true, false, not, ◌&&◌, none, some, List, [], ◌∷◌, ltb, ◌==◌,
  str_eq, str_lt, if◌then◌else◌, any, map,
}
use bosun.Prelude.Sort.{sort}
use bosun.Prelude.Dict.{Dict, lookup, insert, get}
use bosun.Scheduler.{CpuDemand, agent_base_cpu_millicores, max_min_cpu, proportional_cpu}
use bosun.Cluster.{AgentSession, Pod}

pub record AutoscaleSession : Type 0 where
  pub key : String
  pub session : AgentSession
  pub pod : Pod
  pub priority : ℕ
  pub current : ℕ
  pub target : ℕ
  pub demand : ℕ
  pub scale_up : Bool
  pub needs_sync : Bool

unfoldable pub priority_rank : String → ℕ
priority_rank class_name =
    if str_eq class_name "bosun-high" then 3 else if str_eq class_name "bosun-normal" then 2 else 1

abbrev pub at_priority : ℕ → AutoscaleSession → Bool
at_priority p s = s.priority == p

abbrev pub nobody : AutoscaleSession → Bool
nobody s = false

unfoldable pub has_scale_up : (AutoscaleSession → Bool) → List AutoscaleSession → Bool
has_scale_up group states = any (λ s. group s && s.scale_up) states

abbrev pub extra : ℕ → ℕ
extra limit = limit - agent_base_cpu_millicores

-- A session without extra CPU that asks for none takes no part.
abbrev pub takes_part : (AutoscaleSession → Bool) → AutoscaleSession → Bool
takes_part group s = group s && not (extra s.target == 0 && not s.scale_up)

unfoldable pub current_extras : (AutoscaleSession → Bool) → List AutoscaleSession → ℕ
current_extras group [] = 0
current_extras group (s ∷ ss) =
    (if takes_part group s then extra s.target else 0) + current_extras group ss

unfoldable pub demand_extras : (AutoscaleSession → Bool) → List AutoscaleSession → ℕ
demand_extras group [] = 0
demand_extras group (s ∷ ss) =
    (if takes_part group s then extra s.demand else 0) + demand_extras group ss

unfoldable pub demands_of : (AutoscaleSession → Bool) → List AutoscaleSession → List CpuDemand
demands_of group [] = []
demands_of group (s ∷ ss) =
    let rest = demands_of group ss in
    if takes_part group s then record { key = s.key; limit = extra s.demand } ∷ rest else rest

unfoldable pub reclaimable_extras : (AutoscaleSession → Bool) → List AutoscaleSession → ℕ
reclaimable_extras reclaimable [] = 0
reclaimable_extras reclaimable (s ∷ ss) =
    (if reclaimable s then extra s.target else 0) + reclaimable_extras reclaimable ss

-- The loop that writes the allocations into the targets of the group.
abbrev pub allocate_one : (AutoscaleSession → Bool) → Dict ℕ → AutoscaleSession → AutoscaleSession
allocate_one group allocations s =
    if group s
    then elim (lookup s.key allocations) [
      | none ↦ s
      | some n ↦ record s { target = agent_base_cpu_millicores + n }
    ]
    else s

unfoldable pub allocate :
    (AutoscaleSession → Bool) → Dict ℕ → List AutoscaleSession → List AutoscaleSession
allocate group allocations states = map (allocate_one group allocations) states

-- `newExtras` of that loop.
unfoldable pub new_extras : (AutoscaleSession → Bool) → Dict ℕ → List AutoscaleSession → ℕ
new_extras group allocations [] = 0
new_extras group allocations (s ∷ ss) =
    (if group s then get s.key allocations else 0) + new_extras group allocations ss

unfoldable pub capacities_of : (AutoscaleSession → Bool) → List AutoscaleSession → Dict ℕ → Dict ℕ
capacities_of reclaimable [] m = m
capacities_of reclaimable (s ∷ ss) m =
    capacities_of reclaimable ss (if reclaimable s then insert s.key (extra s.target) m else m)

-- `state.target -= amount` for the first session of that key.
unfoldable pub reclaim_one :
    (AutoscaleSession → Bool) → String → ℕ → List AutoscaleSession → List AutoscaleSession
reclaim_one reclaimable key amount [] = []
reclaim_one reclaimable key amount (s ∷ ss) =
    if reclaimable s && str_eq s.key key
    then record s { target = s.target - amount } ∷ ss
    else s ∷ reclaim_one reclaimable key amount ss

unfoldable pub reclaim_all :
    (AutoscaleSession → Bool) → Dict ℕ → List AutoscaleSession → List AutoscaleSession
reclaim_all reclaimable [] states = states
reclaim_all reclaimable ((key, amount) ∷ m) states =
    reclaim_all reclaimable m (reclaim_one reclaimable key amount states)

-- The pool of `planFairPriority`, what it gives out, and what it takes back.
unfoldable pub pool_of :
    (group reclaimable : AutoscaleSession → Bool) → ℕ → Bool → List AutoscaleSession → ℕ
unfolding current_extras demand_extras reclaimable_extras
pool_of group reclaimable free allow_reclaim states =
    min
      (current_extras group states
        + free
        + (if allow_reclaim then reclaimable_extras reclaimable states else 0))
      (demand_extras group states)

unfoldable pub plan_fair_priority :
    (group reclaimable : AutoscaleSession → Bool)
    → ℕ
    → Bool
    → List AutoscaleSession
    → List AutoscaleSession × ℕ
plan_fair_priority group reclaimable free allow_reclaim states =
    let pool = pool_of group reclaimable free allow_reclaim states in
    let allocations = max_min_cpu pool (demands_of group states) in
    let current = current_extras group states in
    let new = new_extras group allocations states in
    let allocated = allocate group allocations states in
    let reclaim = new - (current + free) in
    let reclaims = proportional_cpu reclaim (capacities_of reclaimable allocated []) in
    (
      if ltb 0 reclaim then reclaim_all reclaimable reclaims allocated else allocated,
      free + current + reclaim - new,
    )

-- What the explicit reductions release.
unfoldable pub released : List AutoscaleSession → ℕ
released [] = 0
released (s ∷ ss) = (if ltb s.target s.current then s.current - s.target else 0) + released ss

abbrev pub session_before : AutoscaleSession → AutoscaleSession → Bool
session_before x y = not (str_lt y.key x.key)

unfoldable pub plan_node : ℕ → List AutoscaleSession → List AutoscaleSession
unfolding released has_scale_up
plan_node free states =
    let states' = sort session_before states in
    let free' = free + released states' in
    let (high_planned, free'') =
      if has_scale_up (at_priority 3) states'
      then plan_fair_priority (at_priority 3) (at_priority 2) free' true states'
      else (states', free') in
    if has_scale_up (at_priority 2) high_planned
    then (plan_fair_priority (at_priority 2) nobody free'' false high_planned).0
    else high_planned
