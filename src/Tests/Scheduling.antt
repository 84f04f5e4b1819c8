-- ===== src/Tests/Scheduling.antt =====
-- The two distributions of cpu_scheduler.go on three sessions.
use bosun.Prelude.{ℕ, ◌≤◌, ◌≡◌, refl, min, arith, List, [], ◌∷◌, All}
use bosun.Prelude.Sort.{sort}
use bosun.Prelude.Dict.{Dict, get, total, lookup, insert}
use bosun.Scheduler.{
  CpuDemand, round, distribute, max_min_cpu, proportional_cpu, shares_of, allocate_shares,
  used_shares, give_one, give_remaining,
}
use bosun.Scheduler.Rounds.{limits}
use bosun.Scheduler.MaxMin.{max_min_cpu-total, max_min_cpu-le_limit}
use bosun.Scheduler.Fairness.{IsNear, max_min_cpu-IsNear, max_min_cpu-pos}
use bosun.Scheduler.Proportional.{proportional_cpu-total, proportional_cpu-le_capacity}

abbrev three : List CpuDemand
three =
    record { key = "user/a"; limit = 100 }
    ∷ record { key = "user/b"; limit = 2 }
    ∷ record { key = "user/c"; limit = 100 }
    ∷ []

abbrev capacities : Dict ℕ
capacities = ("user/a", 6) ∷ ("user/b", 3) ∷ []

-- The pool that one round leaves is shared out again.
max_min_three : max_min_cpu 10 three ≡ ("user/a", 5) ∷ ("user/b", 2) ∷ ("user/c", 3) ∷ []
unfolding max_min_cpu distribute round sort lookup insert
max_min_three = refl

proportional_two : proportional_cpu 4 capacities ≡ ("user/a", 3) ∷ ("user/b", 1) ∷ []
unfolding proportional_cpu shares_of allocate_shares used_shares give_one give_remaining sort lookup
    insert
proportional_two = refl

max_min_cpu-total_example : total (max_min_cpu 10 three) ≡ min 10 (limits three)
max_min_cpu-total_example =
    max_min_cpu-total 10 three ((refl, (refl, tt)), ((refl, tt), (tt, tt)))
      (omega arith, (omega arith, (omega arith, tt)))

max_min_cpu-le_limit_example : All (λ d. get d.key (max_min_cpu 10 three) ≤ d.limit) three
max_min_cpu-le_limit_example =
    max_min_cpu-le_limit 10 three ((refl, (refl, tt)), ((refl, tt), (tt, tt)))

max_min_cpu-IsNear_example : All (IsNear "user/c" 3 (max_min_cpu 10 three)) three
max_min_cpu-IsNear_example =
    max_min_cpu-IsNear "user/c" 10 three ((refl, (refl, tt)), ((refl, tt), (tt, tt)))
      (omega arith, (omega arith, (omega arith, tt)))

max_min_cpu-pos_example : All (λ d. min 1 d.limit ≤ get d.key (max_min_cpu 10 three)) three
max_min_cpu-pos_example =
    max_min_cpu-pos 10 three (omega arith) ((refl, (refl, tt)), ((refl, tt), (tt, tt)))

proportional_cpu-total_example : total (proportional_cpu 4 capacities) ≡ min 4 (total capacities)
proportional_cpu-total_example = proportional_cpu-total 4 capacities ((refl, tt), (tt, tt))

proportional_cpu-le_capacity_example :
    get "user/a" (proportional_cpu 4 capacities) ≤ get "user/a" capacities
proportional_cpu-le_capacity_example =
    proportional_cpu-le_capacity "user/a" 4 capacities ((refl, tt), (tt, tt))
