-- ===== src/Scheduler/Rounds.antt =====
-- One round of `maxMinCPU`: what it gives out, what it leaves, and who stays active.
use bosun.Prelude.{
  ℕ, suc, ◌+◌, ◌-◌, ◌*◌, ◌/◌, ◌%◌, ◌≤◌, ◌<◌, ◌≡◌, refl, String, Bool, false, List, [], ◌∷◌, arith,
  eq_iff, ltb, str_eq, if◌then◌else◌, Bool-cases, inl, inr, length, sum_by, All,
}
use native.Mathlib.Nat.{div-add-mod}
use bosun.Prelude.Sort.{IsApart}
use bosun.Prelude.Dict.{Dict, get, total, get-insert, total-insert}
use bosun.Scheduler.{CpuDemand, grant_of, credit, round}

-- Entries of different keys.
abbrev pub same_key : CpuDemand → CpuDemand → Bool
same_key x y = str_eq x.key y.key

abbrev pub limits : List CpuDemand → ℕ
limits = sum_by (λ d. d.limit)

-- What the active demands still lack.
abbrev pub room : Dict ℕ → List CpuDemand → ℕ
room result = sum_by (λ d. d.limit - get d.key result)

pub get-credit :
    (key j : String) (grant : ℕ) (result : Dict ℕ)
    → get j (credit key grant result)
      ≡ (if str_eq key j then get j result + grant else get j result)
get-credit key j grant result =
    ground (arith, eq_iff key j, get-insert key j (get key result + grant) result)

pub total-credit :
    (key : String) (grant : ℕ) (result : Dict ℕ)
    → total (credit key grant result) ≡ total result + grant
total-credit key grant result = ground (arith, total-insert key (get key result + grant) result)

-- A grant to one key leaves the room of the others alone.
pub room-credit :
    (d : CpuDemand) (grant : ℕ) (result : Dict ℕ) (ds : List CpuDemand)
    → All (λ e. same_key d e ≡ false) ds
    → room (credit d.key grant result) ds ≡ room result ds
room-credit d grant result [] h = refl
room-credit d grant result (e ∷ ds) h =
    ground (arith, get-credit d.key e.key grant result, room-credit d grant result ds h.1)

-- What a round uses is added to the grants.
pub round-total :
    (share remainder i : ℕ) (ds : List CpuDemand) (result : Dict ℕ)
    → total (round share remainder i ds result).result
      ≡ total result + (round share remainder i ds result).used
unfolding round
round-total share remainder i [] result = omega arith
round-total share remainder i (d ∷ ds) result =
    let grant = grant_of share remainder i d result in
    omega (
      arith,
      total-credit d.key grant result,
      round-total share remainder (suc i) ds (credit d.key grant result),
    )

-- A key that is not among the active ones keeps its grant.
pub round-get_other :
    (k : CpuDemand) (share remainder i : ℕ) (ds : List CpuDemand) (result : Dict ℕ)
    → All (λ e. same_key k e ≡ false) ds
    → get k.key (round share remainder i ds result).result ≡ get k.key result
unfolding round
round-get_other k share remainder i [] result h = refl
round-get_other k share remainder i (d ∷ ds) result h =
    let grant = grant_of share remainder i d result in
    ground (
      arith,
      eq_iff k.key d.key,
      eq_iff d.key k.key,
      get-credit d.key k.key grant result,
      round-get_other k share remainder (suc i) ds (credit d.key grant result) h.1,
    )

-- What a round leaves of the room.
pub round-room :
    (share remainder i : ℕ) (ds : List CpuDemand) (result : Dict ℕ)
    → IsApart same_key ds
    → let r = round share remainder i ds result in room r.result r.next + r.used ≡ room result ds
unfolding round
round-room share remainder i [] result h = refl
round-room share remainder i (d ∷ ds) result h =
    let grant = grant_of share remainder i d result in
    let result' = credit d.key grant result in
    ground (
      arith,
      eq_iff d.key d.key,
      get-credit d.key d.key grant result,
      room-credit d grant result ds h.0,
      round-get_other d share remainder (suc i) ds result' h.0,
      round-room share remainder (suc i) ds result' h.1,
    )

-- A round gives out at most the shares and the remainder.
pub round-used-le :
    (share remainder i : ℕ) (ds : List CpuDemand) (result : Dict ℕ)
    → (round share remainder i ds result).used ≤ length ds * share + (remainder - i)
unfolding round
round-used-le share remainder i [] result = omega arith
round-used-le share remainder i (d ∷ ds) result =
    let grant = grant_of share remainder i d result in
    ground (arith, round-used-le share remainder (suc i) ds (credit d.key grant result))

-- A property of the entries is kept by those that stay active.
pub round-next-All {κ} :
    (P : CpuDemand → Type κ) (share remainder i : ℕ) (ds : List CpuDemand) (result : Dict ℕ)
    → All P ds
    → All P (round share remainder i ds result).next
unfolding round
round-next-All P share remainder i [] result h = tt
round-next-All P share remainder i (d ∷ ds) result h =
    let result' = credit d.key (grant_of share remainder i d result) result in
    let rest = round-next-All P share remainder (suc i) ds result' h.1 in
    elim (Bool-cases (ltb (get d.key result') d.limit)) [
      | inl e ↦ rw e (h.0, rest)
      | inr e ↦ rw e rest
    ]

pub round-next-IsApart :
    (share remainder i : ℕ) (ds : List CpuDemand) (result : Dict ℕ)
    → IsApart same_key ds
    → IsApart same_key (round share remainder i ds result).next
unfolding round
round-next-IsApart share remainder i [] result h = tt
round-next-IsApart share remainder i (d ∷ ds) result h =
    let result' = credit d.key (grant_of share remainder i d result) result in
    let rest = round-next-IsApart share remainder (suc i) ds result' h.1 in
    elim (Bool-cases (ltb (get d.key result') d.limit)) [
      | inl e ↦
          rw e (
            round-next-All (λ e. same_key d e ≡ false) share remainder (suc i) ds result' h.0,
            rest,
          )
      | inr e ↦ rw e rest
    ]

-- The demand is not met yet.
abbrev pub IsShort : Dict ℕ → CpuDemand → Type 0
IsShort result d = get d.key result < d.limit

-- Who stays active is short of its limit.
pub round-next-IsShort :
    (share remainder i : ℕ) (ds : List CpuDemand) (result : Dict ℕ)
    → IsApart same_key ds
    → let r = round share remainder i ds result in All (IsShort r.result) r.next
unfolding round
round-next-IsShort share remainder i [] result h = tt
round-next-IsShort share remainder i (d ∷ ds) result h =
    let result' = credit d.key (grant_of share remainder i d result) result in
    let rest = round-next-IsShort share remainder (suc i) ds result' h.1 in
    let same = round-get_other d share remainder (suc i) ds result' h.0 in
    elim (Bool-cases (ltb (get d.key result') d.limit)) [
      | inl e ↦ rw e (ground arith, rest)
      | inr e ↦ rw e rest
    ]

-- With a pool and a demand that is not met, a round gives something out.
pub round-used-pos :
    (pool : ℕ) (d : CpuDemand) (ds : List CpuDemand) (result : Dict ℕ)
    → 0 < pool
    → IsShort result d
    → let n = length (d ∷ ds) in 0 < (round (pool / n) (pool % n) 0 (d ∷ ds) result).used
unfolding round
round-used-pos pool d ds result h short = ground (arith, div-add-mod pool (length (d ∷ ds)))

pub round-used-le_pool :
    (pool : ℕ) (d : CpuDemand) (ds : List CpuDemand) (result : Dict ℕ)
    → let n = length (d ∷ ds) in (round (pool / n) (pool % n) 0 (d ∷ ds) result).used ≤ pool
round-used-le_pool pool d ds result =
    let n = length (d ∷ ds) in
    omega (arith, round-used-le (pool / n) (pool % n) 0 (d ∷ ds) result, div-add-mod pool n)
