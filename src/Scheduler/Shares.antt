-- ===== src/Scheduler/Shares.antt =====
-- The shares of `proportionalCPU`: what they allocate, and what the last loop adds.
use native.Mathlib.Nat.{div-add-mod}
use bosun.Prelude.{
  ℕ, zero, suc, ◌+◌, ◌-◌, ◌*◌, ◌/◌, ◌≤◌, ◌<◌, ◌≡◌, refl, String, Bool, false, List, [], ◌∷◌, arith,
  eq_iff, ◌==◌, str_eq, Bool-cases, inl, inr, sum_by, All,
}
use bosun.Prelude.Sort.{IsApart}
use bosun.Prelude.Dict.{Dict, get, insert, total, get-insert, total-insert, same_entry, HasKeys}
use bosun.Scheduler.{
  ProportionalShare, shares_of, allocate_shares, used_shares, give_one, give_remaining,
}

abbrev pub same_share : ProportionalShare → ProportionalShare → Bool
same_share x y = str_eq x.key y.key

pub same_share_sym : (x y : ProportionalShare) → same_share x y ≡ false → same_share y x ≡ false
same_share_sym x y h = ground (arith, eq_iff x.key y.key, eq_iff y.key x.key)

-- What the shares can still take.
abbrev pub room : Dict ℕ → List ProportionalShare → ℕ
room result = sum_by (λ s. s.capacity - get s.key result)

pub room-insert :
    (k : String) (v : ℕ) (result : Dict ℕ) (ss : List ProportionalShare)
    → All (λ s. str_eq k s.key ≡ false) ss
    → room (insert k v result) ss ≡ room result ss
room-insert k v result [] h = refl
room-insert k v result (s ∷ ss) h =
    ground (arith, get-insert k s.key v result, room-insert k v result ss h.1)

-- While there is room, `give_one` gives one millicore, and the room falls by one.
pub give_one-total :
    (ss : List ProportionalShare) (result : Dict ℕ)
    → 0 < room result ss
    → total (give_one ss result) ≡ total result + 1
unfolding give_one
give_one-total [] result h = absurd (omega arith)
give_one-total (s ∷ ss) result h =
    ground (arith, total-insert s.key (get s.key result + 1) result, give_one-total ss result)

pub give_one-get_other :
    (s : ProportionalShare) (ss : List ProportionalShare) (result : Dict ℕ)
    → All (λ t. same_share s t ≡ false) ss
    → get s.key (give_one ss result) ≡ get s.key result
unfolding give_one
give_one-get_other s [] result h = refl
give_one-get_other s (t ∷ ss) result h = ground (
  arith,
  eq_iff s.key t.key,
  eq_iff t.key s.key,
  get-insert t.key s.key (get t.key result + 1) result,
  give_one-get_other s ss result h.1,
)

pub give_one-room :
    (ss : List ProportionalShare) (result : Dict ℕ)
    → IsApart same_share ss
    → 0 < room result ss
    → room (give_one ss result) ss + 1 ≡ room result ss
unfolding give_one
give_one-room [] result a h = absurd (omega arith)
give_one-room (s ∷ ss) result a h = ground (
  arith,
  eq_iff s.key s.key,
  get-insert s.key s.key (get s.key result + 1) result,
  room-insert s.key (get s.key result + 1) result ss a.0,
  give_one-get_other s ss result a.0,
  give_one-room ss result a.1,
)

pub give_remaining-total :
    (n : ℕ) (ss : List ProportionalShare) (result : Dict ℕ)
    → IsApart same_share ss
    → n ≤ room result ss
    → total (give_remaining n ss result) ≡ total result + n
unfolding give_remaining
give_remaining-total zero ss result a h = omega arith
give_remaining-total (suc n) ss result a h =
    let one = give_one-total ss result (omega arith) in
    let less = give_one-room ss result a (omega arith) in
    omega (arith, one, give_remaining-total n ss (give_one ss result) a (omega (arith, less)))

-- The shares of a map: their keys, their capacities and what they allocate.
pub shares_of-apart :
    (amount t : ℕ) (k : String) (v : ℕ) (cs : Dict ℕ)
    → All (λ e. same_entry (k, v) e ≡ false) cs
    → All (λ s. str_eq k s.key ≡ false) (shares_of amount t cs)
unfolding shares_of
shares_of-apart amount t k v [] h = tt
shares_of-apart amount t k v ((j, c) ∷ cs) h =
    let rest = shares_of-apart amount t k v cs h.1 in
    elim (Bool-cases (c == 0)) [ inl e ↦ rw e rest | inr e ↦ rw e (h.0, rest) ]

pub shares_of-IsApart :
    (amount t : ℕ) (cs : Dict ℕ) → HasKeys cs → IsApart same_share (shares_of amount t cs)
unfolding shares_of
shares_of-IsApart amount t [] a = tt
shares_of-IsApart amount t ((j, c) ∷ cs) a =
    let rest = shares_of-IsApart amount t cs a.1 in
    elim (Bool-cases (c == 0)) [
      | inl e ↦ rw e rest
      | inr e ↦ rw e (shares_of-apart amount t j c cs a.0, rest)
    ]

pub shares_of-capacity :
    (amount t : ℕ) (cs : Dict ℕ) → sum_by (λ s. s.capacity) (shares_of amount t cs) ≡ total cs
unfolding shares_of
shares_of-capacity amount t [] = refl
shares_of-capacity amount t ((j, c) ∷ cs) = ground (arith, shares_of-capacity amount t cs)

pub allocated-le : (amount c t : ℕ) → 0 < t → amount ≤ t → amount * c / t ≤ c
allocated-le amount c t pos h = grind (arith, div-add-mod (amount * c) t)

pub used_shares-mul :
    (amount t : ℕ) (cs : Dict ℕ) → used_shares (shares_of amount t cs) * t ≤ amount * total cs
unfolding shares_of used_shares
used_shares-mul amount t [] = omega arith
used_shares-mul amount t ((j, c) ∷ cs) =
    let rest = used_shares-mul amount t cs in
    elim (Bool-cases (c == 0)) [
      | inl e ↦ rw e (omega (arith, rest))
      | inr e ↦ rw e (omega (arith, rest, div-add-mod (amount * c) t))
    ]

pub used_shares-le :
    (amount : ℕ) (cs : Dict ℕ)
    → 0 < total cs
    → used_shares (shares_of amount (total cs) cs) ≤ amount
used_shares-le amount cs pos =
    let t = total cs in
    let u = used_shares (shares_of amount t cs) in grind (arith, used_shares-mul amount t cs)

-- The first pass gives each share what it allocates.
pub allocate_shares-total :
    (ss : List ProportionalShare) (result : Dict ℕ)
    → IsApart same_share ss
    → All (λ s. get s.key result ≡ 0) ss
    → total (allocate_shares ss result) ≡ total result + used_shares ss
unfolding allocate_shares used_shares
allocate_shares-total [] result a z = omega arith
allocate_shares-total (s ∷ ss) result a z = omega (
  arith,
  z.0,
  total-insert s.key s.allocated result,
  allocate_shares-total ss (insert s.key s.allocated result) a.1 (zeros ss a.0 z.1),
)
  where
    zeros :
        (ts : List ProportionalShare)
        → All (λ t. same_share s t ≡ false) ts
        → All (λ t. get t.key result ≡ 0) ts
        → All (λ t. get t.key (insert s.key s.allocated result) ≡ 0) ts
    zeros [] h z = tt
    zeros (t ∷ ts) h z =
        (ground (arith, get-insert s.key t.key s.allocated result), zeros ts h.1 z.1)

pub allocate_shares-get_other :
    (k : String) (ss : List ProportionalShare) (result : Dict ℕ)
    → All (λ t. str_eq k t.key ≡ false) ss
    → get k (allocate_shares ss result) ≡ get k result
unfolding allocate_shares
allocate_shares-get_other k [] result h = refl
allocate_shares-get_other k (t ∷ ss) result h = ground (
  arith,
  eq_iff k t.key,
  eq_iff t.key k,
  get-insert t.key k t.allocated result,
  allocate_shares-get_other k ss (insert t.key t.allocated result) h.1,
)

pub allocate_shares-room :
    (ss : List ProportionalShare) (result : Dict ℕ)
    → IsApart same_share ss
    → All (λ s. s.allocated ≤ s.capacity) ss
    → room (allocate_shares ss result) ss + used_shares ss ≡ sum_by (λ s. s.capacity) ss
unfolding allocate_shares used_shares
allocate_shares-room [] result a h = refl
allocate_shares-room (s ∷ ss) result a h = ground (
  arith,
  eq_iff s.key s.key,
  get-insert s.key s.key s.allocated result,
  allocate_shares-get_other s.key ss (insert s.key s.allocated result) a.0,
  allocate_shares-room ss (insert s.key s.allocated result) a.1 h.1,
)

pub shares_of-le :
    (amount t : ℕ) (cs : Dict ℕ)
    → 0 < t
    → amount ≤ t
    → All (λ s. s.allocated ≤ s.capacity) (shares_of amount t cs)
unfolding shares_of
shares_of-le amount t [] pos h = tt
shares_of-le amount t ((j, c) ∷ cs) pos h =
    let rest = shares_of-le amount t cs pos h in
    elim (Bool-cases (c == 0)) [
      | inl e ↦ rw e rest
      | inr e ↦ rw e (allocated-le amount c t pos h, rest)
    ]
