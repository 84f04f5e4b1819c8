-- ===== src/Scheduler/Proportional.antt =====
-- `proportional_cpu` takes exactly the amount, up to the total of the capacities, and from no key
-- more than its capacity. The capacities stand in any order, as Go may iterate over the map.

use bosun.Prelude.{
  ℕ, zero, suc, ◌+◌, ◌-◌, ◌≤◌, ◌<◌, min, ◌≡◌, refl, String, ◌||◌, List, [], ◌∷◌, arith, eq_iff, ltb,
  ◌==◌, str_eq, if◌then◌else◌, Bool-cases, inl, inr, All,
}
use bosun.Prelude.Sort.{sort, sum_by-sort, sort-IsApart, IsApart, sort-All}
use bosun.Prelude.Dict.{
  Dict, lookup, get, insert, total, get-insert, HasKeys, Caps, Caps-get, insert-HasKeys,
}
use bosun.Scheduler.{
  ProportionalShare, shares_of, allocate_shares, used_shares, share_before, give_one,
  give_remaining, proportional_cpu,
}
use bosun.Scheduler.Shares.{
  same_share, same_share_sym, give_remaining-total, shares_of-IsApart, shares_of-capacity,
  used_shares-le, allocate_shares-total, allocate_shares-room, shares_of-le,
}

IsZero-nil : (ss : List ProportionalShare) → All (λ s. get s.key [] ≡ 0) ss
unfolding lookup
IsZero-nil [] = tt
IsZero-nil (s ∷ ss) = (refl, IsZero-nil ss)

-- For a map with each key once, the grants add up to the amount, or to all capacities where these
-- are less.
pub proportional_cpu-total :
    (amount : ℕ) (capacities : Dict ℕ)
    → HasKeys capacities
    → total (proportional_cpu amount capacities) ≡ min amount (total capacities)
unfolding proportional_cpu
proportional_cpu-total amount capacities keys = elim (Bool-cases (amount' == 0 || t == 0)) [
  | inl e ↦ rw e (ground arith)
  | inr e ↦
      let pos : 0 < t = ground arith in
      let fits =
        allocate_shares-room shares [] apart
          (shares_of-le amount' t capacities pos (omega arith)) in
      let same =
        sum_by-sort share_before (λ s. s.capacity - get s.key (allocate_shares shares [])) shares in
      rw e (
        omega (
          arith,
          used_shares-le amount' capacities pos,
          fits,
          same,
          shares_of-capacity amount' t capacities,
          allocate_shares-total shares [] apart (IsZero-nil shares),
          give_remaining-total (amount' - used_shares shares) (sort share_before shares)
              (allocate_shares shares [])
              (sort-IsApart share_before same_share same_share_sym shares apart)
              (omega (
                arith,
                same,
                fits,
                shares_of-capacity amount' t capacities,
                used_shares-le amount' capacities pos,
              )),
        ))
]
  where
    t : ℕ
    t = total capacities

    amount' : ℕ
    amount' = min amount t

    shares : List ProportionalShare
    shares = shares_of amount' t capacities

    apart : IsApart same_share shares
    apart = shares_of-IsApart amount' t capacities keys

-- Where the shares name `key`, they have a capacity of at most `cap`.
abbrev ShareCaps : String → ℕ → List ProportionalShare → Type 0
ShareCaps key cap = All λ s. (if str_eq s.key key then s.capacity else 0) ≤ cap

shares_of-Caps :
    (key : String) (cap amount t : ℕ) (cs : Dict ℕ)
    → Caps key cap cs
    → ShareCaps key cap (shares_of amount t cs)
unfolding shares_of
shares_of-Caps key cap amount t [] h = tt
shares_of-Caps key cap amount t ((j, c) ∷ cs) h =
    let rest = shares_of-Caps key cap amount t cs h.1 in
    elim (Bool-cases (c == 0)) [ inl e ↦ rw e rest | inr e ↦ rw e (h.0, rest) ]

allocate_shares-get-le :
    (key : String) (cap : ℕ) (ss : List ProportionalShare) (result : Dict ℕ)
    → ShareCaps key cap ss
    → All (λ s. s.allocated ≤ s.capacity) ss
    → get key result ≤ cap
    → get key (allocate_shares ss result) ≤ cap
unfolding allocate_shares
allocate_shares-get-le key cap [] result c l h = h
allocate_shares-get-le key cap (s ∷ ss) result c l h =
    allocate_shares-get-le key cap ss (insert s.key s.allocated result) c.1 l.1
      (ground (arith, get-insert s.key key s.allocated result, c.0, l.0))

give_one-get-le :
    (key : String) (cap : ℕ) (ss : List ProportionalShare) (result : Dict ℕ)
    → ShareCaps key cap ss
    → get key result ≤ cap
    → get key (give_one ss result) ≤ cap
unfolding give_one
give_one-get-le key cap [] result c h = h
give_one-get-le key cap (s ∷ ss) result c h = ground (
  arith,
  eq_iff s.key key,
  get-insert s.key key (get s.key result + 1) result,
  give_one-get-le key cap ss result c.1 h,
  c.0,
)

give_remaining-get-le :
    (key : String) (cap n : ℕ) (ss : List ProportionalShare) (result : Dict ℕ)
    → ShareCaps key cap ss
    → get key result ≤ cap
    → get key (give_remaining n ss result) ≤ cap
unfolding give_remaining
give_remaining-get-le key cap zero ss result c h = h
give_remaining-get-le key cap (suc n) ss result c h =
    give_remaining-get-le key cap n ss (give_one ss result) c
      (give_one-get-le key cap ss result c h)

-- For a map with each key once, no key gives more than its capacity, and a missing key nothing.
pub proportional_cpu-le_capacity :
    (key : String) (amount : ℕ) (capacities : Dict ℕ)
    → HasKeys capacities
    → get key (proportional_cpu amount capacities) ≤ get key capacities
unfolding proportional_cpu lookup
proportional_cpu-le_capacity key amount capacities keys =
    elim (Bool-cases (amount' == 0 || t == 0)) [
      | inl e ↦ rw e (omega arith)
      | inr e ↦ rw e (
          give_remaining-get-le key cap _ (sort share_before shares) _
            (sort-All share_before _ shares caps)
            (allocate_shares-get-le key cap shares [] caps
              (shares_of-le amount' t capacities (ground arith) (omega arith)) (omega arith)))
    ]
  where
    t : ℕ
    t = total capacities

    amount' : ℕ
    amount' = min amount t

    cap : ℕ
    cap = get key capacities

    shares : List ProportionalShare
    shares = shares_of amount' t capacities

    caps : ShareCaps key cap shares
    caps =
        shares_of-Caps key cap amount' t capacities (Caps-get key cap capacities keys (omega arith))

allocate_shares-HasKeys :
    (ss : List ProportionalShare) (result : Dict ℕ)
    → HasKeys result
    → HasKeys (allocate_shares ss result)
unfolding allocate_shares
allocate_shares-HasKeys [] result a = a
allocate_shares-HasKeys (s ∷ ss) result a =
    allocate_shares-HasKeys ss _ (insert-HasKeys s.key s.allocated result a)

give_one-HasKeys :
    (ss : List ProportionalShare) (result : Dict ℕ) → HasKeys result → HasKeys (give_one ss result)
unfolding give_one
give_one-HasKeys [] result a = a
give_one-HasKeys (s ∷ ss) result a = elim (Bool-cases (ltb (get s.key result) s.capacity)) [
  | inl e ↦ rw e (insert-HasKeys s.key (get s.key result + 1) result a)
  | inr e ↦ rw e (give_one-HasKeys ss result a)
]

give_remaining-HasKeys :
    (n : ℕ) (ss : List ProportionalShare) (result : Dict ℕ)
    → HasKeys result
    → HasKeys (give_remaining n ss result)
unfolding give_remaining
give_remaining-HasKeys zero ss result a = a
give_remaining-HasKeys (suc n) ss result a =
    give_remaining-HasKeys n ss (give_one ss result) (give_one-HasKeys ss result a)

-- The result names each key once.
pub proportional_cpu-HasKeys :
    (amount : ℕ) (capacities : Dict ℕ) → HasKeys (proportional_cpu amount capacities)
unfolding proportional_cpu
proportional_cpu-HasKeys amount capacities =
    elim (Bool-cases (min amount (total capacities) == 0 || total capacities == 0)) [
      | inl e ↦ rw e tt
      | inr e ↦ rw e (give_remaining-HasKeys _ _ _ (allocate_shares-HasKeys _ [] tt))
    ]
