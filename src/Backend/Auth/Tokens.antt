-- ===== src/Backend/Auth/Tokens.antt =====
-- The table of refresh tokens: what the updates of the store keep of it, and the live tokens of a
-- family.
use bosun.Prelude.{
  ℕ, ◌+◌, ◌≤◌, ◌≡◌, refl, String, Bool, true, false, ◌&&◌, ◌||◌, some, List, [], ◌∷◌, map, any,
  str_eq, if◌then◌else◌, All, arith, ap, sym, ◌∙◌, subst, str_eq_of_eq, ◌⊎◌, inl, inr,
}
use bosun.Backend.Auth.{RefreshToken, is_live, has_hash, has_id, find_hash, replace_row, revoke_row}

abbrev pub one_if : Bool → ℕ
one_if b = if b then 1 else 0

abbrev pub live_in : String → List RefreshToken → ℕ
live_in family [] = 0
live_in family (r ∷ rows) = one_if (str_eq r.family_id family && is_live r) + live_in family rows

abbrev pub count_id : String → List RefreshToken → ℕ
count_id id [] = 0
count_id id (r ∷ rows) = one_if (str_eq r.id id) + count_id id rows

-- An update that keeps the keys of a row and revives none.
abbrev pub IsUpdate : (RefreshToken → RefreshToken) → Type 0
IsUpdate g =
    (r : RefreshToken)
    → ((g r).id ≡ r.id)
      × ((g r).family_id ≡ r.family_id)
      × ((g r).token_hash ≡ r.token_hash)
      × (is_live r ≡ false → is_live (g r) ≡ false)

pub replace_row-IsUpdate : (time : ℕ) (old by : String) → IsUpdate (replace_row time old by)
replace_row-IsUpdate time old by r = by_test (str_eq r.id old && is_live r)
  where
    by_test :
        (b : Bool)
        → let r' = if b then record r { revoked_at = some time; replaced_by = some by } else r in
          (r'.id ≡ r.id)
          × (r'.family_id ≡ r.family_id)
          × (r'.token_hash ≡ r.token_hash)
          × (is_live r ≡ false → is_live r' ≡ false)
    by_test true = (refl, refl, refl, λ _. refl)
    by_test false = (refl, refl, refl, λ h. h)

pub revoke_row-IsUpdate : (time : ℕ) (family : String) → IsUpdate (revoke_row time family)
revoke_row-IsUpdate time family r = by_test (str_eq r.family_id family && is_live r)
  where
    by_test :
        (b : Bool)
        → let r' = if b then record r { revoked_at = some time } else r in
          (r'.id ≡ r.id)
          × (r'.family_id ≡ r.family_id)
          × (r'.token_hash ≡ r.token_hash)
          × (is_live r ≡ false → is_live r' ≡ false)
    by_test true = (refl, refl, refl, λ _. refl)
    by_test false = (refl, refl, refl, λ h. h)

one_if-le : (a b c : Bool) → (b ≡ false → c ≡ false) → one_if (a && c) ≤ one_if (a && b)
one_if-le false b c h = omega arith
one_if-le true true true h = omega arith
one_if-le true true false h = omega arith
one_if-le true false c h = rw (h refl) (omega arith)

or_right : (a b : Bool) → b ≡ true → a || b ≡ true
or_right true b h = refl
or_right false b h = h

pub find_hash_cons :
    (hash : String) (x : RefreshToken) (rows : List RefreshToken) (r : RefreshToken)
    → find_hash hash (x ∷ rows) ≡ some r
    → ((str_eq x.token_hash hash ≡ true) × (x ≡ r))
      ⊎ ((str_eq x.token_hash hash ≡ false) × (find_hash hash rows ≡ some r))
find_hash_cons hash x rows r = by_test (str_eq x.token_hash hash)
  where
    by_test :
        (b : Bool)
        → (if b then some x else find_hash hash rows) ≡ some r
        → ((b ≡ true) × (x ≡ r)) ⊎ ((b ≡ false) × (find_hash hash rows ≡ some r))
    by_test true h = inl (refl, cc)
    by_test false h = inr (refl, h)

module _ (g : RefreshToken → RefreshToken) (update : IsUpdate g) where
  pub count_id-map :
      (id : String) (rows : List RefreshToken) → count_id id (map g rows) ≡ count_id id rows
  count_id-map id [] = refl
  count_id-map id (r ∷ rows) = rw ((update r).0, count_id-map id rows)

  pub find_hash-map :
      (hash : String) (rows : List RefreshToken) (r : RefreshToken)
      → find_hash hash rows ≡ some r
      → find_hash hash (map g rows) ≡ some (g r)
  find_hash-map hash [] r h = cc
  find_hash-map hash (x ∷ rows) r h = elim (find_hash_cons hash x rows r h) [
    | inl (e, same) ↦
        subst (λ (b : Bool). (if b then some (g x) else find_hash hash (map g rows)) ≡ some (g r))
          (sym (ap (λ (k : String). str_eq k hash) (update x).2 ∙ e))
          (ap (λ (y : RefreshToken). some (g y)) same)
    | inr (e, later) ↦
        subst (λ (b : Bool). (if b then some (g x) else find_hash hash (map g rows)) ≡ some (g r))
          (sym (ap (λ (k : String). str_eq k hash) (update x).2 ∙ e))
          (find_hash-map hash rows r later)
  ]

  pub live_in-map-le :
      (family : String) (rows : List RefreshToken)
      → live_in family (map g rows) ≤ live_in family rows
  live_in-map-le family [] = omega arith
  live_in-map-le family (r ∷ rows) =
      let less = one_if-le (str_eq r.family_id family) (is_live r) (is_live (g r)) (update r).3 in
      rw (update r).1 (omega (arith, less, live_in-map-le family rows))

-- A row that is found has its hash and its id among the rows.
pub find_hash-has_hash :
    (hash : String) (rows : List RefreshToken) (r : RefreshToken)
    → find_hash hash rows ≡ some r
    → has_hash hash rows ≡ true
find_hash-has_hash hash [] r h = cc
find_hash-has_hash hash (x ∷ rows) r h = elim (find_hash_cons hash x rows r h) [
  | inl (e, same) ↦ rw e
  | inr (e, later) ↦ rw e (find_hash-has_hash hash rows r later)
]

pub find_hash-has_id :
    (hash : String) (rows : List RefreshToken) (r : RefreshToken)
    → find_hash hash rows ≡ some r
    → has_id r.id rows ≡ true
find_hash-has_id hash [] r h = cc
find_hash-has_id hash (x ∷ rows) r h = elim (find_hash_cons hash x rows r h) [
  | inl (e, same) ↦
      subst (λ (y : RefreshToken). has_id y.id (x ∷ rows) ≡ true) same
        (rw (str_eq_of_eq x.id x.id refl))
  | inr (e, later) ↦ or_right (str_eq x.id r.id) _ (find_hash-has_id hash rows r later)
]

pub count_id-has_id :
    (id : String) (rows : List RefreshToken) → count_id id rows ≤ 0 → has_id id rows ≡ false
count_id-has_id id [] h = refl
count_id-has_id id (x ∷ rows) h = ground (arith, count_id-has_id id rows)

All-none :
    (id family : String) (rows : List RefreshToken)
    → has_id id rows ≡ false
    → All (λ x. str_eq x.id id ≡ true → str_eq x.family_id family ≡ true) rows
All-none id family [] h = tt
All-none id family (x ∷ rows) h =
    ((λ (e : str_eq x.id id ≡ true). ground arith), All-none id family rows (ground arith))

count_id_rest :
    (x : RefreshToken) (rows : List RefreshToken) (r : RefreshToken)
    → x ≡ r
    → count_id r.id (x ∷ rows) ≤ 1
    → count_id r.id rows ≤ 0
count_id_rest x rows r same =
    subst (λ (y : RefreshToken). count_id y.id (x ∷ rows) ≤ 1 → count_id y.id rows ≤ 0) same
      (λ (k : count_id x.id (x ∷ rows) ≤ 1). ground (arith, str_eq_of_eq x.id x.id refl))

-- The row of an id, where the id is unique.
pub find_hash-All_family :
    (hash : String) (rows : List RefreshToken) (r : RefreshToken)
    → ((id : String) → count_id id rows ≤ 1)
    → find_hash hash rows ≡ some r
    → All (λ x. str_eq x.id r.id ≡ true → str_eq x.family_id r.family_id ≡ true) rows
find_hash-All_family hash [] r keyed h = tt
find_hash-All_family hash (x ∷ rows) r keyed h = elim (find_hash_cons hash x rows r h) [
  | inl (e, same) ↦ (
    λ _.
        subst (λ (y : RefreshToken). str_eq x.family_id y.family_id ≡ true) same
          (str_eq_of_eq x.family_id x.family_id refl),
    All-none r.id r.family_id rows
        (count_id-has_id r.id rows (count_id_rest x rows r same (keyed r.id))),
  )
  | inr (e, later) ↦ (
    (λ (t : str_eq x.id r.id ≡ true).
        ground (arith, keyed r.id, find_hash-has_id hash rows r later, count_id-has_id r.id rows)),
    find_hash-All_family hash rows r (λ id. omega (arith, keyed id)) later,
  )
]

-- The rotation takes the live token of the family away, if it updates a row.
pub live_in-replace_row :
    (time : ℕ) (old by family : String) (rows : List RefreshToken)
    → All (λ r. str_eq r.id old ≡ true → str_eq r.family_id family ≡ true) rows
    → any (λ r. str_eq r.id old && is_live r) rows ≡ true
    → live_in family (map (replace_row time old by) rows) + 1 ≤ live_in family rows
live_in-replace_row time old by family [] known h = cc
live_in-replace_row time old by family (r ∷ rows) known h = ground (
  arith,
  known.0,
  live_in-replace_row time old by family rows known.1,
  live_in-map-le (replace_row time old by) (replace_row-IsUpdate time old by) family rows,
)

pub live_in-revoke_row :
    (time : ℕ) (family : String) (rows : List RefreshToken)
    → live_in family (map (revoke_row time family) rows) ≡ 0
live_in-revoke_row time family [] = refl
live_in-revoke_row time family (r ∷ rows) = ground (arith, live_in-revoke_row time family rows)
