-- ===== src/Backend/Auth/Steps.antt =====
-- The updates of the table of refresh tokens as steps, in any order and from any requests, and what
-- holds of every table that they reach.
use bosun.Prelude.{
  ℕ, ◌≤◌, ◌≡◌, refl, subst, inl, inr, String, Bool, true, false, ◌&&◌, some, List, [], ◌∷◌, map,
  any, str_eq, All, arith, eq_iff, Bool-cases,
}
use bosun.Backend.Auth.{RefreshToken, is_live, has_hash, has_id, find_hash, replace_row, revoke_row}
use bosun.Backend.Auth.Tokens.{
  one_if, live_in, count_id, IsUpdate, replace_row-IsUpdate, revoke_row-IsUpdate, count_id-map,
  find_hash-map, live_in-map-le, find_hash-has_hash, live_in-replace_row,
}

-- A login opens a family with a token, a refresh replaces the live token of a row that was read, and
-- a family is revoked.
pub data Step : List RefreshToken → List RefreshToken → Type 0 where
  issue :
      (rows : List RefreshToken) (rec : RefreshToken)
      → has_id rec.id rows ≡ false
      → has_hash rec.token_hash rows ≡ false
      → live_in rec.family_id rows ≡ 0
      → Step rows (rec ∷ rows)
  rotate :
      (rows : List RefreshToken) (rec : RefreshToken) (time : ℕ) (old : String)
      → has_id rec.id rows ≡ false
      → has_hash rec.token_hash rows ≡ false
      → All (λ r. str_eq r.id old ≡ true → str_eq r.family_id rec.family_id ≡ true) rows
      → any (λ r. str_eq r.id old && is_live r) rows ≡ true
      → Step rows (map (replace_row time old rec.id) (rec ∷ rows))
  revoke :
      (rows : List RefreshToken) (time : ℕ) (family : String)
      → Step rows (map (revoke_row time family) rows)

pub data Reach (rows : List RefreshToken) : List RefreshToken → Type 0 where
  here : Reach rows rows
  next :
      {rows' rows'' : List RefreshToken} → Reach rows rows' → Step rows' rows'' → Reach rows rows''

pub Reach-trans : {xs ys zs : List RefreshToken} → Reach xs ys → Reach ys zs → Reach xs zs
Reach-trans r here = r
Reach-trans r (next s st) = next (Reach-trans r s) st

-- At most one row of an id, and at most one live token of a family.
pub record IsConsistent (rows : List RefreshToken) : Type 0 where
  pub keyed : (id : String) → count_id id rows ≤ 1
  pub single : (family : String) → live_in family rows ≤ 1

-- The token of that hash is in the table, and not live.
abbrev pub IsSpent : String → List RefreshToken → Type 0
IsSpent hash rows = (r : RefreshToken) × (find_hash hash rows ≡ some r) × (is_live r ≡ false)

one_if_le : (b : Bool) → one_if b ≤ 1
one_if_le true = omega arith
one_if_le false = omega arith

has_id-count_id :
    (id : String) (rows : List RefreshToken) → has_id id rows ≡ false → count_id id rows ≡ 0
has_id-count_id id [] h = refl
has_id-count_id id (r ∷ rows) h = ground (arith, has_id-count_id id rows)

new-single :
    (rows : List RefreshToken) (rec : RefreshToken)
    → live_in rec.family_id rows ≡ 0
    → ((family : String) → live_in family rows ≤ 1)
    → (family : String) → live_in family (rec ∷ rows) ≤ 1
new-single rows rec opened single family = elim (Bool-cases (str_eq rec.family_id family)) [
  | inl e ↦
      subst (λ (f : String). live_in f (rec ∷ rows) ≤ 1) ((eq_iff rec.family_id family).0 e)
        (omega (arith, one_if_le (str_eq rec.family_id rec.family_id && is_live rec), opened))
  | inr e ↦ rw e (omega (arith, single family))
]

new_id-keyed :
    (rows : List RefreshToken) (rec : RefreshToken) (id : String)
    → has_id rec.id rows ≡ false
    → count_id id rows ≤ 1
    → count_id id (rec ∷ rows) ≤ 1
new_id-keyed rows rec id new k = elim (Bool-cases (str_eq rec.id id)) [
  | inl e ↦
      subst (λ (i : String). count_id i (rec ∷ rows) ≤ 1) ((eq_iff rec.id id).0 e)
        (omega (arith, one_if_le (str_eq rec.id rec.id), has_id-count_id rec.id rows new))
  | inr e ↦ rw e (omega arith)
]

rotated-single :
    (rows : List RefreshToken) (rec : RefreshToken) (time : ℕ) (old : String)
    → All (λ r. str_eq r.id old ≡ true → str_eq r.family_id rec.family_id ≡ true) rows
    → any (λ r. str_eq r.id old && is_live r) rows ≡ true
    → ((family : String) → live_in family rows ≤ 1)
    → (family : String) → live_in family (rec ∷ map (replace_row time old rec.id) rows) ≤ 1
rotated-single rows rec time old known live single family =
    elim (Bool-cases (str_eq rec.family_id family)) [
      | inl e ↦
          subst (λ (f : String). live_in f (rec ∷ map (replace_row time old rec.id) rows) ≤ 1)
            ((eq_iff rec.family_id family).0 e)
            (omega (
              arith,
              one_if_le (str_eq rec.family_id rec.family_id && is_live rec),
              live_in-replace_row time old rec.id rec.family_id rows known live,
              single rec.family_id,
            ))
      | inr e ↦
          let less =
            live_in-map-le (replace_row time old rec.id) (replace_row-IsUpdate time old rec.id)
              family rows in
          rw e (omega (arith, less, single family))
    ]

Step-IsConsistent :
    {rows rows' : List RefreshToken} → Step rows rows' → IsConsistent rows → IsConsistent rows'
Step-IsConsistent (issue rows rec new fresh opened) c = record {
  keyed = λ id. new_id-keyed rows rec id new (c.keyed id);
  single = λ family. new-single rows rec opened c.single family;
}
Step-IsConsistent (rotate rows rec time old new fresh known live) c = record {
  keyed = λ id.
      rw
        (count_id-map (replace_row time old rec.id) (replace_row-IsUpdate time old rec.id) id
          (rec ∷ rows))
        (new_id-keyed rows rec id new (c.keyed id));
  single = λ family. omega (
    arith,
    live_in-map-le (replace_row time old rec.id) (replace_row-IsUpdate time old rec.id) family
        (rec ∷ []),
    rotated-single rows rec time old known live c.single family,
  );
}
Step-IsConsistent (revoke rows time family) c = record {
  keyed = λ id.
      rw (count_id-map (revoke_row time family) (revoke_row-IsUpdate time family) id rows)
        (c.keyed id);
  single = λ f. omega (
    arith,
    live_in-map-le (revoke_row time family) (revoke_row-IsUpdate time family) f rows,
    c.single f,
  );
}

pub Reach-IsConsistent :
    {rows rows' : List RefreshToken} → Reach rows rows' → IsConsistent rows → IsConsistent rows'
Reach-IsConsistent here c = c
Reach-IsConsistent (next r s) c = Step-IsConsistent s (Reach-IsConsistent r c)

pub new-find_hash :
    (hash : String) (rec : RefreshToken) (rows : List RefreshToken) (r : RefreshToken)
    → has_hash rec.token_hash rows ≡ false
    → find_hash hash rows ≡ some r
    → find_hash hash (rec ∷ rows) ≡ some r
new-find_hash hash rec rows r fresh found = elim (Bool-cases (str_eq rec.token_hash hash)) [
  | inl e ↦
      let absent =
        subst (λ (h : String). has_hash h rows ≡ false) ((eq_iff rec.token_hash hash).0 e) fresh in
      let there = find_hash-has_hash hash rows r found in cc
  | inr e ↦ rw e found
]

new-IsSpent :
    (hash : String) (rec : RefreshToken) (rows : List RefreshToken)
    → has_hash rec.token_hash rows ≡ false
    → IsSpent hash rows
    → IsSpent hash (rec ∷ rows)
new-IsSpent hash rec rows fresh (r, found, dead) =
    (r, new-find_hash hash rec rows r fresh found, dead)

map-IsSpent :
    (hash : String) (g : RefreshToken → RefreshToken) (rows : List RefreshToken)
    → IsUpdate g
    → IsSpent hash rows
    → IsSpent hash (map g rows)
map-IsSpent hash g rows update (r, found, dead) =
    (g r, find_hash-map g update hash rows r found, (update r).3 dead)

Step-IsSpent :
    (hash : String) {rows rows' : List RefreshToken}
    → Step rows rows'
    → IsSpent hash rows
    → IsSpent hash rows'
Step-IsSpent hash (issue rows rec new fresh opened) s = new-IsSpent hash rec rows fresh s
Step-IsSpent hash (rotate rows rec time old new fresh known live) s =
    map-IsSpent hash (replace_row time old rec.id) (rec ∷ rows)
      (replace_row-IsUpdate time old rec.id) (new-IsSpent hash rec rows fresh s)
Step-IsSpent hash (revoke rows time family) s =
    map-IsSpent hash (revoke_row time family) rows (revoke_row-IsUpdate time family) s

pub Reach-IsSpent :
    (hash : String) {rows rows' : List RefreshToken}
    → Reach rows rows'
    → IsSpent hash rows
    → IsSpent hash rows'
Reach-IsSpent hash here s = s
Reach-IsSpent hash (next r st) s = Step-IsSpent hash st (Reach-IsSpent hash r s)
