-- ===== src/Prelude/Dict.antt =====
-- Go maps with string keys, as association lists; `get` is the read of a `map[string]int64`,
-- which gives 0 for a missing key. The order of the list stands for Go's order of iteration.
use Prim.Native.Nat.{ℕ, ◌+◌, ◌≤◌}
use Prim.Native.String.{String}
use mathlib.Core.Path.{◌≡◌, refl}
use mathlib.Core.Logic.{inl, inr}
use mathlib.Core.Bool.{Bool, false}
use mathlib.Core.List.{List, [], ◌∷◌}
use mathlib.Core.Option.{Option, none, some}
use native.Mathlib.Omega.{arith}
use text.Mathlib.TextEquality.{eq_iff}
use bosun.Prelude.Tests.{if◌then◌else◌, str_eq, Bool-cases}
use bosun.Prelude.Lists.{length, All}
use bosun.Prelude.Sort.{IsApart}

abbrev pub Dict {ℓ} : Type ℓ → Type ℓ
Dict V = List (String × V)

module _ {ℓ} {V : Type ℓ} where
  unfoldable pub lookup : String → Dict V → Option V
  lookup key [] = none
  lookup key ((name, value) ∷ entries) = if str_eq name key then some value else lookup key entries

  unfoldable pub insert : String → V → Dict V → Dict V
  insert key value [] = (key, value) ∷ []
  insert key value ((name, old) ∷ entries) =
      if str_eq name key then (key, value) ∷ entries else (name, old) ∷ insert key value entries

  unfoldable pub delete : String → Dict V → Dict V
  delete key [] = []
  delete key ((name, value) ∷ entries) =
      if str_eq name key then delete key entries else (name, value) ∷ delete key entries

  pub lookup-insert :
      (key other : String) (value : V) (entries : Dict V)
      → lookup other (insert key value entries)
        ≡ (if str_eq key other then some value else lookup other entries)
  unfolding lookup insert
  lookup-insert key other value [] = refl
  lookup-insert key other value ((name, old) ∷ entries) =
      let rest = lookup-insert key other value entries in
      ground (arith, rest, eq_iff name other, eq_iff name key, eq_iff key other)

  pub lookup-delete :
      (key other : String) (entries : Dict V)
      → lookup other (delete key entries)
        ≡ (if str_eq key other then none else lookup other entries)
  unfolding lookup delete
  lookup-delete key other [] = ground arith
  lookup-delete key other ((name, old) ∷ entries) =
      let rest = lookup-delete key other entries in
      ground (arith, rest, eq_iff name other, eq_iff name key, eq_iff key other)

  pub length-insert : (k : String) (v : V) (m : Dict V) → length (insert k v m) ≤ length m + 1
  unfolding insert
  length-insert k v [] = omega arith
  length-insert k v ((j, w) ∷ m) = ground (arith, length-insert k v m)

  pub length-insert_present :
      (k : String) (v w : V) (m : Dict V) → lookup k m ≡ some w → length (insert k v m) ≡ length m
  unfolding insert lookup
  length-insert_present k v w [] h = ground arith
  length-insert_present k v w ((j, u) ∷ m) h = ground (arith, length-insert_present k v w m)

abbrev pub or_zero : Option ℕ → ℕ
or_zero none = 0
or_zero (some n) = n

abbrev pub get : String → Dict ℕ → ℕ
get k m = or_zero (lookup k m)

abbrev pub total : Dict ℕ → ℕ
total [] = 0
total ((k, v) ∷ m) = v + total m

pub get-insert :
    (k j : String) (v : ℕ) (m : Dict ℕ) → get j (insert k v m) ≡ (if str_eq k j then v else get j m)
get-insert k j v m = ground (arith, lookup-insert k j v m)

-- A write replaces the old value of its key in the total.
pub total-insert : (k : String) (v : ℕ) (m : Dict ℕ) → total (insert k v m) + get k m ≡ total m + v
unfolding insert lookup
total-insert k v [] = omega arith
total-insert k v ((j, w) ∷ m) = ground (arith, total-insert k v m)

-- A Go map has each key once.
abbrev pub same_entry {ℓ} : {V : Type ℓ} → String × V → String × V → Bool
same_entry x y = str_eq x.0 y.0

abbrev pub HasKeys {ℓ} : {V : Type ℓ} → Dict V → Type ℓ
HasKeys m = IsApart same_entry m

-- Where the map names `key`, its value is at most `cap`.
abbrev pub Caps : String → ℕ → Dict ℕ → Type 0
Caps key cap = All λ e. (if str_eq e.0 key then e.1 else 0) ≤ cap

Caps-apart :
    (key : String) (v cap : ℕ) (m : Dict ℕ)
    → All (λ e. same_entry (key, v) e ≡ false) m
    → Caps key cap m
Caps-apart key v cap [] h = tt
Caps-apart key v cap ((j, w) ∷ m) h =
    (ground (arith, eq_iff key j, eq_iff j key, h.0), Caps-apart key v cap m h.1)

pub Caps-get : (key : String) (cap : ℕ) (m : Dict ℕ) → HasKeys m → get key m ≤ cap → Caps key cap m
unfolding lookup
Caps-get key cap [] a h = tt
Caps-get key cap ((j, v) ∷ m) a h = elim (Bool-cases (str_eq j key)) [
  | inl e ↦ (ground arith, Caps-apart key v cap m (rw (← (eq_iff j key).0 e) a.0))
  | inr e ↦ (ground arith, Caps-get key cap m a.1 (ground arith))
]

pub get-absent :
    (key : String) (v : ℕ) (m : Dict ℕ) → All (λ e. same_entry (key, v) e ≡ false) m → get key m ≡ 0
unfolding lookup
get-absent key v [] h = refl
get-absent key v ((j, w) ∷ m) h =
    ground (arith, eq_iff key j, eq_iff j key, h.0, get-absent key v m h.1)

insert-absent :
    (k j : String) (v w : ℕ) (m : Dict ℕ)
    → str_eq k j ≡ false
    → All (λ e. same_entry (k, w) e ≡ false) m
    → All (λ e. same_entry (k, w) e ≡ false) (insert j v m)
unfolding insert
insert-absent k j v w [] n h = (n, tt)
insert-absent k j v w ((i, u) ∷ m) n h = elim (Bool-cases (str_eq i j)) [
  | inl e ↦ rw e (n, h.1)
  | inr e ↦ rw e (h.0, insert-absent k j v w m n h.1)
]

-- A write keeps each key at one place.
pub insert-HasKeys : (k : String) (v : ℕ) (m : Dict ℕ) → HasKeys m → HasKeys (insert k v m)
unfolding insert
insert-HasKeys k v [] a = (tt, tt)
insert-HasKeys k v ((j, w) ∷ m) a = elim (Bool-cases (str_eq j k)) [
  | inl e ↦ rw e (rw ((eq_iff j k).0 e) at a.0, a.1)
  | inr e ↦ rw e (insert-absent j k v w m e a.0, insert-HasKeys k v m a.1)
]

-- A bound on every read bounds every entry.
pub All-get :
    (f : String → ℕ) (m : Dict ℕ)
    → HasKeys m
    → ((k : String) → get k m ≤ f k)
    → All (λ e. e.1 ≤ f e.0) m
unfolding lookup
All-get f [] a h = tt
All-get f ((j, v) ∷ m) a h = (
  ground (arith, h j, eq_iff j j),
  All-get f m a.1 (λ k. ground (arith, h k, eq_iff j k, get-absent j v m a.0)),
)
