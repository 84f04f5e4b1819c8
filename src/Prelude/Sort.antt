-- ===== src/Prelude/Sort.antt =====
-- `slices.SortFunc` by insertion: Go's sort is named by its result, an ordered rearrangement.
-- `before x y` is the test `cmp(x, y) <= 0` of the comparison function.
use Prim.Native.Nat.{ℕ, zero, suc, ◌+◌}
use mathlib.Core.Path.{◌≡◌, refl}
use mathlib.Core.Bool.{Bool, true, false, ◌||◌}
use mathlib.Core.List.{List, [], ◌∷◌, ◌++◌, Perm}
use mathlib.Core.List.Perm
use native.Mathlib.Omega.{arith}
use mathlib.Core.Logic.{inl, inr}
use bosun.Prelude.Tests.{if◌then◌else◌, Bool-cases}
use bosun.Prelude.Lists.{length, sum_by, All, All-map, any, drop}

module _ {ℓ} {A : Type ℓ} (before : A → A → Bool) where
  unfoldable pub insert_sorted : A → List A → List A
  insert_sorted x [] = x ∷ []
  insert_sorted x (y ∷ ys) = if before x y then x ∷ y ∷ ys else y ∷ insert_sorted x ys

  unfoldable pub sort : List A → List A
  unfolding insert_sorted
  sort [] = []
  sort (x ∷ xs) = insert_sorted x (sort xs)

  length-insert_sorted : (x : A) (ys : List A) → length (insert_sorted x ys) ≡ suc (length ys)
  unfolding insert_sorted
  length-insert_sorted x [] = refl
  length-insert_sorted x (y ∷ ys) = ground (arith, length-insert_sorted x ys)

  pub length-sort : (xs : List A) → length (sort xs) ≡ length xs
  unfolding sort
  length-sort [] = refl
  length-sort (x ∷ xs) = ground (arith, length-insert_sorted x (sort xs), length-sort xs)

  insert_sorted-perm : (x : A) (ys : List A) → Perm (insert_sorted x ys) (x ∷ ys)
  unfolding insert_sorted
  insert_sorted-perm x [] = Perm.rfl
  insert_sorted-perm x (y ∷ ys) = elim (Bool-cases (before x y)) [
    | inl e ↦ rw e Perm.rfl
    | inr e ↦ rw e (Perm.trans (Perm.cons y (insert_sorted-perm x ys)) (Perm.swap x y ys))
  ]

  pub sort-perm : (xs : List A) → Perm (sort xs) xs
  unfolding sort
  sort-perm [] = Perm.rfl
  sort-perm (x ∷ xs) = Perm.trans (insert_sorted-perm x (sort xs)) (Perm.cons x (sort-perm xs))

  insert_sorted-All {κ} :
      (P : A → Type κ) (x : A) (ys : List A) → P x → All P ys → All P (insert_sorted x ys)
  unfolding insert_sorted
  insert_sorted-All P x [] px h = (px, tt)
  insert_sorted-All P x (y ∷ ys) px h = elim (Bool-cases (before x y)) [
    | inl e ↦ rw e (px, h)
    | inr e ↦ rw e (h.0, insert_sorted-All P x ys px h.1)
  ]

  pub sort-All {κ} : (P : A → Type κ) (xs : List A) → All P xs → All P (sort xs)
  unfolding sort
  sort-All P [] h = tt
  sort-All P (x ∷ xs) h = insert_sorted-All P x (sort xs) h.0 (sort-All P xs h.1)

  sum_by-insert_sorted :
      (f : A → ℕ) (x : A) (ys : List A) → sum_by f (insert_sorted x ys) ≡ f x + sum_by f ys
  unfolding insert_sorted
  sum_by-insert_sorted f x [] = refl
  sum_by-insert_sorted f x (y ∷ ys) = ground (arith, sum_by-insert_sorted f x ys)

  pub sum_by-sort : (f : A → ℕ) (xs : List A) → sum_by f (sort xs) ≡ sum_by f xs
  unfolding sort
  sum_by-sort f [] = refl
  sum_by-sort f (x ∷ xs) = ground (arith, sum_by-insert_sorted f x (sort xs), sum_by-sort f xs)

  -- In a sorted list each entry stands before all that follow it.
  abbrev pub IsSorted : List A → Type ℓ
  IsSorted [] = Unit
  IsSorted (x ∷ xs) = All (λ y. before x y ≡ true) xs × IsSorted xs

  pub IsSorted-drop : (n : ℕ) (xs : List A) → IsSorted xs → IsSorted (drop n xs)
  IsSorted-drop zero xs h = h
  IsSorted-drop (suc n) [] h = tt
  IsSorted-drop (suc n) (x ∷ xs) h = IsSorted-drop n xs h.1

-- A comparison that decides by a coarser, transitive order first sorts by that order.
module _ {ℓ} {A : Type ℓ} (before order : A → A → Bool)
    (fits : (x y : A) → before x y ≡ true → order x y ≡ true)
    (total : (x y : A) → before x y ≡ false → order y x ≡ true)
    (trans : (x y z : A) → order x y ≡ true → order y z ≡ true → order x z ≡ true) where
  insert_sorted-IsSorted :
      (x : A) (ys : List A) → IsSorted order ys → IsSorted order (insert_sorted before x ys)
  unfolding insert_sorted
  insert_sorted-IsSorted x [] h = (tt, tt)
  insert_sorted-IsSorted x (y ∷ ys) h = elim (Bool-cases (before x y)) [
    | inl e ↦
        let xy = fits x y e in
        rw e (
          (
            xy,
            All-map (λ z. order y z ≡ true) (λ z. order x z ≡ true) (λ z. trans x y z xy) ys h.0,
          ),
          h,
        )
    | inr e ↦ rw e (
      insert_sorted-All before (λ z. order y z ≡ true) x ys (total x y e) h.0,
      insert_sorted-IsSorted x ys h.1,
    )
  ]

  pub sort-IsSorted : (xs : List A) → IsSorted order (sort before xs)
  unfolding sort
  sort-IsSorted [] = tt
  sort-IsSorted (x ∷ xs) = insert_sorted-IsSorted x (sort before xs) (sort-IsSorted xs)

-- No two entries of the list are the same.
module _ {ℓ} {A : Type ℓ} (same : A → A → Bool) where
  abbrev pub IsApart : List A → Type ℓ
  IsApart [] = Unit
  IsApart (x ∷ xs) = All (λ y. same x y ≡ false) xs × IsApart xs

  pub IsApart-drop : (n : ℕ) (xs : List A) → IsApart xs → IsApart (drop n xs)
  IsApart-drop zero xs h = h
  IsApart-drop (suc n) [] h = tt
  IsApart-drop (suc n) (x ∷ xs) h = IsApart-drop n xs h.1

  All-snoc {κ} : (P : A → Type κ) (xs : List A) (x : A) → All P xs → P x → All P (xs ++ x ∷ [])
  All-snoc P [] x h p = (p, tt)
  All-snoc P (y ∷ xs) x h p = (h.0, All-snoc P xs x h.1 p)

  or_false : (a b : Bool) → (a || b) ≡ false → (a ≡ false) × (b ≡ false)
  or_false a b h = ground arith

  pub IsApart-snoc :
      (xs : List A) (s : A) → IsApart xs → any (λ x. same x s) xs ≡ false → IsApart (xs ++ s ∷ [])
  IsApart-snoc [] s h e = (tt, tt)
  IsApart-snoc (x ∷ xs) s h e =
      let parts = or_false (same x s) (any (λ y. same y s) xs) e in
      (All-snoc (λ y. same x y ≡ false) xs s h.0 parts.0, IsApart-snoc xs s h.1 parts.1)

module _ {ℓ} {A : Type ℓ} (before same : A → A → Bool)
    (symm : (x y : A) → same x y ≡ false → same y x ≡ false) where
  insert_sorted-IsApart :
      (x : A) (ys : List A)
      → All (λ y. same x y ≡ false) ys
      → IsApart same ys
      → IsApart same (insert_sorted before x ys)
  unfolding insert_sorted
  insert_sorted-IsApart x [] p h = (tt, tt)
  insert_sorted-IsApart x (y ∷ ys) p h = elim (Bool-cases (before x y)) [
    | inl e ↦ rw e (p, h)
    | inr e ↦ rw e (
      insert_sorted-All before (λ z. same y z ≡ false) x ys (symm x y p.0) h.0,
      insert_sorted-IsApart x ys p.1 h.1,
    )
  ]

  pub sort-IsApart : (xs : List A) → IsApart same xs → IsApart same (sort before xs)
  unfolding sort
  sort-IsApart [] h = tt
  sort-IsApart (x ∷ xs) h =
      insert_sorted-IsApart x (sort before xs) (sort-All before (λ y. same x y ≡ false) xs h.0)
        (sort-IsApart xs h.1)

module _ {ℓ κ} {A : Type ℓ} (before : A → A → Bool) (P : A → Type κ) where
  insert_sorted-All_inv : (x : A) (ys : List A) → All P (insert_sorted before x ys) → P x × All P ys
  unfolding insert_sorted
  insert_sorted-All_inv x [] h = h
  insert_sorted-All_inv x (y ∷ ys) h = elim (Bool-cases (before x y)) [
    | inl e ↦ rw e at h
    | inr e ↦
        let h' = (rw e at h) in
        let (px, rest) = insert_sorted-All_inv x ys h'.1 in (px, (h'.0, rest))
  ]

  -- What holds of all entries of the sorted list holds of all entries.
  pub sort-All_inv : (xs : List A) → All P (sort before xs) → All P xs
  unfolding sort
  sort-All_inv [] h = tt
  sort-All_inv (x ∷ xs) h =
      let (px, rest) = insert_sorted-All_inv x (sort before xs) h in (px, sort-All_inv xs rest)
