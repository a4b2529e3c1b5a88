-- ===== src/Prelude/Sorting.antt =====
-- ORDER BY and sort.Slice as insertion sort: which algorithm sorts is not visible, since no two
-- rows share a key.
use Prim.Native.Nat.{◌+◌}
use mathlib.Core.Path.{◌≡◌, refl}
use mathlib.Core.Bool.{Bool, true, false}
use mathlib.Core.Logic.{inl, inr}
use mathlib.Core.List.{List, [], ◌∷◌}
use native.Mathlib.Omega.{arith}
use neo_bank.Prelude.Tests.{if◌then◌else◌, Bool-cases}
use neo_bank.Prelude.Lists.{count}

module _ {A : Type 0} (before : A → A → Bool) where
  unfoldable pub insert : A → List A → List A
  insert x [] = x ∷ []
  insert x (y ∷ ys) = let rest = insert x ys in if before x y then x ∷ y ∷ ys else y ∷ rest

  unfoldable pub sort : List A → List A
  sort [] = []
  sort (x ∷ xs) = insert x (sort xs)

  -- No row stands after one that it should come before.
  abbrev pub IsFirst : A → List A → Type 0
  IsFirst x [] = Unit {0}
  IsFirst x (y ∷ ys) = (before y x ≡ false) × IsFirst x ys

  abbrev pub IsSorted : List A → Type 0
  IsSorted [] = Unit {0}
  IsSorted (x ∷ xs) = IsFirst x xs × IsSorted xs

  pub count-insert :
      (p : A → Bool) (x : A) (xs : List A)
      → count p (insert x xs) ≡ (if p x then 1 else 0) + count p xs
  unfolding insert
  count-insert p x [] = refl
  count-insert p x (y ∷ ys) = ground (arith, count-insert p x ys)

  -- Sorting keeps the rows.
  pub count-sort : (p : A → Bool) (xs : List A) → count p (sort xs) ≡ count p xs
  unfolding sort
  count-sort p [] = refl
  count-sort p (x ∷ xs) = omega (arith, count-insert p x (sort xs), count-sort p xs)

  IsFirst-insert :
      (x y : A) (ys : List A) → before y x ≡ false → IsFirst x ys → IsFirst x (insert y ys)
  unfolding insert
  IsFirst-insert x y [] b h = (b, tt)
  IsFirst-insert x y (z ∷ zs) b h = ground (arith, IsFirst-insert x y zs b h.1)

  module _ (asym : (x y : A) → before x y ≡ true → before y x ≡ false)
      (trans : (x y z : A) → before x y ≡ false → before y z ≡ false → before x z ≡ false) where
    IsFirst-trans : (x y : A) (zs : List A) → before y x ≡ false → IsFirst y zs → IsFirst x zs
    IsFirst-trans x y [] b h = tt
    IsFirst-trans x y (z ∷ zs) b h = (trans z y x h.0 b, IsFirst-trans x y zs b h.1)

    insert-IsSorted : (x : A) (xs : List A) → IsSorted xs → IsSorted (insert x xs)
    unfolding insert
    insert-IsSorted x [] h = (tt, tt)
    insert-IsSorted x (y ∷ ys) h = elim (Bool-cases (before x y)) [
      | inl e ↦ rw e ((asym x y e, IsFirst-trans x y ys (asym x y e) h.0), h)
      | inr e ↦ rw e (IsFirst-insert y x ys e h.0, insert-IsSorted x ys h.1)
    ]

    pub sort-IsSorted : (xs : List A) → IsSorted (sort xs)
    unfolding sort
    sort-IsSorted [] = tt
    sort-IsSorted (x ∷ xs) = insert-IsSorted x (sort xs) (sort-IsSorted xs)
