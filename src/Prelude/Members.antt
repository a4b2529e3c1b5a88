-- ===== src/Prelude/Members.antt =====
-- What holds of every row of a table, and the rows that a table holds.
use Prim.Native.Nat.{ℕ, zero, suc, ◌≤◌, ◌+◌, ◌-◌}
use mathlib.Core.Path.{◌≡◌, refl, ap, sym, subst}
use mathlib.Core.Logic.{◌⊎◌, inl, inr}
use mathlib.Core.Bool.{Bool, true, false}
use mathlib.Core.List.{List, [], ◌∷◌, ◌++◌, map}
use native.Mathlib.Omega.{arith}
use neo_bank.Prelude.Tests.{if◌then◌else◌, Bool-cases}
use neo_bank.Prelude.Lists.{All, take, drop, select, count, length}
use neo_bank.Prelude.Sorting.{insert, sort, count-sort}

module _ {A : Type 0} where
  abbrev pub In : A → List A → Type 0
  In x [] = ⊥
  In x (y ∷ ys) = (x ≡ y) ⊎ In x ys

  pub append_assoc : (xs ys zs : List A) → (xs ++ ys) ++ zs ≡ xs ++ (ys ++ zs)
  append_assoc [] ys zs = refl
  append_assoc (x ∷ xs) ys zs = cc (append_assoc xs ys zs)

  pub append_nil : (xs : List A) → xs ++ [] ≡ xs
  append_nil [] = refl
  append_nil (x ∷ xs) = cc (append_nil xs)

  pub In-append_right : (x : A) (xs ys : List A) → In x ys → In x (xs ++ ys)
  In-append_right x [] ys h = h
  In-append_right x (y ∷ xs) ys h = inr (In-append_right x xs ys h)

  pub In-append_left : (x : A) (xs ys : List A) → In x xs → In x (xs ++ ys)
  In-append_left x [] ys h = elim h [ ]
  In-append_left x (y ∷ xs) ys (inl e) = inl e
  In-append_left x (y ∷ xs) ys (inr h) = inr (In-append_left x xs ys h)

  pub All-map : (P Q : A → Type 0) → ((a : A) → P a → Q a) → (xs : List A) → All P xs → All Q xs
  All-map P Q h [] x = tt
  All-map P Q h (a ∷ xs) x = (h a x.0, All-map P Q h xs x.1)

  pub All-In : (xs : List A) → All (λ x. In x xs) xs
  All-In [] = tt
  All-In (x ∷ xs) =
      (inl refl, All-map (λ y. In y xs) (λ y. In y (x ∷ xs)) (λ y h. inr h) xs (All-In xs))

  pub All-both : (P Q : A → Type 0) (xs : List A) → All P xs → All Q xs → All (λ x. P x × Q x) xs
  All-both P Q [] a b = tt
  All-both P Q (x ∷ xs) a b = ((a.0, b.0), All-both P Q xs a.1 b.1)

  module _ (P : A → Type 0) where
    pub All-of : (x : A) (xs : List A) → All P xs → In x xs → P x
    All-of x [] a h = elim h [ ]
    All-of x (y ∷ xs) a (inl e) = subst P (sym e) a.0
    All-of x (y ∷ xs) a (inr h) = All-of x xs a.1 h

    pub All-append : (xs ys : List A) → All P xs → All P ys → All P (xs ++ ys)
    All-append [] ys a b = b
    All-append (x ∷ xs) ys a b = (a.0, All-append xs ys a.1 b)

    pub All-take : (n : ℕ) (xs : List A) → All P xs → All P (take n xs)
    All-take zero xs a = tt
    All-take (suc n) [] a = tt
    All-take (suc n) (x ∷ xs) a = (a.0, All-take n xs a.1)

    -- A shorter prefix.
    pub All-shorter : (m n : ℕ) (xs : List A) → m ≤ n → All P (take n xs) → All P (take m xs)
    All-shorter zero n xs le a = tt
    All-shorter (suc m) zero xs le a = absurd (omega arith)
    All-shorter (suc m) (suc n) [] le a = tt
    All-shorter (suc m) (suc n) (x ∷ xs) le a = (a.0, All-shorter m n xs (omega arith) a.1)

    pub All-select : (p : A → Bool) (xs : List A) → All P xs → All P (select p xs)
    All-select p [] a = tt
    All-select p (x ∷ xs) a =
        elim (p x) as (λ b. All P (let rest = select p xs in if b then x ∷ rest else rest)) [
          | true ↦ (a.0, All-select p xs a.1)
          | false ↦ All-select p xs a.1
        ]

    All-insert :
        (before : A → A → Bool) (x : A) (xs : List A) → P x → All P xs → All P (insert before x xs)
    unfolding insert
    All-insert before x [] h a = (h, tt)
    All-insert before x (y ∷ xs) h a =
        elim (before x y)
          as (λ b. All P (let rest = insert before x xs in if b then x ∷ y ∷ xs else y ∷ rest)) [
            | true ↦ (h, a)
            | false ↦ (a.0, All-insert before x xs h a.1)
          ]

    pub All-sort : (before : A → A → Bool) (xs : List A) → All P xs → All P (sort before xs)
    unfolding sort
    All-sort before [] a = tt
    All-sort before (x ∷ xs) a = All-insert before x (sort before xs) a.0 (All-sort before xs a.1)

  pub select-All : (p : A → Bool) (xs : List A) → All (λ x. p x ≡ true) (select p xs)
  select-All p [] = tt
  select-All p (x ∷ xs) = elim (Bool-cases (p x)) [
    | inl e ↦ rw e (e, select-All p xs)
    | inr e ↦ rw e (select-All p xs)
  ]

  pub count-take :
      (p : A → Bool) (n : ℕ) (xs : List A) → count p xs ≡ count p (take n xs) + count p (drop n xs)
  count-take p zero xs = omega arith
  count-take p (suc n) [] = omega arith
  count-take p (suc n) (x ∷ xs) = omega (arith, count-take p n xs)

  pub count_le : (p : A → Bool) (xs : List A) → count p xs ≤ length xs
  count_le p [] = omega arith
  count_le p (x ∷ xs) = ground (arith, count_le p xs)

  pub length-select : (p : A → Bool) (xs : List A) → length (select p xs) ≡ count p xs
  length-select p [] = refl
  length-select p (x ∷ xs) = ground (arith, length-select p xs)

pub length-sort :
    {A : Type 0} (before : A → A → Bool) (xs : List A) → length (sort before xs) ≡ length xs
length-sort before xs =
    omega (arith, count-sort before (λ x. true) xs, length-count (sort before xs), length-count xs)
  where
    length-count : {A : Type 0} (ys : List A) → count (λ y. true) ys ≡ length ys
    length-count [] = refl
    length-count (y ∷ ys) = omega (arith, length-count ys)

pub length-drop : {A : Type 0} (n : ℕ) (xs : List A) → length (drop n xs) ≡ length xs - n
length-drop zero xs = omega arith
length-drop (suc n) [] = omega arith
length-drop (suc n) (x ∷ xs) = omega (arith, length-drop n xs)

pub In-map : {A B : Type 0} (f : A → B) (x : A) (xs : List A) → In x xs → In (f x) (map f xs)
In-map f x [] h = elim h [ ]
In-map f x (y ∷ xs) (inl e) = inl (ap f e)
In-map f x (y ∷ xs) (inr h) = inr (In-map f x xs h)
