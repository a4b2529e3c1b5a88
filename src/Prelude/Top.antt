-- ===== src/Prelude/Top.antt =====
-- The first rows of a table in an order: what LIMIT after ORDER BY returns, and how the first rows
-- of two tables give those of both.
use mathlib.Core.Path.{◌≡◌, refl, sym, ap, ◌∙◌}
use mathlib.Core.Logic.{◌⊎◌, inl, inr}
use mathlib.Core.Bool.{Bool, true, false, not}
use mathlib.Core.List.{List, [], ◌∷◌, ◌++◌, map}
use Prim.Native.Nat.{ℕ, zero, suc, ◌+◌, ◌≤◌, ◌<◌}
use native.Mathlib.Omega.{arith}
use neo_bank.Prelude.Tests.{if◌then◌else◌, Bool-cases, ltb}
use neo_bank.Prelude.Lists.{All, take, drop, count, length}
use neo_bank.Prelude.Sorting.{sort, IsFirst, IsSorted, count-sort, sort-IsSorted}
use neo_bank.Prelude.Members.{
  All-map, All-take, All-append, All-both, count-take, count_le, length-sort, length-drop,
}

module _ {A : Type 0} where
  pub count-append : (p : A → Bool) (xs ys : List A) → count p (xs ++ ys) ≡ count p xs + count p ys
  count-append p [] ys = omega arith
  count-append p (x ∷ xs) ys = omega (arith, count-append p xs ys)

  pub count-All : (p : A → Bool) (xs : List A) → All (λ x. p x ≡ true) xs → count p xs ≡ length xs
  count-All p [] h = refl
  count-All p (x ∷ xs) (e, h) = ground (arith, count-All p xs h)

  pub count-none : (p : A → Bool) (xs : List A) → All (λ x. p x ≡ false) xs → count p xs ≡ 0
  count-none p [] h = refl
  count-none p (x ∷ xs) (e, h) = ground (arith, count-none p xs h)

  pub length-count : (xs : List A) → count (λ x. true) xs ≡ length xs
  length-count [] = refl
  length-count (x ∷ xs) = omega (arith, length-count xs)

  pub count-le :
      (p q : A → Bool) (xs : List A) → ((x : A) → p x ≡ true → q x ≡ true) → count p xs ≤ count q xs
  count-le p q [] h = omega arith
  count-le p q (x ∷ xs) h = elim (Bool-cases (p x)) [
    | inl e ↦ ground (arith, h x e, count-le p q xs h)
    | inr e ↦ ground (arith, count-le p q xs h)
  ]

  pub length-take : (n : ℕ) (xs : List A) → length (take n xs) + length (drop n xs) ≡ length xs
  length-take zero xs = omega arith
  length-take (suc n) [] = omega arith
  length-take (suc n) (x ∷ xs) = omega (arith, length-take n xs)

  pub All-drop : (P : A → Type 0) (n : ℕ) (xs : List A) → All P xs → All P (drop n xs)
  All-drop P zero xs a = a
  All-drop P (suc n) [] a = tt
  All-drop P (suc n) (x ∷ xs) a = All-drop P n xs a.1

  -- The first n rows are n rows, unless none are left.
  pub take_full : (n : ℕ) (xs : List A) → (drop n xs ≡ []) ⊎ (length (take n xs) ≡ n)
  take_full zero xs = inr refl
  take_full (suc n) [] = inl refl
  take_full (suc n) (x ∷ xs) = by_rest (take_full n xs)
    where
      by_rest :
          (drop n xs ≡ []) ⊎ (length (take n xs) ≡ n)
          → (drop n xs ≡ []) ⊎ (suc (length (take n xs)) ≡ suc n)
      by_rest (inl e) = inl e
      by_rest (inr e) = inr (ap suc e)

-- `page` holds the first `limit` rows: it is in order, as long as it may be, and no row that it
-- leaves out stands before one of its rows.
pub record IsTop {A : Type 0} (before : A → A → Bool) (limit : ℕ) (page rows : List A)
    : Type 0 where
  pub rest : List A
  pub same : (p : A → Bool) → count p page + count p rest ≡ count p rows
  pub ordered : IsSorted before page
  pub later : All (λ r. All (λ e. before r e ≡ false) page) rest
  pub limited : length page ≤ limit
  pub full : (rest ≡ []) ⊎ (length page ≡ limit)

-- Rows among which the first `limit` are: a row that is left out has `limit` rows of them that it
-- does not stand before.
pub record IsEnough {A : Type 0} (before : A → A → Bool) (limit : ℕ) (some_rows rows : List A)
    : Type 0 where
  pub rest : List A
  pub same : (p : A → Bool) → count p some_rows + count p rest ≡ count p rows
  pub later : All (λ r. limit ≤ count (λ e. not (before r e)) some_rows) rest

module _ {A : Type 0} (before : A → A → Bool) where
  pub IsFirst-All : (x : A) (xs : List A) → IsFirst before x xs → All (λ y. before y x ≡ false) xs
  IsFirst-All x [] h = tt
  IsFirst-All x (y ∷ xs) h = (h.0, IsFirst-All x xs h.1)

  All-IsFirst : (x : A) (xs : List A) → All (λ y. before y x ≡ false) xs → IsFirst before x xs
  All-IsFirst x [] h = tt
  All-IsFirst x (y ∷ xs) h = (h.0, All-IsFirst x xs h.1)

  take-IsSorted : (n : ℕ) (xs : List A) → IsSorted before xs → IsSorted before (take n xs)
  take-IsSorted zero xs h = tt
  take-IsSorted (suc n) [] h = tt
  take-IsSorted (suc n) (x ∷ xs) h =
      (All-IsFirst x _ (All-take _ n xs (IsFirst-All x xs h.0)), take-IsSorted n xs h.1)

  drop-later :
      (n : ℕ) (xs : List A)
      → IsSorted before xs
      → All (λ r. All (λ e. before r e ≡ false) (take n xs)) (drop n xs)
  drop-later zero xs h = All-map (λ r. Unit {0}) _ (λ r u. tt) xs (all_unit xs)
    where
      all_unit : (ys : List A) → All (λ y. Unit {0}) ys
      all_unit [] = tt
      all_unit (y ∷ ys) = (tt, all_unit ys)
  drop-later (suc n) [] h = tt
  drop-later (suc n) (x ∷ xs) h =
      All-both (λ r. before r x ≡ false) _ (drop n xs) (All-drop _ n xs (IsFirst-All x xs h.0))
        (drop-later n xs h.1)

  -- A page of one row less.
  pub IsTop-shrink :
      (limit : ℕ) (page rows : List A)
      → IsTop before (suc limit) page rows
      → IsTop before limit (take limit page) rows
  IsTop-shrink limit page rows t = record {
    rest = drop limit page ++ t.rest;
    same = λ p.
        omega (arith, t.same p, count-take p limit page, count-append p (drop limit page) t.rest);
    ordered = take-IsSorted limit page t.ordered;
    later = All-append _ (drop limit page) t.rest (drop-later limit page t.ordered) (
        All-map (λ r. All (λ e. before r e ≡ false) page) _ (λ r a. All-take _ limit page a) t.rest
          t.later);
    limited = omega (arith, length-take limit page, length-drop limit page);
    full = by_length t.full;
  }
    where
      by_length :
          (t.rest ≡ []) ⊎ (length page ≡ suc limit)
          → (drop limit page ++ t.rest ≡ []) ⊎ (length (take limit page) ≡ limit)
      by_length (inr e) = inr (omega (arith, e, length-take limit page, length-drop limit page))
      by_length (inl e) = by_drop (take_full limit page)
        where
          by_drop :
              (drop limit page ≡ []) ⊎ (length (take limit page) ≡ limit)
              → (drop limit page ++ t.rest ≡ []) ⊎ (length (take limit page) ≡ limit)
          by_drop (inl d) = inl (rw (d, e) refl)
          by_drop (inr f) = inr f

  pub IsTop-more :
      (limit : ℕ) (page rows : List A)
      → IsTop before (suc limit) page rows
      → ltb limit (length page) ≡ ltb limit (length rows)
  IsTop-more limit page rows t = by_length t.full
    where
      total : length page + length t.rest ≡ length rows
      total =
          omega
            (arith, t.same (λ x. true), length-count page, length-count t.rest, length-count rows)

      by_length :
          (t.rest ≡ []) ⊎ (length page ≡ suc limit)
          → ltb limit (length page) ≡ ltb limit (length rows)
      by_length (inl e) = ground (arith, total, ap length e)
      by_length (inr e) = ground (arith, total)

  pub IsTop-IsEnough :
      (limit : ℕ) (page rows : List A)
      → IsTop before limit page rows
      → IsEnough before limit page rows
  IsTop-IsEnough limit page rows t = record {
    rest = t.rest;
    same = t.same;
    later = by_length t.full;
  }
    where
      enough :
          length page ≡ limit
          → (r : A) → All (λ e. before r e ≡ false) page
          → limit ≤ count (λ e. not (before r e)) page
      enough e r a = omega (
        arith,
        count-All (λ x. not (before r x)) page
            (All-map (λ x. before r x ≡ false) _ (λ x b. ap not b) page a),
      )

      by_length :
          (t.rest ≡ []) ⊎ (length page ≡ limit)
          → All (λ r. limit ≤ count (λ e. not (before r e)) page) t.rest
      by_length (inl e) = rw e tt
      by_length (inr e) = All-map _ _ (enough e) t.rest t.later

  pub IsEnough-append :
      (limit : ℕ) (ps xs qs ys : List A)
      → IsEnough before limit ps xs
      → IsEnough before limit qs ys
      → IsEnough before limit (ps ++ qs) (xs ++ ys)
  IsEnough-append limit ps xs qs ys s t = record {
    rest = s.rest ++ t.rest;
    same = λ p. omega (
      arith,
      s.same p,
      t.same p,
      count-append p ps qs,
      count-append p xs ys,
      count-append p s.rest t.rest,
    );
    later =
        All-append _ s.rest t.rest
          (All-map _ _ (λ r l. omega (arith, l, count-append (λ e. not (before r e)) ps qs)) s.rest
            s.later)
          (All-map _ _ (λ r l. omega (arith, l, count-append (λ e. not (before r e)) ps qs)) t.rest
            t.later);
  }

  module _ (asym : (x y : A) → before x y ≡ true → before y x ≡ false)
      (trans : (x y z : A) → before x y ≡ false → before y z ≡ false → before x z ≡ false) where
    pub irrefl : (x : A) → before x x ≡ false
    irrefl x = elim (Bool-cases (before x x)) [ inl e ↦ asym x x e | inr e ↦ e ]

    -- A row among the first n has fewer than n rows before it.
    rank :
        (n : ℕ) (xs : List A)
        → IsSorted before xs
        → All (λ e. count (λ x. before x e) xs < n) (take n xs)
    rank zero xs h = tt
    rank (suc n) [] h = tt
    rank (suc n) (x ∷ xs) h = (
      ground (arith, irrefl x, count-none (λ y. before y x) xs (IsFirst-All x xs h.0)),
      All-map _ _ (λ e l. ground (arith, l)) (take n xs) (rank n xs h.1),
    )

    not_before :
        (n : ℕ) (xs : List A) (r e : A)
        → n ≤ count (λ x. not (before r x)) xs
        → count (λ x. before x e) xs < n
        → before r e ≡ false
    not_before n xs r e le lt = elim (Bool-cases (before r e)) [
      | inr f ↦ f
      | inl b ↦ absurd (
          omega (
            arith,
            le,
            lt,
            count-le (λ x. not (before r x)) (λ x. before x e) xs
                λ x k. between x (before r x) (before x e) b refl refl k,
          ))
    ]
      where
        between :
            (x : A) (rx xe : Bool)
            → before r e ≡ true
            → before r x ≡ rx
            → before x e ≡ xe
            → not rx ≡ true
            → xe ≡ true
        between x true xe b f g k = cc
        between x false true b f g k = refl
        between x false false b f g k = sym (trans r x e f g) ∙ b

    -- The first rows of enough rows.
    pub IsEnough-IsTop :
        (limit : ℕ) (xs rows : List A)
        → IsEnough before limit xs rows
        → IsTop before limit (take limit (sort before xs)) rows
    IsEnough-IsTop limit xs rows h = record {
      rest = drop limit (sort before xs) ++ h.rest;
      same = λ p. omega (
        arith,
        h.same p,
        count-sort before p xs,
        count-take p limit (sort before xs),
        count-append p (drop limit (sort before xs)) h.rest,
      );
      ordered = take-IsSorted limit (sort before xs) sorted;
      later =
          All-append _ (drop limit (sort before xs)) h.rest
            (drop-later limit (sort before xs) sorted) (All-map _ _ left_out h.rest h.later);
      limited =
          omega (arith, length-take limit (sort before xs), length-drop limit (sort before xs));
      full = by_full (take_full limit (sort before xs)) h.rest h.later;
    }
      where
        sorted : IsSorted before (sort before xs)
        sorted = sort-IsSorted before asym trans xs

        left_out :
            (r : A)
            → limit ≤ count (λ e. not (before r e)) xs
            → All (λ e. before r e ≡ false) (take limit (sort before xs))
        left_out r le =
            All-map (λ e. count (λ x. before x e) (sort before xs) < limit) _
              (λ e lt.
                not_before limit xs r e le
                  (omega (arith, lt, count-sort before (λ x. before x e) xs)))
              _ (rank limit (sort before xs) sorted)

        by_full :
            (drop limit (sort before xs) ≡ []) ⊎ (length (take limit (sort before xs)) ≡ limit)
            → (rest : List A) → All (λ r. limit ≤ count (λ e. not (before r e)) xs) rest
            → (drop limit (sort before xs) ++ rest ≡ [])
              ⊎ (length (take limit (sort before xs)) ≡ limit)
        by_full (inr f) rest l = inr f
        by_full (inl d) [] l = inl (rw d refl)
        by_full (inl d) (r ∷ rest) l = inr (
            omega (
              arith,
              l.0,
              count_le (λ e. not (before r e)) xs,
              length-sort before xs,
              length-take limit (sort before xs),
              length-drop limit (sort before xs),
            ))

    -- ORDER BY and LIMIT.
    pub take-sort-IsTop :
        (limit : ℕ) (rows : List A) → IsTop before limit (take limit (sort before rows)) rows
    take-sort-IsTop limit rows =
        IsEnough-IsTop limit rows rows (record { rest = []; same = λ p. omega arith; later = tt })

module _ {A : Type 0} (before : A → A → Bool) where
  pub IsTop-length :
      (limit : ℕ) (page rows : List A)
      → IsTop before limit page rows
      → (length page ≡ length rows) ⊎ ((length page ≡ limit) × (limit ≤ length rows))
  IsTop-length limit page rows t = by_full t.full
    where
      total : length page + length t.rest ≡ length rows
      total =
          omega
            (arith, t.same (λ x. true), length-count page, length-count t.rest, length-count rows)

      by_full :
          (t.rest ≡ []) ⊎ (length page ≡ limit)
          → (length page ≡ length rows) ⊎ ((length page ≡ limit) × (limit ≤ length rows))
      by_full (inl e) = inl (omega (arith, total, ap length e))
      by_full (inr e) = inr (e, omega (arith, total))

  take_all : (n : ℕ) (xs : List A) → length xs ≤ n → take n xs ≡ xs
  take_all zero [] le = refl
  take_all zero (x ∷ xs) le = absurd (omega arith)
  take_all (suc n) [] le = refl
  take_all (suc n) (x ∷ xs) le = ap (λ ys. x ∷ ys) (take_all n xs (omega arith))

  -- Rows are cut to a limit only where they exceed it.
  pub cut-take :
      (limit : ℕ) (xs : List A)
      → (if ltb limit (length xs) then take limit xs else xs) ≡ take limit xs
  cut-take limit xs = elim (Bool-cases (ltb limit (length xs))) [
    | inl e ↦ rw e refl
    | inr e ↦ rw e (sym (take_all limit xs (ground arith)))
  ]

module _ {A B : Type 0} (f : A → B) where
  pub count-map : (p : B → Bool) (xs : List A) → count p (map f xs) ≡ count (λ x. p (f x)) xs
  count-map p [] = refl
  count-map p (x ∷ xs) = omega (arith, count-map p xs)

  pub length-map : (xs : List A) → length (map f xs) ≡ length xs
  length-map [] = refl
  length-map (x ∷ xs) = omega (arith, length-map xs)

  pub All-mapped : (P : B → Type 0) (xs : List A) → All (λ x. P (f x)) xs → All P (map f xs)
  All-mapped P [] a = tt
  All-mapped P (x ∷ xs) a = (a.0, All-mapped P xs a.1)

  pub map-IsEnough :
      (before : A → A → Bool) (before' : B → B → Bool) (limit : ℕ) (xs rows : List A)
      → ((x y : A) → before' (f x) (f y) ≡ before x y)
      → IsEnough before limit xs rows
      → IsEnough before' limit (map f xs) (map f rows)
  map-IsEnough before before' limit xs rows same h = record {
    rest = map f h.rest;
    same = λ p.
        omega (arith, h.same (λ x. p (f x)), count-map p xs, count-map p h.rest, count-map p rows);
    later =
        All-mapped (λ r. limit ≤ count (λ e. not (before' r e)) (map f xs)) h.rest
          (All-map _ _
            (λ r le. omega (
              arith,
              le,
              count-map (λ e. not (before' (f r) e)) xs,
              count-le (λ e. not (before r e)) (λ e. not (before' (f r) (f e))) xs
                  λ e n. ap not (same r e) ∙ n,
            ))
            h.rest h.later);
  }
