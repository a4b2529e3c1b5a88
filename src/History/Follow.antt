-- ===== src/History/Follow.antt =====
-- Following the cursor of a page (services/transfers-svc/http.go): what the next page is taken from.
use neo_bank.Prelude.{
  ℕ, ◌+◌, ◌≤◌, ◌≡◌, refl, sym, ◌∙◌, inl, inr, Bool, true, false, not, ◌&&◌, List, [], ◌∷◌, some,
  arith, select, count, All, Bool-cases,
}
use mathlib.Core.Path.{subst}
use neo_bank.Prelude.Sorting.{IsSorted}
use neo_bank.Prelude.Members.{In, All-of, All-map, All-both}
use neo_bank.Prelude.Top.{IsTop, IsFirst-All, count-none, irrefl}
use neo_bank.History.Serve.{last_of}

module _ {A : Type 0} where
  pub last_of-In : (xs : List A) (l : A) → last_of xs ≡ some l → In l xs
  last_of-In [] l e = cc
  last_of-In (x ∷ []) l e = inl (cc e)
  last_of-In (x ∷ y ∷ xs) l e = inr (last_of-In (y ∷ xs) l e)

  pub count-select :
      (p q : A → Bool) (xs : List A) → count p (select q xs) ≡ count (λ x. q x && p x) xs
  count-select p q [] = refl
  count-select p q (x ∷ xs) = ground (arith, count-select p q xs)

  count-same : (p q : A → Bool) (xs : List A) → All (λ x. p x ≡ q x) xs → count p xs ≡ count q xs
  count-same p q [] h = refl
  count-same p q (x ∷ xs) (e, h) = rw e (omega (arith, count-same p q xs h))

  count-In : (p : A → Bool) (x : A) (xs : List A) → p x ≡ true → In x xs → 1 ≤ count p xs
  count-In p x [] e h = elim h [ ]
  count-In p x (y ∷ xs) e (inl f) =
      let here : p y ≡ true = subst (λ z. p z ≡ true) f e in ground (arith, here)
  count-In p x (y ∷ xs) e (inr h) = omega (arith, count-In p x xs e h)

  pub count-ext : (p q : A → Bool) (xs : List A) → ((x : A) → p x ≡ q x) → count p xs ≡ count q xs
  count-ext p q [] h = refl
  count-ext p q (x ∷ xs) h = rw (h x) (omega (arith, count-ext p q xs h))

  pub both-select :
      (p a b d : A → Bool) (xs : List A)
      → ((x : A) → d x ≡ true → b x ≡ true)
      → count p (select (λ x. a x && d x) xs) ≡ count p (select d (select (λ x. a x && b x) xs))
  both-select p a b d xs h =
      count-select p (λ x. a x && d x) xs
      ∙ count-ext (λ x. (a x && d x) && p x) (λ x. (a x && b x) && (d x && p x)) xs
          (λ x. by_tests (a x) (b x) (d x) (p x) (h x))
      ∙ sym (count-select (λ x. d x && p x) (λ x. a x && b x) xs)
      ∙ sym (count-select p d (select (λ x. a x && b x) xs))
    where
      by_tests : (u v w z : Bool) → (w ≡ true → v ≡ true) → ((u && w) && z) ≡ ((u && v) && (w && z))
      by_tests false v w z k = refl
      by_tests true v true z k = rw (k refl) refl
      by_tests true true false z k = refl
      by_tests true false false z k = refl

-- Neither row stands before the other.
abbrev pub ties : {A : Type 0} → (A → A → Bool) → A → A → Bool
ties before x y = not (before x y) && not (before y x)

pub All-false :
    {A : Type 0} (p : A → Bool) (xs : List A) → count p xs ≡ 0 → All (λ x. p x ≡ false) xs
All-false p [] e = tt
All-false p (x ∷ xs) e = elim (Bool-cases (p x)) [
  | inl t ↦ absurd (ground (arith, t))
  | inr f ↦ (f, All-false p xs (omega arith))
]

module _ {A : Type 0} (before : A → A → Bool)
    (asym : (x y : A) → before x y ≡ true → before y x ≡ false)
    (trans : (x y z : A) → before x y ≡ false → before y z ≡ false → before x z ≡ false) where
  last-later :
      (xs : List A) (l : A)
      → IsSorted before xs
      → last_of xs ≡ some l
      → All (λ e. before l e ≡ false) xs
  last-later [] l h e = tt
  last-later (x ∷ []) l h e =
      (subst (λ y. before l y ≡ false) (sym (same_some e)) (irrefl before asym trans l), tt)
    where
      same_some : some x ≡ some l → x ≡ l
      same_some f = cc
  last-later (x ∷ y ∷ xs) l h e = (
    All-of (λ z. before z x ≡ false) l (y ∷ xs) (IsFirst-All before x (y ∷ xs) h.0)
        (last_of-In (y ∷ xs) l e),
    last-later (y ∷ xs) l h.1 e,
  )

  no_tie : (l r : A) → before r l ≡ false → ties before l r ≡ false → before l r ≡ true
  no_tie l r e f = by_test (before l r) (before r l) e f
    where
      by_test : (a b : Bool) → b ≡ false → (not a && not b) ≡ false → a ≡ true
      by_test true b e f = refl
      by_test false b e f = cc

  -- What a page leaves out comes after its last row.
  rest-after :
      (limit : ℕ) (page rows : List A) (l : A) (t : IsTop before limit page rows)
      → last_of page ≡ some l
      → count (ties before l) rows ≤ 1
      → All (λ r. before l r ≡ true) t.rest
  rest-after limit page rows l t e unique =
      All-map _ _ (λ r h. no_tie l r h.0 h.1) t.rest
        (All-both _ _ t.rest
          (All-map (λ r. All (λ x. before r x ≡ false) page) (λ r. before r l ≡ false)
            (λ r a. All-of (λ x. before r x ≡ false) l page a (last_of-In page l e)) t.rest t.later)
          (All-false (ties before l) t.rest none_left))
    where
      self : ties before l l ≡ true
      self = rw (irrefl before asym trans l) refl

      none_left : count (ties before l) t.rest ≡ 0
      none_left = omega (
        arith,
        unique,
        t.same (ties before l),
        count-In (ties before l) l page self (last_of-In page l e),
      )

  -- The rows after the last row of a page are those that the page leaves out.
  pub page-rest :
      (limit : ℕ) (page rows : List A) (l : A)
      → IsTop before limit page rows
      → last_of page ≡ some l
      → count (ties before l) rows ≤ 1
      → (p : A → Bool) → count p page + count p (select (before l) rows) ≡ count p rows
  page-rest limit page rows l t e unique p = omega (
    arith,
    t.same p,
    count-select p (before l) rows,
    t.same (λ x. before l x && p x),
    count-none (λ x. before l x && p x) page
        (All-map (λ x. before l x ≡ false) _ (λ x h. cc h) page (last-later page l t.ordered e)),
    count-same (λ x. before l x && p x) p t.rest
        (All-map (λ x. before l x ≡ true) _ (λ x h. cc h) t.rest
          (rest-after limit page rows l t e unique)),
  )
