-- ===== src/Iban/Detects.antt =====
-- What the checksum of Validate (pkg/iban/iban.go) detects.
use neo_bank.Prelude.{
  ℕ, ◌+◌, ◌-◌, ◌*◌, ◌%◌, ◌≤◌, ◌<◌, ◌≡◌, ◌≢◌, refl, sym, ap, ◌∙◌, Bool, true, false, ◌&&◌, not, [],
  ◌∷◌, ◌++◌, map, select, Option, none, some, arith, length, take, drop, ltb, ◌==◌, if◌then◌else◌,
}
use mathlib.Core.Path.{subst}
use neo_bank.Prelude.Members.{append_assoc}
use neo_bank.Iban.Text.{
  Text, is_digit, is_letter, non_empty, is_letter_or_digit, is_all_letters, is_all_digits,
  is_all_letters_or_digits, all, upper, normalize, no_space, mod97_remainder,
}
use neo_bank.Iban.Code.{
  Checked, passed, refused, require, and_then, check_remainder, validate_normalized, validate,
  IbanError,
}
use neo_bank.Iban.Digits.{place, value, value-append, mod97_remainder-some, both_true}
use neo_bank.Iban.Generated.{all-append, letters-known, digits-known, known-plain, or_true}

-- What stands after does not make two numbers equal modulo 97.
value-injective : (s : Text) (n m : ℕ) → value n s % 97 ≡ value m s % 97 → n % 97 ≡ m % 97
unfolding value
value-injective [] n m e = e
value-injective (r ∷ s) n m e =
    same_place (is_digit r) (value-injective s (place n r) (place m r) e)
  where
    placed : Bool → ℕ → ℕ
    placed d k = if d then k * 10 + (r - b'0') else k * 100 + (r - b'A' + 10)

    same_place : (d : Bool) → placed d n % 97 ≡ placed d m % 97 → n % 97 ≡ m % 97
    same_place true e = omega arith
    same_place false e = omega arith

digits-differ :
    (v a b : ℕ) → is_digit a ≡ true → is_digit b ≡ true → place v a % 97 ≡ place v b % 97 → a ≡ b
unfolding is_digit
digits-differ v a b d d' e = ground arith

value-step : (n r : ℕ) (s : Text) → value n (r ∷ s) ≡ value (place n r) s
unfolding value
value-step n r s = refl

value-detects :
    (s t : Text) (a b : ℕ)
    → is_digit a ≡ true
    → is_digit b ≡ true
    → value 0 (s ++ a ∷ t) % 97 ≡ value 0 (s ++ b ∷ t) % 97
    → a ≡ b
value-detects s t a b d d' e =
    digits-differ (value 0 s) a b d d' (value-injective t _ _ (sym (split a) ∙ e ∙ split b))
  where
    split : (r : ℕ) → value 0 (s ++ r ∷ t) % 97 ≡ value (place (value 0 s) r) t % 97
    split r = ap (λ n. n % 97) (value-append 0 s (r ∷ t) ∙ value-step (value 0 s) r t)

require-passed :
    {A : Type 0} (test : Bool) (e : IbanError) (rest : Checked A) (x : A)
    → require test e rest ≡ passed x
    → (test ≡ true) × (rest ≡ passed x)
require-passed true e rest x h = (refl, h)
require-passed false e rest x h = cc

and_then-passed : (m rest : Checked (Unit {0})) → and_then m rest ≡ passed tt → rest ≡ passed tt
and_then-passed (passed nothing) rest h = h
and_then-passed (refused e) rest h = cc

remainder-one : (o : Option ℕ) → check_remainder o ≡ passed tt → o ≡ some 1
remainder-one none h = cc
remainder-one (some r) h = ap some (is_one (require-passed (r == 1) _ _ tt h).0)
  where
    is_one : (r == 1) ≡ true → r ≡ 1
    is_one e = ground arith

-- The text whose remainder is checked.
abbrev rearranged : Text → Text
rearranged n = drop 4 n ++ (take 2 n ++ take 2 (drop 2 n))

nonempty-all : (test : ℕ → Bool) (s : Text) → (non_empty s && all test s) ≡ true → all test s ≡ true
nonempty-all test s h = (both_true (non_empty s) (all test s) h).1

accepted :
    (n : Text)
    → validate_normalized n ≡ passed tt
    → (mod97_remainder (rearranged n) ≡ some 1) × (is_all_letters_or_digits (rearranged n) ≡ true)
unfolding validate_normalized
accepted n h =
    let (long, h1) = require-passed (not (ltb (length n) 4)) _ _ tt h in
    let (country, h2) = require-passed (is_all_letters (take 2 n)) _ _ tt h1 in
    let (digits, h3) = require-passed (is_all_digits (take 2 (drop 2 n))) _ _ tt h2 in
    let (known, h4) = require-passed (is_all_letters_or_digits (drop 4 n)) _ _ tt h3 in
    (
      remainder-one _ (and_then-passed _ _ h4),
      all-append is_letter_or_digit (drop 4 n) _ known (
          all-append is_letter_or_digit (take 2 n) _
            (letters-known _ (nonempty-all is_letter (take 2 n) country))
            (digits-known _ (nonempty-all is_digit (take 2 (drop 2 n)) digits))),
    )

length-cons : (s t : Text) (r : ℕ) → 0 < length (s ++ r ∷ t)
length-cons [] t r = omega arith
length-cons (x ∷ s) t r = omega arith

accepted-value :
    (s t : Text) (r : ℕ)
    → (mod97_remainder (s ++ r ∷ t) ≡ some 1) × (is_all_letters_or_digits (s ++ r ∷ t) ≡ true)
    → value 0 (s ++ r ∷ t) % 97 ≡ 1
accepted-value s t r (one, known) =
    same_some (sym (mod97_remainder-some (s ++ r ∷ t) (length-cons s t r) known) ∙ one)
  where
    same_some : {n m : ℕ} → some n ≡ some m → n ≡ m
    same_some e = cc

normalized-detects :
    (s t : Text) (a b : ℕ)
    → is_digit a ≡ true
    → is_digit b ≡ true
    → 4 ≤ length s
    → validate_normalized (s ++ a ∷ t) ≡ passed tt
    → validate_normalized (s ++ b ∷ t) ≡ passed tt
    → a ≡ b
normalized-detects (p ∷ q ∷ r ∷ u ∷ s) t a b d d' le h h' =
    value-detects s (t ++ first) a b d d' (of_digit a h ∙ sym (of_digit b h'))
  where
    first : Text
    first = p ∷ q ∷ r ∷ u ∷ []

    of_digit :
        (x : ℕ)
        → validate_normalized (p ∷ q ∷ r ∷ u ∷ (s ++ x ∷ t)) ≡ passed tt
        → value 0 (s ++ x ∷ (t ++ first)) % 97 ≡ 1
    of_digit x h = accepted-value s (t ++ first) x (
        subst (λ n. (mod97_remainder n ≡ some 1) × (is_all_letters_or_digits n ≡ true))
          (append_assoc s (x ∷ t) first) (accepted (p ∷ q ∷ r ∷ u ∷ (s ++ x ∷ t)) h))
normalized-detects [] t a b d d' le h h' = absurd (omega arith)
normalized-detects (p ∷ []) t a b d d' le h h' = absurd (omega arith)
normalized-detects (p ∷ q ∷ []) t a b d d' le h h' = absurd (omega arith)
normalized-detects (p ∷ q ∷ r ∷ []) t a b d d' le h h' = absurd (omega arith)

normalize-append :
    (s t : Text) (r : ℕ)
    → is_digit r ≡ true
    → normalize (s ++ r ∷ t) ≡ normalize s ++ r ∷ normalize t
unfolding normalize
normalize-append [] t r d =
    let (plain, same) = known-plain r (or_true (is_letter r) (is_digit r) d) in
    rw (plain, same) refl
normalize-append (x ∷ s) t r d =
    elim (no_space x)
      as (λ b.
        map upper (if b then x ∷ select no_space (s ++ r ∷ t) else select no_space (s ++ r ∷ t))
        ≡ map upper (if b then x ∷ select no_space s else select no_space s)
          ++ r ∷ map upper (select no_space t)) [
            | true ↦ ap (λ u. upper x ∷ u) (normalize-append s t r d)
            | false ↦ normalize-append s t r d
          ]

-- The checksum detects a wrong digit: if Validate accepts a text in which at least four characters
-- other than spaces stand before some digit, then it does not accept the text with another digit
-- in that place.
pub validate_detects :
    (s t : Text) (a b : ℕ)
    → is_digit a ≡ true
    → is_digit b ≡ true
    → a ≢ b
    → 4 ≤ length (normalize s)
    → validate (s ++ a ∷ t) ≡ passed tt
    → validate (s ++ b ∷ t) ≢ passed tt
unfolding validate
validate_detects s t a b d d' differ le h h' = differ (
    normalized-detects (normalize s) (normalize t) a b d d' le
      (subst (λ n. validate_normalized n ≡ passed tt) (normalize-append s t a d) h)
      (subst (λ n. validate_normalized n ≡ passed tt) (normalize-append s t b d') h'))
