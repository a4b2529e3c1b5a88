-- ===== src/Iban/Digits.antt =====
-- The numeric form of a text (lettersToDigits, mod97Remainder): how it splits at a concatenation.
use neo_bank.Prelude.{
  ℕ, suc, ◌+◌, ◌-◌, ◌*◌, ◌%◌, ◌≤◌, ◌<◌, ◌≡◌, refl, inl, inr, Bool, true, false, ◌&&◌, [], ◌∷◌, ◌++◌,
  Option, none, some, arith, length, ◌||◌, sym, Bool-cases, ◌∙◌, if◌then◌else◌,
}
use mathlib.Core.Path.{subst}
use neo_bank.Iban.Text.{
  Text, is_digit, is_letter, is_letter_or_digit, is_all_letters_or_digits, two_digits, substitute,
  append_digits, letters_to_digits, number_from, remainder_of, mod97_remainder,
}

-- The value of the numeric form after n: a digit shifts by one place, a letter by two.
abbrev pub place : ℕ → ℕ → ℕ
place n r = if is_digit r then n * 10 + (r - b'0') else n * 100 + (r - b'A' + 10)

unfoldable pub value : ℕ → Text → ℕ
value n [] = n
value n (r ∷ s) = value (place n r) s

pub value-append : (n : ℕ) (s t : Text) → value n (s ++ t) ≡ value (value n s) t
unfolding value
value-append n [] t = refl
value-append n (r ∷ s) t = value-append (place n r) s t

abbrev Numeric : ℕ → Text → Option Text → Type 0
Numeric n s none = ⊥
Numeric n s (some ds) = (number_from n ds ≡ value n s) × (length s ≤ length ds)

number_from-append :
    (ds es : Text) (n : ℕ) → number_from n (ds ++ es) ≡ number_from (number_from n ds) es
unfolding number_from
number_from-append [] es n = refl
number_from-append (d ∷ ds) es n = number_from-append ds es (n * 10 + (d - b'0'))

two_digits-number : (n m : ℕ) → number_from n (two_digits m) ≡ n * 100 + m
unfolding number_from two_digits
two_digits-number n m = omega arith

two_digits-longer :
    (s ds : Text) (m : ℕ) → length s ≤ length ds → suc (length s) ≤ length (two_digits m ++ ds)
unfolding two_digits
two_digits-longer s ds m le = omega arith

substitute-digit : (r : ℕ) → is_digit r ≡ true → substitute r ≡ some (r ∷ [])
substitute-digit r d = rw d refl

substitute-letter :
    (r : ℕ)
    → is_digit r ≡ false
    → is_letter_or_digit r ≡ true
    → substitute r ≡ some (two_digits (r - b'A' + 10))
substitute-letter r d h = by_letter (is_letter r) (is_digit r) d h
  where
    by_letter :
        (l d : Bool)
        → d ≡ false
        → (l || d) ≡ true
        → (if d then some (r ∷ []) else if l then some (two_digits (r - b'A' + 10)) else none)
          ≡ some (two_digits (r - b'A' + 10))
    by_letter true d e h = rw e refl
    by_letter false d e h = cc

pub both_true : (a b : Bool) → (a && b) ≡ true → (a ≡ true) × (b ≡ true)
both_true true b h = (refl, h)
both_true false b h = cc

Numeric-digit :
    (n r : ℕ) (s : Text) (rest : Option Text)
    → is_digit r ≡ true
    → Numeric (n * 10 + (r - b'0')) s rest
    → Numeric n (r ∷ s) (append_digits (some (r ∷ [])) rest)
unfolding number_from value
Numeric-digit n r s none d h = h
Numeric-digit n r s (some ds) d (e, l) = (rw d e, omega arith)

Numeric-letter :
    (n r : ℕ) (s : Text) (rest : Option Text)
    → is_digit r ≡ false
    → Numeric (n * 100 + (r - b'A' + 10)) s rest
    → Numeric n (r ∷ s) (append_digits (some (two_digits (r - b'A' + 10))) rest)
unfolding value
Numeric-letter n r s none d h = h
Numeric-letter n r s (some ds) d (e, le) = (
  rw d (
      number_from-append (two_digits (r - b'A' + 10)) ds n
      ∙ rw (two_digits-number n (r - b'A' + 10)) e),
  two_digits-longer s ds (r - b'A' + 10) le,
)

letters_to_digits-Numeric :
    (s : Text) (n : ℕ) → is_all_letters_or_digits s ≡ true → Numeric n s (letters_to_digits s)
unfolding letters_to_digits value number_from
letters_to_digits-Numeric [] n h = (refl, omega arith)
letters_to_digits-Numeric (r ∷ s) n h =
    let (known, others) = both_true _ _ h in
    elim (Bool-cases (is_digit r)) [
      | inl d ↦
          subst (λ o. Numeric n (r ∷ s) (append_digits o (letters_to_digits s)))
            (sym (substitute-digit r d))
            (Numeric-digit n r s _ d (letters_to_digits-Numeric s _ others))
      | inr d ↦
          subst (λ o. Numeric n (r ∷ s) (append_digits o (letters_to_digits s)))
            (sym (substitute-letter r d known))
            (Numeric-letter n r s _ d (letters_to_digits-Numeric s _ others))
    ]

-- The remainder of a text of letters and digits, which has one unless it is empty.
pub mod97_remainder-value :
    (r : ℕ) (s : Text)
    → is_all_letters_or_digits (r ∷ s) ≡ true
    → mod97_remainder (r ∷ s) ≡ some (value 0 (r ∷ s) % 97)
unfolding mod97_remainder
mod97_remainder-value r s h =
    by_digits (letters_to_digits (r ∷ s)) (letters_to_digits-Numeric (r ∷ s) 0 h)
  where
    by_digits :
        (o : Option Text) → Numeric 0 (r ∷ s) o → remainder_of o ≡ some (value 0 (r ∷ s) % 97)
    by_digits none h = elim h [ ]
    by_digits (some []) (e, le) = absurd (omega arith)
    by_digits (some (d ∷ ds)) (e, le) = rw e refl

pub mod97_remainder-some :
    (s : Text)
    → 0 < length s
    → is_all_letters_or_digits s ≡ true
    → mod97_remainder s ≡ some (value 0 s % 97)
mod97_remainder-some [] lt h = absurd (omega arith)
mod97_remainder-some (r ∷ s) lt h = mod97_remainder-value r s h
