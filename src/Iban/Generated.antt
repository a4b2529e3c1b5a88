-- ===== src/Iban/Generated.antt =====
-- What Generate (pkg/iban/iban.go) builds, before Validate.
use neo_bank.Prelude.{
  ℕ, ◌+◌, ◌-◌, ◌*◌, ◌%◌, ◌<◌, ◌≡◌, refl, sym, ap, ◌∙◌, Bool, true, false, ◌&&◌, ◌||◌, not, [], ◌∷◌,
  ◌++◌, some, arith, length, take, drop, ltb, ◌==◌, length-append,
}
use mathlib.Core.Path.{subst}
use neo_bank.Prelude.Members.{append_assoc}
use neo_bank.Iban.Text.{
  Text, is_digit, is_letter, is_letter_or_digit, is_all_letters, is_all_digits,
  is_all_letters_or_digits, all, upper, normalize, no_space, two_digits, mod97_remainder, non_empty,
}
use neo_bank.Iban.Code.{
  Checked, IbanError, passed, ie_length, and_then, country_ie, require, with_check_digits,
  generate_bban, check_layout, check_remainder, validate_normalized, validate,
}
use neo_bank.Iban.Digits.{value, value-append, mod97_remainder-some, both_true}

pub all-append :
    (test : ℕ → Bool) (s t : Text)
    → all test s ≡ true
    → all test t ≡ true
    → all test (s ++ t) ≡ true
all-append test [] t h k = k
all-append test (r ∷ s) t h k =
    let (h', hs) = both_true (test r) (all test s) h in rw h' (all-append test s t hs k)

pub letters-known : (s : Text) → all is_letter s ≡ true → is_all_letters_or_digits s ≡ true
letters-known [] h = refl
letters-known (r ∷ s) h =
    let (h', hs) = both_true (is_letter r) (all is_letter s) h in rw h' (letters-known s hs)

pub or_true : (a b : Bool) → b ≡ true → (a || b) ≡ true
or_true true b h = refl
or_true false b h = h

pub digits-known : (s : Text) → all is_digit s ≡ true → is_all_letters_or_digits s ≡ true
digits-known [] h = refl
digits-known (r ∷ s) h =
    let (h', hs) = both_true (is_digit r) (all is_digit s) h in
    rw (or_true (is_letter r) _ h') (digits-known s hs)

pub known-plain : (r : ℕ) → is_letter_or_digit r ≡ true → (no_space r ≡ true) × (upper r ≡ r)
unfolding is_letter is_digit upper
known-plain r h = ground arith

-- A text of capital letters and digits is in its normal form.
pub normalize-known : (s : Text) → is_all_letters_or_digits s ≡ true → normalize s ≡ s
unfolding normalize
normalize-known [] h = refl
normalize-known (r ∷ s) h =
    let (known, others) = both_true _ _ h in
    let (plain, same) = known-plain r known in
    rw (plain, same) (ap (λ t. r ∷ t) (normalize-known s others))

pub take-length : (s t : Text) → take (length s) (s ++ t) ≡ s
take-length [] t = refl
take-length (r ∷ s) t = ap (λ u. r ∷ u) (take-length s t)

pub drop-length : (s t : Text) → drop (length s) (s ++ t) ≡ t
drop-length [] t = refl
drop-length (r ∷ s) t = drop-length s t

two_digits-digits : (c : ℕ) → c < 100 → is_all_digits (two_digits c) ≡ true
unfolding two_digits is_digit
two_digits-digits c lt = ground arith

value-two_digits : (v c : ℕ) → c < 100 → value v (two_digits c) ≡ v * 100 + c
unfolding value two_digits is_digit
value-two_digits v c lt = ground arith

value-country : (v : ℕ) (s : Text) → value v (country_ie ++ s) ≡ value (v * 10_000 + 1814) s
unfolding value is_digit
value-country v s = ap (λ n. value n s) (omega arith)

-- The value of a text that is checked, its check digits being c.
value-checked :
    (bban : Text) (c : ℕ)
    → c < 100
    → value 0 (bban ++ (country_ie ++ two_digits c)) ≡ value 0 bban * 1_000_000 + 181_400 + c
value-checked bban c lt =
    value-append 0 bban (country_ie ++ two_digits c)
    ∙ value-country (value 0 bban) (two_digits c)
    ∙ value-two_digits (value 0 bban * 10_000 + 1814) c lt
    ∙ omega arith

-- The account number, the sort code and the bank code of the fixed layout.
pub record IsBban (bban : Text) : Type 0 where
  pub bank_code : Text
  pub sort_code : Text
  pub account_number : Text
  pub parts : bban ≡ bank_code ++ (sort_code ++ account_number)
  pub bank_length : length bank_code ≡ 4
  pub sort_length : length sort_code ≡ 6
  pub account_length : length account_number ≡ 8
  pub bank_letters : is_all_letters bank_code ≡ true
  pub sort_digits : is_all_digits sort_code ≡ true
  pub account_digits : is_all_digits account_number ≡ true

pub all_of : (test : ℕ → Bool) (s : Text) → (non_empty s && all test s) ≡ true → all test s ≡ true
all_of test s h = (both_true (non_empty s) (all test s) h).1

bban-known : (bban : Text) → IsBban bban → is_all_letters_or_digits bban ≡ true
bban-known bban b = rw b.parts (
    all-append is_letter_or_digit b.bank_code _
      (letters-known b.bank_code (all_of is_letter b.bank_code b.bank_letters))
      (all-append is_letter_or_digit b.sort_code b.account_number
        (digits-known b.sort_code (all_of is_digit b.sort_code b.sort_digits))
        (digits-known b.account_number (all_of is_digit b.account_number b.account_digits))))

bban-length : (bban : Text) → IsBban bban → length bban ≡ 18
bban-length bban b = rw b.parts (
    omega (
      arith,
      length-append b.bank_code (b.sort_code ++ b.account_number),
      length-append b.sort_code b.account_number,
      b.bank_length,
      b.sort_length,
      b.account_length,
    ))

take-first : (n : ℕ) (s t : Text) → length s ≡ n → take n (s ++ t) ≡ s
take-first n s t e = subst (λ m. take m (s ++ t) ≡ s) e (take-length s t)

drop-first : (n : ℕ) (s t : Text) → length s ≡ n → drop n (s ++ t) ≡ t
drop-first n s t e = subst (λ m. drop m (s ++ t) ≡ t) e (drop-length s t)

require-true :
    {A : Type 0} (test : Bool) (e : IbanError) (rest : Checked A)
    → test ≡ true
    → require test e rest ≡ rest
require-true test e rest h = rw h refl

bank-part : (bban : Text) (b : IsBban bban) → take 4 bban ≡ b.bank_code
bank-part bban b = ap (take 4) b.parts ∙ take-first 4 b.bank_code _ b.bank_length

sort-part : (bban : Text) (b : IsBban bban) → take 6 (drop 4 bban) ≡ b.sort_code
sort-part bban b =
    ap (λ t. take 6 (drop 4 t)) b.parts
    ∙ ap (take 6) (drop-first 4 b.bank_code _ b.bank_length)
    ∙ take-first 6 b.sort_code _ b.sort_length

account-part : (bban : Text) (b : IsBban bban) → drop 10 bban ≡ b.account_number
account-part bban b =
    ap (drop 10) (b.parts ∙ sym (append_assoc b.bank_code b.sort_code b.account_number))
    ∙ drop-first 10 (b.bank_code ++ b.sort_code) b.account_number
        (omega (arith, length-append b.bank_code b.sort_code, b.bank_length, b.sort_length))

layout-passed : (n bban : Text) → length n ≡ 22 → IsBban bban → check_layout n bban ≡ passed tt
unfolding check_layout
layout-passed n bban e b =
    require-true (length n == ie_length) _ _ (ground (arith, e))
    ∙ require-true (is_all_letters (take 4 bban)) _ _
        (ap is_all_letters (bank-part bban b) ∙ b.bank_letters)
    ∙ require-true (is_all_digits (take 6 (drop 4 bban))) _ _
        (ap is_all_digits (sort-part bban b) ∙ b.sort_digits)
    ∙ require-true (is_all_digits (drop 10 bban)) _ _
        (ap is_all_digits (account-part bban b) ∙ b.account_digits)

-- An IBAN whose check digits are c.
abbrev pub iban_of : ℕ → Text → Text
iban_of c bban = country_ie ++ (two_digits c ++ bban)

country_letters : is_all_letters country_ie ≡ true
unfolding is_letter
country_letters = refl

remainder-checked :
    (bban : Text) (c : ℕ)
    → c < 100
    → IsBban bban
    → mod97_remainder (bban ++ (country_ie ++ two_digits c))
      ≡ some ((value 0 bban * 1_000_000 + 181_400 + c) % 97)
remainder-checked bban c lt b =
    mod97_remainder-some (bban ++ (country_ie ++ two_digits c))
      (omega (arith, length-append bban (country_ie ++ two_digits c), bban-length bban b))
      (all-append is_letter_or_digit bban (country_ie ++ two_digits c) (bban-known bban b) (
        all-append is_letter_or_digit country_ie (two_digits c)
          (letters-known country_ie (all_of is_letter country_ie country_letters))
          (digits-known (two_digits c) (all_of is_digit (two_digits c) (two_digits-digits c lt)))))
    ∙ ap (λ v. some (v % 97)) (value-checked bban c lt)

-- What Validate makes of it.
pub validate_normalized-iban_of :
    (c : ℕ) (bban : Text)
    → c < 100
    → IsBban bban
    → validate_normalized (iban_of c bban)
      ≡ check_remainder (some ((value 0 bban * 1_000_000 + 181_400 + c) % 97))
unfolding validate_normalized two_digits
validate_normalized-iban_of c bban lt b =
    require-true (not (ltb (length (iban_of c bban)) 4)) _ _ (ground arith)
    ∙ require-true (is_all_letters country_ie) _ _ country_letters
    ∙ require-true (is_all_digits (two_digits c)) _ _ (two_digits-digits c lt)
    ∙ require-true (is_all_letters_or_digits bban) _ _ (bban-known bban b)
    ∙ ap
        (λ m. and_then m (check_remainder (mod97_remainder (bban ++ (country_ie ++ two_digits c)))))
        (layout-passed (iban_of c bban) bban (omega (arith, bban-length bban b)) b)
    ∙ ap check_remainder (remainder-checked bban c lt b)

iban_of-known :
    (c : ℕ) (bban : Text) → c < 100 → IsBban bban → is_all_letters_or_digits (iban_of c bban) ≡ true
iban_of-known c bban lt b =
    all-append is_letter_or_digit country_ie (two_digits c ++ bban)
      (letters-known country_ie (all_of is_letter country_ie country_letters))
      (all-append is_letter_or_digit (two_digits c) bban
        (digits-known (two_digits c) (all_of is_digit (two_digits c) (two_digits-digits c lt)))
        (bban-known bban b))

-- The check digits that Generate computes.
abbrev pub check_digits_of : Text → ℕ
check_digits_of bban = 98 - (value 0 bban * 1_000_000 + 181_400) % 97

pub generate_bban-iban_of :
    (bban : Text) → IsBban bban → generate_bban bban ≡ passed (iban_of (check_digits_of bban) bban)
unfolding generate_bban two_digits
generate_bban-iban_of bban b =
    ap (with_check_digits bban) (remainder-checked bban 0 (omega arith) b)
    ∙ ap (λ v. passed (iban_of (98 - v % 97) bban)) (omega arith)

checksum-holds :
    (bban : Text)
    → check_remainder (some ((value 0 bban * 1_000_000 + 181_400 + check_digits_of bban) % 97))
      ≡ passed tt
checksum-holds bban = ap (λ v. check_remainder (some v)) (one (value 0 bban * 1_000_000 + 181_400))
  where
    one : (v : ℕ) → (v + (98 - v % 97)) % 97 ≡ 1
    one v = omega arith

pub iban_of-passes :
    (bban : Text) → IsBban bban → validate (iban_of (check_digits_of bban) bban) ≡ passed tt
unfolding validate
iban_of-passes bban b =
    ap validate_normalized
      (normalize-known _ (iban_of-known (check_digits_of bban) bban (omega arith) b))
    ∙ validate_normalized-iban_of (check_digits_of bban) bban (omega arith) b
    ∙ checksum-holds bban
