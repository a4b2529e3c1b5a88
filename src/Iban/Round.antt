-- ===== src/Iban/Round.antt =====
-- Generate against Validate (pkg/iban/iban.go).
use neo_bank.Prelude.{
  ℕ, ◌≤◌, ◌≡◌, refl, ◌⊎◌, inl, inr, Bool, true, false, ◌&&◌, ◌++◌, arith, length, ◌==◌, sym,
}
use mathlib.Core.Path.{subst}
use neo_bank.Iban.Text.{Text, is_all_letters, is_all_digits, to_upper}
use neo_bank.Iban.Code.{
  Checked, passed, refused, invalid_bank_code, invalid_sort_code, invalid_account_number, require,
  generate, generate_bban, validate,
}
use neo_bank.Iban.Digits.{both_true}
use neo_bank.Iban.Generated.{
  IsBban, iban_of, check_digits_of, generate_bban-iban_of, iban_of-passes,
}

abbrev bank_ok : Text → Bool
bank_ok bank_code = length bank_code == 4 && is_all_letters bank_code

abbrev sort_ok : Text → Bool
sort_ok sort_code = length sort_code == 6 && is_all_digits sort_code

abbrev account_ok : Text → Bool
account_ok account_number = length account_number == 8 && is_all_digits account_number

-- The IBAN that holds these parts, with check digits from 02 to 98, passes; or the first part that
-- is not well formed is refused.
abbrev pub IsRight : Text → Text → Text → Checked Text → Type 0
IsRight bank_code sort_code account_number (passed iban) =
    (validate iban ≡ passed tt)
    × ((k : ℕ) × (2 ≤ k)
        × (k ≤ 98)
        × (iban ≡ iban_of k (bank_code ++ (sort_code ++ account_number))))
IsRight bank_code sort_code account_number (refused e) =
    ((e ≡ invalid_bank_code) × (bank_ok bank_code ≡ false))
    ⊎ ((e ≡ invalid_sort_code) × (sort_ok sort_code ≡ false))
    ⊎ ((e ≡ invalid_account_number) × (account_ok account_number ≡ false))

equal_of : (a b : ℕ) → (a == b) ≡ true → a ≡ b
equal_of a b h = ground arith

layout_of :
    (bank_code sort_code account_number : Text)
    → bank_ok bank_code ≡ true
    → sort_ok sort_code ≡ true
    → account_ok account_number ≡ true
    → IsBban (bank_code ++ (sort_code ++ account_number))
layout_of bank_code sort_code account_number b s a = record {
  bank_code = bank_code;
  sort_code = sort_code;
  account_number = account_number;
  parts = refl;
  bank_length = equal_of _ _ (both_true (length bank_code == 4) (is_all_letters bank_code) b).0;
  sort_length = equal_of _ _ (both_true (length sort_code == 6) (is_all_digits sort_code) s).0;
  account_length =
      equal_of _ _ (both_true (length account_number == 8) (is_all_digits account_number) a).0;
  bank_letters = (both_true (length bank_code == 4) (is_all_letters bank_code) b).1;
  sort_digits = (both_true (length sort_code == 6) (is_all_digits sort_code) s).1;
  account_digits = (both_true (length account_number == 8) (is_all_digits account_number) a).1;
}

by_tests :
    (bank_code sort_code account_number : Text) (b s a : Bool)
    → bank_ok bank_code ≡ b
    → sort_ok sort_code ≡ s
    → account_ok account_number ≡ a
    → IsRight bank_code sort_code account_number (
        require b invalid_bank_code (
          require s invalid_sort_code (
            require a invalid_account_number
              (generate_bban (bank_code ++ (sort_code ++ account_number))))))
by_tests bank_code sort_code account_number false s a e f g = inl (refl, e)
by_tests bank_code sort_code account_number true false a e f g = inr (inl (refl, f))
by_tests bank_code sort_code account_number true true false e f g = inr (inr (refl, g))
by_tests bank_code sort_code account_number true true true e f g =
    subst (IsRight bank_code sort_code account_number) (sym (generate_bban-iban_of bban layout))
      (iban_of-passes bban layout, (check_digits_of bban, omega arith, omega arith, refl))
  where
    bban : Text
    bban = bank_code ++ (sort_code ++ account_number)

    layout : IsBban bban
    layout = layout_of bank_code sort_code account_number e f g

-- Generate either returns an IBAN that Validate accepts, made of IE, two check digits from 02 to 98
-- and the three parts, the bank code in capitals; or it refuses a part that has the wrong length or
-- the wrong characters. It fails for no other reason.
pub generate-IsRight :
    (bank_code sort_code account_number : Text)
    → IsRight
        (to_upper bank_code)
        sort_code
        account_number
        (generate bank_code sort_code account_number)
unfolding generate
generate-IsRight bank_code sort_code account_number =
    by_tests (to_upper bank_code) sort_code account_number _ _ _ refl refl refl
