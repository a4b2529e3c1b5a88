-- ===== src/Iban/Code.antt =====
-- Generate, Validate and Format of pkg/iban/iban.go.
use neo_bank.Prelude.{
  ℕ, zero, suc, ◌-◌, Bool, false, not, [], ◌∷◌, ◌++◌, Option, none, some, ltb, ◌==◌, ◌&&◌,
  if◌then◌else◌, length, take, drop,
}
use neo_bank.Iban.Text.{
  Text, is_all_letters, is_all_digits, is_all_letters_or_digits, to_upper, normalize, two_digits,
  mod97_remainder,
}

pub data IbanError : Type 0 where
  invalid_bank_code invalid_sort_code invalid_account_number too_short invalid_country_code
        invalid_check_digits invalid_character wrong_length not_a_number fails_checksum :
      IbanError

pub data Checked (A : Type 0) : Type 0 where
  passed : A → Checked A
  refused : IbanError → Checked A

abbrev pub country_ie : Text
country_ie = b'I' ∷ b'E' ∷ []

abbrev pub ie_length : ℕ
ie_length = 22

-- `if !test { return error }`
abbrev pub require : {A : Type 0} → Bool → IbanError → Checked A → Checked A
require test e rest = if test then rest else refused e

abbrev pub with_check_digits : Text → Option ℕ → Checked Text
with_check_digits bban none = refused not_a_number
with_check_digits bban (some remainder) =
    passed (country_ie ++ (two_digits (98 - remainder) ++ bban))

unfoldable pub generate_bban : Text → Checked Text
generate_bban bban =
    with_check_digits bban (mod97_remainder (bban ++ (country_ie ++ (b'0' ∷ b'0' ∷ []))))

unfoldable pub generate : Text → Text → Text → Checked Text
generate bank_code sort_code account_number =
    let bank_code = to_upper bank_code in
    require (length bank_code == 4 && is_all_letters bank_code) invalid_bank_code (
      require (length sort_code == 6 && is_all_digits sort_code) invalid_sort_code (
        require (length account_number == 8 && is_all_digits account_number) invalid_account_number
          (generate_bban (bank_code ++ (sort_code ++ account_number)))))

abbrev pub is_country_ie : Text → Bool
is_country_ie (a ∷ b ∷ []) = a == b'I' && b == b'E'
is_country_ie _ = false

-- The fixed layout of an Irish IBAN.
unfoldable pub check_layout : Text → Text → Checked (Unit {0})
check_layout n bban = require (length n == ie_length) wrong_length (
    require (is_all_letters (take 4 bban)) invalid_bank_code (
      require (is_all_digits (take 6 (drop 4 bban))) invalid_sort_code
        (require (is_all_digits (drop 10 bban)) invalid_account_number (passed tt))))

abbrev pub check_remainder : Option ℕ → Checked (Unit {0})
check_remainder none = refused not_a_number
check_remainder (some r) = require (r == 1) fails_checksum (passed tt)

abbrev pub and_then : Checked (Unit {0}) → Checked (Unit {0}) → Checked (Unit {0})
and_then (refused e) rest = refused e
and_then (passed nothing) rest = rest

unfoldable pub validate_normalized : Text → Checked (Unit {0})
validate_normalized n =
    let country = take 2 n in
    let check_digits = take 2 (drop 2 n) in
    let bban = drop 4 n in
    require (not (ltb (length n) 4)) too_short (
      require (is_all_letters country) invalid_country_code (
        require (is_all_digits check_digits) invalid_check_digits (
          require (is_all_letters_or_digits bban) invalid_character (
            and_then (if is_country_ie country then check_layout n bban else passed tt)
              (check_remainder (mod97_remainder (bban ++ (country ++ check_digits))))))))

unfoldable pub validate : Text → Checked (Unit {0})
validate s = validate_normalized (normalize s)

-- The blocks after the first, each after a space; the fuel counts characters.
unfoldable pub format_blocks : ℕ → Text → Text
format_blocks zero n = []
format_blocks (suc fuel) [] = []
format_blocks (suc fuel) (r ∷ n) = b' ' ∷ take 4 (r ∷ n) ++ format_blocks fuel (drop 4 (r ∷ n))

unfoldable pub format : Text → Text
format s = let n = normalize s in take 4 n ++ format_blocks (length n) (drop 4 n)
