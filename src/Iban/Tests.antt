-- ===== src/Iban/Tests.antt =====
-- The reference IBAN of the tests in pkg/iban/iban_test.go, and one that Generate builds.
use Prim.Native.Char.{code}
use Prim.Native.String.{String}
use neo_bank.Prelude.{ℕ, ◌-◌, ◌+◌, ◌/◌, ◌≡◌, ◌≢◌, ◌≤◌, true, refl, [], ◌∷◌, arith, length}
use neo_bank.Iban.Text.{
  Text, to_upper, upper, is_digit, is_letter, normalize, two_digits, letters_to_digits, number_from,
  mod97_remainder,
}
use neo_bank.Iban.Code.{
  passed, generate_bban, generate, check_layout, validate_normalized, validate, format_blocks,
  format,
}
use neo_bank.Iban.Round.{IsRight, generate-IsRight}
use neo_bank.Iban.Detects.{validate_detects}
use neo_bank.Iban.Formatted.{format_groups}

abbrev pub text : String → Text
text String.[] = []
text (String.◌∷◌ c s) = code c ∷ text s

generates :
    generate (text "zzzz") (text "000042") (text "34567890")
    ≡ passed (text "IE34ZZZZ00004234567890")
unfolding generate generate_bban mod97_remainder letters_to_digits number_from two_digits upper
    is_digit is_letter
generates = refl

accepts : validate (text "IE29 aibk 9311 5212 3456 78") ≡ passed tt
unfolding validate validate_normalized check_layout normalize mod97_remainder letters_to_digits
    number_from two_digits upper is_digit is_letter
accepts = refl

formats : format (text "ie29aibk93115212345678") ≡ text "IE29 AIBK 9311 5212 3456 78"
unfolding format format_blocks normalize upper
formats = refl

generate-IsRight_example :
    IsRight
      (to_upper (text "zzzz"))
      (text "000042")
      (text "34567890")
      (generate (text "zzzz") (text "000042") (text "34567890"))
generate-IsRight_example = generate-IsRight (text "zzzz") (text "000042") (text "34567890")

format_groups_example :
    (normalize (format (text "ie29aibk93115212345678")) ≡ normalize (text "ie29aibk93115212345678"))
    × (validate (format (text "ie29aibk93115212345678")) ≡ validate (text "ie29aibk93115212345678"))
    × (length (format (text "ie29aibk93115212345678"))
        ≡ length (normalize (text "ie29aibk93115212345678"))
          + (length (normalize (text "ie29aibk93115212345678")) - 1) / 4)
format_groups_example = format_groups (text "ie29aibk93115212345678")

long_enough : 4 ≤ length (normalize (text "IE29 AIBK9311521234567"))
unfolding normalize upper
long_enough = omega arith

digit : is_digit b'8' ≡ true
unfolding is_digit
digit = refl

reference : validate (text "IE29 AIBK93115212345678") ≡ passed tt
unfolding validate validate_normalized check_layout normalize mod97_remainder letters_to_digits
    number_from two_digits upper is_digit is_letter
reference = refl

differ : ◌≢◌ {A = ℕ} b'8' b'9'
differ = ground arith

nine : is_digit b'9' ≡ true
unfolding is_digit
nine = refl

validate_detects_example : validate (text "IE29 AIBK93115212345679") ≢ passed tt
validate_detects_example =
    validate_detects (text "IE29 AIBK9311521234567") [] b'8' b'9' digit nine differ long_enough
      reference
