-- ===== src/Iban/Text.antt =====
-- The texts of pkg/iban/iban.go as lists of ASCII codes, and the tests and helpers on them. A text
-- with other characters is left out: strings.ToUpper maps a few of them to ASCII letters.
use neo_bank.Prelude.{
  ℕ, ◌+◌, ◌-◌, ◌*◌, ◌/◌, ◌%◌, Bool, true, false, not, ◌&&◌, ◌||◌, List, [], ◌∷◌, ◌++◌, Option, none,
  some, leb, ◌==◌, if◌then◌else◌, select, map,
}

abbrev pub Text : Type 0
Text = List ℕ

-- r >= '0' && r <= '9', and r >= 'A' && r <= 'Z'
unfoldable pub is_digit : ℕ → Bool
is_digit r = leb b'0' r && leb r b'9'

unfoldable pub is_letter : ℕ → Bool
is_letter r = leb b'A' r && leb r b'Z'

abbrev pub all : (ℕ → Bool) → Text → Bool
all test [] = true
all test (r ∷ s) = test r && all test s

abbrev pub non_empty : Text → Bool
non_empty [] = false
non_empty (r ∷ s) = true

abbrev pub is_all_letters : Text → Bool
is_all_letters s = non_empty s && all is_letter s

abbrev pub is_all_digits : Text → Bool
is_all_digits s = non_empty s && all is_digit s

abbrev pub is_letter_or_digit : ℕ → Bool
is_letter_or_digit r = is_letter r || is_digit r

abbrev pub is_all_letters_or_digits : Text → Bool
is_all_letters_or_digits s = all is_letter_or_digit s

-- strings.ToUpper
unfoldable pub upper : ℕ → ℕ
upper r = if leb b'a' r && leb r b'z' then r - 32 else r

abbrev pub to_upper : Text → Text
to_upper s = map upper s

abbrev pub no_space : ℕ → Bool
no_space r = not (r == b' ')

unfoldable pub normalize : Text → Text
normalize s = to_upper (select no_space s)

-- The digits of n, below 100, as %02d prints them.
unfoldable pub two_digits : ℕ → Text
two_digits n = (b'0' + n / 10) ∷ (b'0' + n % 10) ∷ []

-- What one character becomes.
abbrev pub substitute : ℕ → Option Text
substitute r =
    if is_digit r
    then some (r ∷ [])
    else if is_letter r
    then some (two_digits (r - b'A' + 10))
    else none

abbrev pub append_digits : Option Text → Option Text → Option Text
append_digits none rest = none
append_digits (some ds) none = none
append_digits (some ds) (some rest) = some (ds ++ rest)

unfoldable pub letters_to_digits : Text → Option Text
letters_to_digits [] = some []
letters_to_digits (r ∷ s) = append_digits (substitute r) (letters_to_digits s)

-- big.Int's SetString in base 10, which refuses the empty text.
unfoldable pub number_from : ℕ → Text → ℕ
number_from n [] = n
number_from n (d ∷ ds) = number_from (n * 10 + (d - b'0')) ds

abbrev pub remainder_of : Option Text → Option ℕ
remainder_of none = none
remainder_of (some []) = none
remainder_of (some (d ∷ ds)) = some (number_from 0 (d ∷ ds) % 97)

unfoldable pub mod97_remainder : Text → Option ℕ
mod97_remainder s = remainder_of (letters_to_digits s)
