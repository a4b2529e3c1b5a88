-- ===== src/Iban/Formatted.antt =====
-- Format against Normalize and Validate (pkg/iban/iban.go).
use neo_bank.Prelude.{
  ℕ, zero, suc, ◌+◌, ◌-◌, ◌/◌, ◌≤◌, ◌≡◌, refl, sym, ap, ◌∙◌, true, false, [], ◌∷◌, ◌++◌, map,
  select, arith, length, take, drop, if◌then◌else◌, Bool-cases, inl, inr, length-append,
}
use neo_bank.Prelude.Members.{length-drop}
use neo_bank.Iban.Text.{Text, upper, normalize, no_space}
use neo_bank.Iban.Code.{validate_normalized, validate, format_blocks, format}

normalize-join : (s t : Text) → normalize (s ++ t) ≡ normalize s ++ normalize t
unfolding normalize
normalize-join [] t = refl
normalize-join (r ∷ s) t =
    elim (no_space r)
      as (λ b.
        map upper (if b then r ∷ select no_space (s ++ t) else select no_space (s ++ t))
        ≡ map upper (if b then r ∷ select no_space s else select no_space s)
          ++ map upper (select no_space t)) [
            | true ↦ ap (λ u. upper r ∷ u) (normalize-join s t)
            | false ↦ normalize-join s t
          ]

upper-plain :
    (r : ℕ) → no_space r ≡ true → (no_space (upper r) ≡ true) × (upper (upper r) ≡ upper r)
unfolding upper
upper-plain r h = ground arith

-- Normalize twice is Normalize once.
normalize_idem : (s : Text) → normalize (normalize s) ≡ normalize s
unfolding normalize
normalize_idem [] = refl
normalize_idem (r ∷ s) = elim (Bool-cases (no_space r)) [
  | inl e ↦
      let (plain, same) = upper-plain r e in
      rw (e, plain, same) (ap (λ u. upper r ∷ u) (normalize_idem s))
  | inr e ↦ rw e (normalize_idem s)
]

take-drop : (n : ℕ) (s : Text) → take n s ++ drop n s ≡ s
take-drop zero s = refl
take-drop (suc n) [] = refl
take-drop (suc n) (r ∷ s) = ap (λ u. r ∷ u) (take-drop n s)

length-take-drop : (n : ℕ) (s : Text) → length (take n s) + length (drop n s) ≡ length s
length-take-drop n s = sym (length-append (take n s) (drop n s)) ∙ ap length (take-drop n s)

normalize-space : (s : Text) → normalize (b' ' ∷ s) ≡ normalize s
unfolding normalize
normalize-space s = refl

normalize-parts :
    (s t : Text) → normalize t ≡ normalize (drop 4 s) → normalize (take 4 s ++ t) ≡ normalize s
normalize-parts s t e =
    normalize-join (take 4 s) t
    ∙ ap (λ u. normalize (take 4 s) ++ u) e
    ∙ sym (normalize-join (take 4 s) (drop 4 s))
    ∙ ap normalize (take-drop 4 s)

normalize-format_blocks :
    (fuel : ℕ) (n : Text) → length n ≤ fuel → normalize (format_blocks fuel n) ≡ normalize n
unfolding format_blocks
normalize-format_blocks zero [] le = refl
normalize-format_blocks zero (r ∷ n) le = absurd (omega arith)
normalize-format_blocks (suc fuel) [] le = refl
normalize-format_blocks (suc fuel) (r ∷ n) le =
    normalize-space _
    ∙ normalize-parts (r ∷ n) _
        (normalize-format_blocks fuel (drop 4 (r ∷ n)) (omega (arith, length-drop 3 n)))

length-format_blocks :
    (fuel : ℕ) (n : Text)
    → length n ≤ fuel
    → length (format_blocks fuel n) ≡ length n + (length n + 3) / 4
unfolding format_blocks
length-format_blocks zero [] le = omega arith
length-format_blocks zero (r ∷ n) le = absurd (omega arith)
length-format_blocks (suc fuel) [] le = omega arith
length-format_blocks (suc fuel) (r ∷ n) le = omega (
  arith,
  length-drop 3 n,
  length-take-drop 3 n,
  length-append (take 4 (r ∷ n)) (format_blocks fuel (drop 4 (r ∷ n))),
  length-format_blocks fuel (drop 4 (r ∷ n)) (omega (arith, length-drop 3 n)),
)

-- Format only groups the characters: its result has the same normal form as its argument and
-- passes Validate, or fails, as that does; it has one more space for each full group of four
-- characters before the last one.
pub format_groups :
    (s : Text)
    → (normalize (format s) ≡ normalize s)
      × (validate (format s) ≡ validate s)
      × (length (format s) ≡ length (normalize s) + (length (normalize s) - 1) / 4)
unfolding format validate
format_groups s = (
  same,
  ap validate_normalized same,
  omega (
    arith,
    length-drop 4 (normalize s),
    length-take-drop 4 (normalize s),
    length-append (take 4 (normalize s))
        (format_blocks (length (normalize s)) (drop 4 (normalize s))),
    length-format_blocks (length (normalize s)) (drop 4 (normalize s)) fits,
  ),
)
  where
    fits : length (drop 4 (normalize s)) ≤ length (normalize s)
    fits = omega (arith, length-drop 4 (normalize s))

    same : normalize (format s) ≡ normalize s
    same =
        normalize-parts (normalize s) _
          (normalize-format_blocks (length (normalize s)) (drop 4 (normalize s)) fits)
        ∙ normalize_idem s
