-- ===== src/Reconciliation/Digits.antt =====
-- Decimal digits as text: what the file uses of math/big, regexp and strings.
use pomkita_be.Prelude.{
  Bool-cases, ℕ, zero, suc, ◌+◌, ◌-◌, ◌*◌, ◌/◌, ◌%◌, ◌<◌, ◌≡◌, refl, ◌∙◌, inl, inr, Bool, true,
  false, ◌&&◌, ◌||◌, [], ◌∷◌, ◌++◌, arith, ltb, leb, ◌==◌, if◌then◌else◌,
}
use pomkita_be.Prelude.Text.{Bytes}

abbrev is_digit : ℕ → Bool
is_digit c = leb b'0' c && leb c b'9'

-- `[0-9]*`
unfoldable pub is_digits : Bytes → Bool
is_digits [] = true
is_digits (c ∷ rest) = is_digit c && is_digits rest

-- the number that a text of digits stands for, behind the digits of `acc`
unfoldable pub value_of : ℕ → Bytes → ℕ
value_of acc [] = acc
value_of acc (c ∷ rest) = value_of (acc * 10 + (c - b'0')) rest

digits_fuel : ℕ → ℕ → Bytes
digits_fuel zero n = []
digits_fuel (suc f) n =
    let rest = digits_fuel f (n / 10) in
    if ltb n 10 then (b'0' + n) ∷ [] else rest ++ (b'0' + n % 10) ∷ []

-- `n` in decimal; a number has fewer digits than its successor counts
unfoldable pub digits : ℕ → Bytes
unfolding digits_fuel
digits n = digits_fuel (suc n) n

-- the last `k` digits of `n`
unfoldable pub padded : ℕ → ℕ → Bytes
padded zero n = []
padded (suc k) n = padded k (n / 10) ++ (b'0' + n % 10) ∷ []

abbrev cons_unless : ℕ → ℕ → Bytes → Bytes
cons_unless cut c [] = if c == cut then [] else c ∷ []
cons_unless cut c (d ∷ rest) = c ∷ d ∷ rest

-- `strings.TrimRight(text, cut)` for one character
unfoldable pub trim_right : ℕ → Bytes → Bytes
trim_right cut [] = []
trim_right cut (c ∷ rest) = cons_unless cut c (trim_right cut rest)

-- `strings.Contains(text, c)`
unfoldable pub contains : ℕ → Bytes → Bool
contains c [] = false
contains c (d ∷ rest) = d == c || contains c rest

value_of-append :
    (acc : ℕ) (xs ys : Bytes) → value_of acc (xs ++ ys) ≡ value_of (value_of acc xs) ys
unfolding value_of
value_of-append acc [] ys = refl
value_of-append acc (x ∷ xs) ys = value_of-append (acc * 10 + (x - b'0')) xs ys

digits_fuel-value : (f n : ℕ) → n < f → value_of 0 (digits_fuel f n) ≡ n
unfolding digits_fuel value_of
digits_fuel-value zero n h = absurd (omega arith)
digits_fuel-value (suc f) n h = elim (Bool-cases (ltb n 10)) [
  | inl small ↦ rw small (omega arith)
  | inr big ↦
      let fits : n / 10 < f = ground arith in
      rw big (
        value_of-append 0 (digits_fuel f (n / 10)) ((b'0' + n % 10) ∷ [])
        ∙ omega (arith, digits_fuel-value f (n / 10) fits))
]

-- What is printed reads back as the number.
pub digits-value : (n : ℕ) → value_of 0 (digits n) ≡ n
unfolding digits
digits-value n = digits_fuel-value (suc n) n (omega arith)
