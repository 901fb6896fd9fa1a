-- ===== src/Reconciliation/Sale.antt =====
-- `CalculateExpectedSaleRupiah` and its rounding.
use native.Mathlib.Nat.{div-add-mod}
use pomkita_be.Prelude.{
  Bool-cases, ℕ, zero, suc, ◌+◌, ◌*◌, ◌%◌, ◌^◌, ◌≤◌, ◌<◌, ◌≡◌, inl, inr, arith, leb,
}
use pomkita_be.Domain.{>>=-ok, ok}
use pomkita_be.Reconciliation.{
  round_half_up, parse_decimal, Parsed, max_rupiah, calculate_expected_sale_rupiah,
}
use pomkita_be.Reconciliation.Digits.{digits}
use pomkita_be.Prelude.Text.{Bytes}

-- q is the nearest whole number to num / den, and the upper one of two as near.
abbrev pub IsNearest : ℕ → ℕ → ℕ → Type 0
IsNearest num den q = (2 * (q * den) ≤ 2 * num + den) × (2 * num < 2 * (q * den) + den)

-- The rounded quotient is the nearest whole number, and the upper one of two as near.
pub round_half_up-IsNearest : (num den : ℕ) → 0 < den → IsNearest num den (round_half_up num den)
unfolding round_half_up
round_half_up-IsNearest num zero pos = elim pos [ ]
round_half_up-IsNearest num (suc d) pos = elim (Bool-cases (leb (suc d) (2 * (num % suc d)))) [
  | inl e ↦ (ground (arith, e, div-add-mod num (suc d)), ground (arith, e, div-add-mod num (suc d)))
  | inr e ↦ (ground (arith, e, div-add-mod num (suc d)), ground (arith, e, div-add-mod num (suc d)))
]

ten_pow_pos : (k : ℕ) → 0 < 10 ^ k
ten_pow_pos zero = ground arith
ten_pow_pos (suc k) = let rest = ten_pow_pos k in grind (arith, rest)

-- The text is the price of a sale: both factors are decimals, and it writes the nearest whole number
-- to their product, which is at most the largest sum.
abbrev pub IsPrice : Bytes → Bytes → Bytes → Type 0
unfolding parse_decimal digits
IsPrice liters price text =
    (l : Parsed) × (p : Parsed) × (q : ℕ) × (parse_decimal liters ≡ ok l)
    × (parse_decimal price ≡ ok p)
    × IsNearest (l.mantissa * p.mantissa) (10 ^ (l.scale + p.scale)) q
    × (q ≤ max_rupiah)
    × (text ≡ digits q)

-- If `CalculateExpectedSaleRupiah` gives a text, both arguments are decimals and the text writes
-- their product, rounded half up to a whole number that is at most 99,999,999,999,999.
pub calculate_expected_sale-IsPrice :
    (liters price text : Bytes)
    → calculate_expected_sale_rupiah liters price ≡ ok text
    → IsPrice liters price text
unfolding calculate_expected_sale_rupiah
calculate_expected_sale-IsPrice liters price text h =
    let (l, e, h1) = >>=-ok (parse_decimal liters) _ h in
    let (p, f, h2) = >>=-ok (parse_decimal price) _ h1 in
    let num = l.mantissa * p.mantissa in
    let den = 10 ^ (l.scale + p.scale) in
    let near = round_half_up-IsNearest num den (ten_pow_pos (l.scale + p.scale)) in
    (l, p, round_half_up num den, e, f, near, ground (arith, h2), ground (arith, h2))
