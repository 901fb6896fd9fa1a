-- ===== src/Reconciliation.antt =====
-- internal/service/reconciliation/reconciliation.go: meter deltas and expected sales in exact
-- decimals. Every `big.Rat` of the file is a decimal, kept as a number of units of 10 ^ -scale.
pub mod Delta
pub mod Sale
pub mod Digits
mod Samples
use Prim.Native.Nat.{max}
use pomkita_be.Prelude.{
  length, Bool-cases, ℕ, zero, suc, ◌+◌, ◌-◌, ◌*◌, ◌/◌, ◌%◌, ◌^◌, ◌≤◌, ◌<◌, String, ◌≡◌, refl, sym,
  ap, ◌∙◌, ◌≢◌, ◌↔◌, ◌⊎◌, inl, inr, Bool, true, false, not, ◌&&◌, ◌||◌, Option, none, some, List,
  [], ◌∷◌, ◌++◌, map, arith, eq_iff, ltb, leb, ◌==◌, str_eq, if◌then◌else◌, Uuid, Time,
}
use pomkita_be.Prelude.Text.{Bytes, codes}
use pomkita_be.Domain.{
  Error, validation, conflict, Result, ok, err, domain, wrapped, plain, record_not_found, refuse_if,
  found_or, ◌>>=◌, ◌>>◌, transaction,
}
use pomkita_be.Reconciliation.Digits.{digits, padded, value_of, is_digits, trim_right, contains}

abbrev pub invalid_decimal : Error
invalid_decimal = domain validation "invalid_decimal"

abbrev pub rollover_over_threshold : Error
rollover_over_threshold = domain validation "rollover_over_threshold"

abbrev pub invalid_meter_range : Error
invalid_meter_range = domain validation "invalid_meter_range"

abbrev pub numeric_overflow : Error
numeric_overflow = domain validation "numeric_overflow"

abbrev pub meter_chain_conflict : Error
meter_chain_conflict = domain conflict "meter_chain_conflict"

-- A parsed decimal: `mantissa` units of 10 ^ -scale.
pub record Parsed : Type 0 where
  pub mantissa : ℕ
  pub scale : ℕ

-- the text up to the first '.', and what follows it, as `strings.SplitN(value, ".", 2)`
unfoldable pub split_point : Bytes → Bytes × Option Bytes
split_point [] = ([], none)
split_point (c ∷ rest) =
    let (whole, fraction) = split_point rest in
    if c == b'.' then ([], some rest) else (c ∷ whole, fraction)

-- `0|[1-9][0-9]*`
unfoldable pub is_whole : Bytes → Bool
unfolding is_digits
is_whole [] = false
is_whole (c ∷ rest) =
    if c == b'0' then length rest == 0 else leb b'1' c && leb c b'9' && is_digits rest

-- `[0-9]+`
abbrev pub is_fraction : Bytes → Bool
is_fraction [] = false
is_fraction (c ∷ rest) = is_digits (c ∷ rest)

unfoldable pub parse_parts : Bytes × Option Bytes → Result Parsed
unfolding is_whole value_of
parse_parts (whole, none) = do
  refuse_if (not (is_whole whole)) invalid_decimal
  ok (record { mantissa = value_of 0 whole; scale = 0 })
parse_parts (whole, some fraction) = do
  refuse_if (not (is_whole whole && is_fraction fraction)) invalid_decimal
  ok (record { mantissa = value_of 0 (whole ++ fraction); scale = length fraction })

-- `parseDecimal`
unfoldable pub parse_decimal : Bytes → Result Parsed
unfolding parse_parts split_point
parse_decimal text = parse_parts (split_point text)

-- a decimal in units of 10 ^ -k, for k at least its scale
abbrev pub units : ℕ → Parsed → ℕ
units k d = d.mantissa * 10 ^ (k - d.scale)

-- `value.FloatString(scale)` of `n` units of 10 ^ -scale
unfoldable pub float_string : ℕ → ℕ → Bytes
unfolding digits padded
float_string scale n =
    if scale == 0
    then digits n
    else digits (n / 10 ^ scale) ++ (b'.' ∷ padded scale (n % 10 ^ scale))

-- `formatDecimal` of `n` units of 10 ^ -scale
unfoldable pub format_decimal : ℕ → ℕ → Bytes
unfolding float_string trim_right contains
format_decimal scale n =
    let text = float_string scale n in
    let trimmed = if contains b'.' text then trim_right b'.' (trim_right b'0' text) else text in
    if length trimmed == 0 then codes "0" else trimmed

abbrev pub common_scale : Parsed → Parsed → Parsed → Parsed → ℕ
common_scale a b c d = max (max a.scale b.scale) (max c.scale d.scale)

-- The delta of readings in common units, or the reason why there is none.
unfoldable pub meter_delta : ℕ → ℕ → ℕ → ℕ → Result ℕ
meter_delta start end modulus threshold = do
  refuse_if (modulus == 0 || leb modulus start || leb modulus end) invalid_meter_range
  if leb start end
      then ok (end - start)
      else if ltb threshold (modulus - start + end)
      then err rollover_over_threshold
      else ok (modulus - start + end)

-- `CalculateMeterDelta`
unfoldable pub calculate_meter_delta : Bytes → Bytes → Bytes → Bytes → Result Bytes
unfolding meter_delta parse_decimal format_decimal
calculate_meter_delta start end modulus rollover_threshold = do
  s ← parse_decimal start
  e ← parse_decimal end
  m ← parse_decimal modulus
  t ← parse_decimal rollover_threshold
  let k = common_scale s e m t
  delta ← meter_delta (units k s) (units k e) (units k m) (units k t)
  ok (format_decimal k delta)

-- the value that `ValidateMeterStart` expects: the first that is not empty
abbrev pub first_given : Bytes → Bytes → Bytes → Bytes
first_given [] [] c = c
first_given [] (b ∷ bs) c = b ∷ bs
first_given (a ∷ as_) b c = a ∷ as_

abbrev pub compare_start : Parsed → Bytes → Result (Unit {0})
compare_start current [] = ok tt
compare_start current (c ∷ cs) = do
  expected ← parse_decimal (c ∷ cs)
  let k = max current.scale expected.scale
  refuse_if (not (units k current == units k expected)) meter_chain_conflict

-- `ValidateMeterStart`
unfoldable pub validate_meter_start : Bytes → Bytes → Bytes → Bytes → Result (Unit {0})
unfolding parse_decimal
validate_meter_start current predecessor_end reset_value baseline_value = do
  c ← parse_decimal current
  compare_start c (first_given reset_value baseline_value predecessor_end)

abbrev pub max_rupiah : ℕ
max_rupiah = 99_999_999_999_999

-- `quotient.QuoRem` of `num / den`, and one more if twice the remainder is at least `den`
unfoldable pub round_half_up : ℕ → ℕ → ℕ
round_half_up num den = num / den + (if leb den (2 * (num % den)) then 1 else 0)

-- `CalculateExpectedSaleRupiah`
unfoldable pub calculate_expected_sale_rupiah : Bytes → Bytes → Result Bytes
unfolding parse_decimal digits round_half_up
calculate_expected_sale_rupiah liters price = do
  l ← parse_decimal liters
  p ← parse_decimal price
  let quotient = round_half_up (l.mantissa * p.mantissa) (10 ^ (l.scale + p.scale))
  refuse_if (ltb max_rupiah quotient) numeric_overflow
  ok (digits quotient)
