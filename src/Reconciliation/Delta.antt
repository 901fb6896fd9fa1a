-- ===== src/Reconciliation/Delta.antt =====
-- `CalculateMeterDelta` on a meter that wraps round.
use pomkita_be.Prelude.{Bool-cases, ℕ, ◌+◌, ◌-◌, ◌%◌, ◌≤◌, ◌<◌, ◌≡◌, ◌⊎◌, inl, inr, arith, leb}
use pomkita_be.Prelude.Text.{Bytes}
use pomkita_be.Domain.{>>=-ok, ok}
use pomkita_be.Reconciliation.{
  Parsed, parse_decimal, units, format_decimal, common_scale, meter_delta, calculate_meter_delta,
}

-- The delta is below the modulus and leads from the start to the end; a wrapped one is at most the
-- threshold.
abbrev pub IsDelta : ℕ → ℕ → ℕ → ℕ → ℕ → Type 0
IsDelta start end modulus threshold delta =
    (start < modulus)
    × (end < modulus)
    × (delta < modulus)
    × ((start + delta) % modulus ≡ end)
    × ((start ≤ end) ⊎ (delta ≤ threshold))

mod_of_below : (n b m : ℕ) → n ≡ b → b < m → n % m ≡ b
mod_of_below n b m e bound = grind arith

mod_of_wrapped : (n b m : ℕ) → n ≡ m + b → b < m → n % m ≡ b
mod_of_wrapped n b m e bound = grind arith

meter_delta_sound :
    (start end modulus threshold delta : ℕ)
    → meter_delta start end modulus threshold ≡ ok delta
    → IsDelta start end modulus threshold delta
unfolding meter_delta
meter_delta_sound start end modulus threshold delta h = elim (Bool-cases (leb start end)) [
  | inl e ↦ (
    ground (arith, e, h),
    ground (arith, e, h),
    ground (arith, e, h),
    mod_of_below (start + delta) end modulus (ground (arith, e, h)) (ground (arith, e, h)),
    inl (ground arith),
  )
  | inr e ↦ (
    ground (arith, e, h),
    ground (arith, e, h),
    ground (arith, e, h),
    mod_of_wrapped (start + delta) end modulus (ground (arith, e, h)) (ground (arith, e, h)),
    inr (ground (arith, h, e)),
  )
]

-- A delta is given if both readings are below the modulus and either the end is not before the
-- start, or the wrapped delta is at most the threshold.
pub meter_delta_total :
    (start end modulus threshold : ℕ)
    → start < modulus
    → end < modulus
    → (start ≤ end) ⊎ (modulus + end ≤ threshold + start)
    → (delta : ℕ) × (meter_delta start end modulus threshold ≡ ok delta)
unfolding meter_delta
meter_delta_total start end modulus threshold s e h = elim (Bool-cases (leb start end)) [
  | inl c ↦ (end - start, ground (arith, c))
  | inr c ↦ (modulus - start + end, ground (arith, c))
]

-- The text is the meter delta of four decimals: in units of their longest fraction the readings are
-- below the modulus and the delta is the way between them.
abbrev pub IsMeterDelta : Bytes → Bytes → Bytes → Bytes → Bytes → Type 0
IsMeterDelta start end modulus threshold text =
    (s : Parsed) × (e : Parsed) × (m : Parsed) × (t : Parsed) × (delta : ℕ) × (parse_decimal start
      ≡ ok s)
    × (parse_decimal end ≡ ok e)
    × (parse_decimal modulus ≡ ok m)
    × (parse_decimal threshold ≡ ok t)
    × (let k = common_scale s e m t in
        IsDelta (units k s) (units k e) (units k m) (units k t) delta
        × (text ≡ format_decimal k delta))

pub calculate_meter_delta-IsMeterDelta :
    (start end modulus threshold text : Bytes)
    → calculate_meter_delta start end modulus threshold ≡ ok text
    → IsMeterDelta start end modulus threshold text
unfolding calculate_meter_delta
calculate_meter_delta-IsMeterDelta start end modulus threshold text h =
    let (s, es, h1) = >>=-ok (parse_decimal start) _ h in
    let (e, ee, h2) = >>=-ok (parse_decimal end) _ h1 in
    let (m, em, h3) = >>=-ok (parse_decimal modulus) _ h2 in
    let (t, et, h4) = >>=-ok (parse_decimal threshold) _ h3 in
    let k = common_scale s e m t in
    let (delta, ed, h5) =
      >>=-ok (meter_delta (units k s) (units k e) (units k m) (units k t)) _ h4 in
    (
      s,
      e,
      m,
      t,
      delta,
      es,
      ee,
      em,
      et,
      (
        meter_delta_sound (units k s) (units k e) (units k m) (units k t) delta ed,
        ground (arith, h5),
      ),
    )
