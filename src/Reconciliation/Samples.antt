-- ===== src/Reconciliation/Samples.antt =====
-- The theorems about readings and prices at concrete texts.
use pomkita_be.Prelude.{ℕ, ◌≡◌, refl, inr, arith}
use pomkita_be.Prelude.Text.{codes}
use pomkita_be.Domain.{ok}
use pomkita_be.Reconciliation.{calculate_expected_sale_rupiah, meter_delta}
use pomkita_be.Reconciliation.Delta.{meter_delta_total}
use pomkita_be.Reconciliation.Sale.{calculate_expected_sale-IsPrice, IsPrice}
use pomkita_be.Reconciliation.Digits.{digits-value, value_of, digits}

meter_delta_total_example : (delta : ℕ) × (meter_delta 995 10 1000 20 ≡ ok delta)
meter_delta_total_example =
    meter_delta_total 995 10 1000 20 (omega arith) (omega arith) (inr (omega arith))

price_is : calculate_expected_sale_rupiah (codes "2.5") (codes "10001") ≡ ok (codes "25003")
unfolding calculate_expected_sale_rupiah
price_is = refl

calculate_expected_sale-IsPrice_example : IsPrice (codes "2.5") (codes "10001") (codes "25003")
calculate_expected_sale-IsPrice_example =
    calculate_expected_sale-IsPrice (codes "2.5") (codes "10001") (codes "25003") price_is

digits-value_example : value_of 0 (digits 25003) ≡ 25003
digits-value_example = digits-value 25003
