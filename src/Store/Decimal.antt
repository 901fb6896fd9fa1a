-- ===== src/Store/Decimal.antt =====
-- internal/repository/store/decimal.go: a PostgreSQL numeric kept as its text.
use pomkita_be.Prelude.Text.{Bytes}

abbrev pub Decimal : Type 0
Decimal = Bytes
