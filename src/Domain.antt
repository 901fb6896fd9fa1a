-- ===== src/Domain.antt =====
-- internal/domain/errors.go, and how Go code passes errors on: a call that may fail returns a
-- `Result`, `fmt.Errorf` with `%w` wraps the error beneath, and `errors.Is` and `errors.As` look
-- through the wrapping.
use pomkita_be.Prelude.{
  str_eq, String, ◌≡◌, refl, Bool, true, false, Option, none, some, ◌⊎◌, inr, inl, ap, arith,
}

-- `ErrorCategory`
pub data Category : Type 0 where
  authentication dependency validation conflict not_found authorization : Category

pub data Error : Type 0 where
  -- `domain.NewError(category, code)`
  domain : Category → String → Error
  -- `gorm.ErrRecordNotFound`
  record_not_found : Error
  -- `errors.New(text)`, or `fmt.Errorf` with no `%w`
  plain : String → Error
  -- `fmt.Errorf("text: %w", err)`
  wrapped : String → Error → Error

pub data Result {ℓ} (A : Type ℓ) : Type ℓ where
  ok : A → Result A
  err : Error → Result A

infixl 5 ◌>>=◌ ◌>>◌
-- `if err != nil { return err }` after a call
abbrev pub ◌>>=◌ {ℓ κ} : {B : Type κ} {A : Type ℓ} → Result A → (A → Result B) → Result B
err error >>= k = err error
ok value >>= k = k value

abbrev pub ◌>>◌ {ℓ} : {B : Type ℓ} → Result (Unit {0}) → Result B → Result B
call >> next = call >>= λ done. next

-- `if refused { return e }`
abbrev pub refuse_if : Bool → Error → Result (Unit {0})
refuse_if true e = err e
refuse_if false e = ok tt

-- `First(&row)` with the error that the code returns when there is no row
abbrev pub found_or {ℓ} : {A : Type ℓ} → Error → Option A → Result A
found_or e none = err e
found_or e (some a) = ok a

-- `errors.As(err, &domainErr)`: the category and code of the first domain error of the chain
unfoldable pub as_domain : Error → Option (Category × String)
as_domain (domain c code) = some (c, code)
as_domain record_not_found = none
as_domain (plain text) = none
as_domain (wrapped text e) = as_domain e

-- `errors.Is(err, target)` for a domain error, which its code identifies
unfoldable pub has_code : String → Error → Bool
has_code code (domain c k) = str_eq k code
has_code code record_not_found = false
has_code code (plain text) = false
has_code code (wrapped text e) = has_code code e

-- `db.Transaction(f)`: the changes of `f` are kept if it returns no error, and else undone.
abbrev pub transaction {ℓ} : {S A : Type ℓ} → (S → Result (A × S)) → S → Result A × S
transaction f s = elim (f s) [ ok (a, s') ↦ (ok a, s') | err e ↦ (err e, s) ]

-- Inversion of a successful step.
pub >>=-ok {ℓ κ} :
    {B : Type κ} {A : Type ℓ} (r : Result A) (k : A → Result B) {v : B}
    → (r >>= k) ≡ ok v
    → (w : A) × (r ≡ ok w) × (k w ≡ ok v)
>>=-ok (err e) k done = cc
>>=-ok (ok w) k done = (w, refl, done)

-- Inversion of a guard that was passed.
pub passed {ℓ} :
    {A : Type ℓ} (b : Bool) (e : Error) {m : Result A} {a : A}
    → (refuse_if b e >> m) ≡ ok a
    → (b ≡ false) × (m ≡ ok a)
passed true e h = cc
passed false e h = (refl, h)

-- `if err != nil { return fmt.Errorf("text: %w", err) }`
abbrev pub wrap_error {ℓ} : {A : Type ℓ} → String → Result A → Result A
wrap_error text (ok a) = ok a
wrap_error text (err e) = err (wrapped text e)

pub Result-cases {ℓ} :
    {A : Type ℓ} (r : Result A) → ((e : Error) × (r ≡ err e)) ⊎ ((a : A) × (r ≡ ok a))
Result-cases (ok a) = inr (a, refl)
Result-cases (err e) = inl (e, refl)

pub unwrapped {ℓ} :
    {A : Type ℓ} (text : String) (r : Result A) (a : A) → wrap_error text r ≡ ok a → r ≡ ok a
unwrapped text (ok b) a h = h
unwrapped text (err e) a h = absurd cc

-- What a query of a successful step has found.
pub found-some {ℓ} :
    {A : Type ℓ} (e : Error) (o : Option A) (a : A) → found_or e o ≡ ok a → o ≡ some a
found-some e none a h = absurd cc
found-some e (some b) a h = let same : b ≡ a = ground (arith, h) in ap some same
