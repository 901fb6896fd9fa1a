-- ===== src/Canonical.antt =====
-- internal/canonical/canonical.go: the JSON bytes that hashes are taken of. What the file calls of
-- Go's standard library is a parameter.
pub mod Order
mod Samples
use pomkita_be.Prelude.{
  length, ℕ, zero, suc, ◌+◌, ◌-◌, ◌*◌, ◌/◌, ◌%◌, ◌^◌, ◌≤◌, ◌<◌, String, ◌≡◌, refl, sym, ap, ◌∙◌,
  ◌≢◌, ◌↔◌, ◌⊎◌, inl, inr, Bool, true, false, not, ◌&&◌, ◌||◌, Option, none, some, List, [], ◌∷◌,
  ◌++◌, map, arith, eq_iff, ltb, leb, ◌==◌, str_eq, if◌then◌else◌, Uuid, Time,
}
use pomkita_be.Prelude.Text.{Bytes, codes}
use pomkita_be.Domain.{
  Error, wrap_error, Result, ok, err, domain, wrapped, plain, record_not_found, refuse_if, found_or,
  ◌>>=◌, ◌>>◌, transaction,
}

pub data ℤ : Type 0 where
  pos : ℕ → ℤ
  negsuc : ℕ → ℤ

-- The values that `appendValue` tells apart. All integer types are written alike, and `other` is a
-- value of any type that its switch does not name.
mutual
  pub data Value : Type 0 where
    null : Value
    bool : Bool → Value
    str : String → Value
    number : Bytes → Value
    int : ℤ → Value
    float : Value
    array : Values → Value
    object : Members → Value
    other : Value

  pub data Values : Type 0 where
    no_values : Values
    value : Value → Values → Values

  -- a `map[string]any`, in some order
  pub data Members : Type 0 where
    no_members : Members
    member : String → Value → Members → Members

-- What the file calls: `strconv.FormatInt(n, 10)`, `json.Marshal` of a string, whether
-- `strconv.ParseFloat(text, 64)` succeeds, `sort.Strings`, and `sha256.Sum256`.
pub record Encoding : Type 0 where
  pub format_int : ℤ → Bytes
  pub marshal_string : String → Result Bytes
  pub parses_float : Bytes → Bool
  pub sort_strings : List String → List String
  pub sha256 : Bytes → Bytes

abbrev pub keys : Members → List String
keys no_members = []
keys (member k v m) = k ∷ keys m

-- `typed[key]`
unfoldable pub get {ℓ} : {A : Type ℓ} → String → List (String × A) → Option A
get k [] = none
get k ((j, a) ∷ m) = if str_eq j k then some a else get k m

-- `version >= 1`
abbrev pub is_positive : ℤ → Bool
is_positive (pos n) = ltb 0 n
is_positive (negsuc n) = false

unfoldable pub starts_with_plus : Bytes → Bool
starts_with_plus [] = false
starts_with_plus (c ∷ rest) = c == b'+'

-- `out.WriteByte(',')` before every item but the first
abbrev pub comma_unless : Bool → Bytes
comma_unless first = if first then [] else b',' ∷ []

-- `appendNumber`
unfoldable pub append_number : Encoding → Bytes → Result Bytes
unfolding starts_with_plus
append_number e text = do
  refuse_if (not (e.parses_float text)) (plain "invalid JSON number")
  refuse_if (starts_with_plus text) (plain "invalid JSON number")
  ok text

-- `appendString`
unfoldable pub append_string : Encoding → String → Result Bytes
append_string e text = wrap_error "marshal JSON string" (e.marshal_string text)

-- what is written for `typed[key]`; a missing key has the value `nil`
abbrev pub written : Option (Result Bytes) → Result Bytes
written none = ok (codes "null")
written (some r) = r

-- The loop over the sorted keys; `typed` holds what `appendValue` writes for each value.
unfoldable pub append_members :
    Encoding → Bool → List String → List (String × Result Bytes) → Result Bytes
unfolding append_string get
append_members e first [] typed = ok []
append_members e first (k ∷ ks) typed = do
  key ← append_string e k
  item ← written (get k typed)
  more ← append_members e false ks typed
  ok (comma_unless first ++ (key ++ (b':' ∷ (item ++ more))))

-- `appendValue`, as the bytes that it adds to the buffer
unfoldable mutual
  unfolding append_number append_string append_members

  pub append_value : Encoding → Value → Result Bytes
  append_value e null = ok (codes "null")
  append_value e (bool b) = ok (if b then codes "true" else codes "false")
  append_value e (str s) = append_string e s
  append_value e (number text) = append_number e text
  append_value e (int n) = ok (e.format_int n)
  append_value e float = err (plain "floating point values are not supported")
  append_value e (array xs) = do items ← append_items e true xs; ok (b'[' ∷ (items ++ (b']' ∷ [])))
  append_value e (object m) = do
    items ← append_members e true (e.sort_strings (keys m)) (append_typed e m)
    ok (b'{' ∷ (items ++ (b'}' ∷ [])))
  append_value e other = err (plain "unsupported canonical JSON value")

  pub append_items : Encoding → Bool → Values → Result Bytes
  append_items e first no_values = ok []
  append_items e first (value v vs) = do
    item ← append_value e v
    rest ← append_items e false vs
    ok (comma_unless first ++ (item ++ rest))

  pub append_typed : Encoding → Members → List (String × Result Bytes)
  append_typed e no_members = []
  append_typed e (member k v m) = (k, append_value e v) ∷ append_typed e m

-- `Marshal`
unfoldable pub marshal : Encoding → Value → Result Bytes
unfolding append_value
marshal e v = append_value e v

-- `HashVersionedPayload`
unfoldable pub hash_versioned_payload : Encoding → Value → ℤ → Result Bytes
unfolding marshal
hash_versioned_payload e payload version = do
  refuse_if (not (is_positive version)) (plain "canonical version must be positive")
  encoded ←
      wrap_error "marshal versioned payload"
        (marshal e (array (value payload (value (int version) no_values))))
  ok (e.sha256 encoded)
