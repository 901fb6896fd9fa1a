-- ===== src/Prelude/Tables.antt =====
-- A table is a list of rows. The queries of gorm that the program uses, by a test on a row.
use Prim.Native.Nat.{ℕ, zero, suc, ◌+◌}
use mathlib.Core.Path.{◌≡◌, refl, ap}
use mathlib.Core.Bool.{Bool, true, false}
use mathlib.Core.Option.{Option, none, some}
use mathlib.Core.List.{List, [], ◌∷◌, ◌++◌}
use native.Mathlib.Omega.{arith}
use pomkita_be.Prelude.Tests.{if◌then◌else◌, Bool-cases, leb, ltb}
use Prim.Native.Nat.{◌≤◌, ◌<◌}
use mathlib.Core.Logic.{inl, inr}

module _ {ℓ} {A : Type ℓ} where
  abbrev pub length : List A → ℕ
  length [] = 0
  length (x ∷ xs) = suc (length xs)

  abbrev pub take : ℕ → List A → List A
  take zero xs = []
  take (suc n) [] = []
  take (suc n) (x ∷ xs) = x ∷ take n xs

  abbrev pub replicate : ℕ → A → List A
  replicate zero x = []
  replicate (suc n) x = x ∷ replicate n x

  abbrev pub All {κ} : (A → Type κ) → List A → Type κ
  All P [] = Unit
  All P (x ∷ xs) = P x × All P xs

  -- `Where(…).First(&row)`: the first row, in the table's order
  unfoldable pub first : (A → Bool) → List A → Option A
  first p [] = none
  first p (x ∷ xs) = if p x then some x else first p xs

  -- the last row of those that a loop puts under the same key of a map
  unfoldable pub last_of : (A → Bool) → List A → Option A
  last_of p [] = none
  last_of p (x ∷ xs) = elim (last_of p xs) [
    | some y ↦ some y
    | none ↦ (if p x then some x else none)
  ]

  -- `Where(…).Find(&rows)`
  unfoldable pub select : (A → Bool) → List A → List A
  select p [] = []
  select p (x ∷ xs) = let rest = select p xs in if p x then x ∷ rest else rest

  -- `Where(…).Count(&n)`
  unfoldable pub count : (A → Bool) → List A → ℕ
  unfolding select
  count p xs = length (select p xs)

  -- `Where(…).Updates(…)`
  unfoldable pub update_where : (A → Bool) → (A → A) → List A → List A
  update_where p f [] = []
  update_where p f (x ∷ xs) = (if p x then f x else x) ∷ update_where p f xs

  -- `Create(&row)`: the new row goes to the end
  abbrev pub create : A → List A → List A
  create x xs = xs ++ x ∷ []

  pub length-update_where :
      (p : A → Bool) (f : A → A) (xs : List A) → length (update_where p f xs) ≡ length xs
  unfolding update_where
  length-update_where p f [] = refl
  length-update_where p f (x ∷ xs) = ap suc (length-update_where p f xs)

  -- What `First` returns satisfies the test.
  pub first-holds : (p : A → Bool) (xs : List A) (x : A) → first p xs ≡ some x → p x ≡ true
  unfolding first
  first-holds p [] x h = ground arith
  first-holds p (y ∷ xs) x h = ground (arith, first-holds p xs x)

  -- An update that keeps the test true is what the same query returns next.
  pub first-update_where :
      (p : A → Bool) (f : A → A) (xs : List A) (x : A)
      → first p xs ≡ some x
      → p (f x) ≡ true
      → first p (update_where p f xs) ≡ some (f x)
  unfolding first update_where
  first-update_where p f [] x h k = ground arith
  first-update_where p f (y ∷ xs) x h k = ground (arith, first-update_where p f xs x)

  -- An update that keeps a key, seen by a query for the key.
  pub first-update_where_keyed :
      (p q : A → Bool) (f : A → A) (xs : List A) (x : A)
      → ((y : A) → p (f y) ≡ p y)
      → first p xs ≡ some x
      → first p (update_where q f xs) ≡ some (if q x then f x else x)
  unfolding first update_where
  first-update_where_keyed p q f [] x keep h = ground arith
  first-update_where_keyed p q f (y ∷ xs) x keep h =
      ground (arith, keep y, first-update_where_keyed p q f xs x keep)

  pub count-append :
      (p : A → Bool) (xs : List A) (x : A)
      → count p (xs ++ x ∷ []) ≡ count p xs + (if p x then 1 else 0)
  unfolding count
  count-append p [] x = ground arith
  count-append p (y ∷ xs) x = ground (arith, count-append p xs x)

  pub first_of_none : (p : A → Bool) (xs : List A) → ((x : A) → p x ≡ false) → first p xs ≡ none
  unfolding first
  first_of_none p [] h = refl
  first_of_none p (x ∷ xs) h = ground (arith, h x, first_of_none p xs h)

  pub first-create_none :
      (p : A → Bool) (xs : List A) (x : A)
      → first p xs ≡ none
      → p x ≡ true
      → first p (xs ++ x ∷ []) ≡ some x
  unfolding first
  first-create_none p [] x h k = ground (arith, k)
  first-create_none p (y ∷ xs) x h k = ground (arith, k, first-create_none p xs x)

  -- A query finds nothing if no row satisfies it after the update.
  pub first-update_where-none :
      (p q : A → Bool) (f : A → A) (xs : List A)
      → ((x : A) → q (if p x then f x else x) ≡ false)
      → first q (update_where p f xs) ≡ none
  unfolding first update_where
  first-update_where-none p q f [] h = refl
  first-update_where-none p q f (x ∷ xs) h = ground (arith, h x, first-update_where-none p q f xs h)

  -- A weaker test finds a row too.
  pub first_of_weaker :
      (p q : A → Bool) (xs : List A) (x : A)
      → ((y : A) → p y ≡ true → q y ≡ true)
      → first p xs ≡ some x
      → (y : A) × (first q xs ≡ some y)
  unfolding first
  first_of_weaker p q [] x h e = ground arith
  first_of_weaker p q (y ∷ xs) x h e = elim (Bool-cases (q y)) [
    | inl hit ↦ (y, rw hit refl)
    | inr miss ↦ rw miss (first_of_weaker p q xs x h (ground (arith, h y)))
  ]

  -- The first row of a test is the first of a stronger one that it meets.
  pub first_of_stronger :
      (p q : A → Bool) (xs : List A) (x : A)
      → ((y : A) → q y ≡ true → p y ≡ true)
      → q x ≡ true
      → first p xs ≡ some x
      → first q xs ≡ some x
  unfolding first
  first_of_stronger p q [] x h k e = ground arith
  first_of_stronger p q (y ∷ xs) x h k e = elim (Bool-cases (q y)) [
    | inl hit ↦ let weak = h y hit in ground (arith, hit, weak)
    | inr miss ↦ elim (Bool-cases (p y)) [
      | inl weak ↦ ground (arith, miss, weak)
      | inr none_ ↦ let rest = first_of_stronger p q xs x h k in ground (arith, miss, none_, rest)
    ]
  ]

  pub select-create_hit :
      (p : A → Bool) (xs : List A) (x : A)
      → p x ≡ true
      → select p (xs ++ x ∷ []) ≡ select p xs ++ x ∷ []
  unfolding select
  select-create_hit p [] x h = ground arith
  select-create_hit p (y ∷ xs) x h = ground (arith, select-create_hit p xs x h)

  pub select-create_miss :
      (p : A → Bool) (xs : List A) (x : A) → p x ≡ false → select p (xs ++ x ∷ []) ≡ select p xs
  unfolding select
  select-create_miss p [] x h = ground arith
  select-create_miss p (y ∷ xs) x h = ground (arith, select-create_miss p xs x h)

module _ {ℓ} {A : Type ℓ} (before : A → A → Bool) where
  abbrev pub sooner : A → Option A → Option A
  sooner x none = some x
  sooner x (some y) = if before y x then some y else some x

  -- `Order(…).First(&row)`: the row that stands before all others
  unfoldable pub pick : List A → Option A
  pick [] = none
  pick (x ∷ xs) = sooner x (pick xs)

module _ {ℓ} {A : Type ℓ} (key : A → ℕ) where
  unfoldable pub insert_by : A → List A → List A
  insert_by x [] = x ∷ []
  insert_by x (y ∷ ys) = if leb (key x) (key y) then x ∷ y ∷ ys else y ∷ insert_by x ys

  -- `Order(key)`: rows with equal keys keep the table's order
  unfoldable pub order_by : List A → List A
  unfolding insert_by
  order_by [] = []
  order_by (x ∷ xs) = insert_by x (order_by xs)

-- `Order("key desc").First(&row)` is the last row of `Order("key")`.
unfoldable pub last? {ℓ} : {A : Type ℓ} → List A → Option A
last? [] = none
last? (x ∷ xs) = elim xs [ [] ↦ some x | _ ∷ _ ↦ last? xs ]

module _ {ℓ} {A : Type ℓ} (key : A → ℕ) where
  insert_by-append :
      (y : A) (zs : List A) (x : A)
      → key y ≤ key x
      → insert_by key y (zs ++ x ∷ []) ≡ insert_by key y zs ++ x ∷ []
  unfolding insert_by
  insert_by-append y [] x h = ground arith
  insert_by-append y (z ∷ zs) x h = ground (arith, insert_by-append y zs x h)

  -- A row with the greatest key comes last.
  pub order_by-append :
      (xs : List A) (x : A)
      → All (λ y. key y ≤ key x) xs
      → order_by key (xs ++ x ∷ []) ≡ order_by key xs ++ x ∷ []
  unfolding order_by
  order_by-append [] x h = refl
  order_by-append (y ∷ xs) x h =
      rw (order_by-append xs x h.1) (insert_by-append y (order_by key xs) x h.0)

module _ {ℓ κ} {A : Type ℓ} (key : A → ℕ) (P : A → Type κ) where
  All-insert_by : (y : A) (zs : List A) → All P (insert_by key y zs) → P y × All P zs
  unfolding insert_by
  All-insert_by y [] h = h
  All-insert_by y (z ∷ zs) h = elim (Bool-cases (leb (key y) (key z))) [
    | inl le ↦ rw le at h
    | inr gt ↦
        let split : P z × All P (insert_by key y zs) = rw gt at h in
        let (py, pzs) = All-insert_by y zs split.1 in (py, (split.0, pzs))
  ]

  pub All-order_by : (xs : List A) → All P (order_by key xs) → All P xs
  unfolding order_by
  All-order_by [] h = h
  All-order_by (x ∷ xs) h =
      let (px, rest) = All-insert_by x (order_by key xs) h in (px, All-order_by xs rest)

-- `select coalesce(max(key), 0)`
unfoldable pub max_of {ℓ} : {A : Type ℓ} → (A → ℕ) → List A → ℕ
max_of key [] = 0
max_of key (x ∷ xs) = let rest = max_of key xs in if leb (key x) rest then rest else key x

-- What is above the maximum of the selected rows is above each of them.
pub max_of-bounds {ℓ} :
    {A : Type ℓ} (key : A → ℕ) (p : A → Bool) (xs : List A) (n : ℕ)
    → max_of key (select p xs) < n
    → All (λ x. p x ≡ true → key x < n) xs
unfolding max_of select
max_of-bounds key p [] n h = tt
max_of-bounds key p (x ∷ xs) n h = elim (Bool-cases (p x)) [
  | inl hit ↦
      let rest_below : max_of key (select p xs) < n = ground (arith, h, hit) in
      let below : key x < n = ground (arith, h, hit) in
      ((λ own. below), max_of-bounds key p xs n rest_below)
  | inr miss ↦
      let rest_below : max_of key (select p xs) < n = ground (arith, h, miss) in
      ((λ own. absurd (ground (arith, own, miss))), max_of-bounds key p xs n rest_below)
]

-- A count of 0 says that no row meets the test.
pub count-none {ℓ} :
    {A : Type ℓ} (p : A → Bool) (xs : List A)
    → ltb 0 (count p xs) ≡ false
    → All (λ x. p x ≡ false) xs
unfolding count select
count-none p [] h = tt
count-none p (x ∷ xs) h = elim (Bool-cases (p x)) [
  | inl hit ↦ absurd (ground (arith, h, hit))
  | inr miss ↦ (miss, count-none p xs (ground (arith, h, miss)))
]

pub All-weaken {ℓ κ μ} :
    {A : Type ℓ} (P : A → Type κ) (Q : A → Type μ) (xs : List A)
    → ((x : A) → P x → Q x)
    → All P xs
    → All Q xs
All-weaken P Q [] f h = tt
All-weaken P Q (x ∷ xs) f h = (f x h.0, All-weaken P Q xs f h.1)
