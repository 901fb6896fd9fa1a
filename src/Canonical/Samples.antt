-- ===== src/Canonical/Samples.antt =====
-- The order theorem at a concrete object, with a sort of the keys "a" and "b".
use mathlib.Core.List.Perm
use mathlib.Core.List.{Perm, foldr}
use native.Mathlib.Nat.{ℕ_set}
use mathlib.Core.Path.{subst}
use pomkita_be.Prelude.{
  replicate, ℕ, suc, String, ◌≡◌, refl, sym, inl, inr, true, List, [], ◌∷◌, ◌++◌, arith, eq_iff,
  str_eq, if◌then◌else◌, Bool-cases,
}
use pomkita_be.Prelude.Text.{codes}
use pomkita_be.Domain.{ok}
use pomkita_be.Canonical.{Encoding, Members, no_members, member, object, bool, null, marshal, get}
use pomkita_be.Canonical.Order.{marshal-order_independent, pairs}

abbrev tally : String → String → ℕ → ℕ
tally key x n = if str_eq x key then suc n else n

abbrev sort_keys : List String → List String
sort_keys l = replicate (foldr (tally "a") 0 l) "a" ++ replicate (foldr (tally "b") 0 l) "b"

tally_comm : (key x y : String) (n : ℕ) → tally key x (tally key y n) ≡ tally key y (tally key x n)
tally_comm key x y n = ground arith

sort_keys-perm : (xs ys : List String) → Perm xs ys → sort_keys xs ≡ sort_keys ys
sort_keys-perm xs ys p =
    rw
      (
        Perm.foldr-eq ℕ_set (tally "a") (tally_comm "a") p 0,
        Perm.foldr-eq ℕ_set (tally "b") (tally_comm "b") p 0,
      )
      refl

abbrev encoding : Encoding
encoding = record {
  format_int = λ n. codes "1";
  marshal_string = λ s. ok (b'"' ∷ (codes s ++ (b'"' ∷ [])));
  parses_float = λ b. true;
  sort_strings = sort_keys;
  sha256 = λ b. replicate 32 7;
}

abbrev one_way : Members
one_way = member "a" (bool true) (member "b" null no_members)

abbrev other_way : Members
other_way = member "b" null (member "a" (bool true) no_members)

same_values : (k : String) → get k (pairs one_way) ≡ get k (pairs other_way)
unfolding get
same_values k = elim (Bool-cases (str_eq "a" k)) [
  | inl e ↦
      let named : k ≡ "a" = sym ((eq_iff "a" k).0 e) in
      subst (λ x. get x (pairs one_way) ≡ get x (pairs other_way)) (sym named) refl
  | inr e ↦ ground (arith, e)
]

marshal-order_independent_example :
    marshal encoding (object one_way) ≡ marshal encoding (object other_way)
marshal-order_independent_example =
    marshal-order_independent encoding one_way other_way sort_keys-perm (Perm.swap "b" "a" [])
      same_values
