-- ===== src/Canonical/Order.antt =====
-- `Marshal` and the order in which Go walks a map.
use mathlib.Core.List.{Perm}
use pomkita_be.Prelude.{
  String, ◌≡◌, refl, sym, ap, ◌∙◌, Bool, true, false, Option, none, some, List, [], ◌∷◌, arith,
}
use pomkita_be.Prelude.Text.{Bytes}
use pomkita_be.Domain.{Result}
use pomkita_be.Canonical.{
  Value, object, Members, no_members, member, Encoding, keys, get, append_members, append_value,
  append_typed, marshal,
}

-- The values of a map, by key.
abbrev pub pairs : Members → List (String × Value)
pairs no_members = []
pairs (member k v m) = (k, v) ∷ pairs m

abbrev encoded : Encoding → Option Value → Option (Result Bytes)
encoded e none = none
encoded e (some v) = some (append_value e v)

get-append_typed :
    (e : Encoding) (k : String) (m : Members)
    → get k (append_typed e m) ≡ encoded e (get k (pairs m))
unfolding get append_typed
get-append_typed e k no_members = refl
get-append_typed e k (member j v m) = ground (arith, get-append_typed e k m)

append_members-cong :
    (e : Encoding) (first : Bool) (ks : List String) (t t' : List (String × Result Bytes))
    → ((k : String) → get k t ≡ get k t')
    → append_members e first ks t ≡ append_members e first ks t'
unfolding append_members
append_members-cong e first [] t t' same = refl
append_members-cong e first (k ∷ ks) t t' same =
    rw (same k, append_members-cong e false ks t t' same) refl

-- Where sorting forgets the order of its input, two member lists with permuted keys and the same
-- value under every key are written alike.
pub marshal-order_independent :
    (e : Encoding) (m m' : Members)
    → ((xs ys : List String) → Perm xs ys → e.sort_strings xs ≡ e.sort_strings ys)
    → Perm (keys m) (keys m')
    → ((k : String) → get k (pairs m) ≡ get k (pairs m'))
    → marshal e (object m) ≡ marshal e (object m')
unfolding marshal append_value
marshal-order_independent e m m' sorted same_keys same = rw (sorted (keys m) (keys m') same_keys) (
    rw
      (append_members-cong e true (e.sort_strings (keys m')) (append_typed e m) (append_typed e m')
        (λ k. get-append_typed e k m ∙ (ap (encoded e) (same k) ∙ sym (get-append_typed e k m'))))
      refl)
