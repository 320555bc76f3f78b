-- ===== src/Store/Memory.antt =====
-- A store in memory that has the documented behaviour, for the tests.
use fleet_memory.Prelude.{
  ◌≡◌, refl, sym, List, [], ◌∷◌, Option, none, some, Text, if◌then◌else◌, take, drop, arith,
  Bool-cases, inl, inr, ap, ◌∙◌,
}
use fleet_memory.Errors.{ok}
use fleet_memory.Store.Value.{Value}
use fleet_memory.Store.Api.{Address, address_eq, address_eq_iff, namespace_eq, StoreApi, StoreLaws}

abbrev Records : Type 0
Records = List (Address × Value)

unfoldable pub lookup : Records → Address → Option Value
unfolding address_eq namespace_eq
lookup [] a = none
lookup ((b, v) ∷ rest) a = if address_eq b a then some v else lookup rest a

unfoldable pub put : Address → Value → Records → Records
unfolding address_eq namespace_eq
put a v [] = (a, v) ∷ []
put a v ((b, w) ∷ rest) =
    let later = put a v rest in if address_eq a b then (a, v) ∷ rest else (b, w) ∷ later

unfoldable pub items : Records → List Text → List Value
unfolding namespace_eq
items [] n = []
items ((a, v) ∷ rest) n = if namespace_eq a.namespace n then v ∷ items rest n else items rest n

lookup-put :
    (a : Address) (v : Value) (s : Records) (b : Address)
    → lookup (put a v s) b ≡ (if address_eq a b then some v else lookup s b)
unfolding lookup put
lookup-put a v [] b = refl
lookup-put a v ((c, w) ∷ rest) b = elim (Bool-cases (address_eq a c)) [
  | inl same ↦ let e : c ≡ a = sym ((address_eq_iff a c).0 same) in rw (same, e) (ground arith)
  | inr other ↦ rw other (
      ground
        (arith, lookup-put a v rest b, address_eq_iff c b, address_eq_iff a b, address_eq_iff a c))
]

abbrev pub memory_store : StoreApi
memory_store = record {
  State = Records;
  lookup = lookup;
  items = items;
  aget = λ a s. ok (lookup s a);
  aput = λ a v s. ok (put a v s);
  asearch = λ n limit offset s. ok (take limit (drop offset (items s n)));
}

pub memory_store-laws : StoreLaws memory_store
memory_store-laws = record {
  aget_ok = λ a s o h. cc;
  aput_ok = λ a v s t h b. ap (λ (r : Records). lookup r b) (sym (cc h)) ∙ lookup-put a v s b;
  asearch_ok = λ n limit offset s found h. cc;
}
