-- ===== src/Store/Api.antt =====
-- The store as its clients use it, and what is documented of it.
use fleet_memory.Prelude.{
  ℕ, ◌≡◌, refl, ◌↔◌, Bool, true, false, ◌&&◌, List, [], ◌∷◌, Option, some, Text, text_eq,
  text_eq_iff, if◌then◌else◌, take, drop, arith,
}
use fleet_memory.Errors.{Result, ok}
use fleet_memory.Store.Value.{Value}

-- A namespace and a key in it. `Namespace` of the parent is this list of texts.
pub record Address : Type 0 where
  pub namespace : List Text
  pub key : Text

unfoldable pub namespace_eq : List Text → List Text → Bool
namespace_eq [] [] = true
namespace_eq [] (t ∷ ts) = false
namespace_eq (s ∷ ss) [] = false
namespace_eq (s ∷ ss) (t ∷ ts) = text_eq s t && namespace_eq ss ts

unfoldable pub address_eq : Address → Address → Bool
unfolding namespace_eq
address_eq a b = namespace_eq a.namespace b.namespace && text_eq a.key b.key

namespace_eq→eq : (n m : List Text) → namespace_eq n m ≡ true → n ≡ m
unfolding namespace_eq
namespace_eq→eq [] [] h = refl
namespace_eq→eq [] (t ∷ ts) h = cc
namespace_eq→eq (s ∷ ss) [] h = cc
namespace_eq→eq (s ∷ ss) (t ∷ ts) h = ground (arith, text_eq_iff s t, namespace_eq→eq ss ts)

namespace_eq_refl : (n : List Text) → namespace_eq n n ≡ true
unfolding namespace_eq
namespace_eq_refl [] = refl
namespace_eq_refl (s ∷ ss) = ground (arith, text_eq_iff s s, namespace_eq_refl ss)

pub address_eq_iff : (a b : Address) → (address_eq a b ≡ true) ↔ (a ≡ b)
unfolding address_eq
address_eq_iff a b = (
  λ h. ground (arith, namespace_eq→eq a.namespace b.namespace, text_eq_iff a.key b.key),
  λ e. ground (arith, namespace_eq_refl b.namespace, text_eq_iff b.key b.key),
)

-- `aget`, `aput` and `asearch` may raise; a read leaves the store as it is, and so does a write
-- that raises. `lookup` and `items` are what the store holds: the value at an address, and the
-- values of a namespace in the order of a search without a query.
pub record StoreApi : Type 1 where
  pub State : Type 0
  pub lookup : State → Address → Option Value
  pub items : State → List Text → List Value
  pub aget : Address → State → Result (Option Value)
  pub aput : Address → Value → State → Result State
  pub asearch : List Text → ℕ → ℕ → State → Result (List Value)

-- What is documented: reads return what is held, writes change one address, searches are pages.
pub record StoreLaws (api : StoreApi) : Type 0 where
  pub aget_ok :
      (a : Address) (s : api.State) (o : Option Value) → api.aget a s ≡ ok o → o ≡ api.lookup s a
  pub aput_ok :
      (a : Address) (v : Value) (s t : api.State)
      → api.aput a v s ≡ ok t
      → (b : Address) → api.lookup t b ≡ (if address_eq a b then some v else api.lookup s b)
  pub asearch_ok :
      (n : List Text) (limit offset : ℕ) (s : api.State) (found : List Value)
      → api.asearch n limit offset s ≡ ok found
      → found ≡ take limit (drop offset (api.items s n))
