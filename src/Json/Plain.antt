-- ===== src/Json/Plain.antt =====
-- `json.dumps` succeeds on every value without a `datetime` in it.
use fleet_memory.Prelude.{◌≡◌, refl, Bool, true, false, ◌&&◌, &&-eq-true, List, Text, pos, negsuc}
use fleet_memory.Errors.{ok, >>=-total}
use fleet_memory.Json.{
  Json, null, bool, num, float, str, datetime, arr, obj, Items, nil, cons, Fields, end, field,
  dumps, dumps_items, dumps_fields,
}

unfoldable mutual
  pub is_plain : Json → Bool
  is_plain (datetime shown) = false
  is_plain (arr xs) = is_plain_items xs
  is_plain (obj fs) = is_plain_fields fs
  is_plain _ = true

  pub is_plain_items : Items → Bool
  is_plain_items nil = true
  is_plain_items (cons x xs) = is_plain x && is_plain_items xs

  pub is_plain_fields : Fields → Bool
  is_plain_fields end = true
  is_plain_fields (field key x fs) = is_plain x && is_plain_fields fs

mutual
  unfolding dumps is_plain

  pub dumps_plain : (j : Json) → is_plain j ≡ true → (shown : Text) × (dumps j ≡ ok shown)
  dumps_plain null h = (_, refl)
  dumps_plain (bool true) h = (_, refl)
  dumps_plain (bool false) h = (_, refl)
  dumps_plain (num (pos n)) h = (_, refl)
  dumps_plain (num (negsuc n)) h = (_, refl)
  dumps_plain (float shown) h = (_, refl)
  dumps_plain (str s) h = (_, refl)
  dumps_plain (datetime shown) h = absurd cc
  dumps_plain (arr xs) h = >>=-total (dumps_items xs) _ (items_plain xs h) (λ parts. (_, refl))
  dumps_plain (obj fs) h = >>=-total (dumps_fields fs) _ (fields_plain fs h) (λ entries. (_, refl))

  items_plain :
      (xs : Items) → is_plain_items xs ≡ true → (parts : List Text) × (dumps_items xs ≡ ok parts)
  items_plain nil h = (_, refl)
  items_plain (cons x xs) h =
      let (first, later) = &&-eq-true (is_plain x) (is_plain_items xs) h in
      >>=-total (dumps x) _ (dumps_plain x first)
        (λ shown. >>=-total (dumps_items xs) _ (items_plain xs later) (λ rest. (_, refl)))

  fields_plain :
      (fs : Fields)
      → is_plain_fields fs ≡ true
      → (entries : List (Text × Text)) × (dumps_fields fs ≡ ok entries)
  fields_plain end h = (_, refl)
  fields_plain (field key x fs) h =
      let (first, later) = &&-eq-true (is_plain x) (is_plain_fields fs) h in
      >>=-total (dumps x) _ (dumps_plain x first)
        (λ shown. >>=-total (dumps_fields fs) _ (fields_plain fs later) (λ rest. (_, refl)))
