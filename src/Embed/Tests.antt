-- ===== src/Embed/Tests.antt =====
-- Embeddings by a service that fails once and then answers.
use fleet_memory.Prelude.{
  ℕ, zero, suc, ◌≡◌, refl, true, List, [], ◌∷◌, none, some, Text, codes, map, text_eq, pos, arith,
}
use fleet_memory.Errors.{ok}
use fleet_memory.Json.{Json, num, arr, obj, cons, nil, field, end}
use fleet_memory.Embed.Response.{Reply, response, Values}
use fleet_memory.Embed.{fit, pack_batches, embed}
use fleet_memory.Embed.Packing.{Packed, pack_batches-Packed}
use fleet_memory.Embed.Vectors.{Embedded, embed-Embedded}

abbrev values : Values
values = record { finite_int = λ z. true; finite_float = λ s. true; shown = λ j. [] }

abbrev one_vector : Json
one_vector = obj (
    field (codes "data")
      (arr (cons (obj (field (codes "embedding") (arr (cons (num (pos 1)) nil)) end)) nil)) end)

-- The state counts the failures that are left.
abbrev post : List Text → ℕ → Reply × ℕ
post texts zero = (response 200 (some one_vector), 0)
post texts (suc n) = (response 503 none, n)

abbrev texts : List Text
texts = codes "abcd" ∷ codes "efghij" ∷ []

batches_run : pack_batches texts 1 ≡ (codes "abcd" ∷ []) ∷ (codes "efgh" ∷ []) ∷ []
unfolding pack_batches
batches_run = refl

pack_batches-Packed_example : Packed 1 (map (fit 1) texts) (pack_batches texts 1)
pack_batches-Packed_example = pack_batches-Packed 1 (omega arith) texts

embed_run : embed post values 1 1 texts 1 ≡ (ok ((num (pos 1) ∷ []) ∷ (num (pos 1) ∷ []) ∷ []), 0)
unfolding embed text_eq
embed_run = refl

embed-Embedded_example : Embedded 1 2 ((num (pos 1) ∷ []) ∷ (num (pos 1) ∷ []) ∷ [])
embed-Embedded_example =
    embed-Embedded values 1 post 1 texts 1 ((num (pos 1) ∷ []) ∷ (num (pos 1) ∷ []) ∷ []) 0
      (omega arith) embed_run
