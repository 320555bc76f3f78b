-- ===== src/Embed.antt =====
-- embed.py: the packing of texts into requests, the retry, and the whole. The service is a parameter:
-- what it answers and how that changes its state.
pub mod Response
pub mod Packing
pub mod Vectors
mod Tests
use fleet_memory.Prelude.{
  none, ℕ, ◌+◌, ◌*◌, ◌/◌, Bool, false, ◌&&◌, not, List, [], ◌∷◌, ◌++◌, some, Text, length, take,
  is_empty, ltb, leb, ◌==◌, if◌then◌else◌,
}
use fleet_memory.Errors.{
  Error, Result, ok, err, embed_dimension, embed_timeout, embed_service, embed_request, timeout,
}
use fleet_memory.Exec.{Exec, pure, ◌>>=◌}
use fleet_memory.Embed.Response.{Reply, Values, Vector, read_reply}

abbrev pub chars_per_token : ℕ
chars_per_token = 4

abbrev at_least_one : ℕ → ℕ
at_least_one n = if n == 0 then 1 else n

unfoldable pub estimate_tokens : Text → ℕ
estimate_tokens text = at_least_one ((length text + 3) / chars_per_token)

-- A text as it is packed: cut to the budget if it alone exceeds it.
unfoldable pub fit : ℕ → Text → Text
unfolding estimate_tokens
fit max_batch_tokens text =
    if ltb max_batch_tokens (estimate_tokens text)
    then take (max_batch_tokens * chars_per_token) text
    else text

-- The loop, from `current` and `current_tokens`.
unfoldable pub pack_from : ℕ → List Text → List Text → ℕ → List (List Text)
unfolding fit
pack_from max_batch_tokens [] current current_tokens = if is_empty current then [] else current ∷ []
pack_from max_batch_tokens (text ∷ texts) current current_tokens =
    let fitted = fit max_batch_tokens text in
    let estimate = estimate_tokens fitted in
    let flushed = current ∷ pack_from max_batch_tokens texts (fitted ∷ []) estimate in
    let joined =
      pack_from max_batch_tokens texts (current ++ (fitted ∷ [])) (current_tokens + estimate) in
    if not (is_empty current) && ltb max_batch_tokens (current_tokens + estimate)
    then flushed
    else joined

unfoldable pub pack_batches : List Text → ℕ → List (List Text)
unfolding pack_from
pack_batches texts max_batch_tokens = pack_from max_batch_tokens texts [] 0

-- `error.status_code` is a 5xx
abbrev pub is_server_error : Error → Bool
is_server_error (embed_service (some status)) = leb 500 status && ltb status 600
is_server_error (embed_request (some status) error_type) = leb 500 status && ltb status 600
is_server_error _ = false

-- The `except` clauses of `embed`, in their order.
unfoldable pub embed_error : Error → Error
embed_error timeout = embed_timeout
embed_error (embed_dimension actual expected) = embed_dimension actual expected
embed_error embed_timeout = embed_timeout
embed_error (embed_service status_code) = embed_service status_code
embed_error (embed_request status_code error_type) = embed_request status_code error_type
embed_error _ = embed_service none

abbrev embed_result : Result (List Vector) → Result (List Vector)
embed_result (ok embeddings) = ok embeddings
embed_result (err e) = err (embed_error e)

module _ {S : Type 0} (post : List Text → S → Reply × S) (values : Values) (embed_dims : ℕ) where
  unfoldable pub embed_once : List Text → Exec S (List Vector)
  unfolding read_reply
  embed_once texts s =
      (read_reply values embed_dims (length texts) (post texts s).0, (post texts s).1)

  abbrev retried : List Text → Result (List Vector) × S → Result (List Vector) × S
  retried texts (ok embeddings, s) = (ok embeddings, s)
  retried texts (err e, s) = if is_server_error e then embed_once texts s else (err e, s)

  -- `_embed_request_with_one_5xx_retry`
  unfoldable pub embed_with_retry : List Text → Exec S (List Vector)
  unfolding embed_once
  embed_with_retry texts s = retried texts (embed_once texts s)

  -- The loop over the batches.
  unfoldable pub embed_batches : List (List Text) → Exec S (List Vector)
  unfolding embed_with_retry
  embed_batches [] = pure []
  embed_batches (batch ∷ batches) = embed_with_retry batch >>= λ embeddings.
      embed_batches batches >>= λ more. pure (embeddings ++ more)

  unfoldable pub embed : ℕ → List Text → Exec S (List Vector)
  unfolding embed_batches pack_batches embed_error
  embed max_batch_tokens texts s =
      let done = embed_batches (pack_batches texts max_batch_tokens) s in
      if is_empty texts then (ok [], s) else (embed_result done.0, done.1)
