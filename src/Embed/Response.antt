-- ===== src/Embed/Response.antt =====
-- embed.py: the reading of one response. Which numbers are finite and `str` of a value that is no text
-- are parameters. `httpx`'s ReadTimeout and ConnectTimeout are `timeout`, its other exceptions
-- `other`.
use fleet_memory.Prelude.{
  ℕ, Bool, false, ◌&&◌, ◌||◌, not, List, [], ◌∷◌, Option, none, some, Text, codes, length, all, ltb,
  leb, ◌==◌, if◌then◌else◌, ℤ,
}
use fleet_memory.Errors.{
  Result, ok, err, ◌>>=◌, ◌>>◌, check, embed_dimension, embed_service, embed_request, timeout,
  other,
}
use fleet_memory.Json.{Json, null, num, float, str, arr, obj, Items, nil, cons}
use fleet_memory.Fence.Files.{get}

-- `_is_deterministic_client_error`
abbrev pub is_deterministic_client_error : ℕ → Bool
is_deterministic_client_error status_code =
    leb 400 status_code && ltb status_code 500 && not (status_code == 408 || status_code == 429)

-- An answer of the service, `none` for a body that is not JSON, or an exception of the client.
pub data Reply : Type 0 where
  response : ℕ → Option Json → Reply
  timed_out : Reply
  broken : Reply

-- Which numbers `math.isfinite` takes for finite, and `str` of a value.
pub record Values : Type 0 where
  pub finite_int : ℤ → Bool
  pub finite_float : Text → Bool
  pub shown : Json → Text

module _ (values : Values) where
  abbrev shown_or_none : Option Json → Option Text
  shown_or_none none = none
  shown_or_none (some null) = none
  shown_or_none (some (str s)) = some s
  shown_or_none (some j) = some (values.shown j)

  -- `_parse_embed_error`, but for the message, which no handler reads
  abbrev error_type_of : Option Json → Option Text
  error_type_of (some (obj err_fields)) = shown_or_none (get (codes "type") err_fields)
  error_type_of _ = none

  unfoldable pub parse_embed_error : Option Json → Option Text
  unfolding get
  parse_embed_error (some (obj body)) = error_type_of (get (codes "error") body)
  parse_embed_error _ = none

  abbrev is_finite_number : Json → Bool
  is_finite_number (num z) = values.finite_int z
  is_finite_number (float s) = values.finite_float s
  is_finite_number _ = false

abbrev pub items_list : Items → List Json
items_list nil = []
items_list (cons j rest) = j ∷ items_list rest

abbrev pub Vector : Type 0
Vector = List Json

module _ (values : Values) where
  abbrev pub checked_vector : Option Json → Result Vector
  checked_vector (some (arr numbers)) =
      check (all (is_finite_number values) (items_list numbers)) (embed_service none)
      >> ok (items_list numbers)
  checked_vector _ = err (embed_service none)

  -- One item of `data`.
  unfoldable pub item_vector : Json → Result Vector
  unfolding get
  item_vector (obj item) = checked_vector (get (codes "embedding") item)
  item_vector _ = err (embed_service none)

  unfoldable pub item_vectors : List Json → Result (List Vector)
  unfolding item_vector
  item_vectors [] = ok []
  item_vectors (item ∷ rest) = do
    vector ← item_vector item
    vectors ← item_vectors rest
    ok (vector ∷ vectors)

unfoldable pub check_dimensions : ℕ → List Vector → Result (Unit {0})
check_dimensions embed_dims [] = ok tt
check_dimensions embed_dims (v ∷ vs) = do
  check (length v == embed_dims) (embed_dimension (length v) embed_dims)
  check_dimensions embed_dims vs

module _ (values : Values) (embed_dims : ℕ) where
  abbrev pub checked_data : ℕ → Option Json → Result (List Vector)
  checked_data count (some (arr items)) = do
    check (length (items_list items) == count) (embed_service none)
    embeddings ← item_vectors values (items_list items)
    check_dimensions embed_dims embeddings
    ok embeddings
  checked_data count _ = err (embed_service none)

  unfoldable pub parse_response : ℕ → Option Json → Result (List Vector)
  unfolding item_vectors check_dimensions get
  parse_response count (some (obj body)) = checked_data count (get (codes "data") body)
  parse_response count _ = err (embed_service none)

  -- `_embed_request` from its response on.
  unfoldable pub read_reply : ℕ → Reply → Result (List Vector)
  unfolding parse_response parse_embed_error
  read_reply count timed_out = err timeout
  read_reply count broken = err other
  read_reply count (response status_code body) =
      if status_code == 200
      then parse_response count body
      else if is_deterministic_client_error status_code
      then err (embed_request (some status_code) (parse_embed_error values body))
      else err (embed_service (some status_code))
