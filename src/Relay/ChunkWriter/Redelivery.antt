-- ===== src/Relay/ChunkWriter/Redelivery.antt =====
-- What a delivery of chunks leaves, and that a redelivery leaves the same.
use fleet_memory.Prelude.{
  or_else, ◌≡◌, refl, sym, ap, ◌∙◌, Bool, true, false, List, [], ◌∷◌, Option, none, some, Text,
  if◌then◌else◌,
}
use fleet_memory.Errors.{ok}
use fleet_memory.Exec.{lift, write_to}
use fleet_memory.Exec.Rules.{>>=-eq-ok, written-eq-ok}
use fleet_memory.Store.{validate_namespace}
use fleet_memory.Store.Value.{EpisodeMeta, Value}
use fleet_memory.Store.Api.{Address, address_eq, StoreApi, StoreLaws}
use fleet_memory.Writer.Identity.{Digests}
use fleet_memory.Relay.Schema.{Chunk}
use fleet_memory.Relay.ChunkWriter.{chunk_namespace, chunk_address, chunk_value, write_chunks}

-- The value of the last chunk with the address.
abbrev pub last_at : Digests → Text → Option EpisodeMeta → List Chunk → Address → Option Value
last_at d episode_id meta [] b = none
last_at d episode_id meta (chunk ∷ rest) b = or_else (last_at d episode_id meta rest b) (
    if address_eq (chunk_address d episode_id chunk) b
    then some (chunk_value episode_id meta chunk)
    else none)

or_else_assoc :
    (l : Option Value) (b : Bool) (v : Value) (before : Option Value)
    → or_else l (if b then some v else before)
      ≡ or_else (or_else l (if b then some v else none)) before
or_else_assoc none true v before = refl
or_else_assoc none false v before = refl
or_else_assoc (some w) b v before = refl

or_else_twice : (l o : Option Value) → or_else l (or_else l o) ≡ or_else l o
or_else_twice none o = refl
or_else_twice (some v) o = refl

module _ (api : StoreApi) (laws : StoreLaws api) (d : Digests) (episode_id : Text)
    (meta : Option EpisodeMeta) where
  -- After a delivery each address holds the last of its chunks, and no other address has changed.
  pub lookup-write_chunks :
      (chunks : List Chunk) (s t : api.State)
      → write_chunks api d episode_id meta chunks s ≡ (ok tt, t)
      → (b : Address)
      → api.lookup t b ≡ or_else (last_at d episode_id meta chunks b) (api.lookup s b)
  unfolding write_chunks
  lookup-write_chunks [] s t h b = cc
  lookup-write_chunks (chunk ∷ rest) s t h b =
      let a = chunk_address d episode_id chunk in
      let v = chunk_value episode_id meta chunk in
      let (_, valid, h1) =
        >>=-eq-ok (lift (validate_namespace (chunk_namespace chunk))) _ s tt t h in
      let (_, put, h2) =
        >>=-eq-ok (write_to (api.aput a v)) (λ _. write_chunks api d episode_id meta rest) s tt t
          h1 in
      let next = (write_to (api.aput a v) s).1 in
      lookup-write_chunks rest next t h2 b
      ∙ ap (or_else (last_at d episode_id meta rest b))
          (laws.aput_ok a v s next (written-eq-ok (api.aput a v s) s next put) b)
      ∙ or_else_assoc (last_at d episode_id meta rest b) (address_eq a b) v (api.lookup s b)

  -- A redelivered episode leaves every record as the first delivery left it.
  pub write_chunks_again :
      (chunks : List Chunk) (s t u : api.State)
      → write_chunks api d episode_id meta chunks s ≡ (ok tt, t)
      → write_chunks api d episode_id meta chunks t ≡ (ok tt, u)
      → (b : Address) → api.lookup u b ≡ api.lookup t b
  write_chunks_again chunks s t u h k b =
      lookup-write_chunks chunks t u k b
      ∙ ap (or_else (last_at d episode_id meta chunks b)) (lookup-write_chunks chunks s t h b)
      ∙ or_else_twice (last_at d episode_id meta chunks b) (api.lookup s b)
      ∙ sym (lookup-write_chunks chunks s t h b)
