-- ===== src/Relay/Service/Ingest.antt =====
-- The outcomes of an ingestion.
use fleet_memory.Prelude.{◌≡◌, refl, ap, ap₂, ◌⊎◌, inl, inr, some, Text, text_eq_iff, codes}
use fleet_memory.Errors.{
  Error, Reason, Result, ok, err, >>=-eq-ok, poison_episode, transient_ingest, unknown_payload_type,
  unknown_type, identifier_validation, namespace_validation, embed_dimension, embed_request,
  validation, supersession_validation, endless,
}
use fleet_memory.Exec.{lift}
use fleet_memory.Exec.Rules
use fleet_memory.Payloads.Registry.{get_model_for_type}
use fleet_memory.Payloads.Base.{Payload}
use fleet_memory.Payloads.Base.WellFormed.{IsWellFormed, construct_iff}
use fleet_memory.Store.Api.{StoreApi}
use fleet_memory.Writer.Identity.{Digests}
use fleet_memory.Writer.Core.{write}
use fleet_memory.Relay.Schema.{MemoryEpisodeV1}
use fleet_memory.Relay.Service.Episode.{
  Collaborators, episode_meta, episode_payload, present_type, parsed_body,
}
use fleet_memory.Relay.Service.{map_error, map_result, ingest_json, route, ingest}

map_error-cases :
    (e : Error)
    → ((r : Reason) × (map_error e ≡ poison_episode r))
      ⊎ (map_error e ≡ transient_ingest)
      ⊎ (map_error e ≡ endless)
unfolding map_error
map_error-cases (poison_episode r) = inl (r, refl)
map_error-cases (unknown_payload_type t) = inl (unknown_type t, refl)
map_error-cases (namespace_validation parts) = inl (_, refl)
map_error-cases (identifier_validation f v) = inl (_, refl)
map_error-cases validation = inl (_, refl)
map_error-cases (embed_dimension a e) = inl (_, refl)
map_error-cases (embed_request c t) = inl (_, refl)
map_error-cases endless = inr (inr refl)
map_error-cases _ = inr (inl refl)

module _ (c : Collaborators) (api : StoreApi) (d : Digests) where
  -- Whatever happens, an ingestion returns, rejects the episode as poison, fails as transient, or
  -- does not end: no other exception leaves it.
  pub ingest-cases :
      (episode : MemoryEpisodeV1) (s : api.State)
      → ((ingest c api d episode s).0 ≡ ok tt)
        ⊎ ((r : Reason) × ((ingest c api d episode s).0 ≡ err (poison_episode r)))
        ⊎ ((ingest c api d episode s).0 ≡ err transient_ingest)
        ⊎ ((ingest c api d episode s).0 ≡ err endless)
  unfolding ingest
  ingest-cases episode s = classify (route c api d episode s).0
    where
      classify :
          (r : Result (Unit {0}))
          → (map_result r ≡ ok tt)
            ⊎ ((reason : Reason) × (map_result r ≡ err (poison_episode reason)))
            ⊎ (map_result r ≡ err transient_ingest)
            ⊎ (map_result r ≡ err endless)
      classify (ok done) = inl refl
      classify (err e) = elim (map_error-cases e) [
        | inl (reason, poison) ↦ inr (inl (reason, ap err poison))
        | inr (inl transient) ↦ inr (inr (inl (ap err transient)))
        | inr (inr unended) ↦ inr (inr (inr (ap err unended)))
      ]

  pub ingest_unbuilt :
      (episode : MemoryEpisodeV1) (e : Error) (s : api.State)
      → episode.content_format ≡ codes "json"
      → episode_payload c episode ≡ err e
      → ingest c api d episode s ≡ (err (map_error e), s)
  unfolding ingest route ingest_json
  ingest_unbuilt episode e s json unbuilt =
      rw ((text_eq_iff episode.content_format (codes "json")).1 json, unbuilt) refl

  -- An episode whose payload supersedes itself or a malformed key fails as transient, although it
  -- fails so on every delivery.
  pub ingest_supersession_transient :
      (episode : MemoryEpisodeV1) (ref : Text) (s : api.State)
      → episode.content_format ≡ codes "json"
      → episode_payload c episode ≡ err (supersession_validation ref)
      → ingest c api d episode s ≡ (err transient_ingest, s)
  unfolding map_error
  ingest_supersession_transient episode ref s json unbuilt =
      ingest_unbuilt episode (supersession_validation ref) s json unbuilt

  map_result-eq-ok : (r : Result (Unit {0})) → map_result r ≡ ok tt → r ≡ ok tt
  map_result-eq-ok (ok done) h = refl
  map_result-eq-ok (err e) h = cc

  route_of_ingest :
      (episode : MemoryEpisodeV1) (s t : api.State)
      → ingest c api d episode s ≡ (ok tt, t)
      → route c api d episode s ≡ (ok tt, t)
  unfolding ingest
  route_of_ingest episode s t h =
      ap₂ (λ r u. (r, u)) (map_result-eq-ok _ (ap (λ p. p.0) h)) (ap (λ p. p.1) h)

  episode_payload_sound :
      (episode : MemoryEpisodeV1) (p : Payload) → episode_payload c episode ≡ ok p → IsWellFormed p
  unfolding episode_payload
  episode_payload_sound episode p h =
      let (t, _, h1) = >>=-eq-ok (present_type episode.payload_type) _ h in
      let (j, _, h2) = >>=-eq-ok (parsed_body (c.json_loads episode.body)) _ h1 in
      let (kind, _, h3) = >>=-eq-ok (get_model_for_type t) _ h2 in
      let (data_in, _, h4) = >>=-eq-ok (c.arguments kind j) _ h3 in
      ((construct_iff kind data_in p).0 h4).1

  -- A json episode that is ingested has been written: its body is a well-formed payload of its
  -- type, and the write of it, with the envelope's metadata, has returned in this state.
  pub ingest_json_written :
      (episode : MemoryEpisodeV1) (s t : api.State)
      → episode.content_format ≡ codes "json"
      → ingest c api d episode s ≡ (ok tt, t)
      → (p : Payload) × (episode_payload c episode ≡ ok p)
        × IsWellFormed p
        × (write api d p (some (episode_meta episode)) s ≡ (ok tt, t))
  unfolding route ingest_json
  ingest_json_written episode s t json h =
      let is_json = (text_eq_iff episode.content_format (codes "json")).1 json in
      let returned = route_of_ingest episode s t h in
      let (p, built, wrote) =
        Rules.>>=-eq-ok (lift (episode_payload c episode))
          (λ payload. write api d payload (some (episode_meta episode))) s tt t
          (rw is_json at returned) in
      (p, ap (λ r. r.0) built, episode_payload_sound episode p (ap (λ r. r.0) built), wrote)
