-- ===== src/Writer/Core/Totality.antt =====
-- A write of a well-formed payload returns, if the store does.
use fleet_memory.Prelude.{
  ℕ, ◌+◌, ◌≡◌, ◌≢◌, refl, true, List, [], ◌∷◌, Option, none, some, Text, ◌==◌, arith, Bool-cases,
  inl, inr, All, length, split, codes,
}
use fleet_memory.Errors.{ok, err, endless}
use fleet_memory.Exec.{Exec, ◌>>=◌}
use fleet_memory.Json.{obj, dumps}
use fleet_memory.Payloads.Norm.{is_namespace_part}
use fleet_memory.Payloads.Models.{Kind, adr_payload, payload_type, kind_of}
use fleet_memory.Payloads.Registry.{is_registered}
use fleet_memory.Payloads.Base.{Payload, colon, natural_key, is_key_shaped}
use fleet_memory.Payloads.Base.WellFormed.{IsWellFormed}
use fleet_memory.Store.{validate_namespace}
use fleet_memory.Store.Value.{EpisodeMeta, Value}
use fleet_memory.Store.Api.{Address, StoreApi, StoreLaws}
use fleet_memory.Writer.Identity.{Digests, model_dump}
use fleet_memory.Writer.Identity.Hashing.{dumps-model_dump, content_hash_total}
use fleet_memory.Writer.Supersession.{
  forward_page, mark_if_found, segments_address, predecessor_address, mark_existing,
  mark_predecessor, apply_supersessions, mark, check_and_apply_forward_supersession,
}
use fleet_memory.Writer.Supersession.Pages.{forward_supersession_total}
use fleet_memory.Writer.Core.{
  payload_namespace, payload_address, stored_value, hash_matches, existing_version, write_record,
  upsert, write_registered, write,
}

-- No access to a record raises, and every search returns or raises.
pub record StoreWorks (api : StoreApi) : Type 0 where
  pub aget_works : (a : Address) (s : api.State) → (o : Option Value) × (api.aget a s ≡ ok o)
  pub aput_works :
      (a : Address) (v : Value) (s : api.State) → (t : api.State) × (api.aput a v s ≡ ok t)
  pub asearch_ends :
      (n : List Text) (limit offset : ℕ) (s : api.State)
      → api.asearch n limit offset s ≢ err endless

>>=-ok :
    {S A B : Type 0} (m : Exec S A) (f : A → Exec S B) (s u t : S) (a : A) (b : B)
    → m s ≡ (ok a, u)
    → f a u ≡ (ok b, t)
    → (m >>= f) s ≡ (ok b, t)
>>=-ok m f s u t a b first rest = rw (first, rest) refl

segments_found :
    (d : Digests) (key : Text) (parts : List Text)
    → (length parts == 3) ≡ true
    → (a : Address) × (segments_address d key parts ≡ some a)
unfolding segments_address
segments_found d key [] h = absurd (ground arith)
segments_found d key (t ∷ []) h = absurd (ground arith)
segments_found d key (t ∷ u ∷ []) h = absurd (ground arith)
segments_found d key (t ∷ u ∷ v ∷ []) h = (_, refl)
segments_found d key (t ∷ u ∷ v ∷ w ∷ rest) h = absurd (ground arith)

address_of_shaped :
    (d : Digests) (key : Text)
    → is_key_shaped key ≡ true
    → (a : Address) × (predecessor_address d key ≡ some a)
unfolding is_key_shaped predecessor_address
address_of_shaped d key h = segments_found d key (split colon key) h

pub fixed_part : is_namespace_part (codes "fleet_memory") ≡ true
unfolding is_namespace_part
fixed_part = refl

pub type_part : (k : Kind) → is_namespace_part (payload_type k) ≡ true
unfolding is_namespace_part payload_type
type_part adr_payload = refl
type_part _ = refl

namespace_valid :
    (k : Kind) (project : Text)
    → is_namespace_part project ≡ true
    → validate_namespace (codes "fleet_memory" ∷ project ∷ payload_type k ∷ []) ≡ ok tt
unfolding validate_namespace
namespace_valid k project h = rw (fixed_part, h, type_part k) refl

module _ (api : StoreApi) (d : Digests) (laws : StoreLaws api) (works : StoreWorks api) where
  mark_existing_total :
      (successor : Text) (a : Address) (o : Option Value) (s : api.State)
      → (t : api.State) × (mark_existing api d successor a o s ≡ (ok tt, t))
  unfolding mark_existing
  mark_existing_total successor a none s = (s, refl)
  mark_existing_total successor a (some v) s =
      let (t, put) = works.aput_works a (mark successor v) s in (t, rw put refl)

  apply_supersessions_total :
      (successor : Text) (keys : List Text) (s : api.State)
      → All (λ k. is_key_shaped k ≡ true) keys
      → (t : api.State) × (apply_supersessions api d successor keys s ≡ (ok tt, t))
  unfolding apply_supersessions mark_predecessor
  apply_supersessions_total successor [] s h = (s, refl)
  apply_supersessions_total successor (key ∷ keys) s (shaped, h) =
      let (a, found) = address_of_shaped d key shaped in
      let (o, got) = works.aget_works a s in
      let (u, marked) = mark_existing_total successor a o s in
      let (t, rest) = apply_supersessions_total successor keys u h in
      (t, rw (found, got, marked) rest)

  -- The forward search ends, and so it gives a value.
  check_total :
      (k : Text) (n : List Text) (v : Value) (s : api.State)
      → (checked : Value) × (check_and_apply_forward_supersession api k n v s ≡ ok checked)
  unfolding check_and_apply_forward_supersession
  check_total k n v s =
      let (answer, found) =
        forward_supersession_total api laws k n s
          (λ offset. works.asearch_ends n forward_page offset s) in
      (mark_if_found answer v, rw found refl)

  write_record_total :
      (p : Payload) (h json : Text) (version : ℕ) (meta : Option EpisodeMeta) (s : api.State)
      → dumps (obj (model_dump p)) ≡ ok json
      → (t : api.State) × (write_record api d p h version meta s ≡ (ok tt, t))
  unfolding write_record
  write_record_total p h json version meta s dumped =
      let (checked, made) =
        check_total (natural_key p) (payload_namespace p) (stored_value p json h version meta) s in
      let (t, put) = works.aput_works (payload_address d p) checked s in
      (t, rw (dumped, made, put) refl)

  upsert_total :
      (p : Payload) (h json : Text) (meta : Option EpisodeMeta) (o : Option Value) (s : api.State)
      → dumps (obj (model_dump p)) ≡ ok json
      → All (λ k. is_key_shaped k ≡ true) p.supersedes
      → (t : api.State) × (upsert api d p h meta o s ≡ (ok tt, t))
  unfolding upsert
  upsert_total p h json meta none s dumped shaped =
      let (u, wrote) = write_record_total p h json 1 meta s dumped in
      let (t, marked) = apply_supersessions_total (natural_key p) p.supersedes u shaped in
      (t, rw (wrote, marked) refl)
  upsert_total p h json meta (some old) s dumped shaped =
      elim (Bool-cases (hash_matches old.content_hash h)) [
        | inl same ↦
            let (t, marked) = apply_supersessions_total (natural_key p) p.supersedes s shaped in
            (t, rw (same, marked) refl)
        | inr differs ↦
            let (u, wrote) =
              write_record_total p h json (existing_version old.version + 1) meta s dumped in
            let (t, marked) = apply_supersessions_total (natural_key p) p.supersedes u shaped in
            (t, rw (differs, wrote, marked) refl)
      ]

  -- In a store of the documented behaviour in which no access to a record raises, and every search
  -- returns or raises, every write of a well-formed payload of a registered class returns, where the
  -- project is a namespace part: the loop of the forward search ends, too.
  pub write_total :
      (p : Payload) (meta : Option EpisodeMeta) (s : api.State)
      → IsWellFormed p
      → is_registered (payload_type (kind_of p.body)) ≡ true
      → is_namespace_part p.project ≡ true
      → (t : api.State) × (write api d p meta s ≡ (ok tt, t))
  unfolding write write_registered
  write_total p meta s w registered valid =
      let (json, dumped) = dumps-model_dump p registered in
      let (h, hashed) = content_hash_total d p registered in
      let (o, got) = works.aget_works (payload_address d p) s in
      let (t, wrote) = upsert_total p h json meta o s dumped w.shapes in
      (t, rw (registered, namespace_valid (kind_of p.body) p.project valid, hashed, got) wrote)
