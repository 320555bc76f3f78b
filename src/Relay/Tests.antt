-- ===== src/Relay/Tests.antt =====
-- Runs of the relay's theorems on small texts, a store in memory and a tokenizer of characters.
use fleet_memory.Prelude.{
  ℕ, suc, ◌≤◌, ◌≡◌, ◌⊎◌, if◌then◌else◌, refl, List, [], ◌∷◌, Option, none, some, Text, codes,
  text_eq, All, length, arith,
}
use fleet_memory.Errors.{Error, Result, ok, err, value_error, supersession_validation}
use fleet_memory.Json.{obj, end, dumps}
use fleet_memory.Payloads.Norm.{is_namespace_part, is_identifier}
use fleet_memory.Payloads.Models.{warning, payload_type, kind_of, kind_eq}
use fleet_memory.Payloads.BackwardEdge.{run_validators}
use fleet_memory.Payloads.Registry.{is_registered, get_model_for_type, find_model, or_raise_unknown}
use fleet_memory.Payloads.Base.{
  PayloadData, Payload, natural_key, validate_present, validate_identifier, normalize_supersedes,
  collapse, check_shapes, is_key_shaped, build, construct,
}
use fleet_memory.Payloads.Base.WellFormed.{IsWellFormed}
use fleet_memory.Store.{validate_namespace}
use fleet_memory.Store.Api.{address_eq, namespace_eq}
use fleet_memory.Store.Memory.{memory_store, memory_store-laws, lookup, put, items}
use fleet_memory.Writer.Identity.{
  Digests, record_identity, content_hash, without_version, model_dump,
}
use fleet_memory.Writer.Supersession.{
  apply_supersessions, forward_supersession, first_declaring, check_and_apply_forward_supersession,
  declares, settle_page, answer_or_none, scan_pages,
}
use fleet_memory.Writer.Core.{write, stored_value, write_record, upsert, write_registered}
use fleet_memory.Relay.Schema.{MemoryEpisodeV1, Chunk}
use fleet_memory.Relay.Chunker.{windows, chunk_prose, split_into_sections}
use fleet_memory.Relay.Chunker.Sections.{flatten, flatten-split_into_sections}
use fleet_memory.Relay.Chunker.Windows.{stitch, windows-Covers}
use fleet_memory.Relay.Chunker.Numbering.{IsNumbered, chunk_prose-IsNumbered}
use fleet_memory.Relay.ChunkWriter.{write_chunks, chunk_address}
use fleet_memory.Relay.ChunkWriter.Redelivery.{write_chunks_again}
use fleet_memory.Relay.Service.Episode.{Collaborators, episode_meta, episode_payload}
use fleet_memory.Relay.Service.{ingest, route, ingest_json, map_error}
use fleet_memory.Relay.Service.Ingest.{ingest_json_written}

abbrev plain_digests : Digests
plain_digests = record { sha256_hex = λ t. t; uuid5 = λ t. t }

abbrev notes : Text
notes = codes "intro\n# One\ntext\n"

flatten-split_into_sections_example : flatten (split_into_sections notes) ≡ notes
flatten-split_into_sections_example = flatten-split_into_sections notes

abbrev ten : List ℕ
ten = 1 ∷ 2 ∷ 3 ∷ 4 ∷ 5 ∷ 6 ∷ 7 ∷ 8 ∷ 9 ∷ 10 ∷ []

windows-Covers_example :
    (ws : List (List ℕ)) × (windows (suc (length ten)) 4 1 ten 0 ≡ some ws)
    × All (λ (w : List ℕ). length w ≤ 4) ws
    × (stitch 1 ws ≡ ten)
windows-Covers_example = windows-Covers 4 1 ten (omega arith)

-- A tokenizer of one token for each character that knows one special token.
abbrev encode_or_raise : Text → Result (List ℕ)
encode_or_raise text = if text_eq text (codes "<|endoftext|>") then err value_error else ok text

abbrev chunked : Text → Result (List Chunk)
chunked body =
    chunk_prose encode_or_raise (λ t. t) 8 2 (some (codes "notes.md")) (codes "guardkit") body

chunk_prose-IsNumbered_example :
    ((chunks : List Chunk) × (chunked notes ≡ ok chunks)
      × IsNumbered (some (codes "notes.md")) (codes "guardkit") 0 chunks)
    ⊎ ((e : Error) × (chunked notes ≡ err e) × ((text : Text) × (encode_or_raise text ≡ err e)))
chunk_prose-IsNumbered_example =
    chunk_prose-IsNumbered encode_or_raise (λ t. t) 8 2 (some (codes "notes.md")) (codes "guardkit")
      (omega arith) notes

abbrev chunk : ℕ → Text → Chunk
chunk index text = record {
  index = index;
  text = text;
  source_ref = none;
  project = codes "guardkit";
}

abbrev two_chunks : List Chunk
two_chunks = chunk 0 (codes "one") ∷ chunk 1 (codes "two") ∷ []

abbrev deliver : memory_store.State → Result (Unit {0}) × memory_store.State
deliver s = write_chunks memory_store plain_digests (codes "e1") none two_chunks s

deliver_once : deliver [] ≡ (ok tt, (deliver []).1)
unfolding write_chunks validate_namespace is_namespace_part
deliver_once = refl

deliver_twice : deliver (deliver []).1 ≡ (ok tt, (deliver (deliver []).1).1)
unfolding write_chunks validate_namespace is_namespace_part
deliver_twice = refl

write_chunks_again_example :
    lookup
      (deliver (deliver []).1).1
      (chunk_address plain_digests (codes "e1") (chunk 1 (codes "two")))
    ≡ lookup (deliver []).1 (chunk_address plain_digests (codes "e1") (chunk 1 (codes "two")))
write_chunks_again_example =
    write_chunks_again memory_store memory_store-laws plain_digests (codes "e1") none two_chunks []
      (deliver []).1 (deliver (deliver []).1).1 deliver_once deliver_twice
      (chunk_address plain_digests (codes "e1") (chunk 1 (codes "two")))

abbrev disk_data : List Text → PayloadData
disk_data supersedes = record {
  project = some (codes "guardkit");
  identifier = some (codes "D1");
  domain_tags = none;
  source_ref = some (codes "d");
  version = none;
  supersedes = some supersedes;
  body = some (warning (codes "high") (codes "full"));
}

abbrev collaborators : List Text → Collaborators
collaborators supersedes = record {
  json_loads = λ body. some (obj end);
  arguments = λ kind payload_dict. ok (disk_data supersedes);
  encode = λ t. ok t;
  decode = λ t. t;
  chunk_target_tokens = 8;
  chunk_overlap_tokens = 2;
}

abbrev episode : Text → Option Text → MemoryEpisodeV1
episode content_format payload_type = record {
  episode_id = codes "e1";
  project_id = codes "guardkit";
  episode_type = codes "document";
  content_format = content_format;
  body = notes;
  payload_type = payload_type;
  source_ref = none;
  name = none;
  source = none;
  occurred_at = none;
  published_at = none;
  ingest_hints = none;
}

abbrev pub disk_episode : MemoryEpisodeV1
disk_episode = episode (codes "json") (some (codes "warning"))

-- The project of the data is no identifier.
abbrev unnamed_data : PayloadData
unnamed_data = record (disk_data []) { project = some (codes "guard kit") }

abbrev unnamed_collaborators : Collaborators
unnamed_collaborators = record (collaborators []) {
  arguments = λ kind payload_dict. ok unnamed_data;
}

-- The payload names a key of two segments as superseded.
malformed_payload :
    episode_payload (collaborators (codes "warning:D0" ∷ [])) disk_episode
    ≡ err (supersession_validation (codes "warning:D0"))
unfolding episode_payload get_model_for_type find_model or_raise_unknown construct validate_present
    validate_identifier normalize_supersedes collapse check_shapes is_key_shaped is_identifier
    text_eq
malformed_payload = refl

abbrev ingested : Result (Unit {0}) × memory_store.State
ingested = ingest (collaborators []) memory_store plain_digests disk_episode []

disk_ingested : ingested ≡ (ok tt, ingested.1)
unfolding ingest route ingest_json map_error episode_payload get_model_for_type find_model
    or_raise_unknown construct build run_validators kind_eq validate_present validate_identifier
    normalize_supersedes collapse check_shapes is_key_shaped is_identifier write write_registered
    upsert write_record apply_supersessions stored_value check_and_apply_forward_supersession
    forward_supersession scan_pages answer_or_none settle_page first_declaring declares content_hash
    without_version model_dump dumps record_identity validate_namespace is_registered payload_type
    kind_of natural_key is_namespace_part lookup put items address_eq namespace_eq text_eq
disk_ingested = refl

ingest_json_written_example :
    (p : Payload) × (episode_payload (collaborators []) disk_episode ≡ ok p)
    × IsWellFormed p
    × (write memory_store plain_digests p (some (episode_meta disk_episode)) []
        ≡ (ok tt, ingested.1))
ingest_json_written_example =
    ingest_json_written (collaborators []) memory_store plain_digests disk_episode [] ingested.1
      refl disk_ingested
