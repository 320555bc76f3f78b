-- ===== src/Reindex/Publisher/Tests.antt =====
-- A published warning that the relay writes into an empty store.
use fleet_memory.Prelude.{
  if◌then◌else◌, ◌≡◌, refl, sym, ap, ap₂, ◌∙◌, [], ◌∷◌, Option, none, some, Text, text_eq,
  text_eq_iff, codes, pos, List,
}
use fleet_memory.Errors.{Result, ok, err, type_error}
use mathlib.Core.Path.{subst}
use fleet_memory.Json.{Json, Fields, str, obj, dumps}
use fleet_memory.Payloads.Norm.{is_identifier, is_identifier_char}
use fleet_memory.Payloads.Models.{Kind, Body, warning, kind_of, payload_type}
use fleet_memory.Payloads.BackwardEdge.{run_validators}
use fleet_memory.Payloads.Registry.{get_model_for_type, find_model, or_raise_unknown}
use fleet_memory.Payloads.Base.{Payload, PayloadData, natural_key, collapse}
use fleet_memory.Payloads.Base.WellFormed.{IsWellFormed, Holds}
use fleet_memory.Store.Memory.{memory_store}
use fleet_memory.Writer.Identity.{Digests, model_dump}
use fleet_memory.Writer.Core.{write}
use fleet_memory.Relay.Schema.{MemoryEpisodeV1}
use fleet_memory.Relay.Service.{ingest, map_result}
use fleet_memory.Relay.Service.Episode.{Collaborators, episode_meta}
use fleet_memory.Reindex.Audit.{derive_episode_id}
use fleet_memory.Reindex.Publisher.{
  build_envelope, envelope_of, publish, StreamMessage, json_mode_fields,
}
use fleet_memory.Reindex.Publisher.Ingested.{ReadsDump, SameEntries, entry, ingest-build_envelope}

abbrev digests : Digests
digests = record { sha256_hex = λ t. t; uuid5 = λ t. t }

abbrev disk : Payload
disk = record {
  project = codes "guardkit";
  identifier = codes "D1";
  domain_tags = [];
  source_ref = codes "d";
  version = pos 1;
  supersedes = [];
  body = warning (codes "high") (codes "full");
}

abbrev disk_body : Text
disk_body =
    codes
      "{\"domain_tags\":[],\"identifier\":\"D1\",\"message\":\"full\",\"natural_key\":\"warning:guardkit:D1\",\"project\":\"guardkit\",\"severity\":\"high\",\"source_ref\":\"d\",\"supersedes\":[],\"version\":1}"

abbrev disk_envelope : MemoryEpisodeV1
disk_envelope = envelope_of digests disk disk_body

disk_built : build_envelope digests disk ≡ ok disk_envelope
unfolding build_envelope model_dump dumps text_eq payload_type kind_of natural_key derive_episode_id
disk_built = refl

abbrev send : StreamMessage → List Text → Result (Unit {0}) × List Text
send message sent = (ok tt, message.subject ∷ sent)

disk_published :
    publish digests (some send) disk [] ≡ (ok none, codes "memory.episode.guardkit.warning" ∷ [])
unfolding publish build_envelope model_dump dumps text_eq payload_type kind_of natural_key
    derive_episode_id
disk_published = refl

disk-IsWellFormed : IsWellFormed disk
unfolding is_identifier is_identifier_char run_validators natural_key payload_type kind_of text_eq
disk-IsWellFormed = record {
  project = refl;
  identifier = refl;
  distinct = tt;
  shapes = tt;
  no_self = refl;
  validated = refl;
}

abbrev as_text : Option Json → Option Text
as_text (some (str t)) = some t
as_text _ = none

abbrev as_warning : Option Text → Option Text → Option Body
as_warning (some severity) (some message) = some (warning severity message)
as_warning _ _ = none

abbrev warning_data : Fields → PayloadData
warning_data fs = record {
  project = as_text (entry (codes "project") fs);
  identifier = as_text (entry (codes "identifier") fs);
  domain_tags = none;
  source_ref = as_text (entry (codes "source_ref") fs);
  version = none;
  supersedes = none;
  body = as_warning (as_text (entry (codes "severity") fs)) (as_text (entry (codes "message") fs));
}

abbrev warning_arguments : Kind → Json → Result PayloadData
warning_arguments kind (obj fs) = ok (warning_data fs)
warning_arguments kind _ = err type_error

-- The object that the text of `disk` is, its keys in the order of the text.
abbrev disk_fields : Fields
disk_fields = json_mode_fields (model_dump disk)

abbrev collaborators : Collaborators
collaborators = record {
  json_loads = λ body. if text_eq body disk_body then some (obj disk_fields) else none;
  arguments = warning_arguments;
  encode = λ t. ok t;
  decode = λ t. t;
  chunk_target_tokens = 8;
  chunk_overlap_tokens = 2;
}

disk_dumped : dumps (obj disk_fields) ≡ ok disk_body
unfolding dumps model_dump json_mode_fields text_eq payload_type kind_of natural_key
disk_dumped = refl

disk_loads :
    (text : Text)
    → dumps (obj disk_fields) ≡ ok text
    → collaborators.json_loads text ≡ some (obj disk_fields)
disk_loads text dumped =
    let both : ok disk_body ≡ ok text = sym disk_dumped ∙ dumped in
    let same : disk_body ≡ text = cc in
    subst (λ t. collaborators.json_loads t ≡ some (obj disk_fields)) same
      (rw ((text_eq_iff disk_body disk_body).1 refl) refl)

disk_reads :
    (fs : Fields) → SameEntries fs disk_fields → Holds (kind_of disk.body) (warning_data fs) disk
unfolding text_eq kind_of collapse model_dump json_mode_fields payload_type natural_key
disk_reads fs same = record {
  project = ap as_text (same (codes "project"));
  identifier = ap as_text (same (codes "identifier"));
  source_ref = ap as_text (same (codes "source_ref"));
  body =
      ap₂ (λ severity message. as_warning (as_text severity) (as_text message))
        (same (codes "severity")) (same (codes "message"));
  kind = refl;
  domain_tags = refl;
  version = refl;
  supersedes = refl;
}

disk_read : ReadsDump collaborators disk
disk_read = record {
  loads = λ text dumped. (disk_fields, disk_loads text dumped, λ name. refl);
  reads = λ fs same. (warning_data fs, refl, disk_reads fs same);
}

disk_known : get_model_for_type (payload_type (kind_of disk.body)) ≡ ok (kind_of disk.body)
unfolding get_model_for_type find_model or_raise_unknown payload_type kind_of text_eq
disk_known = refl

ingest-build_envelope_example : ingest collaborators memory_store digests disk_envelope [] ≡ (
  map_result (write memory_store digests disk (some (episode_meta disk_envelope)) []).0,
  (write memory_store digests disk (some (episode_meta disk_envelope)) []).1,
)
ingest-build_envelope_example =
    ingest-build_envelope collaborators memory_store digests disk disk_envelope [] disk_known
      disk-IsWellFormed disk_built disk_read
