-- ===== src/Reindex/Pipeline.antt =====
-- reindex/pipeline.py: `reindex_corpus`, from the documents that the walker yields. The publisher,
-- `aget` of the store and json.loads are parameters.
pub mod Tasks
pub mod Unique
pub mod Raises
pub mod Accounting
use fleet_memory.Prelude.{
  ℕ, suc, Bool, true, false, List, [], ◌∷◌, ◌++◌, Option, none, some, Text, text_eq, codes,
  is_empty, if◌then◌else◌, length,
}
use fleet_memory.Errors.{Result, ok, err, other}
use fleet_memory.Exec.{Exec, pure, lift, read, ◌>>=◌}
use fleet_memory.Json.{Json, obj, str}
use fleet_memory.Fence.Files.{get}
use fleet_memory.Payloads.Models.{Body, build_outcome}
use fleet_memory.Payloads.Base.{Payload, natural_key}
use fleet_memory.Store.Value.{Value}
use fleet_memory.Store.Api.{Address}
use fleet_memory.Writer.Identity.{Digests}
use fleet_memory.Writer.Core.{payload_address}
use fleet_memory.Chronicler.Episode.{PyValues}
use fleet_memory.Reindex.Manifest.{CorpusManifest}
use fleet_memory.Reindex.Classify.{CorpusDocument, Loaded, publisher_refused}
use fleet_memory.Reindex.Collisions.{Candidate, Skipped, resolve_collisions}
use fleet_memory.Reindex.Walk.{Unparsed, Walk, nothing_walked, walk}

pub record RunReport : Type 0 where
  pub walked_count : ℕ
  pub published_count : ℕ
  pub skipped_count : ℕ
  pub unparseable_count : ℕ
  pub per_kind_counts : List (Text × ℕ)
  pub published_natural_keys : List Text
  pub skipped : List Skipped
  pub unparsed : List Unparsed

-- `per_kind_counts[kind] = per_kind_counts.get(kind, 0) + 1`
unfoldable pub count_kind : Text → List (Text × ℕ) → List (Text × ℕ)
unfolding text_eq
count_kind kind [] = (kind, 1) ∷ []
count_kind kind ((k, n) ∷ counts) =
    if text_eq k kind then (k, suc n) ∷ counts else (k, n) ∷ count_kind kind counts

-- The lists that the publishing fills; what it skips goes behind the skipped of before.
pub record Publishing : Type 0 where
  pub published_natural_keys : List Text
  pub per_kind_counts : List (Text × ℕ)
  pub skipped : List Skipped

abbrev pub lessons_in : Text → Body → Body
lessons_in lessons (build_outcome status duration task_id old approach) =
    build_outcome status duration task_id (some lessons) approach
lessons_in lessons body = body

-- `payload.model_copy(update={"lessons": ...})`
unfoldable pub with_lessons : Text → Payload → Payload
with_lessons lessons p = record p { body = lessons_in lessons p.body }

-- The stored content is a payload's dump: its lessons are a text or null.
abbrev pub carried : Payload → Option Json → Payload
carried p (some (str lessons)) = if is_empty lessons then p else with_lessons lessons p
carried p _ = p

-- `aget` of the store, and the callable that publishes: it returns a reason if it skips.
abbrev pub Aget : Type 0 → Type 0
Aget S = Address → S → Result (Option Value)

abbrev pub Publisher : Type 0 → Type 0
Publisher S = Payload → Exec S (Option Text)

-- `getattr(payload, "lessons", "missing") is None`
unfoldable pub lacks_lessons : Body → Bool
lacks_lessons (build_outcome status duration task_id none approach) = true
lacks_lessons _ = false

unfoldable pub add_published : Candidate → Payload → Option Text → Publishing → Publishing
unfolding count_kind
add_published c p (some reason) done = record done {
  skipped =
      done.skipped ++ (record { path = c.relative_path; reason = publisher_refused reason } ∷ []);
}
add_published c p none done = record done {
  published_natural_keys = done.published_natural_keys ++ (natural_key p ∷ []);
  per_kind_counts = count_kind c.kind done.per_kind_counts;
}

-- What the publishing starts from.
abbrev pub to_publish : Walk → Publishing
to_publish w = record {
  published_natural_keys = [];
  per_kind_counts = [];
  skipped = w.skipped ++ (resolve_collisions w.candidates).1;
}

abbrev pub report : ℕ → Walk → Publishing → RunReport
report walked_count w done = record {
  walked_count = walked_count;
  published_count = length done.published_natural_keys;
  skipped_count = length done.skipped;
  unparseable_count = length w.unparsed;
  per_kind_counts = done.per_kind_counts;
  published_natural_keys = done.published_natural_keys;
  skipped = done.skipped;
  unparsed = w.unparsed;
}

module _ (loads : Text → Option Json) where
  abbrev pub lessons_from : Payload → Option Json → Result Payload
  lessons_from p none = ok p
  lessons_from p (some (obj fields)) = ok (carried p (get (codes "lessons") fields))
  lessons_from p (some _) = err other

  abbrev pub lessons_of_content : Payload → Option Text → Result Payload
  lessons_of_content p none = ok p
  lessons_of_content p (some []) = ok p
  lessons_of_content p (some (c ∷ s)) = lessons_from p (loads (c ∷ s))

  abbrev pub lessons_of_record : Payload → Option Value → Result Payload
  lessons_of_record p none = ok p
  lessons_of_record p (some value) = lessons_of_content p value.content

  module _ {S : Type 0} (d : Digests) where
    unfoldable pub preserve_existing_lessons : Payload → Aget S → Exec S Payload
    unfolding lacks_lessons with_lessons get
    preserve_existing_lessons p aget =
        if lacks_lessons p.body
        then (read (aget (payload_address d p)) >>= λ existing. lift (lessons_of_record p existing))
        else pure p

    abbrev pub preserved : Payload → Option (Aget S) → Exec S Payload
    preserved p none = pure p
    preserved p (some aget) = preserve_existing_lessons p aget

    abbrev pub published_by : Payload → Option (Publisher S) → Exec S (Option Text)
    published_by p none = pure none
    published_by p (some publisher) = publisher p

    -- The loop over the winners.
    unfoldable pub publish_all :
        Option (Aget S) → Option (Publisher S) → List Candidate → Publishing → Exec S Publishing
    unfolding preserve_existing_lessons add_published
    publish_all aget publisher [] done = pure done
    publish_all aget publisher (c ∷ winners) done = preserved c.payload aget >>= λ payload.
        published_by payload publisher >>= λ skip_reason.
        publish_all aget publisher winners (add_published c payload skip_reason done)

    module _ (py : PyValues) (safe_load : Text → Loaded) (manifest : CorpusManifest) where
      unfoldable pub reindex_corpus :
          List CorpusDocument → Option (Aget S) → Option (Publisher S) → Exec S RunReport
      unfolding walk resolve_collisions publish_all
      reindex_corpus docs aget publisher =
          lift (walk py safe_load manifest docs nothing_walked) >>= λ w.
          publish_all aget publisher (resolve_collisions w.candidates).0 (to_publish w) >>= λ done.
          pure (report (length docs) w done)
