-- ===== src/Reindex/Pipeline/Raises.antt =====
-- What the classification raises ends the run.
use fleet_memory.Prelude.{◌≡◌, refl, List, [], ◌∷◌, ◌++◌, Option, some, Text, text_eq, codes}
use fleet_memory.Errors.{Error, Result, ok, err, ◌>>=◌}
use fleet_memory.Json.{Json}
use fleet_memory.Writer.Identity.{Digests}
use fleet_memory.Chronicler.Episode.{PyValues}
use fleet_memory.Reindex.Manifest.{CorpusManifest, resolve_kind, forward_slashes}
use fleet_memory.Reindex.Classify.{
  CorpusDocument, Loaded, raised, extract_frontmatter, classify_document,
}
use fleet_memory.Reindex.Walk.{Walk, nothing_walked, walk_document, walk}
use fleet_memory.Reindex.Pipeline.{Aget, Publisher, reindex_corpus}

module _ (py : PyValues) (safe_load : Text → Loaded) (manifest : CorpusManifest) where
  -- The loader raises another exception than a `YAMLError` on a document of a reindex root.
  pub record LoaderRaises (doc : CorpusDocument) (e : Error) : Type 0 where
    pub relative : Text
    pub kind : Text
    pub inside : doc.relative ≡ some relative
    pub owned : resolve_kind manifest (forward_slashes relative) ≡ some (kind, codes "reindex")
    pub raises : extract_frontmatter safe_load doc.text ≡ raised e

  classify_document-raises :
      (doc : CorpusDocument) (e : Error)
      → LoaderRaises doc e
      → classify_document py safe_load manifest doc ≡ err e
  unfolding classify_document text_eq
  classify_document-raises doc e r = rw (r.inside, r.owned, r.raises) refl

  >>=-raises {ℓ κ} :
      {A : Type ℓ} {B : Type κ} (first : Result A) (next : A → Result B)
      → ((a : A) → (e : Error) × (next a ≡ err e))
      → (e : Error) × ((first >>= next) ≡ err e)
  >>=-raises (ok a) next later = later a
  >>=-raises (err e) next later = (e, refl)

  walk-raises :
      (before after : List CorpusDocument) (doc : CorpusDocument) (e : Error) (w : Walk)
      → LoaderRaises doc e
      → (e' : Error) × (walk py safe_load manifest (before ++ (doc ∷ after)) w ≡ err e')
  unfolding walk walk_document
  walk-raises [] after doc e w r = (e, rw (classify_document-raises doc e r) refl)
  walk-raises (b ∷ before) after doc e w r =
      >>=-raises (walk_document py safe_load manifest b w) _
        (λ w'. walk-raises before after doc e w' r)

  -- If the loader raises another exception than a `YAMLError` on the front-matter of one document
  -- of a reindex root, the whole run raises, wherever the document stands, and the store is as it
  -- was: no document is published.
  pub reindex_corpus-raises :
      {S : Type 0} (loads : Text → Option Json) (d : Digests) (before after : List CorpusDocument)
      (doc : CorpusDocument) (e : Error) (aget : Option (Aget S)) (publisher : Option (Publisher S))
      (s : S)
      → LoaderRaises doc e
      → (e' : Error) × (reindex_corpus loads d py safe_load manifest
            (before ++ (doc ∷ after))
            aget
            publisher
            s
          ≡ (err e', s))
  unfolding reindex_corpus
  reindex_corpus-raises loads d before after doc e aget publisher s r =
      let (e', stopped) = walk-raises before after doc e nothing_walked r in (e', rw stopped refl)
