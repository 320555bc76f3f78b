-- ===== src/Reindex/Manifest/Tests.antt =====
-- A path under two directories of a manifest.
use fleet_memory.Prelude.{◌≡◌, refl, ◌++◌, false, [], ◌∷◌, some, Text, text_eq, codes, pos}
use fleet_memory.Errors.{ok, err, value_error}
use fleet_memory.Reindex.Manifest.{
  ManifestEntry, CorpusManifest, covers, match_directories, match_entries, resolve_kind,
  reindex_roots, starts_with, normalized, slash, see_directories, see_entries, validate_manifest,
}
use fleet_memory.Reindex.Manifest.Longest.{Resolves, resolve_kind-Resolves}
use fleet_memory.Reindex.Manifest.Ownership.{validate_manifest-owned}

abbrev entry : Text → Text → Text → ManifestEntry
entry kind owner directory = record {
  kind = kind;
  episode_type = kind;
  directories = directory ∷ [];
  owner = owner;
  content_format = codes "markdown";
}

abbrev manifest : CorpusManifest
manifest = record {
  schema_version = pos 1;
  project = codes "guardkit";
  entries =
      entry (codes "doc") (codes "harvest") (codes "docs")
      ∷ entry (codes "adr") (codes "reindex") (codes "docs/adr")
      ∷ [];
}

abbrev disjoint : CorpusManifest
disjoint = record {
  schema_version = pos 1;
  project = codes "guardkit";
  entries =
      entry (codes "doc") (codes "harvest") (codes "docs")
      ∷ entry (codes "adr") (codes "reindex") (codes "decisions/")
      ∷ [];
}

validate_nested : validate_manifest manifest ≡ err value_error
unfolding validate_manifest see_entries see_directories text_eq
validate_nested = refl

validate_disjoint : validate_manifest disjoint ≡ ok tt
unfolding validate_manifest see_entries see_directories text_eq
validate_disjoint = refl

roots_disjoint : reindex_roots disjoint ≡ codes "decisions/" ∷ []
unfolding text_eq
roots_disjoint = refl

resolve_kind-Resolves_example :
    Resolves (codes "docs/adr/1.md") manifest.entries (some (codes "adr", codes "reindex"))
unfolding resolve_kind match_entries match_directories covers text_eq
resolve_kind-Resolves_example = resolve_kind-Resolves manifest (codes "docs\\adr/1.md")

validate_manifest-owned_example :
    starts_with (normalized (codes "docs") ++ (slash ∷ [])) (normalized (codes "decisions/"))
    ≡ false
unfolding text_eq
validate_manifest-owned_example =
    validate_manifest-owned disjoint validate_disjoint (codes "docs") refl (codes "decisions/") refl
