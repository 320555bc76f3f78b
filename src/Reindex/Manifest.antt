-- ===== src/Reindex/Manifest.antt =====
-- reindex/manifest.py: the manifest of a corpus, the entry that claims a path, and the checks that
-- the manifest passes. `ManifestValidationError` is a `ValueError`.
pub mod Directories
pub mod Longest
pub mod Ownership
mod Tests
use fleet_memory.Prelude.{
  ℕ, Bool, ◌&&◌, ◌||◌, not, List, [], ◌∷◌, ◌++◌, Option, none, some, Text, text_eq, text_mem, codes,
  ltb, ◌==◌, if◌then◌else◌, length, map, any, ℤ,
}
use mathlib.Core.List.{reverse}
use fleet_memory.Errors.{Result, ok, ◌>>=◌, ◌>>◌, check, value_error}
use fleet_memory.Payloads.BackwardEdge.{is_some, strip_prefix}

pub record ManifestEntry : Type 0 where
  pub kind : Text
  pub episode_type : Text
  pub directories : List Text
  pub owner : Text
  pub content_format : Text

pub record CorpusManifest : Type 0 where
  pub schema_version : ℤ
  pub project : Text
  pub entries : List ManifestEntry

-- The directories of the entries with an owner.
abbrev pub roots_of : Text → List ManifestEntry → List Text
roots_of owner [] = []
roots_of owner (entry ∷ rest) =
    if text_eq entry.owner owner
    then entry.directories ++ roots_of owner rest
    else roots_of owner rest

abbrev pub reindex_roots : CorpusManifest → List Text
reindex_roots manifest = roots_of (codes "reindex") manifest.entries

abbrev pub slash : ℕ
slash = b'/'

-- `directory.replace("\\", "/")`
abbrev pub forward_slashes : Text → Text
forward_slashes t = map (λ c. if c == b'\\' then slash else c) t

-- `text.startswith(prefix)`
abbrev pub starts_with : Text → Text → Bool
starts_with prefix text = is_some (strip_prefix prefix text)

unfoldable pub covers : Text → Text → Bool
covers path_str directory =
    text_eq path_str directory || starts_with (directory ++ (slash ∷ [])) path_str

-- `longest_match` and `longest_length`
abbrev pub Match : Type 0
Match = Option (Text × Text) × ℕ

unfoldable pub match_directories : Text → ManifestEntry → List Text → Match → Match
match_directories path_str entry [] best = best
match_directories path_str entry (directory ∷ rest) best =
    let dir_normalized = forward_slashes directory in
    match_directories path_str entry rest (
      if covers path_str dir_normalized && ltb best.1 (length dir_normalized)
      then (some (entry.kind, entry.owner), length dir_normalized)
      else best)

unfoldable pub match_entries : Text → List ManifestEntry → Match → Match
unfolding match_directories
match_entries path_str [] best = best
match_entries path_str (entry ∷ rest) best =
    match_entries path_str rest (match_directories path_str entry entry.directories best)

-- `resolve_kind`, from the text that `Path` gives of the path.
unfoldable pub resolve_kind : CorpusManifest → Text → Option (Text × Text)
unfolding match_entries
resolve_kind manifest path = (match_entries (forward_slashes path) manifest.entries (none, 0)).0

abbrev pub is_known_owner : Text → Bool
is_known_owner owner = text_mem owner (codes "harvest" ∷ codes "reindex" ∷ [])

-- `text.rstrip("/")`
abbrev pub strip_slashes : Text → Text
strip_slashes [] = []
strip_slashes (c ∷ s) = if c == slash then strip_slashes s else c ∷ s

abbrev pub normalized : Text → Text
normalized directory = reverse (strip_slashes (reverse (forward_slashes directory)))

-- `seen_dirs`, `harvest_dirs` and `reindex_dirs`
pub record Seen : Type 0 where
  pub seen_dirs : List Text
  pub harvest_dirs : List Text
  pub reindex_dirs : List Text

abbrev pub add_directory : Text → Text → Seen → Seen
add_directory owner directory s =
    if text_eq owner (codes "harvest")
    then record {
      seen_dirs = directory ∷ s.seen_dirs;
      harvest_dirs = s.harvest_dirs ++ (directory ∷ []);
      reindex_dirs = s.reindex_dirs;
    }
    else record {
      seen_dirs = directory ∷ s.seen_dirs;
      harvest_dirs = s.harvest_dirs;
      reindex_dirs = s.reindex_dirs ++ (directory ∷ []);
    }

unfoldable pub see_directories : Text → List Text → Seen → Result Seen
see_directories owner [] s = ok s
see_directories owner (directory ∷ rest) s = do
  check (not (text_mem (normalized directory) s.seen_dirs)) value_error
  see_directories owner rest (add_directory owner (normalized directory) s)

unfoldable pub see_entries : List ManifestEntry → Seen → Result Seen
unfolding see_directories
see_entries [] s = ok s
see_entries (entry ∷ rest) s = do
  check (is_known_owner entry.owner) value_error
  s' ← see_directories entry.owner entry.directories s
  see_entries rest s'

-- A reindex root stands inside a harvest directory.
abbrev pub is_nested : List Text → Text → Bool
is_nested harvest_dirs reindex_dir =
    any (λ harvest_dir. starts_with (harvest_dir ++ (slash ∷ [])) reindex_dir) harvest_dirs

unfoldable pub validate_manifest : CorpusManifest → Result (Unit {0})
unfolding see_entries
validate_manifest manifest = do
  s ← see_entries manifest.entries (record { seen_dirs = []; harvest_dirs = []; reindex_dirs = [] })
  check (not (any (is_nested s.harvest_dirs) s.reindex_dirs)) value_error
