-- ===== src/Reindex/Collisions.antt =====
-- reindex/pipeline.py, `_resolve_collisions`: what becomes of several documents with one identifier.
pub mod Winners
use fleet_memory.Prelude.{
  ℕ, ◌+◌, Bool, true, false, ◌&&◌, ◌||◌, not, List, [], ◌∷◌, ◌++◌, Option, none, some, Text,
  text_eq, codes, ltb, ◌==◌, if◌then◌else◌, length, map, filter, any, is_empty, split,
}
use fleet_memory.Json.{text_leb}
use fleet_memory.Payloads.Base.{Payload}
use fleet_memory.Reindex.Manifest.{slash}
use fleet_memory.Reindex.Classify.{SkipReason, id_collision, shadowed_by}

-- `_Candidate`
pub record Candidate : Type 0 where
  pub relative_path : Text
  pub title : Option Text
  pub payload : Payload
  pub kind : Text

-- An entry of `skipped`.
pub record Skipped : Type 0 where
  pub path : Text
  pub reason : SkipReason

abbrev pub Group : Type 0
Group = Text × List Candidate

-- `by_identifier.setdefault(identifier, []).append(candidate)`
unfoldable pub add_to_group : Candidate → List Group → List Group
add_to_group c [] = (c.payload.identifier, c ∷ []) ∷ []
add_to_group c ((identifier, group) ∷ groups) =
    if text_eq identifier c.payload.identifier
    then (identifier, group ++ (c ∷ [])) ∷ groups
    else (identifier, group) ∷ add_to_group c groups

unfoldable pub by_identifier : List Candidate → List Group → List Group
unfolding add_to_group
by_identifier [] groups = groups
by_identifier (c ∷ candidates) groups = by_identifier candidates (add_to_group c groups)

abbrev title_eq : Option Text → Option Text → Bool
title_eq none none = true
title_eq none (some t) = false
title_eq (some s) none = false
title_eq (some s) (some t) = text_eq s t

-- `len(titles) > 1`
unfoldable pub titles_differ : Candidate → List Candidate → Bool
unfolding text_eq
titles_differ first group = any (λ c. not (title_eq first.title c.title)) group

unfoldable pub insert_path : Text → List Text → List Text
unfolding text_leb
insert_path path [] = path ∷ []
insert_path path (p ∷ paths) =
    if text_leb path p then path ∷ p ∷ paths else p ∷ insert_path path paths

unfoldable pub sorted_paths : List Candidate → List Text
unfolding insert_path
sorted_paths [] = []
sorted_paths (c ∷ group) = insert_path c.relative_path (sorted_paths group)

abbrev is_part : Text → Bool
is_part part = not (is_empty part) && not (text_eq part (codes "."))

abbrev root_part : Text → ℕ
root_part [] = 0
root_part (c ∷ s) = if c == slash then 1 else 0

-- `len(Path(path).parts)`
unfoldable pub depth : Text → ℕ
unfolding text_eq
depth path = root_part path + length (filter is_part (split slash path))

-- The key of `d` is above the key of `c`.
unfoldable pub is_deeper : Candidate → Candidate → Bool
unfolding depth text_leb
is_deeper d c =
    ltb (depth c.relative_path) (depth d.relative_path)
    || (depth c.relative_path == depth d.relative_path
        && not (text_leb d.relative_path c.relative_path))

-- `max(group, key=...)`, the first of those with the greatest key, and the rest of the group.
unfoldable pub deepest : Candidate → List Candidate → Candidate × List Candidate
unfolding is_deeper
deepest c [] = (c, [])
deepest c (d ∷ group) =
    let (winner, others) = deepest d group in
    if is_deeper winner c then (winner, c ∷ others) else (c, d ∷ group)

abbrev pub skip_for : SkipReason → Candidate → Skipped
skip_for reason c = record { path = c.relative_path; reason = reason }

-- What the loop adds to `winners` and to `skipped` for one group.
abbrev pub Resolved : Type 0
Resolved = List Candidate × List Skipped

abbrev same_task : Candidate × List Candidate → Resolved
same_task (winner, others) = (winner ∷ [], map (skip_for (shadowed_by winner.relative_path)) others)

unfoldable pub resolve_group : List Candidate → Resolved
unfolding titles_differ sorted_paths deepest
resolve_group [] = ([], [])
resolve_group (c ∷ []) = (c ∷ [], [])
resolve_group (c ∷ d ∷ group) =
    if titles_differ c (d ∷ group)
    then ([], map (skip_for (id_collision (sorted_paths (c ∷ d ∷ group)))) (c ∷ d ∷ group))
    else same_task (deepest c (d ∷ group))

unfoldable pub resolve_groups : List Group → Resolved
unfolding resolve_group
resolve_groups [] = ([], [])
resolve_groups ((identifier, group) ∷ groups) =
    let first = resolve_group group in
    let rest = resolve_groups groups in (first.0 ++ rest.0, first.1 ++ rest.1)

-- `_resolve_collisions`: the winners, and what it appends to `skipped`.
unfoldable pub resolve_collisions : List Candidate → Resolved
unfolding resolve_groups by_identifier
resolve_collisions candidates = resolve_groups (by_identifier candidates [])
