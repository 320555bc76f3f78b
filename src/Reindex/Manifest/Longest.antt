-- ===== src/Reindex/Manifest/Longest.antt =====
-- The entry that claims a path is the one with the longest directory.
use fleet_memory.Prelude.{
  ℕ, ◌≤◌, ◌≡◌, refl, sym, ap, ◌∙◌, ◌⊎◌, inl, inr, true, List, [], ◌∷◌, Option, none, some, Text,
  text_mem, length, All, arith,
}
use mathlib.Core.Path.{subst}
use fleet_memory.Reindex.Manifest.{
  ManifestEntry, CorpusManifest, forward_slashes, Match, match_directories, match_entries,
  resolve_kind,
}
use fleet_memory.Reindex.Manifest.Directories.{
  StandsAbove, Bounds, Bounds-weaken, Chosen, match_directories_lem,
}

abbrev pub BoundsAll : Text → List ManifestEntry → ℕ → Type 0
BoundsAll path entries n = All (λ (e : ManifestEntry). Bounds path e.directories n) entries

-- An entry of the list has this kind and owner, and a directory of this length that stands above the path.
pub data Claims (path : Text) (kind owner : Text) (n : ℕ) : List ManifestEntry → Type 0 where
  here :
      {e : ManifestEntry} {rest : List ManifestEntry} (d : Text)
      → text_mem d e.directories ≡ true
      → StandsAbove (forward_slashes d) path
      → length (forward_slashes d) ≡ n
      → e.kind ≡ kind
      → e.owner ≡ owner
      → Claims path kind owner n (e ∷ rest)
  there :
      {e : ManifestEntry} {rest : List ManifestEntry}
      → Claims path kind owner n rest
      → Claims path kind owner n (e ∷ rest)

-- The loop over the entries, from a best match that holds nothing yet or something found before.
pub record Longest (path : Text) (entries : List ManifestEntry) (best r : Match) : Type 0 where
  pub grown : best.1 ≤ r.1
  pub bounds : BoundsAll path entries r.1
  pub chosen :
      (r ≡ best)
      ⊎ ((kind : Text) × (owner : Text) × (r.0 ≡ some (kind, owner))
          × Claims path kind owner r.1 entries)

Chosen→Claims :
    (path : Text) (e : ManifestEntry) (es : List ManifestEntry) (r : Match)
    → Chosen path e e.directories r
    → Claims path e.kind e.owner r.1 (e ∷ es)
Chosen→Claims path e es r c = here c.directory c.listed c.covering c.counted refl refl

match_entries-nil : (path : Text) (best : Match) → match_entries path [] best ≡ best
unfolding match_entries
match_entries-nil path best = refl

match_entries-cons :
    (path : Text) (e : ManifestEntry) (es : List ManifestEntry) (best : Match)
    → match_entries path (e ∷ es) best
      ≡ match_entries path es (match_directories path e e.directories best)
unfolding match_entries
match_entries-cons path e es best = refl

match_entries_lem :
    (path : Text) (es : List ManifestEntry) (best : Match)
    → Longest path es best (match_entries path es best)
match_entries_lem path [] best =
    rw (match_entries-nil path best)
      (record { grown = omega arith; bounds = tt; chosen = inl refl })
match_entries_lem path (e ∷ es) best =
    let best' = match_directories path e e.directories best in
    let r = match_entries path es best' in
    let i = match_directories_lem path e e.directories best in
    let j = match_entries_lem path es best' in
    rw (match_entries-cons path e es best) (record {
      grown = omega (arith, i.grown, j.grown);
      bounds = (Bounds-weaken path e.directories best'.1 r.1 j.grown i.bounds, j.bounds);
      chosen = elim j.chosen [
        | inr (kind, owner, taken, claims) ↦ inr (kind, owner, taken, there claims)
        | inl same ↦ elim i.chosen [
          | inl same' ↦ inl (same ∙ same')
          | inr c ↦ inr (
            e.kind,
            e.owner,
            ap (λ (q : Match). q.0) same ∙ c.taken,
            subst (λ (q : Match). Claims path e.kind e.owner q.1 (e ∷ es)) (sym same)
                (Chosen→Claims path e es best' c),
          )
        ]
      ];
    })

-- What the manifest says of a path.
pub data Resolves (path : Text) (entries : List ManifestEntry) : Option (Text × Text) → Type 0 where
  claimed :
      (kind owner : Text) (n : ℕ)
      → Claims path kind owner n entries
      → BoundsAll path entries n
      → Resolves path entries (some (kind, owner))
  unclaimed : BoundsAll path entries 0 → Resolves path entries none

Longest→Resolves :
    (path : Text) (entries : List ManifestEntry) (r : Match)
    → Longest path entries (none, 0) r
    → Resolves path entries r.0
Longest→Resolves path entries r l = elim l.chosen [
  | inl same ↦ rw same (unclaimed (subst (λ (q : Match). BoundsAll path entries q.1) same l.bounds))
  | inr (kind, owner, taken, claims) ↦ rw taken (claimed kind owner r.1 claims l.bounds)
]

-- `resolve_kind` answers with the kind and the owner of an entry that lists a directory which is
-- the path as it is written, backslashes read as slashes, or is followed in the path by a slash; and
-- no directory of the manifest of which this holds is longer. It answers nothing only if every
-- directory of which this holds is empty. A directory that is listed with a slash at its end is thus
-- above those paths only that have two slashes there.
pub resolve_kind-Resolves :
    (manifest : CorpusManifest) (path : Text)
    → Resolves (forward_slashes path) manifest.entries (resolve_kind manifest path)
unfolding resolve_kind
resolve_kind-Resolves manifest path =
    let p = forward_slashes path in
    Longest→Resolves p manifest.entries (match_entries p manifest.entries (none, 0))
      (match_entries_lem p manifest.entries (none, 0))
