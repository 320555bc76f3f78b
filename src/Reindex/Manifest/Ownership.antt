-- ===== src/Reindex/Manifest/Ownership.antt =====
-- What a manifest that passes the checks promises to the two pipelines.
use fleet_memory.Prelude.{
  ||-eq-false, ◌≡◌, refl, sym, ap, ap₂, ◌∙◌, ◌⊎◌, inl, inr, Bool, true, false, not, List, [], ◌∷◌,
  ◌++◌, Text, text_eq, text_eq→eq, text_mem, codes, map, any, Bool-cases, append-nil, append_assoc,
  not-eq-true, arith,
}
use mathlib.Core.List.{map-append}
use fleet_memory.Errors.{ok, >>=-eq-ok, check, check-eq-ok, value_error}
use fleet_memory.Reindex.Manifest.{
  ManifestEntry, CorpusManifest, slash, starts_with, is_known_owner, normalized, Seen,
  add_directory, see_directories, see_entries, is_nested, validate_manifest, roots_of,
  reindex_roots,
}

Owner-cases :
    (owner : Text)
    → is_known_owner owner ≡ true
    → (owner ≡ codes "harvest") ⊎ (owner ≡ codes "reindex")
Owner-cases owner h = elim (Bool-cases (text_eq (codes "harvest") owner)) [
  | inl e ↦ inl (sym (text_eq→eq (codes "harvest") owner e))
  | inr n ↦ elim (Bool-cases (text_eq (codes "reindex") owner)) [
    | inl e ↦ inr (sym (text_eq→eq (codes "reindex") owner e))
    | inr m ↦ absurd (ground (arith, n, m, h))
  ]
]

-- What the directories of an entry add to each side.
record Adds (s t : Seen) (harvest reindex : List Text) : Type 0 where
  harvest_grown : t.harvest_dirs ≡ s.harvest_dirs ++ map normalized harvest
  reindex_grown : t.reindex_dirs ≡ s.reindex_dirs ++ map normalized reindex

Adds-nil : (s t : Seen) → s ≡ t → Adds s t [] []
Adds-nil s t e = record {
  harvest_grown = sym (append-nil s.harvest_dirs ∙ ap (λ (x : Seen). x.harvest_dirs) e);
  reindex_grown = sym (append-nil s.reindex_dirs ∙ ap (λ (x : Seen). x.reindex_dirs) e);
}

append-grown :
    (s t u a b : List Text)
    → t ≡ s ++ map normalized a
    → u ≡ t ++ map normalized b
    → u ≡ s ++ map normalized (a ++ b)
append-grown s t u a b h k =
    k
    ∙ ap (λ x. x ++ map normalized b) h
    ∙ append_assoc s (map normalized a) (map normalized b)
    ∙ ap (λ x. s ++ x) (sym (map-append normalized a b))

Adds-append :
    (s t u : Seen) (a b c d : List Text) → Adds s t a b → Adds t u c d → Adds s u (a ++ c) (b ++ d)
Adds-append s t u a b c d first later = record {
  harvest_grown =
      append-grown s.harvest_dirs t.harvest_dirs u.harvest_dirs a c first.harvest_grown
        later.harvest_grown;
  reindex_grown =
      append-grown s.reindex_dirs t.reindex_dirs u.reindex_dirs b d first.reindex_grown
        later.reindex_grown;
}

ok-injective : (s t : Seen) → ok s ≡ ok t → s ≡ t
ok-injective s t h = cc

see_directories-harvest :
    (ds : List Text) (s t : Seen) → see_directories (codes "harvest") ds s ≡ ok t → Adds s t ds []
unfolding see_directories text_eq
see_directories-harvest [] s t h = Adds-nil s t (ok-injective s t h)
see_directories-harvest (d ∷ ds) s t h =
    let (_, _, rest) =
      >>=-eq-ok (check (not (text_mem (normalized d) s.seen_dirs)) value_error) _ h in
    Adds-append s (add_directory (codes "harvest") (normalized d) s) t (d ∷ []) [] ds []
      (record { harvest_grown = refl; reindex_grown = sym (append-nil s.reindex_dirs) })
      (see_directories-harvest ds (add_directory (codes "harvest") (normalized d) s) t rest)

see_directories-reindex :
    (ds : List Text) (s t : Seen) → see_directories (codes "reindex") ds s ≡ ok t → Adds s t [] ds
unfolding see_directories text_eq
see_directories-reindex [] s t h = Adds-nil s t (ok-injective s t h)
see_directories-reindex (d ∷ ds) s t h =
    let (_, _, rest) =
      >>=-eq-ok (check (not (text_mem (normalized d) s.seen_dirs)) value_error) _ h in
    Adds-append s (add_directory (codes "reindex") (normalized d) s) t [] (d ∷ []) [] ds
      (record { harvest_grown = sym (append-nil s.harvest_dirs); reindex_grown = refl })
      (see_directories-reindex ds (add_directory (codes "reindex") (normalized d) s) t rest)

roots_of-harvest :
    (e : ManifestEntry) (es : List ManifestEntry)
    → e.owner ≡ codes "harvest"
    → (roots_of (codes "harvest") (e ∷ es) ≡ e.directories ++ roots_of (codes "harvest") es)
      × (roots_of (codes "reindex") (e ∷ es) ≡ roots_of (codes "reindex") es)
unfolding text_eq
roots_of-harvest e es h = rw h (refl, refl)

roots_of-reindex :
    (e : ManifestEntry) (es : List ManifestEntry)
    → e.owner ≡ codes "reindex"
    → (roots_of (codes "harvest") (e ∷ es) ≡ roots_of (codes "harvest") es)
      × (roots_of (codes "reindex") (e ∷ es) ≡ e.directories ++ roots_of (codes "reindex") es)
unfolding text_eq
roots_of-reindex e es h = rw h (refl, refl)

see_entries-Adds :
    (es : List ManifestEntry) (s t : Seen)
    → see_entries es s ≡ ok t
    → Adds s t (roots_of (codes "harvest") es) (roots_of (codes "reindex") es)
unfolding see_entries
see_entries-Adds [] s t h = Adds-nil s t (ok-injective s t h)
see_entries-Adds (e ∷ es) s t h =
    let (_, known, seen) = >>=-eq-ok (check (is_known_owner e.owner) value_error) _ h in
    let (u, first, later) = >>=-eq-ok (see_directories e.owner e.directories s) _ seen in
    let rest = see_entries-Adds es u t later in
    elim (Owner-cases e.owner (check-eq-ok (is_known_owner e.owner) value_error known)) [
      | inl o ↦ rw (roots_of-harvest e es o).0 (
          rw (roots_of-harvest e es o).1 (
            Adds-append s u t e.directories [] (roots_of (codes "harvest") es)
              (roots_of (codes "reindex") es)
              (see_directories-harvest e.directories s u
                (sym (ap (λ w. see_directories w e.directories s) o) ∙ first))
              rest))
      | inr o ↦ rw (roots_of-reindex e es o).0 (
          rw (roots_of-reindex e es o).1 (
            Adds-append s u t [] e.directories (roots_of (codes "harvest") es)
              (roots_of (codes "reindex") es)
              (see_directories-reindex e.directories s u
                (sym (ap (λ w. see_directories w e.directories s) o) ∙ first))
              rest))
    ]

-- No element of a list has a property that none has.
any-false-at :
    (p : Text → Bool) (f : Text → Text) (ts : List Text) (t : Text)
    → any p (map f ts) ≡ false
    → text_mem t ts ≡ true
    → p (f t) ≡ false
any-false-at p f [] t none_has h = absurd cc
any-false-at p f (u ∷ ts) t none_has h =
    let (off, rest) = ||-eq-false (p (f u)) (any p (map f ts)) none_has in
    elim (Bool-cases (text_eq u t)) [
      | inl e ↦ ap (λ x. p (f x)) (sym (text_eq→eq u t e)) ∙ off
      | inr n ↦ any-false-at p f ts t rest (rw n at h)
    ]

-- In a manifest that passes the checks, no directory of an entry with the owner `reindex` lies
-- below a directory of an entry with the owner `harvest`, both with forward slashes and without
-- trailing slashes.
pub validate_manifest-owned :
    (manifest : CorpusManifest)
    → validate_manifest manifest ≡ ok tt
    → (harvest_dir : Text)
    → text_mem harvest_dir (roots_of (codes "harvest") manifest.entries) ≡ true
    → (reindex_dir : Text) → text_mem reindex_dir (reindex_roots manifest) ≡ true
    → starts_with (normalized harvest_dir ++ (slash ∷ [])) (normalized reindex_dir) ≡ false
unfolding validate_manifest
validate_manifest-owned manifest h harvest_dir is_harvest reindex_dir is_reindex =
    let none_seen : Seen = record { seen_dirs = []; harvest_dirs = []; reindex_dirs = [] } in
    let (s, seen, last) = >>=-eq-ok (see_entries manifest.entries none_seen) _ h in
    let a = see_entries-Adds manifest.entries none_seen s seen in
    let checked =
      not-eq-true _
        (check-eq-ok (not (any (is_nested s.harvest_dirs) s.reindex_dirs)) value_error last) in
    let roots = map normalized (roots_of (codes "harvest") manifest.entries) in
    let apart =
      any-false-at (is_nested roots) normalized (reindex_roots manifest) reindex_dir
        (ap₂ (λ x y. any (is_nested x) y) (sym a.harvest_grown) (sym a.reindex_grown) ∙ checked)
        is_reindex in
    any-false-at (λ d. starts_with (d ++ (slash ∷ [])) (normalized reindex_dir)) normalized
      (roots_of (codes "harvest") manifest.entries) harvest_dir apart is_harvest
