-- ===== src/Reindex/Manifest/Directories.antt =====
-- The loop of `resolve_kind` over the directories of one entry.
use fleet_memory.Prelude.{
  ℕ, ◌≤◌, ◌≡◌, refl, sym, ap, ap₂, ◌∙◌, ◌⊎◌, ◌++◌, ◌==◌, ==_iff, Option-cases, append_assoc,
  text_eq, text_eq→eq, inl, inr, Bool, true, false, ◌&&◌, &&-eq-true, List, [], ◌∷◌, some, Text,
  text_eq_refl, text_mem, ltb, ltb→lt, length, All, Bool-cases, arith,
}
use fleet_memory.Payloads.BackwardEdge.{strip_prefix}
use fleet_memory.Reindex.Manifest.{
  ManifestEntry, slash, forward_slashes, covers, Match, match_directories,
}

-- The path is the directory as it is written, or goes on behind it with a slash.
abbrev pub StandsAbove : Text → Text → Type 0
StandsAbove directory path =
    (path ≡ directory) ⊎ ((rest : Text) × (path ≡ directory ++ (slash ∷ rest)))

strip_prefix-eq-some :
    (prefix path rest : Text) → strip_prefix prefix path ≡ some rest → path ≡ prefix ++ rest
strip_prefix-eq-some [] path rest h = cc
strip_prefix-eq-some (p ∷ prefix) [] rest h = cc
strip_prefix-eq-some (p ∷ prefix) (c ∷ path) rest h = elim (Bool-cases (p == c)) [
  | inl same ↦
      ap₂ (λ x xs. x ∷ xs) (sym ((==_iff p c).0 same))
        (strip_prefix-eq-some prefix path rest (rw same at h))
  | inr other ↦ absurd (ground (arith, (rw other at h)))
]

strip_prefix-append : (prefix rest : Text) → strip_prefix prefix (prefix ++ rest) ≡ some rest
strip_prefix-append [] rest = refl
strip_prefix-append (p ∷ prefix) rest = rw ((==_iff p p).1 refl) (strip_prefix-append prefix rest)

covers_sound : (path directory : Text) → covers path directory ≡ true → StandsAbove directory path
unfolding covers
covers_sound path directory h = elim (Bool-cases (text_eq path directory)) [
  | inl same ↦ inl (text_eq→eq path directory same)
  | inr other ↦ elim (Option-cases (strip_prefix (directory ++ (slash ∷ [])) path)) [
    | inl none_left ↦ absurd (ground (arith, (rw (other, none_left) at h)))
    | inr (rest, found) ↦ inr (
      rest,
      strip_prefix-eq-some (directory ++ (slash ∷ [])) path rest found
          ∙ append_assoc directory (slash ∷ []) rest,
    )
  ]
]

covers_complete :
    (path directory : Text) → StandsAbove directory path → covers path directory ≡ true
unfolding covers
covers_complete path directory (inl same) = rw (same, text_eq_refl directory) refl
covers_complete path directory (inr (rest, below)) =
    let found : strip_prefix (directory ++ (slash ∷ [])) path ≡ some rest =
      rw (below, sym (append_assoc directory (slash ∷ []) rest))
        (strip_prefix-append (directory ++ (slash ∷ [])) rest) in
    rw found (ground arith)

-- No directory of the list that stands above the path is longer.
abbrev pub Bounds : Text → List Text → ℕ → Type 0
Bounds path directories n =
    All (λ d. StandsAbove (forward_slashes d) path → length (forward_slashes d) ≤ n) directories

-- The directory that a loop over directories ends with, if it is not the one it began with.
pub record Chosen (path : Text) (e : ManifestEntry) (directories : List Text) (r : Match)
    : Type 0 where
  pub directory : Text
  pub listed : text_mem directory directories ≡ true
  pub covering : StandsAbove (forward_slashes directory) path
  pub counted : length (forward_slashes directory) ≡ r.1
  pub taken : r.0 ≡ some (e.kind, e.owner)

pub Bounds-weaken :
    (path : Text) (ds : List Text) (m n : ℕ) → m ≤ n → Bounds path ds m → Bounds path ds n
Bounds-weaken path [] m n h b = tt
Bounds-weaken path (d ∷ ds) m n h (b, bs) =
    (λ c. omega (arith, b c, h), Bounds-weaken path ds m n h bs)

kept-le : (b : Bool) (m n : ℕ) → (b && ltb m n) ≡ false → b ≡ true → n ≤ m
kept-le b m n kept c = ground arith

match_directories-longer :
    (path : Text) (e : ManifestEntry) (d : Text) (ds : List Text) (best : Match)
    → (covers path (forward_slashes d) && ltb best.1 (length (forward_slashes d))) ≡ true
    → match_directories path e (d ∷ ds) best
      ≡ match_directories path e ds (some (e.kind, e.owner), length (forward_slashes d))
unfolding match_directories
match_directories-longer path e d ds best h = rw h refl

match_directories-kept :
    (path : Text) (e : ManifestEntry) (d : Text) (ds : List Text) (best : Match)
    → (covers path (forward_slashes d) && ltb best.1 (length (forward_slashes d))) ≡ false
    → match_directories path e (d ∷ ds) best ≡ match_directories path e ds best
unfolding match_directories
match_directories-kept path e d ds best h = rw h refl

match_directories-nil :
    (path : Text) (e : ManifestEntry) (best : Match) → match_directories path e [] best ≡ best
unfolding match_directories
match_directories-nil path e best = refl

Chosen-head :
    (path : Text) (e : ManifestEntry) (d : Text) (ds : List Text) (r : Match)
    → covers path (forward_slashes d) ≡ true
    → r ≡ (some (e.kind, e.owner), length (forward_slashes d))
    → Chosen path e (d ∷ ds) r
Chosen-head path e d ds r c same = record {
  directory = d;
  listed = rw (text_eq_refl d) refl;
  covering = covers_sound path (forward_slashes d) c;
  counted = sym (ap (λ (q : Match). q.1) same);
  taken = ap (λ (q : Match). q.0) same;
}

text_mem-weaken : (t d : Text) (ds : List Text) → text_mem t ds ≡ true → text_mem t (d ∷ ds) ≡ true
text_mem-weaken t d ds h = rw h (ground arith)

Chosen-tail :
    (path : Text) (e : ManifestEntry) (d : Text) (ds : List Text) (r : Match)
    → Chosen path e ds r
    → Chosen path e (d ∷ ds) r
Chosen-tail path e d ds r c = record {
  directory = c.directory;
  listed = text_mem-weaken c.directory d ds c.listed;
  covering = c.covering;
  counted = c.counted;
  taken = c.taken;
}

-- What a loop over directories makes of the best match so far.
pub record Improves (path : Text) (e : ManifestEntry) (directories : List Text) (best r : Match)
    : Type 0 where
  pub grown : best.1 ≤ r.1
  pub bounds : Bounds path directories r.1
  pub chosen : (r ≡ best) ⊎ Chosen path e directories r

pub match_directories_lem :
    (path : Text) (e : ManifestEntry) (ds : List Text) (best : Match)
    → Improves path e ds best (match_directories path e ds best)
match_directories_lem path e [] best =
    rw (match_directories-nil path e best)
      (record { grown = omega arith; bounds = tt; chosen = inl refl })
match_directories_lem path e (d ∷ ds) best =
    let size = length (forward_slashes d) in
    let c = covers path (forward_slashes d) in
    elim (Bool-cases (c && ltb best.1 size)) [
      | inl longer ↦
          let (covering, more) = &&-eq-true c (ltb best.1 size) longer in
          let r = match_directories path e ds (some (e.kind, e.owner), size) in
          let i = match_directories_lem path e ds (some (e.kind, e.owner), size) in
          rw (match_directories-longer path e d ds best longer) (record {
            grown = omega (arith, i.grown, ltb→lt best.1 size more);
            bounds = ((λ h. i.grown), i.bounds);
            chosen = elim i.chosen [
              | inl same ↦ inr (Chosen-head path e d ds r covering same)
              | inr found ↦ inr (Chosen-tail path e d ds r found)
            ];
          })
      | inr kept ↦
          let r = match_directories path e ds best in
          let i = match_directories_lem path e ds best in
          rw (match_directories-kept path e d ds best kept) (record {
            grown = i.grown;
            bounds = (
              (λ h. omega (
                arith,
                i.grown,
                kept-le c best.1 size kept (covers_complete path (forward_slashes d) h),
              )),
              i.bounds,
            );
            chosen = elim i.chosen [
              | inl same ↦ inl same
              | inr found ↦ inr (Chosen-tail path e d ds r found)
            ];
          })
    ]
