-- ===== src/Fence/Builds/Scan.antt =====
-- The receipts are the build directories in the order of their stamps, and are counted as such.
use fleet_memory.Prelude.{
  ℕ, ◌+◌, ◌≤◌, ◌≡◌, refl, ◌∙◌, ◌⊎◌, Bool, true, false, List, [], ◌∷◌, Option, none, some, Text, All,
  filter, length, leb, if◌then◌else◌, arith, Bool-cases, inl, inr,
}
use fleet_memory.Errors.{Error, Result, ok, err, Result-cases}
use fleet_memory.Fence.Time.{Instant}
use fleet_memory.Fence.Builds.{
  BuildReceipt, BuildScan, Classified, malformed_name, receipt, skewed_by, scanned, classify_match,
  Entry, listed, match_build_dir, classify_entry, classify_kind, Scanned, add_entry, scan_entries,
  insert_receipt, sort_receipts, scan_builds, finished_within,
}

abbrev pub IsSorted : List BuildReceipt → Type 0
IsSorted [] = Unit {0}
IsSorted (r ∷ rest) = All (λ (s : BuildReceipt). r.finished_at ≤ s.finished_at) rest × IsSorted rest

All-insert_receipt :
    (P : BuildReceipt → Type 0) (r : BuildReceipt) (rest : List BuildReceipt)
    → P r
    → All P rest
    → All P (insert_receipt r rest)
All-insert_receipt P r [] p h = (p, tt)
All-insert_receipt P r (s ∷ rest) p (q, h) = elim (Bool-cases (leb r.finished_at s.finished_at)) [
  | inl first ↦ rw first (p, (q, h))
  | inr later ↦ rw later (q, All-insert_receipt P r rest p h)
]

All-earlier :
    (m n : Instant) (rest : List BuildReceipt)
    → m ≤ n
    → All (λ (s : BuildReceipt). n ≤ s.finished_at) rest
    → All (λ (s : BuildReceipt). m ≤ s.finished_at) rest
All-earlier m n [] h a = tt
All-earlier m n (s ∷ rest) h (q, a) = (omega arith, All-earlier m n rest h a)

insert_receipt-IsSorted :
    (r : BuildReceipt) (rest : List BuildReceipt) → IsSorted rest → IsSorted (insert_receipt r rest)
insert_receipt-IsSorted r [] h = (tt, tt)
insert_receipt-IsSorted r (s ∷ rest) (a, h) = elim (Bool-cases (leb r.finished_at s.finished_at)) [
  | inl first ↦
      let le : r.finished_at ≤ s.finished_at = ground (arith, first) in
      rw first ((le, All-earlier r.finished_at s.finished_at rest le a), (a, h))
  | inr later ↦ rw later (
    All-insert_receipt (λ (x : BuildReceipt). s.finished_at ≤ x.finished_at) r rest
        (ground (arith, later)) a,
    insert_receipt-IsSorted r rest h,
  )
]

sort_receipts-IsSorted : (rs : List BuildReceipt) → IsSorted (sort_receipts rs)
sort_receipts-IsSorted [] = tt
sort_receipts-IsSorted (r ∷ rs) =
    insert_receipt-IsSorted r (sort_receipts rs) (sort_receipts-IsSorted rs)

abbrev count : (BuildReceipt → Bool) → List BuildReceipt → ℕ
count p rs = length (filter p rs)

count-insert_receipt :
    (p : BuildReceipt → Bool) (r : BuildReceipt) (rs : List BuildReceipt)
    → count p (insert_receipt r rs) ≡ count p (r ∷ rs)
count-insert_receipt p r [] = refl
count-insert_receipt p r (s ∷ rs) = ground (arith, count-insert_receipt p r rs)

count-sort_receipts :
    (p : BuildReceipt → Bool) (rs : List BuildReceipt) → count p (sort_receipts rs) ≡ count p rs
count-sort_receipts p [] = refl
count-sort_receipts p (r ∷ rs) =
    count-insert_receipt p r (sort_receipts rs) ∙ ground (arith, count-sort_receipts p rs)

module _ (P : Entry → Type 0) where
  -- An entry of the list has the property.
  pub data Exists : List Entry → Type 0 where
    here : {x : Entry} {xs : List Entry} → P x → Exists (x ∷ xs)
    there : {x : Entry} {xs : List Entry} → Exists xs → Exists (x ∷ xs)

module _ (is_decimal : ℕ → Bool) (parse_stamp : Text → Result (Option Instant)) where
  abbrev read_or_none : Result (Option Instant) → Option Instant
  read_or_none (ok o) = o
  read_or_none (err e) = none

  abbrev stamp_of : Option (Text × Text) → Option Instant
  stamp_of none = none
  stamp_of (some (feature, stamp)) = read_or_none (parse_stamp stamp)

  abbrev finish_of_kind : Option Bool → Option Instant → Option Instant
  finish_of_kind (some true) o = o
  finish_of_kind _ o = none

  -- When the build of an entry finished, if the entry is a directory whose name says so.
  abbrev pub finish_of : Entry → Option Instant
  finish_of x = finish_of_kind x.is_dir (stamp_of (match_build_dir is_decimal x.name))

  abbrev one_if : (Instant → Bool) → Option Instant → ℕ
  one_if p none = 0
  one_if p (some t) = if p t then 1 else 0

  abbrev pub count_finished : (Instant → Bool) → List Entry → ℕ
  count_finished p [] = 0
  count_finished p (x ∷ xs) = one_if p (finish_of x) + count_finished p xs

  -- A directory with the name of a build whose stamp raises this when it is read, or whose
  -- modification time does.
  pub record Unreadable (e : Error) (x : Entry) : Type 0 where
    pub feature : Text
    pub stamp : Text
    pub directory : x.is_dir ≡ some true
    pub named : match_build_dir is_decimal x.name ≡ some (feature, stamp)
    pub raises :
        (parse_stamp stamp ≡ err e)
        ⊎ ((t : Instant) × (parse_stamp stamp ≡ ok (some t)) × (x.mtime ≡ err e))

  -- What an entry adds to the receipts in a window.
  abbrev Counts : Entry → Classified → Type 0
  Counts x c =
      (p : Instant → Bool) (s : Scanned)
      → count (λ r. p r.finished_at) (add_entry c s).receipts
        ≡ one_if p (finish_of x) + count (λ r. p r.finished_at) s.receipts

  abbrev Classifies : Entry → Result Classified → Type 0
  Classifies x r =
      ((c : Classified) × (r ≡ ok c) × Counts x c) ⊎ ((e : Error) × (r ≡ err e) × Unreadable e x)

  classify_match-Classifies :
      (x : Entry) (m : Option (Text × Text))
      → x.is_dir ≡ some true
      → match_build_dir is_decimal x.name ≡ m
      → Classifies x (classify_match is_decimal parse_stamp x m)
  classify_match-Classifies x none d h = inl (_, refl, λ p s. rw (d, h) (omega arith))
  classify_match-Classifies x (some (feature, stamp)) d h =
      elim (Result-cases (parse_stamp stamp)) [
        | inl (e, raised) ↦ inr (
          e,
          rw raised refl,
          record {
            feature = feature;
            stamp = stamp;
            directory = d;
            named = h;
            raises = inl raised;
          },
        )
        | inr (none, bad) ↦
            inl (malformed_name x.name, rw bad refl, λ p s. rw (d, h, bad) (omega arith))
        | inr (some t, good) ↦ elim (Result-cases x.mtime) [
          | inl (e, raised) ↦ inr (
            e,
            rw (good, raised) refl,
            record {
              feature = feature;
              stamp = stamp;
              directory = d;
              named = h;
              raises = inr (t, good, raised);
            },
          )
          | inr (mtime, read) ↦ inl (
            receipt (record {
              name = x.name;
              feature = feature;
              finished_at = t;
              skewed = skewed_by t mtime;
            }),
            rw (good, read) refl,
            λ p s. rw (d, h, good) (ground arith),
          )
        ]
      ]

  classify_entry-Classifies : (x : Entry) → Classifies x (classify_entry is_decimal parse_stamp x)
  unfolding classify_entry
  classify_entry-Classifies x = of_kind x.is_dir refl
    where
      of_kind :
          (kind : Option Bool)
          → x.is_dir ≡ kind
          → Classifies x (classify_kind is_decimal parse_stamp x kind)
      of_kind none d = inl (_, refl, λ p s. rw d (omega arith))
      of_kind (some false) d = inl (_, refl, λ p s. rw d (omega arith))
      of_kind (some true) d = classify_match-Classifies x (match_build_dir is_decimal x.name) d refl

  abbrev Scans : List Entry → Result Scanned → Type 0
  Scans xs r =
      ((s : Scanned) × (r ≡ ok s)
        × ((p : Instant → Bool)
            → count (λ (b : BuildReceipt). p b.finished_at) s.receipts ≡ count_finished p xs))
      ⊎ ((e : Error) × (r ≡ err e) × Exists (Unreadable e) xs)

  scan_entries-Scans : (xs : List Entry) → Scans xs (scan_entries is_decimal parse_stamp xs)
  unfolding scan_entries
  scan_entries-Scans [] = inl (_, refl, λ p. refl)
  scan_entries-Scans (x ∷ xs) = elim (classify_entry-Classifies x) [
    | inr (e, raised, bad) ↦ inr (e, rw raised refl, here bad)
    | inl (c, classified, counts) ↦ elim (scan_entries-Scans xs) [
      | inr (e, raised, bad) ↦ inr (e, rw (classified, raised) refl, there bad)
      | inl (s, rest_read, all) ↦
          inl
            (add_entry c s, rw (classified, rest_read) refl, λ p. omega (arith, counts p s, all p))
    ]
  ]

  -- The scan of a directory that could be listed returns or raises. If it returns, the receipts are
  -- in the order of their stamps, and as many of them finished in a window as there are entries that
  -- are directories with the name of a build whose stamp can be read and lies in the window. If it
  -- raises, the exception is that of the stamp or the modification time of such a directory.
  pub scan_builds-listed :
      (label : Text) (xs : List Entry) (now : Instant) (window : ℕ)
      → ((scan : BuildScan) × (scan_builds is_decimal parse_stamp label (listed xs) ≡ ok scan)
          × IsSorted scan.receipts
          × (length (finished_within now window scan)
              ≡ count_finished (λ t. leb now (t + window)) xs))
        ⊎ ((e : Error) × (scan_builds is_decimal parse_stamp label (listed xs) ≡ err e)
            × Exists (Unreadable e) xs)
  unfolding scan_builds
  scan_builds-listed label xs now window = elim (scan_entries-Scans xs) [
    | inr (e, raised, bad) ↦ inr (e, rw raised refl, bad)
    | inl (s, read, counts) ↦ inl (
      scanned label s,
      rw read refl,
      sort_receipts-IsSorted s.receipts,
      count-sort_receipts (λ r. leb now (r.finished_at + window)) s.receipts
          ∙ counts (λ t. leb now (t + window)),
    )
  ]
