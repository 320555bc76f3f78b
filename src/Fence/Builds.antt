-- ===== src/Fence/Builds.antt =====
-- fence/builds.py: the finished builds, counted from the names in the receipts directory. Which
-- characters are decimal digits and the reading of a stamp in local time are parameters; the latter
-- raises a ValueError or an OverflowError on an instant that is out of range in universal time, and
-- nothing catches that.
pub mod Scan
use fleet_memory.Prelude.{
  ℕ, ◌+◌, ◌*◌, Bool, true, false, ◌&&◌, ◌||◌, not, List, [], ◌∷◌, Option, none, some, Text, codes,
  all, ltb, leb, ◌==◌, if◌then◌else◌, length, take, drop, filter, is_empty,
}
use mathlib.Core.List.{reverse}
use fleet_memory.Errors.{Result, ok, err, ◌>>=◌}
use fleet_memory.Payloads.BackwardEdge.{strip_prefix}
use fleet_memory.Fence.Time.{Instant, hour}
use fleet_memory.Fence.Verdict.{Problem, no_builds_directory, builds_directory_unreadable}

pub record BuildReceipt : Type 0 where
  pub name : Text
  pub feature : Text
  pub finished_at : Instant
  pub skewed : Bool

pub record BuildScan : Type 0 where
  pub receipts : List BuildReceipt
  pub malformed : List Text
  pub skewed : List Text
  pub problem : Option Problem
  pub path : Text

-- An entry of the directory: `is_dir()`, `none` where it raises an OSError, and the modification
-- time, `none` where `stat()` does; `datetime.fromtimestamp` raises on a time that is out of range.
pub record Entry : Type 0 where
  pub name : Text
  pub is_dir : Option Bool
  pub mtime : Result (Option Instant)

-- `sorted(resolved.iterdir())`
pub data Listing : Type 0 where
  absent : Listing
  unlistable : Text → Listing
  listed : List Entry → Listing

-- `_is_skewed`
abbrev pub is_skewed : Instant → Instant → Bool
is_skewed finished_at mtime =
    ltb (mtime + hour) finished_at || ltb (finished_at + 7 * 24 * hour) mtime

-- `$` also matches in front of a line feed at the end.
abbrev without_line_feed : Text → Text
without_line_feed [] = []
without_line_feed (c ∷ backwards) = if c == 10 then backwards else c ∷ backwards

-- What the loop makes of one entry.
pub data Classified : Type 0 where
  skipped : Classified
  malformed_name : Text → Classified
  receipt : BuildReceipt → Classified

abbrev pub skewed_by : Instant → Option Instant → Bool
skewed_by finished_at none = false
skewed_by finished_at (some mtime) = is_skewed finished_at mtime

abbrev classify_stamp : Entry → Text → Option Instant → Result Classified
classify_stamp e feature none = ok (malformed_name e.name)
classify_stamp e feature (some finished_at) = do
  mtime ← e.mtime
  ok (
      receipt (record {
        name = e.name;
        feature = feature;
        finished_at = finished_at;
        skewed = skewed_by finished_at mtime;
      }))

-- `receipts`, `malformed` and `skewed`
pub record Scanned : Type 0 where
  pub receipts : List BuildReceipt
  pub malformed : List Text
  pub skewed : List Text

abbrev add_entry : Classified → Scanned → Scanned
add_entry skipped s = s
add_entry (malformed_name name) s = record s { malformed = name ∷ s.malformed }
add_entry (receipt r) s = record s {
  receipts = r ∷ s.receipts;
  skewed = if r.skewed then r.name ∷ s.skewed else s.skewed;
}

abbrev pub insert_receipt : BuildReceipt → List BuildReceipt → List BuildReceipt
insert_receipt r [] = r ∷ []
insert_receipt r (s ∷ rest) =
    if leb r.finished_at s.finished_at then r ∷ s ∷ rest else s ∷ insert_receipt r rest

-- `receipts.sort(key=lambda r: r.finished_at)`
abbrev pub sort_receipts : List BuildReceipt → List BuildReceipt
sort_receipts [] = []
sort_receipts (r ∷ rest) = insert_receipt r (sort_receipts rest)

abbrev pub scanned : Text → Scanned → BuildScan
scanned label s = record {
  receipts = sort_receipts s.receipts;
  malformed = s.malformed;
  skewed = s.skewed;
  problem = none;
  path = label;
}

abbrev unseen : Text → Problem → BuildScan
unseen label problem = record {
  receipts = [];
  malformed = [];
  skewed = [];
  problem = some problem;
  path = label;
}

module _ (is_decimal : ℕ → Bool) where
  -- The stamp, and what stands in front of it, backwards: a dash, and the feature, which is not
  -- empty and has no line feed (`.+`).
  abbrev split_dash : Text → Text → Option (Text × Text)
  split_dash stamp [] = none
  split_dash stamp (c ∷ feature) =
      if length stamp == 14
        && all is_decimal stamp
        && c == b'-'
        && not (is_empty feature)
        && all (λ x. not (x == 10)) feature
      then some (reverse feature, stamp)
      else none

  abbrev split_stamp : Option Text → Option (Text × Text)
  split_stamp none = none
  split_stamp (some name) =
      let backwards = without_line_feed (reverse name) in
      split_dash (reverse (take 14 backwards)) (drop 14 backwards)

  -- `BUILD_DIR_PATTERN.match(name)`: the feature and the stamp
  unfoldable pub match_build_dir : Text → Option (Text × Text)
  match_build_dir name = split_stamp (strip_prefix (codes "build-") name)

  module _ (parse_stamp : Text → Result (Option Instant)) where
    abbrev pub classify_match : Entry → Option (Text × Text) → Result Classified
    classify_match e none = ok (malformed_name e.name)
    classify_match e (some (feature, stamp)) = do
      finished_at ← parse_stamp stamp
      classify_stamp e feature finished_at

    abbrev classify_kind : Entry → Option Bool → Result Classified
    classify_kind e none = ok (malformed_name e.name)
    classify_kind e (some false) = ok skipped
    classify_kind e (some true) = classify_match e (match_build_dir e.name)

    unfoldable pub classify_entry : Entry → Result Classified
    unfolding match_build_dir
    classify_entry e = classify_kind e e.is_dir

    unfoldable pub scan_entries : List Entry → Result Scanned
    unfolding classify_entry
    scan_entries [] = ok (record { receipts = []; malformed = []; skewed = [] })
    scan_entries (e ∷ rest) = do
      classified ← classify_entry e
      s ← scan_entries rest
      ok (add_entry classified s)

    abbrev scanned_or_raised : Text → Result Scanned → Result BuildScan
    scanned_or_raised label (ok s) = ok (scanned label s)
    scanned_or_raised label (err e) = err e

    unfoldable pub scan_builds : Text → Listing → Result BuildScan
    unfolding scan_entries
    scan_builds label absent = ok (unseen label no_builds_directory)
    scan_builds label (unlistable class_name) =
        ok (unseen label (builds_directory_unreadable class_name))
    scan_builds label (listed entries) = scanned_or_raised label (scan_entries entries)

-- `finished_since`
abbrev pub finished_since : Instant → BuildScan → List BuildReceipt
finished_since moment scan = filter (λ (r : BuildReceipt). leb moment r.finished_at) scan.receipts

-- `finished_since(now - window)`, where `now - window` is compared as `now <= t + window`
abbrev pub finished_within : Instant → ℕ → BuildScan → List BuildReceipt
finished_within now window scan =
    filter (λ (r : BuildReceipt). leb now (r.finished_at + window)) scan.receipts
