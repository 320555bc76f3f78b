-- ===== src/Payloads/Norm/Composite.antt =====
-- Composite identifiers: the joined parts can be told apart, so the hash can.
use fleet_memory.Prelude.{
  ◌≡◌, sym, ap, ◌∙◌, List, [], ◌∷◌, All, join, split, split_plain, split-append, take, Lacks, Text,
}
use fleet_memory.Payloads.Norm.{unit_separator, composite_hash}

split-join :
    (p : Text) (ps : List Text)
    → All (Lacks unit_separator) (p ∷ ps)
    → split unit_separator (join unit_separator (p ∷ ps)) ≡ p ∷ ps
split-join p [] (h, _) = split_plain unit_separator p h
split-join p (q ∷ ps) (h, hs) =
    split-append unit_separator p (join unit_separator (q ∷ ps)) h
    ∙ ap (λ l. p ∷ l) (split-join q ps hs)

-- Two composite hashes agree only for the same list of raw parts, where the parts hold no unit
-- separator and the two joined texts are no collision of the digest's first 12 digits.
pub composite_hash_injective :
    (sha256_hex : Text → Text) (p q : Text) (ps qs : List Text)
    → All (Lacks unit_separator) (p ∷ ps)
    → All (Lacks unit_separator) (q ∷ qs)
    → (take 12 (sha256_hex (join unit_separator (p ∷ ps)))
          ≡ take 12 (sha256_hex (join unit_separator (q ∷ qs)))
        → join unit_separator (p ∷ ps) ≡ join unit_separator (q ∷ qs))
    → composite_hash sha256_hex (p ∷ ps) ≡ composite_hash sha256_hex (q ∷ qs)
    → p ∷ ps ≡ q ∷ qs
unfolding composite_hash
composite_hash_injective sha256_hex p q ps qs hp hq no_collision same =
    sym (split-join p ps hp) ∙ ap (split unit_separator) (no_collision same) ∙ split-join q qs hq
