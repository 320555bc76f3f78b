-- ===== src/Fence/StoreAge/Like.antt =====
-- The rows that a project's patterns select, by SQL's `prefix = exact OR prefix LIKE pattern ESCAPE
-- '\'`.
use fleet_memory.Prelude.{
  ℕ, ◌≡◌, refl, sym, ap, ap₂, &&-eq-true, ◌∙◌, ◌⊎◌, inl, inr, ◌↔◌, Bool, true, false, ◌&&◌, ◌||◌,
  not, [], ◌∷◌, ◌++◌, Text, codes, text_eq, text_eq→eq, text_eq_refl, ◌==◌, ==_iff, if◌then◌else◌,
  is_empty, arith, Bool-cases,
}
use mathlib.Core.Bool.{false≢true}
use fleet_memory.Fence.StoreAge.{replace_char, project_patterns, exact_prefix, backslash}

-- One character, then the rest.
abbrev literal : ℕ → (Text → Bool) → Text → Bool
literal c rest [] = false
literal c rest (d ∷ s) = d == c && rest s

abbrev any_char : (Text → Bool) → Text → Bool
any_char rest [] = false
any_char rest (d ∷ s) = rest s

abbrev any_suffix : (Text → Bool) → Text → Bool
any_suffix rest [] = rest []
any_suffix rest (d ∷ s) = rest (d ∷ s) || any_suffix rest s

-- `LIKE` with `\` as its escape character; the first argument tells whether one has just been read.
like_from : Bool → Text → Text → Bool
like_from escaped [] s = not escaped && is_empty s
like_from true (c ∷ p) s = literal c (like_from false p) s
like_from false (c ∷ p) s =
    let after_escape = like_from true p s in
    let after = like_from false p in
    if c == backslash
    then after_escape
    else if c == b'_'
    then any_char after s
    else if c == b'%'
    then any_suffix after s
    else literal c after s

-- The clause of the query for a project.
pub selects : Text → Text → Bool
unfolding like_from project_patterns
selects project prefix =
    text_eq prefix (project_patterns project).0
    || like_from false (project_patterns project).1 prefix

-- Each special character with a backslash before it.
escape : Text → Text
escape [] = []
escape (c ∷ s) =
    if c == backslash || (c == b'_' || c == b'%') then backslash ∷ c ∷ escape s else c ∷ escape s

escape_lem :
    (t : Text) → replace_char b'%' (replace_char b'_' (replace_char backslash t)) ≡ escape t
unfolding replace_char escape
escape_lem [] = refl
escape_lem (c ∷ t) = ground (arith, escape_lem t)

starts : Text → (Text → Bool) → Text → Bool
starts [] rest s = rest s
starts (c ∷ t) rest s = literal c (starts t rest) s

like_from-escape :
    (t p s : Text) → like_from false (escape t ++ p) s ≡ starts t (like_from false p) s
unfolding like_from escape starts
like_from-escape [] p s = refl
like_from-escape (c ∷ t) p [] = ground arith
like_from-escape (c ∷ t) p (d ∷ s) = ground (arith, like_from-escape t p s)

starts_iff :
    (t : Text) (rest : Text → Bool) (s : Text)
    → (starts t rest s ≡ true) ↔ ((r : Text) × (s ≡ t ++ r) × (rest r ≡ true))
unfolding starts
starts_iff [] rest s = (λ h. (s, refl, h), λ (r, e, h). ap rest e ∙ h)
starts_iff (c ∷ t) rest [] = (λ h. absurd cc, λ (r, e, h). absurd cc)
starts_iff (c ∷ t) rest (d ∷ s) =
    let ih = starts_iff t rest s in
    (
      λ h.
          let (same, more) = &&-eq-true (d == c) (starts t rest s) h in
          let (r, e, k) = ih.0 more in (r, ap₂ (λ x y. x ∷ y) ((==_iff d c).0 same) e, k),
      λ (r, e, k). rw ((==_iff d c).1 (cc), ih.1 (r, cc, k)) refl,
    )

any_suffix_end : (s : Text) → any_suffix (like_from false []) s ≡ true
unfolding like_from
any_suffix_end [] = refl
any_suffix_end (c ∷ s) = any_suffix_end s

-- A dot, and then anything.
like_from-dot_iff :
    (s : Text) → (like_from false (codes ".%") s ≡ true) ↔ ((r : Text) × (s ≡ b'.' ∷ r))
unfolding like_from
like_from-dot_iff [] = (λ h. absurd cc, λ (r, e). absurd cc)
like_from-dot_iff (d ∷ s) = (
  λ h.
      let (same, _) = &&-eq-true (d == b'.') (any_suffix (like_from false []) s) h in
      (s, ap (λ x. x ∷ s) ((==_iff d b'.').0 same)),
  λ (r, e). rw ((==_iff d b'.').1 (cc), any_suffix_end s) refl,
)

-- The clause selects the rows of the project's namespace and of the namespaces below it, and no
-- other row, whatever characters the project has: none of them acts as a wildcard.
pub selects_iff :
    (project prefix : Text)
    → (selects project prefix ≡ true) ↔ (
        (prefix ≡ exact_prefix project)
        ⊎ ((rest : Text) × (prefix ≡ exact_prefix project ++ (b'.' ∷ rest))))
unfolding selects project_patterns
selects_iff project prefix =
    let exact = exact_prefix project in
    let like =
      ap (λ t. like_from false (t ++ codes ".%") prefix) (escape_lem exact)
      ∙ like_from-escape exact (codes ".%") prefix in
    let s = starts_iff exact (like_from false (codes ".%")) prefix in
    elim (Bool-cases (text_eq prefix exact)) [
      | inl same ↦ rw same (λ h. inl (text_eq→eq prefix exact same), λ h. refl)
      | inr other ↦ rw other (
        λ h.
            let (r, e, k) = s.0 (sym like ∙ h) in
            let (rest, dot) = (like_from-dot_iff r).0 k in inr (rest, e ∙ ap (λ x. exact ++ x) dot),
        λ h. elim h [
          | inl e ↦
              absurd (false≢true (sym other ∙ (ap (λ x. text_eq x exact) e ∙ text_eq_refl exact)))
          | inr (rest, e) ↦
              like ∙ s.1 (b'.' ∷ rest, e, (like_from-dot_iff (b'.' ∷ rest)).1 (rest, refl))
        ],
      )
    ]
