-- ===== src/Fence/Ack/Bounds.antt =====
-- What an acknowledgement file must hold for a check to be held, and for how long it is.
use fleet_memory.Prelude.{
  ℕ, ◌+◌, ◌≤◌, ◌≡◌, refl, sym, ap, ◌∙◌, ◌≢◌, ◌↔◌, true, false, List, [], ◌∷◌, Option, none, some,
  Text, text_mem, codes, ltb, is_empty, Bool-cases, arith, inl, inr,
}
use mathlib.Core.Path.{subst}
use mathlib.Core.Bool.{false≢true}
use fleet_memory.Errors.{ok}
use fleet_memory.Json.{obj, null, bool, num, float, str, datetime, arr, Fields}
use fleet_memory.Fence.Files.{FileRead, contents, not_found, os_error, undecodable, get}
use fleet_memory.Fence.Ack.{
  AckState, holds, is_blank, text_of, checks_of, judge_dated, judge_date, judge_until, judge_fields,
  read_ack,
}

-- A reason that is not empty.
abbrev pub Reasoned : Option Text → Type 0
Reasoned o = (reason : Text) × (o ≡ some reason) × (reason ≢ [])

-- The day lies from today to 14 days on.
abbrev pub InTerm : ℕ → ℕ → Type 0
InTerm today until = (today ≤ until) × (until ≤ today + 14)

module _ (date_from_iso : Text → Option ℕ) where
  abbrev pub Dated : ℕ → Option Text → Type 0
  Dated today o =
      (raw : Text) × (o ≡ some raw)
      × (raw ≢ [])
      × (until : ℕ) × (date_from_iso raw ≡ some until)
      × InTerm today until

  -- The file is an object with a date in term, a reason, and the name of the check in its list.
  abbrev pub Acknowledged : FileRead → ℕ → Text → Type 0
  Acknowledged f today name =
      (fields : Fields) × (f ≡ contents (some (obj fields)))
      × Dated today (text_of (get (codes "until") fields))
      × Reasoned (text_of (get (codes "reason") fields))
      × (text_mem name (checks_of (get (codes "checks") fields)) ≡ true)

none≢some {ℓ} : {A : Type ℓ} (x : A) → none ≢ some x
none≢some x e = cc

some-injective {ℓ} : {A : Type ℓ} (x y : A) → some x ≡ some y → x ≡ y
some-injective x y e = cc

ok-injective {ℓ} : {A : Type ℓ} (x y : A) → ok x ≡ ok y → x ≡ y
ok-injective x y e = cc

is_blank_iff : (o : Option Text) → (is_blank o ≡ false) ↔ Reasoned o
is_blank_iff none = (λ h. absurd cc, λ (r, e, n). absurd cc)
is_blank_iff (some []) = (λ h. absurd cc, λ (r, e, n). absurd (n (cc)))
is_blank_iff (some (c ∷ s)) = (λ h. (c ∷ s, refl, λ e. cc), λ h. refl)

member_not_empty :
    (name : Text) (checks : List Text) → text_mem name checks ≡ true → is_empty checks ≡ false
member_not_empty name [] h = absurd cc
member_not_empty name (c ∷ checks) h = refl

module _ (date_from_iso : Text → Option ℕ) (label : Text) where
  judge_dated_iff :
      (reason : Option Text) (checks : List Text) (today until : ℕ) (name : Text)
      → (holds (judge_dated date_from_iso label reason checks today until) name ≡ true)
        ↔ (InTerm today until × Reasoned reason × (text_mem name checks ≡ true))
  unfolding judge_dated holds
  judge_dated_iff reason checks today until name =
      let b = is_blank_iff reason in
      elim (Bool-cases (is_empty checks)) [
        | inl empty ↦
            rw empty (
              λ h. absurd cc,
              λ h. absurd (ground (arith, empty, member_not_empty name checks h.2)),
            )
        | inr named ↦ rw named (elim (Bool-cases (is_blank reason)) [
          | inl blank ↦ rw blank (λ h. absurd cc, λ h. absurd (ground (arith, blank, b.1 h.1)))
          | inr reasoned ↦ rw reasoned (elim (Bool-cases (ltb (today + 14) until)) [
            | inl far ↦ rw far (λ h. absurd cc, λ h. absurd (ground (arith, far, h.0)))
            | inr near ↦ rw near (elim (Bool-cases (ltb until today)) [
              | inl past ↦ rw past (λ h. absurd cc, λ h. absurd (ground (arith, past, h.0)))
              | inr due ↦ rw due (λ h. (ground (arith, near, due), b.0 reasoned, h), λ h. h.2)
            ])
          ])
        ])
      ]

  judge_date_iff :
      (reason : Option Text) (checks : List Text) (today : ℕ) (raw : Text) (o : Option ℕ)
      (name : Text)
      → (holds (judge_date date_from_iso label reason checks today raw o) name ≡ true) ↔ (
          ((until : ℕ) × (o ≡ some until) × InTerm today until)
          × Reasoned reason
          × (text_mem name checks ≡ true))
  unfolding holds
  judge_date_iff reason checks today raw none name =
      (λ h. absurd cc, λ ((u, e, t), r, m). absurd (none≢some u e))
  judge_date_iff reason checks today raw (some until) name =
      let j = judge_dated_iff reason checks today until name in
      (
        λ h. let (t, r, m) = j.0 h in ((until, refl, t), r, m),
        λ ((u, e, t), r, m). j.1 (subst (InTerm today) (sym (some-injective until u e)) t, r, m),
      )

  judge_until_iff :
      (reason : Option Text) (checks : List Text) (today : ℕ) (o : Option Text) (name : Text)
      → (holds (judge_until date_from_iso label reason checks today o) name ≡ true)
        ↔ (Dated date_from_iso today o × Reasoned reason × (text_mem name checks ≡ true))
  unfolding judge_until holds
  judge_until_iff reason checks today none name =
      (λ h. absurd cc, λ (d, r, m). absurd (none≢some d.0 d.1))
  judge_until_iff reason checks today (some []) name =
      (λ h. absurd cc, λ (d, r, m). absurd (d.2 (sym (some-injective [] d.0 d.1))))
  judge_until_iff reason checks today (some (c ∷ s)) name =
      let j = judge_date_iff reason checks today (c ∷ s) (date_from_iso (c ∷ s)) name in
      (
        λ h. let ((u, e, t), r, m) = j.0 h in ((c ∷ s, refl, (λ q. cc), u, e, t), r, m),
        λ ((raw, e, n, u, e', t), r, m).
            j.1 ((u, ap date_from_iso (some-injective (c ∷ s) raw e) ∙ e', t), r, m),
      )

  not_held :
      {b : AckState} (a : AckState) (name : Text)
      → ok b ≡ ok a
      → holds a name ≡ true
      → b.active ≡ true
  unfolding holds
  not_held {b} a name e h = elim (Bool-cases b.active) [
    | inl active ↦ active
    | inr off ↦ absurd (ground (arith, off, ap (λ x. holds x name) (ok-injective b a e), h))
  ]

  held_file :
      (f : FileRead) (today : ℕ) (name : Text) (a : AckState)
      → read_ack date_from_iso label f today ≡ ok a
      → holds a name ≡ true
      → Acknowledged date_from_iso f today name
  unfolding read_ack judge_fields
  held_file (contents (some (obj fields))) today name a e h =
      let reason = text_of (get (codes "reason") fields) in
      let checks = checks_of (get (codes "checks") fields) in
      let until = text_of (get (codes "until") fields) in
      let j = judge_until_iff reason checks today until name in
      let (d, r, m) = j.0 (
        ap (λ x. holds x name)
          (ok-injective (judge_until date_from_iso label reason checks today until) a e)
        ∙ h) in
      (fields, refl, d, r, m)
  held_file (os_error class_name) today name a e h = absurd (false≢true (not_held a name e h))
  held_file not_found today name a e h = absurd (false≢true (not_held a name e h))
  held_file undecodable today name a e h = absurd cc
  held_file (contents none) today name a e h = absurd (false≢true (not_held a name e h))
  held_file (contents (some null)) today name a e h = absurd (false≢true (not_held a name e h))
  held_file (contents (some (bool b))) today name a e h = absurd (false≢true (not_held a name e h))
  held_file (contents (some (num z))) today name a e h = absurd (false≢true (not_held a name e h))
  held_file (contents (some (float s))) today name a e h = absurd (false≢true (not_held a name e h))
  held_file (contents (some (str s))) today name a e h = absurd (false≢true (not_held a name e h))
  held_file (contents (some (datetime s))) today name a e h =
      absurd (false≢true (not_held a name e h))
  held_file (contents (some (arr xs))) today name a e h = absurd (false≢true (not_held a name e h))

  held_fields :
      (fields : Fields) (today : ℕ) (name : Text)
      → Dated date_from_iso today (text_of (get (codes "until") fields))
        × Reasoned (text_of (get (codes "reason") fields))
        × (text_mem name (checks_of (get (codes "checks") fields)) ≡ true)
      → (a : AckState) × (read_ack date_from_iso label (contents (some (obj fields))) today ≡ ok a)
        × (holds a name ≡ true)
  unfolding read_ack judge_fields
  held_fields fields today name h =
      let reason = text_of (get (codes "reason") fields) in
      let checks = checks_of (get (codes "checks") fields) in
      let until = text_of (get (codes "until") fields) in
      (
        judge_until date_from_iso label reason checks today until,
        refl,
        (judge_until_iff reason checks today until name).1 h,
      )

  -- An acknowledgement file that could be read holds a check exactly if it is a JSON object whose
  -- `until` is a date from today to 14 days on, whose `reason` is a text that is not empty, and whose
  -- `checks` name the check.
  pub read_ack-holds_iff :
      (f : FileRead) (today : ℕ) (name : Text)
      → ((a : AckState) × (read_ack date_from_iso label f today ≡ ok a) × (holds a name ≡ true))
        ↔ Acknowledged date_from_iso f today name
  read_ack-holds_iff f today name = (
    λ (a, e, h). held_file f today name a e h,
    λ (fields, e, d, r, m). rw e (held_fields fields today name (d, r, m)),
  )
