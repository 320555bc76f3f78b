-- ===== src/Payloads/Base/WellFormed.antt =====
-- What every payload object satisfies once it is constructed, and which data are accepted.
use fleet_memory.Prelude.{
  not-eq-true, ◌≡◌, refl, sym, ◌∙◌, ◌↔◌, true, false, not, List, [], ◌∷◌, Option, none, some, All,
  arith, Text, codes, text_mem, Bool-cases, inl, inr, pos,
}
use fleet_memory.Errors.{ok, >>=-eq-ok, check, check-eq-ok}
use mathlib.Core.Path.{subst}
use fleet_memory.Payloads.Norm.{is_identifier}
use fleet_memory.Payloads.Models.{Kind, kind_of, kind_eq→eq, kind_eq_refl}
use fleet_memory.Payloads.BackwardEdge.{run_validators}
use fleet_memory.Payloads.Base.{
  PayloadData, Payload, natural_key, validate_present, collapse, is_key_shaped, check_shapes,
  normalize_supersedes, required, default_to, build, construct,
}
use fleet_memory.Payloads.Base.Collapse.{Distinct, collapse-Distinct}

-- What a payload object guarantees to every reader.
pub record IsWellFormed (p : Payload) : Type 0 where
  pub project : is_identifier p.project ≡ true
  pub identifier : is_identifier p.identifier ≡ true
  pub distinct : Distinct p.supersedes
  pub shapes : All (λ r. is_key_shaped r ≡ true) p.supersedes
  pub no_self : text_mem (natural_key p) p.supersedes ≡ false
  pub validated : run_validators p.domain_tags p.body ≡ true

-- The object holds the data: what was given, the defaults of what was not, and these references.
pub record Builds (model : Kind) (d : PayloadData) (refs : List Text) (p : Payload) : Type 0 where
  pub project : d.project ≡ some p.project
  pub identifier : d.identifier ≡ some p.identifier
  pub source_ref : d.source_ref ≡ some p.source_ref
  pub body : d.body ≡ some p.body
  pub kind : kind_of p.body ≡ model
  pub domain_tags : p.domain_tags ≡ default_to [] d.domain_tags
  pub version : p.version ≡ default_to (pos 1) d.version
  pub supersedes : p.supersedes ≡ refs

abbrev pub Holds : Kind → PayloadData → Payload → Type 0
Holds model d = Builds model d (collapse [] (default_to [] d.supersedes))

check_shapes-eq-ok :
    (xs : List Text) → check_shapes xs ≡ ok tt → All (λ r. is_key_shaped r ≡ true) xs
unfolding check_shapes
check_shapes-eq-ok [] h = tt
check_shapes-eq-ok (r ∷ xs) h = elim (Bool-cases (is_key_shaped r)) [
  | inl shaped ↦ (shaped, check_shapes-eq-ok xs (ground arith))
  | inr bad ↦ absurd (ground arith)
]

normalize_supersedes-eq-ok :
    (o : Option (List Text)) (s : List Text)
    → normalize_supersedes o ≡ ok s
    → (s ≡ collapse [] (default_to [] o)) × All (λ r. is_key_shaped r ≡ true) s
unfolding normalize_supersedes
normalize_supersedes-eq-ok none [] h = (refl, tt)
normalize_supersedes-eq-ok none (x ∷ s) h = absurd (ground arith)
normalize_supersedes-eq-ok (some xs) s h =
    let (done, shaped, same) =
      >>=-eq-ok (check_shapes (collapse [] xs)) (λ _. ok (collapse [] xs)) h in
    let result : collapse [] xs ≡ s = cc in
    (
      sym result,
      subst (All (λ r. is_key_shaped r ≡ true)) result (check_shapes-eq-ok (collapse [] xs) shaped),
    )

required-eq-ok {ℓ} : {A : Type ℓ} (o : Option A) (a : A) → required o ≡ ok a → o ≡ some a
required-eq-ok none a h = cc
required-eq-ok (some b) a h = cc

validate_present-eq-ok :
    (field_name value : Text)
    → validate_present field_name (some value) ≡ ok tt
    → is_identifier value ≡ true
unfolding validate_present
validate_present-eq-ok field_name value h = check-eq-ok _ _ h

-- `build` returns what its arguments hold.
build-eq-ok :
    (kind : Kind) (d : PayloadData) (refs : List Text) (p : Payload)
    → build kind d refs ≡ ok p
    → Builds kind d refs p × (run_validators p.domain_tags p.body ≡ true)
unfolding build
build-eq-ok kind d refs p h = (
  record {
    project = ground arith;
    identifier = ground arith;
    source_ref = ground arith;
    body = ground arith;
    kind = ground (arith, kind_eq→eq (kind_of p.body) kind);
    domain_tags = ground arith;
    version = ground arith;
    supersedes = ground arith;
  },
  ground arith,
)

build_of_Builds :
    (kind : Kind) (d : PayloadData) (refs : List Text) (p : Payload)
    → Builds kind d refs p
    → run_validators p.domain_tags p.body ≡ true
    → build kind d refs ≡ ok p
unfolding build
build_of_Builds kind d refs p b v = ground (arith, kind_eq_refl kind)

check_shapes_of_All :
    (xs : List Text) → All (λ r. is_key_shaped r ≡ true) xs → check_shapes xs ≡ ok tt
unfolding check_shapes
check_shapes_of_All [] h = refl
check_shapes_of_All (r ∷ xs) (shaped, h) = rw shaped (check_shapes_of_All xs h)

pub normalize_supersedes_of_All :
    (o : Option (List Text))
    → All (λ r. is_key_shaped r ≡ true) (collapse [] (default_to [] o))
    → normalize_supersedes o ≡ ok (collapse [] (default_to [] o))
unfolding normalize_supersedes
normalize_supersedes_of_All none h = refl
normalize_supersedes_of_All (some xs) h = rw (check_shapes_of_All (collapse [] xs) h)

validate_present_sound :
    (field_name value : Text) (o : Option Text)
    → o ≡ some value
    → validate_present field_name o ≡ ok tt
    → is_identifier value ≡ true
unfolding validate_present
validate_present_sound field_name value o e h = check-eq-ok (is_identifier value) _ (rw e at h)

construct_sound :
    (kind : Kind) (d : PayloadData) (p : Payload)
    → construct kind d ≡ ok p
    → Holds kind d p × IsWellFormed p
unfolding construct
construct_sound kind d p h =
    let (done1, valid_project, h1) = >>=-eq-ok (validate_present (codes "project") d.project) _ h in
    let (done2, valid_identifier, h2) =
      >>=-eq-ok (validate_present (codes "identifier") d.identifier) _ h1 in
    let (refs, normal, h3) = >>=-eq-ok (normalize_supersedes d.supersedes) _ h2 in
    let (q, built, h4) = >>=-eq-ok (build kind d refs) _ h3 in
    let (done5, no_self, h5) =
      >>=-eq-ok (check (not (text_mem (natural_key q) q.supersedes)) _) _ h4 in
    let (builds, validated) = build-eq-ok kind d refs q built in
    let (refs_eq, shaped) = normalize_supersedes-eq-ok d.supersedes refs normal in
    let same : q ≡ p = cc in
    subst (λ r. Holds kind d r × IsWellFormed r) same
      (
        record {
          project = builds.project;
          identifier = builds.identifier;
          source_ref = builds.source_ref;
          body = builds.body;
          kind = builds.kind;
          domain_tags = builds.domain_tags;
          version = builds.version;
          supersedes = builds.supersedes ∙ refs_eq;
        },
        record {
          project =
              validate_present_sound (codes "project") q.project d.project builds.project
                valid_project;
          identifier =
              validate_present_sound (codes "identifier") q.identifier d.identifier
                builds.identifier valid_identifier;
          distinct =
              rw (builds.supersedes, refs_eq)
                (collapse-Distinct [] (default_to [] d.supersedes) tt);
          shapes = rw builds.supersedes shaped;
          no_self = not-eq-true _ (check-eq-ok _ _ no_self);
          validated = validated;
        },
      )

validate_present_complete :
    (field_name value : Text) (o : Option Text)
    → o ≡ some value
    → is_identifier value ≡ true
    → validate_present field_name o ≡ ok tt
unfolding validate_present
validate_present_complete field_name value o e h = rw (e, h)

construct_complete :
    (kind : Kind) (d : PayloadData) (p : Payload)
    → Holds kind d p
    → IsWellFormed p
    → construct kind d ≡ ok p
unfolding construct
construct_complete kind d p b w =
    let shaped = subst (All (λ r. is_key_shaped r ≡ true)) b.supersedes w.shapes in
    rw (
      validate_present_complete (codes "project") p.project d.project b.project w.project,
      validate_present_complete (codes "identifier") p.identifier d.identifier b.identifier
          w.identifier,
      normalize_supersedes_of_All d.supersedes shaped,
      build_of_Builds kind d _ p b w.validated,
      w.no_self,
    )

-- A construction succeeds with a payload exactly when the payload holds the data and is well
-- formed: both identifiers valid, no reference twice, each of three segments, none of them the
-- payload's own key, and the validators of its class passed.
pub construct_iff :
    (kind : Kind) (d : PayloadData) (p : Payload)
    → (construct kind d ≡ ok p) ↔ (Holds kind d p × IsWellFormed p)
construct_iff kind d p = (construct_sound kind d p, λ h. construct_complete kind d p h.0 h.1)
