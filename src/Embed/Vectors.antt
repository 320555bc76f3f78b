-- ===== src/Embed/Vectors.antt =====
-- An embedding that returns has one vector for each text, and what it raises is classified.
use fleet_memory.Prelude.{
  ℕ, ◌<◌, ◌≡◌, refl, sym, ap, ◌∙◌, inl, inr, List, [], ◌∷◌, ◌++◌, Option, none, some, Text, length,
  length-append, map, ◌==◌, ==_iff, All, All-append, Bool-cases, arith, codes,
}
use fleet_memory.Errors.{
  Result, ok, err, >>=-eq-ok, check, check-eq-ok, embed_dimension, embed_service,
}
use fleet_memory.Exec.Rules as Rules
use fleet_memory.Json.{Json, null, bool, num, float, str, datetime, arr, obj}
use fleet_memory.Fence.Files.{get}
use fleet_memory.Embed.Response.{
  Reply, response, timed_out, broken, Values, Vector, items_list, item_vector, item_vectors,
  check_dimensions, checked_data, parse_response, read_reply, is_deterministic_client_error,
}
use fleet_memory.Embed.{
  fit, pack_batches, is_server_error, embed_result, embed_once, retried, embed_with_retry,
  embed_batches, embed,
}
use fleet_memory.Embed.Packing.{concat, pack_batches-Packed}

-- One vector of the configured size for each of so many texts.
abbrev pub Embedded : ℕ → ℕ → List Vector → Type 0
Embedded embed_dims count vectors =
    (length vectors ≡ count) × All (λ (v : Vector). length v ≡ embed_dims) vectors

module _ (values : Values) (embed_dims : ℕ) where
  length-item_vectors :
      (items : List Json) (vs : List Vector)
      → item_vectors values items ≡ ok vs
      → length vs ≡ length items
  unfolding item_vectors
  length-item_vectors [] vs h = ground (arith, h)
  length-item_vectors (item ∷ items) vs h =
      let (v, _, h1) = >>=-eq-ok (item_vector values item) _ h in
      let (rest, e, h2) = >>=-eq-ok (item_vectors values items) _ h1 in
      ground (arith, h2, length-item_vectors items rest e)

  check_dimensions-All :
      (vs : List Vector)
      → check_dimensions embed_dims vs ≡ ok tt
      → All (λ (v : Vector). length v ≡ embed_dims) vs
  unfolding check_dimensions
  check_dimensions-All [] h = tt
  check_dimensions-All (v ∷ vs) h =
      let (_, e, h1) =
        >>=-eq-ok (check (length v == embed_dims) (embed_dimension (length v) embed_dims)) _ h in
      (
        (==_iff (length v) embed_dims).0
            (check-eq-ok (length v == embed_dims) (embed_dimension (length v) embed_dims) e),
        check_dimensions-All vs h1,
      )

  checked_data-Embedded :
      (count : ℕ) (o : Option Json) (vs : List Vector)
      → checked_data values embed_dims count o ≡ ok vs
      → Embedded embed_dims count vs
  checked_data-Embedded count none vs h = absurd cc
  checked_data-Embedded count (some null) vs h = absurd cc
  checked_data-Embedded count (some (bool b)) vs h = absurd cc
  checked_data-Embedded count (some (num z)) vs h = absurd cc
  checked_data-Embedded count (some (float s)) vs h = absurd cc
  checked_data-Embedded count (some (str s)) vs h = absurd cc
  checked_data-Embedded count (some (datetime s)) vs h = absurd cc
  checked_data-Embedded count (some (obj fs)) vs h = absurd cc
  checked_data-Embedded count (some (arr items)) vs h =
      let (_, counted, h1) =
        >>=-eq-ok (check (length (items_list items) == count) (embed_service none)) _ h in
      let (found, e, h2) = >>=-eq-ok (item_vectors values (items_list items)) _ h1 in
      let (_, sized, h3) = >>=-eq-ok (check_dimensions embed_dims found) _ h2 in
      let same : found ≡ vs = cc in
      rw (sym same) (
        length-item_vectors (items_list items) found e
            ∙ (==_iff (length (items_list items)) count).0
                (check-eq-ok (length (items_list items) == count) (embed_service none) counted),
        check_dimensions-All found sized,
      )

  parse_response-Embedded :
      (count : ℕ) (body : Option Json) (vs : List Vector)
      → parse_response values embed_dims count body ≡ ok vs
      → Embedded embed_dims count vs
  unfolding parse_response
  parse_response-Embedded count (some (obj fs)) vs h =
      checked_data-Embedded count (get (codes "data") fs) vs h
  parse_response-Embedded count none vs h = absurd cc
  parse_response-Embedded count (some null) vs h = absurd cc
  parse_response-Embedded count (some (bool b)) vs h = absurd cc
  parse_response-Embedded count (some (num z)) vs h = absurd cc
  parse_response-Embedded count (some (float s)) vs h = absurd cc
  parse_response-Embedded count (some (str s)) vs h = absurd cc
  parse_response-Embedded count (some (datetime s)) vs h = absurd cc
  parse_response-Embedded count (some (arr xs)) vs h = absurd cc

  read_reply-Embedded :
      (count : ℕ) (r : Reply) (vs : List Vector)
      → read_reply values embed_dims count r ≡ ok vs
      → Embedded embed_dims count vs
  unfolding read_reply
  read_reply-Embedded count timed_out vs h = absurd cc
  read_reply-Embedded count broken vs h = absurd cc
  read_reply-Embedded count (response status body) vs h = elim (Bool-cases (status == 200)) [
    | inl good ↦ parse_response-Embedded count body vs (rw good at h)
    | inr bad ↦ elim (Bool-cases (is_deterministic_client_error status)) [
      | inl poison ↦ absurd (ground (arith, bad, poison, h))
      | inr transient ↦ absurd (ground (arith, bad, transient, h))
    ]
  ]

  module _ {S : Type 0} (post : List Text → S → Reply × S) where
    retried-Embedded :
        (texts : List Text) (r : Result (List Vector)) (s : S) (vs : List Vector) (t : S)
        → ((ws : List Vector) → r ≡ ok ws → Embedded embed_dims (length texts) ws)
        → retried post values embed_dims texts (r, s) ≡ (ok vs, t)
        → Embedded embed_dims (length texts) vs
    unfolding embed_once
    retried-Embedded texts (ok ws) s vs t first h = first vs (cc)
    retried-Embedded texts (err e) s vs t first h = elim (Bool-cases (is_server_error e)) [
      | inl again ↦
          let q = rw again at h in
          read_reply-Embedded (length texts) (post texts s).0 vs (ap (λ x. x.0) q)
      | inr final ↦ absurd (ground (arith, final, h))
    ]

    embed_batches-Embedded :
        (batches : List (List Text)) (s : S) (vs : List Vector) (t : S)
        → embed_batches post values embed_dims batches s ≡ (ok vs, t)
        → Embedded embed_dims (length (concat batches)) vs
    unfolding embed_batches embed_with_retry embed_once
    embed_batches-Embedded [] s vs t h = let e : [] ≡ vs = cc in rw (sym e) (refl, tt)
    embed_batches-Embedded (batch ∷ batches) s vs t h =
        let (first, e, h1) =
          Rules.>>=-eq-ok (embed_with_retry post values embed_dims batch) _ s vs t h in
        let s1 = (embed_with_retry post values embed_dims batch s).1 in
        let (more, e1, h2) =
          Rules.>>=-eq-ok (embed_batches post values embed_dims batches) _ s1 vs t h1 in
        let s2 = (embed_batches post values embed_dims batches s1).1 in
        let (n, sized) =
          retried-Embedded batch (embed_once post values embed_dims batch s).0
            (embed_once post values embed_dims batch s).1 first s1
            (λ ws q. read_reply-Embedded (length batch) (post batch s).0 ws q) e in
        let (n1, sized1) = embed_batches-Embedded batches s1 more s2 e1 in
        let same : first ++ more ≡ vs = cc in
        rw (sym same) (
          length-append first more ∙ omega (arith, n, n1, length-append batch (concat batches)),
          All-append (λ (v : Vector). length v ≡ embed_dims) first more sized sized1,
        )

    length-map : (budget : ℕ) (texts : List Text) → length (map (fit budget) texts) ≡ length texts
    length-map budget [] = refl
    length-map budget (t ∷ texts) = omega (arith, length-map budget texts)

    embed_result-ok :
        (r : Result (List Vector)) (s : S) (vs : List Vector) (t : S)
        → ◌≡◌ {A = Result (List Vector) × S} (embed_result r, s) (ok vs, t)
        → r ≡ ok vs
    embed_result-ok (ok ws) s vs t h = ap (λ x. x.0) h
    embed_result-ok (err e) s vs t h = absurd cc

    -- If an embedding returns, under a positive budget, it has one vector for each text, whatever the
    -- batches, the retries and the answers of the service, and each vector has the configured size.
    pub embed-Embedded :
        (budget : ℕ) (texts : List Text) (s : S) (vs : List Vector) (t : S)
        → 0 < budget
        → embed post values embed_dims budget texts s ≡ (ok vs, t)
        → Embedded embed_dims (length texts) vs
    unfolding embed
    embed-Embedded budget [] s vs t positive h = let e : [] ≡ vs = cc in rw (sym e) (refl, tt)
    embed-Embedded budget (x ∷ texts) s vs t positive h =
        let batches = pack_batches (x ∷ texts) budget in
        let done = embed_batches post values embed_dims batches s in
        let packed = pack_batches-Packed budget positive (x ∷ texts) in
        let e = embed_result-ok done.0 done.1 vs t h in
        let (n, sized) = embed_batches-Embedded batches s vs done.1 (ap (λ r. (r, done.1)) e) in
        (
          n ∙ ap (λ (l : List Text). length l) packed.contents ∙ length-map budget (x ∷ texts),
          sized,
        )
