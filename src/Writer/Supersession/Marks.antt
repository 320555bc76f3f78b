-- ===== src/Writer/Supersession/Marks.antt =====
-- What marking predecessors changes.
use mathlib.Core.Option
use mathlib.Core.Path.{subst}
use fleet_memory.Prelude.{
  ◌≡◌, refl, sym, ap, ◌∙◌, Bool, true, false, ◌||◌, List, [], ◌∷◌, Option, none, some, Text, any,
  if◌then◌else◌, Bool-cases, inl, inr,
}
use fleet_memory.Errors.{ok}
use fleet_memory.Exec.Rules.{written-eq-ok, >>=-eq-ok}
use fleet_memory.Store.Value.{Value}
use fleet_memory.Store.Api.{Address, address_eq, address_eq_iff, StoreApi, StoreLaws}
use fleet_memory.Writer.Identity.{Digests}
use fleet_memory.Writer.Supersession.{
  predecessor_address, mark, mark_existing, mark_predecessor, apply_supersessions,
}

-- One of the keys names the address.
abbrev is_at : Option Address → Address → Bool
is_at none b = false
is_at (some a) b = address_eq a b

abbrev pub is_named : Digests → List Text → Address → Bool
is_named d keys b = any (λ key. is_at (predecessor_address d key) b) keys

module _ (api : StoreApi) (laws : StoreLaws api) (d : Digests) (successor : Text) where
  mark_existing-lookup :
      (a : Address) (o : Option Value) (s t : api.State)
      → o ≡ api.lookup s a
      → mark_existing api d successor a o s ≡ (ok tt, t)
      → (b : Address)
      → api.lookup t b
        ≡ (if address_eq a b then Option.map (mark successor) (api.lookup s b) else api.lookup s b)
  unfolding mark_existing
  mark_existing-lookup a none s t e h b =
      let same : s ≡ t = cc in
      let absent : address_eq a b ≡ true → api.lookup s b ≡ none =
        λ here. ap (api.lookup s) (sym ((address_eq_iff a b).0 here)) ∙ sym e in
      rw (← same) (elim (Bool-cases (address_eq a b)) [
        | inl here ↦ rw (here, absent here) refl
        | inr other ↦ rw other refl
      ])
  mark_existing-lookup a (some v) s t e h b =
      let put = laws.aput_ok a (mark successor v) s t (written-eq-ok _ s t h) b in
      elim (Bool-cases (address_eq a b)) [
        | inl here ↦
            let found : api.lookup s b ≡ some v =
              ap (api.lookup s) (sym ((address_eq_iff a b).0 here)) ∙ sym e in
            put ∙ rw (here, found) refl
        | inr other ↦ put ∙ rw (other) refl
      ]

  -- One round marks the record at its address, if there is one, and changes no other.
  mark_predecessor-lookup :
      (o : Option Address) (s t : api.State)
      → mark_predecessor api d successor o s ≡ (ok tt, t)
      → (b : Address)
      → api.lookup t b
        ≡ (if is_at o b then Option.map (mark successor) (api.lookup s b) else api.lookup s b)
  unfolding mark_predecessor
  mark_predecessor-lookup none s t h b = cc
  mark_predecessor-lookup (some a) s t h b =
      let (existing, got, rest) =
        >>=-eq-ok (λ s. (api.aget a s, s)) (mark_existing api d successor a) s tt t h in
      mark_existing-lookup a existing s t (laws.aget_ok a s existing (ap (λ r. r.0) got)) rest b

  mark_twice :
      (here later : Bool) (o : Option Value)
      → (if later
          then Option.map (mark successor) (if here then Option.map (mark successor) o else o)
          else (if here then Option.map (mark successor) o else o))
        ≡ (if here || later then Option.map (mark successor) o else o)
  mark_twice true true none = refl
  mark_twice true true (some v) = refl
  mark_twice true false o = refl
  mark_twice false true o = refl
  mark_twice false false o = refl

  -- When it returns, the records at the addresses that the keys name are marked as superseded by
  -- the successor, and nothing else has changed.
  pub lookup-apply_supersessions :
      (keys : List Text) (s t : api.State)
      → apply_supersessions api d successor keys s ≡ (ok tt, t)
      → (b : Address)
      → api.lookup t b ≡ (
          if is_named d keys b
          then Option.map (mark successor) (api.lookup s b)
          else api.lookup s b)
  unfolding apply_supersessions
  lookup-apply_supersessions [] s t h b = cc
  lookup-apply_supersessions (key ∷ keys) s t h b =
      let step = mark_predecessor api d successor (predecessor_address d key) in
      let (done, first, rest) =
        >>=-eq-ok step (λ _. apply_supersessions api d successor keys) s tt t h in
      let later = lookup-apply_supersessions keys (step s).1 t rest b in
      let now = mark_predecessor-lookup (predecessor_address d key) s (step s).1 first b in
      subst (λ o. api.lookup t b ≡ (if is_named d keys b then Option.map (mark successor) o else o))
        now later
      ∙ mark_twice (is_at (predecessor_address d key) b) (is_named d keys b) (api.lookup s b)
