-- ===== src/Relay/Handler/Steps.antt =====
-- What one delivery does, by its disposition.
use fleet_memory.Prelude.{
  not_leb→lt, ℕ, ◌<◌, ◌≡◌, refl, ap, ◌∙◌, inl, inr, Bool, true, false, [], ◌∷◌, ◌++◌, Option, Text,
  leb, Bool-cases,
}
use mathlib.Core.Path.{subst}
use fleet_memory.Errors.{Error, Result, ok, err, poison_episode}
use fleet_memory.Relay.Schema.{MemoryEpisodeV1}
use fleet_memory.Relay.Handler.{
  Progress, DeadLetter, Disposition, ack, nack, reject, raised, World, delivery_count,
  record_progress, published, park, route_transient, dispatch, handle_memory_episode,
}

pub letters-record_progress :
    {S : Type 0} (b : Bool) (p : Progress) (w : World S)
    → (record_progress b p w).letters ≡ w.letters
letters-record_progress true p w = refl
letters-record_progress false p w = refl

module _ {S : Type 0} (marker : Bool) (publish : DeadLetter → Result (Unit {0}))
    (dlq_subject : Text) (max_deliver : ℕ) (ingest : MemoryEpisodeV1 → S → Result (Unit {0}) × S)
    (episode : MemoryEpisodeV1) where
  abbrev pub handle : Option ℕ → World S → Disposition × World S
  handle = handle_memory_episode marker publish dlq_subject max_deliver ingest episode

  -- What the handler does, by the case that it takes.
  pub data Handled (m : Option ℕ) (w : World S) : Disposition × World S → Type 0 where
    done : {v : World S} → v.letters ≡ w.letters → Handled m w (ack, v)
    sent :
        {v : World S} (l : DeadLetter)
        → l.episode_id ≡ episode.episode_id
        → v.letters ≡ w.letters ++ (l ∷ [])
        → Handled m w (reject, v)
    unsent :
        {v : World S} (l : DeadLetter) (e : Error)
        → publish l ≡ err e
        → v.letters ≡ w.letters
        → Handled m w (raised e, v)
    later :
        {v : World S}
        → delivery_count m < max_deliver
        → v.letters ≡ w.letters
        → Handled m w (nack, v)

  park-Handled :
      (m : Option ℕ) (w u : World S) (l : DeadLetter)
      → u.letters ≡ w.letters
      → l.episode_id ≡ episode.episode_id
      → Handled m w (park marker publish l u)
  park-Handled m w u l same own = go marker (publish l) refl
    where
      go :
          (b : Bool) (r : Result (Unit {0}))
          → publish l ≡ r
          → Handled m w (published b publish l r u)
      go true (ok x) e = sent l own (ap (λ ls. ls ++ (l ∷ [])) same)
      go false (ok x) e = sent l own (ap (λ ls. ls ++ (l ∷ [])) same)
      go b (err raised_error) e = unsent l raised_error e same

  route_transient-Handled :
      (m : Option ℕ) (mode : Text) (w u : World S)
      → u.letters ≡ w.letters
      → Handled m w (route_transient marker publish dlq_subject max_deliver episode m mode u)
  unfolding route_transient
  route_transient-Handled m mode w u same = elim (Bool-cases (leb max_deliver (delivery_count m))) [
    | inl last ↦ rw last (park-Handled m w u _ same refl)
    | inr more ↦ rw more (
        later (not_leb→lt max_deliver (delivery_count m) more)
          (letters-record_progress marker _ u ∙ same))
  ]

  dispatch-Handled :
      (m : Option ℕ) (r : Result (Unit {0})) (w u : World S)
      → u.letters ≡ w.letters
      → Handled m w (dispatch marker publish dlq_subject max_deliver episode m r u)
  unfolding dispatch
  dispatch-Handled m (ok x) w u same = done (letters-record_progress marker _ u ∙ same)
  dispatch-Handled m (err (poison_episode reason)) w u same = park-Handled m w u _ same refl
  dispatch-Handled m (err _) w u same = route_transient-Handled m _ w u same

  handle-Handled : (m : Option ℕ) (w : World S) → Handled m w (handle m w)
  unfolding handle_memory_episode
  handle-Handled m w = dispatch-Handled m (ingest episode w.store).0 w _ refl

  pub handled_as :
      (m : Option ℕ) (w : World S) (p : Disposition × World S) → handle m w ≡ p → Handled m w p
  handled_as m w p e = subst (Handled m w) e (handle-Handled m w)

  pub nack_before_last :
      (m : Option ℕ) (w v : World S)
      → Handled m w (nack, v)
      → (delivery_count m < max_deliver) × (v.letters ≡ w.letters)
  nack_before_last m w v (later before same) = (before, same)

  pub raised_unsent :
      (m : Option ℕ) (w v : World S) (e : Error)
      → Handled m w (raised e, v)
      → ((l : DeadLetter) × (publish l ≡ err e)) × (v.letters ≡ w.letters)
  raised_unsent m w v e (unsent l x failed same) = ((l, failed), same)

  pub reject_sent :
      (m : Option ℕ) (w v : World S)
      → Handled m w (reject, v)
      → (l : DeadLetter) × (l.episode_id ≡ episode.episode_id) × (v.letters ≡ w.letters ++ (l ∷ []))
  reject_sent m w v (sent l own same) = (l, own, same)
