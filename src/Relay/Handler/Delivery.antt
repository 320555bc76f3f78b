-- ===== src/Relay/Handler/Delivery.antt =====
-- The deliveries of one message: the stream delivers it again after a nak, and after a delivery
-- that ended in another exception, at most `max_deliver` times in all.
use fleet_memory.Prelude.{
  not_leb→lt, ℕ, zero, suc, ◌+◌, ◌<◌, ◌≤◌, ◌≡◌, ◌≢◌, refl, ap, ◌∙◌, ◌⊎◌, inl, inr, Bool, false, [],
  ◌∷◌, ◌++◌, Option, none, some, Text, codes, leb, leb→le, Bool-cases, arith,
}
use fleet_memory.Errors.{Error, Result, ok, err, transient_ingest}
use fleet_memory.Relay.Schema.{MemoryEpisodeV1}
use fleet_memory.Relay.Handler.Steps.{
  letters-record_progress, handle, handled_as, nack_before_last, raised_unsent, reject_sent,
}
use fleet_memory.Relay.Handler.{
  DeadLetter, Disposition, ack, nack, reject, raised, World, delivery_count, record_progress,
  message_recorded, route_transient, dispatch, handle_memory_episode,
}

-- How the deliveries of a message end; a lost message is delivered no more, and nowhere recorded.
pub data Ending : Type 0 where
  committed parked lost : Ending

module _ {S : Type 0} (marker : Bool) (publish : DeadLetter → Result (Unit {0}))
    (dlq_subject : Text) (max_deliver : ℕ) (ingest : MemoryEpisodeV1 → S → Result (Unit {0}) × S)
    (episode : MemoryEpisodeV1) where
  -- The deliveries from the `n`-th on; the store may change between two of them.
  pub data Deliveries (metadata : ℕ → Option ℕ) : ℕ → World S → Ending → World S → Type 0 where
    acked :
        {n : ℕ} {w v : World S}
        → handle marker publish dlq_subject max_deliver ingest episode (metadata n) w ≡ (ack, v)
        → Deliveries metadata n w committed v
    rejected :
        {n : ℕ} {w v : World S}
        → handle marker publish dlq_subject max_deliver ingest episode (metadata n) w ≡ (reject, v)
        → Deliveries metadata n w parked v
    again :
        {n : ℕ} {w v u : World S} {o : Ending} (s : S)
        → ((handle marker publish dlq_subject max_deliver ingest episode (metadata n) w ≡ (nack, v))
            ⊎ ((e : Error) × (handle marker publish dlq_subject max_deliver ingest episode
                    (metadata n)
                    w
                  ≡ (raised e, v))))
        → n < max_deliver
        → Deliveries metadata (suc n) (record v { store = s }) o u
        → Deliveries metadata n w o u
    dropped :
        {n : ℕ} {w v : World S}
        → ((handle marker publish dlq_subject max_deliver ingest episode (metadata n) w ≡ (nack, v))
            ⊎ ((e : Error) × (handle marker publish dlq_subject max_deliver ingest episode
                    (metadata n)
                    w
                  ≡ (raised e, v))))
        → max_deliver ≤ n
        → Deliveries metadata n w lost v

  -- Where the stream tells the number of each delivery and dead letters can be published, no
  -- message is lost, however its ingestions end and whatever else changes the store.
  pub Deliveries-not_lost :
      (metadata : ℕ → Option ℕ)
      → ((n : ℕ) → metadata n ≡ some n)
      → ((l : DeadLetter) → publish l ≡ ok tt)
      → (n : ℕ) (w v : World S) → ¬ Deliveries metadata n w lost v
  Deliveries-not_lost metadata counted sends n w v run = never n w v lost run refl
    where
      never : (n : ℕ) (w v : World S) (o : Ending) → Deliveries metadata n w o v → o ≢ lost
      never n w v o (acked h) = λ e. cc
      never n w v o (rejected h) = λ e. cc
      never n w v o (again s h before run) = never (suc n) _ v o run
      never n w v o (dropped (inl h) last) = λ e.
          let (before, _) =
            nack_before_last marker publish dlq_subject max_deliver ingest episode (metadata n) w v
              (handled_as marker publish dlq_subject max_deliver ingest episode (metadata n) w _
                h) in
          absurd (omega (arith, last, before, ap delivery_count (counted n)))
      never n w v o (dropped (inr (x, h)) last) = λ e.
          let ((l, failed), _) =
            raised_unsent marker publish dlq_subject max_deliver ingest episode (metadata n) w v x (
              handled_as marker publish dlq_subject max_deliver ingest episode (metadata n) w _
                h) in
          absurd (cc (failed, sends l))

  -- A message that ends as parked has one dead letter more than before, which is its own.
  pub Deliveries-parked :
      (metadata : ℕ → Option ℕ) (n : ℕ) (w v : World S)
      → Deliveries metadata n w parked v
      → (l : DeadLetter) × (l.episode_id ≡ episode.episode_id) × (v.letters ≡ w.letters ++ (l ∷ []))
  Deliveries-parked metadata n w v run = sent_once n w v parked run refl
    where
      sent_once :
          (n : ℕ) (w v : World S) (o : Ending)
          → Deliveries metadata n w o v
          → o ≡ parked
          → (l : DeadLetter) × (l.episode_id ≡ episode.episode_id)
            × (v.letters ≡ w.letters ++ (l ∷ []))
      sent_once n w v o (acked h) e = absurd cc
      sent_once n w v o (rejected h) e =
          reject_sent marker publish dlq_subject max_deliver ingest episode (metadata n) w v
            (handled_as marker publish dlq_subject max_deliver ingest episode (metadata n) w _ h)
      sent_once n w v o (again {v = u} s (inl h) before run) e =
          let (_, same) =
            nack_before_last marker publish dlq_subject max_deliver ingest episode (metadata n) w u
              (handled_as marker publish dlq_subject max_deliver ingest episode (metadata n) w _
                h) in
          let (l, own, added) = sent_once (suc n) _ v o run e in
          (l, own, added ∙ ap (λ ls. ls ++ (l ∷ [])) same)
      sent_once n w v o (again {v = u} s (inr (x, h)) before run) e =
          let (_, same) =
            raised_unsent marker publish dlq_subject max_deliver ingest episode (metadata n) w u x (
              handled_as marker publish dlq_subject max_deliver ingest episode (metadata n) w _
                h) in
          let (l, own, added) = sent_once (suc n) _ v o run e in
          (l, own, added ∙ ap (λ ls. ls ++ (l ∷ [])) same)
      sent_once n w v o (dropped h last) e = absurd cc

  transient_nacked :
      (m : Option ℕ) (w : World S)
      → delivery_count m < max_deliver
      → (ingest episode w.store).0 ≡ err transient_ingest
      → (v : World S) × (handle marker publish dlq_subject max_deliver ingest episode m w
          ≡ (nack, v))
        × (v.letters ≡ w.letters)
  unfolding handle_memory_episode dispatch route_transient
  transient_nacked m w before failing =
      let early : leb max_deliver (delivery_count m) ≡ false = ground arith in
      let u : World S = record w { store = (ingest episode w.store).1 } in
      (
        record_progress marker (message_recorded (codes "nak")) u,
        rw (failing, early) refl,
        letters-record_progress marker (message_recorded (codes "nak")) u,
      )

  -- Where the metadata of no delivery can be read, a message that keeps failing as transient is
  -- delivered `max_deliver` times and then lost, with no dead letter.
  pub Deliveries-unread_lost :
      0 < max_deliver
      → ((s : S) → (ingest episode s).0 ≡ err transient_ingest)
      → (w : World S) → (v : World S) × Deliveries (λ n. none) 1 w lost v × (v.letters ≡ w.letters)
  Deliveries-unread_lost positive failing w = from max_deliver 1 w (omega arith)
    where
      from :
          (k n : ℕ) (w : World S)
          → max_deliver < k + n
          → (v : World S) × Deliveries (λ n. none) n w lost v × (v.letters ≡ w.letters)
      from zero n w past =
          let (v, nacked, same) = transient_nacked none w positive (failing w.store) in
          (v, dropped (inl nacked) (omega (arith, past)), same)
      from (suc k) n w past = elim (Bool-cases (leb max_deliver n)) [
        | inl last ↦
            let (v, nacked, same) = transient_nacked none w positive (failing w.store) in
            (v, dropped (inl nacked) (leb→le max_deliver n last), same)
        | inr more ↦
            let (v, nacked, same) = transient_nacked none w positive (failing w.store) in
            let (u, run, rest) = from k (suc n) v (omega arith) in
            (u, again v.store (inl nacked) (not_leb→lt max_deliver n more) run, rest ∙ same)
      ]

  settle :
      (metadata : ℕ → Option ℕ) (n : ℕ) (w : World S)
      → ((v : World S)
          → n < max_deliver
          → (o : Ending) × (u : World S) × Deliveries metadata (suc n) v o u)
      → (p : Disposition × World S)
      → handle marker publish dlq_subject max_deliver ingest episode (metadata n) w ≡ p
      → (o : Ending) × (v : World S) × Deliveries metadata n w o v
  settle metadata n w next (ack, v) h = (committed, v, acked h)
  settle metadata n w next (reject, v) h = (parked, v, rejected h)
  settle metadata n w next (nack, v) h = elim (Bool-cases (leb max_deliver n)) [
    | inl last ↦ (lost, v, dropped (inl h) (leb→le max_deliver n last))
    | inr more ↦
        let (o, u, run) = next v (not_leb→lt max_deliver n more) in
        (o, u, again v.store (inl h) (not_leb→lt max_deliver n more) run)
  ]
  settle metadata n w next (raised x, v) h = elim (Bool-cases (leb max_deliver n)) [
    | inl last ↦ (lost, v, dropped (inr (x, h)) (leb→le max_deliver n last))
    | inr more ↦
        let (o, u, run) = next v (not_leb→lt max_deliver n more) in
        (o, u, again v.store (inr (x, h)) (not_leb→lt max_deliver n more) run)
  ]

  Deliveries-end :
      (metadata : ℕ → Option ℕ) (k n : ℕ) (w : World S)
      → max_deliver ≤ k + n
      → (o : Ending) × (v : World S) × Deliveries metadata n w o v
  Deliveries-end metadata zero n w near =
      settle metadata n w (λ v before. absurd (omega (arith, near, before)))
        (handle marker publish dlq_subject max_deliver ingest episode (metadata n) w) refl
  Deliveries-end metadata (suc k) n w near =
      settle metadata n w (λ v before. Deliveries-end metadata k (suc n) v (omega (arith, near)))
        (handle marker publish dlq_subject max_deliver ingest episode (metadata n) w) refl

  not_lost : (o : Ending) (P : Ending → Type 0) → P o → ¬ P lost → (o ≡ committed) ⊎ (o ≡ parked)
  not_lost committed P p never = inl refl
  not_lost parked P p never = inr refl
  not_lost lost P p never = absurd (never p)

  -- Where the stream tells the number of each delivery and dead letters can be published, every
  -- message is settled, and not lost: some sequence of deliveries ends with it committed or parked.
  pub Deliveries-settle :
      (metadata : ℕ → Option ℕ)
      → ((n : ℕ) → metadata n ≡ some n)
      → ((l : DeadLetter) → publish l ≡ ok tt)
      → (w : World S)
      → (o : Ending) × (v : World S) × Deliveries metadata 1 w o v
        × ((o ≡ committed) ⊎ (o ≡ parked))
  Deliveries-settle metadata counted sends w =
      let (o, v, run) = Deliveries-end metadata max_deliver 1 w (omega arith) in
      (
        o,
        v,
        run,
        not_lost o (λ o. Deliveries metadata 1 w o v) run
            (Deliveries-not_lost metadata counted sends 1 w v),
      )
