-- ===== src/Relay/Handler/Tests.antt =====
-- Runs of the theorems on deliveries, for a service that always fails.
use fleet_memory.Relay.Tests.{disk_episode}
use fleet_memory.Prelude.{◌≡◌, refl, ◌⊎◌, true, [], ◌∷◌, ◌++◌, none, some, codes, arith}
use fleet_memory.Errors.{Result, ok, err, transient_ingest}
use fleet_memory.Relay.Schema.{MemoryEpisodeV1}
use fleet_memory.Relay.Handler.{DeadLetter, World, handle_memory_episode, dispatch, route_transient}
use fleet_memory.Relay.Handler.Steps.{handle}
use fleet_memory.Relay.Handler.Delivery.{
  Ending, committed, parked, lost, Deliveries, rejected, Deliveries-not_lost, Deliveries-parked,
  Deliveries-settle, Deliveries-unread_lost,
}

-- A service that has no store and fails as transient.
abbrev failing : MemoryEpisodeV1 → Unit {0} → Result (Unit {0}) × Unit {0}
failing e s = (err transient_ingest, s)

abbrev sent : DeadLetter → Result (Unit {0})
sent l = ok tt

abbrev fresh : World (Unit {0})
fresh = record { store = tt; letters = []; progress = [] }

abbrev exhausted : World (Unit {0})
exhausted = (handle true sent (codes "memory.dlq") 1 failing disk_episode (some 1) fresh).1

exhausted_parked :
    Deliveries true sent (codes "memory.dlq") 1 failing disk_episode some 1 fresh parked exhausted
unfolding handle_memory_episode dispatch route_transient
exhausted_parked = rejected refl

Deliveries-not_lost_example :
    ¬ Deliveries true sent (codes "memory.dlq") 3 failing disk_episode some 1 fresh lost fresh
Deliveries-not_lost_example =
    Deliveries-not_lost true sent (codes "memory.dlq") 3 failing disk_episode some (λ n. refl)
      (λ l. refl) 1 fresh fresh

Deliveries-parked_example :
    (l : DeadLetter) × (l.episode_id ≡ disk_episode.episode_id)
    × (exhausted.letters ≡ [] ++ (l ∷ []))
Deliveries-parked_example =
    Deliveries-parked true sent (codes "memory.dlq") 1 failing disk_episode some 1 fresh exhausted
      exhausted_parked

Deliveries-settle_example :
    (o : Ending) × (v : World (Unit {0})) × Deliveries true sent
      (codes "memory.dlq")
      3
      failing
      disk_episode
      some
      1
      fresh
      o
      v
    × ((o ≡ committed) ⊎ (o ≡ parked))
Deliveries-settle_example =
    Deliveries-settle true sent (codes "memory.dlq") 3 failing disk_episode some (λ n. refl)
      (λ l. refl) fresh

Deliveries-unread_lost_example :
    (v : World (Unit {0})) × Deliveries true sent
      (codes "memory.dlq")
      3
      failing
      disk_episode
      (λ n. none)
      1
      fresh
      lost
      v
    × (v.letters ≡ [])
Deliveries-unread_lost_example =
    Deliveries-unread_lost true sent (codes "memory.dlq") 3 failing disk_episode (omega arith)
      (λ s. refl) fresh
