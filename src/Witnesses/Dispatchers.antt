-- ===== src/Witnesses/Dispatchers.antt =====
-- Dispatchers at work together at a concrete store.
use hot_potato.Prelude.{◌≡◌, ◌≢◌, ◌⊎◌, refl, true, [], ◌∷◌, All, lookup, insert, any}
use hot_potato.Error.{ok}
use hot_potato.Memory.Backend.{memory_backend}
use hot_potato.Memory.Defs.{MemoryStore, mark_pushing, mark_push_failed, with_letter, update_first}
use hot_potato.Memory.Held.{IsHeld}
use hot_potato.Memory.Letter.{claim_letter, push_failed_letter, apply_event}
use hot_potato.Memory.Runs.{poll, perform}
use hot_potato.Memory.Unique.{IsUnique}
use hot_potato.State.{apply}
use hot_potato.Sweeper.{sweep_letter}
use hot_potato.Sweeper.Traffic.{
  Flight, settle_call, Traffic, at_work, claim, call, Reach, start, next, Apart,
}
use hot_potato.Sweeper.Exclusion.{Reach-Apart}
use hot_potato.Sweeper.Claims.{push_of, sweep_letter-Reach}
use hot_potato.Witnesses.Fixtures.{store, waiting, counting, registry, post}

-- A first dispatcher has the waiting letter, and its receiver polls meanwhile.
abbrev claimed : MemoryStore
claimed = (mark_pushing "bob" "m-1" 200 store).1

abbrev flight : Flight
flight = ("bob", "m-1")

claim_wins : (mark_pushing "bob" "m-1" 200 store).0 ≡ ok true
unfolding mark_pushing with_letter update_first claim_letter apply lookup
claim_wins = refl

claimed-Reach : Reach store (at_work claimed (flight ∷ []))
claimed-Reach = next start (claim "bob" "m-1" 200 claim_wins)

abbrev polled : Traffic
polled = at_work (perform (poll "bob" 10 201) claimed) (flight ∷ [])

polled-Reach : Reach store polled
polled-Reach = next claimed-Reach (call (poll "bob" 10 201) tt (tt, tt))

store-IsUnique : IsUnique store
unfolding any
store-IsUnique = ((refl, (refl, tt)), tt)

Reach-Apart_example :
    Apart polled.flights
    × All (λ f. IsHeld f.0 f.1 polled.store) polled.flights
    × IsUnique polled.store
Reach-Apart_example = Reach-Apart store-IsUnique polled-Reach

-- A dispatcher that reports a failure without a claim puts the letter back, and a second claim wins.
second_claim_wins :
    (mark_pushing "bob" "m-1" 202 (mark_push_failed "bob" "m-1" "refused" 201 claimed).1).0
    ≡ ok true
unfolding mark_pushing mark_push_failed with_letter update_first claim_letter push_failed_letter
    apply_event apply lookup insert
second_claim_wins = refl

sweep_letter-Reach_example :
    let won = mark_pushing "bob" "m-1" 300 store in
    let sent = push_of counting registry (waiting ∷ []) waiting post in
    let out = sweep_letter memory_backend counting registry (waiting ∷ []) 300 waiting post in
    Reach store (at_work out.0.bus.store [])
    × (((won.0 ≡ ok true)
          × (out.0.bus.store ≡ perform (settle_call flight 300 sent.0) won.1)
          × (out.0.world ≡ sent.1))
        ⊎ ((won.0 ≢ ok true)
            × (out.0.bus.store ≡ won.1)
            × (out.0.world ≡ post.world)
            × (out.0.events ≡ post.events)
            × (out.1 ≡ 0)))
sweep_letter-Reach_example =
    sweep_letter-Reach counting registry (waiting ∷ []) 300 waiting post [] start
