-- ===== src/Witnesses/Histories.antt =====
-- Histories of the in-memory store at a concrete store.
use mathlib.Core.List.{reverse}
use hot_potato.Prelude.{◌≡◌, ◌⊎◌, inl, inr, String, refl, true, List, [], ◌∷◌, any, arith, lookup}
use hot_potato.Message.{Message}
use hot_potato.Memory.Changes.{WellStamped}
use hot_potato.Memory.Defs.{new_store, with_capacity}
use hot_potato.Memory.Lifting.{Holds}
use hot_potato.Memory.Runs.{Call, push, poll, mark_pushing, mark_push_failed, ack, register, run}
use hot_potato.Memory.Sound.{IsSound, run-IsSound, IsFiled, run-IsFiled}
use hot_potato.Memory.Lives.{Lived}
use hot_potato.Memory.Traced.{run-Lived}
use hot_potato.Memory.NoLoss.{has_letter, run-has_letter}
use hot_potato.Witnesses.Fixtures.{store, waiting, done, store-IsFiled}

waiting-WellStamped : WellStamped waiting
waiting-WellStamped = ground arith

waiting-IsSound : IsSound "bob" waiting
waiting-IsSound = record { stamped = waiting-WellStamped; in_place = refl }

abbrev day : List Call
day =
    register "bob"
    ∷ push waiting
    ∷ mark_pushing "bob" "m-1" 200
    ∷ mark_push_failed "bob" "m-1" "HTTP 500" 201
    ∷ poll "bob" 1 300
    ∷ ack "bob" "m-1" "done" 400
    ∷ []

run-IsSound_example : Holds IsSound (run day new_store)
unfolding new_store with_capacity
run-IsSound_example = run-IsSound day new_store (waiting-IsSound, tt) tt

abbrev evening : List Call
evening = mark_pushing "bob" "m-1" 200 ∷ ack "bob" "m-2" "again" 300 ∷ poll "bob" 1 400 ∷ []

run-IsFiled_example : Holds (IsFiled done) (run evening store)
run-IsFiled_example = run-IsFiled done evening store tt store-IsFiled

run-has_letter_example : has_letter "bob" "m-1" (run evening store) ≡ true
unfolding any lookup
run-has_letter_example = run-has_letter "bob" "m-1" evening store refl refl

-- The two letters of the store.
abbrev Stored : String → Message → Type 0
Stored k m = (k ≡ "bob") × ((m ≡ done) ⊎ (m ≡ waiting))

run-Lived_example :
    Holds (λ k. Lived (Stored k) (λ agent. agent ≡ k) (reverse evening)) (run evening store)
run-Lived_example =
    run-Lived Stored evening store ((((refl, inl refl), ((refl, inr refl), tt)), omega arith), tt)
