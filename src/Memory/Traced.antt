-- ===== src/Memory/Traced.antt =====
-- The store refines the state machine: each letter has lived through the calls.
use mathlib.Core.List.{reverse, reverse_aux}
use hot_potato.Prelude.{◌≡◌, refl, inl, inr, String, List, [], ◌∷◌, All-map, Assoc}
use hot_potato.Message.{Message}
use hot_potato.Memory.Defs.{MemoryStore}
use hot_potato.Memory.Lifting.{IsFine, AllBoxes, Holds}
use hot_potato.Memory.Lives.{Lived, Change-Moved, Moved-Lived}
use hot_potato.Memory.Runs.{Call, push, perform, run, PushesSatisfy, perform-Holds}

AllBoxes-map :
    (Q R : String → List Message → Type 0) (boxes : Assoc (List Message))
    → ((k : String) (box : List Message) → Q k box → R k box)
    → AllBoxes Q boxes
    → AllBoxes R boxes
AllBoxes-map Q R [] f h = tt
AllBoxes-map Q R ((k, box) ∷ rest) f h = (f k box h.0, AllBoxes-map Q R rest f h.1)

Holds-map :
    (P Q : String → Message → Type 0) (s : MemoryStore)
    → ((k : String) (m : Message) → P k m → Q k m)
    → Holds P s
    → Holds Q s
Holds-map P Q s f h =
    AllBoxes-map (IsFine P s.capacity) (IsFine Q s.capacity) s.mailboxes
      (λ k box fine. (All-map (P k) (Q k) box (f k) fine.0, fine.1)) h

-- The lives of the letters of the mailbox `k`.
abbrev pub Life : (String → Message → Type 0) → List Call → String → Message → Type 0
Life Start past k = Lived (Start k) (λ agent. agent ≡ k) past

posted :
    (Start : String → Message → Type 0) (c : Call) (past : List Call)
    → PushesSatisfy (Life Start (c ∷ past)) (c ∷ [])
posted Start (push msg) past = (inr (inl (refl, refl)), tt)
posted Start c past = tt

run_after :
    (Start : String → Message → Type 0) (cs past : List Call) (s : MemoryStore)
    → Holds (Life Start past) s
    → Holds (Life Start (reverse_aux cs past)) (run cs s)
unfolding run
run_after Start [] past s h = h
run_after Start (c ∷ cs) past s h =
    let now = Life Start (c ∷ past) in
    run_after Start cs (c ∷ past) (perform c s) (
      perform-Holds now c s
        (λ k m m' ch e.
          Moved-Lived (Start k) (λ a. a ≡ k) c past (Change-Moved (λ a. a ≡ k) c ch e))
        (posted Start c past) (Holds-map (Life Start past) now s (λ k m lived. inl lived) h))

-- After any calls, each letter of a mailbox was there at the start, as a letter of which `Start`
-- holds, or one of the calls has pushed it there. And each later call has left it alone, or was a
-- call on that mailbox (and on the id of the letter, but for a poll and a revival) that moved it,
-- once: the status is where the state machine takes the status before on the event of that call;
-- the attempts have gone up by one if a push has started, are 0 after a revival, and are else the
-- same, as is the envelope. The event of a failed push is `give_up` once there are eight attempts,
-- unless it is a credential error.
pub run-Lived :
    (Start : String → Message → Type 0) (cs : List Call) (s : MemoryStore)
    → Holds Start s
    → Holds (λ k. Lived (Start k) (λ agent. agent ≡ k) (reverse cs)) (run cs s)
run-Lived Start cs s h = run_after Start cs [] s h
