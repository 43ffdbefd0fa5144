-- ===== src/Sled/Traced.antt =====
-- The store on disk refines the state machine: each letter has lived through the calls, and stands
-- under its own key.
use Prim.Native.String.{◌++◌ as str_append}
use mathlib.Core.List.{reverse, reverse_aux}
use text.Mathlib.TextLemmas.{append_assoc}
use text.Mathlib.TextPositions.{starts_with-append}
use text.Mathlib.Text.{starts_with}
use hot_potato.Prelude.{◌≡◌, ◌∙◌, refl, subst, inl, inr, String, true, List, [], ◌∷◌, All-map}
use hot_potato.Message.{Message}
use hot_potato.Memory.Lives.{Lived, Moved-Lived}
use hot_potato.Memory.Runs.{Call, push, PushesSatisfy}
use hot_potato.Sled.Tree.{Sled, SledStore, key}
use hot_potato.Sled.Laws.{IsReliable}
use hot_potato.Sled.Keeps.{IsGood, HoldsOn}
use hot_potato.Sled.Steps.{InBox}
use hot_potato.Sled.Runs.{perform, run, BoxesOf, key-SameEnvelope, perform-HoldsOn}

-- The letter stands under its own key, and has lived through the calls, the latest first, where a
-- call is on its mailbox if a scan for the agent finds the key.
pub record IsPlaced (Start : Message → Type 0) (past : List Call) (k : String) (m : Message)
    : Type 0 where
  pub placed : k ≡ key m.receiver m
  pub life : Lived Start (BoxesOf k) past m

key-InBox : (m : Message) → InBox m.receiver (key m.receiver m)
unfolding key
key-InBox m =
    let own = str_append m.receiver "::" in
    subst (λ k. starts_with k own ≡ true) (append_assoc m.receiver "::" _)
      (starts_with-append own _)

posted :
    (Start : Message → Type 0) (c : Call) (past : List Call)
    → PushesSatisfy (λ r m. IsPlaced Start (c ∷ past) (key r m) m) (c ∷ [])
posted Start (push msg) past =
    (record { placed = refl; life = inr (inl (key-InBox msg, refl)) }, tt)
posted Start c past = tt

module _ (S : Sled) (L : IsReliable S) (Start : Message → Type 0) where
  run_after :
      (cs past : List Call) (s : SledStore S)
      → HoldsOn S L (IsPlaced Start past) s.db
      → HoldsOn S L (IsPlaced Start (reverse_aux cs past)) (run S cs s).db
  unfolding run
  run_after [] past s h = h
  run_after (c ∷ cs) past s h =
      let now = IsPlaced Start (c ∷ past) in
      run_after cs (c ∷ past) (perform S c s) (
        perform-HoldsOn S L now (λ k m p. p.placed) c s
          (λ k m m' moved p. record {
            placed = p.placed ∙ key-SameEnvelope moved.envelope;
            life = Moved-Lived Start (BoxesOf k) c past moved p.life;
          })
          (posted Start c past)
          (All-map (IsGood S L (IsPlaced Start past)) (IsGood S L now) (L.entries s.db)
            (λ e good m read.
              let p = good m read in record { placed = p.placed; life = inl p.life })
            h))

-- After any calls, each of which may fail, on a store on disk, each letter stands under its own key,
-- and was there at the start, as a letter of which `Start` holds, or one of the calls has pushed
-- it. And each later call has left it alone, or moved it once: a call for an agent whose scan finds
-- the key, and on the id of the letter, but for a poll and a revival. Status and attempts are then
-- those to which the state machine takes them on the event of that call, and the envelope is the
-- same. The database is taken to do what its documentation says.
pub run-IsPlaced :
    (S : Sled) (L : IsReliable S) (Start : Message → Type 0) (cs : List Call) (s : SledStore S)
    → HoldsOn S L (IsPlaced Start []) s.db
    → HoldsOn S L (IsPlaced Start (reverse cs)) (run S cs s).db
run-IsPlaced S L Start cs s h = run_after S L Start cs [] s h
