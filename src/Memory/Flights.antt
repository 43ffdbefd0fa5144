-- ===== src/Memory/Flights.antt =====
-- A letter that a dispatcher has claimed is left alone by every call but the few that put letters
-- back into the queue.
use hot_potato.Prelude.{
  eq_refl, ◌≡◌, ◌≢◌, refl, sym, ◌∙◌, subst, inl, inr, String, Bool, true, false, some, List, [],
  ◌∷◌, arith, eq_iff, Bool-cases, Option-cases, All, str_eq, lookup, any,
}
use hot_potato.Error.{BusResult, ok, err≢ok}
use hot_potato.Message.{Message, Time}
use hot_potato.Memory.Letter.{claim_letter}
use hot_potato.Memory.Changes.{
  Change, Change-SameEnvelope, deliver, claim, succeed, fail, reclaim, bury, open_letter, file,
}
use hot_potato.Memory.Defs
use hot_potato.Memory.Defs.{
  MemoryStore, push, poll, poll_loop, update_first, with_letter, revive_loop, revive_auth_dead,
  delete_loop, delete_one, remove_first, clear_boxes, delete_all, register, unregister,
  mark_pushing, put_box,
}
use hot_potato.Memory.Distinct.{holds, IsDistinct}
use hot_potato.Memory.Unique.{IsUnique, DistinctBox}
use hot_potato.Memory.Lifting.{AllBoxes-lookup}
use hot_potato.Memory.Single.{has_id}
use hot_potato.Memory.Runs
use hot_potato.Memory.Runs.{Call, perform}
use hot_potato.Memory.Held.{
  Held, IsHeld, box_of-put_box, found_box, held_change, deliver-IsCalm, claim-IsCalm,
  push_ok-IsCalm, read-IsCalm, ack-IsCalm, claim_won, claim_calm_lost, with_letter-IsHeld,
  push-IsHeld, poll-IsHeld, revive_auth_dead-IsHeld, register-IsHeld, cleared, delete_one-IsHeld,
}

-- The calls that may put a letter into the queue or bury it are not on this letter.
abbrev pub Spares : String → String → Call → Type 0
Spares a i (Runs.push msg) = msg.receiver ≡ a → msg.id ≢ i
Spares a i (Runs.mark_push_failed agent id reason now) = agent ≡ a → id ≢ i
Spares a i (Runs.reclaim_stale_pushing agent id reason now) = agent ≡ a → id ≢ i
Spares a i (Runs.mark_dead agent id reason now) = agent ≡ a → id ≢ i
Spares a i c = Unit

-- A change of another letter.
held_other :
    (a i agent id : String) (m m' : Message)
    → (agent ≡ a → id ≢ i)
    → Change m m'
    → agent ≡ a
    → str_eq m.id id ≡ true
    → Held i m
    → Held i m'
held_other a i agent id m m' other c same found h own =
    absurd (other same (sym ((eq_iff m.id id).0 found) ∙ sym (Change-SameEnvelope c).id ∙ own))

pub perform-IsHeld :
    (a i : String) (c : Call) (s : MemoryStore)
    → Spares a i c
    → IsHeld a i s
    → IsHeld a i (perform c s)
unfolding perform Defs.mark_delivered Defs.mark_pushing Defs.mark_push_ok Defs.mark_push_failed
    Defs.reclaim_stale_pushing Defs.mark_dead Defs.mark_read Defs.ack unregister delete_all
perform-IsHeld a i (Runs.push msg) s p h = push-IsHeld a i s msg p h
perform-IsHeld a i (Runs.poll agent limit now) s p h = poll-IsHeld a i s agent limit now h
perform-IsHeld a i (Runs.mark_delivered agent id now) s p h =
    with_letter-IsHeld a i agent id _ s
      (λ m same t. held_change i m _ (deliver now refl) (deliver-IsCalm now m)) h
perform-IsHeld a i (Runs.mark_pushing agent id now) s p h =
    with_letter-IsHeld a i agent id _ s
      (λ m same t. held_change i m _ (claim now refl) (claim-IsCalm now m)) h
perform-IsHeld a i (Runs.mark_push_ok agent id now) s p h =
    with_letter-IsHeld a i agent id _ s
      (λ m same t. held_change i m _ (succeed now refl) (push_ok-IsCalm now m)) h
perform-IsHeld a i (Runs.mark_push_failed agent id reason now) s p h =
    with_letter-IsHeld a i agent id _ s (λ m. held_other a i agent id m _ p (fail reason now refl))
      h
perform-IsHeld a i (Runs.reclaim_stale_pushing agent id reason now) s p h =
    with_letter-IsHeld a i agent id _ s
      (λ m. held_other a i agent id m _ p (reclaim reason now refl)) h
perform-IsHeld a i (Runs.mark_dead agent id reason now) s p h =
    with_letter-IsHeld a i agent id _ s (λ m. held_other a i agent id m _ p (bury reason now refl))
      h
perform-IsHeld a i (Runs.revive_auth_dead agent now) s p h =
    revive_auth_dead-IsHeld a i s agent now h
perform-IsHeld a i (Runs.mark_read agent id now) s p h =
    with_letter-IsHeld a i agent id _ s
      (λ m same t. held_change i m _ (open_letter now refl) (read-IsCalm now m)) h
perform-IsHeld a i (Runs.ack agent id text now) s p h =
    with_letter-IsHeld a i agent id _ s
      (λ m same t. held_change i m _ (file text now refl) (ack-IsCalm now m text)) h
perform-IsHeld a i (Runs.delete_one id) s p h = delete_one-IsHeld a i s id h
perform-IsHeld a i Runs.delete_all s p h = cleared a i s.mailboxes
perform-IsHeld a i (Runs.register agent) s p h = register-IsHeld a i s agent h
perform-IsHeld a i (Runs.unregister agent) s p h = h

-- A claim that wins has found its letter waiting.
module _ (id : String) (now : Time) where
  claim_lost :
      (box : List Message) {r : BusResult Bool} {box' : List Message}
      → update_first (has_id id) (claim_letter now) box ≡ some (r, box')
      → All (Held id) box
      → r ≢ ok true
  unfolding update_first
  claim_lost [] e h won = absurd (ground arith)
  claim_lost (m ∷ ms) {r} {box'} e h won = elim (Bool-cases (has_id id m)) [
    | inl t ↦
        let same : (claim_letter now m).1 ≡ r = ground arith in
        claim_calm_lost now m (h.0 ((eq_iff m.id id).0 t)) (same ∙ won)
    | inr t ↦ elim (Option-cases (update_first (has_id id) (claim_letter now) ms)) [
      | inl nowhere ↦ absurd (ground arith)
      | inr ((r', rest), found) ↦
          let same : r' ≡ r = ground arith in claim_lost ms found h.1 (same ∙ won)
    ]
  ]

  others_held : (ms : List Message) → holds id ms ≡ false → All (Held id) ms
  unfolding any
  others_held [] h = tt
  others_held (m ∷ ms) h =
      (λ own. absurd (ground (arith, h, eq_iff m.id id)), others_held ms (ground (arith, h)))

  claimed :
      (box : List Message) {r : BusResult Bool} {box' : List Message}
      → update_first (has_id id) (claim_letter now) box ≡ some (r, box')
      → r ≡ ok true
      → IsDistinct box
      → All (Held id) box'
  unfolding update_first
  claimed [] e won d = absurd (ground arith)
  claimed (m ∷ ms) {r} {box'} e won d = elim (Bool-cases (has_id id m)) [
    | inl t ↦
        let same : (claim_letter now m).1 ≡ r = ground arith in
        let tail : (claim_letter now m).0 ∷ ms ≡ box' = ground arith in
        subst (All (Held id)) tail (
          λ own. claim_won now m (same ∙ won),
          others_held ms (subst (λ k. holds k ms ≡ false) ((eq_iff m.id id).0 t) d.0),
        )
    | inr t ↦ elim (Option-cases (update_first (has_id id) (claim_letter now) ms)) [
      | inl nowhere ↦ absurd (ground arith)
      | inr ((r', rest), found) ↦
          let same : r' ≡ r = ground arith in
          let tail : m ∷ rest ≡ box' = ground arith in
          subst (All (Held id)) tail
            (λ own. absurd (ground (arith, eq_iff m.id id, t)), claimed ms found (same ∙ won) d.1)
    ]
  ]

-- A claim does not win while the letter is held.
pub mark_pushing-held :
    (agent id : String) (now : Time) (s : MemoryStore)
    → IsHeld agent id s
    → (mark_pushing agent id now s).0 ≢ ok true
unfolding mark_pushing with_letter
mark_pushing-held agent id now s h won = elim (Option-cases (lookup agent s.mailboxes)) [
  | inl e ↦ err≢ok (rw (e, with_letter) at won)
  | inr (box, e) ↦ elim (Option-cases (update_first (has_id id) (claim_letter now) box)) [
    | inl e' ↦ err≢ok (rw (e, e', with_letter) at won)
    | inr ((r, box'), e') ↦
        claim_lost id now box e' (found_box agent id agent box s e refl h)
          (rw (e, e', with_letter) at won)
  ]
]

-- A claim that wins holds the letter.
pub mark_pushing-IsHeld :
    (agent id : String) (now : Time) (s : MemoryStore)
    → IsUnique s
    → (mark_pushing agent id now s).0 ≡ ok true
    → IsHeld agent id (mark_pushing agent id now s).1
unfolding mark_pushing with_letter
mark_pushing-IsHeld agent id now s unique won = elim (Option-cases (lookup agent s.mailboxes)) [
  | inl e ↦ absurd (err≢ok (rw (e, with_letter) at won))
  | inr (box, e) ↦ elim (Option-cases (update_first (has_id id) (claim_letter now) box)) [
    | inl e' ↦ absurd (err≢ok (rw (e, e', with_letter) at won))
    | inr ((r, box'), e') ↦
        rw (e, e')
          (subst (All (Held id)) (sym (box_of-put_box agent agent box' s ∙ rw (eq_refl agent) refl))
            (claimed id now box e' (rw (e, e', with_letter) at won)
              (AllBoxes-lookup DistinctBox agent s.mailboxes unique e)))
  ]
]
