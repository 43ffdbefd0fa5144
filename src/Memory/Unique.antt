-- ===== src/Memory/Unique.antt =====
-- No mailbox has two letters of one id, as long as the ids of new letters are fresh.
use hot_potato.Prelude.{
  refl, ℕ, ◌≡◌, subst, inl, inr, String, false, some, List, [], ◌∷◌, ◌++◌, arith, Bool-cases,
  Option-cases, length, leb, str_eq, Assoc, lookup,
}
use hot_potato.Error.{BusResult}
use hot_potato.Message.{Message, Time}
use hot_potato.Store.{fifo, or_default}
use hot_potato.Memory.Changes.{
  Change, Change-SameEnvelope, deliver, claim, succeed, fail, reclaim, bury, open_letter, file,
}
use hot_potato.Memory.Lifting.{AllBoxes, AllBoxes-lookup, AllBoxes-insert}
use hot_potato.Memory.Defs.{
  MemoryStore, push, poll, poll_loop, update_first, with_letter, revive_loop, revive_auth_dead,
  remove_first, delete_loop, delete_one, clear_boxes, delete_all, register,
}
use hot_potato.Memory.Defs
use hot_potato.Memory.Runs
use hot_potato.Memory.Runs.{Call, perform}
use hot_potato.Memory.Distinct.{
  holds, IsDistinct, IsDistinct-ids, ids-poll_loop, ids-revive_loop, ids-update_first,
  fifo-IsDistinct, append-IsDistinct, remove_first-IsDistinct,
}

abbrev pub DistinctBox : String → List Message → Type 0
DistinctBox k box = IsDistinct box

-- In each mailbox every id stands once.
abbrev pub IsUnique : MemoryStore → Type 0
IsUnique s = AllBoxes DistinctBox s.mailboxes

-- The mailbox that `entry(..).or_default()` gives.
abbrev pub box_of : String → MemoryStore → List Message
box_of agent s = or_default (lookup agent s.mailboxes)

box_of-IsDistinct : (agent : String) (s : MemoryStore) → IsUnique s → IsDistinct (box_of agent s)
box_of-IsDistinct agent s h = elim (Option-cases (lookup agent s.mailboxes)) [
  | inl e ↦ rw e tt
  | inr (box, e) ↦ rw e (AllBoxes-lookup DistinctBox agent s.mailboxes h e)
]

push-IsUnique :
    (msg : Message) (s : MemoryStore)
    → holds msg.id (box_of msg.receiver s) ≡ false
    → IsUnique s
    → IsUnique (push msg s).1
unfolding push
push-IsUnique msg s fresh h =
    let box = box_of msg.receiver s in
    let d = box_of-IsDistinct msg.receiver s h in
    elim (Bool-cases (leb s.capacity (length box))) [
      | inl full ↦ rw full (AllBoxes-insert DistinctBox msg.receiver box s.mailboxes d h)
      | inr room ↦ rw room (
          AllBoxes-insert DistinctBox msg.receiver (box ++ (msg ∷ [])) s.mailboxes
            (append-IsDistinct box msg fresh d) h)
    ]

with_letter-IsUnique :
    {A : Type 0} (agent id : String) (f : Message → Message × BusResult A) (s : MemoryStore)
    → ((m : Message) → Change m (f m).0)
    → IsUnique s
    → IsUnique (with_letter agent id f s).1
unfolding with_letter
with_letter-IsUnique agent id f s changes h = elim (Option-cases (lookup agent s.mailboxes)) [
  | inl e ↦ rw e h
  | inr (box, e) ↦ elim (Option-cases (update_first (λ m. str_eq m.id id) f box)) [
    | inl e' ↦ rw (e, e') h
    | inr ((r, box'), e') ↦
        let same =
          ids-update_first (λ m. str_eq m.id id) f (λ m. (Change-SameEnvelope (changes m)).id) box
            e' in
        rw (e, e')
          (AllBoxes-insert DistinctBox agent box' s.mailboxes
            (IsDistinct-ids box box' same (AllBoxes-lookup DistinctBox agent s.mailboxes h e)) h)
  ]
]

poll-IsUnique :
    (agent : String) (limit : ℕ) (now : Time) (s : MemoryStore)
    → IsUnique s
    → IsUnique (poll agent limit now s).1
unfolding poll
poll-IsUnique agent limit now s h = elim (Option-cases (lookup agent s.mailboxes)) [
  | inl e ↦ rw e h
  | inr (box, e) ↦ rw e (
      AllBoxes-insert DistinctBox agent (poll_loop limit 0 now (fifo box)).1 s.mailboxes
        (IsDistinct-ids (fifo box) (poll_loop limit 0 now (fifo box)).1
          (ids-poll_loop limit 0 now (fifo box))
          (fifo-IsDistinct box (AllBoxes-lookup DistinctBox agent s.mailboxes h e)))
        h)
]

revive_auth_dead-IsUnique :
    (agent : String) (now : Time) (s : MemoryStore)
    → IsUnique s
    → IsUnique (revive_auth_dead agent now s).1
unfolding revive_auth_dead
revive_auth_dead-IsUnique agent now s h = elim (Option-cases (lookup agent s.mailboxes)) [
  | inl e ↦ rw e h
  | inr (box, e) ↦ rw e (
      AllBoxes-insert DistinctBox agent (revive_loop now box).1 s.mailboxes
        (IsDistinct-ids box (revive_loop now box).1 (ids-revive_loop now box)
          (AllBoxes-lookup DistinctBox agent s.mailboxes h e))
        h)
]

register-IsUnique : (agent : String) (s : MemoryStore) → IsUnique s → IsUnique (register agent s).1
unfolding register
register-IsUnique agent s h =
    AllBoxes-insert DistinctBox agent (box_of agent s) s.mailboxes (box_of-IsDistinct agent s h) h

clear_boxes-IsDistinct : (boxes : Assoc (List Message)) → AllBoxes DistinctBox (clear_boxes boxes).1
unfolding clear_boxes
clear_boxes-IsDistinct [] = tt
clear_boxes-IsDistinct ((k, box) ∷ rest) = (tt, clear_boxes-IsDistinct rest)

delete_all-IsUnique : (s : MemoryStore) → IsUnique (delete_all s).1
unfolding delete_all
delete_all-IsUnique s = clear_boxes-IsDistinct s.mailboxes

delete_loop-IsDistinct :
    (id : String) (boxes : Assoc (List Message)) {m : Message} {boxes' : Assoc (List Message)}
    → delete_loop id boxes ≡ some (m, boxes')
    → AllBoxes DistinctBox boxes
    → AllBoxes DistinctBox boxes'
unfolding delete_loop
delete_loop-IsDistinct id [] e h = absurd (ground arith)
delete_loop-IsDistinct id ((k, box) ∷ rest) {m} {boxes'} e h =
    elim (Option-cases (remove_first id box)) [
      | inr ((y, box'), found) ↦
          let same : (k, box') ∷ rest ≡ boxes' = ground arith in
          subst (AllBoxes DistinctBox) same (remove_first-IsDistinct id box found h.0, h.1)
      | inl nowhere ↦ elim (Option-cases (delete_loop id rest)) [
        | inl gone ↦ absurd (ground arith)
        | inr ((y, rest'), found) ↦
            let same : (k, box) ∷ rest' ≡ boxes' = ground arith in
            subst (AllBoxes DistinctBox) same (h.0, delete_loop-IsDistinct id rest found h.1)
      ]
    ]

delete_one-IsUnique : (id : String) (s : MemoryStore) → IsUnique s → IsUnique (delete_one id s).1
unfolding delete_one
delete_one-IsUnique id s h = elim (Option-cases (delete_loop id s.mailboxes)) [
  | inl e ↦ rw (e, delete_one) h
  | inr ((m, boxes), e) ↦ rw (e, delete_one) (delete_loop-IsDistinct id s.mailboxes e h)
]

-- A new letter has an id that its mailbox does not have.
abbrev pub IsFresh : Call → MemoryStore → Type 0
IsFresh (Runs.push msg) s = holds msg.id (box_of msg.receiver s) ≡ false
IsFresh c s = Unit

pub perform-IsUnique :
    (c : Call) (s : MemoryStore) → IsFresh c s → IsUnique s → IsUnique (perform c s)
unfolding perform Defs.mark_delivered Defs.mark_pushing Defs.mark_push_ok Defs.mark_push_failed
    Defs.reclaim_stale_pushing Defs.mark_dead Defs.mark_read Defs.ack Defs.unregister
perform-IsUnique (Runs.push msg) s p h = push-IsUnique msg s p h
perform-IsUnique (Runs.poll agent limit now) s p h = poll-IsUnique agent limit now s h
perform-IsUnique (Runs.mark_delivered agent id now) s p h =
    with_letter-IsUnique agent id _ s (λ m. deliver now refl) h
perform-IsUnique (Runs.mark_pushing agent id now) s p h =
    with_letter-IsUnique agent id _ s (λ m. claim now refl) h
perform-IsUnique (Runs.mark_push_ok agent id now) s p h =
    with_letter-IsUnique agent id _ s (λ m. succeed now refl) h
perform-IsUnique (Runs.mark_push_failed agent id reason now) s p h =
    with_letter-IsUnique agent id _ s (λ m. fail reason now refl) h
perform-IsUnique (Runs.reclaim_stale_pushing agent id reason now) s p h =
    with_letter-IsUnique agent id _ s (λ m. reclaim reason now refl) h
perform-IsUnique (Runs.mark_dead agent id reason now) s p h =
    with_letter-IsUnique agent id _ s (λ m. bury reason now refl) h
perform-IsUnique (Runs.revive_auth_dead agent now) s p h = revive_auth_dead-IsUnique agent now s h
perform-IsUnique (Runs.mark_read agent id now) s p h =
    with_letter-IsUnique agent id _ s (λ m. open_letter now refl) h
perform-IsUnique (Runs.ack agent id text now) s p h =
    with_letter-IsUnique agent id _ s (λ m. file text now refl) h
perform-IsUnique (Runs.delete_one id) s p h = delete_one-IsUnique id s h
perform-IsUnique Runs.delete_all s p h = delete_all-IsUnique s
perform-IsUnique (Runs.register agent) s p h = register-IsUnique agent s h
perform-IsUnique (Runs.unregister agent) s p h = h
