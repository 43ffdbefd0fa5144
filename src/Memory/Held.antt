-- ===== src/Memory/Held.antt =====
-- A letter that is neither queued nor dead stays so through the changes of one letter and the loops
-- over a mailbox, up to the few changes that put letters back into the queue.
use hot_potato.Prelude.{
  ℕ, ◌≡◌, ◌≢◌, refl, sym, ap, ◌∙◌, subst, inl, inr, String, true, some, List, [], ◌∷◌, ◌++◌, arith,
  eq_iff, Bool-cases, Option-cases, All, All-append, length, leb, str_eq, Assoc, lookup,
  lookup-insert, if◌then◌else◌,
}
use hot_potato.Error.{BusResult, ok}
use hot_potato.Message.{Message, queued, dead, Time}
use hot_potato.Store.{fifo, or_default}
use hot_potato.Store.Fifo.{All-fifo}
use hot_potato.State.{push_started, push_ok, revive_auth}
use hot_potato.State.Table.{apply-eq-verdict}
use hot_potato.Memory.Letter.{
  deliver_letter, claim_letter, push_ok_letter, revive_letter, read_letter, ack_letter,
}
use hot_potato.Memory.Changes.{Change, Change-SameEnvelope, deliver, revive}
use hot_potato.Memory.Defs.{
  MemoryStore, push, poll, poll_loop, update_first, with_letter, revive_loop, revive_auth_dead,
  delete_loop, delete_one, remove_first, clear_boxes, register, put_box,
}
use hot_potato.Memory.Loops.{update_first-All, poll_loop-All, revive_loop-All, remove_first-All}
use hot_potato.Memory.Unique.{box_of}
use hot_potato.Memory.Single.{has_id}

-- Neither waiting for a push nor given up.
abbrev pub IsCalm : Message → Type 0
IsCalm m = (m.status ≢ queued) × (m.status ≢ dead)

abbrev pub Held : String → Message → Type 0
Held id m = m.id ≡ id → IsCalm m

-- No letter of this id waits in the mailbox of this agent.
abbrev pub IsHeld : String → String → MemoryStore → Type 0
IsHeld agent id s = All (Held id) (box_of agent s)

pub box_of-put_box :
    (a b : String) (box : List Message) (s : MemoryStore)
    → box_of a (put_box b box s) ≡ (if str_eq b a then box else box_of a s)
box_of-put_box a b box s = ap or_default (lookup-insert b a box s.mailboxes) ∙ ground arith

-- A mailbox is written back: the other ones are as they were.
put_box-IsHeld :
    (a i b : String) (box : List Message) (s : MemoryStore)
    → (b ≡ a → All (Held i) box)
    → IsHeld a i s
    → IsHeld a i (put_box b box s)
put_box-IsHeld a i b box s written h =
    subst (All (Held i)) (sym (box_of-put_box a b box s)) (elim (Bool-cases (str_eq b a)) [
      | inl t ↦ rw t (written ((eq_iff b a).0 t))
      | inr f ↦ rw f h
    ])

pub found_box :
    (a i b : String) (box : List Message) (s : MemoryStore)
    → lookup b s.mailboxes ≡ some box
    → b ≡ a
    → IsHeld a i s
    → All (Held i) box
found_box a i b box s e same h =
    subst (All (Held i)) (ap (λ k. box_of k s) (sym same) ∙ ap or_default e) h

-- A change that leaves a calm letter calm.
pub held_change :
    (i : String) (m m' : Message) → Change m m' → (IsCalm m → IsCalm m') → Held i m → Held i m'
held_change i m m' c calm h own = calm (h (sym (Change-SameEnvelope c).id ∙ own))

module _ (now : Time) (m : Message) where
  pub deliver-IsCalm : IsCalm m → IsCalm (deliver_letter now m)
  unfolding deliver_letter
  deliver-IsCalm h = ground arith

  pub claim-IsCalm : IsCalm m → IsCalm (claim_letter now m).0
  unfolding claim_letter
  claim-IsCalm h = ground (arith, apply-eq-verdict m.status push_started)

  pub push_ok-IsCalm : IsCalm m → IsCalm (push_ok_letter now m)
  unfolding push_ok_letter
  push_ok-IsCalm h = ground (arith, apply-eq-verdict m.status push_ok)

  revive-IsCalm : IsCalm m → IsCalm (revive_letter now m)
  unfolding revive_letter
  revive-IsCalm h = ground (arith, apply-eq-verdict m.status revive_auth)

  pub read-IsCalm : IsCalm m → IsCalm (read_letter now m).0
  unfolding read_letter
  read-IsCalm h = ground arith

  pub ack-IsCalm : (text : String) → IsCalm m → IsCalm (ack_letter text now m).0
  unfolding ack_letter
  ack-IsCalm text h = ground arith

  pub claim_won : (claim_letter now m).1 ≡ ok true → IsCalm (claim_letter now m).0
  unfolding claim_letter
  claim_won h = ground (arith, apply-eq-verdict m.status push_started)

  pub claim_calm_lost : IsCalm m → (claim_letter now m).1 ≢ ok true
  unfolding claim_letter
  claim_calm_lost h e = ground (arith, apply-eq-verdict m.status push_started)

module _ {A : Type 0} (a i agent id : String) (f : Message → Message × BusResult A)
    (s : MemoryStore)
    (keeps : (m : Message) → agent ≡ a → str_eq m.id id ≡ true → Held i m → Held i (f m).0) where
  pub with_letter-IsHeld : IsHeld a i s → IsHeld a i (with_letter agent id f s).1
  unfolding with_letter
  with_letter-IsHeld h = elim (Option-cases (lookup agent s.mailboxes)) [
    | inl e ↦ rw e h
    | inr (box, e) ↦ elim (Option-cases (update_first (has_id id) f box)) [
      | inl e' ↦ rw (e, e') h
      | inr ((r, box'), e') ↦
          rw (e, e')
            (put_box-IsHeld a i agent box' s
              (λ same.
                (update_first-All (Held i) (has_id id) f (λ m. keeps m same) box e'
                  (found_box a i agent box s e same h)).0)
              h)
    ]
  ]

module _ (a i : String) (s : MemoryStore) where
  pub push-IsHeld :
      (msg : Message) → (msg.receiver ≡ a → msg.id ≢ i) → IsHeld a i s → IsHeld a i (push msg s).1
  unfolding push
  push-IsHeld msg fresh h =
      let box = box_of msg.receiver s in
      let here_held : msg.receiver ≡ a → All (Held i) box =
        λ same. subst (λ k. All (Held i) (box_of k s)) (sym same) h in
      elim (Bool-cases (leb s.capacity (length box))) [
        | inl full ↦ rw full (put_box-IsHeld a i msg.receiver box s here_held h)
        | inr room ↦ rw room (
            put_box-IsHeld a i msg.receiver (box ++ (msg ∷ [])) s
              (λ same.
                All-append (Held i) box (msg ∷ []) (here_held same)
                  (λ own. absurd (fresh same own), tt))
              h)
      ]

  pub poll-IsHeld :
      (agent : String) (limit : ℕ) (now : Time)
      → IsHeld a i s
      → IsHeld a i (poll agent limit now s).1
  unfolding poll
  poll-IsHeld agent limit now h = elim (Option-cases (lookup agent s.mailboxes)) [
    | inl e ↦ rw e h
    | inr (box, e) ↦ rw e (
        put_box-IsHeld a i agent (poll_loop limit 0 now (fifo box)).1 s
          (λ same.
            (poll_loop-All (Held i) limit 0 now
              (λ m.
                held_change i m (deliver_letter now m) (deliver now refl) (deliver-IsCalm now m))
              (fifo box) (All-fifo (Held i) box (found_box a i agent box s e same h))).0)
          h)
  ]

  pub revive_auth_dead-IsHeld :
      (agent : String) (now : Time) → IsHeld a i s → IsHeld a i (revive_auth_dead agent now s).1
  unfolding revive_auth_dead
  revive_auth_dead-IsHeld agent now h = elim (Option-cases (lookup agent s.mailboxes)) [
    | inl e ↦ rw e h
    | inr (box, e) ↦ rw e (
        put_box-IsHeld a i agent (revive_loop now box).1 s
          (λ same.
            (revive_loop-All (Held i) now
              (λ m. held_change i m (revive_letter now m) (revive now refl) (revive-IsCalm now m))
              box (found_box a i agent box s e same h)).0)
          h)
  ]

  pub register-IsHeld : (agent : String) → IsHeld a i s → IsHeld a i (register agent s).1
  unfolding register
  register-IsHeld agent h =
      put_box-IsHeld a i agent (box_of agent s) s
        (λ same. subst (λ k. All (Held i) (box_of k s)) (sym same) h) h

abbrev HeldAt : String → String → Assoc (List Message) → Type 0
HeldAt a i boxes = All (Held i) (or_default (lookup a boxes))

pub cleared : (a i : String) (boxes : Assoc (List Message)) → HeldAt a i (clear_boxes boxes).1
unfolding clear_boxes lookup
cleared a i [] = tt
cleared a i ((k, box) ∷ rest) = elim (Bool-cases (str_eq k a)) [
  | inl t ↦ rw t tt
  | inr f ↦ rw f (cleared a i rest)
]

delete_loop-held :
    (a i id : String) (boxes : Assoc (List Message)) {m : Message} {boxes' : Assoc (List Message)}
    → delete_loop id boxes ≡ some (m, boxes')
    → HeldAt a i boxes
    → HeldAt a i boxes'
unfolding delete_loop lookup
delete_loop-held a i id [] e h = absurd (ground arith)
delete_loop-held a i id ((k, box) ∷ rest) {m} {boxes'} e h =
    elim (Option-cases (remove_first id box)) [
      | inr ((y, box'), found) ↦
          let same : (k, box') ∷ rest ≡ boxes' = ground arith in
          subst (HeldAt a i) same (elim (Bool-cases (str_eq k a)) [
            | inl t ↦ rw t (remove_first-All (Held i) id box found (rw t at h)).1
            | inr f ↦ rw f (rw f at h)
          ])
      | inl nowhere ↦ elim (Option-cases (delete_loop id rest)) [
        | inl gone ↦ absurd (ground arith)
        | inr ((y, rest'), found) ↦
            let same : (k, box) ∷ rest' ≡ boxes' = ground arith in
            subst (HeldAt a i) same (elim (Bool-cases (str_eq k a)) [
              | inl t ↦ rw t (rw t at h)
              | inr f ↦ rw f (delete_loop-held a i id rest found (rw f at h))
            ])
      ]
    ]

pub delete_one-IsHeld :
    (a i : String) (s : MemoryStore) (id : String) → IsHeld a i s → IsHeld a i (delete_one id s).1
unfolding delete_one
delete_one-IsHeld a i s id h = elim (Option-cases (delete_loop id s.mailboxes)) [
  | inl e ↦ rw (e, delete_one) h
  | inr ((m, boxes), e) ↦ rw (e, delete_one) (delete_loop-held a i id s.mailboxes e h)
]
