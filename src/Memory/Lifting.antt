-- ===== src/Memory/Lifting.antt =====
-- What holds of every letter and survives every change of one letter survives every operation.
use hot_potato.Prelude.{
  ℕ, ◌≤◌, ◌≡◌, sym, subst, inl, inr, String, true, false, some, List, [], ◌∷◌, ◌++◌, arith, eq_iff,
  Bool-cases, Option-cases, All, All-append, length, length-append, leb, str_eq, Assoc, lookup,
  insert, some_inj,
}
use hot_potato.Error.{BusResult}
use hot_potato.Message.{Message, Time}
use hot_potato.Store.{fifo, or_default}
use hot_potato.Store.Fifo.{All-fifo, length-fifo}
use hot_potato.Memory.Letter.{deliver_letter, revive_letter}
use hot_potato.Memory.Loops.{update_first-All, poll_loop-All, revive_loop-All, remove_first-All}
use hot_potato.Memory.Defs.{
  MemoryStore, push, poll, poll_loop, update_first, with_letter, revive_loop, revive_auth_dead,
  remove_first, delete_loop, delete_one, clear_boxes, delete_all, register, unregister,
}

-- `Q` holds of each mailbox and its name.
abbrev pub AllBoxes : (String → List Message → Type 0) → Assoc (List Message) → Type 0
AllBoxes Q [] = Unit
AllBoxes Q ((k, box) ∷ rest) = Q k box × AllBoxes Q rest

module _ (Q : String → List Message → Type 0) where
  pub AllBoxes-lookup :
      (k : String) (boxes : Assoc (List Message)) {box : List Message}
      → AllBoxes Q boxes
      → lookup k boxes ≡ some box
      → Q k box
  unfolding lookup
  AllBoxes-lookup k [] h e = absurd (ground arith)
  AllBoxes-lookup k ((j, b) ∷ rest) h e = elim (Bool-cases (str_eq j k)) [
    | inl t ↦ subst (Q k) (some_inj (rw t at e)) (subst (λ x. Q x b) ((eq_iff j k).0 t) h.0)
    | inr t ↦ AllBoxes-lookup k rest h.1 (rw t at e)
  ]

  pub AllBoxes-insert :
      (k : String) (box : List Message) (boxes : Assoc (List Message))
      → Q k box
      → AllBoxes Q boxes
      → AllBoxes Q (insert k box boxes)
  unfolding insert
  AllBoxes-insert k box [] q h = (q, tt)
  AllBoxes-insert k box ((j, b) ∷ rest) q h = elim (Bool-cases (str_eq j k)) [
    | inl t ↦ rw t (subst (λ x. Q x box) (sym ((eq_iff j k).0 t)) q, h.1)
    | inr t ↦ rw t (h.0, AllBoxes-insert k box rest q h.1)
  ]

-- Each letter of the mailbox `k` satisfies `P k`, and the mailbox is within its capacity.
abbrev pub IsFine : (String → Message → Type 0) → ℕ → String → List Message → Type 0
IsFine P cap k box = All (P k) box × (length box ≤ cap)

abbrev pub Holds : (String → Message → Type 0) → MemoryStore → Type 0
Holds P s = AllBoxes (IsFine P s.capacity) s.mailboxes

empty-IsFine : (P : String → Message → Type 0) (cap : ℕ) (k : String) → IsFine P cap k []
empty-IsFine P cap k = (tt, omega arith)

-- The mailbox that `entry(..).or_default()` gives.
box_of-IsFine :
    (P : String → Message → Type 0) (s : MemoryStore) (k : String)
    → Holds P s
    → IsFine P s.capacity k (or_default (lookup k s.mailboxes))
box_of-IsFine P s k h = elim (Option-cases (lookup k s.mailboxes)) [
  | inl e ↦ rw e (empty-IsFine P s.capacity k)
  | inr (box, e) ↦ rw e (AllBoxes-lookup (IsFine P s.capacity) k s.mailboxes h e)
]

module _ (P : String → Message → Type 0) where
  -- A letter is added within the capacity.
  pub push-Holds :
      (msg : Message) (s : MemoryStore) → P msg.receiver msg → Holds P s → Holds P (push msg s).1
  unfolding push
  push-Holds msg s p h =
      let box = or_default (lookup msg.receiver s.mailboxes) in
      let fine = box_of-IsFine P s msg.receiver h in
      elim (Bool-cases (leb s.capacity (length box))) [
        | inl full ↦
            rw full (AllBoxes-insert (IsFine P s.capacity) msg.receiver box s.mailboxes fine h)
        | inr room ↦ rw room (
            AllBoxes-insert (IsFine P s.capacity) msg.receiver (box ++ (msg ∷ [])) s.mailboxes
              (
                All-append (P msg.receiver) box (msg ∷ []) fine.0 (p, tt),
                within box (msg ∷ []) room,
              )
              h)
      ]
    where
      within :
          (box tail : List Message)
          → leb s.capacity (length box) ≡ false
          → length (box ++ (msg ∷ [])) ≤ s.capacity
      within box tail e = ground (arith, length-append box (msg ∷ []))

  pub register-Holds : (agent : String) (s : MemoryStore) → Holds P s → Holds P (register agent s).1
  unfolding register
  register-Holds agent s h =
      AllBoxes-insert (IsFine P s.capacity) agent (or_default (lookup agent s.mailboxes))
        s.mailboxes (box_of-IsFine P s agent h) h

  pub unregister-Holds :
      (agent : String) (s : MemoryStore) → Holds P s → Holds P (unregister agent s).1
  unfolding unregister
  unregister-Holds agent s h = h

  clear_boxes-AllBoxes :
      (cap : ℕ) (boxes : Assoc (List Message)) → AllBoxes (IsFine P cap) (clear_boxes boxes).1
  unfolding clear_boxes
  clear_boxes-AllBoxes cap [] = tt
  clear_boxes-AllBoxes cap ((k, box) ∷ rest) = (empty-IsFine P cap k, clear_boxes-AllBoxes cap rest)

  pub delete_all-Holds : (s : MemoryStore) → Holds P (delete_all s).1
  unfolding delete_all
  delete_all-Holds s = clear_boxes-AllBoxes s.capacity s.mailboxes

  delete_loop-AllBoxes :
      (cap : ℕ) (id : String) (boxes : Assoc (List Message)) {m : Message}
      {boxes' : Assoc (List Message)}
      → delete_loop id boxes ≡ some (m, boxes')
      → AllBoxes (IsFine P cap) boxes
      → AllBoxes (IsFine P cap) boxes'
  unfolding delete_loop
  delete_loop-AllBoxes cap id [] e h = absurd (ground arith)
  delete_loop-AllBoxes cap id ((k, box) ∷ rest) {m} {boxes'} e h =
      elim (Option-cases (remove_first id box)) [
        | inr ((y, box'), found) ↦
            let (py, all, len) = remove_first-All (P k) id box found h.0.0 in
            let same : (k, box') ∷ rest ≡ boxes' = ground arith in
            subst (AllBoxes (IsFine P cap)) same ((all, omega arith), h.1)
        | inl nowhere ↦ elim (Option-cases (delete_loop id rest)) [
          | inl gone ↦ absurd (ground arith)
          | inr ((y, rest'), found) ↦
              let same : (k, box) ∷ rest' ≡ boxes' = ground arith in
              subst (AllBoxes (IsFine P cap)) same (h.0, delete_loop-AllBoxes cap id rest found h.1)
        ]
      ]

  pub delete_one-Holds : (id : String) (s : MemoryStore) → Holds P s → Holds P (delete_one id s).1
  unfolding delete_one
  delete_one-Holds id s h = elim (Option-cases (delete_loop id s.mailboxes)) [
    | inl e ↦ rw (e, delete_one) h
    | inr ((m, boxes), e) ↦ rw (e, delete_one) (delete_loop-AllBoxes s.capacity id s.mailboxes e h)
  ]

module _ (P : String → Message → Type 0) where
  -- One letter is found and changed.
  pub with_letter-Holds :
      {A : Type 0} (agent id : String) (f : Message → Message × BusResult A) (s : MemoryStore)
      → ((m : Message) → str_eq m.id id ≡ true → P agent m → P agent (f m).0)
      → Holds P s
      → Holds P (with_letter agent id f s).1
  unfolding with_letter
  with_letter-Holds agent id f s keeps h = elim (Option-cases (lookup agent s.mailboxes)) [
    | inl e ↦ rw e h
    | inr (box, e) ↦ elim (Option-cases (update_first (λ m. str_eq m.id id) f box)) [
      | inl e' ↦ rw (e, e') h
      | inr ((r, box'), e') ↦
          let fine = AllBoxes-lookup (IsFine P s.capacity) agent s.mailboxes h e in
          let (all, len) = update_first-All (P agent) (λ m. str_eq m.id id) f keeps box e' fine.0 in
          rw (e, e')
            (AllBoxes-insert (IsFine P s.capacity) agent box' s.mailboxes (all, omega arith) h)
    ]
  ]

  pub poll-Holds :
      (agent : String) (limit : ℕ) (now : Time) (s : MemoryStore)
      → ((m : Message) → P agent m → P agent (deliver_letter now m))
      → Holds P s
      → Holds P (poll agent limit now s).1
  unfolding poll
  poll-Holds agent limit now s keeps h = elim (Option-cases (lookup agent s.mailboxes)) [
    | inl e ↦ rw e h
    | inr (box, e) ↦
        let fine = AllBoxes-lookup (IsFine P s.capacity) agent s.mailboxes h e in
        let (all, len) =
          poll_loop-All (P agent) limit 0 now keeps (fifo box) (All-fifo (P agent) box fine.0) in
        rw e (
          AllBoxes-insert (IsFine P s.capacity) agent (poll_loop limit 0 now (fifo box)).1
            s.mailboxes (all, omega (arith, length-fifo box)) h)
  ]

  pub revive_auth_dead-Holds :
      (agent : String) (now : Time) (s : MemoryStore)
      → ((m : Message) → P agent m → P agent (revive_letter now m))
      → Holds P s
      → Holds P (revive_auth_dead agent now s).1
  unfolding revive_auth_dead
  revive_auth_dead-Holds agent now s keeps h = elim (Option-cases (lookup agent s.mailboxes)) [
    | inl e ↦ rw e h
    | inr (box, e) ↦
        let fine = AllBoxes-lookup (IsFine P s.capacity) agent s.mailboxes h e in
        let (all, len) = revive_loop-All (P agent) now keeps box fine.0 in
        rw e (
          AllBoxes-insert (IsFine P s.capacity) agent (revive_loop now box).1 s.mailboxes
            (all, omega arith) h)
  ]
