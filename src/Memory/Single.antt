-- ===== src/Memory/Single.antt =====
-- The operations on one letter: which letter they find, what they answer, and what two of them do
-- in a row.
use hot_potato.Prelude.{
  ◌≤◌, ◌≡◌, ◌≢◌, refl, sym, ap, ◌∙◌, ◌⊎◌, ◌↔◌, inl, inr, String, Bool, false, none, some, List, [],
  ◌∷◌, arith, Bool-cases, Option-cases, lookup, lookup-insert_self, insert, str_eq, eq_iff, Assoc,
  char_count, char_count-take_chars, ◌||◌, if◌then◌else◌,
}
use hot_potato.Error.{BusResult, ok, err, not_found, not_deliverable}
use hot_potato.Message.{
  Message, queued, pushing, delivered, read, acked, dead, status_eq, status_debug, Time,
}
use hot_potato.State.{push_started, push_rejected, give_up}
use hot_potato.State.Table.{apply-eq-verdict}
use hot_potato.Memory.Letter.{
  claim_letter, push_failed_letter, ack_letter, dead_letter, is_auth_error,
}
use hot_potato.Memory.Changes.{claim, Change-SameEnvelope}
use hot_potato.Memory.Defs.{MemoryStore, update_first, with_letter, put_box, mark_pushing}

-- Of an ack there are two outcomes. A letter that has left the shelf is acked, and any later ack,
-- with whatever note, answers with the letter as it stands. Any other letter is left as it is, and
-- the ack is refused with its status.
pub ack_letter_twice :
    (text text' : String) (now now' : Time) (m : Message)
    → let first = ack_letter text now m in
      (((m.status ≡ delivered) ⊎ (m.status ≡ read) ⊎ (m.status ≡ acked))
        × (first.1 ≡ ok first.0)
        × (first.0.status ≡ acked)
        × (ack_letter text' now' first.0 ≡ (first.0, ok first.0)))
      ⊎ ((first.0 ≡ m) × (first.1 ≡ err (not_deliverable m.id (status_debug m.status))))
unfolding ack_letter
ack_letter_twice text text' now now' m = ground arith

-- A letter that is not dead is dead after `mark_push_failed` exactly if it was queued or in
-- flight, had used up its eight attempts, and the reason is no credential error.
pub push_failed-dead :
    (reason : String) (now : Time) (m : Message)
    → m.status ≢ dead
    → ((push_failed_letter reason now m).status ≡ dead) ↔ (
        ((m.status ≡ queued) ⊎ (m.status ≡ pushing))
        × (8 ≤ m.attempts)
        × (is_auth_error reason ≡ false))
unfolding push_failed_letter
push_failed-dead reason now m h = ground (
  arith,
  apply-eq-verdict m.status (give_up reason),
  apply-eq-verdict m.status (push_rejected reason),
)

-- `mark_dead` kills a letter that is queued or in flight and leaves the status of any other. The
-- dead reason becomes the one given in every case, and nothing else changes.
pub dead_letter_lem :
    (reason : String) (now : Time) (m : Message)
    → dead_letter reason now m ≡ record m {
      status = if status_eq m.status queued || status_eq m.status pushing then dead else m.status;
      dead_reason = some reason;
    }
unfolding dead_letter
dead_letter_lem reason now m = ground (arith, apply-eq-verdict m.status (give_up reason))

-- A note that a letter carries after an ack, if it was not acked before, is the note it had or has
-- at most eighty characters.
pub ack_note_short :
    (text : String) (now : Time) (m : Message)
    → m.status ≢ acked
    → {note : String} → (ack_letter text now m).0.ack_note ≡ some note
    → (m.ack_note ≡ some note) ⊎ (char_count note ≤ 80)
unfolding ack_letter
ack_note_short text now m h e = ground (arith, char_count-take_chars 80 text)

abbrev pub has_id : String → Message → Bool
has_id id m = str_eq m.id id

module _ {V : Type 0} where
  insert-insert_self :
      (k : String) (v w : V) (m : Assoc V) → insert k w (insert k v m) ≡ insert k w m
  unfolding insert
  insert-insert_self k v w [] = ground (arith, eq_iff k k)
  insert-insert_self k v w ((j, u) ∷ m) = elim (Bool-cases (str_eq j k)) [
    | inl t ↦ rw t (rw t refl)
    | inr f ↦ rw f (rw f (ap (λ l. (j, u) ∷ l) (insert-insert_self k v w m)))
  ]

module _ {A B : Type 0} (p : Message → Bool) (f : Message → Message × A) (g : Message → Message × B)
    (same : (m : Message) → p (f m).0 ≡ p m) where
  update_first-again :
      (box : List Message) {r : A} {box' : List Message}
      → update_first p f box ≡ some (r, box')
      → update_first p g box' ≡ update_first p (λ m. g (f m).0) box
  unfolding update_first
  update_first-again [] e = absurd (ground arith)
  update_first-again (m ∷ ms) {r} {box'} e = elim (Bool-cases (p m)) [
    | inl t ↦
        let tail : (f m).0 ∷ ms ≡ box' = ground arith in
        rw (← tail) (rw (same m ∙ t, update_first) (rw (t, update_first) refl))
    | inr t ↦ elim (Option-cases (update_first p f ms)) [
      | inl nowhere ↦ absurd (ground arith)
      | inr ((r', rest), found) ↦
          let tail : m ∷ rest ≡ box' = ground arith in
          rw (← tail) (rw (t, update_first) (rw (update_first-again ms found) refl))
    ]
  ]

module _ {A : Type 0} (agent id : String) (f : Message → Message × BusResult A)
    (s : MemoryStore) where
  with_letter-no_box :
      lookup agent s.mailboxes ≡ none → with_letter agent id f s ≡ (err (not_found id), s)
  unfolding with_letter
  with_letter-no_box e = rw (e, with_letter)

  with_letter-no_letter :
      (box : List Message)
      → lookup agent s.mailboxes ≡ some box
      → update_first (has_id id) f box ≡ none
      → with_letter agent id f s ≡ (err (not_found id), s)
  unfolding with_letter
  with_letter-no_letter box e e' = rw (e, e', with_letter)

  pub with_letter-found :
      (box : List Message) (r : BusResult A) (box' : List Message)
      → lookup agent s.mailboxes ≡ some box
      → update_first (has_id id) f box ≡ some (r, box')
      → with_letter agent id f s ≡ (r, put_box agent box' s)
  unfolding with_letter
  with_letter-found box r box' e e' = rw (e, e', with_letter)

update_first-none :
    {A B : Type 0} (p : Message → Bool) (f : Message → Message × A) (g : Message → Message × B)
    (box : List Message)
    → update_first p f box ≡ none
    → update_first p g box ≡ none
unfolding update_first
update_first-none p f g [] e = refl
update_first-none p f g (m ∷ ms) e = ground (arith, update_first-none p f g ms)

update_first-found :
    {A B : Type 0} (p : Message → Bool) (f : Message → Message × A) (g : Message → Message × B)
    (box : List Message) {a : A} {box' : List Message}
    → update_first p f box ≡ some (a, box')
    → (b : B) × (box'' : List Message) × (m : Message) × (update_first p g box ≡ some (b, box''))
      × (b ≡ (g m).1)
unfolding update_first
update_first-found p f g [] e = absurd (ground arith)
update_first-found p f g (m ∷ ms) e = elim (Bool-cases (p m)) [
  | inl t ↦ ((g m).1, (g m).0 ∷ ms, m, rw (t, update_first), refl)
  | inr t ↦ elim (Option-cases (update_first p f ms)) [
    | inl nowhere ↦ absurd (ground arith)
    | inr ((r, rest), found) ↦
        let (b, box'', x, eq, res) = update_first-found p f g ms found in
        (b, m ∷ box'', x, rw (t, update_first) (rw eq refl), res)
  ]
]

-- A second operation on the letter finds the letter that the first one changed: its answer, and
-- the store in the end, are those of the two changes made at once.
with_letter-again :
    {A B : Type 0} (agent id : String) (f : Message → Message × BusResult A)
    (g : Message → Message × BusResult B) (s : MemoryStore)
    → ((m : Message) → (f m).0.id ≡ m.id)
    → with_letter agent id g (with_letter agent id f s).1 ≡ with_letter agent id (λ m. g (f m).0) s
with_letter-again agent id f g s same = elim (Option-cases (lookup agent s.mailboxes)) [
  | inl e ↦
      rw (with_letter-no_box agent id f s e, with_letter-no_box agent id g s e)
        (sym (with_letter-no_box agent id (λ m. g (f m).0) s e))
  | inr (box, e) ↦ elim (Option-cases (update_first (has_id id) f box)) [
    | inl e' ↦
        rw
          (
            with_letter-no_letter agent id f s box e e',
            with_letter-no_letter agent id g s box e (update_first-none (has_id id) f g box e'),
          )
          (sym (
            with_letter-no_letter agent id (λ m. g (f m).0) s box e
              (update_first-none (has_id id) f (λ m. g (f m).0) box e')))
    | inr ((r, box'), e') ↦
        let (b, box'', m, eq, res) = update_first-found (has_id id) f (λ m. g (f m).0) box e' in
        let again : update_first (has_id id) g box' ≡ some (b, box'') =
          update_first-again (has_id id) f g (λ m. ap (λ i. str_eq i id) (same m)) box e' ∙ eq in
        rw (with_letter-found agent id f s box r box' e e') (
          with_letter-found agent id g (put_box agent box' s) box' b box''
            (lookup-insert_self agent box' s.mailboxes) again
          ∙ ap (λ boxes. (b, record s { mailboxes = boxes }))
              (insert-insert_self agent box' box'' s.mailboxes)
          ∙ sym (with_letter-found agent id (λ m. g (f m).0) s box b box'' e eq))
  ]
]

claim_letter-status : (now : Time) (m : Message) → (claim_letter now m).0.status ≢ queued
unfolding claim_letter
claim_letter-status now m = ground (arith, apply-eq-verdict m.status push_started)

claim_letter_lost :
    (now : Time) (m : Message) → m.status ≢ queued → (claim_letter now m).1 ≡ ok false
unfolding claim_letter
claim_letter_lost now m h = ground (arith, apply-eq-verdict m.status push_started)

claim_letter-again :
    (now now' : Time) (m : Message) → (claim_letter now' (claim_letter now m).0).1 ≡ ok false
claim_letter-again now now' m =
    claim_letter_lost now' (claim_letter now m).0 (claim_letter-status now m)

with_letter-answer :
    {A : Type 0} (agent id : String) (f : Message → Message × BusResult A) (s : MemoryStore)
    (a : BusResult A)
    → ((m : Message) → (f m).1 ≡ a)
    → ((with_letter agent id f s).0 ≡ a) ⊎ ((with_letter agent id f s).0 ≡ err (not_found id))
with_letter-answer agent id f s a all = elim (Option-cases (lookup agent s.mailboxes)) [
  | inl e ↦ inr (rw (with_letter-no_box agent id f s e))
  | inr (box, e) ↦ elim (Option-cases (update_first (has_id id) f box)) [
    | inl e' ↦ inr (rw (with_letter-no_letter agent id f s box e e'))
    | inr ((r, box'), e') ↦
        let (b, box'', m, eq, res) = update_first-found (has_id id) f f box e' in
        inl (rw (with_letter-found agent id f s box b box'' e eq) (res ∙ all m))
  ]
]

-- Of two claims of one letter, with nothing in between, the second never wins: it is told that the
-- letter is taken, or that there is no such letter.
pub mark_pushing_twice :
    (agent id : String) (now now' : Time) (s : MemoryStore)
    → let second = mark_pushing agent id now' (mark_pushing agent id now s).1 in
      (second.0 ≡ ok false) ⊎ (second.0 ≡ err (not_found id))
unfolding mark_pushing
mark_pushing_twice agent id now now' s =
    rw
      (with_letter-again agent id (claim_letter now) (claim_letter now') s
        (λ m. (Change-SameEnvelope (claim now refl)).id))
      (with_letter-answer agent id (λ m. claim_letter now' (claim_letter now m).0) s (ok false)
        (claim_letter-again now now'))
