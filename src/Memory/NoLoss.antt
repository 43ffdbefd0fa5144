-- ===== src/Memory/NoLoss.antt =====
-- No call but a deletion takes a letter out of its mailbox.
use hot_potato.Prelude.{
  ℕ, ◌+◌, ◌≡◌, refl, sym, ap, ◌∙◌, inl, inr, String, Bool, true, false, ◌||◌, some, List, [], ◌∷◌,
  ◌++◌, arith, Bool-cases, Option-cases, any, any-append, leb, str_eq, lookup, lookup-insert,
  insert, length, eq_iff,
}
use hot_potato.Error.{BusResult}
use hot_potato.Message.{Message, Time}
use hot_potato.Store.{fifo, or_default}
use hot_potato.Store.Fifo.{any-fifo}
use hot_potato.Memory.Letter.{revive_letter}
use hot_potato.Memory.Changes.{
  Change, deliver, claim, succeed, fail, revive, reclaim, bury, open_letter, file,
  Change-SameEnvelope,
}
use hot_potato.Memory.Defs
use hot_potato.Memory.Defs.{MemoryStore, poll_loop, update_first, revive_loop, with_letter}
use hot_potato.Memory.Runs.{
  Call, push, poll, mark_delivered, mark_pushing, mark_push_ok, mark_push_failed,
  reclaim_stale_pushing, mark_dead, revive_auth_dead, mark_read, ack, delete_one, delete_all,
  register, unregister, perform, run,
}

abbrev pub has_id : String → Message → Bool
has_id id m = str_eq m.id id

has_id-Change : (id : String) (m m' : Message) → Change m m' → has_id id m' ≡ has_id id m
has_id-Change id m m' c = ap (λ i. str_eq i id) (Change-SameEnvelope c).id

update_first-any :
    {A : Type 0} (id : String) (p : Message → Bool) (f : Message → Message × A)
    → ((m : Message) → Change m (f m).0)
    → (box : List Message) {r : A} {box' : List Message} → update_first p f box ≡ some (r, box')
    → any (has_id id) box' ≡ any (has_id id) box
unfolding update_first any
update_first-any id p f changes [] e = absurd (ground arith)
update_first-any id p f changes (m ∷ ms) {r} {box'} e = elim (Bool-cases (p m)) [
  | inl t ↦
      let same : (f m).0 ∷ ms ≡ box' = ground arith in
      ap (any (has_id id)) (sym same)
      ∙ ap (λ b. b || any (has_id id) ms) (has_id-Change id m (f m).0 (changes m))
  | inr t ↦ elim (Option-cases (update_first p f ms)) [
    | inl nowhere ↦ absurd (ground arith)
    | inr ((r', rest), found) ↦
        let same : m ∷ rest ≡ box' = ground arith in
        ap (any (has_id id)) (sym same)
        ∙ ap (λ b. has_id id m || b) (update_first-any id p f changes ms found)
  ]
]

poll_loop-any :
    (id : String) (limit n : ℕ) (now : Time) (box : List Message)
    → any (has_id id) (poll_loop limit n now box).1 ≡ any (has_id id) box
unfolding poll_loop any
poll_loop-any id limit n now [] = refl
poll_loop-any id limit n now (m ∷ ms) =
    ground (arith, poll_loop-any id limit (n + 1) now ms, poll_loop-any id limit n now ms)

revive_loop-any :
    (id : String) (now : Time) (box : List Message)
    → any (has_id id) (revive_loop now box).1 ≡ any (has_id id) box
unfolding revive_loop any
revive_loop-any id now [] = refl
revive_loop-any id now (m ∷ ms) =
    ground
      (arith, revive_loop-any id now ms, has_id-Change id m (revive_letter now m) (revive now refl))

-- The mailbox `k` has a letter with the id.
abbrev pub has_letter : String → String → MemoryStore → Bool
has_letter k id s = any (has_id id) (or_default (lookup k s.mailboxes))

abbrev pub is_delete : Call → Bool
is_delete (delete_one id) = true
is_delete delete_all = true
is_delete _ = false

abbrev box_of : String → MemoryStore → List Message
box_of agent s = or_default (lookup agent s.mailboxes)

module _ (k id : String) where
  -- A mailbox is replaced by one that has at least its ids.
  replaced-has_letter :
      (agent : String) (box : List Message) (s : MemoryStore)
      → (any (has_id id) (box_of agent s) ≡ true → any (has_id id) box ≡ true)
      → has_letter k id s ≡ true
      → any (has_id id) (or_default (lookup k (insert agent box s.mailboxes))) ≡ true
  replaced-has_letter agent box s grows h = elim (Bool-cases (str_eq agent k)) [
    | inl t ↦ rw (lookup-insert, t) (grows (rw ((eq_iff agent k).0 t) h))
    | inr f ↦ rw (lookup-insert, f) h
  ]

  with_letter-has_letter :
      {A : Type 0} (agent i : String) (f : Message → Message × BusResult A) (s : MemoryStore)
      → ((m : Message) → Change m (f m).0)
      → has_letter k id s ≡ true
      → has_letter k id (with_letter agent i f s).1 ≡ true
  unfolding with_letter
  with_letter-has_letter agent i f s changes h = elim (Option-cases (lookup agent s.mailboxes)) [
    | inl e ↦ rw (e, with_letter) h
    | inr (box, e) ↦ elim (Option-cases (update_first (λ m. str_eq m.id i) f box)) [
      | inl e' ↦ rw (e, e', with_letter) h
      | inr ((r, box'), e') ↦
          rw (e, e', with_letter)
            (replaced-has_letter agent box' s
              (λ had. update_first-any id _ f changes box e' ∙ (rw e at had)) h)
    ]
  ]

  poll-has_letter :
      (agent : String) (limit : ℕ) (now : Time) (s : MemoryStore)
      → has_letter k id s ≡ true
      → has_letter k id (Defs.poll agent limit now s).1 ≡ true
  unfolding Defs.poll
  poll-has_letter agent limit now s h = elim (Option-cases (lookup agent s.mailboxes)) [
    | inl e ↦ rw (e, Defs.poll) h
    | inr (box, e) ↦
        rw (e, Defs.poll)
          (replaced-has_letter agent (poll_loop limit 0 now (fifo box)).1 s
            (λ had.
              poll_loop-any id limit 0 now (fifo box) ∙ any-fifo (has_id id) box ∙ (rw e at had))
            h)
  ]

  revive_auth_dead-has_letter :
      (agent : String) (now : Time) (s : MemoryStore)
      → has_letter k id s ≡ true
      → has_letter k id (Defs.revive_auth_dead agent now s).1 ≡ true
  unfolding Defs.revive_auth_dead
  revive_auth_dead-has_letter agent now s h = elim (Option-cases (lookup agent s.mailboxes)) [
    | inl e ↦ rw (e, Defs.revive_auth_dead) h
    | inr (box, e) ↦
        rw (e, Defs.revive_auth_dead)
          (replaced-has_letter agent (revive_loop now box).1 s
            (λ had. revive_loop-any id now box ∙ (rw e at had)) h)
  ]

  push-has_letter :
      (msg : Message) (s : MemoryStore)
      → has_letter k id s ≡ true
      → has_letter k id (Defs.push msg s).1 ≡ true
  unfolding Defs.push
  push-has_letter msg s h = elim (Bool-cases (leb s.capacity (length (box_of msg.receiver s)))) [
    | inl full ↦ rw full (replaced-has_letter msg.receiver (box_of msg.receiver s) s (λ had. had) h)
    | inr room ↦ rw room (
        replaced-has_letter msg.receiver (box_of msg.receiver s ++ (msg ∷ [])) s
          (λ had. rw (any-append, had) refl) h)
  ]

  register-has_letter :
      (agent : String) (s : MemoryStore)
      → has_letter k id s ≡ true
      → has_letter k id (Defs.register agent s).1 ≡ true
  unfolding Defs.register
  register-has_letter agent s h = replaced-has_letter agent (box_of agent s) s (λ had. had) h

  pub perform-has_letter :
      (c : Call) (s : MemoryStore)
      → is_delete c ≡ false
      → has_letter k id s ≡ true
      → has_letter k id (perform c s) ≡ true
  unfolding perform Defs.mark_delivered Defs.mark_pushing Defs.mark_push_ok Defs.mark_push_failed
      Defs.reclaim_stale_pushing Defs.mark_dead Defs.mark_read Defs.ack Defs.unregister
  perform-has_letter (push msg) s d h = push-has_letter msg s h
  perform-has_letter (poll agent limit now) s d h = poll-has_letter agent limit now s h
  perform-has_letter (mark_delivered agent i now) s d h =
      with_letter-has_letter agent i _ s (λ m. deliver now refl) h
  perform-has_letter (mark_pushing agent i now) s d h =
      with_letter-has_letter agent i _ s (λ m. claim now refl) h
  perform-has_letter (mark_push_ok agent i now) s d h =
      with_letter-has_letter agent i _ s (λ m. succeed now refl) h
  perform-has_letter (mark_push_failed agent i reason now) s d h =
      with_letter-has_letter agent i _ s (λ m. fail reason now refl) h
  perform-has_letter (reclaim_stale_pushing agent i reason now) s d h =
      with_letter-has_letter agent i _ s (λ m. reclaim reason now refl) h
  perform-has_letter (mark_dead agent i reason now) s d h =
      with_letter-has_letter agent i _ s (λ m. bury reason now refl) h
  perform-has_letter (revive_auth_dead agent now) s d h = revive_auth_dead-has_letter agent now s h
  perform-has_letter (mark_read agent i now) s d h =
      with_letter-has_letter agent i _ s (λ m. open_letter now refl) h
  perform-has_letter (ack agent i text now) s d h =
      with_letter-has_letter agent i _ s (λ m. file text now refl) h
  perform-has_letter (delete_one i) s d h = absurd (ground arith)
  perform-has_letter delete_all s d h = absurd (ground arith)
  perform-has_letter (register agent) s d h = register-has_letter agent s h
  perform-has_letter (unregister agent) s d h = h

  -- Through any calls that delete nothing, a mailbox that holds a letter of an id still holds one
  -- of that id.
  pub run-has_letter :
      (cs : List Call) (s : MemoryStore)
      → any is_delete cs ≡ false
      → has_letter k id s ≡ true
      → has_letter k id (run cs s) ≡ true
  unfolding run any
  run-has_letter [] s d h = h
  run-has_letter (c ∷ cs) s d h = elim (Bool-cases (is_delete c)) [
    | inl t ↦ absurd (ground arith)
    | inr f ↦ run-has_letter cs (perform c s) (rw f at d) (perform-has_letter c s f h)
  ]
