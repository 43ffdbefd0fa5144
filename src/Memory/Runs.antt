-- ===== src/Memory/Runs.antt =====
-- Histories of the in-memory store: any calls, in any order, by any agents.
use hot_potato.Prelude.{
  ℕ, ◌≡◌, refl, String, some, List, [], ◌∷◌, leb, ◌&&◌, not, if◌then◌else◌, eq_iff,
}
use hot_potato.State
use hot_potato.State.{
  Event, push_started, push_ok, push_rejected, poll_claimed, read_receipt, give_up, revive_auth,
  max_attempts, should_give_up,
}
use hot_potato.Memory.Letter.{is_auth_error}
use hot_potato.Message.{Message, Time}
use hot_potato.Memory.Changes.{
  Change, deliver, claim, succeed, fail, revive, reclaim, bury, open_letter, file, event_of,
}
use hot_potato.Memory.Defs
use hot_potato.Memory.Defs.{MemoryStore}
use hot_potato.Memory.Lifting.{
  Holds, push-Holds, register-Holds, unregister-Holds, delete_all-Holds, delete_one-Holds,
  with_letter-Holds, poll-Holds, revive_auth_dead-Holds,
}

-- The calls of the trait `BusStore` that write.
pub data Call : Type 0 where
  push : Message → Call
  poll : String → ℕ → Time → Call
  mark_delivered : String → String → Time → Call
  mark_pushing : String → String → Time → Call
  mark_push_ok : String → String → Time → Call
  mark_push_failed : String → String → String → Time → Call
  reclaim_stale_pushing : String → String → String → Time → Call
  mark_dead : String → String → String → Time → Call
  revive_auth_dead : String → Time → Call
  mark_read : String → String → Time → Call
  ack : String → String → String → Time → Call
  delete_one : String → Call
  delete_all : Call
  register : String → Call
  unregister : String → Call

unfoldable pub perform : Call → MemoryStore → MemoryStore
perform (push msg) s = (Defs.push msg s).1
perform (poll agent limit now) s = (Defs.poll agent limit now s).1
perform (mark_delivered agent id now) s = (Defs.mark_delivered agent id now s).1
perform (mark_pushing agent id now) s = (Defs.mark_pushing agent id now s).1
perform (mark_push_ok agent id now) s = (Defs.mark_push_ok agent id now s).1
perform (mark_push_failed agent id reason now) s = (Defs.mark_push_failed agent id reason now s).1
perform (reclaim_stale_pushing agent id reason now) s =
    (Defs.reclaim_stale_pushing agent id reason now s).1
perform (mark_dead agent id reason now) s = (Defs.mark_dead agent id reason now s).1
perform (revive_auth_dead agent now) s = (Defs.revive_auth_dead agent now s).1
perform (mark_read agent id now) s = (Defs.mark_read agent id now s).1
perform (ack agent id text now) s = (Defs.ack agent id text now s).1
perform (delete_one id) s = (Defs.delete_one id s).1
perform delete_all s = (Defs.delete_all s).1
perform (register agent) s = (Defs.register agent s).1
perform (unregister agent) s = (Defs.unregister agent s).1

unfoldable pub run : List Call → MemoryStore → MemoryStore
run [] s = s
run (c ∷ cs) s = run cs (perform c s)

-- `P` holds of each letter that the calls push.
abbrev pub PushesSatisfy : (String → Message → Type 0) → List Call → Type 0
PushesSatisfy P [] = Unit
PushesSatisfy P (push msg ∷ cs) = P msg.receiver msg × PushesSatisfy P cs
PushesSatisfy P (c ∷ cs) = PushesSatisfy P cs

-- The first call and the others.
pub pushes_split :
    (P : String → Message → Type 0) (c : Call) (cs : List Call)
    → PushesSatisfy P (c ∷ cs)
    → PushesSatisfy P (c ∷ []) × PushesSatisfy P cs
pushes_split P (push msg) cs p = ((p.0, tt), p.1)
pushes_split P (poll agent limit now) cs p = (tt, p)
pushes_split P (mark_delivered agent id now) cs p = (tt, p)
pushes_split P (mark_pushing agent id now) cs p = (tt, p)
pushes_split P (mark_push_ok agent id now) cs p = (tt, p)
pushes_split P (mark_push_failed agent id reason now) cs p = (tt, p)
pushes_split P (reclaim_stale_pushing agent id reason now) cs p = (tt, p)
pushes_split P (mark_dead agent id reason now) cs p = (tt, p)
pushes_split P (revive_auth_dead agent now) cs p = (tt, p)
pushes_split P (mark_read agent id now) cs p = (tt, p)
pushes_split P (ack agent id text now) cs p = (tt, p)
pushes_split P (delete_one id) cs p = (tt, p)
pushes_split P delete_all cs p = (tt, p)
pushes_split P (register agent) cs p = (tt, p)
pushes_split P (unregister agent) cs p = (tt, p)

-- `e` is the event that the call puts to the letter, if it finds the letter in a mailbox of an agent
-- of `At`: the other calls put none.
abbrev pub Puts : (String → Type 0) → Call → Message → Event → Type 0
Puts At (poll agent limit now) m e = At agent × (e ≡ poll_claimed)
Puts At (mark_delivered agent id now) m e = At agent × (m.id ≡ id) × (e ≡ poll_claimed)
Puts At (mark_pushing agent id now) m e = At agent × (m.id ≡ id) × (e ≡ push_started)
Puts At (mark_push_ok agent id now) m e = At agent × (m.id ≡ id) × (e ≡ push_ok)
Puts At (mark_push_failed agent id reason now) m e =
    At agent
    × (m.id ≡ id)
    × (e ≡ (
        if leb max_attempts m.attempts && not (is_auth_error reason)
        then give_up reason
        else push_rejected reason))
Puts At (reclaim_stale_pushing agent id reason now) m e =
    At agent × (m.id ≡ id) × (e ≡ push_rejected reason)
Puts At (mark_dead agent id reason now) m e = At agent × (m.id ≡ id) × (e ≡ give_up reason)
Puts At (revive_auth_dead agent now) m e = At agent × (e ≡ revive_auth)
Puts At (mark_read agent id now) m e = At agent × (m.id ≡ id) × (e ≡ read_receipt)
Puts At (ack agent id text now) m e = At agent × (m.id ≡ id) × (e ≡ State.ack (some text))
Puts At c m e = ⊥

module _ (P : String → Message → Type 0) where
  pub perform-Holds :
      (c : Call) (s : MemoryStore)
      → ((k : String) (m m' : Message) (ch : Change m m')
          → Puts (λ a. a ≡ k) c m (event_of ch)
          → P k m
          → P k m')
      → PushesSatisfy P (c ∷ [])
      → Holds P s
      → Holds P (perform c s)
  unfolding perform Defs.mark_delivered Defs.mark_pushing Defs.mark_push_ok Defs.mark_push_failed
      Defs.reclaim_stale_pushing Defs.mark_dead Defs.mark_read Defs.ack should_give_up
  perform-Holds (push msg) s keeps p h = push-Holds P msg s p.0 h
  perform-Holds (poll agent limit now) s keeps p h =
      poll-Holds P agent limit now s (λ m. keeps agent m _ (deliver now refl) (refl, refl)) h
  perform-Holds (mark_delivered agent id now) s keeps p h =
      with_letter-Holds P agent id _ s
        (λ m t. keeps agent m _ (deliver now refl) (refl, (eq_iff m.id id).0 t, refl)) h
  perform-Holds (mark_pushing agent id now) s keeps p h =
      with_letter-Holds P agent id _ s
        (λ m t. keeps agent m _ (claim now refl) (refl, (eq_iff m.id id).0 t, refl)) h
  perform-Holds (mark_push_ok agent id now) s keeps p h =
      with_letter-Holds P agent id _ s
        (λ m t. keeps agent m _ (succeed now refl) (refl, (eq_iff m.id id).0 t, refl)) h
  perform-Holds (mark_push_failed agent id reason now) s keeps p h =
      with_letter-Holds P agent id _ s
        (λ m t. keeps agent m _ (fail reason now refl) (refl, (eq_iff m.id id).0 t, refl)) h
  perform-Holds (reclaim_stale_pushing agent id reason now) s keeps p h =
      with_letter-Holds P agent id _ s
        (λ m t. keeps agent m _ (reclaim reason now refl) (refl, (eq_iff m.id id).0 t, refl)) h
  perform-Holds (mark_dead agent id reason now) s keeps p h =
      with_letter-Holds P agent id _ s
        (λ m t. keeps agent m _ (bury reason now refl) (refl, (eq_iff m.id id).0 t, refl)) h
  perform-Holds (mark_read agent id now) s keeps p h =
      with_letter-Holds P agent id _ s
        (λ m t. keeps agent m _ (open_letter now refl) (refl, (eq_iff m.id id).0 t, refl)) h
  perform-Holds (ack agent id text now) s keeps p h =
      with_letter-Holds P agent id _ s
        (λ m t. keeps agent m _ (file text now refl) (refl, (eq_iff m.id id).0 t, refl)) h
  perform-Holds (revive_auth_dead agent now) s keeps p h =
      revive_auth_dead-Holds P agent now s (λ m. keeps agent m _ (revive now refl) (refl, refl)) h
  perform-Holds (delete_one id) s keeps p h = delete_one-Holds P id s h
  perform-Holds delete_all s keeps p h = delete_all-Holds P s
  perform-Holds (register agent) s keeps p h = register-Holds P agent s h
  perform-Holds (unregister agent) s keeps p h = unregister-Holds P agent s h

  pub run-Holds :
      ((k : String) (m m' : Message) → Change m m' → P k m → P k m')
      → (cs : List Call) (s : MemoryStore) → PushesSatisfy P cs
      → Holds P s
      → Holds P (run cs s)
  unfolding run
  run-Holds keeps [] s p h = h
  run-Holds keeps (c ∷ cs) s p h =
      let (now, rest) = pushes_split P c cs p in
      run-Holds keeps cs (perform c s) rest
        (perform-Holds c s (λ k m m' ch e. keeps k m m' ch) now h)
