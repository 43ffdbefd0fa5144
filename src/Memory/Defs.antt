-- ===== src/Memory/Defs.antt =====
-- store/memory.rs: the operations of `InMemoryStore`. Each holds the lock from its first line to its
-- last, so it is one step from a store to a store and a result, also where it fails.
use hot_potato.Prelude.{
  ℕ, ◌+◌, String, Bool, true, false, not, ◌&&◌, Option, none, some, List, [], ◌∷◌, ◌++◌, length,
  filter, any, leb, str_eq, Assoc, lookup, insert, if◌then◌else◌,
}
use hot_potato.Error.{BusResult, ok, err, not_found, mailbox_full}
use hot_potato.Message.{Message, queued, delivered, acked, dead, status_eq, Time}
use hot_potato.Store.{fifo, or_default}
use hot_potato.Memory.Letter.{
  deliver_letter, claim_letter, push_ok_letter, push_failed_letter, is_auth_dead, revive_letter,
  reclaim_letter, dead_letter, read_letter, ack_letter,
}

-- `Inner`, with the capacity of the store that holds it.
pub record MemoryStore : Type 0 where
  pub mailboxes : Assoc (List Message)
  pub agents : List String
  pub capacity : ℕ

unfoldable pub with_capacity : ℕ → MemoryStore
with_capacity capacity = record { mailboxes = []; agents = []; capacity = capacity }

unfoldable pub new_store : MemoryStore
unfolding with_capacity
new_store = with_capacity 1024

abbrev pub put_box : String → List Message → MemoryStore → MemoryStore
put_box agent box s = record s { mailboxes = insert agent box s.mailboxes }

unfoldable pub push : Message → MemoryStore → BusResult (Unit {0}) × MemoryStore
push msg s =
    let box = or_default (lookup msg.receiver s.mailboxes) in
    if leb s.capacity (length box)
    then (err (mailbox_full msg.receiver s.capacity), put_box msg.receiver box s)
    else (ok tt, put_box msg.receiver (box ++ (msg ∷ [])) s)

-- The loop of `poll` with `n` letters taken so far: the letters that it takes, and the mailbox.
unfoldable pub poll_loop : ℕ → ℕ → Time → List Message → List Message × List Message
poll_loop limit n now [] = ([], [])
poll_loop limit n now (m ∷ ms) =
    let taken = record m { status = delivered; delivered_at = some now } in
    let after_taken = poll_loop limit (n + 1) now ms in
    let after_skipped = poll_loop limit n now ms in
    if status_eq m.status queued
    then (if leb limit (n + 1)
        then (taken ∷ [], taken ∷ ms)
        else (taken ∷ after_taken.0, taken ∷ after_taken.1))
    else (after_skipped.0, m ∷ after_skipped.1)

poll_box :
    String → ℕ → Time → MemoryStore → Option (List Message) → BusResult (List Message) × MemoryStore
poll_box agent limit now s none = (ok [], s)
poll_box agent limit now s (some box) =
    let polled = poll_loop limit 0 now (fifo box) in (ok polled.0, put_box agent polled.1 s)

unfoldable pub poll : String → ℕ → Time → MemoryStore → BusResult (List Message) × MemoryStore
unfolding poll_box
poll agent limit now s = poll_box agent limit now s (lookup agent s.mailboxes)

-- `iter_mut().find(|m| m.id == id)`: changes the first letter with the id.
unfoldable pub update_first {ℓ} :
    {A : Type ℓ}
    → (Message → Bool)
    → (Message → Message × A)
    → List Message
    → Option (A × List Message)
update_first p f [] = none
update_first p f (m ∷ ms) = elim (p m) [
  | true ↦ some ((f m).1, (f m).0 ∷ ms)
  | false ↦ elim (update_first p f ms) [ none ↦ none | some (a, rest) ↦ some (a, m ∷ rest) ]
]

module _ {A : Type 0} (agent id : String) (f : Message → Message × BusResult A)
    (s : MemoryStore) where
  found_letter : Option (BusResult A × List Message) → BusResult A × MemoryStore
  found_letter none = (err (not_found id), s)
  found_letter (some (r, box)) = (r, put_box agent box s)

  found_box : Option (List Message) → BusResult A × MemoryStore
  found_box none = (err (not_found id), s)
  found_box (some box) = found_letter (update_first (λ m. str_eq m.id id) f box)

-- The opening that the single-letter operations share: the mailbox or `NotFound`, the letter or
-- `NotFound`, then the change.
unfoldable pub with_letter :
    {A : Type 0}
    → String
    → String
    → (Message → Message × BusResult A)
    → MemoryStore
    → BusResult A × MemoryStore
unfolding found_box found_letter
with_letter agent id f s = found_box agent id f s (lookup agent s.mailboxes)

-- `Ok(m.clone())` after the change.
abbrev pub cloned : (Message → Message) → Message → Message × BusResult Message
cloned f m = (f m, ok (f m))

abbrev pub Op : Type 0 → Type 0
Op A = MemoryStore → BusResult A × MemoryStore

unfoldable pub mark_delivered : String → String → Time → Op Message
mark_delivered agent id now = with_letter agent id (cloned (deliver_letter now))

unfoldable pub mark_pushing : String → String → Time → Op Bool
mark_pushing agent id now = with_letter agent id (claim_letter now)

unfoldable pub mark_push_ok : String → String → Time → Op Message
mark_push_ok agent id now = with_letter agent id (cloned (push_ok_letter now))

unfoldable pub mark_push_failed : String → String → String → Time → Op Message
mark_push_failed agent id reason now = with_letter agent id (cloned (push_failed_letter reason now))

unfoldable pub reclaim_stale_pushing : String → String → String → Time → Op Message
reclaim_stale_pushing agent id reason now =
    with_letter agent id (cloned (reclaim_letter reason now))

unfoldable pub mark_dead : String → String → String → Time → Op Message
mark_dead agent id reason now = with_letter agent id (cloned (dead_letter reason now))

unfoldable pub mark_read : String → String → Time → Op Message
mark_read agent id now = with_letter agent id (read_letter now)

unfoldable pub ack : String → String → String → Time → Op Message
ack agent id text now = with_letter agent id (ack_letter text now)

-- The loop of `revive_auth_dead`: the revived letters, and the mailbox.
unfoldable pub revive_loop : Time → List Message → List Message × List Message
revive_loop now [] = ([], [])
revive_loop now (m ∷ ms) =
    let rest = revive_loop now ms in
    let revived = revive_letter now m in
    if status_eq m.status dead && is_auth_dead m
    then (revived ∷ rest.0, revived ∷ rest.1)
    else (rest.0, m ∷ rest.1)

revive_box :
    String → Time → MemoryStore → Option (List Message) → BusResult (List Message) × MemoryStore
revive_box agent now s none = (ok [], s)
revive_box agent now s (some box) =
    let revived = revive_loop now box in (ok revived.0, put_box agent revived.1 s)

unfoldable pub revive_auth_dead : String → Time → Op (List Message)
unfolding revive_box
revive_auth_dead agent now s = revive_box agent now s (lookup agent s.mailboxes)

unfoldable pub peek : String → MemoryStore → BusResult (List Message)
peek agent s = ok (filter (λ m. status_eq m.status queued) (or_default (lookup agent s.mailboxes)))

-- `mailboxes.values().flatten()`.
unfoldable pub letters : Assoc (List Message) → List Message
letters [] = []
letters ((k, box) ∷ rest) = box ++ letters rest

unfoldable pub sent_by : String → MemoryStore → BusResult (List Message)
sent_by agent s = ok (fifo (filter (λ m. str_eq m.sender agent) (letters s.mailboxes)))

unfoldable pub archive : MemoryStore → BusResult (List Message)
archive s = ok (fifo (filter (λ m. status_eq m.status acked) (letters s.mailboxes)))

unfoldable pub list_all : MemoryStore → BusResult (List Message)
list_all s = ok (fifo (letters s.mailboxes))

-- `position` and `remove`: takes the first letter with the id out of the list.
unfoldable pub remove_first : String → List Message → Option (Message × List Message)
remove_first id [] = none
remove_first id (m ∷ ms) = elim (str_eq m.id id) [
  | true ↦ some (m, ms)
  | false ↦ elim (remove_first id ms) [ none ↦ none | some (x, rest) ↦ some (x, m ∷ rest) ]
]

-- The loop over the mailboxes, up to the first that has the letter.
unfoldable pub delete_loop : String → Assoc (List Message) → Option (Message × Assoc (List Message))
delete_loop id [] = none
delete_loop id ((k, box) ∷ rest) = elim (remove_first id box) [
  | some (m, box') ↦ some (m, (k, box') ∷ rest)
  | none ↦ elim (delete_loop id rest) [ none ↦ none | some (m, rest') ↦ some (m, (k, box) ∷ rest') ]
]

unfoldable pub delete_one : String → Op Message
delete_one id s = elim (delete_loop id s.mailboxes) [
  | none ↦ (err (not_found id), s)
  | some (m, boxes) ↦ (ok m, record s { mailboxes = boxes })
]

unfoldable pub clear_boxes : Assoc (List Message) → ℕ × Assoc (List Message)
clear_boxes [] = (0, [])
clear_boxes ((k, box) ∷ rest) =
    let cleared = clear_boxes rest in (length box + cleared.0, (k, []) ∷ cleared.1)

unfoldable pub delete_all : Op ℕ
delete_all s =
    let cleared = clear_boxes s.mailboxes in (ok cleared.0, record s { mailboxes = cleared.1 })

unfoldable pub register : String → Op (Unit {0})
register agent s =
    let agents =
      if any (λ a. str_eq a agent) s.agents then s.agents else s.agents ++ (agent ∷ []) in
    (
      ok tt,
      record s {
        agents = agents;
        mailboxes = insert agent (or_default (lookup agent s.mailboxes)) s.mailboxes;
      },
    )

unfoldable pub unregister : String → Op (Unit {0})
unregister agent s = (ok tt, record s { agents = filter (λ a. not (str_eq a agent)) s.agents })

unfoldable pub agents_of : MemoryStore → BusResult (List String)
agents_of s = ok s.agents
