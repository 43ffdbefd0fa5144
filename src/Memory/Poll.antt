-- ===== src/Memory/Poll.antt =====
-- `poll` takes the oldest queued letters of the mailbox, and leaves the others queued.
use hot_potato.Prelude.{
  ℕ, zero, suc, ◌+◌, ◌≡◌, refl, ap, inl, inr, String, Bool, true, false, some, List, [], ◌∷◌, arith,
  Bool-cases, filter, map, take, drop, leb, lookup, lookup-insert_self, Option-cases,
}
use hot_potato.Error.{ok}
use hot_potato.Message.{Message, queued, delivered, status_eq, Time}
use hot_potato.Store.{fifo, or_default}
use hot_potato.Store.Fifo.{fifo_nil}
use hot_potato.Memory.Defs.{MemoryStore, poll, poll_loop}

abbrev pub is_queued : Message → Bool
is_queued m = status_eq m.status queued

-- The letter as the receiver gets it.
abbrev pub handed_over : Time → Message → Message
handed_over now m = record m { status = delivered; delivered_at = some now }

abbrev pub TakesOldest : ℕ → ℕ → ℕ → Time → List Message → Type 0
TakesOldest limit n room now box =
    ((poll_loop limit n now box).0 ≡ map (handed_over now) (take (suc room) (filter is_queued box)))
    × (filter is_queued (poll_loop limit n now box).1 ≡ drop (suc room) (filter is_queued box))

poll_loop-fit :
    (limit n room : ℕ) (now : Time) (m : Message) (ms : List Message)
    → limit ≡ n + suc room
    → is_queued m ≡ true
    → ((r : ℕ) → limit ≡ n + 1 + suc r → TakesOldest limit (n + 1) r now ms)
    → TakesOldest limit n room now (m ∷ ms)
unfolding poll_loop filter
poll_loop-fit limit n zero now m ms h fit ih =
    let last : leb limit (n + 1) ≡ true = ground arith in rw (fit, last) (refl, refl)
poll_loop-fit limit n (suc r) now m ms h fit ih =
    let more : leb limit (n + 1) ≡ false = ground arith in
    let (takes, leaves) = ih r (omega arith) in
    rw (fit, more) (ap (λ l. handed_over now m ∷ l) takes, leaves)

-- With room for `room + 1` more letters.
pub poll_loop-takes :
    (limit n room : ℕ) (now : Time) (box : List Message)
    → limit ≡ n + suc room
    → TakesOldest limit n room now box
unfolding poll_loop filter
poll_loop-takes limit n room now [] h = (refl, refl)
poll_loop-takes limit n room now (m ∷ ms) h = elim (Bool-cases (is_queued m)) [
  | inr skip ↦
      let (takes, leaves) = poll_loop-takes limit n room now ms h in rw skip (takes, rw skip leaves)
  | inl fit ↦
      poll_loop-fit limit n room now m ms h fit (λ r e. poll_loop-takes limit (n + 1) r now ms e)
]

-- A poll with a limit of `room + 1` answers with the oldest queued letters of the mailbox, at most
-- that many, marked delivered now; the queued letters that the mailbox keeps are the others, in
-- order.
pub poll_lem :
    (agent : String) (room : ℕ) (now : Time) (s : MemoryStore)
    → let waiting = filter is_queued (fifo (or_default (lookup agent s.mailboxes))) in
      let polled = poll agent (suc room) now s in
      (polled.0 ≡ ok (map (handed_over now) (take (suc room) waiting)))
      × (filter is_queued (or_default (lookup agent polled.1.mailboxes)) ≡ drop (suc room) waiting)
unfolding poll filter
poll_lem agent room now s = elim (Option-cases (lookup agent s.mailboxes)) [
  | inl e ↦ rw (e, poll) (rw fifo_nil (refl, rw e refl))
  | inr (box, e) ↦
      let (takes, leaves) = poll_loop-takes (suc room) 0 room now (fifo box) (omega arith) in
      rw (e, poll) (ap ok takes, rw lookup-insert_self leaves)
]
