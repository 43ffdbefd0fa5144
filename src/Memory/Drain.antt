-- ===== src/Memory/Drain.antt =====
-- Receivers that keep polling empty their mailbox.
use hot_potato.Prelude.{
  ℕ, suc, ◌+◌, ◌≤◌, ◌≡◌, refl, ap, ◌∙◌, sym, String, true, List, [], ◌∷◌, ◌++◌, map, length, take,
  drop, filter, All, IsSorted, lookup, arith, inl, inr, Bool-cases, lookup-insert_self,
  take-append_drop, drop-drop, take_all, drop_all, Option-cases, leb,
}
use hot_potato.Error.{BusResult, ok, err}
use hot_potato.Message.{Message, Time}
use hot_potato.Store.{fifo, message_le, or_default}
use hot_potato.Store.Fifo.{fifo-sorts, fifo_sorted, fifo_nil}
use hot_potato.Memory.Defs.{MemoryStore, poll, poll_loop}
use hot_potato.Memory.Poll.{is_queued, handed_over, poll_lem, poll_loop-takes}

-- A poll hands letters over, which keeps the order of the mailbox.
poll_loop-All_le :
    (x : Message) (limit n : ℕ) (now : Time) (ms : List Message)
    → All (λ y. message_le x y ≡ true) ms
    → All (λ y. message_le x y ≡ true) (poll_loop limit n now ms).1
unfolding poll_loop message_le
poll_loop-All_le x limit n now [] h = tt
poll_loop-All_le x limit n now (m ∷ ms) h = elim (Bool-cases (is_queued m)) [
  | inr skip ↦ rw skip (h.0, poll_loop-All_le x limit n now ms h.1)
  | inl fit ↦ elim (Bool-cases (leb limit (n + 1))) [
    | inl last ↦ rw (fit, last) h
    | inr more ↦ rw (fit, more) (h.0, poll_loop-All_le x limit (n + 1) now ms h.1)
  ]
]

poll_loop-IsSorted :
    (limit n : ℕ) (now : Time) (ms : List Message)
    → IsSorted message_le ms
    → IsSorted message_le (poll_loop limit n now ms).1
unfolding poll_loop message_le
poll_loop-IsSorted limit n now [] h = tt
poll_loop-IsSorted limit n now (m ∷ ms) h = elim (Bool-cases (is_queued m)) [
  | inr skip ↦
      rw skip (poll_loop-All_le m limit n now ms h.0, poll_loop-IsSorted limit n now ms h.1)
  | inl fit ↦ elim (Bool-cases (leb limit (n + 1))) [
    | inl last ↦ rw (fit, last) h
    | inr more ↦
        rw (fit, more)
          (poll_loop-All_le m limit (n + 1) now ms h.0, poll_loop-IsSorted limit (n + 1) now ms h.1)
  ]
]

abbrev mailbox : String → MemoryStore → List Message
mailbox agent s = or_default (lookup agent s.mailboxes)

-- The letters that wait for a receiver, the oldest first.
abbrev pub waiting : String → MemoryStore → List Message
waiting agent s = filter is_queued (fifo (mailbox agent s))

poll-waiting :
    (agent : String) (room : ℕ) (now : Time) (s : MemoryStore)
    → waiting agent (poll agent (suc room) now s).1 ≡ drop (suc room) (waiting agent s)
unfolding poll filter
poll-waiting agent room now s = elim (Option-cases (lookup agent s.mailboxes)) [
  | inl e ↦ rw (e, poll) (rw (e, fifo_nil) refl)
  | inr (box, e) ↦
      let left = (poll_loop-takes (suc room) 0 room now (fifo box) (omega arith)).1 in
      let sorted = poll_loop-IsSorted (suc room) 0 now (fifo box) (fifo-sorts box).1 in
      rw (e, poll)
        (rw (lookup-insert_self, fifo_sorted (poll_loop (suc room) 0 now (fifo box)).1 sorted) left)
]

-- What an answer hands over.
abbrev pub letters_of : BusResult (List Message) → List Message
letters_of (ok ms) = ms
letters_of (err e) = []

-- A poll of a receiver: its limit less one, and its time.
abbrev pub Round : Type 0
Round = ℕ × Time

abbrev pub room_for : List Round → ℕ
room_for [] = 0
room_for (r ∷ rs) = suc r.0 + room_for rs

-- The polls of a receiver one after the other: the letters that it gets, and the store in the end.
unfoldable pub polls : String → List Round → MemoryStore → List Message × MemoryStore
polls agent [] s = ([], s)
polls agent (r ∷ rs) s =
    let polled = poll agent (suc r.0) r.1 s in
    let later = polls agent rs polled.1 in (letters_of polled.0 ++ later.0, later.1)

abbrev pub ids : List Message → List String
ids = map (λ m. m.id)

ids-handed_over : (now : Time) (ms : List Message) → ids (map (handed_over now) ms) ≡ ids ms
ids-handed_over now [] = refl
ids-handed_over now (m ∷ ms) = ap (λ l. m.id ∷ l) (ids-handed_over now ms)

ids-append : (xs ys : List Message) → ids (xs ++ ys) ≡ ids xs ++ ids ys
ids-append [] ys = refl
ids-append (x ∷ xs) ys = ap (λ l. x.id ∷ l) (ids-append xs ys)

poll-ids :
    (agent : String) (room : ℕ) (now : Time) (s : MemoryStore)
    → ids (letters_of (poll agent (suc room) now s).0) ≡ ids (take (suc room) (waiting agent s))
unfolding poll
poll-ids agent room now s =
    rw (poll_lem agent room now s).0 (ids-handed_over now (take (suc room) (waiting agent s)))

polls-take :
    (agent : String) (rs : List Round) (s : MemoryStore)
    → (ids (polls agent rs s).0 ≡ ids (take (room_for rs) (waiting agent s)))
      × (waiting agent (polls agent rs s).1 ≡ drop (room_for rs) (waiting agent s))
unfolding polls
polls-take agent [] s = (refl, refl)
polls-take agent (r ∷ rs) s =
    let polled = poll agent (suc r.0) r.1 s in
    let left = poll-waiting agent r.0 r.1 s in
    let (got, kept) = polls-take agent rs polled.1 in
    (
      ids-append (letters_of polled.0) (polls agent rs polled.1).0
          ∙ ap (λ l. l ++ ids (polls agent rs polled.1).0) (poll-ids agent r.0 r.1 s)
          ∙ ap (λ l. ids (take (suc r.0) (waiting agent s)) ++ l) (rw left at got)
          ∙ sym (
              ids-append (take (suc r.0) (waiting agent s))
                (take (room_for rs) (drop (suc r.0) (waiting agent s))))
          ∙ ap ids (take-append_drop (suc r.0) (room_for rs) (waiting agent s)),
      kept ∙ ap (drop (room_for rs)) left ∙ drop-drop (suc r.0) (room_for rs) (waiting agent s),
    )

-- A receiver that polls, each time with a limit of at least one, gets every letter that was queued
-- for it, once and the oldest first, as soon as its limits add up to their number; no queued letter
-- is left in its mailbox then.
pub polls-drain :
    (agent : String) (rs : List Round) (s : MemoryStore)
    → length (waiting agent s) ≤ room_for rs
    → (ids (polls agent rs s).0 ≡ ids (waiting agent s)) × (waiting agent (polls agent rs s).1 ≡ [])
polls-drain agent rs s enough =
    let (got, kept) = polls-take agent rs s in
    (
      got ∙ ap ids (take_all (room_for rs) (waiting agent s) enough),
      kept ∙ drop_all (room_for rs) (waiting agent s) enough,
    )
