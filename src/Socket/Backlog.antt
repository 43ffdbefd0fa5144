-- ===== src/Socket/Backlog.antt =====
-- The counters of a snapshot, and what a client with a failing connection gets.
use native.Mathlib.Nat.{zero-add}
use hot_potato.Prelude.{
  ℕ, zero, suc, ◌+◌, ◌-◌, ◌≡◌, ◌⊎◌, refl, sym, ap, ◌∙◌, String, false, ◌&&◌, Option, none, some,
  List, [], ◌∷◌, take, length, filter, any, Assoc, lookup, lookup-insert, str_eq, if◌then◌else◌,
  arith, inl, inr, Bool-cases, eq_iff,
}
use hot_potato.Message.{Message, MessageStatus, status_eq}
use hot_potato.Socket.{
  Depth, count_letter, backlog_loop, or_empty_depth, one_if, stats_of, Wake, Frame, Step, send,
  pass, stop, step_of, sent_first, pump,
}

-- The letters of a receiver with a status.
abbrev pub count : String → MessageStatus → List Message → ℕ
count r s ms = length (filter (λ m. str_eq m.receiver r && status_eq m.status s) ms)

plus : Depth → String → List Message → Depth
plus d r ms = record {
  queued = d.queued + count r MessageStatus.queued ms;
  unread = d.unread + count r MessageStatus.delivered ms;
}

depth_eq :
    {a b c d : ℕ}
    → a ≡ b
    → c ≡ d
    → ◌≡◌ {A = Option Depth}
        (some (record { queued = a; unread = c }))
        (some (record { queued = b; unread = d }))
depth_eq p q = cc

count-none :
    (r : String) (s : MessageStatus) (ms : List Message)
    → any (λ m. str_eq m.receiver r) ms ≡ false
    → count r s ms ≡ 0
unfolding any filter
count-none r s [] h = refl
count-none r s (m ∷ ms) h = ground (arith, count-none r s ms)

count-cons :
    (r : String) (s : MessageStatus) (m : Message) (ms : List Message)
    → count r s (m ∷ ms)
      ≡ (if str_eq m.receiver r then one_if (status_eq m.status s) else 0) + count r s ms
unfolding filter
count-cons r s m ms = ground arith

backlog_loop-lookup :
    (r : String) (ms : List Message) (backlog : Assoc Depth)
    → lookup r (backlog_loop ms backlog) ≡ (
        if any (λ m. str_eq m.receiver r) ms
        then some (plus (or_empty_depth (lookup r backlog)) r ms)
        else lookup r backlog)
unfolding backlog_loop any plus count_letter
backlog_loop-lookup r [] backlog = refl
backlog_loop-lookup r (m ∷ ms) backlog =
    let e = or_empty_depth (lookup m.receiver backlog) in
    let counted : Depth = record {
      queued = e.queued + one_if (status_eq m.status MessageStatus.queued);
      unread = e.unread + one_if (status_eq m.status MessageStatus.delivered);
    } in
    let ih = backlog_loop-lookup r ms (count_letter m backlog) in
    let found = lookup-insert m.receiver r counted backlog in
    elim (Bool-cases (str_eq m.receiver r)) [
      | inl own ↦
          rw
            (
              ih,
              found,
              own,
              count-cons r MessageStatus.queued m ms,
              count-cons r MessageStatus.delivered m ms,
              own,
            )
            (let here_too =
                ap (λ k. or_empty_depth (lookup k backlog)) ((eq_iff m.receiver r).0 own) in
              elim (Bool-cases (any (λ l. str_eq l.receiver r) ms)) [
                | inl more ↦ rw (more, here_too) (depth_eq (omega arith) (omega arith))
                | inr last ↦
                    rw
                      (
                        last,
                        here_too,
                        count-none r MessageStatus.queued ms last,
                        count-none r MessageStatus.delivered ms last,
                      )
                      (depth_eq (omega arith) (omega arith))
              ])
      | inr other ↦
          rw
            (
              ih,
              found,
              other,
              count-cons r MessageStatus.queued m ms,
              count-cons r MessageStatus.delivered m ms,
              other,
            )
            (rw
              (
                zero-add (count r MessageStatus.queued ms),
                zero-add (count r MessageStatus.delivered ms),
              )
              refl)
    ]

-- In the statistics that a client gets, a receiver has an entry exactly if the bus has a letter for
-- it, and the entry counts its queued letters, and its delivered ones.
pub stats_of-lookup :
    (r : String) (all : List Message)
    → lookup r (stats_of all).mailbox_backlog ≡ (
        if any (λ m. str_eq m.receiver r) all
        then some (record {
          queued = count r MessageStatus.queued all;
          unread = count r MessageStatus.delivered all;
        })
        else none)
unfolding stats_of lookup plus
stats_of-lookup r all =
    rw
      (
        backlog_loop-lookup r all [],
        zero-add (count r MessageStatus.queued all),
        zero-add (count r MessageStatus.delivered all),
      )
      refl

-- The frames of a connection whose socket never fails.
unfoldable pub frames : List Wake → List Frame
frames [] = []
frames (w ∷ ws) =
    let rest = frames ws in elim (step_of w) [ send f ↦ f ∷ rest | pass ↦ rest | stop ↦ [] ]

Step-cases : (s : Step) → ((f : Frame) × (s ≡ send f)) ⊎ ((s ≡ pass) ⊎ (s ≡ stop))
Step-cases (send f) = inl (f, refl)
Step-cases pass = inr (inl refl)
Step-cases stop = inr (inr refl)

take_nil : (n : ℕ) → ◌≡◌ {A = List Frame} (take n []) []
take_nil zero = refl
take_nil (suc n) = refl

suc-sub_one : (n : ℕ) → suc n - 1 ≡ n
suc-sub_one n = omega arith

sent_first-take :
    (room : ℕ) (f : Frame) (later all : List Frame)
    → later ≡ take (room - 1) all
    → sent_first room f later ≡ take room (f ∷ all)
unfolding sent_first
sent_first-take zero f later all h = refl
sent_first-take (suc room) f later all h =
    ap (λ l. f ∷ l) (h ∙ ap (λ n. take n all) (suc-sub_one room))

-- A client whose socket fails after `room` frames has got the first `room` of the frames that it
-- would have got otherwise.
pub pump-take : (room : ℕ) (ws : List Wake) → pump room ws ≡ take room (frames ws)
unfolding pump frames
pump-take room [] = sym (take_nil room)
pump-take room (w ∷ ws) = elim (Step-cases (step_of w)) [
  | inl (f, e) ↦
      rw (e, pump, frames)
        (sent_first-take room f (pump (room - 1) ws) (frames ws) (pump-take (room - 1) ws))
  | inr (inl e) ↦ rw (e, pump, frames) (pump-take room ws)
  | inr (inr e) ↦ rw (e, pump, frames) (sym (take_nil room))
]
