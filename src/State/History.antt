-- ===== src/State/History.antt =====
-- Runs of events over the state machine, where a refused event or a no-op changes nothing.
use hot_potato.Prelude.{
  ◌≤◌, ◌≡◌, refl, ◌⊎◌, inl, inr, Bool, true, false, List, [], ◌∷◌, arith, any, Bool-cases,
}
use hot_potato.Error.{ok, err}
use hot_potato.Message.{MessageStatus, queued, delivered, read, acked, dead, status_index}
use hot_potato.State.{Event, push_ok, poll_claimed, ack, revive_auth, to, no_op, apply}
use hot_potato.State.Table.{apply-eq-verdict}

-- What the stores make of a verdict.
unfoldable pub advance : MessageStatus → Event → MessageStatus
advance s e = elim (apply s e) [ ok (to t) ↦ t | ok (no_op t) ↦ s | err _ ↦ s ]

unfoldable pub run : MessageStatus → List Event → MessageStatus
run s [] = s
run s (e ∷ es) = run (advance s e) es

-- The letter has left the shelf: it was delivered, and perhaps read and acked.
abbrev pub HasLeft : MessageStatus → Type 0
HasLeft s = (2 ≤ status_index s) × (status_index s ≤ 4)

advance-HasLeft :
    (s : MessageStatus) (e : Event)
    → HasLeft s
    → HasLeft (advance s e) × (status_index s ≤ status_index (advance s e))
unfolding advance
advance-HasLeft s e h = ground (arith, apply-eq-verdict s e)

-- A letter that has left the shelf never returns to it, whatever events follow, and only moves
-- forward along delivered, read, acked; so an acked letter stays acked.
pub run-HasLeft :
    (s : MessageStatus) (es : List Event)
    → HasLeft s
    → HasLeft (run s es) × (status_index s ≤ status_index (run s es))
unfolding run
run-HasLeft s [] h = (h, omega arith)
run-HasLeft s (e ∷ es) h =
    let (next, up) = advance-HasLeft s e h in
    let (last, up') = run-HasLeft (advance s e) es next in (last, omega arith)

abbrev pub is_revive : Event → Bool
is_revive revive_auth = true
is_revive _ = false

abbrev pub is_ack : Event → Bool
is_ack (ack text) = true
is_ack _ = false

-- The events by which a letter is handed over.
abbrev pub is_handover : Event → Bool
is_handover push_ok = true
is_handover poll_claimed = true
is_handover _ = false

advance-dead : (e : Event) → is_revive e ≡ false → advance dead e ≡ dead
unfolding advance
advance-dead e h = ground (arith, apply-eq-verdict dead e)

-- Without a `revive_auth` no events bring a dead letter back.
pub run-dead : (es : List Event) → any is_revive es ≡ false → run dead es ≡ dead
unfolding run any
run-dead [] h = refl
run-dead (e ∷ es) h = elim (Bool-cases (is_revive e)) [
  | inl t ↦ absurd (ground arith)
  | inr f ↦ rw (advance-dead e f) (run-dead es (rw f at h))
]

abbrev on_shelf : MessageStatus → Bool
on_shelf delivered = false
on_shelf read = false
on_shelf acked = false
on_shelf _ = true

advance-acked :
    (s : MessageStatus) (e : Event) → (is_ack e ≡ true) ⊎ (advance s e ≡ acked → s ≡ acked)
unfolding advance
advance-acked s e = ground (arith, apply-eq-verdict s e)

advance-on_shelf :
    (s : MessageStatus) (e : Event)
    → on_shelf s ≡ true
    → (is_handover e ≡ true) ⊎ (on_shelf (advance s e) ≡ true)
unfolding advance
advance-on_shelf s e h = ground (arith, apply-eq-verdict s e)

run-acked_needs_ack :
    (s : MessageStatus) (es : List Event) → run s es ≡ acked → (s ≡ acked) ⊎ (any is_ack es ≡ true)
unfolding run any
run-acked_needs_ack s [] h = inl h
run-acked_needs_ack s (e ∷ es) h =
    ground (arith, run-acked_needs_ack (advance s e) es h, advance-acked s e)

run-acked_needs_handover :
    (s : MessageStatus) (es : List Event)
    → on_shelf s ≡ true
    → run s es ≡ acked
    → any is_handover es ≡ true
unfolding run any
run-acked_needs_handover s [] o h = absurd (ground arith)
run-acked_needs_handover s (e ∷ es) o h = elim (advance-on_shelf s e o) [
  | inl t ↦ rw t refl
  | inr o' ↦ elim (Bool-cases (is_handover e)) [
    | inl t ↦ rw t refl
    | inr f ↦ rw f (run-acked_needs_handover (advance s e) es o' h)
  ]
]

-- A letter that was queued and is acked has been handed over, by an accepted push or by a poll,
-- and its receiver has sent an ack.
pub acked_history :
    (es : List Event) → run queued es ≡ acked → (any is_handover es ≡ true) × (any is_ack es ≡ true)
acked_history es h =
    (run-acked_needs_handover queued es refl h, acked_of_queued (run-acked_needs_ack queued es h))
  where
    acked_of_queued : (queued ≡ acked) ⊎ (any is_ack es ≡ true) → any is_ack es ≡ true
    acked_of_queued (inl p) = cc
    acked_of_queued (inr q) = q
