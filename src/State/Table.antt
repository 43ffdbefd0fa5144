-- ===== src/State/Table.antt =====
-- The table against the lifecycle `queued → pushing → delivered → read → acked` of the documents.
use hot_potato.Prelude.{◌≡◌, refl, ◌↔◌, String, Option, arith}
use hot_potato.Error.{Result, ok, err}
use hot_potato.Message.{MessageStatus, queued, pushing, delivered, read, acked, dead}
use hot_potato.State.{
  Event, name, Illegal, push_started, push_ok, push_rejected, push_errored, poll_claimed,
  read_receipt, ack, give_up, revive_auth, Transition, to, no_op, apply,
}

-- The lifecycle, an arrow for each step that the documents name.
pub data Lifecycle : MessageStatus → Event → MessageStatus → Type 0 where
  starts : Lifecycle queued push_started pushing
  accepted : Lifecycle pushing push_ok delivered
  refused : (reason : String) → Lifecycle pushing (push_rejected reason) queued
  broken : (reason : String) → Lifecycle pushing (push_errored reason) queued
  claimed : Lifecycle queued poll_claimed delivered
  opened : Lifecycle delivered read_receipt read
  filed : (text : Option String) → Lifecycle delivered (ack text) acked
  filed_read : (text : Option String) → Lifecycle read (ack text) acked
  buried : (reason : String) → Lifecycle queued (give_up reason) dead
  poisoned : (reason : String) → Lifecycle pushing (give_up reason) dead
  revived : Lifecycle dead revive_auth queued

ruleset arrows = (
  starts, accepted, refused, broken, claimed, opened, filed, filed_read, buried, poisoned, revived,
)

-- The table and what follows it, as one match on the pair.
abbrev pub verdict : MessageStatus → Event → Result Illegal Transition
verdict queued push_started = ok (to pushing)
verdict pushing push_ok = ok (to delivered)
verdict pushing (push_rejected reason) = ok (to queued)
verdict pushing (push_errored reason) = ok (to queued)
verdict queued poll_claimed = ok (to delivered)
verdict delivered read_receipt = ok (to read)
verdict delivered (ack text) = ok (to acked)
verdict read (ack text) = ok (to acked)
verdict queued (give_up reason) = ok (to dead)
verdict pushing (give_up reason) = ok (to dead)
verdict dead revive_auth = ok (to queued)
verdict pushing push_started = ok (no_op pushing)
verdict s e = err (record { event = name e; from = s })

pub apply-eq-verdict : (s : MessageStatus) (e : Event) → apply s e ≡ verdict s e
unfolding apply
apply-eq-verdict queued push_started = refl
apply-eq-verdict pushing push_ok = refl
apply-eq-verdict delivered (push_rejected reason) = refl
apply-eq-verdict read (push_errored reason) = refl
apply-eq-verdict acked poll_claimed = refl
apply-eq-verdict dead read_receipt = refl
apply-eq-verdict queued (ack text) = refl
apply-eq-verdict queued (give_up reason) = refl
apply-eq-verdict queued revive_auth = refl
apply-eq-verdict queued _ = refl
apply-eq-verdict pushing push_started = refl
apply-eq-verdict pushing _ = refl
apply-eq-verdict delivered push_started = refl
apply-eq-verdict delivered _ = refl
apply-eq-verdict read push_started = refl
apply-eq-verdict read _ = refl
apply-eq-verdict acked push_started = refl
apply-eq-verdict acked _ = refl
apply-eq-verdict dead push_started = refl
apply-eq-verdict dead _ = refl

verdict-sound : (s t : MessageStatus) (e : Event) → verdict s e ≡ ok (to t) → Lifecycle s e t
verdict-sound queued t push_started h = grind (arith, arrows)
verdict-sound queued t poll_claimed h = grind (arith, arrows)
verdict-sound queued t (give_up reason) h = grind (arith, arrows)
verdict-sound queued t _ h = cc
verdict-sound pushing t push_ok h = grind (arith, arrows)
verdict-sound pushing t (push_rejected reason) h = grind (arith, arrows)
verdict-sound pushing t (push_errored reason) h = grind (arith, arrows)
verdict-sound pushing t (give_up reason) h = grind (arith, arrows)
verdict-sound pushing t _ h = cc
verdict-sound delivered t read_receipt h = grind (arith, arrows)
verdict-sound delivered t (ack text) h = grind (arith, arrows)
verdict-sound delivered t _ h = cc
verdict-sound read t (ack text) h = grind (arith, arrows)
verdict-sound read t _ h = cc
verdict-sound acked t e h = absurd (ground arith)
verdict-sound dead t revive_auth h = grind (arith, arrows)
verdict-sound dead t _ h = cc

no_op_only :
    (s : MessageStatus) (e : Event) {t : MessageStatus}
    → verdict s e ≡ ok (no_op t)
    → (s ≡ pushing) × (e ≡ push_started) × (t ≡ pushing)
no_op_only s e h = ground arith

no_op_if :
    (s : MessageStatus) (e : Event) (t : MessageStatus)
    → (s ≡ pushing) × (e ≡ push_started) × (t ≡ pushing)
    → verdict s e ≡ ok (no_op t)
no_op_if s e t (ps, pe, pt) = rw (ps, pe, pt) refl

pub apply_complete : {s t : MessageStatus} {e : Event} → Lifecycle s e t → apply s e ≡ ok (to t)
unfolding apply
apply_complete starts = refl
apply_complete accepted = refl
apply_complete (refused reason) = refl
apply_complete (broken reason) = refl
apply_complete claimed = refl
apply_complete opened = refl
apply_complete (filed text) = refl
apply_complete (filed_read text) = refl
apply_complete (buried reason) = refl
apply_complete (poisoned reason) = refl
apply_complete revived = refl

-- `apply` changes the status exactly along the arrows of the lifecycle, the only no-op is a second
-- `push_started` on a letter that is being pushed, and every other pair is refused.
pub apply-Lifecycle :
    (s : MessageStatus) (e : Event)
    → ((t : MessageStatus) → (apply s e ≡ ok (to t)) ↔ Lifecycle s e t)
      × ((t : MessageStatus)
          → (apply s e ≡ ok (no_op t)) ↔ ((s ≡ pushing) × (e ≡ push_started) × (t ≡ pushing)))
apply-Lifecycle s e = rw apply-eq-verdict (
  λ t. (verdict-sound s t e, λ l. rw apply-eq-verdict at (apply_complete l)),
  λ t. (no_op_only s e, no_op_if s e t),
)
