-- ===== src/Memory/Letter.antt =====
-- store/memory.rs: what each operation does to the letter that it has found.
use hot_potato.Prelude.{
  String, Bool, true, false, not, ◌&&◌, ◌||◌, Option, none, some, str_contains, take_chars,
  if◌then◌else◌,
}
use mathlib.Core.Option
use hot_potato.Error.{Result, BusResult, ok, err, not_deliverable}
use hot_potato.Message.{
  Message, MessageStatus, queued, pushing, delivered, read, acked, dead, status_eq, status_debug,
  Time,
}
use hot_potato.State.{
  Event, push_started, push_ok, push_rejected, push_errored, poll_claimed, read_receipt, ack,
  give_up, revive_auth, Illegal, Transition, to, no_op, apply, u32_add_one, should_give_up,
}
use hot_potato.Store.{validate_ack}

-- `reason.contains("401") || …`: the errors that a new credential cures.
unfoldable pub is_auth_error : String → Bool
is_auth_error reason =
    str_contains reason "401" || (str_contains reason "403" || str_contains reason "Unauthorized")

-- `apply_event`, the first `match`: what is noted before the state machine has spoken.
unfoldable pub note_event : Event → Time → Message → Message
note_event push_started stamp m = record m {
  attempts = u32_add_one m.attempts;
  last_push_at = some stamp;
}
note_event (push_rejected reason) stamp m = record m { last_error = some reason }
note_event (push_errored reason) stamp m = record m { last_error = some reason }
note_event (give_up reason) stamp m = record m { dead_reason = some reason }
note_event event stamp m = m

abbrev pub or_stamp : Option Time → Time → Option Time
or_stamp none stamp = some stamp
or_stamp (some t) stamp = some t

-- `apply_event`, the last `match`: the stamps that go with the new status.
unfoldable pub stamp_event : Event → MessageStatus → Time → Message → Message
stamp_event push_ok delivered stamp m = record m { delivered_at = some stamp }
stamp_event poll_claimed delivered stamp m = record m { delivered_at = some stamp }
stamp_event read_receipt read stamp m = record m { read_at = some stamp }
stamp_event (ack text) acked stamp m = record m {
  acked_at = some stamp;
  ack_note = Option.map (take_chars 80) text;
  read_at = or_stamp m.read_at stamp;
}
stamp_event event status stamp m = m

settle : Result Illegal Transition → Event → Time → (Message → Message) → Message → Message
settle (ok (to t)) event stamp f m =
    let changed = f m in stamp_event event changed.status stamp changed
settle (ok (no_op t)) event stamp f m = m
settle (err e) event stamp f m = m

unfoldable pub apply_event : Message → Event → Time → (Message → Message) → Message
unfolding note_event settle stamp_event
apply_event m event stamp f =
    let noted = note_event event stamp m in settle (apply noted.status event) event stamp f noted

-- `mark_delivered`.
unfoldable pub deliver_letter : Time → Message → Message
deliver_letter now m =
    if status_eq m.status queued
    then record m { status = delivered; delivered_at = some now }
    else m

claim_verdict : Result Illegal Transition → Time → Message → Message × BusResult Bool
claim_verdict (ok (to pushing)) now m = (
  record m { attempts = u32_add_one m.attempts; last_push_at = some now; status = pushing },
  ok true,
)
claim_verdict other now m = (m, ok false)

-- `mark_pushing`.
unfoldable pub claim_letter : Time → Message → Message × BusResult Bool
unfolding claim_verdict
claim_letter now m = claim_verdict (apply m.status push_started) now m

-- `mark_push_ok`.
unfoldable pub push_ok_letter : Time → Message → Message
unfolding apply_event
push_ok_letter now m =
    apply_event m push_ok now (λ l. record l { status = delivered; delivered_at = some now })

-- `mark_push_failed`: a letter is given up only when its attempts have run out and the reason is
-- no credential error.
unfoldable pub push_failed_letter : String → Time → Message → Message
unfolding apply_event should_give_up
push_failed_letter reason now m =
    if should_give_up m.attempts && not (is_auth_error reason)
    then apply_event m (give_up reason) now (λ l. record l { status = dead })
    else apply_event m (push_rejected reason) now (λ l. record l { status = queued })

abbrev pub is_auth_dead : Message → Bool
is_auth_dead m = elim m.dead_reason [ none ↦ false | some e ↦ is_auth_error e ]

-- `revive_auth_dead`, the body of its loop's test.
unfoldable pub revive_letter : Time → Message → Message
unfolding apply_event
revive_letter now m =
    apply_event m revive_auth now
      (λ l. record l { status = queued; dead_reason = none; last_error = none; attempts = 0 })

-- `reclaim_stale_pushing`.
unfoldable pub reclaim_letter : String → Time → Message → Message
unfolding apply_event
reclaim_letter reason now m =
    apply_event m (push_rejected reason) now (λ l. record l { status = queued })

-- `mark_dead`.
unfoldable pub dead_letter : String → Time → Message → Message
unfolding apply_event
dead_letter reason now m = apply_event m (give_up reason) now (λ l. record l { status = dead })

-- `mark_read`.
unfoldable pub read_letter : Time → Message → Message × BusResult Message
read_letter now m =
    let opened = record m { status = read; read_at = some now } in
    if not (status_eq m.status delivered)
    then (m, err (not_deliverable m.id (status_debug m.status)))
    else (opened, ok opened)

-- `ack`, after `validate_ack`.
unfoldable pub filed : String → Time → Message → Message
filed text now m = record m {
  read_at = or_stamp m.read_at now;
  status = acked;
  acked_at = some now;
  ack_note = some (take_chars 80 text);
}

ack_checked : BusResult (Unit {0}) → String → Time → Message → Message × BusResult Message
ack_checked (ok _) text now m = (filed text now m, ok (filed text now m))
ack_checked (err e) text now m = (m, err e)

-- `ack`.
unfoldable pub ack_letter : String → Time → Message → Message × BusResult Message
unfolding ack_checked filed validate_ack
ack_letter text now m =
    if status_eq m.status acked then (m, ok m) else ack_checked (validate_ack m) text now m
