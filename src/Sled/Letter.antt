-- ===== src/Sled/Letter.antt =====
-- store/sled_store.rs: the closures that `update_one` runs on the letter it has found, each with
-- what it gives beside the letter.
use hot_potato.Prelude.{
  String, Bool, true, false, not, ◌&&◌, ◌||◌, Option, none, some, str_eq, str_contains, take_chars,
  if◌then◌else◌,
}
use hot_potato.Error.{Result, BusResult, ok, err, not_deliverable, ◌>>=◌}
use hot_potato.Message.{
  Message, queued, pushing, delivered, read, acked, dead, status_eq, status_debug, Time,
}
use hot_potato.State.{
  push_started, push_ok, push_rejected, give_up, revive_auth, Illegal, Transition, to, no_op, apply,
  u32_add_one, should_give_up,
}
use hot_potato.Store.{validate_ack}

-- A closure: the letter after it with what it found out, or the error that aborts the update.
abbrev pub Update : Type 0 → Type 0
Update A = Message → BusResult (Message × A)

-- `mark_delivered`.
unfoldable pub deliver_update : Time → Update (Unit {0})
deliver_update now m = ok (
  (if status_eq m.status queued
      then record m { status = delivered; delivered_at = some now }
      else m),
  tt,
)

claim_verdict : Time → Message → Result Illegal Transition → Message × Bool
claim_verdict now m (ok (to pushing)) = (
  record m { attempts = u32_add_one m.attempts; last_push_at = some now; status = pushing },
  true,
)
claim_verdict now m other = (m, false)

-- `mark_pushing`: the flag `won` beside the letter.
unfoldable pub claim_update : Time → Update Bool
unfolding claim_verdict
claim_update now m = ok (claim_verdict now m (apply m.status push_started))

push_ok_verdict : Time → Message → Result Illegal Transition → Message
push_ok_verdict now m (ok (to t)) =
    let moved = record m { status = t } in
    if status_eq t delivered then record moved { delivered_at = some now } else moved
push_ok_verdict now m (ok (no_op t)) = m
push_ok_verdict now m (err e) = m

-- `mark_push_ok`.
unfoldable pub push_ok_update : Time → Update (Unit {0})
unfolding push_ok_verdict
push_ok_update now m = ok (push_ok_verdict now m (apply m.status push_ok), tt)

-- The condition that keeps a letter from being given up.
unfoldable pub is_auth_error : String → Bool
is_auth_error reason =
    str_contains reason "401" || (str_contains reason "403" || str_contains reason "Unauthorized")

moved_to : (Message → Message) → Message → Result Illegal Transition → Message
moved_to f m (ok (to t)) = f (record m { status = t })
moved_to f m (ok (no_op t)) = m
moved_to f m (err e) = m

-- `mark_push_failed`: the error is noted whatever comes of it.
unfoldable pub push_failed_update : String → Update (Unit {0})
unfolding moved_to is_auth_error
push_failed_update reason m =
    let noted = record m { last_error = some reason } in
    if should_give_up m.attempts && not (is_auth_error reason)
    then ok (
      moved_to (λ l. record l { dead_reason = some reason }) noted
          (apply m.status (give_up reason)),
      tt,
    )
    else ok (moved_to (λ l. l) noted (apply m.status (push_rejected reason)), tt)

-- The candidates of `revive_auth_dead`.
unfoldable pub is_candidate : String → Message → Bool
unfolding is_auth_error
is_candidate agent m =
    str_eq m.receiver agent
    && (status_eq m.status dead && elim m.dead_reason [ none ↦ false | some e ↦ is_auth_error e ])

-- `revive_auth_dead`.
unfoldable pub revive_update : Update (Unit {0})
unfolding moved_to
revive_update m = ok (
  moved_to (λ l. record l { dead_reason = none; last_error = none; attempts = 0 }) m
      (apply m.status revive_auth),
  tt,
)

-- `reclaim_stale_pushing`.
unfoldable pub reclaim_update : String → Update (Unit {0})
unfolding moved_to
reclaim_update reason m = ok (
  moved_to (λ l. l) (record m { last_error = some reason }) (apply m.status (push_rejected reason)),
  tt,
)

dead_verdict : String → Message → Result Illegal Transition → Message
dead_verdict reason m (ok (to t)) =
    let moved = record m { status = t } in
    if status_eq t dead then record moved { dead_reason = some reason } else moved
dead_verdict reason m (ok (no_op t)) = m
dead_verdict reason m (err e) = m

-- `mark_dead`.
unfoldable pub dead_update : String → Update (Unit {0})
unfolding dead_verdict
dead_update reason m = ok (dead_verdict reason m (apply m.status (give_up reason)), tt)

-- `mark_read`.
unfoldable pub read_update : Time → Update (Unit {0})
read_update now m =
    if not (status_eq m.status delivered)
    then err (not_deliverable m.id (status_debug m.status))
    else ok (record m { status = read; read_at = some now }, tt)

abbrev or_now : Option Time → Time → Option Time
or_now none now = some now
or_now (some t) now = some t

-- `ack`.
unfoldable pub ack_update : String → Time → Update (Unit {0})
unfolding validate_ack
ack_update text now m =
    if status_eq m.status acked
    then ok (m, tt)
    else validate_ack m >>= λ _. ok (
      record m {
        read_at = or_now m.read_at now;
        status = acked;
        acked_at = some now;
        ack_note = some (take_chars 80 text);
      },
      tt,
    )
