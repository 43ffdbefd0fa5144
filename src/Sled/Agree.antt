-- ===== src/Sled/Agree.antt =====
-- The closures of the two backends compared.
use hot_potato.Prelude.{◌≡◌, String, none, arith}
use hot_potato.Error.{ok, err, BusResult}
use hot_potato.Message.{Message, Time}
use hot_potato.State.{push_ok, push_started, push_rejected, give_up, revive_auth}
use hot_potato.State.Table.{apply-eq-verdict}
use hot_potato.Memory.Letter
use hot_potato.Sled.Letter.{
  is_auth_error, deliver_update, claim_update, push_ok_update, push_failed_update, revive_update,
  reclaim_update, dead_update, read_update, ack_update,
}

-- What the in-memory backend answers and stores, as the outcome of an update.
abbrev pub outcome : {A : Type 0} → Message × BusResult A → BusResult (Message × A)
outcome (m, ok a) = ok (m, a)
outcome (m, err e) = err e

-- The answer of an operation that gives the letter back.
abbrev pub answer : {A : Type 0} → BusResult (Message × A) → BusResult Message
answer (ok (m, a)) = ok m
answer (err e) = err e

-- A letter without the notes on why it failed.
abbrev pub without_notes : Message → Message
without_notes m = record m { last_error = none; dead_reason = none }

-- The same outcome, with a letter without notes.
abbrev pub noteless : {A : Type 0} → BusResult (Message × A) → BusResult (Message × A)
noteless (ok (m, a)) = ok (without_notes m, a)
noteless (err e) = err e

-- The letter in the store after an update.
abbrev pub stored : {A : Type 0} → Message → BusResult (Message × A) → Message
stored m (ok (m', a)) = m'
stored m (err e) = m

pub push_failed-agree :
    (reason : String) (now : Time) (m : Message)
    → noteless (push_failed_update reason m)
      ≡ noteless (ok (Letter.push_failed_letter reason now m, tt))
unfolding push_failed_update Letter.push_failed_letter Letter.is_auth_error is_auth_error
push_failed-agree reason now m = ground (
  arith,
  apply-eq-verdict m.status (give_up reason),
  apply-eq-verdict m.status (push_rejected reason),
)

pub dead-agree :
    (reason : String) (now : Time) (m : Message)
    → noteless (dead_update reason m) ≡ noteless (ok (Letter.dead_letter reason now m, tt))
unfolding dead_update Letter.dead_letter
dead-agree reason now m = ground (arith, apply-eq-verdict m.status (give_up reason))

-- The two backends make the same of a letter and give the same answer: in full for a delivery, a
-- claim, an accepted push, a revival, a reclaim, a read receipt and an ack; for a failed push and
-- for `mark_dead`, which both always succeed, up to the notes of the last error and of the reason
-- of death.
pub updates_agree :
    (text reason : String) (now : Time) (m : Message)
    → (deliver_update now m ≡ ok (Letter.deliver_letter now m, tt))
      × (claim_update now m ≡ outcome (Letter.claim_letter now m))
      × (push_ok_update now m ≡ ok (Letter.push_ok_letter now m, tt))
      × (revive_update m ≡ ok (Letter.revive_letter now m, tt))
      × (reclaim_update reason m ≡ ok (Letter.reclaim_letter reason now m, tt))
      × (stored m (read_update now m) ≡ (Letter.read_letter now m).0)
      × (answer (read_update now m) ≡ (Letter.read_letter now m).1)
      × (stored m (ack_update text now m) ≡ (Letter.ack_letter text now m).0)
      × (answer (ack_update text now m) ≡ (Letter.ack_letter text now m).1)
      × (noteless (push_failed_update reason m)
          ≡ noteless (ok (Letter.push_failed_letter reason now m, tt)))
      × (noteless (dead_update reason m) ≡ noteless (ok (Letter.dead_letter reason now m, tt)))
unfolding deliver_update claim_update push_ok_update revive_update reclaim_update read_update
    ack_update Letter.deliver_letter Letter.claim_letter Letter.push_ok_letter Letter.revive_letter
    Letter.reclaim_letter Letter.read_letter Letter.ack_letter
updates_agree text reason now m = (
  ground arith,
  ground (arith, apply-eq-verdict m.status push_started),
  ground (arith, apply-eq-verdict m.status push_ok),
  ground (arith, apply-eq-verdict m.status revive_auth),
  ground (arith, apply-eq-verdict m.status (push_rejected reason)),
  ground arith,
  ground arith,
  ground arith,
  ground arith,
  push_failed-agree reason now m,
  dead-agree reason now m,
)
