-- ===== src/Memory/Changes.antt =====
-- The changes that the operations make to a letter: each follows the lifecycle, keeps the envelope,
-- and keeps the stamps in step with the status.
use hot_potato.Prelude.{
  ◌≡◌, String, Bool, true, false, Option, some, arith, is_some, not, ◌&&◌, if◌then◌else◌,
}
use hot_potato.Message.{
  Message, MessageStatus, pushing, delivered, read, acked, dead, Time, new_message, MsgType,
}
use hot_potato.State.{
  Event, push_started, push_ok, push_rejected, push_errored, poll_claimed, read_receipt, give_up,
  revive_auth, to, no_op, apply, should_give_up,
}
use hot_potato.State
use hot_potato.State.Table.{apply-eq-verdict}
use hot_potato.State.History.{advance}
use hot_potato.Memory.Letter.{
  deliver_letter, claim_letter, push_ok_letter, push_failed_letter, revive_letter, reclaim_letter,
  dead_letter, read_letter, ack_letter, is_auth_error,
}

-- What one operation may do to one letter.
pub data Change (m m' : Message) : Type 0 where
  deliver : (now : Time) → m' ≡ deliver_letter now m → Change m m'
  claim : (now : Time) → m' ≡ (claim_letter now m).0 → Change m m'
  succeed : (now : Time) → m' ≡ push_ok_letter now m → Change m m'
  fail : (reason : String) (now : Time) → m' ≡ push_failed_letter reason now m → Change m m'
  revive : (now : Time) → m' ≡ revive_letter now m → Change m m'
  reclaim : (reason : String) (now : Time) → m' ≡ reclaim_letter reason now m → Change m m'
  bury : (reason : String) (now : Time) → m' ≡ dead_letter reason now m → Change m m'
  open_letter : (now : Time) → m' ≡ (read_letter now m).0 → Change m m'
  file : (text : String) (now : Time) → m' ≡ (ack_letter text now m).0 → Change m m'

-- What a letter says, apart from how far it has come.
pub record SameEnvelope (m m' : Message) : Type 0 where
  pub id : m'.id ≡ m.id
  pub sender : m'.sender ≡ m.sender
  pub receiver : m'.receiver ≡ m.receiver
  pub msg_type : m'.msg_type ≡ m.msg_type
  pub subject : m'.subject ≡ m.subject
  pub body : m'.body ≡ m.body
  pub ref : m'.ref ≡ m.ref
  pub created_at : m'.created_at ≡ m.created_at
  pub hops : m'.hops ≡ m.hops
  pub forwarded_from : m'.forwarded_from ≡ m.forwarded_from

pub Change-SameEnvelope : {m m' : Message} → Change m m' → SameEnvelope m m'
unfolding deliver_letter claim_letter push_ok_letter push_failed_letter revive_letter reclaim_letter
    dead_letter read_letter ack_letter
Change-SameEnvelope {m} (deliver now e) = ground arith
Change-SameEnvelope {m} (claim now e) = ground (arith, apply-eq-verdict m.status push_started)
Change-SameEnvelope {m} (succeed now e) = ground (arith, apply-eq-verdict m.status push_ok)
Change-SameEnvelope {m} (fail reason now e) = ground (
  arith,
  apply-eq-verdict m.status (give_up reason),
  apply-eq-verdict m.status (push_rejected reason),
)
Change-SameEnvelope {m} (revive now e) = ground (arith, apply-eq-verdict m.status revive_auth)
Change-SameEnvelope {m} (reclaim reason now e) =
    ground (arith, apply-eq-verdict m.status (push_rejected reason))
Change-SameEnvelope {m} (bury reason now e) =
    ground (arith, apply-eq-verdict m.status (give_up reason))
Change-SameEnvelope {m} (open_letter now e) = ground arith
Change-SameEnvelope {m} (file text now e) = ground arith

-- Whether the letter has been delivered, and whether it has been read.
abbrev pub has_left : MessageStatus → Bool
has_left delivered = true
has_left read = true
has_left acked = true
has_left _ = false

abbrev pub was_read : MessageStatus → Bool
was_read read = true
was_read acked = true
was_read _ = false

abbrev pub is_acked : MessageStatus → Bool
is_acked acked = true
is_acked _ = false

-- A letter carries each receipt exactly from the moment that its status claims it.
pub record WellStamped (m : Message) : Type 0 where
  pub delivery : is_some m.delivered_at ≡ has_left m.status
  pub reading : is_some m.read_at ≡ was_read m.status
  pub acking : is_some m.acked_at ≡ is_acked m.status
  pub noting : is_some m.ack_note ≡ is_acked m.status
  pub pushed : m.status ≡ pushing → is_some m.last_push_at ≡ true
  pub blamed : m.status ≡ dead → is_some m.dead_reason ≡ true

pub new_message-WellStamped :
    (uuid : String) (now : Time) (sender receiver : String) (kind : MsgType) (subject body : String)
    (ref : Option String)
    → WellStamped (new_message uuid now sender receiver kind subject body ref)
unfolding new_message
new_message-WellStamped uuid now sender receiver kind subject body ref = ground arith

pub Change-WellStamped : {m m' : Message} → Change m m' → WellStamped m → WellStamped m'
unfolding deliver_letter claim_letter push_ok_letter push_failed_letter revive_letter reclaim_letter
    dead_letter read_letter ack_letter
Change-WellStamped {m} (deliver now e) w = ground arith
Change-WellStamped {m} (claim now e) w = ground (arith, apply-eq-verdict m.status push_started)
Change-WellStamped {m} (succeed now e) w = ground (arith, apply-eq-verdict m.status push_ok)
Change-WellStamped {m} (fail reason now e) w = ground (
  arith,
  apply-eq-verdict m.status (give_up reason),
  apply-eq-verdict m.status (push_rejected reason),
)
Change-WellStamped {m} (revive now e) w = ground (arith, apply-eq-verdict m.status revive_auth)
Change-WellStamped {m} (reclaim reason now e) w =
    ground (arith, apply-eq-verdict m.status (push_rejected reason))
Change-WellStamped {m} (bury reason now e) w =
    ground (arith, apply-eq-verdict m.status (give_up reason))
Change-WellStamped {m} (open_letter now e) w = ground arith
Change-WellStamped {m} (file text now e) w = ground arith

-- The event by which an operation puts a letter to the state machine.
abbrev pub event_of : {m m' : Message} → Change m m' → Event
event_of (deliver now e) = poll_claimed
event_of (claim now e) = push_started
event_of (succeed now e) = push_ok
event_of {m} (fail reason now e) =
    if should_give_up m.attempts && not (is_auth_error reason)
    then give_up reason
    else push_rejected reason
event_of (revive now e) = revive_auth
event_of (reclaim reason now e) = push_rejected reason
event_of (bury reason now e) = give_up reason
event_of (open_letter now e) = read_receipt
event_of (file text now e) = State.ack (some text)

-- Whatever an operation does to a letter, also where it writes the status by hand, the status
-- after it is the one to which the state machine takes the status before it, on the event of that
-- operation.
pub Change-advance : {m m' : Message} (c : Change m m') → m'.status ≡ advance m.status (event_of c)
unfolding advance deliver_letter claim_letter push_ok_letter push_failed_letter revive_letter
    reclaim_letter dead_letter read_letter ack_letter
Change-advance {m} (deliver now e) = ground (arith, apply-eq-verdict m.status poll_claimed)
Change-advance {m} (claim now e) = ground (arith, apply-eq-verdict m.status push_started)
Change-advance {m} (succeed now e) = ground (arith, apply-eq-verdict m.status push_ok)
Change-advance {m} (fail reason now e) = ground (
  arith,
  apply-eq-verdict m.status (give_up reason),
  apply-eq-verdict m.status (push_rejected reason),
)
Change-advance {m} (revive now e) = ground (arith, apply-eq-verdict m.status revive_auth)
Change-advance {m} (reclaim reason now e) =
    ground (arith, apply-eq-verdict m.status (push_rejected reason))
Change-advance {m} (bury reason now e) = ground (arith, apply-eq-verdict m.status (give_up reason))
Change-advance {m} (open_letter now e) = ground (arith, apply-eq-verdict m.status read_receipt)
Change-advance {m} (file text now e) =
    ground (arith, apply-eq-verdict m.status (State.ack (some text)))
