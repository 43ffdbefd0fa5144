-- ===== src/Message.antt =====
-- message.rs: the letter, its kinds and states, and the walk to the root of its thread.
pub mod Thread
use hot_potato.Prelude.{
  ℕ, zero, suc, ◌<◌, ◌≡◌, String, Bool, true, false, not, ◌&&◌, Option, none, some, List, [], ◌∷◌,
  ◌==◌, str_eq, is_some, if◌then◌else◌,
}

pub data MsgType : Type 0 where
  task reply broadcast ack_only : MsgType

pub data MessageStatus : Type 0 where
  queued pushing delivered read acked dead : MessageStatus

-- The derived `PartialEq`.
abbrev pub status_index : MessageStatus → ℕ
status_index queued = 0
status_index pushing = 1
status_index delivered = 2
status_index read = 3
status_index acked = 4
status_index dead = 5

abbrev pub status_eq : MessageStatus → MessageStatus → Bool
status_eq s t = status_index s == status_index t

abbrev pub msg_type_index : MsgType → ℕ
msg_type_index task = 0
msg_type_index reply = 1
msg_type_index broadcast = 2
msg_type_index ack_only = 3

abbrev pub msg_type_eq : MsgType → MsgType → Bool
msg_type_eq a b = msg_type_index a == msg_type_index b

-- The derived `Debug` of a status, as the errors print it.
abbrev pub status_debug : MessageStatus → String
status_debug queued = "Queued"
status_debug pushing = "Pushing"
status_debug delivered = "Delivered"
status_debug read = "Read"
status_debug acked = "Acked"
status_debug dead = "Dead"

-- A `DateTime<Utc>` is the number of nanoseconds since the epoch.
abbrev pub Time : Type 0
Time = ℕ

pub record Message : Type 0 where
  pub id : String
  pub sender : String
  pub receiver : String
  pub msg_type : MsgType
  pub subject : String
  pub body : String
  pub ref : Option String
  pub status : MessageStatus
  pub created_at : Time
  pub delivered_at : Option Time
  pub read_at : Option Time
  pub acked_at : Option Time
  pub ack_note : Option String
  pub hops : ℕ  -- u8
  pub forwarded_from : Option String
  pub attempts : ℕ  -- u32
  pub last_push_at : Option Time
  pub last_error : Option String
  pub dead_reason : Option String

-- `Message::new`. The fresh id of `Uuid::new_v4` and the clock are arguments.
unfoldable pub new_message :
    String → Time → String → String → MsgType → String → String → Option String → Message
new_message uuid now sender receiver msg_type subject body ref = record {
  id = uuid;
  sender = sender;
  receiver = receiver;
  msg_type = msg_type;
  subject = subject;
  body = body;
  ref = ref;
  status = queued;
  created_at = now;
  delivered_at = none;
  read_at = none;
  acked_at = none;
  ack_note = none;
  hops = 0;
  forwarded_from = none;
  attempts = 0;
  last_push_at = none;
  last_error = none;
  dead_reason = none;
}

-- The map `by_id`: collected from the list, so that a later letter replaces an earlier one.
unfoldable pub by_id : List Message → String → Option Message
by_id [] key = none
by_id (m ∷ ms) key = elim (by_id ms key) [
  | some later ↦ some later
  | none ↦ if str_eq m.id key then some m else none
]

abbrev pub ref_of : Option Message → Option String
ref_of none = none
ref_of (some m) = m.ref

-- The arms of the loop's `match`: the parent, if it is a letter of the list and not the letter.
parent_or_break : List Message → String → Option String → Option String
parent_or_break all cur none = none
parent_or_break all cur (some next) =
    if is_some (by_id all next) && not (str_eq next cur) then some next else none

unfoldable pub next_hop : List Message → String → Option String
unfolding parent_or_break
next_hop all cur = parent_or_break all cur (ref_of (by_id all cur))

-- The loop `for _ in 0..32`.
unfoldable pub walk : ℕ → List Message → String → String
walk zero all cur = cur
walk (suc n) all cur = elim (next_hop all cur) [ none ↦ cur | some next ↦ walk n all next ]

abbrev pub max_walk : ℕ
max_walk = 32

unfoldable pub thread_root_id : List Message → String → String
thread_root_id all id = walk max_walk all id
