-- ===== src/State.antt =====
-- state.rs: the events of a letter, the table of transitions, and the bookkeeping beside it.
pub mod Table
pub mod History
use hot_potato.Prelude.{
  ℕ, ◌+◌, ◌%◌, ◌^◌, String, Bool, true, false, ◌&&◌, Option, none, some, List, [], ◌∷◌, leb, str_eq,
  if◌then◌else◌,
}
use hot_potato.Error.{Result, ok, err}
use hot_potato.Message.{
  MessageStatus, queued, pushing, delivered, read, acked, dead, status_eq, Time,
}

pub data Event : Type 0 where
  push_started : Event
  push_ok : Event
  push_rejected : String → Event
  push_errored : String → Event
  poll_claimed : Event
  read_receipt : Event
  ack : Option String → Event
  give_up : String → Event
  revive_auth : Event

-- `Event::name`.
abbrev pub name : Event → String
name push_started = "push_started"
name push_ok = "push_ok"
name (push_rejected reason) = "push_rejected"
name (push_errored reason) = "push_errored"
name poll_claimed = "poll_claimed"
name read_receipt = "read_receipt"
name (ack text) = "ack"
name (give_up reason) = "give_up"
name revive_auth = "revive_auth"

pub record Illegal : Type 0 where
  pub event : String
  pub from : MessageStatus

abbrev pub transitions : List (MessageStatus × String × MessageStatus)
transitions =
    (queued, "push_started", pushing)
    ∷ (pushing, "push_ok", delivered)
    ∷ (pushing, "push_rejected", queued)
    ∷ (pushing, "push_errored", queued)
    ∷ (queued, "poll_claimed", delivered)
    ∷ (delivered, "read_receipt", read)
    ∷ (delivered, "ack", acked)
    ∷ (read, "ack", acked)
    ∷ (queued, "give_up", dead)
    ∷ (pushing, "give_up", dead)
    ∷ (dead, "revive_auth", queued)
    ∷ []

pub data Transition : Type 0 where
  to : MessageStatus → Transition
  no_op : MessageStatus → Transition

-- The loop over the table: the target of the first row that fits.
abbrev pub find_row :
    MessageStatus → String → List (MessageStatus × String × MessageStatus) → Option MessageStatus
find_row status ev [] = none
find_row status ev ((f, e, t) ∷ rows) =
    let rest = find_row status ev rows in if status_eq f status && str_eq e ev then some t else rest

-- What follows the loop: a second `push_started` is a no-op, anything else is refused.
not_in_table : MessageStatus → Event → Result Illegal Transition
not_in_table status push_started =
    if status_eq status pushing
    then ok (no_op status)
    else err (record { event = "push_started"; from = status })
not_in_table status event = err (record { event = name event; from = status })

row_or : MessageStatus → Event → Option MessageStatus → Result Illegal Transition
row_or status event none = not_in_table status event
row_or status event (some t) = ok (to t)

unfoldable pub apply : MessageStatus → Event → Result Illegal Transition
unfolding row_or not_in_table
apply status event = row_or status event (find_row status (name event) transitions)

abbrev pub max_attempts : ℕ
max_attempts = 8

abbrev pub pushing_timeout_secs : ℕ
pushing_timeout_secs = 150

-- A `u32` counter: the release build wraps.
abbrev pub u32_add_one : ℕ → ℕ
u32_add_one n = (n + 1) % 2 ^ 32

pub record Bookkeeping : Type 0 where
  pub attempts : Option ℕ
  pub last_error : Option String
  pub last_push_at : Option Time
  pub dead_reason : Option String

abbrev pub default_bookkeeping : Bookkeeping
default_bookkeeping = record {
  attempts = none;
  last_error = none;
  last_push_at = none;
  dead_reason = none;
}

unfoldable pub bookkeep : Event → ℕ → Time → Bookkeeping
bookkeep push_started prev now = record default_bookkeeping {
  attempts = some (u32_add_one prev);
  last_push_at = some now;
}
bookkeep (push_rejected reason) prev now = record default_bookkeeping { last_error = some reason }
bookkeep (push_errored reason) prev now = record default_bookkeeping { last_error = some reason }
bookkeep (give_up reason) prev now = record default_bookkeeping { dead_reason = some reason }
bookkeep revive_auth prev now = record default_bookkeeping {
  attempts = some 0;
  last_error = none;
  dead_reason = none;
}
bookkeep event prev now = default_bookkeeping

unfoldable pub should_give_up : ℕ → Bool
should_give_up attempts = leb max_attempts attempts
