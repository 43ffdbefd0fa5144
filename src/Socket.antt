-- ===== src/Socket.antt =====
-- ws.rs: the events that observers get, who may observe, and the frames of one connection.
pub mod Backlog
pub mod Admission
use hot_potato.Prelude.{
  ℕ, zero, suc, ◌+◌, ◌-◌, String, Bool, true, false, not, ◌&&◌, Option, none, some, is_some, List,
  [], ◌∷◌, ◌++◌, length, filter, Assoc, lookup, insert, if◌then◌else◌,
}
use hot_potato.Error.{BusResult, ok, err}
use hot_potato.Message.{Message, MsgType, MessageStatus, queued, delivered, status_eq, Time}
use hot_potato.Store.Interface.{BusStore}
use hot_potato.Bus.Defs
use hot_potato.Bus.Defs.{EventBus}
use hot_potato.Server.Pool.{ServerConfig}
use hot_potato.Server.Gate.{is_text, has_session}

pub record BusEvent : Type 0 where
  pub event : String
  pub message : Message

-- `u64` counters of a receiver.
pub record Depth : Type 0 where
  pub queued : ℕ
  pub unread : ℕ

abbrev pub or_empty_depth : Option Depth → Depth
or_empty_depth none = record { queued = 0; unread = 0 }
or_empty_depth (some d) = d

abbrev pub one_if : Bool → ℕ
one_if true = 1
one_if false = 0

-- One round of the loop over the letters.
unfoldable pub count_letter : Message → Assoc Depth → Assoc Depth
count_letter m backlog =
    let e = or_empty_depth (lookup m.receiver backlog) in
    let counted : Depth = record {
      queued = e.queued + one_if (status_eq m.status MessageStatus.queued);
      unread = e.unread + one_if (status_eq m.status MessageStatus.delivered);
    } in
    insert m.receiver counted backlog

unfoldable pub backlog_loop : List Message → Assoc Depth → Assoc Depth
unfolding count_letter
backlog_loop [] backlog = backlog
backlog_loop (m ∷ ms) backlog = backlog_loop ms (count_letter m backlog)

-- The statistics of a hello or heartbeat frame.
pub record Stats : Type 0 where
  pub total_letters : ℕ
  pub acked : ℕ
  pub mailbox_backlog : Assoc Depth

unfoldable pub stats_of : List Message → Stats
unfolding backlog_loop
stats_of all = record {
  total_letters = length all;
  acked = length (filter (λ m. is_some m.acked_at) all);
  mailbox_backlog = backlog_loop all [];
}

-- The JSON frames. `BusEvent::to_json` shows these fields of the letter, and the time.
pub data Frame : Type 0 where
  hello : Stats → Frame
  heartbeat : Stats → Frame
  lagged : Frame
  lifecycle : String → Time → String → String → String → MsgType → String → MessageStatus → Frame

unfoldable pub to_json : Time → BusEvent → Frame
to_json now ev =
    lifecycle ev.event now ev.message.id ev.message.sender ev.message.receiver ev.message.msg_type
      ev.message.subject ev.message.status

-- What wakes the loop of `stream`, and the letters or the time that it then reads: an event, the
-- news that events were dropped, the end of the channel, the timer, something from the client, or
-- the end of the client.
pub data Wake : Type 0 where
  event : Time → BusEvent → Wake
  dropped : Wake
  channel_closed : Wake
  tick : List Message → Wake
  client_sent : Wake
  client_gone : Wake

-- What the loop does then: a frame, nothing, or its end.
pub data Step : Type 0 where
  send : Frame → Step
  pass : Step
  stop : Step

unfoldable pub step_of : Wake → Step
unfolding to_json
step_of (event now ev) = send (to_json now ev)
step_of dropped = send lagged
step_of channel_closed = stop
step_of (tick all) = send (heartbeat (stats_of all))
step_of client_sent = pass
step_of client_gone = stop

-- A failed send ends the loop.
unfoldable pub sent_first : ℕ → Frame → List Frame → List Frame
sent_first zero f later = []
sent_first (suc room) f later = f ∷ later

-- The loop: the frames that reach the client. `room` is the number of frames that the socket takes
-- before a send fails.
unfoldable pub pump : ℕ → List Wake → List Frame
unfolding sent_first
pump room [] = []
pump room (w ∷ ws) =
    let rest = pump room ws in
    let later = pump (room - 1) ws in
    elim (step_of w) [ send f ↦ sent_first room f later | pass ↦ rest | stop ↦ [] ]

-- `list_all().unwrap_or_default()`.
abbrev or_no_letters : BusResult (List Message) → List Message
or_no_letters (ok ms) = ms
or_no_letters (err e) = []

-- `stream`: the snapshot, and then the loop.
unfoldable pub stream : (B : BusStore) → EventBus B → ℕ → List Wake → List Frame
stream B bus zero ws = []
stream B bus (suc room) ws = hello (stats_of (or_no_letters (Defs.list_all B bus))) ∷ pump room ws

-- `ws_handler`: the token and the session come with the query.
unfoldable pub is_admitted : ServerConfig → List String → Option String → Option String → Bool
is_admitted config sessions t sid =
    let token_ok : Bool = elim config.bearer_token [
      | none ↦ false
      | some expected ↦ is_text t expected
    ] in
    let locked : Bool = is_some config.bearer_token in
    not (locked && (not token_ok && not (has_session sid sessions)))
