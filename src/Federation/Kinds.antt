-- ===== src/Federation/Kinds.antt =====
-- federation.rs and server.rs: what the next pool makes of the type of a forwarded letter.
use hot_potato.Prelude.{◌≡◌, ◌≢◌, ◌↔◌, String, arith}
use hot_potato.Message.{Message, MsgType, task, reply, broadcast, ack_only}
use hot_potato.Federation.{Peer, forward_request, read_type, type_text}

-- The pool that gets a forwarded letter reads its type as it was exactly if the letter is no
-- `ack_only`; an `ack_only` letter it takes for a task.
pub forward_request-read_type :
    (peer : Peer) (m : Message) (pool : String)
    → ((read_type (forward_request peer m pool).kind ≡ m.msg_type) ↔ (m.msg_type ≢ ack_only))
      × ((m.msg_type ≡ ack_only)
          ↔ ((m.msg_type ≢ task) × (read_type (forward_request peer m pool).kind ≡ task)))
unfolding forward_request
forward_request-read_type peer m pool = by_type m.msg_type
  where
    by_type :
        (k : MsgType)
        → ((read_type (type_text k) ≡ k) ↔ (k ≢ ack_only))
          × ((k ≡ ack_only) ↔ ((k ≢ task) × (read_type (type_text k) ≡ task)))
    by_type task = ground arith
    by_type reply = ground arith
    by_type broadcast = ground arith
    by_type ack_only = ground arith
