-- ===== src/Store.antt =====
-- store/mod.rs: the helpers that the backends share.
pub mod Fifo
pub mod Interface
use Prim.Native.Nat.{compare, Ordering}
use hot_potato.Prelude.{String, Bool, true, false, List, [], str_le, sort_by, Option, none, some}
use hot_potato.Error.{BusError, BusResult, ok, err, not_deliverable}
use hot_potato.Message.{Message, MessageStatus, delivered, read, status_debug}

-- `created_at.cmp(..).then(id.cmp(..))` is not `Greater`.
unfoldable pub message_le : Message → Message → Bool
message_le a b = elim (compare a.created_at b.created_at) [
  | Ordering.lt ↦ true
  | Ordering.eq ↦ str_le a.id b.id
  | Ordering.gt ↦ false
]

unfoldable pub fifo : List Message → List Message
fifo = sort_by message_le

ack_target : MessageStatus → Message → BusResult (Unit {0})
ack_target delivered msg = ok tt
ack_target read msg = ok tt
ack_target other msg = err (not_deliverable msg.id (status_debug other))

unfoldable pub validate_ack : Message → BusResult (Unit {0})
unfolding ack_target
validate_ack msg = ack_target msg.status msg

abbrev pub or_default : Option (List Message) → List Message
or_default none = []
or_default (some box) = box
