-- ===== src/Server.antt =====
-- server.rs: the push of a letter on its arrival.
pub mod Pool
pub mod Gate
pub mod Agents
pub mod Send
pub mod Mail
pub mod Peers
pub mod Diagnose
pub mod LogPage
pub mod Rpc
pub mod Locked
pub mod Keeps
pub mod RelayKeeps
pub mod SendKeeps
pub mod Stored
pub mod MailKeeps
pub mod Kept
pub mod Arrival
pub mod Listing
pub mod Journeys
pub mod Wire
pub mod Links
pub mod Crossing
pub mod Greetings
use hot_potato.Prelude.{String, Option, none, some, List, find, str_eq}
use hot_potato.Error.{BusResult, ok, err}
use hot_potato.Message.{Message, Time}
use hot_potato.Store.Interface.{BusStore}
use hot_potato.Bus.Defs
use hot_potato.Deliver.{PushTransport, PushLetter, Registry}
use hot_potato.Sweeper.{Post, thread_context, dispatch_from, settle_push}

-- `contextId` is set only if the letters can be listed.
abbrev context_of : BusResult (List Message) → String → Option String
context_of (ok all) id = some (thread_context all id)
context_of (err e) id = none

abbrev pub find_letter : String → BusResult (List Message) → Option Message
find_letter id (ok letters) = find (λ m. str_eq m.id id) letters
find_letter id (err e) = none

module _ (B : BusStore) (T : PushTransport) where
  unfoldable pub push_found :
      Registry → String → String → Time → Option Message → Post B T → Post B T
  push_found registry id receiver now none p = p
  push_found registry id receiver now (some letter) p =
      let sent =
        dispatch_from B T registry receiver
          (record { letter = letter; context_id = context_of (Defs.list_all B p.bus) id }) p in
      (settle_push B T receiver id now sent.0 sent.1).0

  -- `push_on_arrival`: the letter is found among the queued ones, pushed, and settled. It makes no
  -- claim before the push.
  unfoldable pub push_on_arrival : Registry → String → String → Time → Post B T → Post B T
  unfolding push_found
  push_on_arrival registry id receiver now p =
      push_found registry id receiver now (find_letter id (Defs.peek B receiver p.bus)) p
