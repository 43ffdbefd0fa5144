-- ===== src/Server/Send.antt =====
-- server.rs: `message/send`, in its four branches.
mod Params
mod Fanout
mod Pools
unfoldable pub use Params.*
unfoldable pub use Fanout.*
unfoldable pub use Pools.*
use Prim.Native.String.{◌++◌ as str_append}
use hot_potato.Prelude.{
  ℕ, String, Bool, true, false, not, ◌||◌, Option, none, some, is_some, List, [], ◌∷◌, ◌++◌, str_eq,
  if◌then◌else◌,
}
use hot_potato.Error.{Result, BusResult, ok, err}
use hot_potato.Message.{Message, MsgType, Time, new_message}
use hot_potato.Store.Interface.{BusStore}
use hot_potato.Bus.Defs
use hot_potato.Bus.Defs.{EventBus, worker}
use hot_potato.Deliver.{PushTransport, Registry, poll, register_tagged}
use hot_potato.Federation.{
  Peer, ForwardRequest, PeerAnswer, resolve, forward, wire_hops, read_type, inbound_checks,
}
use hot_potato.Handshake.{contains_agent}
use hot_potato.Sweeper.{Post, dispatch_from, settle_push, with_bus, is_ok_true}
use hot_potato.Sweeper.Watch.{emit_marked}
use hot_potato.Server.{context_of, find_letter, push_on_arrival}
use hot_potato.Server.Gate.{is_authed}
use hot_potato.Server.Pool.{
  ServerConfig, HeaderMap, Pool, Reply, bus_error, error, sent, forwarded, fanout, Handler,
}

module _ (B : BusStore) (T : PushTransport) where
  -- The letter as it is announced: the stored one, or one that is made up where it is missing.
  abbrev or_ghost : String → Time → Envelope → Option Message → Message
  or_ghost ghost now e (some l) = l
  or_ghost ghost now e none = new_message ghost now e.sender e.receiver e.kind e.subject e.body none

  unfoldable pub local_sent : String → Time → Envelope → BusResult String × EventBus B → Handler B T
  local_sent ghost now e (err x, bus) p = (bus_error x, record p { post = with_bus B T bus p.post })
  local_sent ghost now e (ok id, bus) p =
      let found = find_letter id (Defs.peek B e.receiver bus) in
      let post =
        emit_some B T "queued" (some (or_ghost ghost now e found)) (with_bus B T bus p.post) in
      (sent id, record p { post = push_on_arrival B T p.registry id e.receiver now post })

  -- (3) A letter within the pool. `ghost` is the id of a letter that is made up.
  unfoldable pub send_local : String → String → Time → Envelope → Handler B T
  unfolding local_sent
  send_local uuid ghost now e p =
      local_sent ghost now e (send_by B T uuid now e 0 none p.post.bus) p

  -- The branches in order. `fresh` gives the fresh ids.
  unfoldable pub send_envelope :
      (ForwardRequest → PeerAnswer)
      → (String → String)
      → Time
      → ServerConfig
      → HeaderMap
      → Envelope
      → Handler B T
  send_envelope pools fresh now config headers e p =
      if str_eq e.receiver "all" then send_all B T fresh now e p else elim headers.potato_pool [
        | some from_pool ↦ send_inbound B T (fresh "letter") now config headers e from_pool p
        | none ↦ elim (home_pool B T config p.dynamic_peers e.receiver) [
          | some peer ↦ send_outbound B T pools (fresh "letter") now config e peer p
          | none ↦ send_local (fresh "letter") (fresh "ghost") now e p
        ]
      ]

  unfoldable pub send_read :
      (ForwardRequest → PeerAnswer)
      → (String → String)
      → Time
      → ServerConfig
      → HeaderMap
      → Option Envelope
      → Handler B T
  send_read pools fresh now config headers none p = (error "missing param", p)
  send_read pools fresh now config headers (some e) p =
      send_envelope pools fresh now config headers e p

  -- `message/send`.
  unfoldable pub handle_send :
      (ForwardRequest → PeerAnswer)
      → (String → String)
      → Time
      → ServerConfig
      → HeaderMap
      → SendParams
      → Handler B T
  unfolding send_read
  handle_send pools fresh now config headers q =
      send_read pools fresh now config headers (read_params q)
