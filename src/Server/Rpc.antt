-- ===== src/Server/Rpc.antt =====
-- server.rs: `rpc`, from the login and the gate to the handler of each method.
use Prim.Native.String.{◌++◌ as str_append}
use hot_potato.Prelude.{List, ℕ, String, Option}
use hot_potato.Message.{Time}
use hot_potato.Store.Interface.{BusStore}
use hot_potato.Deliver.{PushTransport}
use hot_potato.Federation.{Peer, ForwardRequest, PeerAnswer}
use hot_potato.Sweeper.Diagnose.{PoolReply}
use hot_potato.Server.Pool.{method_table, ServerConfig, HeaderMap, error, Handler}
use hot_potato.Server.Gate.{login, gated}
use hot_potato.Server.Listing.{Query}
use hot_potato.Server.Agents.{Registration, handle_register, handle_unregister, handle_agents}
use hot_potato.Server.Send.{SendParams, handle_send}
use hot_potato.Server.Diagnose.{handle_diagnose}
use hot_potato.Server.Mail.{
  handle_poll, handle_read, handle_ack, handle_status, handle_peek, handle_archive, handle_delete,
  handle_delete_all, handle_list, handle_thread,
}
use hot_potato.Server.Peers.{
  PeerParams, Accepting, handle_invite, handle_join, handle_accept, handle_peer_register,
  handle_peers,
}

-- A request: a method and its parameters. `rpc.discover` answers with a static table, and
-- `other` is any method that is not named here.
pub data Request : Type 0 where
  dashboard_login : Option String → Option String → Request
  agent_register : Registration → Request
  agent_unregister : Option String → Request
  agent_list : Request
  agent_status : Option String → Request
  message_send : SendParams → Request
  message_poll : Option String → Option ℕ → Request
  message_read : Option String → Option String → Request
  message_ack : Option String → Option String → Option String → Request
  message_peek : Option String → Request
  message_delete : Option String → Request
  message_delete_all : Request
  message_list : Query → Request
  message_thread : Option String → Request
  bus_archive : Request
  bus_diagnose : Request
  peer_invite : Request
  peer_join : PeerParams → Request
  peer_accept : PeerParams → Request
  peer_register : PeerParams → Request
  peer_list : Request
  rpc_discover : Request
  other : String → Request

-- What lies outside: fresh ids and codes, the pools that letters are forwarded to, the pools that
-- invite and the reading of their address from a JSON text, lower case, the printed seconds of
-- the clock, and the pools that are diagnosed.
pub record World : Type 0 where
  pub fresh : String → String
  pub pools : ForwardRequest → PeerAnswer
  pub url_in : List ℕ → Option String
  pub present : String → PeerParams → Accepting
  pub lower : String → String
  pub stamp : Time → String
  pub remote : Peer → String → PoolReply

module _ (B : BusStore) (T : PushTransport) where
  unfoldable pub unknown : String → Handler B T
  unknown name p = (
    error (
        str_append "unknown method: "
          (str_append name " (call rpc.discover for the method table)")),
    p,
  )

  -- The `match` on the method.
  unfoldable pub dispatch : World → Time → ServerConfig → HeaderMap → Request → Handler B T
  unfolding unknown
  dispatch w now config headers (dashboard_login username password) = unknown "dashboard/login"
  dispatch w now config headers (agent_register r) = handle_register B T r now
  dispatch w now config headers (agent_unregister agent) = handle_unregister B T agent
  dispatch w now config headers agent_list = handle_agents B T
  dispatch w now config headers (agent_status agent) = handle_status B T agent
  dispatch w now config headers (message_send q) =
      handle_send B T w.pools w.fresh now config headers q
  dispatch w now config headers (message_poll agent limit) = handle_poll B T agent limit now
  dispatch w now config headers (message_read agent id) = handle_read B T agent id now
  dispatch w now config headers (message_ack agent id text) = handle_ack B T agent id text now
  dispatch w now config headers (message_peek agent) = handle_peek B T agent
  dispatch w now config headers (message_delete id) = handle_delete B T id
  dispatch w now config headers message_delete_all = handle_delete_all B T
  dispatch w now config headers (message_list q) = handle_list B T w.lower now q
  dispatch w now config headers (message_thread id) = handle_thread B T id
  dispatch w now config headers bus_archive = handle_archive B T
  dispatch w now config headers bus_diagnose = handle_diagnose B T w.stamp w.remote config now
  dispatch w now config headers peer_invite = handle_invite B T (w.fresh "code") now
  dispatch w now config headers (peer_join q) = handle_join B T w.url_in w.present q
  dispatch w now config headers (peer_accept q) = handle_accept B T config q now
  dispatch w now config headers (peer_register q) = handle_peer_register B T q
  dispatch w now config headers peer_list = handle_peers B T config
  dispatch w now config headers rpc_discover = λ p. (method_table, p)
  dispatch w now config headers (other name) = unknown name

  -- `rpc`: the login comes before the gate.
  unfoldable pub rpc : World → Time → ServerConfig → HeaderMap → Request → Handler B T
  rpc w now config headers (dashboard_login username password) =
      login (w.fresh "session") config username password
  rpc w now config headers request = gated config headers (dispatch w now config headers request)
