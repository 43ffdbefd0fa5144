-- ===== src/Server/Kept.antt =====
-- server.rs over store/memory.rs: no request but a deletion loses a letter.
use hot_potato.Prelude.{String, Bool, true, false, ◌≡◌, List, [], ◌∷◌, any, arith}
use hot_potato.Message.{Time}
use hot_potato.Memory.Backend.{memory_backend}
use hot_potato.Memory.Defs.{MemoryStore}
use hot_potato.Memory.NoLoss.{is_delete, has_letter, perform-has_letter}
use hot_potato.Memory.Runs.{Call, perform}
use hot_potato.Deliver.{PushTransport}
use hot_potato.Server.Gate.{login, gated}
use hot_potato.Server.Pool.{ServerConfig, HeaderMap, Pool}
use hot_potato.Server.Mail.{handle_archive, handle_list}
use hot_potato.Server.Peers.{handle_invite, handle_peers}
use hot_potato.Server.Agents.{handle_agents}
use hot_potato.Server.Keeps.{handle_register-keeps, handle_unregister-keeps}
use hot_potato.Server.SendKeeps.{handle_send-keeps}
use hot_potato.Server.Rpc
use hot_potato.Server.Rpc.{Request, World, dispatch, rpc, unknown}
use hot_potato.Server.Locked.{Attempt, run}
use hot_potato.Server.MailKeeps.{
  if-keeps, handle_poll-keeps, handle_read-keeps, handle_ack-keeps, handle_peek-keeps,
  handle_status-keeps, handle_thread-keeps, handle_join-keeps, handle_accept-keeps,
  handle_peer_register-keeps, handle_diagnose-keeps,
}

-- The request asks for a deletion.
abbrev pub is_deletion : Request → Bool
is_deletion (Rpc.message_delete id) = true
is_deletion Rpc.message_delete_all = true
is_deletion _ = false

module _ (I : MemoryStore → Type 0)
    (kept : (c : Call) (s : MemoryStore) → is_delete c ≡ false → I s → I (perform c s))
    (T : PushTransport) where
  abbrev Depot : Type 0
  Depot = Pool memory_backend T

  module _ (w : World) (now : Time) (config : ServerConfig) (headers : HeaderMap) where
    dispatch-keeps :
        (r : Request) (p : Depot)
        → is_deletion r ≡ false
        → I p.post.bus.store
        → I (dispatch memory_backend T w now config headers r p).1.post.bus.store
    unfolding dispatch unknown handle_agents handle_archive handle_list handle_invite handle_peers
    dispatch-keeps (Rpc.dashboard_login username password) p spare h = h
    dispatch-keeps (Rpc.agent_register r) p spare h = handle_register-keeps I kept T r now p h
    dispatch-keeps (Rpc.agent_unregister agent) p spare h =
        handle_unregister-keeps I kept T agent p h
    dispatch-keeps Rpc.agent_list p spare h = h
    dispatch-keeps (Rpc.agent_status agent) p spare h = handle_status-keeps I kept T agent p h
    dispatch-keeps (Rpc.message_send q) p spare h =
        handle_send-keeps I kept T w.pools w.fresh now config headers q p h
    dispatch-keeps (Rpc.message_poll agent limit) p spare h =
        handle_poll-keeps I kept T agent limit now p h
    dispatch-keeps (Rpc.message_read agent id) p spare h =
        handle_read-keeps I kept T agent id now p h
    dispatch-keeps (Rpc.message_ack agent id text) p spare h =
        handle_ack-keeps I kept T agent id text now p h
    dispatch-keeps (Rpc.message_peek agent) p spare h = handle_peek-keeps I kept T agent p h
    dispatch-keeps (Rpc.message_delete id) p spare h = absurd (ground arith)
    dispatch-keeps Rpc.message_delete_all p spare h = absurd (ground arith)
    dispatch-keeps (Rpc.message_list q) p spare h = h
    dispatch-keeps (Rpc.message_thread id) p spare h = handle_thread-keeps I kept T id p h
    dispatch-keeps Rpc.bus_archive p spare h = h
    dispatch-keeps Rpc.bus_diagnose p spare h =
        handle_diagnose-keeps I kept T w.stamp w.remote config now p h
    dispatch-keeps Rpc.peer_invite p spare h = h
    dispatch-keeps (Rpc.peer_join q) p spare h = handle_join-keeps I kept T w.url_in w.present q p h
    dispatch-keeps (Rpc.peer_accept q) p spare h = handle_accept-keeps I kept T config q now p h
    dispatch-keeps (Rpc.peer_register q) p spare h = handle_peer_register-keeps I kept T q p h
    dispatch-keeps Rpc.peer_list p spare h = h
    dispatch-keeps Rpc.rpc_discover p spare h = h
    dispatch-keeps (Rpc.other name) p spare h = h

    rpc-keeps :
        (r : Request) (p : Depot)
        → is_deletion r ≡ false
        → I p.post.bus.store
        → I (rpc memory_backend T w now config headers r p).1.post.bus.store
    unfolding rpc gated login
    rpc-keeps (Rpc.dashboard_login username password) p spare h = if-keeps I kept T _ _ _ h h
    rpc-keeps r p spare h = if-keeps I kept T _ _ _ (dispatch-keeps r p spare h) h

-- Each request, none a deletion, made one after the other.
run-keeps :
    (I : MemoryStore → Type 0)
    (kept : (c : Call) (s : MemoryStore) → is_delete c ≡ false → I s → I (perform c s))
    (T : PushTransport) (config : ServerConfig) (tries : List Attempt) (p : Pool memory_backend T)
    → any (λ a. is_deletion a.request) tries ≡ false
    → I p.post.bus.store
    → I (run memory_backend T config tries p).1.post.bus.store
unfolding run any
run-keeps I kept T config [] p spare h = h
run-keeps I kept T config (a ∷ later) p spare h =
    run-keeps I kept T config later _ (ground arith)
      (rpc-keeps I kept T a.world a.at config a.headers a.request p (ground arith) h)

-- Whatever the requests are, from whichever clients, and whatever the transport and the other pools
-- answer: if none of them asks for a deletion, then every mailbox that had a letter with an id
-- before them has one after them and the pushes that they start.
pub run-has_letter_kept :
    (T : PushTransport) (config : ServerConfig) (tries : List Attempt) (p : Pool memory_backend T)
    (k id : String)
    → any (λ a. is_deletion a.request) tries ≡ false
    → has_letter k id p.post.bus.store ≡ true
    → has_letter k id (run memory_backend T config tries p).1.post.bus.store ≡ true
run-has_letter_kept T config tries p k id spare has =
    run-keeps (λ s. has_letter k id s ≡ true) (λ c s keeps h. perform-has_letter k id c s keeps h) T
      config tries p spare has
