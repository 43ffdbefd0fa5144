-- ===== src/Server/SendKeeps.antt =====
-- server.rs over store/memory.rs: `message/send` keeps what the calls of the store keep.
use hot_potato.Prelude.{
  String, false, ◌≡◌, refl, Option, none, some, List, [], ◌∷◌, inl, inr, Bool-cases, Option-cases,
  str_eq,
}
use hot_potato.Error.{BusResult, ok, err}
use hot_potato.Message.{Message, Time}
use hot_potato.Memory.Backend.{memory_backend}
use hot_potato.Memory.Defs.{MemoryStore}
use hot_potato.Memory.NoLoss.{is_delete}
use hot_potato.Memory.Runs.{Call, perform}
use hot_potato.Bus.Keeps.{Bus, send_envelope-keeps, broadcast-keeps}
use hot_potato.Deliver.{PushTransport, Registry}
use hot_potato.Federation.{Peer, ForwardRequest, PeerAnswer}
use hot_potato.Sweeper.{Post}
use hot_potato.Server.Pool.{ServerConfig, HeaderMap, Pool}
use hot_potato.Server.Keeps.{push_on_arrival-keeps}
use hot_potato.Server.Send.{
  Envelope, SendParams, read_params, push_copy, push_copies, all_sent, send_all, home_pool,
  send_outbound, local_sent, send_local, send_envelope, send_read, handle_send,
}
use hot_potato.Server.RelayKeeps.{register_shadow-keeps, send_inbound-keeps, outbound_known-keeps}

module _ (I : MemoryStore → Type 0)
    (kept : (c : Call) (s : MemoryStore) → is_delete c ≡ false → I s → I (perform c s))
    (T : PushTransport) where
  abbrev Depot : Type 0
  Depot = Pool memory_backend T

  push_copy-keeps :
      (registry : Registry) (id : String) (now : Time) (found : Option Message)
      (p : Post memory_backend T)
      → I p.bus.store
      → I (push_copy memory_backend T registry id now found p).bus.store
  unfolding push_copy
  push_copy-keeps registry id now none p h = h
  push_copy-keeps registry id now (some l) p h =
      push_on_arrival-keeps I kept T registry id l.receiver now p h

  push_copies-keeps :
      (registry : Registry) (now : Time) (ids : List String) (p : Post memory_backend T)
      → I p.bus.store
      → I (push_copies memory_backend T registry now ids p).bus.store
  unfolding push_copies
  push_copies-keeps registry now [] p h = h
  push_copies-keeps registry now (id ∷ ids) p h =
      push_copies-keeps registry now ids _ (push_copy-keeps registry id now _ p h)

  all_sent-keeps :
      (now : Time) (r : BusResult (List String) × Bus) (p : Depot)
      → I r.1.store
      → I (all_sent memory_backend T now r p).1.post.bus.store
  unfolding all_sent
  all_sent-keeps now (err x, bus) p h = h
  all_sent-keeps now (ok ids, bus) p h = push_copies-keeps p.registry now ids _ h

  send_all-keeps :
      (fresh : String → String) (now : Time) (e : Envelope) (p : Depot)
      → I p.post.bus.store
      → I (send_all memory_backend T fresh now e p).1.post.bus.store
  unfolding send_all
  send_all-keeps fresh now e p h =
      all_sent-keeps now _ p
        (broadcast-keeps I kept fresh now e.sender e.subject e.body p.post.bus h)

  local_sent-keeps :
      (ghost : String) (now : Time) (e : Envelope) (r : BusResult String × Bus) (p : Depot)
      → I r.1.store
      → I (local_sent memory_backend T ghost now e r p).1.post.bus.store
  unfolding local_sent
  local_sent-keeps ghost now e (err x, bus) p h = h
  local_sent-keeps ghost now e (ok id, bus) p h =
      push_on_arrival-keeps I kept T p.registry id e.receiver now _ h

  module _ (pools : ForwardRequest → PeerAnswer) (fresh : String → String) (now : Time)
      (config : ServerConfig) (headers : HeaderMap) where
    to_home :
        (e : Envelope) (home : Option Peer) (p : Depot)
        → I p.post.bus.store
        → home_pool memory_backend T config p.dynamic_peers e.receiver ≡ home
        → headers.potato_pool ≡ none
        → str_eq e.receiver "all" ≡ false
        → I (send_envelope memory_backend T pools fresh now config headers e p).1.post.bus.store
    unfolding send_envelope send_outbound send_local
    to_home e none p h at_home no_pool one =
        rw (one, no_pool, at_home)
          (local_sent-keeps (fresh "ghost") now e _ p
            (send_envelope-keeps I kept (fresh "letter") now _ _ _ _ _ _ _ _ p.post.bus h))
    to_home e (some peer) p h at_home no_pool one =
        rw (one, no_pool, at_home)
          (outbound_known-keeps I kept T pools (fresh "letter") now config e peer _
            (register_shadow-keeps I kept T e.receiver _ peer.name p h))

    send_envelope_keeps :
        (e : Envelope) (p : Depot)
        → I p.post.bus.store
        → I (send_envelope memory_backend T pools fresh now config headers e p).1.post.bus.store
    unfolding send_envelope
    send_envelope_keeps e p h = elim (Bool-cases (str_eq e.receiver "all")) [
      | inl to_all ↦ rw to_all (send_all-keeps fresh now e p h)
      | inr one ↦ elim (Option-cases headers.potato_pool) [
        | inl no_pool ↦
            to_home e (home_pool memory_backend T config p.dynamic_peers e.receiver) p h refl
              no_pool one
        | inr (from_pool, e') ↦
            rw (one, e')
              (send_inbound-keeps I kept T (fresh "letter") now config headers e from_pool p h)
      ]
    ]

    send_read-keeps :
        (e : Option Envelope) (p : Depot)
        → I p.post.bus.store
        → I (send_read memory_backend T pools fresh now config headers e p).1.post.bus.store
    unfolding send_read
    send_read-keeps none p h = h
    send_read-keeps (some e) p h = send_envelope_keeps e p h

    pub handle_send-keeps :
        (q : SendParams) (p : Depot)
        → I p.post.bus.store
        → I (handle_send memory_backend T pools fresh now config headers q p).1.post.bus.store
    unfolding handle_send
    handle_send-keeps q p h = send_read-keeps (read_params q) p h
