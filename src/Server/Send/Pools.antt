-- ===== src/Server/Send/Pools.antt =====
-- server.rs: `message/send` from another pool, and to one.
use Prim.Native.String.{◌++◌ as str_append}
use hot_potato.Prelude.{
  String, Bool, true, false, not, ◌||◌, Option, none, some, is_some, List, [], ◌∷◌, if◌then◌else◌,
}
use hot_potato.Error.{Result, BusResult, ok, err}
use hot_potato.Message.{Message, Time}
use hot_potato.Store.Interface.{BusStore}
use hot_potato.Bus.Defs
use hot_potato.Bus.Defs.{EventBus, worker}
use hot_potato.Deliver.{PushTransport, Registry}
use hot_potato.Federation.{Peer, ForwardRequest, PeerAnswer, resolve, forward, inbound_checks}
use hot_potato.Handshake.{contains_agent}
use hot_potato.Sweeper.{Post, dispatch_from, settle_push, with_bus, is_ok_true}
use hot_potato.Sweeper.Watch.{emit_marked}
use hot_potato.Server.{context_of, find_letter}
use hot_potato.Server.Gate.{is_authed}
use hot_potato.Server.Pool.{
  ServerConfig, HeaderMap, Pool, Reply, bus_error, error, forwarded, Handler,
}
use hot_potato.Server.Send.Params.{Envelope}
use hot_potato.Server.Send.Fanout.{emit_some, register_shadow, send_by}

module _ (B : BusStore) (T : PushTransport) where
  -- The task for a letter from another pool: it is dispatched, then claimed, then settled.
  unfoldable pub push_inbound :
      Registry → String → String → Time → Option Message → Post B T → Post B T
  push_inbound registry id receiver now none p = p
  push_inbound registry id receiver now (some l) p =
      let out =
        dispatch_from B T registry receiver
          (record { letter = l; context_id = context_of (Defs.list_all B p.bus) id }) p in
      let claimed = Defs.claim_push B receiver id now out.1.bus in
      let p' = with_bus B T claimed.1 out.1 in
      if is_ok_true claimed.0 then (settle_push B T receiver id now out.0 p').0 else p'

  unfoldable pub inbound_sent :
      Envelope → String → Time → BusResult String × EventBus B → Handler B T
  inbound_sent e from_pool now (err x, bus) p =
      (bus_error x, record p { post = with_bus B T bus p.post })
  inbound_sent e from_pool now (ok id, bus) p =
      let found = find_letter id (Defs.peek B e.receiver bus) in
      let post = emit_some B T "queued" found (with_bus B T bus p.post) in
      (
        forwarded id from_pool,
        record p {
          post =
              push_inbound p.registry id e.receiver now
                (find_letter id (Defs.peek B e.receiver post.bus)) post;
        },
      )

  unfoldable pub inbound_known :
      String → Time → Envelope → String → BusResult (Unit {0}) × Pool B T → Reply × Pool B T
  inbound_known uuid now e from_pool (err x, p) = (bus_error x, p)
  inbound_known uuid now e from_pool (ok _, p) =
      inbound_sent e from_pool now (send_by B T uuid now e e.hops e.forwarded_from p.post.bus) p

  unfoldable pub inbound_checked :
      String → Time → Envelope → String → Result String (Unit {0}) → Handler B T
  inbound_checked uuid now e from_pool (err text) p = (error text, p)
  inbound_checked uuid now e from_pool (ok _) p =
      inbound_known uuid now e from_pool
        (register_shadow B T e.sender (str_append "federated from " from_pool) from_pool p)

  -- (1) A letter from the pool `from_pool`.
  unfoldable pub send_inbound :
      String → Time → ServerConfig → HeaderMap → Envelope → String → Handler B T
  unfolding inbound_checked inbound_known inbound_sent
  send_inbound uuid now config headers e from_pool = inbound_checked uuid now e from_pool (
      inbound_checks from_pool (is_some config.bearer_token) (is_authed config headers) e.hops
        e.forwarded_from)

  abbrev is_none_at : List Peer → Bool
  is_none_at [] = true
  is_none_at (x ∷ xs) = false

  or_learned : Option Peer → Option Peer → Option Peer
  or_learned none learned = learned
  or_learned (some p) learned = some p

  -- The home pool of a receiver: configured peers first, then learned ones.
  unfoldable pub home_pool : ServerConfig → List Peer → String → Option Peer
  unfolding or_learned
  home_pool config learned receiver =
      if not (is_none_at config.peers) || not (is_none_at learned)
      then or_learned (resolve config.peers receiver) (contains_agent receiver learned)
      else none

  -- What follows a forward: the copy here is delivered, or stays queued.
  unfoldable pub outbound_done :
      Peer → Envelope → String → Time → Result String (Unit {0}) → Handler B T
  outbound_done peer e id now (err text) p = (
    error (
        str_append "forward to pool `" (
          str_append peer.name
            (str_append "` failed: " (str_append text " (letter stays queued)")))),
    p,
  )
  outbound_done peer e id now (ok _) p =
      let marked = Defs.mark_delivered B e.receiver id now p.post.bus in
      (forwarded id peer.name, record p { post = emit_marked B T marked p.post })

  -- The letter is there unless something else has taken it; the source panics then.
  unfoldable pub outbound_found :
      (ForwardRequest → PeerAnswer)
      → Time
      → ServerConfig
      → Peer
      → Envelope
      → String
      → Option Message
      → Handler B T
  outbound_found pools now config peer e id none p = (error "letter just stored", p)
  outbound_found pools now config peer e id (some l) p =
      outbound_done peer e id now (forward pools peer l config.pool_name).0 p

  unfoldable pub outbound_sent :
      (ForwardRequest → PeerAnswer)
      → Time
      → ServerConfig
      → Peer
      → Envelope
      → BusResult String × EventBus B
      → Handler B T
  outbound_sent pools now config peer e (err x, bus) p =
      (bus_error x, record p { post = with_bus B T bus p.post })
  outbound_sent pools now config peer e (ok id, bus) p =
      outbound_found pools now config peer e id (find_letter id (Defs.peek B e.receiver bus))
        (record p { post = with_bus B T bus p.post })

  unfoldable pub outbound_known :
      (ForwardRequest → PeerAnswer)
      → String
      → Time
      → ServerConfig
      → Envelope
      → Peer
      → BusResult (Unit {0}) × Pool B T
      → Reply × Pool B T
  outbound_known pools uuid now config e peer (err x, p) = (bus_error x, p)
  outbound_known pools uuid now config e peer (ok _, p) =
      outbound_sent pools now config peer e
        (send_by B T uuid now e 0 (some config.pool_name) p.post.bus) p

  -- (2) A letter to an agent of the pool of `peer`. `pools` are the other pools.
  unfoldable pub send_outbound :
      (ForwardRequest → PeerAnswer) → String → Time → ServerConfig → Envelope → Peer → Handler B T
  unfolding outbound_known outbound_sent outbound_found outbound_done
  send_outbound pools uuid now config e peer p =
      outbound_known pools uuid now config e peer
        (register_shadow B T e.receiver (str_append "federated at " peer.name) peer.name p)
