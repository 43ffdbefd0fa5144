-- ===== src/Server/RelayKeeps.antt =====
-- server.rs over store/memory.rs: a letter from another pool, or to one, keeps what the calls of the
-- store keep.
use hot_potato.Prelude.{String, false, ◌≡◌, Option, none, some, inl, inr, Bool-cases}
use hot_potato.Error.{BusResult, ok, err, Result}
use hot_potato.Message.{Message, Time}
use hot_potato.Memory.Backend.{memory_backend}
use hot_potato.Memory.Defs.{MemoryStore}
use hot_potato.Memory.NoLoss.{is_delete}
use hot_potato.Memory.Runs.{Call, perform}
use hot_potato.Bus.Defs
use hot_potato.Bus.Keeps.{Bus, register-keeps, send_envelope-keeps, mark_delivered-keeps}
use hot_potato.Deliver.{PushTransport, Registry}
use hot_potato.Federation.{Peer, ForwardRequest, PeerAnswer}
use hot_potato.Sweeper.{Post, dispatch_from}
use hot_potato.Sweeper.Keeps.{emit_marked-keeps}
use hot_potato.Server.Pool.{ServerConfig, HeaderMap, Pool}
use hot_potato.Server.Keeps.{claimed-keeps}
use hot_potato.Server.Send.{
  Envelope, emit_some, register_shadow, push_inbound, inbound_sent, inbound_known, inbound_checked,
  send_inbound, outbound_done, outbound_found, outbound_sent, outbound_known,
}

module _ (I : MemoryStore → Type 0)
    (kept : (c : Call) (s : MemoryStore) → is_delete c ≡ false → I s → I (perform c s))
    (T : PushTransport) where
  abbrev Depot : Type 0
  Depot = Pool memory_backend T

  pub emit_some-keeps :
      (event : String) (found : Option Message) (p : Post memory_backend T)
      → I p.bus.store
      → I (emit_some memory_backend T event found p).bus.store
  emit_some-keeps event none p h = h
  emit_some-keeps event (some m) p h = h

  pub register_shadow-keeps :
      (agent description tag : String) (p : Depot)
      → I p.post.bus.store
      → I (register_shadow memory_backend T agent description tag p).1.post.bus.store
  unfolding register_shadow
  register_shadow-keeps agent description tag p h =
      elim (Bool-cases (Defs.is_registered memory_backend p.post.bus agent)) [
        | inl e ↦ rw e h
        | inr e ↦ rw e (register-keeps I kept agent _ p.post.bus h)
      ]

  pub push_inbound-keeps :
      (registry : Registry) (id receiver : String) (now : Time) (found : Option Message)
      (p : Post memory_backend T)
      → I p.bus.store
      → I (push_inbound memory_backend T registry id receiver now found p).bus.store
  unfolding push_inbound dispatch_from
  push_inbound-keeps registry id receiver now none p h = h
  push_inbound-keeps registry id receiver now (some l) p h =
      claimed-keeps I kept T receiver id now _ _ h

  inbound_sent-keeps :
      (e : Envelope) (from_pool : String) (now : Time) (r : BusResult String × Bus) (p : Depot)
      → I r.1.store
      → I (inbound_sent memory_backend T e from_pool now r p).1.post.bus.store
  unfolding inbound_sent
  inbound_sent-keeps e from_pool now (err x, bus) p h = h
  inbound_sent-keeps e from_pool now (ok id, bus) p h =
      push_inbound-keeps p.registry id e.receiver now _ _ (emit_some-keeps "queued" _ _ h)

  inbound_known-keeps :
      (uuid : String) (now : Time) (e : Envelope) (from_pool : String)
      (r : BusResult (Unit {0}) × Depot)
      → I r.1.post.bus.store
      → I (inbound_known memory_backend T uuid now e from_pool r).1.post.bus.store
  unfolding inbound_known
  inbound_known-keeps uuid now e from_pool (err x, p) h = h
  inbound_known-keeps uuid now e from_pool (ok u, p) h =
      inbound_sent-keeps e from_pool now _ p
        (send_envelope-keeps I kept uuid now _ _ _ _ _ _ _ _ p.post.bus h)

  inbound_checked-keeps :
      (uuid : String) (now : Time) (e : Envelope) (from_pool : String)
      (r : Result String (Unit {0})) (p : Depot)
      → I p.post.bus.store
      → I (inbound_checked memory_backend T uuid now e from_pool r p).1.post.bus.store
  unfolding inbound_checked
  inbound_checked-keeps uuid now e from_pool (err text) p h = h
  inbound_checked-keeps uuid now e from_pool (ok u) p h =
      inbound_known-keeps uuid now e from_pool _ (register_shadow-keeps e.sender _ from_pool p h)

  pub send_inbound-keeps :
      (uuid : String) (now : Time) (config : ServerConfig) (headers : HeaderMap) (e : Envelope)
      (from_pool : String) (p : Depot)
      → I p.post.bus.store
      → I (send_inbound memory_backend T uuid now config headers e from_pool p).1.post.bus.store
  unfolding send_inbound
  send_inbound-keeps uuid now config headers e from_pool p h =
      inbound_checked-keeps uuid now e from_pool _ p h

  outbound_done-keeps :
      (peer : Peer) (e : Envelope) (id : String) (now : Time) (r : Result String (Unit {0}))
      (p : Depot)
      → I p.post.bus.store
      → I (outbound_done memory_backend T peer e id now r p).1.post.bus.store
  unfolding outbound_done
  outbound_done-keeps peer e id now (err text) p h = h
  outbound_done-keeps peer e id now (ok u) p h =
      emit_marked-keeps I kept T (Defs.mark_delivered memory_backend e.receiver id now p.post.bus)
        p.post (mark_delivered-keeps I kept e.receiver id now p.post.bus h)

  outbound_found-keeps :
      (pools : ForwardRequest → PeerAnswer) (now : Time) (config : ServerConfig) (peer : Peer)
      (e : Envelope) (id : String) (found : Option Message) (p : Depot)
      → I p.post.bus.store
      → I (outbound_found memory_backend T pools now config peer e id found p).1.post.bus.store
  unfolding outbound_found
  outbound_found-keeps pools now config peer e id none p h = h
  outbound_found-keeps pools now config peer e id (some l) p h =
      outbound_done-keeps peer e id now _ p h

  outbound_sent-keeps :
      (pools : ForwardRequest → PeerAnswer) (now : Time) (config : ServerConfig) (peer : Peer)
      (e : Envelope) (r : BusResult String × Bus) (p : Depot)
      → I r.1.store
      → I (outbound_sent memory_backend T pools now config peer e r p).1.post.bus.store
  unfolding outbound_sent
  outbound_sent-keeps pools now config peer e (err x, bus) p h = h
  outbound_sent-keeps pools now config peer e (ok id, bus) p h =
      outbound_found-keeps pools now config peer e id _ _ h

  pub outbound_known-keeps :
      (pools : ForwardRequest → PeerAnswer) (uuid : String) (now : Time) (config : ServerConfig)
      (e : Envelope) (peer : Peer) (r : BusResult (Unit {0}) × Depot)
      → I r.1.post.bus.store
      → I (outbound_known memory_backend T pools uuid now config e peer r).1.post.bus.store
  unfolding outbound_known
  outbound_known-keeps pools uuid now config e peer (err x, p) h = h
  outbound_known-keeps pools uuid now config e peer (ok u, p) h =
      outbound_sent-keeps pools now config peer e _ p
        (send_envelope-keeps I kept uuid now _ _ _ _ _ _ _ _ p.post.bus h)
