-- ===== src/Server/MailKeeps.antt =====
-- server.rs over store/memory.rs: the methods on mailboxes, peers and evidence keep what the
-- calls of the store keep.
use hot_potato.Prelude.{
  str_eq, ℕ, String, Bool, true, false, ◌≡◌, Option, none, some, List, inl, inr, Bool-cases,
  if◌then◌else◌, Option-cases,
}
use hot_potato.Error.{BusResult, ok, err}
use hot_potato.Message.{Message, Time}
use hot_potato.Memory.Backend.{memory_backend}
use hot_potato.Memory.Defs.{MemoryStore}
use hot_potato.Memory.NoLoss.{is_delete}
use hot_potato.Memory.Runs.{Call, perform}
use hot_potato.Bus.Keeps.{Bus, poll-keeps, mark_read-keeps, ack-keeps}
use hot_potato.Deliver.{PushTransport, AgentEntry}
use hot_potato.Federation.{Peer}
use hot_potato.Sweeper.{dispatch_from}
use hot_potato.Sweeper.Diagnose.{PoolReply}
use hot_potato.Handshake.{consume_invite}
use hot_potato.Server.Gate.{or_empty}
use hot_potato.Server.Pool.{ServerConfig, Pool, Reply}
use hot_potato.Server.Mail.{
  announce, announce_all, handle_poll, handle_read, handle_ack, handle_status, handle_peek,
  handle_thread,
}
use hot_potato.Server.Peers
use hot_potato.Server.Peers.{
  PeerParams, Accepting, handle_invite, handle_join, join_answered, inviter_url, handle_accept,
  handle_peer_register, handle_peers, is_incomplete,
}
use hot_potato.Server.Diagnose.{push_probe, handle_diagnose}

module _ (I : MemoryStore → Type 0)
    (kept : (c : Call) (s : MemoryStore) → is_delete c ≡ false → I s → I (perform c s))
    (T : PushTransport) where
  abbrev Depot : Type 0
  Depot = Pool memory_backend T

  pub if-keeps :
      (b : Bool) (x y : Reply × Depot)
      → I x.1.post.bus.store
      → I y.1.post.bus.store
      → I (if b then x else y).1.post.bus.store
  if-keeps true x y hx hy = hx
  if-keeps false x y hx hy = hy

  announce-keeps :
      (event : String) (r : BusResult Message × Bus) (p : Depot)
      → I r.1.store
      → I (announce memory_backend T event r p).1.post.bus.store
  unfolding announce
  announce-keeps event (ok m, bus) p h = h
  announce-keeps event (err e, bus) p h = h

  announce_all-keeps :
      (r : BusResult (List Message) × Bus) (p : Depot)
      → I r.1.store
      → I (announce_all memory_backend T r p).1.post.bus.store
  unfolding announce_all
  announce_all-keeps (ok ms, bus) p h = h
  announce_all-keeps (err e, bus) p h = h

  pub handle_poll-keeps :
      (agent : Option String) (limit : Option ℕ) (now : Time) (p : Depot)
      → I p.post.bus.store
      → I (handle_poll memory_backend T agent limit now p).1.post.bus.store
  unfolding handle_poll
  handle_poll-keeps none limit now p h = h
  handle_poll-keeps (some agent) limit now p h =
      if-keeps _ _ _ h (announce_all-keeps _ p (poll-keeps I kept agent _ now p.post.bus h))

  pub handle_read-keeps :
      (agent id : Option String) (now : Time) (p : Depot)
      → I p.post.bus.store
      → I (handle_read memory_backend T agent id now p).1.post.bus.store
  unfolding handle_read
  handle_read-keeps none id now p h = h
  handle_read-keeps (some agent) none now p h = h
  handle_read-keeps (some agent) (some id) now p h =
      announce-keeps "read" _ p (mark_read-keeps I kept agent id now p.post.bus h)

  pub handle_ack-keeps :
      (agent id text : Option String) (now : Time) (p : Depot)
      → I p.post.bus.store
      → I (handle_ack memory_backend T agent id text now p).1.post.bus.store
  unfolding handle_ack
  handle_ack-keeps none id text now p h = h
  handle_ack-keeps (some agent) none text now p h = h
  handle_ack-keeps (some agent) (some id) none now p h = h
  handle_ack-keeps (some agent) (some id) (some text) now p h =
      announce-keeps "acked" _ p (ack-keeps I kept agent id text now p.post.bus h)

  pub handle_peek-keeps :
      (agent : Option String) (p : Depot)
      → I p.post.bus.store
      → I (handle_peek memory_backend T agent p).1.post.bus.store
  unfolding handle_peek
  handle_peek-keeps none p h = h
  handle_peek-keeps (some agent) p h = if-keeps _ _ _ h h

  pub handle_status-keeps :
      (agent : Option String) (p : Depot)
      → I p.post.bus.store
      → I (handle_status memory_backend T agent p).1.post.bus.store
  unfolding handle_status
  handle_status-keeps none p h = h
  handle_status-keeps (some agent) p h = h

  pub handle_thread-keeps :
      (id : Option String) (p : Depot)
      → I p.post.bus.store
      → I (handle_thread memory_backend T id p).1.post.bus.store
  unfolding handle_thread
  handle_thread-keeps none p h = h
  handle_thread-keeps (some id) p h = elim (Bool-cases (str_eq id "")) [
    | inl t ↦ rw t h
    | inr f ↦ rw f h
  ]

  join_answered-keeps :
      (url : String) (a : Accepting) (p : Depot)
      → I p.post.bus.store
      → I (join_answered memory_backend T url a p).1.post.bus.store
  unfolding join_answered
  join_answered-keeps url (Peers.http_status text) p h = h
  join_answered-keeps url (Peers.unreachable text) p h = h
  join_answered-keeps url (Peers.rejected text) p h = h
  join_answered-keeps url (Peers.welcome name agents) p h = h

  pub handle_join-keeps :
      (url_in : List ℕ → Option String) (present : String → PeerParams → Accepting) (q : PeerParams)
      (p : Depot)
      → I p.post.bus.store
      → I (handle_join memory_backend T url_in present q p).1.post.bus.store
  unfolding handle_join
  handle_join-keeps url_in present q p h =
      elim (Option-cases (inviter_url url_in (or_empty q.code))) [
        | inl e ↦ rw e (if-keeps _ _ _ h h)
        | inr (url, e) ↦ rw e (if-keeps _ _ _ h (join_answered-keeps url _ p h))
      ]

  pub handle_accept-keeps :
      (config : ServerConfig) (q : PeerParams) (now : Time) (p : Depot)
      → I p.post.bus.store
      → I (handle_accept memory_backend T config q now p).1.post.bus.store
  unfolding handle_accept
  handle_accept-keeps config q now p h =
      elim (Bool-cases (consume_invite (or_empty q.code) now p.invites).0) [
        | inl e ↦ rw e (if-keeps _ _ _ h h)
        | inr e ↦ rw e h
      ]

  pub handle_peer_register-keeps :
      (q : PeerParams) (p : Depot)
      → I p.post.bus.store
      → I (handle_peer_register memory_backend T q p).1.post.bus.store
  unfolding handle_peer_register
  handle_peer_register-keeps q p h = if-keeps _ _ _ h h

  push_probe-keeps :
      (stamp : Time → String) (now : Time) (e : Option AgentEntry) (p : Depot)
      → I p.post.bus.store
      → I (push_probe memory_backend T stamp now e p).1.post.bus.store
  unfolding push_probe dispatch_from
  push_probe-keeps stamp now none p h = h
  push_probe-keeps stamp now (some e) p h = h

  pub handle_diagnose-keeps :
      (stamp : Time → String) (post : Peer → String → PoolReply) (config : ServerConfig)
      (now : Time) (p : Depot)
      → I p.post.bus.store
      → I (handle_diagnose memory_backend T stamp post config now p).1.post.bus.store
  unfolding handle_diagnose
  handle_diagnose-keeps stamp post config now p h = push_probe-keeps stamp now _ p h
