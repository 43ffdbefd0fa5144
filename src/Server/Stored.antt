-- ===== src/Server/Stored.antt =====
-- server.rs over store/memory.rs: the id that `message/send` answers is that of a stored letter.
use hot_potato.Prelude.{
  ℕ, String, true, false, ◌≡◌, refl, ap, Option, none, some, some_inj, List, inl, inr, Bool-cases,
  Option-cases, str_eq,
}
use hot_potato.Error.{BusResult, ok, err, Result}
use hot_potato.Message.{Message, Time}
use hot_potato.Memory.Backend.{memory_backend}
use hot_potato.Memory.Defs.{MemoryStore}
use hot_potato.Memory.NoLoss.{is_delete, has_letter, perform-has_letter}
use hot_potato.Memory.Runs.{Call, perform}
use hot_potato.Bus.Defs
use hot_potato.Bus.Keeps.{Bus, mark_delivered-keeps}
use hot_potato.Bus.Delivery.{send_envelope-has_letter}
use hot_potato.Deliver.{PushTransport}
use hot_potato.Federation.{Peer, ForwardRequest, PeerAnswer}
use hot_potato.Sweeper.Keeps.{emit_marked-keeps}
use hot_potato.Server.Pool.{ServerConfig, HeaderMap, Pool, Reply, sent, forwarded}
use hot_potato.Server.Keeps.{push_on_arrival-keeps}
use hot_potato.Server.RelayKeeps.{emit_some-keeps, push_inbound-keeps}
use hot_potato.Server.Send.{
  Envelope, SendParams, read_params, all_sent, send_all, inbound_sent, inbound_known,
  inbound_checked, send_inbound, home_pool, outbound_done, outbound_found, outbound_sent,
  outbound_known, send_outbound, local_sent, send_local, send_envelope, send_read, handle_send,
}

-- The id of the letter that an answer says to be accepted.
abbrev pub receipt : Reply → Option String
receipt (sent id) = some id
receipt (forwarded id pool) = some id
receipt r = none

none≢some : {x : String} → none ≡ some x → ⊥
none≢some h = cc

module _ (T : PushTransport) where
  abbrev Depot : Type 0
  Depot = Pool memory_backend T

  -- The letter of the receipt is in the mailbox of its receiver.
  abbrev pub IsStored : String → Reply × Depot → Type 0
  IsStored receiver out =
      (id : String) → receipt out.0 ≡ some id → has_letter receiver id out.1.post.bus.store ≡ true

  abbrev Accepts : String → BusResult String × Bus → Type 0
  Accepts receiver r = (id : String) → r.0 ≡ ok id → has_letter receiver id r.1.store ≡ true

  module _ (receiver id : String) where
    abbrev Kept : MemoryStore → Type 0
    Kept s = has_letter receiver id s ≡ true

    kept : (c : Call) (s : MemoryStore) → is_delete c ≡ false → Kept s → Kept (perform c s)
    kept c s d h = perform-has_letter receiver id c s d h

  inbound_sent-IsStored :
      (e : Envelope) (from_pool : String) (now : Time) (r : BusResult String × Bus) (p : Depot)
      → Accepts e.receiver r
      → IsStored e.receiver (inbound_sent memory_backend T e from_pool now r p)
  unfolding inbound_sent
  inbound_sent-IsStored e from_pool now (err x, bus) p h id got = absurd (none≢some got)
  inbound_sent-IsStored e from_pool now (ok i, bus) p h id got =
      push_inbound-keeps (Kept e.receiver id) (kept e.receiver id) T p.registry i e.receiver now _ _
        (emit_some-keeps (Kept e.receiver id) (kept e.receiver id) T "queued" _ _
          (h id (ap ok (some_inj got))))

  local_sent-IsStored :
      (ghost : String) (now : Time) (e : Envelope) (r : BusResult String × Bus) (p : Depot)
      → Accepts e.receiver r
      → IsStored e.receiver (local_sent memory_backend T ghost now e r p)
  unfolding local_sent
  local_sent-IsStored ghost now e (err x, bus) p h id got = absurd (none≢some got)
  local_sent-IsStored ghost now e (ok i, bus) p h id got =
      push_on_arrival-keeps (Kept e.receiver id) (kept e.receiver id) T p.registry i e.receiver now
        _ (h id (ap ok (some_inj got)))

  outbound_done-IsStored :
      (peer : Peer) (e : Envelope) (i : String) (now : Time) (r : Result String (Unit {0}))
      (p : Depot)
      → ((id : String) → i ≡ id → has_letter e.receiver id p.post.bus.store ≡ true)
      → IsStored e.receiver (outbound_done memory_backend T peer e i now r p)
  unfolding outbound_done
  outbound_done-IsStored peer e i now (err text) p h id got = absurd (none≢some got)
  outbound_done-IsStored peer e i now (ok u) p h id got =
      emit_marked-keeps (Kept e.receiver id) (kept e.receiver id) T
        (Defs.mark_delivered memory_backend e.receiver i now p.post.bus) p.post
        (mark_delivered-keeps (Kept e.receiver id) (kept e.receiver id) e.receiver i now p.post.bus
          (h id (some_inj got)))

  outbound_found-IsStored :
      (pools : ForwardRequest → PeerAnswer) (now : Time) (config : ServerConfig) (peer : Peer)
      (e : Envelope) (i : String) (found : Option Message) (p : Depot)
      → ((id : String) → i ≡ id → has_letter e.receiver id p.post.bus.store ≡ true)
      → IsStored e.receiver (outbound_found memory_backend T pools now config peer e i found p)
  unfolding outbound_found
  outbound_found-IsStored pools now config peer e i none p h id got = absurd (none≢some got)
  outbound_found-IsStored pools now config peer e i (some l) p h id got =
      outbound_done-IsStored peer e i now _ p h id got

  outbound_sent-IsStored :
      (pools : ForwardRequest → PeerAnswer) (now : Time) (config : ServerConfig) (peer : Peer)
      (e : Envelope) (r : BusResult String × Bus) (p : Depot)
      → Accepts e.receiver r
      → IsStored e.receiver (outbound_sent memory_backend T pools now config peer e r p)
  unfolding outbound_sent
  outbound_sent-IsStored pools now config peer e (err x, bus) p h id got = absurd (none≢some got)
  outbound_sent-IsStored pools now config peer e (ok i, bus) p h id got =
      outbound_found-IsStored pools now config peer e i _ _ (λ id same. h id (ap ok same)) id got

  sends :
      (uuid : String) (now : Time) (e : Envelope) (hops : ℕ) (from : Option String) (bus : Bus)
      → Accepts e.receiver (
          Defs.send_envelope memory_backend uuid now e.sender e.receiver e.kind e.subject e.body
            e.ref hops from bus)
  sends uuid now e hops from bus id got =
      send_envelope-has_letter uuid now e.sender e.receiver e.kind e.subject e.body e.ref hops from
        bus id got

  inbound_known-IsStored :
      (uuid : String) (now : Time) (e : Envelope) (from_pool : String)
      (r : BusResult (Unit {0}) × Depot)
      → IsStored e.receiver (inbound_known memory_backend T uuid now e from_pool r)
  unfolding inbound_known
  inbound_known-IsStored uuid now e from_pool (err x, p) id got = absurd (none≢some got)
  inbound_known-IsStored uuid now e from_pool (ok u, p) id got =
      inbound_sent-IsStored e from_pool now _ p
        (sends uuid now e e.hops e.forwarded_from p.post.bus) id got

  inbound_checked-IsStored :
      (uuid : String) (now : Time) (e : Envelope) (from_pool : String)
      (r : Result String (Unit {0})) (p : Depot)
      → IsStored e.receiver (inbound_checked memory_backend T uuid now e from_pool r p)
  unfolding inbound_checked
  inbound_checked-IsStored uuid now e from_pool (err text) p id got = absurd (none≢some got)
  inbound_checked-IsStored uuid now e from_pool (ok u) p id got =
      inbound_known-IsStored uuid now e from_pool _ id got

  outbound_known-IsStored :
      (pools : ForwardRequest → PeerAnswer) (uuid : String) (now : Time) (config : ServerConfig)
      (e : Envelope) (peer : Peer) (r : BusResult (Unit {0}) × Depot)
      → IsStored e.receiver (outbound_known memory_backend T pools uuid now config e peer r)
  unfolding outbound_known
  outbound_known-IsStored pools uuid now config e peer (err x, p) id got = absurd (none≢some got)
  outbound_known-IsStored pools uuid now config e peer (ok u, p) id got =
      outbound_sent-IsStored pools now config peer e _ p
        (sends uuid now e 0 (some config.pool_name) p.post.bus) id got

  all_sent-IsStored :
      (receiver : String) (now : Time) (r : BusResult (List String) × Bus) (p : Depot)
      → IsStored receiver (all_sent memory_backend T now r p)
  unfolding all_sent
  all_sent-IsStored receiver now (err x, bus) p id got = absurd (none≢some got)
  all_sent-IsStored receiver now (ok ids, bus) p id got = absurd (none≢some got)

  to_home :
      (pools : ForwardRequest → PeerAnswer) (fresh : String → String) (now : Time)
      (config : ServerConfig) (headers : HeaderMap) (e : Envelope) (home : Option Peer) (p : Depot)
      → home_pool memory_backend T config p.dynamic_peers e.receiver ≡ home
      → headers.potato_pool ≡ none
      → str_eq e.receiver "all" ≡ false
      → IsStored e.receiver (send_envelope memory_backend T pools fresh now config headers e p)
  unfolding send_envelope send_outbound send_local
  to_home pools fresh now config headers e none p at_home no_pool one =
      rw (one, no_pool, at_home)
        (local_sent-IsStored (fresh "ghost") now e _ p
          (sends (fresh "letter") now e 0 none p.post.bus))
  to_home pools fresh now config headers e (some peer) p at_home no_pool one =
      rw (one, no_pool, at_home)
        (outbound_known-IsStored pools (fresh "letter") now config e peer _)

  send_envelope-IsStored :
      (pools : ForwardRequest → PeerAnswer) (fresh : String → String) (now : Time)
      (config : ServerConfig) (headers : HeaderMap) (e : Envelope) (p : Depot)
      → IsStored e.receiver (send_envelope memory_backend T pools fresh now config headers e p)
  unfolding send_envelope send_all send_inbound
  send_envelope-IsStored pools fresh now config headers e p =
      elim (Bool-cases (str_eq e.receiver "all")) [
        | inl to_all ↦ rw to_all (all_sent-IsStored e.receiver now _ p)
        | inr one ↦ elim (Option-cases headers.potato_pool) [
          | inl no_pool ↦
              to_home pools fresh now config headers e
                (home_pool memory_backend T config p.dynamic_peers e.receiver) p refl no_pool one
          | inr (from_pool, e') ↦
              rw (one, e') (inbound_checked-IsStored (fresh "letter") now e from_pool _ p)
        ]
      ]

-- Whichever way a letter goes, within the pool, to another pool or from one, and whatever the
-- transport and the other pools do: if `message/send` answers with the id of a letter, a letter with
-- this id is in the mailbox of the receiver after the send and the push that it starts.
pub handle_send-has_letter :
    (T : PushTransport) (pools : ForwardRequest → PeerAnswer) (fresh : String → String) (now : Time)
    (config : ServerConfig) (headers : HeaderMap) (q : SendParams) (p : Pool memory_backend T)
    (e : Envelope) (id : String)
    → read_params q ≡ some e
    → receipt (handle_send memory_backend T pools fresh now config headers q p).0 ≡ some id
    → has_letter e.receiver id
        (handle_send memory_backend T pools fresh now config headers q p).1.post.bus.store
      ≡ true
unfolding handle_send send_read
handle_send-has_letter T pools fresh now config headers q p e id complete got =
    rw complete
      (send_envelope-IsStored T pools fresh now config headers e p id (rw complete at got))
