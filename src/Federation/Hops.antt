-- ===== src/Federation/Hops.antt =====
-- federation.rs and server.rs: the links between pools that one letter can cross.
use hot_potato.Prelude.{
  ℕ, zero, suc, ◌+◌, ◌%◌, ◌≤◌, ap, String, Bool, true, false, ◌≡◌, some, arith,
}
use hot_potato.Error.{ok}
use hot_potato.Message.{Message}
use hot_potato.Federation.{
  Peer, ForwardRequest, PeerAnswer, forward, forward_request, inbound_checks, wire_hops, max_hops,
}

-- `n` links crossed one after the other: each pool forwards the letter, and the next stores a letter
-- with the `hops` of the request.
pub data Journey (answer : ForwardRequest → PeerAnswer) : ℕ → Message → Type 0 where
  home : {m : Message} → Journey answer 0 m
  link :
      {n : ℕ} {m next : Message} (peer : Peer) (pool : String) (r : ForwardRequest)
      → (forward answer peer m pool).1 ≡ some r
      → next.hops ≡ wire_hops (some r.hops)
      → Journey answer n next
      → Journey answer (suc n) m

pub forward-sent :
    (answer : ForwardRequest → PeerAnswer) (peer : Peer) (m : Message) (pool : String)
    {r : ForwardRequest}
    → (forward answer peer m pool).1 ≡ some r
    → (suc m.hops ≤ max_hops) × (r ≡ forward_request peer m pool)
unfolding forward
forward-sent answer peer m pool h = ground arith

inbound_ok :
    (pool : String) (has_token : Bool) (k : ℕ) (from : String)
    → suc k ≤ max_hops
    → inbound_checks pool has_token true (suc k) (some from) ≡ ok tt
unfolding inbound_checks
inbound_ok pool true k from h = ground arith
inbound_ok pool false k from h = ground arith

-- A request that a pool sends says one link more than the letter had crossed, and the pool that gets
-- it reads that number back and lets the letter through its checks if it carries the token.
pub forward-inbound_checks :
    (answer : ForwardRequest → PeerAnswer) (peer : Peer) (m : Message) (pool : String)
    (r : ForwardRequest) (has_token : Bool)
    → (forward answer peer m pool).1 ≡ some r
    → (wire_hops (some r.hops) ≡ suc m.hops)
      × (inbound_checks pool has_token true (wire_hops (some r.hops)) (some r.forwarded_from)
          ≡ ok tt)
unfolding forward_request inbound_checks wire_hops
forward-inbound_checks answer peer m pool r has_token h =
    let sent = forward-sent answer peer m pool h in
    let hops : r.hops ≡ m.hops + 1 = ap (λ q. q.hops) sent.1 in
    let same : r.hops % 256 ≡ suc m.hops = omega (arith, sent.0, hops) in
    (same, rw same (inbound_ok pool has_token m.hops r.forwarded_from sent.0))

-- However the pools are connected and whatever they answer, a letter that has crossed `hops` links
-- crosses at most `MAX_HOPS - hops` more.
pub Journey-max_hops :
    (answer : ForwardRequest → PeerAnswer) (n : ℕ) (m : Message)
    → Journey answer n m
    → m.hops ≤ max_hops
    → n + m.hops ≤ max_hops
unfolding wire_hops forward_request
Journey-max_hops answer zero m home h = omega (arith, h)
Journey-max_hops answer (suc n) m (link {next = next} peer pool r sent same rest) h =
    let moved = forward-sent answer peer m pool sent in
    let hops : r.hops ≡ m.hops + 1 = ap (λ q. q.hops) moved.1 in
    let next_hops : next.hops ≡ suc m.hops = omega (arith, moved.0, hops, same) in
    let on = Journey-max_hops answer n next rest (omega (arith, moved.0, next_hops)) in
    omega (arith, on, next_hops)
