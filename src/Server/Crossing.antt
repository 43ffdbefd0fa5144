-- ===== src/Server/Crossing.antt =====
-- federation.rs and server.rs: a letter from the pool that forwards it into the mailbox of the pool
-- that is its home.
use hot_potato.Prelude.{
  ◌≡◌, ◌≢◌, refl, sym, ap, ◌∙◌, String, true, Option, some, none, arith, Bool-cases, inl, inr,
}
use hot_potato.Error.{BusError}
use hot_potato.Message.{Message, Time}
use hot_potato.Memory.Backend.{memory_backend}
use hot_potato.Memory.NoLoss.{has_letter}
use hot_potato.Deliver.{PushTransport}
use hot_potato.Federation.{Peer, ForwardRequest, PeerAnswer, forward}
use hot_potato.Server.Gate.{gated, passes_gate}
use hot_potato.Server.Pool.{ServerConfig, HeaderMap, Pool, Reply}
use hot_potato.Server.Rpc.{Request, World, message_send, rpc, dispatch}
use hot_potato.Server.Send.{SendParams, handle_send, read_params}
use hot_potato.Server.Stored.{receipt, handle_send-has_letter}
use hot_potato.Server.Wire.{Json, IsFaithful, result, answer_of, read_request, serve}
use hot_potato.Server.Links.{forward_rpc, envelope_of, forward-read_request}

module _ (J : Json) (print : BusError → String) where
  answer_of-result :
      (n : Option J.Value) (reply given : Reply)
      → (answer_of J print n reply).body ≡ result given
      → reply ≡ given
  unfolding answer_of
  answer_of-result n reply given h = ground arith

none≢some : {id : String} → none ≢ some id
none≢some h = cc

module _ (T : PushTransport) where
  -- An answer with an id is that of the handler: the gate has been passed.
  rpc_sent :
      (w : World) (now : Time) (config : ServerConfig) (headers : HeaderMap) (q : SendParams)
      (p : Pool memory_backend T) (id : String)
      → receipt (rpc memory_backend T w now config headers (message_send q) p).0 ≡ some id
      → rpc memory_backend T w now config headers (message_send q) p
        ≡ handle_send memory_backend T w.pools w.fresh now config headers q p
  unfolding rpc gated dispatch
  rpc_sent w now config headers q p id h = elim (Bool-cases (passes_gate config headers p)) [
    | inl t ↦ rw t refl
    | inr f ↦ absurd (none≢some (rw f at h))
  ]

stored :
    (J : Json) (T : PushTransport) (w : World) (now : Time) (config : ServerConfig)
    (headers : HeaderMap) (q : SendParams) (p : Pool memory_backend T) (request : Request)
    (m : Message) (pool id : String)
    → request ≡ message_send q
    → read_params q ≡ some (envelope_of m pool)
    → receipt (rpc memory_backend T w now config headers request p).0 ≡ some id
    → has_letter m.receiver id
        (rpc memory_backend T w now config headers request p).1.post.bus.store
      ≡ true
stored J T w now config headers q p request m pool id meant complete got =
    let same : (rpc memory_backend T w now config headers request p)
        ≡ (rpc memory_backend T w now config headers (message_send q) p) =
      ap (λ x. rpc memory_backend T w now config headers x p) meant in
    let reply = sym (ap (λ o. receipt o.0) same) ∙ got in
    let handled = rpc_sent T w now config headers q p id reply in
    ap (λ o. has_letter m.receiver id o.1.post.bus.store) (same ∙ handled)
    ∙ handle_send-has_letter T w.pools w.fresh now config headers q p (envelope_of m pool) id
        complete (sym (ap (λ o. receipt o.0) handled) ∙ reply)

-- If `forward` sends a letter, the pool that gets the request reads a `message/send` with the
-- sender, receiver, subject, body and `ref` of the letter, its type as read from the printed one,
-- one link more, and the name of the pool that forwarded it; and if that pool, with whatever
-- configuration, headers and state, answers with the id of a letter, then a letter with this id
-- is in the mailbox of the receiver there.
pub forward-has_letter :
    (J : Json) (faithful : IsFaithful J) (print : BusError → String) (T : PushTransport) (w : World)
    (now : Time) (config : ServerConfig) (headers : HeaderMap)
    (answer : ForwardRequest → PeerAnswer) (peer : Peer) (m : Message) (pool : String)
    (r : ForwardRequest) (p : Pool memory_backend T) (reply : Reply) (id : String)
    → (forward answer peer m pool).1 ≡ some r
    → (serve J memory_backend T print w now config headers (forward_rpc J r) p).0.body
      ≡ result reply
    → receipt reply ≡ some id
    → ((q : SendParams) × (read_request J (forward_rpc J r) ≡ message_send q)
        × (read_params q ≡ some (envelope_of m pool)))
      × (has_letter m.receiver id
            ((serve J memory_backend T print w now config headers (forward_rpc J r) p).1
              ).post.bus.store
          ≡ true)
unfolding serve
forward-has_letter J faithful print T w now config headers answer peer m pool r p reply id h got
      named =
    let read = forward-read_request J faithful answer peer m pool r h in
    let (q, meant, complete) = read in
    let replied =
      answer_of-result J print (forward_rpc J r).id
        (rpc memory_backend T w now config headers (read_request J (forward_rpc J r)) p).0 reply
        got in
    (
      read,
      stored J T w now config headers q p (read_request J (forward_rpc J r)) m pool id meant
          complete (ap receipt replied ∙ named),
    )
