-- ===== src/Server/Links.antt =====
-- federation.rs and server.rs: what `forward` writes is read by `message/send` as it was meant.
use hot_potato.Prelude.{
  ℕ, suc, ◌+◌, ◌%◌, ◌≤◌, ◌≡◌, refl, ap, ◌∙◌, String, Option, none, some, List, [], ◌∷◌, Assoc,
  lookup, arith,
}
use hot_potato.Message.{Message}
use hot_potato.Federation.{
  Peer, ForwardRequest, PeerAnswer, forward, forward_request, wire_hops, read_type, type_text,
  max_hops,
}
use hot_potato.Federation.Hops.{forward-sent}
use hot_potato.Server.Rpc.{message_send}
use hot_potato.Server.Send.{SendParams, Envelope, read_params}
use hot_potato.Server.Wire.{
  Json, IsFaithful, and_then, RpcRequest, text, count, send_params_of, read_request,
}

abbrev as_params : ForwardRequest → SendParams
as_params r = record {
  sender = some r.sender;
  receiver = some r.receiver;
  kind = some r.kind;
  subject = some r.subject;
  body = some r.body;
  ref = r.ref;
  hops = some r.hops;
  forwarded_from = some r.forwarded_from;
}

abbrev pub envelope_of : Message → String → Envelope
envelope_of m pool = record {
  sender = m.sender;
  receiver = m.receiver;
  kind = read_type (type_text m.msg_type);
  subject = m.subject;
  body = m.body;
  ref = m.ref;
  hops = suc m.hops;
  forwarded_from = some pool;
}

envelope_back :
    (peer : Peer) (m : Message) (pool : String)
    → suc m.hops ≤ max_hops
    → read_params (as_params (forward_request peer m pool)) ≡ some (envelope_of m pool)
unfolding read_params forward_request wire_hops
envelope_back peer m pool h =
    let same : (m.hops + 1) % 256 ≡ suc m.hops = omega (arith, h) in
    ap (λ n. some (record (envelope_of m pool) { hops = n })) same

module _ (J : Json) where
  ref_field : Option String → List (String × J.Value)
  ref_field none = []
  ref_field (some id) = ("ref", J.string id) ∷ []

  -- The parameters that `forward` writes.
  unfoldable pub forward_params : ForwardRequest → J.Value
  unfolding ref_field
  forward_params r = J.object (
      ("sender", J.string r.sender)
      ∷ ("receiver", J.string r.receiver)
      ∷ ("type", J.string r.kind)
      ∷ ("subject", J.string r.subject)
      ∷ ("body", J.string r.body)
      ∷ ("hops", J.number r.hops)
      ∷ ("forwarded_from", J.string r.forwarded_from)
      ∷ ref_field r.ref)

  abbrev pub forward_rpc : ForwardRequest → RpcRequest J
  forward_rpc r = record {
    id = some (J.number 1);
    method = "message/send";
    params = forward_params r;
  }

  module _ (faithful : IsFaithful J) where
    pub text_field :
        (k s : String) (fields : Assoc J.Value)
        → lookup k fields ≡ some (J.string s)
        → text J k (J.object fields) ≡ some s
    unfolding text
    text_field k s fields e =
        rw (faithful.get-object k fields) (rw (e, and_then) (faithful.as_str-string s))

    count_field :
        (k : String) (n : ℕ) (fields : Assoc J.Value)
        → lookup k fields ≡ some (J.number n)
        → count J k (J.object fields) ≡ some n
    unfolding count
    count_field k n fields e =
        rw (faithful.get-object k fields) (rw (e, and_then) (faithful.as_u64-number n))

    -- The fields of the parameters that `forward` writes.
    abbrev fields_of : ForwardRequest → Assoc J.Value
    fields_of r =
        ("sender", J.string r.sender)
        ∷ ("receiver", J.string r.receiver)
        ∷ ("type", J.string r.kind)
        ∷ ("subject", J.string r.subject)
        ∷ ("body", J.string r.body)
        ∷ ("hops", J.number r.hops)
        ∷ ("forwarded_from", J.string r.forwarded_from)
        ∷ ref_field r.ref

    ref_back : (o : Option String) → and_then (lookup "ref" (ref_field o)) J.as_str ≡ o
    unfolding lookup ref_field and_then
    ref_back none = refl
    ref_back (some id) = faithful.as_str-string id

    ref_read : (r : ForwardRequest) → text J "ref" (J.object (fields_of r)) ≡ r.ref
    unfolding text lookup
    ref_read r = rw (faithful.get-object "ref" (fields_of r)) (ref_back r.ref)

    send_params-forward : (r : ForwardRequest) → send_params_of J (forward_params r) ≡ as_params r
    unfolding send_params_of forward_params lookup
    send_params-forward r =
        let fs = fields_of r in
        rw
          (
            text_field "sender" r.sender fs refl,
            text_field "receiver" r.receiver fs refl,
            text_field "type" r.kind fs refl,
            text_field "subject" r.subject fs refl,
            text_field "body" r.body fs refl,
            ref_read r,
            count_field "hops" r.hops fs refl,
            text_field "forwarded_from" r.forwarded_from fs refl,
          )
          refl

    -- If `forward` sends a letter, then the pool that gets the request reads a `message/send` whose
    -- sender, receiver, subject, body and `ref` are those of the letter, whose type is read from the
    -- printed one, which has crossed one link more, and which names the pool that forwarded it.
    pub forward-read_request :
        (answer : ForwardRequest → PeerAnswer) (peer : Peer) (m : Message) (pool : String)
        (r : ForwardRequest)
        → (forward answer peer m pool).1 ≡ some r
        → (q : SendParams) × (read_request J (forward_rpc r) ≡ message_send q)
          × (read_params q ≡ some (envelope_of m pool))
    unfolding read_request lookup
    forward-read_request answer peer m pool r h =
        let sent = forward-sent answer peer m pool h in
        (
          send_params_of J (forward_params r),
          refl,
          ap read_params (send_params-forward r)
              ∙ ap (λ x. read_params (as_params x)) sent.1
              ∙ envelope_back peer m pool sent.0,
        )
