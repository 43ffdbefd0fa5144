-- ===== src/Witnesses/Pools.antt =====
-- Federation and handshake at concrete inputs.
use hot_potato.Prelude.{
  ℕ, ◌+◌, ◌≤◌, ◌<◌, ltb, ◌≡◌, ◌↔◌, ◌≢◌, refl, false, some, List, [], ◌∷◌, any, All, arith,
}
use hot_potato.Message.{Message, task, ack_only}
use hot_potato.Federation.Kinds.{forward_request-read_type}
use hot_potato.Federation.{
  PeerAnswer, rpc_result, ForwardRequest, forward, forward_request, read_type, wire_hops, max_hops,
}
use hot_potato.Federation.Hops.{Journey, home, link, Journey-max_hops}
use hot_potato.Handshake.{create_invite, consume_invite, invite_ttl}
use hot_potato.Handshake.Invites.{create_invite-once}
use hot_potato.Handshake.Codes.{payload_of, invite_code, last_part, payload_of-invite_code}
use hot_potato.Handshake.Base64.{
  symbol, at, b64url_encode, b64url_decode, b64url_decode-b64url_encode,
}
use hot_potato.Witnesses.Fixtures.{waiting, fleet}

abbrev pub accepts : ForwardRequest → PeerAnswer
accepts r = rpc_result

pub waiting_sent :
    (forward accepts fleet waiting "home").1 ≡ some (forward_request fleet waiting "home")
unfolding forward
waiting_sent = refl

-- The letter as the next pool stores it.
abbrev arrived : Message
arrived = record waiting { hops = 1; forwarded_from = some "home" }

one_hop : arrived.hops ≡ wire_hops (some (forward_request fleet waiting "home").hops)
unfolding wire_hops forward_request
one_hop = refl

one_link : Journey accepts 1 waiting
one_link =
    link {next = arrived} fleet "home" (forward_request fleet waiting "home") waiting_sent one_hop
      home

Journey-max_hops_example : 1 + 0 ≤ max_hops
Journey-max_hops_example = Journey-max_hops accepts 1 waiting one_link (omega arith)

create_invite-once_example :
    let made = (create_invite "hp-1" 100 []).1 in
    ((consume_invite "hp-1" 200 made).0 ≡ ltb 200 (100 + invite_ttl))
    × ((consume_invite "hp-1" 300 (consume_invite "hp-1" 200 made).1).0 ≡ false)
unfolding any
create_invite-once_example = create_invite-once "hp-1" 100 200 300 [] refl (omega arith)

abbrev hello : List ℕ
hello = 104 ∷ 101 ∷ 108 ∷ 108 ∷ 111 ∷ []

hello_bytes : All (λ b. b < 256) hello
hello_bytes = (omega arith, (omega arith, (omega arith, (omega arith, (omega arith, tt)))))

b64url_decode-b64url_encode_example : b64url_decode (b64url_encode hello) ≡ some hello
b64url_decode-b64url_encode_example = b64url_decode-b64url_encode hello hello_bytes

forward_request-read_type_example :
    ((read_type (forward_request fleet waiting "home").kind ≡ task) ↔ (task ≢ ack_only))
    × ((task ≡ ack_only)
        ↔ ((task ≢ task) × (read_type (forward_request fleet waiting "home").kind ≡ task)))
forward_request-read_type_example = forward_request-read_type fleet waiting "home"

-- The bytes of "http" under the uuid "7f".
payload_of-invite_code_example :
    payload_of (invite_code (55 ∷ 102 ∷ []) (104 ∷ 116 ∷ 116 ∷ 112 ∷ []))
    ≡ some (104 ∷ 116 ∷ 116 ∷ 112 ∷ [])
payload_of-invite_code_example =
    payload_of-invite_code (55 ∷ 102 ∷ []) (104 ∷ 116 ∷ 116 ∷ 112 ∷ []) (
      omega arith,
      omega arith,
      omega arith,
      (λ e. omega (arith, e)),
      (λ e. omega (arith, e)),
      (omega arith, tt),
    )

-- The bytes of "ab~", whose code ends in "YWJ-".
tilde_lost : payload_of (invite_code (55 ∷ []) (97 ∷ 98 ∷ 126 ∷ [])) ≡ some []
unfolding payload_of invite_code last_part any b64url_decode b64url_encode symbol at
tilde_lost = refl
