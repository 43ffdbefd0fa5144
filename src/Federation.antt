-- ===== src/Federation.antt =====
-- federation.rs, and the branch of server.rs for a letter from another pool: the routing table, the
-- forwarding of a letter to its home pool, and the checks of the pool that takes it.
pub mod Routes
pub mod Table
pub mod Hops
pub mod Kinds
use Prim.Native.String.{◌++◌ as str_append}
use hot_potato.Prelude.{
  ℕ, ◌+◌, ◌%◌, ◌==◌, ltb, leb, String, Bool, true, false, not, ◌&&◌, ◌||◌, Option, none, some, List,
  [], ◌∷◌, str_eq, is_some, any, find, if◌then◌else◌,
}
use hot_potato.Error.{Result, ok, err}
use hot_potato.Message.{Message, MsgType, task, reply, broadcast, ack_only}
use hot_potato.Deliver.Http.{is_success}

abbrev pub max_hops : ℕ
max_hops = 2

pub record Peer : Type 0 where
  pub name : String
  pub url : String
  pub token : String
  pub agents : List String

unfoldable pub contains : Peer → String → Bool
contains p agent = any (λ a. str_eq a agent) p.agents

-- `Peers::resolve`: the home pool of an agent.
unfoldable pub resolve : List Peer → String → Option Peer
resolve peers agent = find (λ p. contains p agent) peers

unfoldable pub claims : List Peer → String → Bool
unfolding resolve
claims peers agent = is_some (resolve peers agent)

abbrev pub is_nil : List String → Bool
is_nil [] = true
is_nil (x ∷ xs) = false

-- The checks of `Peers::from_json` on the peers that the JSON library has read.
unfoldable pub checked_peers : List Peer → Result String (List Peer)
checked_peers [] = ok []
checked_peers (p ∷ ps) =
    if str_eq p.name "" || str_eq p.url "" || is_nil p.agents
    then err (
        str_append "HOT_POTATO_PEERS: peer `"
          (str_append p.name "` needs name, url and a non-empty agents list"))
    else elim (checked_peers ps) [ ok rest ↦ ok (p ∷ rest) | err e ↦ err e ]

-- `format!("{:?}", msg_type).to_lowercase()`.
abbrev pub type_text : MsgType → String
type_text task = "task"
type_text reply = "reply"
type_text broadcast = "broadcast"
type_text ack_only = "ackonly"

-- How `message/send` reads the type.
abbrev pub read_type : String → MsgType
read_type text =
    if str_eq text "reply"
    then reply
    else if str_eq text "broadcast"
    then broadcast
    else if str_eq text "ack_only"
    then ack_only
    else task

-- The parameters of the `message/send` that carries a letter to its home pool, and the two headers.
pub record ForwardRequest : Type 0 where
  pub url : String
  pub token : String
  pub pool : String
  pub sender : String
  pub receiver : String
  pub kind : String
  pub subject : String
  pub body : String
  pub ref : Option String
  pub hops : ℕ
  pub forwarded_from : String

-- What comes back of a request: no answer, a status that is no success, a body that is not JSON, or
-- JSON with or without an `error`.
pub data PeerAnswer : Type 0 where
  unreachable : String → PeerAnswer
  http_status : ℕ → String → PeerAnswer
  bad_json : String → PeerAnswer
  rpc_error : String → PeerAnswer
  rpc_result : PeerAnswer

unfoldable pub forward_request : Peer → Message → String → ForwardRequest
forward_request peer letter from_pool = record {
  url = peer.url;
  token = peer.token;
  pool = from_pool;
  sender = letter.sender;
  receiver = letter.receiver;
  kind = type_text letter.msg_type;
  subject = letter.subject;
  body = letter.body;
  ref = letter.ref;
  hops = letter.hops + 1;
  forwarded_from = from_pool;
}

abbrev or_unknown : Option String → String
or_unknown none = "?"
or_unknown (some pool) = pool

forward_result : Peer → PeerAnswer → Result String (Unit {0})
forward_result peer (unreachable e) = err (str_append peer.name (str_append " unreachable: " e))
forward_result peer (http_status code text) =
    err (str_append peer.name (str_append " replied HTTP " text))
forward_result peer (bad_json e) = err (str_append "bad json: " e)
forward_result peer (rpc_error e) = err (str_append peer.name (str_append " rejected letter: " e))
forward_result peer rpc_result = ok tt

-- `forward`: the result, and the request that was sent, if one was. `answer` is the other pool.
unfoldable pub forward :
    (ForwardRequest → PeerAnswer)
    → Peer
    → Message
    → String
    → Result String (Unit {0}) × Option ForwardRequest
unfolding forward_request forward_result
forward answer peer letter from_pool =
    if leb max_hops letter.hops
    then (
      err (
          str_append "hop limit 2 reached (path: "
            (str_append (or_unknown letter.forwarded_from) ")")),
      none,
    )
    else (
      forward_result peer (answer (forward_request peer letter from_pool)),
      some (forward_request peer letter from_pool),
    )

-- `v.as_u64().unwrap_or(0) as u8`: the number of links that a request says it has crossed.
unfoldable pub wire_hops : Option ℕ → ℕ
wire_hops none = 0
wire_hops (some n) = n % 256

-- The checks of `message/send` on a letter from the pool `from_pool`: whether this bus has a token,
-- whether the request carried it, the links crossed, and whether `forwarded_from` was given.
unfoldable pub inbound_checks : String → Bool → Bool → ℕ → Option String → Result String (Unit {0})
inbound_checks from_pool has_token authed hops forwarded_from =
    if has_token && not authed
    then err "federated send requires the pool bearer token"
    else if (hops == 0) || not (is_some forwarded_from)
    then err "federated send must carry hops and forwarded_from"
    else if ltb max_hops hops
    then err (str_append "hop limit 2 exceeded (from pool `" (str_append from_pool "`)"))
    else ok tt
