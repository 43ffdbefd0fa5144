-- ===== src/Sweeper/Diagnose.antt =====
-- sweeper.rs: the call of another pool, and the diagnosis of a peer by such calls.
use Prim.Native.String.{◌++◌ as str_append}
use hot_potato.Prelude.{
  String, Bool, true, false, Option, none, some, List, find, str_eq, if◌then◌else◌,
}
use hot_potato.Error.{Result, ok, err}
use hot_potato.Federation.{Peer}

-- A JSON value, as far as it is read: an array of objects, each with its `agent`, or another value.
pub record Entry : Type 0 where
  pub agent : Option String
  pub text : String

pub data Value : Type 0 where
  array : List Entry → Value
  object : Entry → Value
  null : Value
  scalar : String → Value

-- What comes back from the network: an error of the client, a body that is no JSON, or a status
-- (whether it is a success, and its text) with the body's `error` and `result`.
pub data PoolReply : Type 0 where
  unreachable : String → PoolReply
  bad_json : String → PoolReply
  replied : Bool → String → Option String → Option Value → PoolReply

abbrev or_null : Option Value → Value
or_null none = null
or_null (some v) = v

replied_with : Peer → Bool → String → Option String → Option Value → Result String Value
replied_with peer is_success status (some e) result =
    if is_success
    then err (str_append peer.name (str_append " rpc error: " e))
    else err (str_append peer.name (str_append " replied HTTP " status))
replied_with peer is_success status none result =
    if is_success
    then ok (or_null result)
    else err (str_append peer.name (str_append " replied HTTP " status))

read_reply : Peer → PoolReply → Result String Value
read_reply peer (unreachable e) = err (str_append peer.name (str_append " unreachable: " e))
read_reply peer (bad_json e) = err (str_append peer.name (str_append " bad json: " e))
read_reply peer (replied is_success status e result) = replied_with peer is_success status e result

-- `pool_rpc`. `post` is the other pool, at the end of a request with the peer's token.
unfoldable pub pool_rpc : (Peer → String → PoolReply) → Peer → String → Result String Value
unfolding read_reply replied_with
pool_rpc post peer method = read_reply peer (post peer method)

-- The object that `diagnose_peer` builds; a field that it does not set is `none`.
pub record Diagnosis : Type 0 where
  pub peer : String
  pub bus_reachable : Bool
  pub error : Option String
  pub their_peer_entry_for_us : Option Value
  pub our_token_probe : Option String

is_agent : String → Entry → Bool
is_agent me e = elim e.agent [ none ↦ false | some a ↦ str_eq a me ]

entry_for : String → Value → Value
entry_for me (array es) = elim (find (is_agent me) es) [ none ↦ null | some e ↦ object e ]
entry_for me v = null

probe_text : Result String Value → String
probe_text (ok v) = "ok"
probe_text (err e) = str_append "failed: " e

-- `diagnose_peer`.
unfoldable pub diagnose_peer : (Peer → String → PoolReply) → Peer → String → Diagnosis
unfolding is_agent entry_for probe_text
diagnose_peer post peer me = elim (pool_rpc post peer "agent/list") [
  | err e ↦ record {
    peer = peer.name;
    bus_reachable = false;
    error = some e;
    their_peer_entry_for_us = none;
    our_token_probe = none;
  }
  | ok v ↦ record {
    peer = peer.name;
    bus_reachable = true;
    error = none;
    their_peer_entry_for_us = some (entry_for me v);
    our_token_probe = some (probe_text (pool_rpc post peer "peer/list"));
  }
]
