-- ===== src/Server/Wire.antt =====
-- server.rs: the JSON of a request and of an answer. `serde_json` is a parameter.
use hot_potato.Prelude.{ℕ, String, Option, none, some, List, [], ◌∷◌, ◌≡◌, Assoc, lookup}
use hot_potato.Error.{BusError}
use hot_potato.Store.Interface.{BusStore}
use hot_potato.Deliver.{PushTransport}
use hot_potato.Message.{Time}
use hot_potato.Server.Agents.{Registration}
use hot_potato.Server.Listing.{ℤ, Query}
use hot_potato.Server.Peers.{PeerParams}
use hot_potato.Server.Pool.{
  Reply, unauthorized, invalid_credentials, bus_error, error, refused, ServerConfig, HeaderMap,
  Pool,
}
use hot_potato.Server.Rpc
use hot_potato.Server.Rpc.{Request, World}
use hot_potato.Server.Send.{SendParams}

-- What is used of `serde_json::Value`: the readers give `none` for a value of another kind.
pub record Json : Type 1 where
  pub Value : Type 0
  pub null : Value
  pub object : Assoc Value → Value
  pub string : String → Value
  pub number : ℕ → Value
  pub array : List Value → Value
  pub get : String → Value → Option Value
  pub as_str : Value → Option String
  pub as_u64 : Value → Option ℕ
  pub as_i64 : Value → Option ℤ
  pub as_array : Value → Option (List Value)

-- What is written by `json!` is read as it was, also after it has crossed the network as text.
pub record IsFaithful (J : Json) : Type 0 where
  pub get-object :
      (k : String) (fields : Assoc J.Value) → J.get k (J.object fields) ≡ lookup k fields
  pub as_str-string : (s : String) → J.as_str (J.string s) ≡ some s
  pub as_u64-number : (n : ℕ) → J.as_u64 (J.number n) ≡ some n
  pub as_array-array : (vs : List J.Value) → J.as_array (J.array vs) ≡ some vs

-- `.and_then(..)`.
unfoldable pub and_then : {A B : Type 0} → Option A → (A → Option B) → Option B
and_then none f = none
and_then (some a) f = f a

module _ (J : Json) where
  -- `params.get(k).and_then(|v| v.as_str())`.
  unfoldable pub text : String → J.Value → Option String
  unfolding and_then
  text k v = and_then (J.get k v) J.as_str

  unfoldable pub count : String → J.Value → Option ℕ
  unfolding and_then
  count k v = and_then (J.get k v) J.as_u64

  -- `.filter_map(|x| x.as_str().map(str::to_string))`.
  unfoldable pub strings : List J.Value → List String
  strings [] = []
  strings (v ∷ vs) = elim (J.as_str v) [ none ↦ strings vs | some s ↦ s ∷ strings vs ]

  unfoldable pub or_nothing : Option (List J.Value) → List String
  unfolding strings
  or_nothing none = []
  or_nothing (some vs) = strings vs

  unfoldable pub texts : String → J.Value → List String
  unfolding and_then or_nothing
  texts k v = or_nothing (and_then (J.get k v) J.as_array)

  -- The parameters of each method.
  unfoldable pub registration_of : J.Value → Registration
  unfolding text
  registration_of v = record {
    agent = text "agent" v;
    role = text "role" v;
    deliver_via = text "deliver_via" v;
    url = text "url" v;
    token = text "token" v;
    description = text "description" v;
    tags = texts "tags" v;
  }

  unfoldable pub send_params_of : J.Value → SendParams
  unfolding text count
  send_params_of v = record {
    sender = text "sender" v;
    receiver = text "receiver" v;
    kind = text "type" v;
    subject = text "subject" v;
    body = text "body" v;
    ref = text "ref" v;
    hops = count "hops" v;
    forwarded_from = text "forwarded_from" v;
  }

  or_zero : Option ℕ → ℕ
  or_zero none = 0
  or_zero (some n) = n

  unfoldable pub query_of : J.Value → Query
  unfolding text count or_zero and_then
  query_of v = record {
    status = text "status" v;
    limit = or_zero (count "limit" v);
    max_age_secs = and_then (J.get "max_age_secs" v) J.as_i64;
    max_hops = count "max_hops" v;
    sender = text "sender" v;
    receiver = text "receiver" v;
  }

  unfoldable pub peer_params_of : J.Value → PeerParams
  unfolding text texts
  peer_params_of v = record {
    code = text "code" v;
    url = text "url" v;
    name = text "name" v;
    agents = texts "agents" v;
  }

  -- The arms of the `match` on the method, by name.
  abbrev pub methods : Assoc (J.Value → Request)
  methods =
      ("dashboard/login", λ v. Rpc.dashboard_login (text "username" v) (text "password" v))
      ∷ ("agent/register", λ v. Rpc.agent_register (registration_of v))
      ∷ ("agent/unregister", λ v. Rpc.agent_unregister (text "agent" v))
      ∷ ("bus/diagnose", λ v. Rpc.bus_diagnose)
      ∷ ("agent/list", λ v. Rpc.agent_list)
      ∷ ("message/thread", λ v. Rpc.message_thread (text "id" v))
      ∷ ("message/send", λ v. Rpc.message_send (send_params_of v))
      ∷ ("message/poll", λ v. Rpc.message_poll (text "agent" v) (count "limit" v))
      ∷ ("message/read", λ v. Rpc.message_read (text "agent" v) (text "id" v))
      ∷ ("message/ack", λ v. Rpc.message_ack (text "agent" v) (text "id" v) (text "note" v))
      ∷ ("agent/status", λ v. Rpc.agent_status (text "agent" v))
      ∷ ("message/peek", λ v. Rpc.message_peek (text "agent" v))
      ∷ ("bus/archive", λ v. Rpc.bus_archive)
      ∷ ("message/delete", λ v. Rpc.message_delete (text "id" v))
      ∷ ("message/delete_all", λ v. Rpc.message_delete_all)
      ∷ ("message/list", λ v. Rpc.message_list (query_of v))
      ∷ ("peer/invite", λ v. Rpc.peer_invite)
      ∷ ("peer/join", λ v. Rpc.peer_join (peer_params_of v))
      ∷ ("peer/accept", λ v. Rpc.peer_accept (peer_params_of v))
      ∷ ("peer/register", λ v. Rpc.peer_register (peer_params_of v))
      ∷ ("peer/list", λ v. Rpc.peer_list)
      ∷ ("rpc.discover", λ v. Rpc.rpc_discover)
      ∷ []

  -- `RpcRequest`, without the version that nothing looks at.
  pub record RpcRequest : Type 0 where
    pub id : Option J.Value
    pub method : String
    pub params : J.Value

  named_or : String → J.Value → Option (J.Value → Request) → Request
  named_or method params none = Rpc.other method
  named_or method params (some read) = read params

  unfoldable pub read_request : RpcRequest → Request
  unfolding named_or
  read_request req = named_or req.method req.params (lookup req.method methods)

  -- The body of an answer: a result, or a JSON-RPC error with the negative of the code.
  pub data Body : Type 0 where
    result : Reply → Body
    failure : ℕ → String → Body

  pub record Answer : Type 0 where
    pub status : ℕ
    pub id : Option J.Value
    pub body : Body

  -- How an answer is put into JSON; `print` is `to_string` of the error of the bus.
  unfoldable pub answer_of : (BusError → String) → Option J.Value → Reply → Answer
  answer_of print id unauthorized = record {
    status = 401;
    id = id;
    body = failure 32001 "unauthorized";
  }
  answer_of print id invalid_credentials = record {
    status = 401;
    id = id;
    body = failure 32002 "invalid credentials";
  }
  answer_of print id (bus_error e) = record {
    status = 200;
    id = id;
    body = failure 32603 (print e);
  }
  answer_of print id (error s) = record { status = 200; id = id; body = failure 32603 s }
  answer_of print id (refused code s) = record { status = 200; id = id; body = failure code s }
  answer_of print id reply = record { status = 200; id = id; body = result reply }

  module _ (B : BusStore) (T : PushTransport) where
    -- `rpc` on a request as it comes from the network.
    unfoldable pub serve :
        (BusError → String)
        → World
        → Time
        → ServerConfig
        → HeaderMap
        → RpcRequest
        → Pool B T
        → Answer × Pool B T
    unfolding read_request answer_of
    serve print w now config headers req p =
        let out = Rpc.rpc B T w now config headers (read_request req) p in
        (answer_of print req.id out.0, out.1)
