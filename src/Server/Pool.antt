-- ===== src/Server/Pool.antt =====
-- server.rs: the configuration, the state that the handlers share, and what they answer.
use hot_potato.Prelude.{ℕ, String, Bool, Option, List}
use hot_potato.Error.{BusError, BusResult, ok, err}
use hot_potato.Message.{Message}
use hot_potato.Store.Interface.{BusStore}
use hot_potato.Deliver.{AgentEntry, PushTransport, PushOutcome, Registry}
use hot_potato.Federation.{Peer}
use hot_potato.Handshake.{Invite}
use hot_potato.Sweeper.{Post}
use hot_potato.Sweeper.Diagnose.{Diagnosis}

-- The fields of `ServerConfig` that the handlers read.
pub record ServerConfig : Type 0 where
  pub public_url : String
  pub bearer_token : Option String
  pub dashboard_user : String
  pub dashboard_password : String
  pub peers : List Peer
  pub pool_name : String

-- The headers that the handlers read.
pub record HeaderMap : Type 0 where
  pub authorization : Option String
  pub dashboard_session : Option String
  pub potato_pool : Option String

-- `BusState`, with what lies behind the transport and the events of the hub. Session ids are a list.
pub record Pool (B : BusStore) (T : PushTransport) : Type 0 where
  pub post : Post B T
  pub registry : Registry
  pub invites : List Invite
  pub dynamic_peers : List Peer
  pub sessions : List String

-- The live probe of `bus/diagnose`.
pub data Probe : Type 0 where
  no_receiver : Probe
  probed : String → PushOutcome → Probe

-- What a request is answered, before it is put into JSON. The error of the bus is not
-- printed here. A method that is `refused` puts its own JSON-RPC code, which is the negative of the
-- number; an `error` has the code of the last `match` of `rpc`.
pub data Reply : Type 0 where
  unauthorized : Reply
  invalid_credentials : Reply
  session : String → Reply
  bus_error : BusError → Reply
  error : String → Reply
  refused : ℕ → String → Reply
  sent : String → Reply
  forwarded : String → String → Reply
  fanout : List String → Reply
  letter : Message → Reply
  letters : List Message → Reply
  deleted : ℕ → Reply
  registered : AgentEntry → Reply
  unregistered : String → Bool → Reply
  invite : Invite → Reply
  joined : String → Reply
  accepted : String → List String → Reply
  peer_registered : Reply
  method_table : Reply
  peer_list : List Peer → Reply
  agents : List AgentEntry → Reply
  diagnosed : List Message → Probe → List Diagnosis → Reply

-- What a handler does: its answer, and the state after it and after the tasks that it spawns.
abbrev pub Handler : BusStore → PushTransport → Type 0
Handler B T = Pool B T → Reply × Pool B T

-- `.map(f).map_err(|e| e.to_string())`.
abbrev pub reply_of : {A : Type 0} → (A → Reply) → BusResult A → Reply
reply_of f (ok a) = f a
reply_of f (err e) = bus_error e
