-- ===== src/Server/Send/Params.antt =====
-- server.rs: the parameters of `message/send`.
use hot_potato.Prelude.{ℕ, String, Option, none, some}
use hot_potato.Message.{MsgType}
use hot_potato.Federation.{wire_hops, read_type}

-- The parameters of `message/send`, of which the type is a task where it is missing.
pub record SendParams : Type 0 where
  pub sender : Option String
  pub receiver : Option String
  pub kind : Option String
  pub subject : Option String
  pub body : Option String
  pub ref : Option String
  pub hops : Option ℕ
  pub forwarded_from : Option String

-- The same with the required ones there.
pub record Envelope : Type 0 where
  pub sender : String
  pub receiver : String
  pub kind : MsgType
  pub subject : String
  pub body : String
  pub ref : Option String
  pub hops : ℕ
  pub forwarded_from : Option String

abbrev kind_or_task : Option String → MsgType
kind_or_task none = MsgType.task
kind_or_task (some text) = read_type text

-- `parse5`, and the reading of the other parameters.
unfoldable pub read_params : SendParams → Option Envelope
unfolding wire_hops
read_params q = elim q.sender [
  | none ↦ none
  | some sender ↦ elim q.receiver [
    | none ↦ none
    | some receiver ↦ elim q.subject [
      | none ↦ none
      | some subject ↦ elim q.body [
        | none ↦ none
        | some body ↦ some (record {
          sender = sender;
          receiver = receiver;
          kind = kind_or_task q.kind;
          subject = subject;
          body = body;
          ref = q.ref;
          hops = wire_hops q.hops;
          forwarded_from = q.forwarded_from;
        })
      ]
    ]
  ]
]
