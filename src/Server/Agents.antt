-- ===== src/Server/Agents.antt =====
-- server.rs: `agent/register` with its push of the queue, and `agent/unregister`.
use hot_potato.Prelude.{String, Option, none, some, List, [], ◌∷◌, is_some, str_eq, if◌then◌else◌}
use hot_potato.Error.{BusResult, ok, err}
use hot_potato.Message.{Message, Time}
use hot_potato.Store.Interface.{BusStore}
use hot_potato.Bus.Defs
use hot_potato.Bus.Defs.{Role, pm, worker}
use hot_potato.Deliver.{
  DeliverVia, a2a, webhook, relay, poll, PushTransport, Registry, register_tagged, unregister_entry,
  all_entries,
}
use hot_potato.Sweeper.{Post, thread_context, dispatch_from, settle_push, with_bus, is_ok_true}
use hot_potato.Server.Gate.{or_empty}
use hot_potato.Server.Pool.{error, registered, unregistered, agents, Handler, reply_of}

-- The parameters of `agent/register`.
pub record Registration : Type 0 where
  pub agent : Option String
  pub role : Option String
  pub deliver_via : Option String
  pub url : Option String
  pub token : Option String
  pub description : Option String
  pub tags : List String

via_named : String → String → Option String → DeliverVia
via_named kind url token =
    if str_eq kind "a2a"
    then a2a url token
    else if str_eq kind "webhook"
    then webhook url
    else if str_eq kind "relay"
    then relay url
    else poll

-- The `match` on `deliver_via`: any other word is `Poll`.
unfoldable pub via_of : Registration → DeliverVia
unfolding via_named
via_of r = elim r.deliver_via [ none ↦ poll | some kind ↦ via_named kind (or_empty r.url) r.token ]

abbrev or_no_letters : BusResult (List Message) → List Message
or_no_letters (ok ms) = ms
or_no_letters (err e) = []

module _ (B : BusStore) (T : PushTransport) where
  -- One letter of a push of the queue: it is dispatched, then claimed, then settled.
  unfoldable pub repush_letter :
      Registry → List Message → String → Time → Message → Post B T → Post B T
  repush_letter registry all agent now l p =
      let sent =
        dispatch_from B T registry agent
          (record { letter = l; context_id = some (thread_context all l.id) }) p in
      let claimed = Defs.claim_push B agent l.id now sent.1.bus in
      let p' = with_bus B T claimed.1 sent.1 in
      if is_ok_true claimed.0 then (settle_push B T agent l.id now sent.0 p').0 else p'

  unfoldable pub repush_loop :
      Registry → List Message → String → Time → List Message → Post B T → Post B T
  unfolding repush_letter
  repush_loop registry all agent now [] p = p
  repush_loop registry all agent now (l ∷ ls) p =
      repush_loop registry all agent now ls (repush_letter registry all agent now l p)

  unfoldable pub repush_found :
      Registry → String → Time → BusResult (List Message) → Post B T → Post B T
  repush_found registry agent now (err e) p = p
  repush_found registry agent now (ok queued) p =
      repush_loop registry (or_no_letters (Defs.list_all B p.bus)) agent now queued p

  -- The task that `agent/register` spawns.
  unfoldable pub repush : Registry → String → Time → Post B T → Post B T
  unfolding repush_found
  repush registry agent now p = repush_found registry agent now (Defs.peek B agent p.bus) p

  -- Both required parameters are there.
  unfoldable pub register_agent : Registration → String → String → Time → Handler B T
  register_agent r agent role now p =
      let entered = register_tagged agent (or_empty r.description) (via_of r) r.tags p.registry in
      let out = Defs.register B agent (if str_eq role "pm" then pm else worker) p.post.bus in
      let post = repush entered.1 agent now (with_bus B T out.1 p.post) in
      (reply_of (λ _. registered entered.0) out.0, record p { post = post; registry = entered.1 })

  -- `agent/register`.
  unfoldable pub handle_register : Registration → Time → Handler B T
  unfolding register_agent
  handle_register r now p = elim r.agent [
    | none ↦ (error "missing param", p)
    | some agent ↦ elim r.role [
      | none ↦ (error "missing param", p)
      | some role ↦ register_agent r agent role now p
    ]
  ]

  -- `agent/unregister`.
  unfoldable pub handle_unregister : Option String → Handler B T
  handle_unregister none p = (error "missing param", p)
  handle_unregister (some agent) p =
      let removed = unregister_entry agent p.registry in
      let out = Defs.unregister B agent p.post.bus in
      (
        reply_of (λ _. unregistered agent (is_some removed.0)) out.0,
        record p { post = with_bus B T out.1 p.post; registry = removed.1 },
      )

  -- `agent/list`.
  unfoldable pub handle_agents : Handler B T
  handle_agents p = (agents (all_entries p.registry), p)
