-- ===== src/Server/Send/Fanout.antt =====
-- server.rs: `message/send` to all agents, and the steps that its branches share.
use hot_potato.Prelude.{ℕ, String, Option, none, some, List, [], ◌∷◌, ◌++◌, if◌then◌else◌}
use hot_potato.Error.{BusResult, ok, err}
use hot_potato.Message.{Message, Time}
use hot_potato.Store.Interface.{BusStore}
use hot_potato.Bus.Defs
use hot_potato.Bus.Defs.{EventBus, worker}
use hot_potato.Deliver.{PushTransport, Registry, poll, register_tagged}
use hot_potato.Sweeper.{Post, with_bus}
use hot_potato.Server.{find_letter, push_on_arrival}
use hot_potato.Server.Pool.{Pool, bus_error, fanout, Handler}
use hot_potato.Server.Send.Params.{Envelope}

module _ (B : BusStore) (T : PushTransport) where
  -- `hub.emit` on a letter that may be missing.
  abbrev pub emit_some : String → Option Message → Post B T → Post B T
  emit_some event none p = p
  emit_some event (some m) p = record p { events = p.events ++ ((event, m) ∷ []) }

  -- A shadow registration of an agent of another pool, if the bus does not know the agent.
  unfoldable pub register_shadow :
      String → String → String → Pool B T → BusResult (Unit {0}) × Pool B T
  register_shadow agent description tag p =
      let entered = register_tagged agent description poll (tag ∷ []) p.registry in
      let out = Defs.register B agent worker p.post.bus in
      if Defs.is_registered B p.post.bus agent
      then (ok tt, p)
      else (out.0, record p { post = with_bus B T out.1 p.post; registry = entered.1 })

  unfoldable pub push_copy : Registry → String → Time → Option Message → Post B T → Post B T
  push_copy registry id now none p = p
  push_copy registry id now (some l) p = push_on_arrival B T registry id l.receiver now p

  -- The loop over the ids of a broadcast: each copy is looked up and pushed.
  unfoldable pub push_copies : Registry → Time → List String → Post B T → Post B T
  unfolding push_copy
  push_copies registry now [] p = p
  push_copies registry now (id ∷ ids) p =
      push_copies registry now ids
        (push_copy registry id now (find_letter id (Defs.list_all B p.bus)) p)

  unfoldable pub all_sent : Time → BusResult (List String) × EventBus B → Handler B T
  all_sent now (err x, bus) p = (bus_error x, record p { post = with_bus B T bus p.post })
  all_sent now (ok ids, bus) p =
      (fanout ids, record p { post = push_copies p.registry now ids (with_bus B T bus p.post) })

  -- (0) The receiver `all`. `fresh` gives the id for the copy to each agent.
  unfoldable pub send_all : (String → String) → Time → Envelope → Handler B T
  unfolding all_sent
  send_all fresh now e p =
      all_sent now (Defs.broadcast B fresh now e.sender e.subject e.body p.post.bus) p

  abbrev pub send_by :
      String → Time → Envelope → ℕ → Option String → EventBus B → BusResult String × EventBus B
  send_by uuid now e hops from bus =
      Defs.send_envelope B uuid now e.sender e.receiver e.kind e.subject e.body e.ref hops from bus
