-- ===== src/Deliver.antt =====
-- deliver.rs: the registry of agents, the transport, and the dispatch of one push.
pub mod Registry
pub mod Http
pub mod Mirror
pub mod Filed
pub mod Restart
use hot_potato.Prelude.{
  ℕ, String, Bool, true, false, not, Option, none, some, List, [], ◌∷◌, Assoc, lookup, insert,
  remove, is_some, map, sort_by, str_le, if◌then◌else◌,
}
use hot_potato.Error.{Result, ok, err}
use hot_potato.Message.{Message}

pub data DeliverVia : Type 0 where
  a2a : String → Option String → DeliverVia
  webhook : String → DeliverVia
  relay : String → DeliverVia
  poll : DeliverVia

unfoldable pub is_push : DeliverVia → Bool
is_push poll = false
is_push via = true

pub record AgentEntry : Type 0 where
  pub agent : String
  pub description : String
  pub deliver_via : DeliverVia
  pub tags : List String

-- The map behind the lock. Its mirror on disk is in Deliver/Mirror.antt.
abbrev pub Registry : Type 0
Registry = Assoc AgentEntry

tags_of : Option AgentEntry → List String
tags_of none = []
tags_of (some e) = e.tags

-- An empty list of tags keeps the tags that are stored.
tags_or_stored : List String → Option AgentEntry → List String
tags_or_stored [] stored = tags_of stored
tags_or_stored (t ∷ ts) stored = t ∷ ts

unfoldable pub register_tagged :
    String → String → DeliverVia → List String → Registry → AgentEntry × Registry
unfolding tags_or_stored tags_of
register_tagged agent description deliver_via tags registry =
    let entry : AgentEntry = record {
      agent = agent;
      description = description;
      deliver_via = deliver_via;
      tags = tags_or_stored tags (lookup agent registry);
    } in
    (entry, insert agent entry registry)

unfoldable pub register_entry : String → String → DeliverVia → Registry → AgentEntry × Registry
unfolding register_tagged
register_entry agent description deliver_via = register_tagged agent description deliver_via []

unfoldable pub unregister_entry : String → Registry → Option AgentEntry × Registry
unregister_entry agent registry = (lookup agent registry, remove agent registry)

-- `Registry::all`, by name.
unfoldable pub all_entries : Registry → List AgentEntry
all_entries registry = sort_by (λ a b. str_le a.agent b.agent) (map (λ e. e.1) registry)

-- The JSON of a push: the letter, and the `contextId` that the bus resolves.
pub record PushLetter : Type 0 where
  pub letter : Message
  pub context_id : Option String

-- The trait `PushTransport`. `World` is what lies behind the transport.
pub record PushTransport : Type 1 where
  pub World : Type 0
  pub push : DeliverVia → PushLetter → World → Result String (Unit {0}) × World

pub data PushOutcome : Type 0 where
  pushed : PushOutcome
  failed : String → PushOutcome
  skipped : String → PushOutcome

abbrev outcome_of : Result String (Unit {0}) → PushOutcome
outcome_of (ok _) = pushed
outcome_of (err e) = failed e

module _ (T : PushTransport) where
  dispatch_entry : Option AgentEntry → PushLetter → T.World → PushOutcome × T.World
  dispatch_entry none letter w = (skipped "not in registry", w)
  dispatch_entry (some entry) letter w =
      let sent = T.push entry.deliver_via letter w in
      if not (is_push entry.deliver_via)
      then (skipped "poll-only", w)
      else (outcome_of sent.0, sent.1)

  unfoldable pub dispatch_push : Registry → String → PushLetter → T.World → PushOutcome × T.World
  unfolding dispatch_entry is_push
  dispatch_push registry receiver letter w = dispatch_entry (lookup receiver registry) letter w
