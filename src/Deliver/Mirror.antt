-- ===== src/Deliver/Mirror.antt =====
-- deliver.rs: the registry with the JSON file that mirrors it, and its start in server.rs.
use hot_potato.Prelude.{
  String, Option, none, some, List, [], ◌∷◌, insert, is_some, str_eq, if◌then◌else◌,
}
use hot_potato.Disk.{Files, Codec, load_from, persist}
use hot_potato.Deliver.{
  DeliverVia, AgentEntry, Registry, register_tagged, unregister_entry, all_entries,
}

-- `struct Registry`, with the disk that its file is on.
pub record Mirrored (F : Files) : Type 0 where
  pub agents : Registry
  pub persist_path : Option String
  pub disk : F.Disk

-- `for e in entries { agents.insert(e.agent.clone(), e); }`.
unfoldable pub insert_entries : List AgentEntry → Registry → Registry
insert_entries [] agents = agents
insert_entries (e ∷ es) agents = insert_entries es (insert e.agent e agents)

unfoldable pub rehydrate : Option (List AgentEntry) → Registry → Registry
unfolding insert_entries
rehydrate none agents = agents
rehydrate (some entries) agents = insert_entries entries agents

-- A change of the registry.
pub data Change : Type 0 where
  registering : String → String → DeliverVia → List String → Change
  unregistering : String → Change

module _ (F : Files) (C : Codec F (List AgentEntry)) where
  -- `Registry::new`.
  abbrev pub new_registry : F.Disk → Mirrored F
  new_registry d = record { agents = []; persist_path = none; disk = d }

  -- `with_persistence`. The lock is free at start-up.
  unfoldable pub with_persistence : String → Mirrored F → Mirrored F
  with_persistence path m = record m {
    agents = rehydrate (load_from F C path m.disk) m.agents;
    persist_path = some path;
  }

  -- The registry of the router: it has a file if the data directory is set and not empty.
  unfoldable pub opened : (String → String → String) → Option String → F.Disk → Mirrored F
  unfolding with_persistence
  opened join none d = new_registry d
  opened join (some dir) d =
      if str_eq dir ""
      then new_registry d
      else with_persistence (join dir "registry.json") (new_registry d)

  -- The registry after a change, in memory and in the file: `persist` writes the entries by name.
  unfoldable pub saved : Registry → Mirrored F → Mirrored F
  saved agents m = record m {
    agents = agents;
    disk = persist F C m.persist_path (all_entries agents) m.disk;
  }

  -- `register_tagged`.
  unfoldable pub register_saved :
      String → String → DeliverVia → List String → Mirrored F → AgentEntry × Mirrored F
  unfolding saved
  register_saved agent description via tags m =
      let out = register_tagged agent description via tags m.agents in (out.0, saved out.1 m)

  -- `unregister`: a name that was not there leaves the file alone.
  unfoldable pub unregister_saved : String → Mirrored F → Option AgentEntry × Mirrored F
  unfolding saved
  unregister_saved agent m =
      let out = unregister_entry agent m.agents in
      (out.0, if is_some out.0 then saved out.1 m else record m { agents = out.1 })

  unfoldable pub change : Change → Mirrored F → Mirrored F
  unfolding register_saved unregister_saved
  change (registering agent description via tags) m =
      (register_saved agent description via tags m).1
  change (unregistering agent) m = (unregister_saved agent m).1

  unfoldable pub run : List Change → Mirrored F → Mirrored F
  unfolding change
  run [] m = m
  run (c ∷ cs) m = run cs (change c m)
