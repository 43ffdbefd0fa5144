-- ===== src/Deliver/Registry.antt =====
-- The registry answers with what was registered last, and keeps the tags of a plain re-registration.
use hot_potato.Prelude.{
  ◌≡◌, refl, String, none, some, List, ◌∷◌, lookup, lookup-insert, lookup-remove,
  lookup-insert_self, insert, str_eq, if◌then◌else◌, arith,
}
use hot_potato.Deliver.{
  DeliverVia, AgentEntry, Registry, register_tagged, register_entry, unregister_entry,
}

abbrev pub entry_for : String → String → DeliverVia → List String → AgentEntry
entry_for agent description via tags = record {
  agent = agent;
  description = description;
  deliver_via = via;
  tags = tags;
}

-- A plain re-registration finds the tags of the registration before it.
register_again :
    (agent description description' : String) (via via' : DeliverVia) (t : String)
    (ts : List String) (registry : Registry)
    → register_entry agent description' via'
        (register_tagged agent description via (t ∷ ts) registry).1
      ≡ (
        entry_for agent description' via' (t ∷ ts),
        insert agent
            (entry_for agent description' via' (t ∷ ts))
            (insert agent (entry_for agent description via (t ∷ ts)) registry),
      )
unfolding register_tagged register_entry
register_again agent description description' via via' t ts registry =
    rw (lookup-insert_self agent (entry_for agent description via (t ∷ ts)) registry) refl

-- A registration is found under its agent and changes no other entry; a plain re-registration
-- keeps the tags; a removal takes away that agent's entry, returns it, and touches no other.
pub register_tagged-lookup :
    (agent other description description' : String) (via via' : DeliverVia) (t : String)
    (ts : List String) (registry : Registry)
    → let first = register_tagged agent description via (t ∷ ts) registry in
      let again = register_entry agent description' via' first.1 in
      let gone = unregister_entry agent again.1 in
      (lookup other again.1 ≡ (
        if str_eq agent other
        then some (entry_for agent description' via' (t ∷ ts))
        else lookup other registry))
      × (gone.0 ≡ some again.0)
      × (lookup other gone.1 ≡ (if str_eq agent other then none else lookup other registry))
unfolding unregister_entry
register_tagged-lookup agent other description description' via via' t ts registry =
    rw (register_again agent description description' via via' t ts registry) (
      simp lookup-insert (ground arith),
      lookup-insert_self agent _ _,
      simp (lookup-insert, lookup-remove) (ground arith),
    )
