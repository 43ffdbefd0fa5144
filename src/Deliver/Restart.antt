-- ===== src/Deliver/Restart.antt =====
-- deliver.rs: what a restart finds in the registry's file, whatever was registered before it and
-- whichever writes have failed.
use hot_potato.Prelude.{
  ◌≡◌, refl, sym, ap, ◌∙◌, ◌⊎◌, inl, inr, String, true, false, Option, none, some, List, [], ◌∷◌,
  ◌++◌, lookup, lookup-remove, str_eq, eq_iff, is_some, arith, if◌then◌else◌, Bool-cases,
}
use hot_potato.Disk.{Files, IsLawful, Codec, ReadsBack, load_from, persist_done}
use hot_potato.Disk.Laws.{load_from-persist}
use hot_potato.Deliver.{AgentEntry, Registry, register_tagged, unregister_entry, all_entries}
use hot_potato.Deliver.Mirror.{
  Mirrored, Change, registering, unregistering, rehydrate, new_registry, with_persistence, saved,
  change, run,
}
use hot_potato.Deliver.Filed.{
  IsFiled, insert-IsFiled, remove-IsFiled, insert_entries-IsFiled, lookup-all_entries,
}

rehydrate-IsFiled : (o : Option (List AgentEntry)) → IsFiled (rehydrate o [])
unfolding rehydrate
rehydrate-IsFiled none = tt
rehydrate-IsFiled (some es) = insert_entries-IsFiled es [] tt

lookup-rehydrate :
    (agent : String) (r : Registry)
    → IsFiled r
    → lookup agent (rehydrate (some (all_entries r)) []) ≡ lookup agent r
unfolding rehydrate
lookup-rehydrate agent r h = lookup-all_entries agent r h

module _ (F : Files) (C : Codec F (List AgentEntry)) where
  -- The registry that a start of the server on this disk has.
  abbrev pub started : String → F.Disk → Mirrored F
  started path d = with_persistence F C path (new_registry F C d)

  change-IsFiled :
      (c : Change) (m : Mirrored F) → IsFiled m.agents → IsFiled (change F C c m).agents
  unfolding change saved register_tagged unregister_entry
  change-IsFiled (registering agent description via tags) m h =
      insert-IsFiled agent _ m.agents refl h
  change-IsFiled (unregistering agent) m h = elim (Bool-cases (is_some (lookup agent m.agents))) [
    | inl t ↦ rw t (remove-IsFiled agent m.agents h)
    | inr t ↦ rw t (remove-IsFiled agent m.agents h)
  ]

  persist_path-change :
      (c : Change) (m : Mirrored F) → (change F C c m).persist_path ≡ m.persist_path
  unfolding change saved
  persist_path-change (registering agent description via tags) m = refl
  persist_path-change (unregistering agent) m =
      elim (Bool-cases (is_some (unregister_entry agent m.agents).0)) [
        | inl t ↦ rw t refl
        | inr t ↦ rw t refl
      ]

  module _ (laws : IsLawful F) (reads : ReadsBack C) (path : String)
      (apart : str_eq (F.tmp_of path) path ≡ false) where
    load-saved :
        (agents : Registry) (m : Mirrored F)
        → m.persist_path ≡ some path
        → load_from F C path (saved F C agents m).disk ≡ (
            if persist_done F C path (all_entries agents) m.disk
            then some (all_entries agents)
            else load_from F C path m.disk)
    unfolding saved
    load-saved agents m p =
        rw p (load_from-persist F C laws reads path apart (all_entries agents) m.disk)

    -- A write that is attempted shows in the file, or the file is as before.
    load-saved_or :
        (agents : Registry) (m : Mirrored F)
        → m.persist_path ≡ some path
        → (load_from F C path (saved F C agents m).disk ≡ load_from F C path m.disk)
          ⊎ (load_from F C path (saved F C agents m).disk ≡ some (all_entries agents))
    load-saved_or agents m p =
        elim (Bool-cases (persist_done F C path (all_entries agents) m.disk)) [
          | inl t ↦ inr (load-saved agents m p ∙ rw t refl)
          | inr f ↦ inl (load-saved agents m p ∙ rw f refl)
        ]

    load-change :
        (c : Change) (m : Mirrored F)
        → m.persist_path ≡ some path
        → (load_from F C path (change F C c m).disk ≡ load_from F C path m.disk)
          ⊎ (load_from F C path (change F C c m).disk ≡ some (all_entries (change F C c m).agents))
    unfolding change saved
    load-change (registering agent description via tags) m p =
        load-saved_or (register_tagged agent description via tags m.agents).1 m p
    load-change (unregistering agent) m p =
        elim (Bool-cases (is_some (unregister_entry agent m.agents).0)) [
          | inl t ↦ rw t (load-saved_or (unregister_entry agent m.agents).1 m p)
          | inr f ↦ rw f (inl refl)
        ]

    -- The file holds what it held, or the registry as it was after the first changes.
    load-run :
        (cs : List Change) (m : Mirrored F)
        → m.persist_path ≡ some path
        → (load_from F C path (run F C cs m).disk ≡ load_from F C path m.disk)
          ⊎ ((first : List Change) × (later : List Change) × (cs ≡ first ++ later)
              × (load_from F C path (run F C cs m).disk
                  ≡ some (all_entries (run F C first m).agents)))
    unfolding run
    load-run [] m p = inl refl
    load-run (c ∷ cs) m p =
        let next = change F C c m in
        elim (load-run cs next (persist_path-change c m ∙ p)) [
          | inr (first, later, same, e) ↦ inr (c ∷ first, later, ap (λ l. c ∷ l) same, e)
          | inl e ↦ elim (load-change c m p) [
            | inl kept ↦ inl (e ∙ kept)
            | inr now ↦ inr (c ∷ [], cs, refl, e ∙ now)
          ]
        ]

    run-IsFiled :
        (cs : List Change) (m : Mirrored F) → IsFiled m.agents → IsFiled (run F C cs m).agents
    unfolding run
    run-IsFiled [] m h = h
    run-IsFiled (c ∷ cs) m h = run-IsFiled cs (change F C c m) (change-IsFiled c m h)

    started-IsFiled : (d : F.Disk) → IsFiled (started path d).agents
    unfolding with_persistence
    started-IsFiled d = rehydrate-IsFiled (load_from F C path d)

    -- Whatever is registered and removed, and whichever writes and renames fail on the way, a
    -- restart finds the registry as it stood after the first so many of the changes: never half
    -- of one, and never a mixture.
    pub run-started :
        (cs : List Change) (d : F.Disk)
        → (first : List Change) × (later : List Change) × (cs ≡ first ++ later)
          × ((agent : String)
              → lookup agent (started path (run F C cs (started path d)).disk).agents
                ≡ lookup agent (run F C first (started path d)).agents)
    unfolding with_persistence
    run-started cs d = elim (load-run cs (started path d) refl) [
      | inl e ↦ ([], cs, refl, λ agent. unfold run in ap (λ o. lookup agent (rehydrate o [])) e)
      | inr (first, later, same, e) ↦ (
        first,
        later,
        same,
        λ agent.
            ap (λ o. lookup agent (rehydrate o [])) e
            ∙ lookup-rehydrate agent (run F C first (started path d)).agents
                (run-IsFiled first (started path d) (started-IsFiled d)),
      )
    ]

    module _
        (reliable : (entries : List AgentEntry) (d : F.Disk)
          → persist_done F C path entries d ≡ true) where
      -- What a restart would find is what the registry in memory says.
      abbrev IsMirror : Mirrored F → Type 0
      IsMirror m =
          (agent : String)
          → lookup agent (rehydrate (load_from F C path m.disk) []) ≡ lookup agent m.agents

      saved-IsMirror :
          (agents : Registry) (m : Mirrored F)
          → m.persist_path ≡ some path
          → IsFiled agents
          → IsMirror (saved F C agents m)
      unfolding saved
      saved-IsMirror agents m p h agent =
          ap (λ o. lookup agent (rehydrate o []))
            (load-saved agents m p ∙ rw (reliable (all_entries agents) m.disk) refl)
          ∙ lookup-rehydrate agent agents h

      change-IsMirror :
          (c : Change) (m : Mirrored F)
          → m.persist_path ≡ some path
          → IsFiled m.agents
          → IsMirror m
          → IsMirror (change F C c m)
      unfolding change
      change-IsMirror (registering agent description via tags) m p h i =
          saved-IsMirror (register_tagged agent description via tags m.agents).1 m p
            (change-IsFiled (registering agent description via tags) m h)
      change-IsMirror (unregistering agent) m p h i =
          elim (Bool-cases (is_some (unregister_entry agent m.agents).0)) [
            | inl t ↦ rw t (
                saved-IsMirror (unregister_entry agent m.agents).1 m p
                  (unfold unregister_entry in remove-IsFiled agent m.agents h))
            | inr f ↦ rw f (λ other.
                i other
                ∙ (unfold unregister_entry in
                    sym
                      (lookup-remove agent other m.agents ∙ ground (arith, eq_iff agent other, f))))
          ]

      run-IsMirror :
          (cs : List Change) (m : Mirrored F)
          → m.persist_path ≡ some path
          → IsFiled m.agents
          → IsMirror m
          → IsMirror (run F C cs m)
      unfolding run
      run-IsMirror [] m p h i = i
      run-IsMirror (c ∷ cs) m p h i =
          run-IsMirror cs (change F C c m) (persist_path-change c m ∙ p) (change-IsFiled c m h)
            (change-IsMirror c m p h i)

      -- If every write of the mirror is done, then after any registrations and removals a restart
      -- gives each agent the entry that the registry in memory has for it, or none where it has
      -- none.
      pub run_restarted :
          (cs : List Change) (d : F.Disk) (agent : String)
          → lookup agent (started path (run F C cs (started path d)).disk).agents
            ≡ lookup agent (run F C cs (started path d)).agents
      unfolding with_persistence
      run_restarted cs d agent =
          run-IsMirror cs (started path d) refl (started-IsFiled d) (λ other. refl) agent
