-- ===== src/Bus/Keeps.antt =====
-- bus.rs over store/memory.rs: the operations of the bus keep what the calls of the store keep.
use hot_potato.Prelude.{
  ℕ, String, false, ◌≡◌, refl, Option, none, List, [], ◌∷◌, str_eq, if◌then◌else◌, inl, inr,
  Bool-cases, ◌==◌, ◌^◌, ◌-◌,
}
use hot_potato.Error.{BusResult, ok, err, Result-cases}
use hot_potato.Message.{MsgType, Time, new_message}
use hot_potato.Memory.Backend.{memory_backend}
use hot_potato.Memory.Defs.{MemoryStore, agents_of, register, unregister}
use hot_potato.Memory.NoLoss.{is_delete}
use hot_potato.Memory.Runs
use hot_potato.Memory.Runs.{Call, perform}
use hot_potato.Bus.Defs
use hot_potato.Bus.Defs.{
  EventBus, Role, after_guard, send_guard, ensure_registered, set_role, drop_role,
}

abbrev pub Bus : Type 0
Bus = EventBus memory_backend

module _ (I : MemoryStore → Type 0)
    (kept : (c : Call) (s : MemoryStore) → is_delete c ≡ false → I s → I (perform c s)) where
  guarded :
      {A : Type 0} (r : BusResult (Unit {0})) (op : Bus → BusResult A × Bus) (bus : Bus)
      → I bus.store
      → I (op bus).1.store
      → I (after_guard memory_backend r op bus).1.store
  guarded (ok u) op bus h h' = h'
  guarded (err e) op bus h h' = h

  pub register-keeps :
      (agent : String) (role : Role) (bus : Bus)
      → I bus.store
      → I (Defs.register memory_backend agent role bus).1.store
  unfolding Defs.register set_role perform register
  register-keeps agent role bus h = kept (Runs.register agent) bus.store refl h

  pub unregister-keeps :
      (agent : String) (bus : Bus)
      → I bus.store
      → I (Defs.unregister memory_backend agent bus).1.store
  unfolding Defs.unregister drop_role perform unregister
  unregister-keeps agent bus h = kept (Runs.unregister agent) bus.store refl h

  pub send_envelope-keeps :
      (uuid : String) (now : Time) (sender receiver : String) (kind : MsgType)
      (subject body : String) (ref : Option String) (hops : ℕ) (from : Option String) (bus : Bus)
      → I bus.store
      → I
          (Defs.send_envelope memory_backend uuid now sender receiver kind subject body ref hops
            from bus).1.store
  unfolding Defs.send_envelope perform
  send_envelope-keeps uuid now sender receiver kind subject body ref hops from bus h =
      let msg = record (new_message uuid now sender receiver kind subject body ref) {
        hops = hops;
        forwarded_from = from;
      } in
      guarded (send_guard memory_backend bus sender receiver kind ref) _ bus h
        (kept (Runs.push msg) bus.store refl h)

  pub broadcast_loop-keeps :
      (fresh : String → String) (now : Time) (sender subject body : String) (agents : List String)
      (bus : Bus)
      → I bus.store
      → I (Defs.broadcast_loop memory_backend fresh now sender subject body agents bus).1.store
  unfolding Defs.broadcast_loop Defs.send
  broadcast_loop-keeps fresh now sender subject body [] bus h = h
  broadcast_loop-keeps fresh now sender subject body (a ∷ rest) bus h =
      elim (Bool-cases (str_eq a sender)) [
        | inl e ↦ rw e (broadcast_loop-keeps fresh now sender subject body rest bus h)
        | inr e ↦
            let sent =
              Defs.send memory_backend (fresh a) now sender a MsgType.broadcast subject body none
                bus in
            let h' =
              send_envelope-keeps (fresh a) now sender a MsgType.broadcast subject body none 0 none
                bus h in
            elim (Result-cases sent.0) [
              | inl (id, got) ↦
                  rw (e, got) (broadcast_loop-keeps fresh now sender subject body rest sent.1 h')
              | inr (x, got) ↦ rw (e, got) h'
            ]
      ]

  pub broadcast-keeps :
      (fresh : String → String) (now : Time) (sender subject body : String) (bus : Bus)
      → I bus.store
      → I (Defs.broadcast memory_backend fresh now sender subject body bus).1.store
  unfolding Defs.broadcast agents_of
  broadcast-keeps fresh now sender subject body bus h =
      broadcast_loop-keeps fresh now sender subject body bus.store.agents bus h

  pub poll-keeps :
      (agent : String) (limit : ℕ) (now : Time) (bus : Bus)
      → I bus.store
      → I (Defs.poll memory_backend agent limit now bus).1.store
  unfolding Defs.poll perform
  poll-keeps agent limit now bus h =
      guarded (ensure_registered memory_backend bus agent) _ bus h
        (kept (Runs.poll agent (if limit == 0 then 2 ^ 64 - 1 else limit) now) bus.store refl h)

  pub mark_delivered-keeps :
      (agent id : String) (now : Time) (bus : Bus)
      → I bus.store
      → I (Defs.mark_delivered memory_backend agent id now bus).1.store
  unfolding Defs.mark_delivered perform
  mark_delivered-keeps agent id now bus h =
      guarded (ensure_registered memory_backend bus agent) _ bus h
        (kept (Runs.mark_delivered agent id now) bus.store refl h)

  pub mark_read-keeps :
      (agent id : String) (now : Time) (bus : Bus)
      → I bus.store
      → I (Defs.mark_read memory_backend agent id now bus).1.store
  unfolding Defs.mark_read perform
  mark_read-keeps agent id now bus h =
      guarded (ensure_registered memory_backend bus agent) _ bus h
        (kept (Runs.mark_read agent id now) bus.store refl h)

  pub ack-keeps :
      (agent id text : String) (now : Time) (bus : Bus)
      → I bus.store
      → I (Defs.ack memory_backend agent id text now bus).1.store
  unfolding Defs.ack perform
  ack-keeps agent id text now bus h =
      guarded (ensure_registered memory_backend bus agent) _ bus h
        (kept (Runs.ack agent id text now) bus.store refl h)

  pub claim_push-keeps :
      (agent id : String) (now : Time) (bus : Bus)
      → I bus.store
      → I (Defs.claim_push memory_backend agent id now bus).1.store
  unfolding Defs.claim_push perform
  claim_push-keeps agent id now bus h = kept (Runs.mark_pushing agent id now) bus.store refl h

  pub revive_auth_dead-keeps :
      (agent : String) (now : Time) (bus : Bus)
      → I bus.store
      → I (Defs.revive_auth_dead memory_backend agent now bus).1.store
  unfolding Defs.revive_auth_dead perform
  revive_auth_dead-keeps agent now bus h = kept (Runs.revive_auth_dead agent now) bus.store refl h
