-- ===== src/Server/Keeps.antt =====
-- server.rs over store/memory.rs: the methods that do not delete keep what the calls of the store
-- keep.
use hot_potato.Prelude.{
  String, false, ◌≡◌, Option, none, some, List, [], ◌∷◌, inl, inr, Bool-cases, if◌then◌else◌,
  Option-cases,
}
use hot_potato.Error.{BusResult, ok, err}
use hot_potato.Message.{Message, Time}
use hot_potato.Memory.Backend.{memory_backend}
use hot_potato.Memory.Defs.{MemoryStore}
use hot_potato.Memory.NoLoss.{is_delete}
use hot_potato.Memory.Runs.{Call, perform}
use hot_potato.Bus.Defs
use hot_potato.Bus.Defs.{EventBus, worker, pm}
use hot_potato.Bus.Keeps.{register-keeps, unregister-keeps, claim_push-keeps}
use hot_potato.Deliver.{PushTransport, PushOutcome, Registry}
use hot_potato.Sweeper.{Post, settle_push, dispatch_from, with_bus, is_ok_true}
use hot_potato.Sweeper.Keeps.{settle_push-keeps}
use hot_potato.Server.{push_found, push_on_arrival}
use hot_potato.Server.Pool.{Pool}
use hot_potato.Server.Agents.{
  Registration, repush_letter, repush_loop, repush_found, repush, register_agent, handle_register,
  handle_unregister,
}

module _ (I : MemoryStore → Type 0)
    (kept : (c : Call) (s : MemoryStore) → is_delete c ≡ false → I s → I (perform c s))
    (T : PushTransport) where
  abbrev pub Depot : Type 0
  Depot = Pool memory_backend T

  -- A claim, and what follows if it is granted.
  pub claimed-keeps :
      (receiver id : String) (now : Time) (o : PushOutcome) (p : Post memory_backend T)
      → I p.bus.store
      → let claimed = Defs.claim_push memory_backend receiver id now p.bus in
        let p' = with_bus memory_backend T claimed.1 p in
        I
          (if is_ok_true claimed.0
            then (settle_push memory_backend T receiver id now o p').0
            else p').bus.store
  claimed-keeps receiver id now o p h =
      let h' = claim_push-keeps I kept receiver id now p.bus h in
      elim (Bool-cases (is_ok_true (Defs.claim_push memory_backend receiver id now p.bus).0)) [
        | inl e ↦ rw e (settle_push-keeps I kept T receiver id now o _ h')
        | inr e ↦ rw e h'
      ]

  repush_loop-keeps :
      (registry : Registry) (all : List Message) (agent : String) (now : Time) (ls : List Message)
      (p : Post memory_backend T)
      → I p.bus.store
      → I (repush_loop memory_backend T registry all agent now ls p).bus.store
  unfolding repush_loop repush_letter dispatch_from
  repush_loop-keeps registry all agent now [] p h = h
  repush_loop-keeps registry all agent now (l ∷ ls) p h =
      repush_loop-keeps registry all agent now ls _ (claimed-keeps agent l.id now _ _ h)

  repush_found-keeps :
      (registry : Registry) (agent : String) (now : Time) (r : BusResult (List Message))
      (p : Post memory_backend T)
      → I p.bus.store
      → I (repush_found memory_backend T registry agent now r p).bus.store
  unfolding repush_found
  repush_found-keeps registry agent now (ok ls) p h = repush_loop-keeps registry _ agent now ls p h
  repush_found-keeps registry agent now (err e) p h = h

  pub handle_register-keeps :
      (r : Registration) (now : Time) (p : Depot)
      → I p.post.bus.store
      → I (handle_register memory_backend T r now p).1.post.bus.store
  unfolding handle_register register_agent repush
  handle_register-keeps r now p h = elim (Option-cases r.agent) [
    | inl e ↦ rw e h
    | inr (agent, e) ↦ elim (Option-cases r.role) [
      | inl e' ↦ rw (e, e') h
      | inr (role, e') ↦
          rw (e, e')
            (repush_found-keeps _ agent now _ _ (register-keeps I kept agent _ p.post.bus h))
    ]
  ]

  pub handle_unregister-keeps :
      (agent : Option String) (p : Depot)
      → I p.post.bus.store
      → I (handle_unregister memory_backend T agent p).1.post.bus.store
  unfolding handle_unregister
  handle_unregister-keeps none p h = h
  handle_unregister-keeps (some agent) p h = unregister-keeps I kept agent p.post.bus h

  push_found-keeps :
      (registry : Registry) (id receiver : String) (now : Time) (found : Option Message)
      (p : Post memory_backend T)
      → I p.bus.store
      → I (push_found memory_backend T registry id receiver now found p).bus.store
  unfolding push_found dispatch_from
  push_found-keeps registry id receiver now none p h = h
  push_found-keeps registry id receiver now (some l) p h =
      settle_push-keeps I kept T receiver id now _ _ h

  pub push_on_arrival-keeps :
      (registry : Registry) (id receiver : String) (now : Time) (p : Post memory_backend T)
      → I p.bus.store
      → I (push_on_arrival memory_backend T registry id receiver now p).bus.store
  unfolding push_on_arrival
  push_on_arrival-keeps registry id receiver now p h =
      push_found-keeps registry id receiver now _ p h
