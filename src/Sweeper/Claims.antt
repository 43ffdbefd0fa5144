-- ===== src/Sweeper/Claims.antt =====
-- sweeper.rs over store/memory.rs: what a sweep does with one letter is the work of one dispatcher.
use hot_potato.Prelude.{
  String, Bool, arith, true, false, ◌≡◌, ◌≢◌, ◌⊎◌, refl, sym, subst, some, List, [], ◌∷◌, All, inl,
  inr, Bool-cases,
}
use hot_potato.Error.{BusResult, ok, err}
use hot_potato.Message.{Message, Time}
use hot_potato.Memory.Backend.{memory_backend}
use hot_potato.Memory.Defs.{MemoryStore, mark_pushing}
use hot_potato.Memory.Runs
use hot_potato.Memory.Runs.{perform}
use hot_potato.Bus.Defs
use hot_potato.Bus.Keeps.{Bus}
use hot_potato.Deliver.{
  PushTransport, PushOutcome, pushed, failed, skipped, Registry, dispatch_push,
}
use hot_potato.Sweeper.{
  Post, settle_push, emit_delivered, sweep_letter, is_ok_true, dispatch_from, thread_context,
}
use hot_potato.Sweeper.Traffic.{
  Flight, settle_call, first, at_work, claim, settle, call, Reach, next,
}

ok_true : (r : BusResult Bool) → is_ok_true r ≡ true → r ≡ ok true
ok_true (ok true) h = refl
ok_true (ok false) h = absurd (ground arith)
ok_true (err e) h = absurd (ground arith)

not_true : (r : BusResult Bool) → is_ok_true r ≡ false → r ≢ ok true
not_true r h e = ground arith

module _ (T : PushTransport) where
  emit_delivered-store :
      (r : BusResult Message × Bus) (p : Post memory_backend T)
      → (emit_delivered memory_backend T r p).0.bus.store ≡ r.1.store
  unfolding emit_delivered
  emit_delivered-store (ok m, b) p = refl
  emit_delivered-store (err e, b) p = refl

  emit_delivered-world :
      (r : BusResult Message × Bus) (p : Post memory_backend T)
      → (emit_delivered memory_backend T r p).0.world ≡ p.world
  unfolding emit_delivered
  emit_delivered-world (ok m, b) p = refl
  emit_delivered-world (err e, b) p = refl

  -- The arms on the outcome settle the letter by one call of the store.
  settle_push-store :
      (receiver id : String) (now : Time) (o : PushOutcome) (p : Post memory_backend T)
      → (settle_push memory_backend T receiver id now o p).0.bus.store
        ≡ perform (settle_call (receiver, id) now o) p.bus.store
  unfolding settle_push Defs.push_succeeded Defs.push_failed Defs.reclaim_stale_pushing perform
  settle_push-store receiver id now pushed p =
      emit_delivered-store (Defs.push_succeeded memory_backend receiver id now p.bus) p
  settle_push-store receiver id now (failed error) p = refl
  settle_push-store receiver id now (skipped reason) p = refl

  settle_push-Reach :
      (receiver id : String) (now : Time) (o : PushOutcome) (p : Post memory_backend T)
      (fs : List Flight) {s : MemoryStore}
      → Reach s (at_work p.bus.store ((receiver, id) ∷ fs))
      → Reach s (at_work (settle_push memory_backend T receiver id now o p).0.bus.store fs)
  settle_push-Reach receiver id now o p fs {s} r =
      subst (λ store. Reach s (at_work store fs)) (sym (settle_push-store receiver id now o p))
        (next r (settle (receiver, id) now o first))

  spared : (fs : List Flight) → All (λ f. Unit {0}) fs
  spared [] = tt
  spared (f ∷ fs) = (tt, spared fs)

  settle_push-world :
      (receiver id : String) (now : Time) (o : PushOutcome) (p : Post memory_backend T)
      → (settle_push memory_backend T receiver id now o p).0.world ≡ p.world
  unfolding settle_push
  settle_push-world receiver id now pushed p =
      emit_delivered-world (Defs.push_succeeded memory_backend receiver id now p.bus) p
  settle_push-world receiver id now (failed error) p = refl
  settle_push-world receiver id now (skipped reason) p = refl

  -- The push of a letter on the world that the dispatcher finds.
  abbrev pub push_of :
      Registry → List Message → Message → Post memory_backend T → PushOutcome × T.World
  push_of registry all l p =
      dispatch_push T registry l.receiver
        (record { letter = l; context_id = some (thread_context all l.id) }) p.world

  -- What a sweep does with one letter, whatever the other dispatchers have in flight, is the work of
  -- one dispatcher. If its claim wins, the world is as the push leaves it, and the store as the
  -- claim and then the settlement of the push's outcome leave it. If not, the store is as the
  -- claim leaves it, and nothing is pushed: the world, the events and the count are as before.
  pub sweep_letter-Reach :
      (registry : Registry) (all : List Message) (now : Time) (l : Message)
      (p : Post memory_backend T) (fs : List Flight) {s : MemoryStore}
      → Reach s (at_work p.bus.store fs)
      → let claimed = mark_pushing l.receiver l.id now p.bus.store in
        let sent = push_of registry all l p in
        let out = sweep_letter memory_backend T registry all now l p in
        Reach s (at_work out.0.bus.store fs)
        × (((claimed.0 ≡ ok true)
              × (out.0.bus.store ≡ perform (settle_call (l.receiver, l.id) now sent.0) claimed.1)
              × (out.0.world ≡ sent.1))
            ⊎ ((claimed.0 ≢ ok true)
                × (out.0.bus.store ≡ claimed.1)
                × (out.0.world ≡ p.world)
                × (out.0.events ≡ p.events)
                × (out.1 ≡ 0)))
  unfolding sweep_letter Defs.claim_push dispatch_from perform
  sweep_letter-Reach registry all now l p fs r =
      elim (Bool-cases (is_ok_true (mark_pushing l.receiver l.id now p.bus.store).0)) [
        | inl won ↦ rw won (
          settle_push-Reach l.receiver l.id now _ _ fs
              (next r (claim l.receiver l.id now (ok_true _ won))),
          inl (
            ok_true _ won,
            settle_push-store l.receiver l.id now _ _,
            settle_push-world l.receiver l.id now _ _,
          ),
        )
        | inr lost ↦ rw lost (
          next r (call (Runs.mark_pushing l.receiver l.id now) tt (spared fs)),
          inr (not_true _ lost, refl, refl, refl, refl),
        )
      ]
