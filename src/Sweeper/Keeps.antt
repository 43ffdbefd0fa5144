-- ===== src/Sweeper/Keeps.antt =====
-- sweeper.rs over store/memory.rs: pushes, and the guard against letters that are stuck, keep what
-- the calls of the store keep.
use hot_potato.Prelude.{
  String, true, false, ◌≡◌, refl, List, [], ◌∷◌, inl, inr, Bool-cases, Option-cases, filter,
}
use hot_potato.Error.{BusResult, ok, err, Result-cases}
use hot_potato.Message.{Message, Time}
use hot_potato.Memory.Backend.{memory_backend}
use hot_potato.Memory.Defs.{MemoryStore}
use hot_potato.Memory.NoLoss.{is_delete, has_letter, perform-has_letter}
use hot_potato.Memory.Runs
use hot_potato.Memory.Runs.{Call, perform}
use hot_potato.Bus.Defs
use hot_potato.Bus.Defs.{EventBus}
use hot_potato.Bus.Keeps.{Bus, mark_delivered-keeps, revive_auth_dead-keeps, send_envelope-keeps}
use hot_potato.Deliver.{PushTransport, PushOutcome, pushed, failed, skipped, Registry}
use hot_potato.Federation.{Peer}
use hot_potato.Sweeper.{Post, settle_push, emit_delivered, dispatch_from}
use hot_potato.Sweeper.Diagnose.{PoolReply}
use hot_potato.Sweeper.Watch.{
  Watched, Texts, emit_marked, mark_pushed, push_queued, push_peeked, rearmed, heal, heal_loop,
  notify, watch_stuck, watch_all, watch_once, rearm, is_auth_stuck, receivers_of,
}

module _ (I : MemoryStore → Type 0)
    (kept : (c : Call) (s : MemoryStore) → is_delete c ≡ false → I s → I (perform c s))
    (T : PushTransport) where
  emit_delivered-keeps :
      (r : BusResult Message × Bus) (p : Post memory_backend T)
      → I r.1.store
      → I (emit_delivered memory_backend T r p).0.bus.store
  unfolding emit_delivered
  emit_delivered-keeps (ok m, b) p h = h
  emit_delivered-keeps (err e, b) p h = h

  pub settle_push-keeps :
      (receiver id : String) (now : Time) (o : PushOutcome) (p : Post memory_backend T)
      → I p.bus.store
      → I (settle_push memory_backend T receiver id now o p).0.bus.store
  unfolding settle_push Defs.push_succeeded Defs.push_failed Defs.reclaim_stale_pushing perform
  settle_push-keeps receiver id now pushed p h =
      emit_delivered-keeps (Defs.push_succeeded memory_backend receiver id now p.bus) p
        (kept (Runs.mark_push_ok receiver id now) p.bus.store refl h)
  settle_push-keeps receiver id now (failed error) p h =
      kept (Runs.mark_push_failed receiver id error now) p.bus.store refl h
  settle_push-keeps receiver id now (skipped reason) p h =
      kept (Runs.reclaim_stale_pushing receiver id reason now) p.bus.store refl h

  pub emit_marked-keeps :
      (r : BusResult Message × Bus) (p : Post memory_backend T)
      → I r.1.store
      → I (emit_marked memory_backend T r p).bus.store
  unfolding emit_marked
  emit_marked-keeps (ok m, b) p h = h
  emit_marked-keeps (err e, b) p h = h

  mark_pushed-keeps :
      (receiver id : String) (now : Time) (o : PushOutcome) (p : Post memory_backend T)
      → I p.bus.store
      → I (mark_pushed memory_backend T receiver id now o p).bus.store
  unfolding mark_pushed
  mark_pushed-keeps receiver id now pushed p h =
      emit_marked-keeps (Defs.mark_delivered memory_backend receiver id now p.bus) p
        (mark_delivered-keeps I kept receiver id now p.bus h)
  mark_pushed-keeps receiver id now (failed e) p h = h
  mark_pushed-keeps receiver id now (skipped e) p h = h

  push_queued-keeps :
      (registry : Registry) (all : List Message) (receiver : String) (now : Time)
      (ls : List Message) (p : Post memory_backend T)
      → I p.bus.store
      → I (push_queued memory_backend T registry all receiver now ls p).bus.store
  unfolding push_queued dispatch_from
  push_queued-keeps registry all receiver now [] p h = h
  push_queued-keeps registry all receiver now (l ∷ ls) p h =
      push_queued-keeps registry all receiver now ls _ (mark_pushed-keeps receiver l.id now _ _ h)

  push_peeked-keeps :
      (registry : Registry) (all : List Message) (receiver : String) (now : Time)
      (r : BusResult (List Message)) (p : Post memory_backend T)
      → I p.bus.store
      → I (push_peeked memory_backend T registry all receiver now r p).bus.store
  unfolding push_peeked
  push_peeked-keeps registry all receiver now (ok ls) p h =
      push_queued-keeps registry all receiver now ls p h
  push_peeked-keeps registry all receiver now (err e) p h = h

  heal-keeps :
      (all : List Message) (receiver : String) (now : Time) (w : Watched memory_backend T)
      → I w.post.bus.store
      → I (heal memory_backend T all receiver now w).post.bus.store
  unfolding heal rearmed
  heal-keeps all receiver now w h = elim (Option-cases (rearm receiver w.registry)) [
    | inl e ↦ rw e h
    | inr (registry, e) ↦ rw e (
        push_peeked-keeps registry all receiver now _ _
          (revive_auth_dead-keeps I kept receiver now w.post.bus h))
  ]

  heal_loop-keeps :
      (all : List Message) (now : Time) (rs : List String) (w : Watched memory_backend T)
      → I w.post.bus.store
      → I (heal_loop memory_backend T all now rs w).post.bus.store
  unfolding heal_loop
  heal_loop-keeps all now [] w h = h
  heal_loop-keeps all now (r ∷ rs) w h =
      heal_loop-keeps all now rs (heal memory_backend T all r now w) (heal-keeps all r now w h)

  notify-keeps :
      (uuid : String) (now : Time) (text : String) (w : Watched memory_backend T)
      → I w.post.bus.store
      → I (notify memory_backend T uuid now text w).post.bus.store
  unfolding notify Defs.send
  notify-keeps uuid now text w h = elim (Bool-cases w.notified) [
    | inl e ↦ rw e h
    | inr e ↦ rw e (send_envelope-keeps I kept uuid now _ _ _ _ _ _ _ _ w.post.bus h)
  ]

  watch_stuck-keeps :
      (post : Peer → String → PoolReply) (texts : Texts) (peers : List Peer) (me uuid : String)
      (now : Time) (all stuck : List Message) (w : Watched memory_backend T)
      → I w.post.bus.store
      → I (watch_stuck memory_backend T post texts peers me uuid now all stuck w).post.bus.store
  unfolding watch_stuck
  watch_stuck-keeps post texts peers me uuid now all [] w h = h
  watch_stuck-keeps post texts peers me uuid now all (l ∷ ls) w h =
      notify-keeps uuid now _ _ (heal_loop-keeps all now (receivers_of (l ∷ ls)) w h)

  watch_once-keeps :
      (post : Peer → String → PoolReply) (texts : Texts) (peers : List Peer) (me uuid : String)
      (now : Time) (w : Watched memory_backend T)
      → I w.post.bus.store
      → I (watch_once memory_backend T post texts peers me uuid now w).post.bus.store
  unfolding watch_once watch_all
  watch_once-keeps post texts peers me uuid now w h =
      elim (Result-cases (Defs.list_all memory_backend w.post.bus)) [
        | inl (all, e) ↦
            rw e (watch_stuck-keeps post texts peers me uuid now all (filter is_auth_stuck all) w h)
        | inr (x, e) ↦ rw e h
      ]

-- Whatever the transport and the peers answer, a round of the guard against letters that are
-- stuck on authentication keeps, in every mailbox of the in-memory store, a letter of every id
-- that it has.
pub watch_once-has_letter :
    (T : PushTransport) (post : Peer → String → PoolReply) (texts : Texts) (peers : List Peer)
    (me uuid : String) (now : Time) (w : Watched memory_backend T) (k id : String)
    → has_letter k id w.post.bus.store ≡ true
    → has_letter k id (watch_once memory_backend T post texts peers me uuid now w).post.bus.store
      ≡ true
watch_once-has_letter T post texts peers me uuid now w k id has =
    watch_once-keeps (λ s. has_letter k id s ≡ true)
      (λ c s keeps h. perform-has_letter k id c s keeps h) T post texts peers me uuid now w has
