-- ===== src/Sweeper/Trace.antt =====
-- What a sweep does to the in-memory store: claims and their outcomes, nothing else.
use hot_potato.Prelude.{
  ℕ, ◌≡◌, refl, sym, ap, ◌∙◌, String, Bool, true, false, not, List, [], ◌∷◌, ◌++◌, arith, any,
  any-append, if◌then◌else◌,
}
use hot_potato.Error.{BusResult, ok, err}
use hot_potato.Message.{Message, Time}
use hot_potato.Memory.Backend.{memory_backend}
use hot_potato.Memory.Defs.{MemoryStore}
use hot_potato.Memory.Lifting.{Holds}
use hot_potato.Memory.NoLoss.{has_letter, is_delete, run-has_letter}
use hot_potato.Memory.Runs.{
  Call, push, mark_pushing, mark_push_ok, mark_push_failed, reclaim_stale_pushing, perform, run,
  PushesSatisfy,
}
use hot_potato.Memory.Sound.{IsFiled, run-IsFiled}
use hot_potato.Bus.Defs
use hot_potato.Bus.Defs.{EventBus}
use hot_potato.Deliver.{PushTransport, Registry, PushOutcome, pushed, failed, skipped}
use hot_potato.Sweeper.{
  emit_delivered, Post, settle_push, sweep_letter, sweep_loop, reclaim_loop, first_loop,
  second_loop, sweep_once, dispatch_from,
}

-- The calls of a dispatcher: a claim, and what may come of it.
abbrev pub is_push_call : Call → Bool
is_push_call (mark_pushing agent id now) = true
is_push_call (mark_push_ok agent id now) = true
is_push_call (mark_push_failed agent id reason now) = true
is_push_call (reclaim_stale_pushing agent id reason now) = true
is_push_call _ = false

-- The second store comes from the first by calls of a dispatcher.
pub record IsDispatch (s s' : MemoryStore) : Type 0 where
  pub calls : List Call
  pub only : any (λ c. not (is_push_call c)) calls ≡ false
  pub ran : s' ≡ run calls s

IsDispatch-refl : (s : MemoryStore) → IsDispatch s s
unfolding run any
IsDispatch-refl s = record { calls = []; only = refl; ran = refl }

IsDispatch-call : (c : Call) (s : MemoryStore) → is_push_call c ≡ true → IsDispatch s (perform c s)
unfolding run any
IsDispatch-call c s h = record { calls = c ∷ []; only = rw h refl; ran = refl }

run-append : (cs ds : List Call) (s : MemoryStore) → run (cs ++ ds) s ≡ run ds (run cs s)
unfolding run
run-append [] ds s = refl
run-append (c ∷ cs) ds s = run-append cs ds (perform c s)

IsDispatch-trans : {s t u : MemoryStore} → IsDispatch s t → IsDispatch t u → IsDispatch s u
IsDispatch-trans {s} h k = record {
  calls = h.calls ++ k.calls;
  only = any-append _ h.calls k.calls ∙ ground arith;
  ran = k.ran ∙ ap (run k.calls) h.ran ∙ sym (run-append h.calls k.calls s);
}

reclaimed :
    (receiver id reason : String) (now : Time) (b : Bool) (bus : EventBus memory_backend)
    → IsDispatch bus.store
        (if b
          then (Defs.reclaim_stale_pushing memory_backend receiver id reason now bus).1
          else bus).store
unfolding Defs.reclaim_stale_pushing perform
reclaimed receiver id reason now true bus =
    IsDispatch-call (reclaim_stale_pushing receiver id reason now) bus.store refl
reclaimed receiver id reason now false bus = IsDispatch-refl bus.store

module _ (T : PushTransport) where
  emit_delivered-store :
      (r : BusResult Message × EventBus memory_backend) (p : Post memory_backend T)
      → (emit_delivered memory_backend T r p).0.bus.store ≡ r.1.store
  unfolding emit_delivered
  emit_delivered-store (ok m, b) p = refl
  emit_delivered-store (err e, b) p = refl

  settle_push-IsDispatch :
      (receiver id : String) (now : Time) (o : PushOutcome) (p : Post memory_backend T)
      → IsDispatch p.bus.store (settle_push memory_backend T receiver id now o p).0.bus.store
  unfolding settle_push Defs.push_succeeded Defs.push_failed Defs.reclaim_stale_pushing perform
  settle_push-IsDispatch receiver id now pushed p =
      rw (emit_delivered-store (Defs.push_succeeded memory_backend receiver id now p.bus) p)
        (IsDispatch-call (mark_push_ok receiver id now) p.bus.store refl)
  settle_push-IsDispatch receiver id now (failed error) p =
      IsDispatch-call (mark_push_failed receiver id error now) p.bus.store refl
  settle_push-IsDispatch receiver id now (skipped reason) p =
      IsDispatch-call (reclaim_stale_pushing receiver id reason now) p.bus.store refl

  reclaim_loop-IsDispatch :
      (stale_text : ℕ → String) (now : Time) (ls : List Message) (bus : EventBus memory_backend)
      → IsDispatch bus.store (reclaim_loop memory_backend T stale_text now ls bus).store
  unfolding reclaim_loop
  reclaim_loop-IsDispatch stale_text now [] bus = IsDispatch-refl bus.store
  reclaim_loop-IsDispatch stale_text now (l ∷ ls) bus =
      IsDispatch-trans (reclaimed l.receiver l.id _ now _ bus)
        (reclaim_loop-IsDispatch stale_text now ls _)

  claimed-IsDispatch :
      (receiver id : String) (now : Time) (bus : EventBus memory_backend)
      → IsDispatch bus.store (Defs.claim_push memory_backend receiver id now bus).1.store
  unfolding Defs.claim_push perform
  claimed-IsDispatch receiver id now bus =
      IsDispatch-call (mark_pushing receiver id now) bus.store refl

  if-IsDispatch :
      (b : Bool) (s : MemoryStore) (x y : Post memory_backend T × ℕ)
      → IsDispatch s x.0.bus.store
      → IsDispatch s y.0.bus.store
      → IsDispatch s (if b then x else y).0.bus.store
  if-IsDispatch true s x y hx hy = hx
  if-IsDispatch false s x y hx hy = hy

  sweep_letter-IsDispatch :
      (registry : Registry) (all : List Message) (now : Time) (l : Message)
      (p : Post memory_backend T)
      → IsDispatch p.bus.store (sweep_letter memory_backend T registry all now l p).0.bus.store
  unfolding sweep_letter dispatch_from
  sweep_letter-IsDispatch registry all now l p =
      let claimed = claimed-IsDispatch l.receiver l.id now p.bus in
      if-IsDispatch _ p.bus.store _ _
        (IsDispatch-trans claimed (settle_push-IsDispatch l.receiver l.id now _ _)) claimed

  sweep_loop-IsDispatch :
      (registry : Registry) (min_backoff : ℕ) (all : List Message) (now : Time) (ls : List Message)
      (p : Post memory_backend T)
      → IsDispatch p.bus.store
          (sweep_loop memory_backend T registry min_backoff all now ls p).0.bus.store
  unfolding sweep_loop
  sweep_loop-IsDispatch registry min_backoff all now [] p = IsDispatch-refl p.bus.store
  sweep_loop-IsDispatch registry min_backoff all now (l ∷ ls) p =
      IsDispatch-trans
        (if-IsDispatch _ p.bus.store _ _ (sweep_letter-IsDispatch registry all now l p)
          (IsDispatch-refl p.bus.store))
        (sweep_loop-IsDispatch registry min_backoff all now ls _)

  second_loop-IsDispatch :
      (registry : Registry) (min_backoff : ℕ) (now : Time) (r : BusResult (List Message))
      (p : Post memory_backend T)
      → IsDispatch p.bus.store
          (second_loop memory_backend T registry min_backoff now r p).0.bus.store
  unfolding second_loop
  second_loop-IsDispatch registry min_backoff now (ok all) p =
      sweep_loop-IsDispatch registry min_backoff all now all p
  second_loop-IsDispatch registry min_backoff now (err e) p = IsDispatch-refl p.bus.store

  first_loop-IsDispatch :
      (stale_text : ℕ → String) (registry : Registry) (min_backoff : ℕ) (now : Time)
      (r : BusResult (List Message)) (p : Post memory_backend T)
      → IsDispatch p.bus.store
          (first_loop memory_backend T stale_text registry min_backoff now r p).0.bus.store
  unfolding first_loop
  first_loop-IsDispatch stale_text registry min_backoff now (ok all) p =
      IsDispatch-trans (reclaim_loop-IsDispatch stale_text now all p.bus)
        (second_loop-IsDispatch registry min_backoff now _ _)
  first_loop-IsDispatch stale_text registry min_backoff now (err e) p = IsDispatch-refl p.bus.store

is_delete_push : (c : Call) → is_delete c ≡ true → is_push_call c ≡ false
is_delete_push c h = ground arith

no_delete : (cs : List Call) → any (λ c. not (is_push_call c)) cs ≡ false → any is_delete cs ≡ false
unfolding any
no_delete [] h = refl
no_delete (c ∷ cs) h = ground (arith, no_delete cs, is_delete_push c)

no_new_letters :
    (P : String → Message → Type 0) (cs : List Call)
    → any (λ c. not (is_push_call c)) cs ≡ false
    → PushesSatisfy P cs
unfolding any
no_new_letters P [] h = tt
no_new_letters P (push msg ∷ cs) h = absurd (ground arith)
no_new_letters P (mark_pushing agent id now ∷ cs) h = no_new_letters P cs h
no_new_letters P (c ∷ cs) h = no_new_letters P cs (ground arith)

-- Whatever the transport does, a sweep over the in-memory store writes by claims, accepted pushes,
-- failed pushes and reclaims alone.
pub sweep_once-IsDispatch :
    (T : PushTransport) (stale_text : ℕ → String) (registry : Registry) (min_backoff : ℕ)
    (now : Time) (p : Post memory_backend T)
    → IsDispatch p.bus.store
        (sweep_once memory_backend T stale_text registry min_backoff now p).0.bus.store
unfolding sweep_once
sweep_once-IsDispatch T stale_text registry min_backoff now p =
    first_loop-IsDispatch T stale_text registry min_backoff now (Defs.list_all memory_backend p.bus)
      p

-- Whatever the transport does, a sweep over the in-memory store keeps in every mailbox a letter of
-- every id that it has, and keeps acked, with their receipts, the letters of any id that are all
-- acked with the receipts of one letter.
pub sweep_once-keeps :
    (T : PushTransport) (stale_text : ℕ → String) (registry : Registry) (min_backoff : ℕ)
    (now : Time) (p : Post memory_backend T) (k id : String) (x : Message)
    → has_letter k id p.bus.store ≡ true
    → Holds (IsFiled x) p.bus.store
    → let swept = (sweep_once memory_backend T stale_text registry min_backoff now p).0 in
      (has_letter k id swept.bus.store ≡ true) × Holds (IsFiled x) swept.bus.store
sweep_once-keeps T stale_text registry min_backoff now p k id x has filed =
    let d = sweep_once-IsDispatch T stale_text registry min_backoff now p in
    rw d.ran (
      run-has_letter k id d.calls p.bus.store (no_delete d.calls d.only) has,
      run-IsFiled x d.calls p.bus.store (no_new_letters (IsFiled x) d.calls d.only) filed,
    )
