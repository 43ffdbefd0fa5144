-- ===== src/Sweeper/Traffic.antt =====
-- sweeper.rs: dispatchers at work at the same time as everything else. A dispatcher claims a letter,
-- pushes it without a lock, and settles it; between the two, any other call may come. A step is one
-- call of the store, which holds the lock from its first line to its last.
use hot_potato.Prelude.{String, ◌≡◌, ◌≢◌, true, List, [], ◌∷◌, All}
use hot_potato.Error.{ok}
use hot_potato.Message.{Time}
use hot_potato.Deliver.{PushOutcome, pushed, failed, skipped}
use hot_potato.Memory.Defs.{MemoryStore, mark_pushing}
use hot_potato.Memory.Runs.{Call, perform, mark_push_ok, mark_push_failed, reclaim_stale_pushing}
use hot_potato.Memory.Unique.{IsFresh}
use hot_potato.Memory.Flights.{Spares}

-- A letter in flight: its receiver and its id.
abbrev pub Flight : Type 0
Flight = String × String

pub record Traffic : Type 0 where
  pub store : MemoryStore
  pub flights : List Flight

-- The call by which a dispatcher settles a push: the three arms on the outcome.
abbrev pub settle_call : Flight → Time → PushOutcome → Call
settle_call f now pushed = mark_push_ok f.0 f.1 now
settle_call f now (failed error) = mark_push_failed f.0 f.1 error now
settle_call f now (skipped reason) = reclaim_stale_pushing f.0 f.1 reason now

-- The second list is the first without one occurrence of `f`.
pub data Takes (f : Flight) : List Flight → List Flight → Type 0 where
  first : {fs : List Flight} → Takes f (f ∷ fs) fs
  later : {g : Flight} {fs gs : List Flight} → Takes f fs gs → Takes f (g ∷ fs) (g ∷ gs)

abbrev pub at_work : MemoryStore → List Flight → Traffic
at_work s fs = record { store = s; flights = fs }

-- A call that is no dispatcher's settlement spares each letter in flight: it does not report a
-- failure of it, reclaim it or bury it, and a new letter has an id of its own.
pub data Step : Traffic → Traffic → Type 0 where
  claim :
      {s : MemoryStore} {fs : List Flight} (agent id : String) (now : Time)
      → (mark_pushing agent id now s).0 ≡ ok true
      → Step (at_work s fs) (at_work (mark_pushing agent id now s).1 ((agent, id) ∷ fs))
  settle :
      {s : MemoryStore} {fs gs : List Flight} (f : Flight) (now : Time) (outcome : PushOutcome)
      → Takes f fs gs
      → Step (at_work s fs) (at_work (perform (settle_call f now outcome) s) gs)
  crash :
      {s : MemoryStore} {fs gs : List Flight} (f : Flight)
      → Takes f fs gs
      → Step (at_work s fs) (at_work s gs)
  call :
      {s : MemoryStore} {fs : List Flight} (c : Call)
      → IsFresh c s
      → All (λ f. Spares f.0 f.1 c) fs
      → Step (at_work s fs) (at_work (perform c s) fs)

pub data Reach (s : MemoryStore) : Traffic → Type 0 where
  start : Reach s (at_work s [])
  next : {t u : Traffic} → Reach s t → Step t u → Reach s u

abbrev pub Differ : Flight → Flight → Type 0
Differ f g = f.0 ≡ g.0 → f.1 ≢ g.1

-- No letter twice.
abbrev pub Apart : List Flight → Type 0
Apart [] = Unit
Apart (f ∷ fs) = All (Differ f) fs × Apart fs
