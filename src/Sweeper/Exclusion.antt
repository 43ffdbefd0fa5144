-- ===== src/Sweeper/Exclusion.antt =====
-- No letter is pushed by two dispatchers at once, however their steps and all other calls mix.
use hot_potato.Prelude.{String, subst, ◌≡◌, sym, true, List, [], ◌∷◌, All}
use hot_potato.Error.{ok}
use hot_potato.Message.{Time}
use hot_potato.Deliver.{PushOutcome, pushed, failed, skipped}
use hot_potato.Memory.Defs.{MemoryStore, mark_pushing}
use hot_potato.Memory.Runs
use hot_potato.Memory.Runs.{Call, perform, mark_push_ok, mark_push_failed, reclaim_stale_pushing}
use hot_potato.Memory.Unique.{IsUnique, IsFresh, perform-IsUnique}
use hot_potato.Memory.Held.{IsHeld}
use hot_potato.Memory.Flights.{Spares, perform-IsHeld, mark_pushing-held, mark_pushing-IsHeld}
use hot_potato.Sweeper.Traffic.{
  Flight, Traffic, settle_call, Takes, first, later, Step, claim, settle, crash, call, Reach, start,
  next, Differ, Apart,
}

abbrev Held : MemoryStore → Flight → Type 0
Held s f = IsHeld f.0 f.1 s

record Safe (t : Traffic) : Type 0 where
  unique : IsUnique t.store
  held : All (Held t.store) t.flights
  apart : Apart t.flights

Differ-sym : (f g : Flight) → Differ f g → Differ g f
Differ-sym f g d a b = d (sym a) (sym b)

Takes-All :
    (P : Flight → Type 0) {f : Flight} {fs gs : List Flight} → Takes f fs gs → All P fs → All P gs
Takes-All P first h = h.1
Takes-All P (later t) h = (h.0, Takes-All P t h.1)

Takes_one :
    (P : Flight → Type 0) {f : Flight} {fs gs : List Flight} → Takes f fs gs → All P fs → P f
Takes_one P first h = h.0
Takes_one P (later t) h = Takes_one P t h.1

Takes-Apart :
    {f : Flight} {fs gs : List Flight} → Takes f fs gs → Apart fs → All (Differ f) gs × Apart gs
Takes-Apart first h = h
Takes-Apart {f} (later {g = g} t) h =
    let rest = Takes-Apart t h.1 in
    ((Differ-sym g f (Takes_one (Differ g) t h.0), rest.0), (Takes-All (Differ g) t h.0, rest.1))

-- Each flight that a call spares is held after it.
calls-Held :
    (c : Call) (s : MemoryStore) (fs : List Flight)
    → All (λ f. Spares f.0 f.1 c) fs
    → All (Held s) fs
    → All (Held (perform c s)) fs
calls-Held c s [] p h = tt
calls-Held c s (f ∷ fs) p h = (perform-IsHeld f.0 f.1 c s p.0 h.0, calls-Held c s fs p.1 h.1)

settle-Spares :
    (f g : Flight) (now : Time) (outcome : PushOutcome)
    → Differ f g
    → Spares g.0 g.1 (settle_call f now outcome)
settle-Spares f g now pushed d = tt
settle-Spares f g now (failed error) d = d
settle-Spares f g now (skipped reason) d = d

settle-All :
    (f : Flight) (now : Time) (outcome : PushOutcome) (fs : List Flight)
    → All (Differ f) fs
    → All (λ g. Spares g.0 g.1 (settle_call f now outcome)) fs
settle-All f now outcome [] h = tt
settle-All f now outcome (g ∷ gs) h =
    (settle-Spares f g now outcome h.0, settle-All f now outcome gs h.1)

-- A claim of a letter that is in flight would not have won.
claims_apart :
    (agent id : String) (now : Time) (s : MemoryStore) (fs : List Flight)
    → (mark_pushing agent id now s).0 ≡ ok true
    → All (Held s) fs
    → All (Differ (agent, id)) fs
claims_apart agent id now s [] won h = tt
claims_apart agent id now s (f ∷ fs) won h = (
  λ a i. absurd (
      mark_pushing-held agent id now s
        (subst (λ k. IsHeld k id s) (sym a) (subst (λ j. IsHeld f.0 j s) (sym i) h.0)) won),
  claims_apart agent id now s fs won h.1,
)

Step-Safe : {t u : Traffic} → Step t u → Safe t → Safe u
unfolding perform
Step-Safe (claim {s = s} {fs = fs} agent id now won) h = record {
  unique = perform-IsUnique (Runs.mark_pushing agent id now) s tt h.unique;
  held = (
    mark_pushing-IsHeld agent id now s h.unique won,
    calls-Held (Runs.mark_pushing agent id now) s fs (spared fs) h.held,
  );
  apart = (claims_apart agent id now s fs won h.held, h.apart);
}
  where
    spared : (gs : List Flight) → All (λ g. Unit {0}) gs
    spared [] = tt
    spared (g ∷ gs) = (tt, spared gs)
Step-Safe (settle {s = s} {gs = gs} f now outcome taken) h =
    let rest = Takes-Apart taken h.apart in
    record {
      unique = perform-IsUnique (settle_call f now outcome) s (fresh outcome) h.unique;
      held =
          calls-Held (settle_call f now outcome) s gs (settle-All f now outcome gs rest.0)
            (Takes-All (Held s) taken h.held);
      apart = rest.1;
    }
  where
    fresh : (o : PushOutcome) → IsFresh (settle_call f now o) s
    fresh pushed = tt
    fresh (failed error) = tt
    fresh (skipped reason) = tt
Step-Safe (crash {s = s} f taken) h = record {
  unique = h.unique;
  held = Takes-All (Held s) taken h.held;
  apart = (Takes-Apart taken h.apart).1;
}
Step-Safe (call {s = s} {fs = fs} c fresh spared) h = record {
  unique = perform-IsUnique c s fresh h.unique;
  held = calls-Held c s fs spared h.held;
  apart = h.apart;
}

Reach-Safe : {s : MemoryStore} {t : Traffic} → IsUnique s → Reach s t → Safe t
Reach-Safe unique start = record { unique = unique; held = tt; apart = tt }
Reach-Safe unique (next r st) = Step-Safe st (Reach-Safe unique r)

-- From a store in which every mailbox has each id once, with nobody at work, and through any mixture
-- of claims that win, settlements of pushes, dispatchers that die, and calls that spare the letters
-- in flight: no letter is in flight twice, each letter in flight is neither queued nor dead, and the
-- mailboxes still have each id once.
pub Reach-Apart :
    {s : MemoryStore} {t : Traffic}
    → IsUnique s
    → Reach s t
    → Apart t.flights × All (λ f. IsHeld f.0 f.1 t.store) t.flights × IsUnique t.store
Reach-Apart unique r = let safe = Reach-Safe unique r in (safe.apart, safe.held, safe.unique)
