-- ===== src/Message/Thread.antt =====
-- The walk to the thread root ends at a letter of the list, and a reply shares its parent's root.
use hot_potato.Prelude.{
  ℕ, zero, suc, ◌≡◌, sym, ◌∙◌, inl, inr, String, none, some, List, Option-cases,
}
use hot_potato.Message.{Message, next_hop, walk, thread_root_id}

-- `n` steps from a letter to its ancestor, each to the parent that `next_hop` gives.
pub data Ancestor (all : List Message) : ℕ → String → String → Type 0 where
  self : {a : String} → Ancestor all zero a a
  up :
      {n : ℕ} {a b c : String}
      → next_hop all a ≡ some b
      → Ancestor all n b c
      → Ancestor all (suc n) a c

-- A walk that has ended does not move when it is given one more round.
walk-suc :
    (n : ℕ) (all : List Message) (a : String)
    → next_hop all (walk n all a) ≡ none
    → walk (suc n) all a ≡ walk n all a
unfolding walk
walk-suc zero all a h = rw (h, walk)
walk-suc (suc n) all a h = elim (Option-cases (next_hop all a)) [
  | inl e ↦ rw (e, walk)
  | inr (b, e) ↦ rw (e, walk) (walk-suc n all b (rw (e, walk) at h))
]

walk-next :
    (n : ℕ) (all : List Message) (a : String) {b : String}
    → next_hop all a ≡ some b
    → walk (suc n) all a ≡ walk n all b
unfolding walk
walk-next n all a e = rw (e, walk)

-- A letter whose stored parent reaches the end of its own walk within 31 steps has the thread root
-- of that parent.
pub thread_root-reply :
    (all : List Message) (id parent : String)
    → next_hop all id ≡ some parent
    → next_hop all (walk 31 all parent) ≡ none
    → thread_root_id all id ≡ thread_root_id all parent
unfolding thread_root_id
thread_root-reply all id parent h end = walk-next 31 all id h ∙ sym (walk-suc 31 all parent end)
