-- ===== src/Server/Journeys.antt =====
-- server.rs: the query `message/thread`.
use Prim.Native.String.{◌++◌ as str_append}
use hot_potato.Prelude.{
  ℕ, zero, suc, ◌≤◌, leb, ◌≡◌, ◌↔◌, refl, sym, subst, inl, inr, String, Bool, true, false, ◌||◌,
  Option, none, some, List, filter, find, str_eq, eq_iff, eq_refl, sort_by, if◌then◌else◌,
  Bool-cases, Option-cases, arith,
}
use hot_potato.Error.{Result, ok, err}
use hot_potato.Message.{Message, by_id, ref_of, thread_root_id}

-- The loop `for _ in 0..16`: a `ref` on the way up from `cur` is the root.
unfoldable pub reaches : ℕ → List Message → String → String → Bool
reaches zero all root cur = false
reaches (suc n) all root cur = elim (ref_of (by_id all cur)) [
  | none ↦ false
  | some r ↦ str_eq r root || reaches n all root r
]

abbrev pub max_climb : ℕ
max_climb = 16

unfoldable pub is_member : List Message → String → Message → Bool
is_member all root m = str_eq m.id root || reaches max_climb all root m.id

abbrev created_le : Message → Message → Bool
created_le a b = leb a.created_at b.created_at

members_of : List Message → String → Option Message → Result String (List Message)
members_of all id none = err (str_append "message not found: " id)
members_of all id (some anchor) =
    ok (sort_by created_le (filter (is_member all (thread_root_id all anchor.id)) all))

-- The arm `message/thread`, on the letters of the bus.
unfoldable pub thread_of : List Message → String → Result String (List Message)
unfolding members_of
thread_of all id =
    if str_eq id ""
    then err "missing param: id"
    else members_of all id (find (λ m. str_eq m.id id) all)

-- `n` steps from a letter to the letter that it names in `ref`. The last one need not be stored.
pub data RefChain (all : List Message) : ℕ → String → String → Type 0 where
  here : {a : String} → RefChain all zero a a
  up :
      {n : ℕ} {a b c : String}
      → ref_of (by_id all a) ≡ some b
      → RefChain all n b c
      → RefChain all (suc n) a c

reaches-RefChain :
    (n : ℕ) (all : List Message) (root cur : String)
    → reaches n all root cur ≡ true
    → (k : ℕ) × (k ≤ n) × RefChain all k cur root
unfolding reaches
reaches-RefChain zero all root cur h = absurd (ground arith)
reaches-RefChain (suc n) all root cur h = elim (Option-cases (ref_of (by_id all cur))) [
  | inl e ↦ absurd (ground arith)
  | inr (r, e) ↦ elim (Bool-cases (str_eq r root)) [
    | inl t ↦ (
      1,
      omega arith,
      up e (subst (λ x. RefChain all zero x root) (sym ((eq_iff r root).0 t)) here),
    )
    | inr f ↦
        let (k, le, c) = reaches-RefChain n all root r (rw (e, f, reaches) at h) in
        (suc k, omega (arith, le), up e c)
  ]
]

RefChain-reaches :
    (n k : ℕ) (all : List Message) {root cur : String}
    → k ≤ n
    → RefChain all k cur root
    → (str_eq cur root || reaches n all root cur) ≡ true
unfolding reaches
RefChain-reaches n zero all {root} le here = rw (eq_refl root) refl
RefChain-reaches zero (suc k) all le (up e c) = absurd (omega (arith, le))
RefChain-reaches (suc n) (suc k) all {root} {cur} le (up {b = b} e c) =
    rw (e, reaches)
      (elim (Bool-cases (str_eq cur root)) [
        | inl t ↦ rw t refl
        | inr f ↦ rw f (RefChain-reaches n k all (omega (arith, le)) c)
      ])

-- A letter belongs to the thread of a root exactly if the root is at most sixteen `ref`s up from it.
pub is_member-RefChain :
    (all : List Message) (root : String) (m : Message)
    → (is_member all root m ≡ true) ↔ ((k : ℕ) × (k ≤ max_climb) × RefChain all k m.id root)
unfolding is_member
is_member-RefChain all root m = (
  λ h. elim (Bool-cases (str_eq m.id root)) [
    | inl t ↦
        (0, omega arith, subst (λ x. RefChain all zero x root) (sym ((eq_iff m.id root).0 t)) here)
    | inr f ↦ reaches-RefChain max_climb all root m.id (rw f at h)
  ],
  λ (k, le, c). RefChain-reaches max_climb k all le c,
)
