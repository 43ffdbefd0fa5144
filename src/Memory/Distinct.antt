-- ===== src/Memory/Distinct.antt =====
-- The loops over one mailbox keep the ids of its letters apart.
use hot_potato.Prelude.{
  ℕ, ◌+◌, ◌≡◌, refl, sym, ap, ◌∙◌, subst, inl, inr, String, Bool, false, ◌||◌, some, List, [], ◌∷◌,
  ◌++◌, arith, eq_iff, Bool-cases, Option-cases, any, any-append, str_eq, map, sort_by,
  sorted_insert, any-sorted_insert, any-sort_by,
}
use hot_potato.Message.{Message, Time}
use hot_potato.Store.{fifo, message_le}
use hot_potato.Memory.Letter.{revive_letter}
use hot_potato.Memory.Changes.{Change, Change-SameEnvelope, revive}
use hot_potato.Memory.Defs.{poll_loop, update_first, revive_loop, remove_first}

-- Whether the mailbox has a letter of this id.
abbrev pub holds : String → List Message → Bool
holds id box = any (λ m. str_eq m.id id) box

abbrev pub IsDistinct : List Message → Type 0
IsDistinct [] = Unit
IsDistinct (m ∷ ms) = (holds m.id ms ≡ false) × IsDistinct ms

-- The two mailboxes have the same ids, in the same order.
abbrev SameIds : List Message → List Message → Type 0
SameIds xs ys = map (λ m. m.id) xs ≡ map (λ m. m.id) ys

abbrev ids : List Message → List String
ids box = map (λ m. m.id) box

abbrev has : String → List String → Bool
has id xs = any (λ x. str_eq x id) xs

holds-ids : (id : String) (box : List Message) → holds id box ≡ has id (ids box)
unfolding any
holds-ids id [] = refl
holds-ids id (m ∷ ms) = ap (λ b. str_eq m.id id || b) (holds-ids id ms)

abbrev AreDistinct : List String → Type 0
AreDistinct [] = Unit
AreDistinct (x ∷ xs) = (has x xs ≡ false) × AreDistinct xs

to_ids : (box : List Message) → IsDistinct box → AreDistinct (ids box)
to_ids [] d = tt
to_ids (m ∷ ms) d = (sym (holds-ids m.id ms) ∙ d.0, to_ids ms d.1)

of_ids : (box : List Message) → AreDistinct (ids box) → IsDistinct box
of_ids [] d = tt
of_ids (m ∷ ms) d = (holds-ids m.id ms ∙ d.0, of_ids ms d.1)

-- A change of the letters that keeps their ids keeps them apart.
pub IsDistinct-ids : (xs ys : List Message) → ids ys ≡ ids xs → IsDistinct xs → IsDistinct ys
IsDistinct-ids xs ys e d = of_ids ys (subst AreDistinct (sym e) (to_ids xs d))

pub ids-poll_loop :
    (limit n : ℕ) (now : Time) (box : List Message) → ids (poll_loop limit n now box).1 ≡ ids box
unfolding poll_loop
ids-poll_loop limit n now [] = refl
ids-poll_loop limit n now (m ∷ ms) =
    ground (arith, ids-poll_loop limit n now ms, ids-poll_loop limit (n + 1) now ms)

revive_letter-id : (now : Time) (m : Message) → (revive_letter now m).id ≡ m.id
revive_letter-id now m =
    let change : Change m (revive_letter now m) = revive now refl in (Change-SameEnvelope change).id

pub ids-revive_loop : (now : Time) (box : List Message) → ids (revive_loop now box).1 ≡ ids box
unfolding revive_loop
ids-revive_loop now [] = refl
ids-revive_loop now (m ∷ ms) = ground (arith, ids-revive_loop now ms, revive_letter-id now m)

module _ {A : Type 0} (p : Message → Bool) (f : Message → Message × A)
    (same : (m : Message) → (f m).0.id ≡ m.id) where
  pub ids-update_first :
      (box : List Message) {r : A} {box' : List Message}
      → update_first p f box ≡ some (r, box')
      → ids box' ≡ ids box
  unfolding update_first
  ids-update_first [] e = absurd (ground arith)
  ids-update_first (m ∷ ms) {r} {box'} e = elim (Bool-cases (p m)) [
    | inl t ↦
        let tail : (f m).0 ∷ ms ≡ box' = ground arith in
        ap ids (sym tail) ∙ ap (λ x. x ∷ ids ms) (same m)
    | inr t ↦ elim (Option-cases (update_first p f ms)) [
      | inl nowhere ↦ absurd (ground arith)
      | inr ((r', rest), found) ↦
          let tail : m ∷ rest ≡ box' = ground arith in
          ap ids (sym tail) ∙ ap (λ l. m.id ∷ l) (ids-update_first ms found)
    ]
  ]

sorted_insert-IsDistinct :
    (m : Message) (ms : List Message)
    → holds m.id ms ≡ false
    → IsDistinct ms
    → IsDistinct (sorted_insert message_le m ms)
unfolding sorted_insert any
sorted_insert-IsDistinct m [] h d = (refl, tt)
sorted_insert-IsDistinct m (x ∷ xs) h d = elim (Bool-cases (message_le m x)) [
  | inl le ↦ rw le (h, d)
  | inr gt ↦ rw gt (
    any-sorted_insert message_le (λ y. str_eq y.id x.id) m xs
        ∙ ground (arith, d.0, h, eq_iff x.id m.id, eq_iff m.id x.id),
    sorted_insert-IsDistinct m xs (ground (arith, h)) d.1,
  )
]

pub fifo-IsDistinct : (box : List Message) → IsDistinct box → IsDistinct (fifo box)
unfolding fifo sort_by
fifo-IsDistinct [] d = tt
fifo-IsDistinct (m ∷ ms) d =
    sorted_insert-IsDistinct m (sort_by message_le ms)
      (any-sort_by message_le (λ y. str_eq y.id m.id) ms ∙ d.0) (fifo-IsDistinct ms d.1)

pub append-IsDistinct :
    (box : List Message) (m : Message)
    → holds m.id box ≡ false
    → IsDistinct box
    → IsDistinct (box ++ (m ∷ []))
unfolding any
append-IsDistinct [] m h d = (refl, tt)
append-IsDistinct (x ∷ xs) m h d = (
  any-append (λ y. str_eq y.id x.id) xs (m ∷ [])
      ∙ ground (arith, d.0, h, eq_iff x.id m.id, eq_iff m.id x.id),
  append-IsDistinct xs m (ground (arith, h)) d.1,
)

remove_first-holds :
    (id i : String) (box : List Message) {m : Message} {box' : List Message}
    → remove_first id box ≡ some (m, box')
    → holds i box ≡ false
    → holds i box' ≡ false
unfolding remove_first any
remove_first-holds id i [] e h = absurd (ground arith)
remove_first-holds id i (x ∷ xs) {m} {box'} e h = elim (Bool-cases (str_eq x.id id)) [
  | inl t ↦
      let same : xs ≡ box' = ground arith in subst (λ b. holds i b ≡ false) same (ground (arith, h))
  | inr t ↦ elim (Option-cases (remove_first id xs)) [
    | inl nowhere ↦ absurd (ground arith)
    | inr ((y, rest), found) ↦
        let same : x ∷ rest ≡ box' = ground arith in
        let on_rest = remove_first-holds id i xs found (ground (arith, h)) in
        subst (λ b. holds i b ≡ false) same (ground (arith, h, on_rest))
  ]
]

pub remove_first-IsDistinct :
    (id : String) (box : List Message) {m : Message} {box' : List Message}
    → remove_first id box ≡ some (m, box')
    → IsDistinct box
    → IsDistinct box'
unfolding remove_first
remove_first-IsDistinct id [] e d = absurd (ground arith)
remove_first-IsDistinct id (x ∷ xs) {m} {box'} e d = elim (Bool-cases (str_eq x.id id)) [
  | inl t ↦ let same : xs ≡ box' = ground arith in subst IsDistinct same d.1
  | inr t ↦ elim (Option-cases (remove_first id xs)) [
    | inl nowhere ↦ absurd (ground arith)
    | inr ((y, rest), found) ↦
        let same : x ∷ rest ≡ box' = ground arith in
        subst IsDistinct same
          (remove_first-holds id x.id xs found d.0, remove_first-IsDistinct id xs found d.1)
  ]
]
