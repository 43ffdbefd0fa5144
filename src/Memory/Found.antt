-- ===== src/Memory/Found.antt =====
-- An operation that leaves the found letter as it is leaves the store as it is.
use hot_potato.Prelude.{
  ◌≡◌, refl, sym, ap, ◌∙◌, subst, String, Bool, true, some, List, [], ◌∷◌, arith, Bool-cases, inl,
  inr, find, filter, some_inj, lookup, insert, str_eq, Assoc,
}
use hot_potato.Error.{BusResult}
use hot_potato.Message.{Message}
use hot_potato.Memory.Defs.{MemoryStore, update_first, with_letter}
use hot_potato.Memory.Single.{has_id, with_letter-found}

pub find-filter :
    (p q : Message → Bool) (xs : List Message) {l : Message}
    → find p xs ≡ some l
    → q l ≡ true
    → find p (filter q xs) ≡ some l
unfolding find filter
find-filter p q [] e h = absurd (ground arith)
find-filter p q (x ∷ xs) {l} e h = elim (Bool-cases (p x)) [
  | inl t ↦
      let same : x ≡ l = some_inj (rw t at e) in
      rw (subst (λ z. q z ≡ true) (sym same) h) (rw t (ap some same))
  | inr t ↦ elim (Bool-cases (q x)) [
    | inl t' ↦ rw t' (rw t (find-filter p q xs (rw t at e) h))
    | inr t' ↦ rw t' (find-filter p q xs (rw t at e) h)
  ]
]

-- The found letter is replaced by the change of it; here the change is told by its value at `l`.
pub update_first-find :
    {A : Type 0} (p : Message → Bool) (f : Message → Message × A) (xs : List Message) {l : Message}
    {a : A}
    → find p xs ≡ some l
    → f l ≡ (l, a)
    → update_first p f xs ≡ some (a, xs)
unfolding find update_first
update_first-find p f [] e h = absurd (ground arith)
update_first-find p f (x ∷ xs) {l} {a} e h = elim (Bool-cases (p x)) [
  | inl t ↦
      let same : x ≡ l = some_inj (rw t at e) in
      let fx : f x ≡ (x, a) = subst (λ z. f z ≡ (z, a)) (sym same) h in
      rw (t, update_first) (ground arith)
  | inr t ↦ rw (t, update_first) (rw (update_first-find p f xs (rw t at e) h) refl)
]

insert_same :
    {V : Type 0} (k : String) (v : V) (m : Assoc V) → lookup k m ≡ some v → insert k v m ≡ m
unfolding lookup insert
insert_same k v [] e = absurd (ground arith)
insert_same k v ((j, w) ∷ m) e = elim (Bool-cases (str_eq j k)) [
  | inl t ↦ rw t (ap (λ x. (j, x) ∷ m) (sym (some_inj (rw t at e))))
  | inr t ↦ rw t (ap (λ l. (j, w) ∷ l) (insert_same k v m (rw t at e)))
]

pub with_letter-fixed :
    {A : Type 0} (agent id : String) (f : Message → Message × BusResult A) (s : MemoryStore)
    (box : List Message) (l : Message) (a : BusResult A)
    → lookup agent s.mailboxes ≡ some box
    → find (has_id id) box ≡ some l
    → f l ≡ (l, a)
    → with_letter agent id f s ≡ (a, s)
with_letter-fixed agent id f s box l a e found fixed =
    with_letter-found agent id f s box a box e (update_first-find (has_id id) f box found fixed)
    ∙ ap (λ boxes. (a, record s { mailboxes = boxes })) (insert_same agent box s.mailboxes e)
