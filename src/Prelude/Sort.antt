-- ===== src/Prelude/Sort.antt =====
-- Rust's stable `sort_by`. A stable sort by a total preorder has one result; this one inserts.
use Prim.Native.Nat.{suc}
use mathlib.Core.Path.{◌≡◌, refl, ap, ◌∙◌}
use mathlib.Core.Logic.{◌⊎◌, inl, inr}
use mathlib.Core.Bool.{Bool, true, false, ◌||◌}
use mathlib.Core.List.{List, [], ◌∷◌, Perm}
use mathlib.Core.List.Perm
use native.Mathlib.Omega.{arith}
use hot_potato.Prelude.Tests.{if◌then◌else◌, Bool-cases}
use hot_potato.Prelude.Lists.{All, length, any}

module _ {ℓ} {A : Type ℓ} (le : A → A → Bool) where
  unfoldable pub sorted_insert : A → List A → List A
  sorted_insert x [] = x ∷ []
  sorted_insert x (y ∷ ys) =
      let rest = sorted_insert x ys in if le x y then x ∷ y ∷ ys else y ∷ rest

  unfoldable pub sort_by : List A → List A
  unfolding sorted_insert
  sort_by [] = []
  sort_by (x ∷ xs) = sorted_insert x (sort_by xs)

  -- Each element is at most every later one.
  abbrev pub IsSorted : List A → Type 0
  IsSorted [] = Unit
  IsSorted (x ∷ xs) = All (λ y. le x y ≡ true) xs × IsSorted xs

module _ {ℓ} {A : Type ℓ} (le : A → A → Bool) where
  sorted_insert-Perm : (x : A) (xs : List A) → Perm (sorted_insert le x xs) (x ∷ xs)
  unfolding sorted_insert
  sorted_insert-Perm x [] = Perm.refl (x ∷ [])
  sorted_insert-Perm x (y ∷ ys) = elim (Bool-cases (le x y)) [
    | inl e ↦ rw e (Perm.refl (x ∷ y ∷ ys))
    | inr e ↦ rw e (Perm.trans (Perm.cons y (sorted_insert-Perm x ys)) (Perm.swap x y ys))
  ]

  pub sort_by-Perm : (xs : List A) → Perm (sort_by le xs) xs
  unfolding sort_by
  sort_by-Perm [] = Perm.refl []
  sort_by-Perm (x ∷ xs) =
      Perm.trans (sorted_insert-Perm x (sort_by le xs)) (Perm.cons x (sort_by-Perm xs))

  length-sorted_insert : (x : A) (xs : List A) → length (sorted_insert le x xs) ≡ suc (length xs)
  unfolding sorted_insert
  length-sorted_insert x [] = refl
  length-sorted_insert x (y ∷ ys) = elim (Bool-cases (le x y)) [
    | inl e ↦ rw e
    | inr e ↦ rw e (ap suc (length-sorted_insert x ys))
  ]

  pub length-sort_by : (xs : List A) → length (sort_by le xs) ≡ length xs
  unfolding sort_by
  length-sort_by [] = refl
  length-sort_by (x ∷ xs) = length-sorted_insert x (sort_by le xs) ∙ ap suc (length-sort_by xs)

  pub any-sorted_insert :
      (p : A → Bool) (x : A) (xs : List A) → any p (sorted_insert le x xs) ≡ (p x || any p xs)
  unfolding sorted_insert any
  any-sorted_insert p x [] = refl
  any-sorted_insert p x (y ∷ ys) = elim (Bool-cases (le x y)) [
    | inl e ↦ rw e
    | inr e ↦ rw e (ground (arith, any-sorted_insert p x ys))
  ]

  pub any-sort_by : (p : A → Bool) (xs : List A) → any p (sort_by le xs) ≡ any p xs
  unfolding sort_by any
  any-sort_by p [] = refl
  any-sort_by p (x ∷ xs) =
      any-sorted_insert p x (sort_by le xs) ∙ ap (λ b. p x || b) (any-sort_by p xs)

  sorted_insert-first :
      (x : A) (xs : List A) → All (λ y. le x y ≡ true) xs → sorted_insert le x xs ≡ x ∷ xs
  unfolding sorted_insert
  sorted_insert-first x [] h = refl
  sorted_insert-first x (y ∷ ys) h = rw h.0 refl

  pub sort_by_sorted : (xs : List A) → IsSorted le xs → sort_by le xs ≡ xs
  unfolding sort_by
  sort_by_sorted [] h = refl
  sort_by_sorted (x ∷ xs) h = rw (sort_by_sorted xs h.1) (sorted_insert-first x xs h.0)

  module _ {κ} (P : A → Type κ) where
    pub All-sorted_insert : (x : A) (xs : List A) → P x → All P xs → All P (sorted_insert le x xs)
    unfolding sorted_insert
    All-sorted_insert x [] hx h = (hx, tt)
    All-sorted_insert x (y ∷ ys) hx h = elim (Bool-cases (le x y)) [
      | inl e ↦ rw e (hx, (h.0, h.1))
      | inr e ↦ rw e (h.0, All-sorted_insert x ys hx h.1)
    ]

    pub All-sort_by : (xs : List A) → All P xs → All P (sort_by le xs)
    unfolding sort_by
    All-sort_by [] h = tt
    All-sort_by (x ∷ xs) h = All-sorted_insert x (sort_by le xs) h.0 (All-sort_by xs h.1)

  module _ (total : (x y : A) → (le x y ≡ true) ⊎ (le y x ≡ true))
      (trans : (x y z : A) → le x y ≡ true → le y z ≡ true → le x z ≡ true) where
    All-le_trans :
        (x y : A) (xs : List A)
        → le x y ≡ true
        → All (λ z. le y z ≡ true) xs
        → All (λ z. le x z ≡ true) xs
    All-le_trans x y [] p h = tt
    All-le_trans x y (z ∷ zs) p h = (trans x y z p h.0, All-le_trans x y zs p h.1)

    other_way : (x y : A) → le x y ≡ false → le y x ≡ true
    other_way x y e = ground (arith, total x y)

    sorted_insert-IsSorted :
        (x : A) (xs : List A) → IsSorted le xs → IsSorted le (sorted_insert le x xs)
    unfolding sorted_insert
    sorted_insert-IsSorted x [] h = (tt, tt)
    sorted_insert-IsSorted x (y ∷ ys) h = elim (Bool-cases (le x y)) [
      | inl e ↦ rw e ((e, All-le_trans x y ys e h.0), h)
      | inr e ↦ rw e (
        All-sorted_insert (λ z. le y z ≡ true) x ys (other_way x y e) h.0,
        sorted_insert-IsSorted x ys h.1,
      )
    ]

    pub sort_by-IsSorted : (xs : List A) → IsSorted le (sort_by le xs)
    unfolding sort_by
    sort_by-IsSorted [] = tt
    sort_by-IsSorted (x ∷ xs) = sorted_insert-IsSorted x (sort_by le xs) (sort_by-IsSorted xs)
