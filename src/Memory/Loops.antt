-- ===== src/Memory/Loops.antt =====
-- The loops over one mailbox keep what each letter satisfies, and do not lengthen the mailbox.
use hot_potato.Prelude.{
  ℕ, suc, ◌+◌, ◌≡◌, refl, sym, ap, ◌∙◌, subst, inl, inr, String, Bool, true, some, List, [], ◌∷◌,
  arith, Bool-cases, Option-cases, All, length, leb, str_eq, ◌&&◌,
}
use hot_potato.Message.{Message, queued, delivered, dead, status_eq, Time}
use hot_potato.Memory.Letter.{deliver_letter, revive_letter, is_auth_dead}
use hot_potato.Memory.Defs.{poll_loop, update_first, revive_loop, remove_first}

-- A letter that `poll` takes is delivered as `mark_delivered` delivers it.
deliver_letter_queued :
    (now : Time) (m : Message)
    → status_eq m.status queued ≡ true
    → record m { status = delivered; delivered_at = some now } ≡ deliver_letter now m
unfolding deliver_letter
deliver_letter_queued now m e = rw e

module _ (P : Message → Type 0) where
  pub update_first-All :
      {A : Type 0} (p : Message → Bool) (f : Message → Message × A)
      → ((m : Message) → p m ≡ true → P m → P (f m).0)
      → (box : List Message) {r : A} {box' : List Message} → update_first p f box ≡ some (r, box')
      → All P box
      → All P box' × (length box' ≡ length box)
  unfolding update_first
  update_first-All p f keeps [] e h = absurd (ground arith)
  update_first-All p f keeps (m ∷ ms) {r} {box'} e h = elim (Bool-cases (p m)) [
    | inl t ↦
        let same : (f m).0 ∷ ms ≡ box' = ground arith in
        subst (λ b. All P b × (length b ≡ length (m ∷ ms))) same ((keeps m t h.0, h.1), refl)
    | inr t ↦ elim (Option-cases (update_first p f ms)) [
      | inl none_left ↦ absurd (ground arith)
      | inr ((r', rest), found) ↦
          let (all, len) = update_first-All p f keeps ms found h.1 in
          let same : m ∷ rest ≡ box' = ground arith in
          subst (λ b. All P b × (length b ≡ length (m ∷ ms))) same ((h.0, all), ap suc len)
    ]
  ]

  pub poll_loop-All :
      (limit n : ℕ) (now : Time)
      → ((m : Message) → P m → P (deliver_letter now m))
      → (box : List Message) → All P box
      → All P (poll_loop limit n now box).1 × (length (poll_loop limit n now box).1 ≡ length box)
  unfolding poll_loop
  poll_loop-All limit n now keeps [] h = (tt, refl)
  poll_loop-All limit n now keeps (m ∷ ms) h = elim (Bool-cases (status_eq m.status queued)) [
    | inl t ↦
        let taken : P (record m { status = delivered; delivered_at = some now }) =
          rw (deliver_letter_queued now m t) (keeps m h.0) in
        let (all, len) = poll_loop-All limit (n + 1) now keeps ms h.1 in
        elim (Bool-cases (leb limit (n + 1))) [
          | inl last ↦ rw (t, last) ((taken, h.1), refl)
          | inr more ↦ rw (t, more) ((taken, all), ap suc len)
        ]
    | inr t ↦
        let (all, len) = poll_loop-All limit n now keeps ms h.1 in rw t ((h.0, all), ap suc len)
  ]

  pub revive_loop-All :
      (now : Time)
      → ((m : Message) → P m → P (revive_letter now m))
      → (box : List Message) → All P box
      → All P (revive_loop now box).1 × (length (revive_loop now box).1 ≡ length box)
  unfolding revive_loop
  revive_loop-All now keeps [] h = (tt, refl)
  revive_loop-All now keeps (m ∷ ms) h =
      let (all, len) = revive_loop-All now keeps ms h.1 in
      elim (Bool-cases (status_eq m.status dead && is_auth_dead m)) [
        | inl t ↦ rw t ((keeps m h.0, all), ap suc len)
        | inr t ↦ rw t ((h.0, all), ap suc len)
      ]

module _ (P : Message → Type 0) where
  pub remove_first-All :
      (id : String) (box : List Message) {m : Message} {box' : List Message}
      → remove_first id box ≡ some (m, box')
      → All P box
      → P m × All P box' × (suc (length box') ≡ length box)
  unfolding remove_first
  remove_first-All id [] e h = absurd (ground arith)
  remove_first-All id (x ∷ xs) {m} {box'} e h = elim (Bool-cases (str_eq x.id id)) [
    | inl t ↦
        let same : xs ≡ box' = ground arith in
        let head : x ≡ m = ground arith in
        (subst P head h.0, subst (All P) same h.1, ap (λ l. suc (length l)) (sym same))
    | inr t ↦ elim (Option-cases (remove_first id xs)) [
      | inl nowhere ↦ absurd (ground arith)
      | inr ((y, rest), found) ↦
          let (py, all, len) = remove_first-All id xs found h.1 in
          let same : x ∷ rest ≡ box' = ground arith in
          let head : y ≡ m = ground arith in
          (
            subst P head py,
            subst (All P) same (h.0, all),
            ap (λ l. suc (length l)) (sym same) ∙ ap suc len,
          )
    ]
  ]
