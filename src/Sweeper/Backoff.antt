-- ===== src/Sweeper/Backoff.antt =====
-- The gate of the sweep against the age of the letter.
use hot_potato.Prelude.{
  ℕ, zero, suc, ◌*◌, ◌/◌, ◌%◌, ◌^◌, ◌≤◌, ◌<◌, ◌≡◌, refl, sym, subst, ◌↔◌, min, max, arith, ltb,
  Bool-cases, inl, inr, ◌-◌, ◌⊎◌, true,
}
use native.Mathlib.Nat.{pow-suc, pow-le-pow_right, le_trans}
use native.Mathlib.Decide.{dec_lt}
use hot_potato.Message.{Message, Time}
use hot_potato.Sweeper.{nanos, ilog2_loop, ilog2_or_zero, retry_window, is_due}

pow_le_of_ilog2 : (f n k : ℕ) → 1 ≤ n → k ≤ ilog2_loop f n → 2 ^ k ≤ n
unfolding ilog2_loop
pow_le_of_ilog2 f n zero h le = h
pow_le_of_ilog2 zero n (suc k) h le = absurd (omega arith)
pow_le_of_ilog2 (suc f) n (suc k) h le = elim (Bool-cases (ltb n 2)) [
  | inl small ↦ absurd (ground arith)
  | inr big ↦
      let two : 2 ≤ n = ground arith in
      let le' : k ≤ ilog2_loop f (n / 2) = ground arith in
      let half : 2 ^ k ≤ n / 2 = pow_le_of_ilog2 f (n / 2) k (omega arith) le' in
      rw pow-suc (omega arith)
]

scale : (step k q age : ℕ) → k ≤ q → step * q ≤ age → step * k ≤ age
scale step k q age h e = grind arith

ilog2-pow : (n k : ℕ) → 1 ≤ n → k ≤ ilog2_or_zero n → 2 ^ k ≤ n
unfolding ilog2_or_zero
ilog2-pow n k h le = pow_le_of_ilog2 64 n k h le

ilog2_at_zero : ilog2_or_zero 0 ≡ 0
unfolding ilog2_or_zero
ilog2_at_zero = refl

-- The window with a floor of `step` seconds and `l` doublings.
abbrev window : ℕ → ℕ → ℕ
window step l = step * 2 ^ min l 5 % 2 ^ 64

window-le : (step l p : ℕ) → 2 ^ min l 5 ≤ p → window step l ≤ step * p
window-le step l p h = grind arith

window_capped : (step l : ℕ) → window step l ≤ step * 32
window_capped step l =
    window-le step l 32 (pow-le-pow_right {n = 2} (omega arith) {i = min l 5} {j = 5} (omega arith))

div_covers : (age step : ℕ) → step * (age / step) ≤ age
div_covers age step = grind arith

div_pos : (age step : ℕ) → 1 ≤ step → step ≤ age → 1 ≤ age / step
div_pos age step h le = grind arith

div_zero : (age step : ℕ) → age < step → age / step ≡ 0
div_zero age step h = grind arith

window_due : (age step : ℕ) → 1 ≤ step → step ≤ age → window step (ilog2_or_zero (age / step)) ≤ age
window_due age step h le =
    let q = age / step in
    let p : 2 ^ min (ilog2_or_zero q) 5 ≤ q = ilog2-pow q _ (div_pos age step h le) (omega arith) in
    le_trans (window-le step (ilog2_or_zero q) q p) (div_covers age step)

window_early :
    (age step : ℕ) → step < 2 ^ 64 → age < step → window step (ilog2_or_zero (age / step)) ≡ step
window_early age step h lt = rw (div_zero age step lt, ilog2_at_zero) (omega arith)

window_gate :
    (age step : ℕ)
    → 1 ≤ step
    → step < 2 ^ 64
    → (age < window step (ilog2_or_zero (age / step))) ↔ (age < step)
window_gate age step pos h =
    ((λ lt. within lt, λ lt. subst (λ w. age < w) (sym (window_early age step h lt)) lt))
  where
    within : age < window step (ilog2_or_zero (age / step)) → age < step
    within lt = elim (dec_lt age step) [
      | yes below ↦ below
      | no above ↦ absurd (omega (arith, window_due age step pos (omega arith)))
    ]

-- The floor that gates: whole seconds, and at least one.
abbrev pub whole_secs : ℕ → ℕ
whole_secs floor = max (floor / nanos) 1

-- The gate of a sweep lets a queued letter through exactly if the floor is zero, or the letter is as
-- old as the floor, cut to whole seconds and at least one. So it opens once and for all, and a floor
-- below a second gates like one second. No window is longer than 32 such floors. The floor fits
-- the 64 bits of its seconds.
pub is_due-age :
    (floor : ℕ) (now : Time) (l : Message)
    → whole_secs floor < 2 ^ 64
    → ((is_due floor now l ≡ true)
        ↔ ((floor ≡ 0) ⊎ (whole_secs floor * nanos ≤ now - l.created_at)))
      × (retry_window (now - l.created_at) floor ≤ whole_secs floor * 32 * nanos)
unfolding is_due retry_window
is_due-age floor now l h =
    let age = now - l.created_at in
    let step = whole_secs floor in
    let (early, late) = window_gate (age / nanos) step (omega arith) h in
    let capped = window_capped step (ilog2_or_zero (age / nanos / step)) in
    ((λ d. ground arith, λ d. ground arith), omega arith)
