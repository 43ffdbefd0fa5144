-- ===== src/Handshake/Base64.antt =====
-- handshake.rs: the URL-safe base64 of the invite codes, on the bytes of the text. Where the source
-- joins bits by `|`, the two operands have no bit in common, so that `+` does the same.
use hot_potato.Prelude.{
  ℕ, zero, suc, ◌+◌, ◌*◌, ◌/◌, ◌%◌, ◌<◌, ◌==◌, Bool, true, false, ◌≡◌, refl, ap, subst, ◌⊎◌, inl,
  inr, ◌&&◌, List, [], ◌∷◌, Option, none, some, All, if◌then◌else◌, arith, codes,
}

abbrev table : List ℕ
table = codes "ABCDEFGHIJKLMNOPQRSTUVWXYZabcdefghijklmnopqrstuvwxyz0123456789-_"

-- `TABLE[i]`. The indices of the encoder are below 64, the length of the table.
unfoldable pub at : List ℕ → ℕ → ℕ
at [] i = 0
at (c ∷ cs) zero = c
at (c ∷ cs) (suc i) = at cs i

-- `iter().position(..)`, counted from `i`.
position : ℕ → ℕ → List ℕ → Option ℕ
position i c [] = none
position i c (t ∷ ts) = let later = position (suc i) c ts in if t == c then some i else later

unfoldable pub symbol : ℕ → ℕ
unfolding at
symbol i = at table i

-- The value of one byte of the text; `=` counts as 0.
pub sextet : ℕ → Option ℕ
unfolding position
sextet c = if c == 61 then some 0 else position 0 c table

unfoldable pub b64url_encode : List ℕ → List ℕ
b64url_encode [] = []
b64url_encode (a ∷ []) = symbol (a / 4) ∷ symbol (a % 4 * 16) ∷ []
b64url_encode (a ∷ b ∷ []) =
    symbol (a / 4) ∷ symbol (a % 4 * 16 + b / 16) ∷ symbol (b % 16 * 4) ∷ []
b64url_encode (a ∷ b ∷ c ∷ rest) =
    symbol (a / 4)
    ∷ symbol (a % 4 * 16 + b / 16)
    ∷ symbol (b % 16 * 4 + c / 64)
    ∷ symbol (c % 64)
    ∷ b64url_encode rest

pub byte0 : ℕ → ℕ → ℕ
byte0 x y = x * 4 % 256 + y / 16

pub byte1 : ℕ → ℕ → ℕ
byte1 y z = y * 16 % 256 + z / 4

pub byte2 : ℕ → ℕ → ℕ
byte2 z w = z * 64 % 256 + w

-- `TABLE.iter().position(..)?` for one more byte.
pub and_then : {X A : Type 0} → Option X → (X → Option A) → Option A
and_then none f = none
and_then (some x) f = f x

-- The bytes before `String::from_utf8`.
unfoldable pub b64url_decode : List ℕ → Option (List ℕ)
b64url_decode [] = some []
b64url_decode (p ∷ []) = and_then (sextet p) (λ x. some (byte0 x 0 ∷ []))
b64url_decode (p ∷ q ∷ []) =
    and_then (sextet p) (λ x. and_then (sextet q) (λ y. some (byte0 x y ∷ [])))
b64url_decode (p ∷ q ∷ r ∷ []) =
    and_then (sextet p)
      (λ x. and_then (sextet q) (λ y. and_then (sextet r) (λ z. some (byte0 x y ∷ byte1 y z ∷ []))))
b64url_decode (p ∷ q ∷ r ∷ s ∷ rest) = and_then (sextet p) (λ x. and_then (sextet q) (λ y.
    and_then (sextet r) (λ z.
      and_then (sextet s) (λ w.
        and_then (b64url_decode rest) (λ bs. some (byte0 x y ∷ byte1 y z ∷ byte2 z w ∷ bs))))))

same : ℕ → Option ℕ → Bool
same n none = false
same n (some m) = m == n

known_below : ℕ → Bool
unfolding sextet symbol same
known_below zero = true
known_below (suc n) = same n (sextet (symbol n)) && known_below n

and_both : (p q : Bool) → (p && q) ≡ true → (p ≡ true) × (q ≡ true)
and_both true true h = (refl, refl)
and_both true false h = absurd (ground arith)
and_both false q h = absurd (ground arith)

eq_or_lt : (i n : ℕ) → i < suc n → (n ≡ i) ⊎ (i < n)
eq_or_lt i n lt = ground arith

known_lem : (n i : ℕ) → known_below n ≡ true → i < n → same i (sextet (symbol i)) ≡ true
unfolding known_below
known_lem zero i h lt = absurd (omega (arith, lt))
known_lem (suc n) i h lt =
    let both = and_both (same n (sextet (symbol n))) (known_below n) h in
    elim (eq_or_lt i n lt) [
      | inl e ↦ subst (λ k. same k (sextet (symbol k)) ≡ true) e both.0
      | inr below ↦ known_lem n i both.1 below
    ]

same-some : (i : ℕ) (o : Option ℕ) → same i o ≡ true → o ≡ some i
unfolding same
same-some i none h = absurd (ground arith)
same-some i (some m) h = ap some (ground arith)

pub sextet-symbol : (i : ℕ) → i < 64 → sextet (symbol i) ≡ some i
unfolding known_below
sextet-symbol i h = same-some i (sextet (symbol i)) (known_lem 64 i refl h)

-- `-` is the symbol of 62 alone.
pub sextet_dash : sextet 45 ≡ some 62
unfolding sextet position
sextet_dash = refl

byte0-split : (a b : ℕ) → a < 256 → b < 256 → byte0 (a / 4) (a % 4 * 16 + b / 16) ≡ a
unfolding byte0
byte0-split a b ha hb = omega (arith, ha, hb)

byte1-split :
    (a b c : ℕ) → b < 256 → c < 256 → byte1 (a % 4 * 16 + b / 16) (b % 16 * 4 + c / 64) ≡ b
unfolding byte1
byte1-split a b c hb hc = omega (arith, hb, hc)

byte2-split : (b c : ℕ) → c < 256 → byte2 (b % 16 * 4 + c / 64) (c % 64) ≡ c
unfolding byte2
byte2-split b c hc = omega (arith, hc)

sextet-first : (a : ℕ) → a < 256 → sextet (symbol (a / 4)) ≡ some (a / 4)
sextet-first a ha = sextet-symbol (a / 4) (omega (arith, ha))

sextet-second :
    (a b : ℕ) → b < 256 → sextet (symbol (a % 4 * 16 + b / 16)) ≡ some (a % 4 * 16 + b / 16)
sextet-second a b hb = sextet-symbol (a % 4 * 16 + b / 16) (omega (arith, hb))

sextet-third :
    (b c : ℕ) → c < 256 → sextet (symbol (b % 16 * 4 + c / 64)) ≡ some (b % 16 * 4 + c / 64)
sextet-third b c hc = sextet-symbol (b % 16 * 4 + c / 64) (omega (arith, hc))

sextet-fourth : (c : ℕ) → sextet (symbol (c % 64)) ≡ some (c % 64)
sextet-fourth c = sextet-symbol (c % 64) (omega arith)

one_byte : (a : ℕ) → a < 256 → b64url_decode (b64url_encode (a ∷ [])) ≡ some (a ∷ [])
unfolding b64url_encode b64url_decode and_then byte0
one_byte a ha =
    rw (sextet-first a ha, sextet-symbol (a % 4 * 16) (omega arith))
      (ap (λ x. some (x ∷ [])) (omega (arith, ha)))

two_bytes :
    (a b : ℕ) → a < 256 → b < 256 → b64url_decode (b64url_encode (a ∷ b ∷ [])) ≡ some (a ∷ b ∷ [])
unfolding b64url_encode b64url_decode and_then byte1
two_bytes a b ha hb =
    let last : (a % 4 * 16 + b / 16) * 16 % 256 + b % 16 * 4 / 4 ≡ b = omega (arith, hb) in
    rw (sextet-first a ha, sextet-second a b hb, sextet-symbol (b % 16 * 4) (omega arith))
      (rw (byte0-split a b ha hb, last) refl)

three_bytes :
    (a b c : ℕ) (rest : List ℕ)
    → a < 256
    → b < 256
    → c < 256
    → b64url_decode (b64url_encode rest) ≡ some rest
    → b64url_decode (b64url_encode (a ∷ b ∷ c ∷ rest)) ≡ some (a ∷ b ∷ c ∷ rest)
unfolding b64url_encode b64url_decode and_then
three_bytes a b c rest ha hb hc on =
    rw (sextet-first a ha, sextet-second a b hb, sextet-third b c hc, sextet-fourth c, on)
      (rw (byte0-split a b ha hb, byte1-split a b c hb hc, byte2-split b c hc) refl)

-- Decoding what the encoder made of a text's bytes gives those bytes back.
pub b64url_decode-b64url_encode :
    (bytes : List ℕ) → All (λ b. b < 256) bytes → b64url_decode (b64url_encode bytes) ≡ some bytes
unfolding b64url_encode b64url_decode
b64url_decode-b64url_encode [] h = refl
b64url_decode-b64url_encode (a ∷ []) h = one_byte a h.0
b64url_decode-b64url_encode (a ∷ b ∷ []) h = two_bytes a b h.0 h.1.0
b64url_decode-b64url_encode (a ∷ b ∷ c ∷ rest) h =
    three_bytes a b c rest h.0 h.1.0 h.1.1.0 (b64url_decode-b64url_encode rest h.1.1.1)
