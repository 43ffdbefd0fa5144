-- ===== src/Handshake/Codes.antt =====
-- handshake.rs and server.rs: the code of an invite, and how peer/join reads it, on bytes.
use hot_potato.Prelude.{
  ℕ, ◌+◌, ◌*◌, ◌/◌, ◌%◌, ◌<◌, ◌≡◌, ◌≢◌, refl, sym, ap, ◌∙◌, Bool, true, false, Option, some, List,
  [], ◌∷◌, ◌++◌, All, any, any-append, arith, ◌==◌, if◌then◌else◌, Bool-cases, some_inj, ==_iff,
  inl, inr,
}
use hot_potato.Handshake.Base64.{
  b64url_encode, b64url_decode, symbol, sextet, b64url_decode-b64url_encode, sextet-symbol,
  sextet_dash,
}

-- `-`.
abbrev pub dash : ℕ
dash = 45

abbrev is_dash : ℕ → Bool
is_dash c = c == dash

-- `format!("hp-{uuid}-{}", b64url_encode(payload))`.
unfoldable pub invite_code : List ℕ → List ℕ → List ℕ
invite_code uuid payload = 104 ∷ 112 ∷ dash ∷ (uuid ++ (dash ∷ b64url_encode payload))

-- `rsplit('-').next()`: what stands behind the last dash, or the whole.
unfoldable pub last_part : List ℕ → List ℕ
last_part [] = []
last_part (c ∷ cs) =
    let rest = last_part cs in if any is_dash cs then rest else if is_dash c then cs else c ∷ cs

-- The bytes that peer/join takes for the JSON of the inviter.
unfoldable pub payload_of : List ℕ → Option (List ℕ)
payload_of code = b64url_decode (last_part code)

last_part-behind :
    (front back : List ℕ) → any is_dash back ≡ false → last_part (front ++ (dash ∷ back)) ≡ back
unfolding last_part any
last_part-behind [] back h = rw h refl
last_part-behind (c ∷ cs) back h =
    let more : any is_dash (cs ++ (dash ∷ back)) ≡ true =
      any-append is_dash cs (dash ∷ back) ∙ ground arith in
    rw more (last_part-behind cs back h)

-- ASCII, with neither `>` nor `~` at every third place.
abbrev pub IsPlain : List ℕ → Type 0
IsPlain (a ∷ b ∷ c ∷ rest) = (a < 128) × (b < 128) × (c < 128) × (c ≢ 62) × (c ≢ 126) × IsPlain rest
IsPlain bytes = All (λ b. b < 128) bytes

symbol_no_dash : (i : ℕ) → i < 64 → i ≢ 62 → is_dash (symbol i) ≡ false
symbol_no_dash i h other = elim (Bool-cases (is_dash (symbol i))) [
  | inr e ↦ e
  | inl e ↦ absurd (
      other (
        some_inj
          (sym (sextet-symbol i h) ∙ ap sextet ((==_iff (symbol i) dash).0 e) ∙ sextet_dash)))
]

first_plain : (a : ℕ) → a < 128 → is_dash (symbol (a / 4)) ≡ false
first_plain a h = symbol_no_dash (a / 4) (omega (arith, h)) (omega (arith, h))

second_plain : (a b : ℕ) → b < 128 → is_dash (symbol (a % 4 * 16 + b / 16)) ≡ false
second_plain a b h = symbol_no_dash (a % 4 * 16 + b / 16) (omega (arith, h)) (omega (arith, h))

third_plain : (b c : ℕ) → c < 128 → is_dash (symbol (b % 16 * 4 + c / 64)) ≡ false
third_plain b c h = symbol_no_dash (b % 16 * 4 + c / 64) (omega (arith, h)) (omega (arith, h))

fourth_plain : (c : ℕ) → c < 128 → c ≢ 62 → c ≢ 126 → is_dash (symbol (c % 64)) ≡ false
fourth_plain c h p q = symbol_no_dash (c % 64) (omega arith) (omega (arith, h, p, q))

encode-plain : (bytes : List ℕ) → IsPlain bytes → any is_dash (b64url_encode bytes) ≡ false
unfolding b64url_encode any
encode-plain [] h = refl
encode-plain (a ∷ []) h =
    rw (first_plain a h.0, symbol_no_dash (a % 4 * 16) (omega arith) (omega arith)) refl
encode-plain (a ∷ b ∷ []) h =
    rw
      (
        first_plain a h.0,
        second_plain a b h.1.0,
        symbol_no_dash (b % 16 * 4) (omega arith) (omega arith),
      )
      refl
encode-plain (a ∷ b ∷ c ∷ rest) h =
    rw (first_plain a h.0, second_plain a b h.1, third_plain b c h.2, fourth_plain c h.2 h.3 h.4)
      (encode-plain rest h.5)

IsPlain-bytes : (bytes : List ℕ) → IsPlain bytes → All (λ b. b < 256) bytes
IsPlain-bytes [] h = tt
IsPlain-bytes (a ∷ []) h = (omega (arith, h.0), tt)
IsPlain-bytes (a ∷ b ∷ []) h = (omega (arith, h.0), (omega (arith, h.1.0), tt))
IsPlain-bytes (a ∷ b ∷ c ∷ rest) h =
    (omega (arith, h.0), (omega (arith, h.1), (omega (arith, h.2), IsPlain-bytes rest h.5)))

-- A pool that joins reads from the code of an invite the text that the inviting pool put into it,
-- if that is ASCII and has neither `>` nor `~` at every third place.
pub payload_of-invite_code :
    (uuid payload : List ℕ) → IsPlain payload → payload_of (invite_code uuid payload) ≡ some payload
unfolding payload_of invite_code
payload_of-invite_code uuid payload h =
    rw (last_part-behind (104 ∷ 112 ∷ dash ∷ uuid) (b64url_encode payload) (encode-plain payload h))
      (b64url_decode-b64url_encode payload (IsPlain-bytes payload h))
