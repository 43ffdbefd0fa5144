-- ===== src/Federation/Table.antt =====
-- federation.rs: the routing table from the environment. The JSON library and `trim` are parameters.
use Prim.Native.String.{◌++◌ as str_append}
use hot_potato.Prelude.{
  String, Bool, true, false, ◌≡◌, ◌≢◌, refl, sym, ap, ◌∙◌, subst, ◌↔◌, ◌⊎◌, ◌||◌, inl, inr, Option,
  none, some, List, [], ◌∷◌, All, str_eq, eq_iff, arith, Bool-cases, if◌then◌else◌,
}
use hot_potato.Error.{Result, ok, err, ok_inj, err≢ok, Result-cases}
use hot_potato.Federation.{Peer, checked_peers, is_nil}

invalid : Result String (List Peer) → Result String (List Peer)
unfolding checked_peers
invalid (ok peers) = checked_peers peers
invalid (err e) = err (str_append "HOT_POTATO_PEERS invalid: " e)

module _ (trim : String → String) (read : String → Result String (List Peer)) where
  -- `Peers::from_json`.
  unfoldable pub from_json : String → Result String (List Peer)
  unfolding invalid
  from_json raw = if str_eq (trim raw) "" then ok [] else invalid (read raw)

  or_default : Result String (List Peer) → List Peer
  or_default (ok peers) = peers
  or_default (err e) = []

  -- `Peers::from_env`, by the value of the variable.
  unfoldable pub from_env : Option String → List Peer
  unfolding or_default
  from_env none = []
  from_env (some raw) = or_default (from_json raw)

-- `is_empty` and `len`.
abbrev pub is_empty : List Peer → Bool
is_empty [] = true
is_empty (p ∷ ps) = false

-- What a peer must have to be in the table.
abbrev pub IsUsable : Peer → Type 0
IsUsable p = (p.name ≢ "") × (p.url ≢ "") × (p.agents ≢ [])

refused : Peer → Bool
refused p = str_eq p.name "" || str_eq p.url "" || is_nil p.agents

is_nil_iff : (xs : List String) → (is_nil xs ≡ true) ↔ (xs ≡ [])
is_nil_iff [] = ground arith
is_nil_iff (x ∷ xs) = ground arith

refused-IsUsable : (p : Peer) → (refused p ≡ false) ↔ IsUsable p
unfolding refused
refused-IsUsable p = ground (arith, eq_iff p.name "", eq_iff p.url "", is_nil_iff p.agents)

checked_peers-ok : (ps qs : List Peer) → checked_peers ps ≡ ok qs → (ps ≡ qs) × All IsUsable ps
unfolding checked_peers refused
checked_peers-ok [] qs h = (ok_inj h, tt)
checked_peers-ok (p ∷ ps) qs h = elim (Bool-cases (refused p)) [
  | inl t ↦ absurd (err≢ok (rw t at h))
  | inr f ↦ elim (Result-cases (checked_peers ps)) [
    | inl (rest, e) ↦
        let tail = checked_peers-ok ps rest e in
        (ap (λ l. p ∷ l) tail.0 ∙ ok_inj (rw (f, e) at h), ((refused-IsUsable p).0 f, tail.1))
    | inr (x, e) ↦ absurd (err≢ok (rw (f, e) at h))
  ]
]

checked_peers-of : (ps : List Peer) → All IsUsable ps → checked_peers ps ≡ ok ps
unfolding checked_peers refused
checked_peers-of [] h = refl
checked_peers-of (p ∷ ps) h = rw ((refused-IsUsable p).1 h.0, checked_peers-of ps h.1) refl

module _ (trim : String → String) (read : String → Result String (List Peer)) where
  read_table :
      (raw : String) (peers : List Peer)
      → from_json trim read raw ≡ ok peers
      → ((trim raw ≡ "") × (peers ≡ []))
        ⊎ ((trim raw ≢ "") × (read raw ≡ ok peers) × All IsUsable peers)
  unfolding from_json
  read_table raw peers h = elim (Bool-cases (str_eq (trim raw) "")) [
    | inl t ↦ inl ((eq_iff (trim raw) "").0 t, sym (ok_inj (rw t at h)))
    | inr f ↦ elim (Result-cases (read raw)) [
      | inr (x, e) ↦ absurd (err≢ok (rw (f, e, invalid) at h))
      | inl (ps, e) ↦
          let checked = checked_peers-ok ps peers (rw (f, e, invalid) at h) in
          inr (
            ground (arith, eq_iff (trim raw) "", f),
            e ∙ ap ok checked.0,
            subst (All IsUsable) checked.0 checked.1,
          )
    ]
  ]

  table_read :
      (raw : String) (peers : List Peer)
      → ((trim raw ≡ "") × (peers ≡ []))
        ⊎ ((trim raw ≢ "") × (read raw ≡ ok peers) × All IsUsable peers)
      → from_json trim read raw ≡ ok peers
  unfolding from_json
  table_read raw peers (inl (blank, nothing)) =
      rw ((eq_iff (trim raw) "").1 blank) (ap ok (sym nothing))
  table_read raw peers (inr (text, e, h)) = elim (Bool-cases (str_eq (trim raw) "")) [
    | inl t ↦ absurd (text ((eq_iff (trim raw) "").0 t))
    | inr f ↦ rw (f, e, invalid) (checked_peers-of peers h)
  ]

  IsUsable-or_none : (raw : String) → All IsUsable (or_default trim read (from_json trim read raw))
  unfolding or_default
  IsUsable-or_none raw = elim (Result-cases (from_json trim read raw)) [
    | inr (x, e) ↦ rw e tt
    | inl (ps, e) ↦ rw e (elim (read_table raw ps e) [
      | inl (blank, nothing) ↦ rw nothing tt
      | inr (text, same, h) ↦ h
    ])
  ]

  all-IsUsable : (env : Option String) → All IsUsable (from_env trim read env)
  unfolding from_env
  all-IsUsable none = tt
  all-IsUsable (some raw) = IsUsable-or_none raw

  -- The variable is read as a table exactly in two cases: it is blank, and the table is empty; or
  -- it is a list of peers as JSON, each with a name, a URL and an agent, and the table is that
  -- list. The table of the server has such peers only, whatever the variable holds and also if it
  -- is not set.
  pub from_json-IsUsable :
      (raw : String) (env : Option String) (peers : List Peer)
      → ((from_json trim read raw ≡ ok peers) ↔ (
          ((trim raw ≡ "") × (peers ≡ []))
          ⊎ ((trim raw ≢ "") × (read raw ≡ ok peers) × All IsUsable peers)))
        × All IsUsable (from_env trim read env)
  from_json-IsUsable raw env peers =
      ((read_table raw peers, table_read raw peers), all-IsUsable env)
