-- ===== src/Handshake/Learned.antt =====
-- handshake.rs and server.rs: the peers learned, one for each name, and their merge with the
-- configured ones.
use hot_potato.Prelude.{
  String, Bool, true, false, ◌≡◌, refl, sym, subst, is_some, ap, ◌∙◌, List, [], ◌∷◌, ◌++◌, str_eq,
  any, filter, find, Option, none, some, if◌then◌else◌, Bool-cases, inl, inr, arith, eq_iff,
}
use hot_potato.Federation.{Peer}
use hot_potato.Handshake.{add, merged_peers}

-- The peer of this name.
abbrev pub peer_named : String → List Peer → Option Peer
peer_named name ps = find (λ p. str_eq p.name name) ps

unfoldable pub or_else : Option Peer → Option Peer → Option Peer
or_else none o = o
or_else (some p) o = some p

find-append :
    (name : String) (xs ys : List Peer)
    → peer_named name (xs ++ ys) ≡ or_else (peer_named name xs) (peer_named name ys)
unfolding find or_else
find-append name [] ys = refl
find-append name (p ∷ ps) ys = elim (Bool-cases (str_eq p.name name)) [
  | inl e ↦ rw e refl
  | inr e ↦ rw e (find-append name ps ys)
]

true≢false : ◌≡◌ {A = Bool} true false → ⊥
true≢false h = cc

names_differ :
    (a b name : String) → str_eq a b ≡ false → str_eq a name ≡ true → str_eq b name ≡ false
names_differ a b name f c = elim (Bool-cases (str_eq b name)) [
  | inl t ↦
      let same : a ≡ b = (eq_iff a name).0 c ∙ sym ((eq_iff b name).0 t) in
      absurd (true≢false (sym ((eq_iff a b).1 same) ∙ f))
  | inr e ↦ e
]

or_else-none : (o : Option Peer) → or_else o none ≡ o
unfolding or_else
or_else-none none = refl
or_else-none (some p) = refl

or_else_assoc : (o q r : Option Peer) → or_else (or_else o q) r ≡ or_else o (or_else q r)
unfolding or_else
or_else_assoc none q r = refl
or_else_assoc (some p) q r = refl

or_else_skip : (o r q : Option Peer) → is_some o ≡ true → or_else o r ≡ or_else o q
unfolding or_else
or_else_skip none r q h = absurd (true≢false (sym h))
or_else_skip (some p) r q h = refl

any-is_some :
    (name : String) (ps : List Peer)
    → is_some (peer_named name ps) ≡ any (λ p. str_eq p.name name) ps
unfolding find any
any-is_some name [] = refl
any-is_some name (p ∷ ps) = ground (arith, any-is_some name ps)

-- After `add peer` the learned peer of that name is `peer`, and every other name has the peer it
-- had.
pub add-peer_named :
    (peer : Peer) (inner : List Peer) (name : String)
    → peer_named name (add peer inner)
      ≡ (if str_eq peer.name name then some peer else peer_named name inner)
unfolding add filter find
add-peer_named peer [] name = refl
add-peer_named peer (p ∷ ps) name = elim (Bool-cases (str_eq p.name peer.name)) [
  | inl t ↦
      let same : p.name ≡ peer.name = (eq_iff p.name peer.name).0 t in
      rw (t, same) (add-peer_named peer ps name ∙ ground arith)
  | inr f ↦ rw f (elim (Bool-cases (str_eq p.name name)) [
    | inl c ↦ rw (c, names_differ p.name peer.name name f c) refl
    | inr c ↦ rw c (add-peer_named peer ps name)
  ])
]

added :
    (name : String) (p : Peer) (ps env : List Peer)
    → or_else (or_else (peer_named name env) (peer_named name (p ∷ []))) (peer_named name ps)
      ≡ or_else (peer_named name env) (peer_named name (p ∷ ps))
unfolding find or_else
added name p ps env =
    or_else_assoc (peer_named name env) (peer_named name (p ∷ [])) (peer_named name ps)
    ∙ ap (or_else (peer_named name env))
        (elim (Bool-cases (str_eq p.name name)) [ inl c ↦ rw c refl | inr c ↦ rw c refl ])

known :
    (name : String) (p : Peer) (ps env : List Peer)
    → any (λ e. str_eq e.name p.name) env ≡ true
    → or_else (peer_named name env) (peer_named name ps)
      ≡ or_else (peer_named name env) (peer_named name (p ∷ ps))
unfolding find
known name p ps env t = elim (Bool-cases (str_eq p.name name)) [
  | inl c ↦ or_else_skip (peer_named name env) (peer_named name ps) (peer_named name (p ∷ ps)) (
      any-is_some name env
      ∙ subst (λ n. any (λ e. str_eq e.name n) env ≡ true) ((eq_iff p.name name).0 c) t)
  | inr c ↦ rw c refl
]

-- The merged table gives for a name the configured peer if there is one, else the first learned one.
pub merged_peers-peer_named :
    (env learned : List Peer) (name : String)
    → peer_named name (merged_peers env learned)
      ≡ or_else (peer_named name env) (peer_named name learned)
unfolding merged_peers find
merged_peers-peer_named env [] name = sym (or_else-none (peer_named name env))
merged_peers-peer_named env (p ∷ ps) name =
    elim (Bool-cases (any (λ e. str_eq e.name p.name) env)) [
      | inl t ↦ rw t (merged_peers-peer_named env ps name ∙ known name p ps env t)
      | inr f ↦ rw f (
          merged_peers-peer_named (env ++ p ∷ []) ps name
          ∙ rw (find-append name env (p ∷ [])) (added name p ps env))
    ]
