-- ===== src/Federation/Routes.antt =====
-- federation.rs: which pool the routing table gives for an agent.
use hot_potato.Prelude.{
  String, true, false, ◌≡◌, refl, subst, ◌↔◌, List, [], ◌∷◌, some, find, Bool-cases, inl, inr,
  arith, some_inj,
}
use hot_potato.Federation.{Peer, contains, resolve}

-- The table is split at `p`, which lists the agent, and no peer before it does.
pub data IsHome (agent : String) : List Peer → Peer → Type 0 where
  here : {p : Peer} {ps : List Peer} → contains p agent ≡ true → IsHome agent (p ∷ ps) p
  later :
      {q p : Peer} {ps : List Peer}
      → contains q agent ≡ false
      → IsHome agent ps p
      → IsHome agent (q ∷ ps) p

IsHome-of_find :
    (agent : String) (ps : List Peer) {p : Peer}
    → find (λ q. contains q agent) ps ≡ some p
    → IsHome agent ps p
unfolding find
IsHome-of_find agent [] h = absurd (ground arith)
IsHome-of_find agent (q ∷ ps) {p} h = elim (Bool-cases (contains q agent)) [
  | inl t ↦ subst (IsHome agent (q ∷ ps)) (some_inj (rw t at h)) (here t)
  | inr t ↦ later t (IsHome-of_find agent ps (rw t at h))
]

find-of_home :
    (agent : String) {ps : List Peer} {p : Peer}
    → IsHome agent ps p
    → find (λ q. contains q agent) ps ≡ some p
unfolding find
find-of_home agent (here t) = rw t refl
find-of_home agent (later t h) = rw t (find-of_home agent h)

-- The routing table gives the peer `p` for an agent exactly when `p` is the first peer of the table
-- that lists the agent.
pub resolve-IsHome :
    (peers : List Peer) (agent : String) (p : Peer)
    → (resolve peers agent ≡ some p) ↔ IsHome agent peers p
unfolding resolve
resolve-IsHome peers agent p = (IsHome-of_find agent peers, find-of_home agent)
