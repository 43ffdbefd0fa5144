-- ===== src/Handshake/Mirror.antt =====
-- handshake.rs: the learned peers with the JSON file that mirrors them, and their start in
-- server.rs.
use hot_potato.Prelude.{
  ℕ, String, false, ◌≡◌, refl, ap, ◌∙◌, ◌⊎◌, Option, none, some, List, [], ◌∷◌, ◌++◌, length,
  str_eq, if◌then◌else◌, Bool-cases, inl, inr,
}
use hot_potato.Disk.{Files, IsLawful, Codec, ReadsBack, load_from, persist, persist_done}
use hot_potato.Disk.Laws.{load_from-persist}
use hot_potato.Federation.{Peer}
use hot_potato.Handshake.{add}

-- `struct DynamicPeers`, with the disk that its file is on.
pub record DynamicPeers (F : Files) : Type 0 where
  pub inner : List Peer
  pub path : Option String
  pub disk : F.Disk

-- `*w = peers`, if the file could be read.
unfoldable pub or_kept : Option (List Peer) → List Peer → List Peer
or_kept none inner = inner
or_kept (some peers) inner = peers

module _ (F : Files) (C : Codec F (List Peer)) where
  -- `DynamicPeers::new`.
  abbrev pub new_peers : F.Disk → DynamicPeers F
  new_peers d = record { inner = []; path = none; disk = d }

  -- `with_persistence`. The lock is free at start-up.
  unfoldable pub with_persistence : String → DynamicPeers F → DynamicPeers F
  unfolding or_kept
  with_persistence path m = record m {
    inner = or_kept (load_from F C path m.disk) m.inner;
    path = some path;
  }

  -- The learned peers of the router.
  unfoldable pub opened : (String → String → String) → Option String → F.Disk → DynamicPeers F
  unfolding with_persistence
  opened join none d = new_peers d
  opened join (some dir) d =
      if str_eq dir "" then new_peers d else with_persistence (join dir "peers.json") (new_peers d)

  -- `add`.
  unfoldable pub add_saved : Peer → DynamicPeers F → DynamicPeers F
  add_saved peer m =
      let inner = add peer m.inner in
      record m { inner = inner; disk = persist F C m.path inner m.disk }

  -- `all` and `len`.
  abbrev pub all_peers : DynamicPeers F → List Peer
  all_peers m = m.inner

  abbrev pub count_peers : DynamicPeers F → ℕ
  count_peers m = length m.inner

  unfoldable pub add_all : List Peer → DynamicPeers F → DynamicPeers F
  unfolding add_saved
  add_all [] m = m
  add_all (p ∷ ps) m = add_all ps (add_saved p m)

  abbrev pub started : String → F.Disk → DynamicPeers F
  started path d = with_persistence path (new_peers d)

  module _ (laws : IsLawful F) (reads : ReadsBack C) (path : String)
      (apart : str_eq (F.tmp_of path) path ≡ false) where
    load-add_saved :
        (peer : Peer) (m : DynamicPeers F)
        → m.path ≡ some path
        → load_from F C path (add_saved peer m).disk ≡ (
            if persist_done F C path (add peer m.inner) m.disk
            then some (add peer m.inner)
            else load_from F C path m.disk)
    unfolding add_saved
    load-add_saved peer m p =
        rw p (load_from-persist F C laws reads path apart (add peer m.inner) m.disk)

    -- The file holds what it held, or the peers as they were after the first of the handshakes.
    load-add_all :
        (ps : List Peer) (m : DynamicPeers F)
        → m.path ≡ some path
        → (load_from F C path (add_all ps m).disk ≡ load_from F C path m.disk)
          ⊎ ((first : List Peer) × (later : List Peer) × (ps ≡ first ++ later)
              × (load_from F C path (add_all ps m).disk ≡ some (add_all first m).inner))
    unfolding add_all
    load-add_all [] m e = inl refl
    load-add_all (p ∷ ps) m e = elim (load-add_all ps (add_saved p m) e) [
      | inr (first, later, same, h) ↦ inr (p ∷ first, later, ap (λ l. p ∷ l) same, h)
      | inl h ↦ elim (Bool-cases (persist_done F C path (add p m.inner) m.disk)) [
        | inl t ↦ inr (p ∷ [], ps, refl, h ∙ load-add_saved p m e ∙ rw t refl)
        | inr f ↦ inl (h ∙ load-add_saved p m e ∙ rw f refl)
      ]
    ]

    -- Whatever peers are learned, and whichever writes and renames fail on the way, a restart knows
    -- exactly the peers that were known after the first so many of the handshakes, in their order.
    pub add_all-started :
        (ps : List Peer) (d : F.Disk)
        → (first : List Peer) × (later : List Peer) × (ps ≡ first ++ later)
          × ((started path (add_all ps (started path d)).disk).inner
              ≡ (add_all first (started path d)).inner)
    unfolding with_persistence
    add_all-started ps d = elim (load-add_all ps (started path d) refl) [
      | inl h ↦ ([], ps, refl, unfold add_all in ap (λ o. or_kept o []) h)
      | inr (first, later, same, h) ↦ (first, later, same, ap (λ o. or_kept o []) h)
    ]
