-- ===== src/Sled/Defs.antt =====
-- store/sled_store.rs: the operations of `SledStore`.
use Prim.Native.String.{◌++◌ as str_append, slice, len}
use text.Mathlib.Text.{starts_with}
use hot_potato.Prelude.{
  ℕ, ◌+◌, leb, String, Bool, true, false, ◌&&◌, some, List, [], ◌∷◌, str_eq, str_le, sort_by,
  length, if◌then◌else◌,
}
use hot_potato.Error.{Result, BusResult, ok, err, not_found, mailbox_full, ◌>>=◌}
use hot_potato.Message.{Message, queued, delivered, acked, status_eq, Time}
use hot_potato.Store.Interface.{BusStore}
use hot_potato.Sled.Letter.{
  Update, deliver_update, claim_update, push_ok_update, push_failed_update, is_candidate,
  revive_update, reclaim_update, dead_update, read_update, ack_update,
}
use hot_potato.Sled.Tree.{
  Sled, SledStore, key, marker, sled_err, map_err, or_keep, read_letter, write_letter, update_one,
  collect,
}

module _ (S : Sled) where
  -- An operation by `update_one` that gives the letter back.
  abbrev pub by_update :
      String → String → Update (Unit {0}) → SledStore S → BusResult Message × SledStore S
  by_update agent id f s =
      or_keep s (update_one S agent id f s.db >>= λ out. ok (out.0.0, record s { db = out.1 }))

  unfoldable pub push : Message → SledStore S → BusResult (Unit {0}) × SledStore S
  push msg s =
      let count = length (S.scan_prefix (str_append msg.receiver "::") s.db) in
      if leb s.capacity count
      then (err (mailbox_full msg.receiver s.capacity), s)
      else or_keep s
          (write_letter S (key msg.receiver msg) msg s.db >>= λ db. ok (tt, record s { db = db }))

  abbrev pub Polled : Type 0
  Polled = BusResult (List Message) × S.Tree

  -- After the write of the letter `taken`: the end of the loop, or the rest of it.
  poll_taken : Bool → Message → (S.Tree → Polled) → S.Tree → BusResult S.Tree → Polled
  poll_taken full taken rest db (err e) = (err e, db)
  poll_taken true taken rest db (ok db') = (ok (taken ∷ []), db')
  poll_taken false taken rest db (ok db') = ((rest db').0 >>= λ ms. ok (taken ∷ ms), (rest db').1)

  poll_item :
      Bool
      → Time
      → (S.Tree → Polled)
      → (S.Tree → Polled)
      → S.Tree
      → BusResult (String × Message)
      → Polled
  poll_item full now skip rest db (err e) = (err e, db)
  poll_item full now skip rest db (ok (k, m)) =
      let taken = record m { status = delivered; delivered_at = some now } in
      if status_eq m.status queued
      then poll_taken full taken rest db (write_letter S k taken db)
      else skip db

  -- The loop of `poll` with `n` letters taken: what it has written stays written when it fails.
  unfoldable pub poll_loop :
      ℕ → ℕ → Time → List (Result String (String × S.Value)) → S.Tree → Polled
  unfolding poll_item poll_taken
  poll_loop limit n now [] db = (ok [], db)
  poll_loop limit n now (item ∷ items) db =
      poll_item (leb limit (n + 1)) now (poll_loop limit n now items)
        (poll_loop limit (n + 1) now items) db (read_letter S item)

  unfoldable pub poll : String → ℕ → Time → SledStore S → BusResult (List Message) × SledStore S
  poll agent limit now s =
      let polled = poll_loop limit 0 now (S.scan_prefix (str_append agent "::") s.db) s.db in
      (polled.0, record s { db = polled.1 })

  unfoldable pub mark_delivered :
      String → String → Time → SledStore S → BusResult Message × SledStore S
  mark_delivered agent id now = by_update agent id (deliver_update now)

  unfoldable pub mark_pushing : String → String → Time → SledStore S → BusResult Bool × SledStore S
  mark_pushing agent id now s = or_keep s (
      update_one S agent id (claim_update now) s.db >>= λ out.
      ok (out.0.1, record s { db = out.1 }))

  unfoldable pub mark_push_ok :
      String → String → Time → SledStore S → BusResult Message × SledStore S
  mark_push_ok agent id now = by_update agent id (push_ok_update now)

  unfoldable pub mark_push_failed :
      String → String → String → Time → SledStore S → BusResult Message × SledStore S
  mark_push_failed agent id reason now = by_update agent id (push_failed_update reason)

  -- The loop of `revive_auth_dead` over the ids of the candidates. A failed update is passed over.
  unfoldable pub revive_loop : String → List Message → SledStore S → List Message × SledStore S
  revive_loop agent [] s = ([], s)
  revive_loop agent (c ∷ cs) s =
      let updated = by_update agent c.id revive_update s in
      let rest = revive_loop agent cs updated.1 in
      elim updated.0 [
        | err e ↦ rest
        | ok m ↦ if status_eq m.status queued then (m ∷ rest.0, rest.1) else rest
      ]

  revive_all :
      String → SledStore S → BusResult (List Message) → BusResult (List Message) × SledStore S
  revive_all agent s (err e) = (err e, s)
  revive_all agent s (ok candidates) =
      let revived = revive_loop agent candidates s in (ok revived.0, revived.1)

  unfoldable pub revive_auth_dead :
      String → Time → SledStore S → BusResult (List Message) × SledStore S
  unfolding revive_all
  revive_auth_dead agent now s = revive_all agent s (collect S (is_candidate agent) s.db)

  unfoldable pub reclaim_stale_pushing :
      String → String → String → Time → SledStore S → BusResult Message × SledStore S
  reclaim_stale_pushing agent id reason now = by_update agent id (reclaim_update reason)

  unfoldable pub mark_dead :
      String → String → String → Time → SledStore S → BusResult Message × SledStore S
  mark_dead agent id reason now = by_update agent id (dead_update reason)

  unfoldable pub mark_read : String → String → Time → SledStore S → BusResult Message × SledStore S
  mark_read agent id now = by_update agent id (read_update now)

  unfoldable pub peek : String → SledStore S → BusResult (List Message)
  peek agent s = collect S (λ m. str_eq m.receiver agent && status_eq m.status queued) s.db

  unfoldable pub ack :
      String → String → String → Time → SledStore S → BusResult Message × SledStore S
  ack agent id text now = by_update agent id (ack_update text now)

  unfoldable pub sent_by : String → SledStore S → BusResult (List Message)
  sent_by agent s = collect S (λ m. str_eq m.sender agent) s.db

  unfoldable pub archive : SledStore S → BusResult (List Message)
  archive s = collect S (λ m. status_eq m.status acked) s.db

  unfoldable pub list_all : SledStore S → BusResult (List Message)
  list_all s = collect S (λ m. true) s.db

  -- The scan of `delete_one`: the first letter with the id, and its key.
  unfoldable pub find_loop :
      String → List (Result String (String × S.Value)) → BusResult (String × Message)
  find_loop id [] = err (not_found id)
  find_loop id (item ∷ items) =
      let later = find_loop id items in
      map_err sled_err item >>= λ kv. elim (S.from_slice kv.1) [
        | err e ↦ later
        | ok m ↦ if str_eq m.id id then ok (kv.0, m) else later
      ]

  unfoldable pub delete_one : String → SledStore S → BusResult Message × SledStore S
  delete_one id s = or_keep s (
      find_loop id (S.iter s.db) >>= λ km.
      map_err sled_err (S.remove km.0 s.db) >>= λ db. ok (km.1, record s { db = db }))

  -- The keys that `delete_all` collects: those of letters.
  unfoldable pub letter_keys : List (Result String (String × S.Value)) → BusResult (List String)
  letter_keys [] = ok []
  letter_keys (item ∷ items) =
      let later = letter_keys items in
      map_err sled_err item >>= λ kv.
      if starts_with kv.0 marker
      then later
      else elim (S.from_slice kv.1) [ err e ↦ later | ok m ↦ later >>= λ ks. ok (kv.0 ∷ ks) ]

  removed_rest :
      ℕ → (S.Tree → BusResult ℕ × S.Tree) → S.Tree → BusResult S.Tree → BusResult ℕ × S.Tree
  removed_rest n rest db (err e) = (err e, db)
  removed_rest n rest db (ok db') = rest db'

  -- The loop that removes them, with `n` removed so far.
  unfoldable pub remove_loop : ℕ → List String → S.Tree → BusResult ℕ × S.Tree
  unfolding removed_rest
  remove_loop n [] db = (ok n, db)
  remove_loop n (k ∷ ks) db =
      removed_rest n (remove_loop (n + 1) ks) db (map_err sled_err (S.remove k db))

  remove_all : SledStore S → BusResult (List String) → BusResult ℕ × SledStore S
  remove_all s (err e) = (err e, s)
  remove_all s (ok ks) =
      let removed = remove_loop 0 ks s.db in (removed.0, record s { db = removed.1 })

  unfoldable pub delete_all : SledStore S → BusResult ℕ × SledStore S
  unfolding remove_all
  delete_all s = remove_all s (letter_keys (S.iter s.db))

  unfoldable pub register : String → SledStore S → BusResult (Unit {0}) × SledStore S
  register agent s = or_keep s (
      map_err sled_err (S.insert (str_append marker agent) S.no_bytes s.db) >>= λ db.
      ok (tt, record s { db = db }))

  -- `strip_prefix` of the marker, which the scan has found at the head of the key.
  unfoldable pub agents_loop : List (Result String (String × S.Value)) → BusResult (List String)
  agents_loop [] = ok []
  agents_loop (item ∷ items) =
      let later = agents_loop items in
      map_err sled_err item >>= λ kv.
      if starts_with kv.0 marker
      then (later >>= λ names. ok (slice kv.0 (len marker) (len kv.0) ∷ names))
      else later

  unfoldable pub agents : SledStore S → BusResult (List String)
  agents s = agents_loop (S.scan_prefix marker s.db) >>= λ names. ok (sort_by str_le names)

  unfoldable pub unregister : String → SledStore S → BusResult (Unit {0}) × SledStore S
  unregister agent s = or_keep s (
      map_err sled_err (S.remove (str_append marker agent) s.db) >>= λ db.
      ok (tt, record s { db = db }))

  -- `impl BusStore for SledStore`.
  abbrev pub sled_backend : BusStore
  sled_backend = record {
    State = SledStore S;
    push = push;
    poll = poll;
    mark_delivered = mark_delivered;
    mark_pushing = mark_pushing;
    mark_push_ok = mark_push_ok;
    mark_push_failed = mark_push_failed;
    reclaim_stale_pushing = reclaim_stale_pushing;
    mark_dead = mark_dead;
    revive_auth_dead = revive_auth_dead;
    mark_read = mark_read;
    peek = peek;
    ack = ack;
    sent_by = sent_by;
    archive = archive;
    delete_one = delete_one;
    delete_all = delete_all;
    list_all = list_all;
    register = register;
    unregister = unregister;
    agents = agents;
  }
