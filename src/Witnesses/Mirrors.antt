-- ===== src/Witnesses/Mirrors.antt =====
-- The mirror files on a disk that is a table of whole values, and what a restart finds there.
use Prim.Native.String.{◌++◌ as str_append}
use hot_potato.Prelude.{
  ◌≡◌, refl, sym, ◌∙◌, String, Bool, true, false, Option, none, some, List, [], ◌∷◌, ◌++◌, Assoc,
  lookup, lookup-insert, lookup-insert_self, insert, remove, arith,
}
use hot_potato.Disk.{Files, IsLawful, Codec, ReadsBack, load_from, persist_done}
use hot_potato.Deliver.{register_tagged, unregister_entry, AgentEntry, webhook, poll}
use hot_potato.Deliver.Mirror.{
  rehydrate, with_persistence as started_registry, Mirrored, run, Change, registering,
  unregistering,
}
use hot_potato.Deliver.Restart.{started, run-started, run_restarted}
use hot_potato.Federation.{Peer}
use hot_potato.Handshake.Mirror as Learned
use hot_potato.Handshake.Mirror.{DynamicPeers, add_all, add_all-started}
use hot_potato.Witnesses.Fixtures.{fleet, depot}

module _ (V : Type 0) where
  abbrev renamed : String → Option V → Assoc V → Bool × Assoc V
  renamed q none d = (false, d)
  renamed q (some v) d = (true, insert q v d)

  abbrev table : Files
  table = record {
    Disk = Assoc V;
    Bytes = V;
    read = λ p d. lookup p d;
    write = λ p v d. (true, insert p v d);
    rename = λ p q d. renamed q (lookup p d) d;
    tmp_of = λ p. str_append p ".tmp";
  }

  read_moved :
      (q : String) (o : Option V) (d : Assoc V)
      → (renamed q o d).0 ≡ true
      → lookup q (renamed q o d).1 ≡ o
  read_moved q none d h = absurd (ground arith)
  read_moved q (some v) d h = lookup-insert_self q v d

  read_stuck :
      (q r : String) (o : Option V) (d : Assoc V)
      → (renamed q o d).0 ≡ false
      → lookup r (renamed q o d).1 ≡ lookup r d
  read_stuck q r none d h = refl
  read_stuck q r (some v) d h = absurd (ground arith)

  table-IsLawful : IsLawful table
  table-IsLawful = record {
    read-written = λ p v d h. lookup-insert_self p v d;
    read-other = λ p q v d h. lookup-insert p q v d ∙ ground (arith, h);
    read-renamed = λ p q d h. read_moved q (lookup p d) d h;
    read-kept = λ p q r d h. read_stuck q r (lookup p d) d h;
  }

  abbrev whole : Codec table V
  whole = record { encode = λ v. some v; decode = λ v. some v }

  whole-ReadsBack : ReadsBack whole
  whole-ReadsBack = record { decode-encode = λ v bytes h. sym h }

  table_reliable : (path : String) (v : V) (d : Assoc V) → persist_done table whole path v d ≡ true
  unfolding persist_done
  table_reliable path v d = rw (lookup-insert_self (str_append path ".tmp") v d) refl

abbrev changes : List Change
changes =
    registering "bob" "a worker" (webhook "http://bob") ("fleet" ∷ [])
    ∷ registering "ann" "" poll []
    ∷ registering "bob" "moved" (webhook "http://bob2") []
    ∷ unregistering "ann"
    ∷ []

abbrev entries_disk : Files
entries_disk = table (List AgentEntry)

abbrev entries : Codec entries_disk (List AgentEntry)
entries = whole (List AgentEntry)

-- The registry that starts on an empty disk, and after changes of it.
abbrev first_start : Mirrored entries_disk
first_start = started entries_disk entries "r.json" []

abbrev after : List Change → Mirrored entries_disk
after cs = run entries_disk entries cs first_start

abbrev second_start : List Change → Mirrored entries_disk
second_start cs = started entries_disk entries "r.json" (after cs).disk

run-started_example :
    (first : List Change) × (later : List Change) × (changes ≡ first ++ later)
    × ((agent : String)
        → lookup agent (second_start changes).agents ≡ lookup agent (after first).agents)
run-started_example =
    run-started entries_disk entries (table-IsLawful (List AgentEntry))
      (whole-ReadsBack (List AgentEntry)) "r.json" refl changes []

run_restarted_example :
    lookup "bob" (second_start changes).agents ≡ lookup "bob" (after changes).agents
run_restarted_example =
    run_restarted entries_disk entries (table-IsLawful (List AgentEntry))
      (whole-ReadsBack (List AgentEntry)) "r.json" refl (table_reliable (List AgentEntry) "r.json")
      changes [] "bob"

abbrev peers_disk : Files
peers_disk = table (List Peer)

abbrev peers : Codec peers_disk (List Peer)
peers = whole (List Peer)

abbrev no_peers : DynamicPeers peers_disk
no_peers = Learned.started peers_disk peers "p.json" []

abbrev learned : List Peer → DynamicPeers peers_disk
learned ps = add_all peers_disk peers ps no_peers

add_all-started_example :
    (first : List Peer) × (later : List Peer) × ((fleet ∷ depot ∷ []) ≡ first ++ later)
    × ((Learned.started peers_disk peers "p.json" (learned (fleet ∷ depot ∷ [])).disk).inner
        ≡ (learned first).inner)
add_all-started_example =
    add_all-started peers_disk peers (table-IsLawful (List Peer)) (whole-ReadsBack (List Peer))
      "p.json" refl (fleet ∷ depot ∷ []) []

-- A run of it: the tags outlive the plain registration and the restart.
restart_test :
    lookup "bob" (second_start changes).agents
    ≡ some (record {
      agent = "bob";
      description = "moved";
      deliver_via = webhook "http://bob2";
      tags = "fleet" ∷ [];
    })
unfolding started_registry run lookup register_tagged insert unregister_entry rehydrate load_from
    remove
restart_test = run_restarted_example ∙ refl
