-- ===== src/Witnesses/Disk.antt =====
-- The store on disk at a concrete database: a list of entries, and letters as they are.
use text.Mathlib.Text.{starts_with}
use hot_potato.Prelude.{true, ◌≡◌, refl, String, Option, none, some, List, [], ◌∷◌, filter, ap, sym}
use hot_potato.Error.{Result, ok, err, ok_inj, err≢ok}
use hot_potato.Message.{Message, pushing}
use hot_potato.Memory.Letter
use hot_potato.Memory.Runs.{Call, mark_pushing, mark_push_failed, poll, ack, register}
use mathlib.Core.List.{reverse}
use hot_potato.Sled.Letter.{
  deliver_update, claim_update, push_ok_update, revive_update, reclaim_update, read_update,
  ack_update, push_failed_update, dead_update,
}
use hot_potato.Sled.Tree.{padded, Sled, SledStore, key, update_one, update_loop, write_letter}
use hot_potato.Sled.Races.{IsWritable, late_update, mark_pushing-race, late_update-stale}
use hot_potato.Sled.Laws.{IsReliable, put_entry, drop_entry, as_items}
use hot_potato.State.{apply}
use hot_potato.Sled.Keeps.{HoldsOn}
use hot_potato.Sled.Runs.{run}
use hot_potato.Sled.Agree.{outcome, answer, stored, noteless, updates_agree}
use hot_potato.Sled.Traced.{IsPlaced, run-IsPlaced}
use hot_potato.Witnesses.Fixtures.{waiting}

abbrev decode : Option Message → Result String Message
decode none = err "empty"
decode (some m) = ok m

abbrev listed : Sled
listed = record {
  Tree = List (String × Option Message);
  Value = Option Message;
  iter = λ t. as_items t;
  scan_prefix = λ p t. as_items (filter (λ e. starts_with e.0 p) t);
  insert = λ k v t. ok (put_entry k v t);
  remove = λ k t. ok (drop_entry k t);
  to_vec = λ m. ok (some m);
  from_slice = decode;
  no_bytes = none;
}

decode-some :
    (m : Message) (v : Option Message)
    → ◌≡◌ {A = Result String (Option Message)} (ok (some m)) (ok v)
    → decode v ≡ ok m
decode-some m v e = ap decode (sym (ok_inj e))

listed-IsReliable : IsReliable listed
listed-IsReliable = record {
  entries = λ t. t;
  iter_lem = λ t. refl;
  scan_lem = λ p t. refl;
  insert_lem = λ k v t t' e. sym (ok_inj e);
  remove_lem = λ k t t' e. sym (ok_inj e);
  encode_lem = decode-some;
  empty_lem = λ m e. err≢ok e;
}

-- A store with one letter, under its own key.
abbrev disk : SledStore listed
disk = record { db = (key "bob" waiting, some waiting) ∷ []; capacity = 4 }

-- The letters that "ann" has sent.
abbrev FromAnn : Message → Type 0
FromAnn m = m.sender ≡ "ann"

disk-IsPlaced : HoldsOn listed listed-IsReliable (IsPlaced FromAnn []) disk.db
unfolding listed-IsReliable
disk-IsPlaced = (
  λ m e. record {
    placed = ap (λ l. key l.receiver l) (ok_inj e);
    life = sym (ap (λ l. l.sender) (ok_inj e));
  },
  tt,
)

abbrev shift : List Call
shift =
    register "bob"
    ∷ mark_pushing "bob" "m-1" 200
    ∷ mark_push_failed "bob" "m-1" "HTTP 500" 201
    ∷ poll "bob" 1 300
    ∷ ack "bob" "m-1" "done" 400
    ∷ []

run-IsPlaced_example :
    HoldsOn listed listed-IsReliable (IsPlaced FromAnn (reverse shift)) (run listed shift disk).db
run-IsPlaced_example = run-IsPlaced listed listed-IsReliable FromAnn shift disk disk-IsPlaced

updates_agree_example :
    (deliver_update 200 waiting ≡ ok (Letter.deliver_letter 200 waiting, tt))
    × (claim_update 200 waiting ≡ outcome (Letter.claim_letter 200 waiting))
    × (push_ok_update 200 waiting ≡ ok (Letter.push_ok_letter 200 waiting, tt))
    × (revive_update waiting ≡ ok (Letter.revive_letter 200 waiting, tt))
    × (reclaim_update "stale" waiting ≡ ok (Letter.reclaim_letter "stale" 200 waiting, tt))
    × (stored waiting (read_update 200 waiting) ≡ (Letter.read_letter 200 waiting).0)
    × (answer (read_update 200 waiting) ≡ (Letter.read_letter 200 waiting).1)
    × (stored waiting (ack_update "done" 200 waiting) ≡ (Letter.ack_letter "done" 200 waiting).0)
    × (answer (ack_update "done" 200 waiting) ≡ (Letter.ack_letter "done" 200 waiting).1)
    × (noteless (push_failed_update "stale" waiting)
        ≡ noteless (ok (Letter.push_failed_letter "stale" 200 waiting, tt)))
    × (noteless (dead_update "stale" waiting)
        ≡ noteless (ok (Letter.dead_letter "stale" 200 waiting, tt)))
updates_agree_example = updates_agree "done" "stale" 200 waiting

listed-IsWritable : IsWritable listed
listed-IsWritable = record { written = λ k m db. (put_entry k (some m) db, refl) }

abbrev in_flight : Message
in_flight = record waiting { attempts = 1; last_push_at = some 200; status = pushing }

-- The tree in which the first claim has won.
abbrev claimed : List (String × Option Message)
claimed = put_entry (key "bob" waiting) (some in_flight) disk.db

first_claim :
    update_one listed "bob" "m-1" (claim_update 200) disk.db ≡ ok ((in_flight, true), claimed)
unfolding update_one update_loop claim_update key put_entry padded filter apply
first_claim = refl

mark_pushing-race_example :
    (y : Message) × (u : List (String × Option Message)) × (late_update listed "bob" "m-1"
        (claim_update 201)
        disk.db
        claimed
      ≡ ok ((y, true), u))
mark_pushing-race_example =
    mark_pushing-race listed listed-IsWritable "bob" "m-1" 200 201 disk.db in_flight claimed
      first_claim

late_update-stale_example :
    (u : List (String × Option Message)) × (late_update listed "bob" "m-1"
        (claim_update 200)
        disk.db
        claimed
      ≡ ok ((in_flight, true), u))
    × (write_letter listed (key "bob" in_flight) in_flight claimed ≡ ok u)
late_update-stale_example =
    late_update-stale listed listed-IsWritable "bob" "m-1" (claim_update 200) disk.db claimed
      (in_flight, true) claimed first_claim
