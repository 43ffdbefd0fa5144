-- ===== src/Witnesses/Fixtures.antt =====
-- Letters, stores, registries and a transport for the examples.
use hot_potato.Prelude.{◌≡◌, refl, Bool, true, false, eq_iff, arith, ℕ, String, none, some, [], ◌∷◌}
use hot_potato.Error.{ok}
use hot_potato.Message.{Message, MessageStatus, queued, acked, task, Time}
use hot_potato.Memory.Defs.{MemoryStore}
use hot_potato.Memory.Lifting.{Holds}
use hot_potato.Memory.Sound.{IsFiled}
use hot_potato.Memory.Backend.{memory_backend}
use hot_potato.Bus.Defs.{EventBus, pm, worker}
use hot_potato.Deliver.{Registry, PushTransport, webhook}
use hot_potato.Federation.{Peer}
use hot_potato.Sweeper.{Post}

-- A letter from "ann" to "bob".
abbrev pub letter : String → Time → MessageStatus → Message
letter id created_at status = record {
  id = id;
  sender = "ann";
  receiver = "bob";
  msg_type = task;
  subject = "hello";
  body = "text";
  ref = none;
  status = status;
  created_at = created_at;
  delivered_at = none;
  read_at = none;
  acked_at = none;
  ack_note = none;
  hops = 0;
  forwarded_from = none;
  attempts = 0;
  last_push_at = none;
  last_error = none;
  dead_reason = none;
}

abbrev pub waiting : Message
waiting = letter "m-1" 100 queued

-- An acked letter with its receipts.
abbrev pub done : Message
done = record (letter "m-2" 50 acked) {
  delivered_at = some 60;
  read_at = some 70;
  acked_at = some 80;
  ack_note = some "thanks";
}

abbrev pub store : MemoryStore
store = record { mailboxes = ("bob", done ∷ waiting ∷ []) ∷ []; agents = "bob" ∷ []; capacity = 4 }

abbrev pub bus : EventBus memory_backend
bus = record { store = store; roles = ("ann", pm) ∷ ("bob", worker) ∷ [] }

abbrev pub registry : Registry
registry =
    (
      "bob",
      record {
        agent = "bob";
        description = "worker";
        deliver_via = webhook "http://bob";
        tags = "tag" ∷ [];
      },
    )
    ∷ []

-- A transport that always succeeds.
abbrev pub counting : PushTransport
counting = record { World = ℕ; push = λ via letter n. (ok tt, n) }

abbrev pub post : Post memory_backend counting
post = record { bus = bus; world = 0; events = [] }

abbrev pub fleet : Peer
fleet = record { name = "fleet"; url = "http://fleet"; token = "t"; agents = "carol" ∷ [] }

abbrev pub depot : Peer
depot = record { name = "depot"; url = "http://depot"; token = ""; agents = "dave" ∷ "carol" ∷ [] }

false≢true : ◌≡◌ {A = Bool} false true → ⊥
false≢true h = cc

waiting-IsFiled : IsFiled done "bob" waiting
waiting-IsFiled same = absurd (false≢true ((eq_iff "m-1" "m-2").1 same))

done-IsFiled : IsFiled done "bob" done
done-IsFiled same = record {
  status = refl;
  delivered_at = refl;
  read_at = refl;
  acked_at = refl;
  ack_note = refl;
}

-- The store has the receipts of the acked letter.
pub store-IsFiled : Holds (IsFiled done) store
store-IsFiled = (((done-IsFiled, (waiting-IsFiled, tt)), omega arith), tt)
