-- ===== src/Server/Arrival.antt =====
-- A push on arrival that succeeds leaves the letter in the queue.
use hot_potato.Prelude.{◌≡◌, refl, String, true, some, List, [], ◌∷◌, ◌++◌, arith, find, lookup}
use hot_potato.Error.{ok}
use hot_potato.Message.{Message, queued, status_eq, Time}
use hot_potato.State.{push_ok}
use hot_potato.State.Table.{apply-eq-verdict}
use hot_potato.Memory.Letter.{push_ok_letter}
use hot_potato.Memory.Defs.{mark_push_ok, peek, cloned}
use hot_potato.Memory.Backend.{memory_backend}
use hot_potato.Memory.Single.{has_id}
use hot_potato.Memory.Found.{find-filter, with_letter-fixed}
use hot_potato.Bus.Defs
use hot_potato.Bus.Defs.{EventBus}
use hot_potato.Deliver.{PushTransport, PushLetter, PushOutcome, Registry, dispatch_push, pushed}
use hot_potato.Sweeper.{Post, dispatch_from, settle_push}
use hot_potato.Server.{push_on_arrival, push_found, find_letter}

push_ok_letter_queued : (now : Time) (m : Message) → m.status ≡ queued → push_ok_letter now m ≡ m
unfolding push_ok_letter
push_ok_letter_queued now m h = ground (arith, apply-eq-verdict m.status push_ok)

module _ (T : PushTransport) (registry : Registry) (id receiver : String) (now : Time)
    (p : Post memory_backend T) (box : List Message) (l : Message) where
  peek_finds :
      Defs.is_registered memory_backend p.bus receiver ≡ true
      → lookup receiver p.bus.store.mailboxes ≡ some box
      → find (has_id id) box ≡ some l
      → l.status ≡ queued
      → find_letter id (Defs.peek memory_backend receiver p.bus) ≡ some l
  unfolding Defs.peek Defs.is_registered Defs.ensure_registered peek
  peek_finds reg e found q =
      rw (reg, e) (find-filter (has_id id) (λ m. status_eq m.status queued) box found (rw q refl))

  settle_pushed :
      (w : T.World)
      → lookup receiver p.bus.store.mailboxes ≡ some box
      → find (has_id id) box ≡ some l
      → l.status ≡ queued
      → settle_push memory_backend T receiver id now pushed (record p { world = w })
        ≡ (record p { world = w; events = p.events ++ (("delivered", l) ∷ []) }, 1)
  unfolding settle_push Defs.push_succeeded mark_push_ok
  settle_pushed w e found q =
      rw
        (with_letter-fixed receiver id (cloned (push_ok_letter now)) p.bus.store box l (ok l) e
          found (rw (push_ok_letter_queued now l q) refl))
        refl

  settle_outcome :
      (o : PushOutcome) (w : T.World)
      → o ≡ pushed
      → lookup receiver p.bus.store.mailboxes ≡ some box
      → find (has_id id) box ≡ some l
      → l.status ≡ queued
      → let after = (settle_push memory_backend T receiver id now o (record p { world = w })).0 in
        (after.bus ≡ p.bus) × (after.events ≡ p.events ++ (("delivered", l) ∷ []))
  settle_outcome o w same e found q = rw same (rw (settle_pushed w e found q) (refl, refl))

  found_then_pushed :
      lookup receiver p.bus.store.mailboxes ≡ some box
      → find (has_id id) box ≡ some l
      → l.status ≡ queued
      → ((letter : PushLetter) (w : T.World)
          → (dispatch_push T registry receiver letter w).0 ≡ pushed)
      → let after = push_found memory_backend T registry id receiver now (some l) p in
        (after.bus ≡ p.bus) × (after.events ≡ p.events ++ (("delivered", l) ∷ []))
  unfolding push_found dispatch_from
  found_then_pushed e found q accepts = settle_outcome _ _ (accepts _ _) e found q

  -- Suppose that the receiver is registered, that the first letter with the id in its mailbox is
  -- queued, and that every push to the receiver succeeds. Then a push on arrival changes nothing in
  -- the bus: the letter stays queued, to be pushed again by a sweep; and the hub announces it as
  -- delivered.
  pub push_on_arrival-stays_queued :
      Defs.is_registered memory_backend p.bus receiver ≡ true
      → lookup receiver p.bus.store.mailboxes ≡ some box
      → find (has_id id) box ≡ some l
      → l.status ≡ queued
      → ((letter : PushLetter) (w : T.World)
          → (dispatch_push T registry receiver letter w).0 ≡ pushed)
      → ((push_on_arrival memory_backend T registry id receiver now p).bus ≡ p.bus)
        × ((push_on_arrival memory_backend T registry id receiver now p).events
            ≡ p.events ++ (("delivered", l) ∷ []))
  unfolding push_on_arrival dispatch_from
  push_on_arrival-stays_queued reg e found q accepts =
      rw (peek_finds reg e found q, push_on_arrival) (found_then_pushed e found q accepts)
