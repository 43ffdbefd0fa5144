-- ===== src/Witnesses/Service.antt =====
-- The bus, the registry, the transports, the sweep and the push on arrival at concrete inputs.
use hot_potato.Prelude.{
  ℕ, ◌≤◌, ◌^◌, ◌*◌, ◌≡◌, ◌⊎◌, ◌≢◌, ◌↔◌, refl, true, false, none, some, List, [], ◌∷◌, ◌++◌, any,
  filter, find, str_eq, lookup, length, drop, ◌-◌, ◌==◌, leb, if◌then◌else◌, arith, String,
}
use hot_potato.Error.{ok, err, mailbox_full}
use hot_potato.Message.{Message, queued, task, reply, broadcast as broadcast_type, new_message}
use hot_potato.Memory.Backend.{memory_backend}
use hot_potato.Memory.Lifting.{Holds}
use hot_potato.Memory.NoLoss.{has_letter}
use hot_potato.Memory.Sound.{IsFiled}
use hot_potato.Memory.Defs.{push, agents_of}
use hot_potato.Memory.Single.{has_id}
use hot_potato.Bus.Defs
use hot_potato.Bus.Defs.{
  pm, worker, is_registered, role_of, send_guard, send_envelope, broadcast, register, unregister,
  ensure_registered,
}
use hot_potato.Bus.Guards.{send_guard-ok_iff}
use hot_potato.Bus.Delivery.{box_of, stamped, send_envelope-box_of}
use hot_potato.Deliver.{PushLetter, pushed, dispatch_push, a2a}
use hot_potato.Deliver.Http.{timed_out, http_push, IsAccepted, http_push-IsAccepted}
use hot_potato.Sweeper.{nanos, sweep_backoff, retry_window, is_due, sweep_once}
use hot_potato.Sweeper.Backoff.{whole_secs, is_due-age}
use hot_potato.Sweeper.Trace.{IsDispatch, sweep_once-IsDispatch, sweep_once-keeps}
use hot_potato.Server.{push_on_arrival}
use hot_potato.Server.Journeys.{is_member, max_climb, RefChain, is_member-RefChain}
use hot_potato.Server.Listing.{pos, Query, Fits, fits, list_letters, list_letters-fits}
use hot_potato.Server.Arrival.{push_on_arrival-stays_queued}
use hot_potato.Witnesses.Fixtures.{
  letter, waiting, done, store, bus, registry, counting, post, store-IsFiled,
}

send_guard-ok_iff_example :
    (send_guard memory_backend bus "ann" "bob" reply (some "m-1") ≡ ok tt) ↔ (
      (is_registered memory_backend bus "ann" ≡ true)
      × (reply ≡ broadcast_type → role_of memory_backend bus "ann" ≡ some pm)
      × (reply ≡ reply → true ≡ true)
      × (reply ≢ broadcast_type → is_registered memory_backend bus "bob" ≡ true))
send_guard-ok_iff_example = send_guard-ok_iff memory_backend bus "ann" "bob" reply (some "m-1")

guard_accepts : send_guard memory_backend bus "ann" "bob" task none ≡ ok tt
unfolding send_guard ensure_registered lookup role_of
guard_accepts = refl

send_envelope-box_of_example :
    let sent = send_envelope memory_backend "u-1" 200 "ann" "bob" task "s" "b" none 0 none bus in
    let full = leb 4 (length (box_of "bob" store)) in
    (sent.0 ≡ (if full then err (mailbox_full "bob" 4) else ok "u-1"))
    × ((other : String)
        → box_of other sent.1.store ≡ (
            if full
            then box_of other store
            else if str_eq "bob" other
            then box_of "bob" store
              ++ stamped "u-1" 200 "ann" "bob" task "s" "b" none 0 none bus ∷ []
            else box_of other store))
    × (sent.1.roles ≡ bus.roles)
send_envelope-box_of_example =
    send_envelope-box_of "u-1" 200 "ann" "bob" task "s" "b" none 0 none bus guard_accepts

eve_unknown : is_registered memory_backend bus "eve" ≡ false
unfolding is_registered lookup
eve_unknown = refl

http_push-IsAccepted_example :
    (http_push (a2a "http://eve" none) (timed_out "timeout") ≡ ok tt)
    ↔ IsAccepted (a2a "http://eve" none) (timed_out "timeout")
http_push-IsAccepted_example = http_push-IsAccepted (a2a "http://eve" none) (timed_out "timeout")

is_due-age_example :
    ((is_due sweep_backoff (10 ^ 12) waiting ≡ true)
      ↔ ((sweep_backoff ≡ 0) ⊎ (whole_secs sweep_backoff * nanos ≤ 10 ^ 12 - waiting.created_at)))
    × (retry_window (10 ^ 12 - waiting.created_at) sweep_backoff
        ≤ whole_secs sweep_backoff * 32 * nanos)
is_due-age_example = is_due-age sweep_backoff (10 ^ 12) waiting (omega arith)

sweep_once-IsDispatch_example :
    IsDispatch store
      (sweep_once memory_backend counting
        (λ n. "stale")
        registry
        sweep_backoff
        (10 ^ 12)
        post).0.bus.store
sweep_once-IsDispatch_example =
    sweep_once-IsDispatch counting (λ n. "stale") registry sweep_backoff (10 ^ 12) post

broadcast_succeeds :
    (broadcast memory_backend (λ a. "u-1") 200 "ann" "s" "b" bus).0 ≡ ok ("u-1" ∷ [])
unfolding broadcast Defs.broadcast_loop Defs.send send_envelope send_guard ensure_registered role_of
    lookup push agents_of new_message
broadcast_succeeds = refl

agents_are : memory_backend.agents bus.store ≡ ok ("bob" ∷ [])
unfolding agents_of
agents_are = refl

abbrev ids : List String
ids = "u-1" ∷ []

has_waiting : has_letter "bob" "m-1" store ≡ true
unfolding any lookup
has_waiting = refl

sweep_once-keeps_example :
    let swept =
      (sweep_once memory_backend counting
        (λ n. "stale")
        registry
        sweep_backoff
        (10 ^ 12)
        post).0.bus.store in
    (has_letter "bob" "m-1" swept ≡ true) × Holds (IsFiled done) swept
sweep_once-keeps_example =
    sweep_once-keeps counting (λ n. "stale") registry sweep_backoff (10 ^ 12) post "bob" "m-1" done
      has_waiting store-IsFiled

bob_known : is_registered memory_backend bus "bob" ≡ true
unfolding is_registered lookup
bob_known = refl

bob_box : lookup "bob" store.mailboxes ≡ some (done ∷ waiting ∷ [])
unfolding lookup
bob_box = refl

finds_waiting : find (has_id "m-1") (done ∷ waiting ∷ []) ≡ some waiting
unfolding find
finds_waiting = refl

always_pushed :
    (letter : PushLetter) (w : ℕ) → (dispatch_push counting registry "bob" letter w).0 ≡ pushed
unfolding dispatch_push lookup
always_pushed letter w = refl

push_on_arrival-stays_queued_example :
    ((push_on_arrival memory_backend counting registry "m-1" "bob" 200 post).bus ≡ bus)
    × ((push_on_arrival memory_backend counting registry "m-1" "bob" 200 post).events
        ≡ [] ++ (("delivered", waiting) ∷ []))
push_on_arrival-stays_queued_example =
    push_on_arrival-stays_queued counting registry "m-1" "bob" 200 post (done ∷ waiting ∷ [])
      waiting bob_known bob_box finds_waiting refl always_pushed

-- A query for the last letter to "bob".
abbrev for_bob : Query
for_bob = record {
  status = none;
  limit = 1;
  max_age_secs = some (pos 3600);
  max_hops = some 0;
  sender = none;
  receiver = some "bob";
}

list_letters-fits_example :
    let found = filter (fits (λ s. s) 200 for_bob) (done ∷ waiting ∷ []) in
    (list_letters (λ s. s) 200 for_bob (done ∷ waiting ∷ [])
      ≡ drop (if 1 == 0 then 0 else length found - 1) found)
    × ((m : Message) → (fits (λ s. s) 200 for_bob m ≡ true) ↔ Fits (λ s. s) 200 for_bob m)
list_letters-fits_example = list_letters-fits (λ s. s) 200 for_bob (done ∷ waiting ∷ [])

-- A reply to the waiting letter.
abbrev answer : Message
answer = record (letter "m-3" 120 queued) { ref = some "m-1" }

is_member-RefChain_example :
    (is_member (waiting ∷ answer ∷ []) "m-1" answer ≡ true)
    ↔ ((k : ℕ) × (k ≤ max_climb) × RefChain (waiting ∷ answer ∷ []) k "m-3" "m-1")
is_member-RefChain_example = is_member-RefChain (waiting ∷ answer ∷ []) "m-1" answer
