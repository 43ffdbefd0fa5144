-- ===== src/Sweeper.antt =====
-- sweeper.rs: the backoff window and one sweep over the queue.
pub mod Backoff
pub mod Trace
pub mod Diagnose
pub mod Watch
pub mod Keeps
pub mod Traffic
pub mod Exclusion
pub mod Claims
use Prim.Native.String.{◌++◌ as str_append}
use hot_potato.Prelude.{
  ℕ, zero, suc, ◌+◌, ◌-◌, ◌*◌, ◌/◌, ◌%◌, ◌^◌, min, max, String, Bool, true, false, not, ◌&&◌, ◌||◌,
  Option, none, some, List, [], ◌∷◌, ◌++◌, ltb, ◌==◌, filter, if◌then◌else◌,
}
use hot_potato.Error.{BusResult, ok, err}
use hot_potato.Message.{Message, queued, pushing, dead, status_eq, Time, thread_root_id}
use hot_potato.State.{pushing_timeout_secs}
use hot_potato.Store.Interface.{BusStore}
use hot_potato.Bus.Defs
use hot_potato.Bus.Defs.{EventBus}
use hot_potato.Deliver.{
  PushTransport, PushLetter, PushOutcome, pushed, failed, skipped, Registry, dispatch_push,
}

abbrev pub nanos : ℕ
nanos = 1000000000

-- `MIN_BACKOFF`. A `Duration` is in nanoseconds.
abbrev pub sweep_backoff : ℕ
sweep_backoff = 60 * nanos

-- `u64::ilog2`: 64 rounds are enough for a `u64`.
pub ilog2_loop : ℕ → ℕ → ℕ
ilog2_loop zero n = 0
ilog2_loop (suc f) n = let rest = ilog2_loop f (n / 2) in if ltb n 2 then 0 else suc rest

-- `checked_ilog2().unwrap_or(0)`.
pub ilog2_or_zero : ℕ → ℕ
unfolding ilog2_loop
ilog2_or_zero n = ilog2_loop 64 n

-- `retry_window`. The shift of a `u64` loses what leaves it.
unfoldable pub retry_window : ℕ → ℕ → ℕ
retry_window age min_backoff =
    let step = max (min_backoff / nanos) 1 in
    let attempts = min (ilog2_or_zero (age / nanos / step)) 5 in
    step * 2 ^ attempts % 2 ^ 64 * nanos

abbrev pub or_time : Option Time → Time → Time
or_time none t = t
or_time (some t) d = t

-- What a sweep, or a push on arrival, reads and writes: the bus, what lies behind the transport,
-- and the events that the hub has sent to its observers.
pub record Post (B : BusStore) (T : PushTransport) : Type 0 where
  pub bus : EventBus B
  pub world : T.World
  pub events : List (String × Message)

-- `format!("bus-t-{}", thread_root_id(..))`.
abbrev pub thread_context : List Message → String → String
thread_context all id = str_append "bus-t-" (thread_root_id all id)

-- `.unwrap_or(false)`.
abbrev pub is_ok_true : BusResult Bool → Bool
is_ok_true (ok b) = b
is_ok_true (err e) = false

-- The gate of the second loop.
unfoldable pub is_due : ℕ → Time → Message → Bool
unfolding retry_window
is_due min_backoff now l =
    let age = now - l.created_at in
    not (ltb 0 min_backoff && ltb age (retry_window age min_backoff))

module _ (B : BusStore) (T : PushTransport) where
  abbrev pub with_bus : EventBus B → Post B T → Post B T
  with_bus b p = record p { bus = b }

  -- `if let Ok(m) = bus.push_succeeded(..) { hub.emit("delivered", &m); … }`: with the count.
  emit_delivered : BusResult Message × EventBus B → Post B T → Post B T × ℕ
  emit_delivered (ok m, b) p =
      (record p { bus = b; events = p.events ++ (("delivered", m) ∷ []) }, 1)
  emit_delivered (err e, b) p = (with_bus b p, 0)

  -- The arms on the outcome of a push, which `push_on_arrival` shares with the sweep.
  unfoldable pub settle_push : String → String → Time → PushOutcome → Post B T → Post B T × ℕ
  unfolding emit_delivered
  settle_push receiver id now pushed p =
      emit_delivered (Defs.push_succeeded B receiver id now p.bus) p
  settle_push receiver id now (failed error) p =
      (with_bus (Defs.push_failed B receiver id error now p.bus).1 p, 0)
  settle_push receiver id now (skipped reason) p =
      (with_bus (Defs.reclaim_stale_pushing B receiver id reason now p.bus).1 p, 0)

  -- `dispatch_push`, with what lies behind the transport kept.
  unfoldable pub dispatch_from : Registry → String → PushLetter → Post B T → PushOutcome × Post B T
  dispatch_from registry receiver letter p =
      let sent = dispatch_push T registry receiver letter p.world in
      (sent.0, record p { world = sent.1 })

  -- The first loop: a letter that has been in flight for longer than the window is reclaimed.
  -- `stale_text` prints the reason from the number of seconds.
  unfoldable pub reclaim_loop : (ℕ → String) → Time → List Message → EventBus B → EventBus B
  reclaim_loop stale_text now [] bus = bus
  reclaim_loop stale_text now (l ∷ ls) bus =
      let stale_for = (now - or_time l.last_push_at l.created_at) / nanos in
      reclaim_loop stale_text now ls (
        if status_eq l.status pushing && ltb pushing_timeout_secs stale_for
        then (Defs.reclaim_stale_pushing B l.receiver l.id (stale_text stale_for) now bus).1
        else bus)

  -- One letter of the second loop: claim, dispatch, settle.
  unfoldable pub sweep_letter : Registry → List Message → Time → Message → Post B T → Post B T × ℕ
  unfolding settle_push dispatch_from
  sweep_letter registry all now l p =
      let claimed = Defs.claim_push B l.receiver l.id now p.bus in
      let p1 = with_bus claimed.1 p in
      let sent =
        dispatch_from registry l.receiver
          (record { letter = l; context_id = some (thread_context all l.id) }) p1 in
      if is_ok_true claimed.0 then settle_push l.receiver l.id now sent.0 sent.1 else (p1, 0)

  unfoldable pub sweep_loop :
      Registry → ℕ → List Message → Time → List Message → Post B T → Post B T × ℕ
  sweep_loop registry min_backoff all now [] p = (p, 0)
  sweep_loop registry min_backoff all now (l ∷ ls) p =
      let step : Post B T × ℕ =
        if status_eq l.status queued && is_due min_backoff now l
        then sweep_letter registry all now l p
        else (p, 0) in
      let rest = sweep_loop registry min_backoff all now ls step.0 in (rest.0, step.1 + rest.1)

  second_loop : Registry → ℕ → Time → BusResult (List Message) → Post B T → Post B T × ℕ
  second_loop registry min_backoff now (err e) p = (p, 0)
  second_loop registry min_backoff now (ok all) p = sweep_loop registry min_backoff all now all p

  first_loop :
      (ℕ → String) → Registry → ℕ → Time → BusResult (List Message) → Post B T → Post B T × ℕ
  first_loop stale_text registry min_backoff now (err e) p = (p, 0)
  first_loop stale_text registry min_backoff now (ok all) p =
      let p1 = with_bus (reclaim_loop stale_text now all p.bus) p in
      second_loop registry min_backoff now (Defs.list_all B p1.bus) p1

  -- `sweep_once`. The clock stands still during the sweep, and nothing else runs in between.
  unfoldable pub sweep_once : (ℕ → String) → Registry → ℕ → Time → Post B T → Post B T × ℕ
  unfolding first_loop second_loop
  sweep_once stale_text registry min_backoff now p =
      first_loop stale_text registry min_backoff now (Defs.list_all B p.bus) p
