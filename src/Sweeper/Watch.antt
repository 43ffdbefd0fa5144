-- ===== src/Sweeper/Watch.antt =====
-- sweeper.rs: `federation_watch_once`, the guard against letters that are stuck on authentication.
use hot_potato.Prelude.{
  ℕ, String, Bool, true, false, not, ◌&&◌, ◌||◌, Option, none, some, List, [], ◌∷◌, ◌++◌, filter,
  length, str_eq, str_le, before_first, after_first, lookup, if◌then◌else◌,
}
use hot_potato.Error.{BusResult, ok, err}
use hot_potato.Message.{Message, queued, status_eq, task, Time}
use hot_potato.Store.Interface.{BusStore}
use hot_potato.Bus.Defs
use hot_potato.Bus.Defs.{EventBus}
use hot_potato.Deliver.{
  PushTransport, PushOutcome, pushed, Registry, DeliverVia, a2a, register_tagged,
}
use hot_potato.Federation.{Peer}
use hot_potato.Memory.Letter.{is_auth_error}
use hot_potato.Sweeper.{Post, thread_context, dispatch_from, with_bus}
use hot_potato.Sweeper.Diagnose.{PoolReply, diagnose_peer}

-- The filter of the letters.
unfoldable pub is_auth_stuck : Message → Bool
is_auth_stuck l =
    status_eq l.status queued && elim l.last_error [ none ↦ false | some e ↦ is_auth_error e ]

-- A `BTreeSet` of texts, as the list of its elements in order.
unfoldable pub set_insert : String → List String → List String
set_insert x [] = x ∷ []
set_insert x (y ∷ ys) =
    let rest = set_insert x ys in
    if str_eq x y then y ∷ ys else if str_le x y then x ∷ y ∷ ys else y ∷ rest

unfoldable pub receivers_of : List Message → List String
receivers_of [] = []
receivers_of (l ∷ ls) = set_insert l.receiver (receivers_of ls)

-- `split("token=").nth(1)`, up to the next `&`.
unfoldable pub url_token : String → Option String
url_token url = elim (after_first "token=" url) [
  | none ↦ none
  | some rest ↦ some (before_first "&" (before_first "token=" rest))
]

or_else : Option String → Option String → Option String
or_else none other = other
or_else (some t) other = some t

-- The A2A url of an entry of the registry, and its token; any other entry has an empty url.
abbrev a2a_of : DeliverVia → String × Option String
a2a_of (a2a url token) = (url, token)
a2a_of via = ("", none)

-- `register_tagged` with the stored fields: `none` where there is no A2A url.
unfoldable pub rearm : String → Registry → Option Registry
unfolding or_else
rearm receiver registry = elim (lookup receiver registry) [
  | none ↦ none
  | some e ↦
      let via = a2a_of e.deliver_via in
      if str_eq via.0 ""
      then none
      else some
          (register_tagged receiver e.description (a2a via.0 (or_else via.1 (url_token via.0)))
            e.tags registry).1
]

-- The state that the guard reads and writes. `notified` is the static flag.
pub record Watched (B : BusStore) (T : PushTransport) : Type 0 where
  pub post : Post B T
  pub registry : Registry
  pub notified : Bool

-- The texts that it prints: a line on a peer, and the summary of the letters and receivers.
pub record Texts : Type 0 where
  pub peer_line : Peer → Bool → String → String
  pub summary : ℕ → ℕ → List String → String

abbrev or_question : Option String → String
or_question none = "?"
or_question (some s) = s

-- The loop over the peers.
unfoldable pub peer_lines : (Peer → String → PoolReply) → Texts → String → List Peer → List String
peer_lines post texts me [] = []
peer_lines post texts me (peer ∷ peers) =
    let d = diagnose_peer post peer me in
    let probe = or_question d.our_token_probe in
    let rest = peer_lines post texts me peers in
    if not d.bus_reachable || not (str_eq probe "ok")
    then texts.peer_line peer d.bus_reachable probe ∷ rest
    else rest

module _ (B : BusStore) (T : PushTransport) where
  unfoldable pub emit_marked : BusResult Message × EventBus B → Post B T → Post B T
  emit_marked (ok m, b) p = record p { bus = b; events = p.events ++ (("delivered", m) ∷ []) }
  emit_marked (err e, b) p = with_bus B T b p

  unfoldable pub mark_pushed : String → String → Time → PushOutcome → Post B T → Post B T
  mark_pushed receiver id now pushed p = emit_marked (Defs.mark_delivered B receiver id now p.bus) p
  mark_pushed receiver id now outcome p = p

  -- The loop over the letters of a receiver: dispatched without a claim.
  unfoldable pub push_queued :
      Registry → List Message → String → Time → List Message → Post B T → Post B T
  unfolding mark_pushed emit_marked
  push_queued registry all receiver now [] p = p
  push_queued registry all receiver now (l ∷ ls) p =
      let sent =
        dispatch_from B T registry receiver
          (record { letter = l; context_id = some (thread_context all l.id) }) p in
      push_queued registry all receiver now ls (mark_pushed receiver l.id now sent.0 sent.1)

  unfoldable pub push_peeked :
      Registry → List Message → String → Time → BusResult (List Message) → Post B T → Post B T
  push_peeked registry all receiver now (err e) p = p
  push_peeked registry all receiver now (ok letters) p =
      push_queued registry all receiver now letters p

  unfoldable pub rearmed :
      List Message → String → Time → Option Registry → Watched B T → Watched B T
  rearmed all receiver now none w = w
  rearmed all receiver now (some registry) w =
      let bus = (Defs.revive_auth_dead B receiver now w.post.bus).1 in
      let p = with_bus B T bus w.post in
      record w {
        registry = registry;
        post = push_peeked registry all receiver now (Defs.peek B receiver bus) p;
      }

  -- One receiver: re-registered, its letters revived and pushed again.
  unfoldable pub heal : List Message → String → Time → Watched B T → Watched B T
  unfolding rearmed push_peeked
  heal all receiver now w = rearmed all receiver now (rearm receiver w.registry) w

  unfoldable pub heal_loop : List Message → Time → List String → Watched B T → Watched B T
  heal_loop all now [] w = w
  heal_loop all now (r ∷ rs) w = heal_loop all now rs (heal all r now w)

  -- The notice to the project manager, unless there was one in this episode.
  unfoldable pub notify : String → Time → String → Watched B T → Watched B T
  notify uuid now text w =
      let sent =
        Defs.send B uuid now "hot-potato" "patricia" task
          "[bus] push auth failures auto-handled — evidence inside" text none w.post.bus in
      if w.notified then w else record w { notified = true; post = with_bus B T sent.1 w.post }

  unfoldable pub watch_stuck :
      (Peer → String → PoolReply)
      → Texts
      → List Peer
      → String
      → String
      → Time
      → List Message
      → List Message
      → Watched B T
      → Watched B T
  watch_stuck post texts peers me uuid now all [] w = record w { notified = false }
  watch_stuck post texts peers me uuid now all (l ∷ ls) w =
      let receivers = receivers_of (l ∷ ls) in
      notify uuid now
        (texts.summary (length (l ∷ ls)) (length receivers) (peer_lines post texts me peers))
        (heal_loop all now receivers w)

  unfoldable pub watch_all :
      (Peer → String → PoolReply)
      → Texts
      → List Peer
      → String
      → String
      → Time
      → BusResult (List Message)
      → Watched B T
      → Watched B T
  watch_all post texts peers me uuid now (err e) w = w
  watch_all post texts peers me uuid now (ok all) w =
      watch_stuck post texts peers me uuid now all (filter is_auth_stuck all) w

  -- `federation_watch_once`.
  unfoldable pub watch_once :
      (Peer → String → PoolReply)
      → Texts
      → List Peer
      → String
      → String
      → Time
      → Watched B T
      → Watched B T
  unfolding watch_all watch_stuck
  watch_once post texts peers me uuid now w =
      watch_all post texts peers me uuid now (Defs.list_all B w.post.bus) w
