-- ===== src/Bus/Defs.antt =====
-- bus.rs: `EventBus` over a backend `B`.
use Prim.Native.String.{◌++◌ as str_append}
use hot_potato.Prelude.{
  ℕ, ◌-◌, ◌^◌, ◌==◌, String, Bool, true, false, not, ◌&&◌, Option, none, some, List, [], ◌∷◌,
  str_eq, is_some, Assoc, lookup, insert, remove, if◌then◌else◌,
}
use hot_potato.Error.{BusResult, ok, err, unknown_agent, storage, ◌>>◌, ◌>>=◌}
use hot_potato.Message.{
  Message, MsgType, reply, broadcast as broadcast_type, msg_type_eq, new_message, Time,
}
use hot_potato.Store.Interface.{BusStore}

pub data Role : Type 0 where
  pm worker : Role

-- `role != Some(Role::Pm)`.
abbrev pub is_pm : Option Role → Bool
is_pm (some pm) = true
is_pm _ = false

pub record EventBus (B : BusStore) : Type 0 where
  pub store : B.State
  pub roles : Assoc Role

module _ (B : BusStore) where
  -- A call of the store: the bus keeps its roles.
  abbrev pub on_store :
      {A : Type 0} → (B.State → BusResult A × B.State) → EventBus B → BusResult A × EventBus B
  on_store op bus = ((op bus.store).0, record bus { store = (op bus.store).1 })

  unfoldable pub ensure_registered : EventBus B → String → BusResult (Unit {0})
  ensure_registered bus agent =
      if is_some (lookup agent bus.roles) then ok tt else err (unknown_agent agent)

  unfoldable pub is_registered : EventBus B → String → Bool
  is_registered bus agent = is_some (lookup agent bus.roles)

  unfoldable pub role_of : EventBus B → String → Option Role
  role_of bus agent = lookup agent bus.roles

  -- `guard?; op`.
  abbrev pub after_guard :
      {A : Type 0}
      → BusResult (Unit {0})
      → (EventBus B → BusResult A × EventBus B)
      → EventBus B
      → BusResult A × EventBus B
  after_guard (ok _) op bus = op bus
  after_guard (err e) op bus = (err e, bus)

  unfoldable pub new_bus : B.State → EventBus B
  new_bus store = record { store = store; roles = [] }

  unfoldable pub set_role :
      String → Role → BusResult (Unit {0}) × EventBus B → BusResult (Unit {0}) × EventBus B
  set_role agent role (ok _, bus) = (ok tt, record bus { roles = insert agent role bus.roles })
  set_role agent role (err e, bus) = (err e, bus)

  unfoldable pub register : String → Role → EventBus B → BusResult (Unit {0}) × EventBus B
  unfolding set_role
  register agent role bus = set_role agent role (on_store (B.register agent) bus)

  unfoldable pub drop_role :
      String → BusResult (Unit {0}) × EventBus B → BusResult (Unit {0}) × EventBus B
  drop_role agent (ok _, bus) = (ok tt, record bus { roles = remove agent bus.roles })
  drop_role agent (err e, bus) = (err e, bus)

  unfoldable pub unregister : String → EventBus B → BusResult (Unit {0}) × EventBus B
  unfolding drop_role
  unregister agent bus = drop_role agent (on_store (B.unregister agent) bus)

  -- The checks at the head of `send_envelope`.
  unfoldable pub send_guard :
      EventBus B → String → String → MsgType → Option String → BusResult (Unit {0})
  unfolding ensure_registered role_of
  send_guard bus sender receiver kind ref =
      ensure_registered bus sender
      >> (if msg_type_eq kind broadcast_type && not (is_pm (role_of bus sender))
          then err (
              storage (
                str_append "`"
                  (str_append sender "` is not allowed to broadcast (PM role required)")))
          else ok tt)
      >> (if msg_type_eq kind reply && not (is_some ref)
          then err (storage "reply messages must carry `ref` (the parent id)")
          else ok tt)
      >> (if msg_type_eq kind broadcast_type then ok tt else ensure_registered bus receiver)

  -- The fresh id and the clock that `Message::new` reads come first.
  unfoldable pub send_envelope :
      String
      → Time
      → String
      → String
      → MsgType
      → String
      → String
      → Option String
      → ℕ
      → Option String
      → EventBus B
      → BusResult String × EventBus B
  send_envelope uuid now sender receiver kind subject body ref hops forwarded_from bus =
      let fresh = new_message uuid now sender receiver kind subject body ref in
      let msg = record fresh { hops = hops; forwarded_from = forwarded_from } in
      after_guard (send_guard bus sender receiver kind ref)
        (λ b. let pushed = on_store (B.push msg) b in (pushed.0 >> ok msg.id, pushed.1)) bus

  unfoldable pub send :
      String
      → Time
      → String
      → String
      → MsgType
      → String
      → String
      → Option String
      → EventBus B
      → BusResult String × EventBus B
  unfolding send_envelope
  send uuid now sender receiver kind subject body ref =
      send_envelope uuid now sender receiver kind subject body ref 0 none

  -- The loop of `broadcast`. `fresh` gives the id for the copy to each agent.
  unfoldable pub broadcast_loop :
      (String → String)
      → Time
      → String
      → String
      → String
      → List String
      → EventBus B
      → BusResult (List String) × EventBus B
  broadcast_loop fresh now sender subject body [] bus = (ok [], bus)
  broadcast_loop fresh now sender subject body (a ∷ rest) bus =
      let skip = broadcast_loop fresh now sender subject body rest bus in
      let sent = send (fresh a) now sender a broadcast_type subject body none bus in
      let others = broadcast_loop fresh now sender subject body rest sent.1 in
      if str_eq a sender then skip else elim sent.0 [
        | err e ↦ (err e, sent.1)
        | ok id ↦ (others.0 >>= λ ids. ok (id ∷ ids), others.1)
      ]

  unfoldable pub broadcast :
      (String → String)
      → Time
      → String
      → String
      → String
      → EventBus B
      → BusResult (List String) × EventBus B
  broadcast fresh now sender subject body bus = elim (B.agents bus.store) [
    | err e ↦ (err e, bus)
    | ok agents ↦ broadcast_loop fresh now sender subject body agents bus
  ]

  -- `usize::MAX` stands for no limit.
  unfoldable pub poll : String → ℕ → Time → EventBus B → BusResult (List Message) × EventBus B
  poll agent limit now bus =
      let limit' = if limit == 0 then 2 ^ 64 - 1 else limit in
      after_guard (ensure_registered bus agent) (on_store (B.poll agent limit' now)) bus

  unfoldable pub mark_delivered :
      String → String → Time → EventBus B → BusResult Message × EventBus B
  mark_delivered agent id now bus =
      after_guard (ensure_registered bus agent) (on_store (B.mark_delivered agent id now)) bus

  unfoldable pub claim_push : String → String → Time → EventBus B → BusResult Bool × EventBus B
  claim_push agent id now = on_store (B.mark_pushing agent id now)

  unfoldable pub push_succeeded :
      String → String → Time → EventBus B → BusResult Message × EventBus B
  push_succeeded agent id now = on_store (B.mark_push_ok agent id now)

  unfoldable pub push_failed :
      String → String → String → Time → EventBus B → BusResult Message × EventBus B
  push_failed agent id reason now = on_store (B.mark_push_failed agent id reason now)

  unfoldable pub reclaim_stale_pushing :
      String → String → String → Time → EventBus B → BusResult Message × EventBus B
  reclaim_stale_pushing agent id reason now = on_store (B.reclaim_stale_pushing agent id reason now)

  unfoldable pub revive_auth_dead :
      String → Time → EventBus B → BusResult (List Message) × EventBus B
  revive_auth_dead agent now = on_store (B.revive_auth_dead agent now)

  unfoldable pub mark_dead :
      String → String → String → Time → EventBus B → BusResult Message × EventBus B
  mark_dead agent id reason now bus =
      after_guard (ensure_registered bus agent) (on_store (B.mark_dead agent id reason now)) bus

  unfoldable pub mark_read : String → String → Time → EventBus B → BusResult Message × EventBus B
  mark_read agent id now bus =
      after_guard (ensure_registered bus agent) (on_store (B.mark_read agent id now)) bus

  unfoldable pub peek : String → EventBus B → BusResult (List Message)
  peek agent bus = ensure_registered bus agent >>= λ _. B.peek agent bus.store

  unfoldable pub ack : String → String → String → Time → EventBus B → BusResult Message × EventBus B
  ack agent id text now bus =
      after_guard (ensure_registered bus agent) (on_store (B.ack agent id text now)) bus

  unfoldable pub status : String → EventBus B → BusResult (List Message)
  status agent bus = ensure_registered bus agent >>= λ _. B.sent_by agent bus.store

  unfoldable pub archive : EventBus B → BusResult (List Message)
  archive bus = B.archive bus.store

  unfoldable pub delete_letter : String → EventBus B → BusResult Message × EventBus B
  delete_letter id = on_store (B.delete_one id)

  unfoldable pub delete_all_letters : EventBus B → BusResult ℕ × EventBus B
  delete_all_letters = on_store B.delete_all

  unfoldable pub list_all : EventBus B → BusResult (List Message)
  list_all bus = B.list_all bus.store
