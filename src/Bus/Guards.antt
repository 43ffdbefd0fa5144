-- ===== src/Bus/Guards.antt =====
-- The guards of the bus, over any backend.
use mathlib.Core.Path.{ap₂}
use hot_potato.Prelude.{
  ◌≡◌, ◌≢◌, sym, inl, inr, ◌↔◌, String, true, Option, none, some, List, [], ◌∷◌, arith, not,
  is_some, ◌&&◌, filter, map, str_eq, Bool-cases, ◌∙◌, if◌then◌else◌, lookup-insert, lookup-remove,
}
use hot_potato.Error.{is_ok, ok, Result-cases, ok_inj, err≢ok}
use hot_potato.Message.{MsgType, new_message, reply, broadcast as broadcast_type, Time}
use hot_potato.Store.Interface.{BusStore}
use hot_potato.Bus.Defs.{
  EventBus, Role, pm, is_registered, role_of, send_guard, send_envelope, send, broadcast_loop,
  broadcast, register, unregister,
}

module _ (B : BusStore) where
  -- The checks of `send` pass exactly if the sender is registered, a broadcast comes from a PM, a
  -- reply names its parent, and any other letter than a broadcast has a registered receiver.
  pub send_guard-ok_iff :
      (bus : EventBus B) (sender receiver : String) (kind : MsgType) (ref : Option String)
      → (send_guard B bus sender receiver kind ref ≡ ok tt) ↔ (
          (is_registered B bus sender ≡ true)
          × (kind ≡ broadcast_type → role_of B bus sender ≡ some pm)
          × (kind ≡ reply → is_some ref ≡ true)
          × (kind ≢ broadcast_type → is_registered B bus receiver ≡ true))
  unfolding send_guard is_registered
  send_guard-ok_iff bus sender receiver kind ref = (λ h. ground arith, λ h. ground arith)

  -- After a registration the agent has the role if the store took it, and after a removal none;
  -- no other agent's role changes, and if the store fails no role does.
  pub register-roles :
      (agent other : String) (role : Role) (bus : EventBus B)
      → (role_of B (register B agent role bus).1 other ≡ (
          if is_ok (register B agent role bus).0 && str_eq agent other
          then some role
          else role_of B bus other))
        × (role_of B (unregister B agent bus).1 other ≡ (
            if is_ok (unregister B agent bus).0 && str_eq agent other
            then none
            else role_of B bus other))
  unfolding register unregister role_of
  register-roles agent other role bus = (
    ground (arith, lookup-insert agent other role bus.roles),
    ground (arith, lookup-remove agent other bus.roles),
  )

  send-id :
      (uuid : String) (now : Time) (sender receiver : String) (kind : MsgType)
      (subject body : String) (ref : Option String) (bus : EventBus B) {id : String}
      → (send B uuid now sender receiver kind subject body ref bus).0 ≡ ok id
      → id ≡ uuid
  unfolding send send_envelope new_message
  send-id uuid now sender receiver kind subject body ref bus h = ground arith

  broadcast_loop-ids :
      (fresh : String → String) (now : Time) (sender subject body : String) (agents : List String)
      (bus : EventBus B) (ids : List String)
      → (broadcast_loop B fresh now sender subject body agents bus).0 ≡ ok ids
      → ids ≡ map fresh (filter (λ a. not (str_eq a sender)) agents)
  unfolding broadcast_loop filter
  broadcast_loop-ids fresh now sender subject body [] bus ids h = ground arith
  broadcast_loop-ids fresh now sender subject body (a ∷ rest) bus ids h =
      let sent = send B (fresh a) now sender a broadcast_type subject body none bus in
      elim (Bool-cases (str_eq a sender)) [
        | inl t ↦ rw t (broadcast_loop-ids fresh now sender subject body rest bus ids (rw t at h))
        | inr f ↦ elim (Result-cases sent.0) [
          | inr (e, refused) ↦ absurd (err≢ok (rw (f, refused, broadcast_loop) at h))
          | inl (id, accepted) ↦
              let joined = rw (f, accepted, broadcast_loop) at h in
              elim (Result-cases (broadcast_loop B fresh now sender subject body rest sent.1).0) [
                | inr (e, refused) ↦ absurd (err≢ok (rw refused at joined))
                | inl (others, went) ↦ rw f (
                    sym (ok_inj (rw went at joined))
                    ∙ ap₂ (λ x xs. x ∷ xs)
                        (send-id (fresh a) now sender a broadcast_type subject body none bus
                          accepted)
                        (broadcast_loop-ids fresh now sender subject body rest sent.1 others went))
              ]
        ]
      ]

  -- The ids of a broadcast that succeeds are those of one copy for each agent of the store but the
  -- sender, in the order of the agents.
  pub broadcast-ids :
      (fresh : String → String) (now : Time) (sender subject body : String) (bus : EventBus B)
      (agents ids : List String)
      → B.agents bus.store ≡ ok agents
      → (broadcast B fresh now sender subject body bus).0 ≡ ok ids
      → ids ≡ map fresh (filter (λ a. not (str_eq a sender)) agents)
  unfolding broadcast
  broadcast-ids fresh now sender subject body bus agents ids e h =
      broadcast_loop-ids fresh now sender subject body agents bus ids (rw (e, broadcast) at h)
