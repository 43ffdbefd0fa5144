-- ===== src/Bus/Delivery.antt =====
-- bus.rs over store/memory.rs: where an accepted letter goes.
use hot_potato.Prelude.{
  any, eq_refl, any-append, arith, sym, ◌∙◌, true, ℕ, leb, String, ◌≡◌, refl, ap, inl, inr, List,
  [], ◌∷◌, ◌++◌, Option, str_eq, length, lookup, insert, lookup-insert, if◌then◌else◌, Bool-cases,
  eq_iff,
}
use hot_potato.Error.{ok, err, mailbox_full, Result-cases, err≢ok, ok_inj}
use hot_potato.Memory.NoLoss.{has_letter, has_id}
use hot_potato.Message.{Message, MsgType, Time, new_message}
use hot_potato.Store.{or_default}
use hot_potato.Memory.Defs.{MemoryStore, push}
use hot_potato.Memory.Backend.{memory_backend}
use hot_potato.Bus.Defs.{EventBus, send_guard, send_envelope}

-- The mailbox of an agent, empty where there is none.
abbrev pub box_of : String → MemoryStore → List Message
box_of agent s = or_default (lookup agent s.mailboxes)

box-insert :
    (k other : String) (box : List Message) (s : MemoryStore)
    → or_default (lookup other (insert k box s.mailboxes))
      ≡ (if str_eq k other then box else box_of other s)
box-insert k other box s =
    rw (lookup-insert k other box s.mailboxes)
      (elim (Bool-cases (str_eq k other)) [ inl e ↦ rw e refl | inr e ↦ rw e refl ])

box-insert_same :
    (k other : String) (s : MemoryStore)
    → or_default (lookup other (insert k (box_of k s) s.mailboxes)) ≡ box_of other s
box-insert_same k other s =
    rw (box-insert k other (box_of k s) s) (elim (Bool-cases (str_eq k other)) [
      | inl e ↦ rw e (ap (λ a. box_of a s) ((eq_iff k other).0 e))
      | inr e ↦ rw e refl
    ])

module _ (uuid : String) (now : Time) (sender receiver : String) (kind : MsgType)
    (subject body : String) (ref : Option String) (hops : ℕ) (forwarded_from : Option String)
    (bus : EventBus memory_backend) where
  -- The letter that the bus stamps.
  abbrev pub stamped : Message
  stamped = record (new_message uuid now sender receiver kind subject body ref) {
    hops = hops;
    forwarded_from = forwarded_from;
  }

  -- A letter that passes the checks of `send` is put at the end of its receiver's mailbox if that
  -- has room, and the caller gets its id; if it has none, the caller gets `MailboxFull`, and every
  -- mailbox has the letters it had. In both cases no other mailbox and no role changes.
  pub send_envelope-box_of :
      send_guard memory_backend bus sender receiver kind ref ≡ ok tt
      → let sent =
          send_envelope memory_backend uuid now sender receiver kind subject body ref hops
            forwarded_from bus in
        let full = leb bus.store.capacity (length (box_of receiver bus.store)) in
        (sent.0 ≡ (if full then err (mailbox_full receiver bus.store.capacity) else ok uuid))
        × ((other : String)
            → box_of other sent.1.store ≡ (
                if full
                then box_of other bus.store
                else if str_eq receiver other
                then box_of receiver bus.store ++ stamped ∷ []
                else box_of other bus.store))
        × (sent.1.roles ≡ bus.roles)
  unfolding send_envelope push new_message
  send_envelope-box_of guard =
      rw guard (elim (Bool-cases (leb bus.store.capacity (length (box_of receiver bus.store)))) [
        | inl e ↦ rw e (refl, λ other. box-insert_same receiver other bus.store, refl)
        | inr e ↦ rw e (
          refl,
          λ other. box-insert receiver other (box_of receiver bus.store ++ stamped ∷ []) bus.store,
          refl,
        )
      ])

-- A letter that the bus has accepted is in its receiver's mailbox.
pub send_envelope-has_letter :
    (uuid : String) (now : Time) (sender receiver : String) (kind : MsgType) (subject body : String)
    (ref : Option String) (hops : ℕ) (from : Option String) (bus : EventBus memory_backend)
    (id : String)
    → let sent =
        send_envelope memory_backend uuid now sender receiver kind subject body ref hops from bus in
      sent.0 ≡ ok id → has_letter receiver id sent.1.store ≡ true
unfolding any send_envelope lookup new_message
send_envelope-has_letter uuid now sender receiver kind subject body ref hops from bus id accepted =
    elim (Result-cases (send_guard memory_backend bus sender receiver kind ref)) [
      | inr (x, e) ↦ absurd (err≢ok (rw e at accepted))
      | inl (u, e) ↦
          let (answer, boxes, roles) =
            send_envelope-box_of uuid now sender receiver kind subject body ref hops from bus e in
          elim (Bool-cases (leb bus.store.capacity (length (box_of receiver bus.store)))) [
            | inl full ↦ absurd (err≢ok (sym (rw full at answer) ∙ accepted))
            | inr space ↦
                let same : uuid ≡ id = ok_inj (sym (rw space at answer) ∙ accepted) in
                ap (any (has_id id)) (boxes receiver)
                ∙ rw (space, eq_refl receiver)
                    (any-append (has_id id) (box_of receiver bus.store)
                        (stamped uuid now sender receiver kind subject body ref hops from bus ∷ [])
                      ∙ rw ((eq_iff uuid id).1 same) (ground arith))
          ]
    ]
