-- ===== src/Sled/Moves.antt =====
-- What an update on disk makes of a letter is what the state machine makes of it, on the event of the
-- call.
use hot_potato.Prelude.{ℕ, ◌≡◌, refl, ap, ◌∙◌, String, true, some, arith}
use hot_potato.Error.{ok, err, BusResult}
use hot_potato.Message.{Message, queued, delivered, status_eq, Time}
use hot_potato.State.{push_started, should_give_up}
use hot_potato.State.Table.{apply-eq-verdict}
use hot_potato.Memory.Letter
use hot_potato.Memory.Changes.{
  Change, deliver, claim, succeed, fail, revive, reclaim, bury, open_letter, file, event_of,
}
use hot_potato.Memory.Lives.{Moved, Change-Moved}
use hot_potato.Memory.Runs.{
  Call, poll, mark_delivered, mark_pushing, mark_push_ok, mark_push_failed, reclaim_stale_pushing,
  mark_dead, revive_auth_dead, mark_read, ack, Puts,
}
use hot_potato.Sled.Letter.{
  Update, deliver_update, claim_update, push_ok_update, push_failed_update, revive_update,
  reclaim_update, dead_update, read_update, ack_update,
}
use hot_potato.Sled.Agree.{
  push_failed-agree, dead-agree, stored, without_notes, noteless, updates_agree,
}

-- The call moves the letter by the update.
abbrev pub Moves : {A : Type 0} → (String → Type 0) → Call → Message → Update A → Type 0
Moves {A} At c m f = (out : Message × A) → f m ≡ ok out → Moved At c m out.0

stored-noteless :
    {A : Type 0} (m m' : Message) (a : A) (r : BusResult (Message × A))
    → noteless r ≡ noteless (ok (m', a))
    → without_notes (stored m r) ≡ without_notes m'
stored-noteless m m' a (ok (x, b)) e = ap (λ r. without_notes (stored m r)) e
stored-noteless m m' a (err x) e = absurd (ground arith)

Moved-notes :
    (At : String → Type 0) (c : Call) {m a b : Message}
    → without_notes a ≡ without_notes b
    → Moved At c m b
    → Moved At c m a
Moved-notes At c same h = record {
  event = h.event;
  puts = h.puts;
  envelope = record {
    id = ap (λ m. m.id) same ∙ h.envelope.id;
    sender = ap (λ m. m.sender) same ∙ h.envelope.sender;
    receiver = ap (λ m. m.receiver) same ∙ h.envelope.receiver;
    msg_type = ap (λ m. m.msg_type) same ∙ h.envelope.msg_type;
    subject = ap (λ m. m.subject) same ∙ h.envelope.subject;
    body = ap (λ m. m.body) same ∙ h.envelope.body;
    ref = ap (λ m. m.ref) same ∙ h.envelope.ref;
    created_at = ap (λ m. m.created_at) same ∙ h.envelope.created_at;
    hops = ap (λ m. m.hops) same ∙ h.envelope.hops;
    forwarded_from = ap (λ m. m.forwarded_from) same ∙ h.envelope.forwarded_from;
  };
  status = ap (λ m. m.status) same ∙ h.status;
  attempts = ap (λ m. m.attempts) same ∙ h.attempts;
}

follow :
    {A : Type 0} (At : String → Type 0) (c : Call) (f : Update A) {m m' : Message}
    (ch : Change m m')
    → Puts At c m (event_of ch)
    → without_notes (stored m (f m)) ≡ without_notes m'
    → Moves At c m f
follow At c f {m} {m'} ch puts same out e =
    let same' : without_notes out.0 ≡ without_notes m' = rw e at same in
    Moved-notes At c same' (Change-Moved At c ch puts)

claim_notes :
    (now : Time) (m : Message)
    → without_notes (stored m (claim_update now m)) ≡ without_notes (Letter.claim_letter now m).0
unfolding claim_update Letter.claim_letter
claim_notes now m = ground (arith, apply-eq-verdict m.status push_started)

module _ (At : String → Type 0) (agent : String) (m : Message) (here : At agent) where
  noted :
      {A : Type 0} {r r' : BusResult (Message × A)}
      → r ≡ r'
      → without_notes (stored m r) ≡ without_notes (stored m r')
  noted e = ap (λ r. without_notes (stored m r)) e

  pub poll-Moved :
      (limit : ℕ) (now : Time)
      → status_eq m.status queued ≡ true
      → Moved At (poll agent limit now) m (record m { status = delivered; delivered_at = some now })
  unfolding Letter.deliver_letter
  poll-Moved limit now fit = Change-Moved At _ (deliver now (rw fit refl)) (here, refl)

  pub revive-Moves : (now : Time) → Moves At (revive_auth_dead agent now) m revive_update
  revive-Moves now =
      follow At _ revive_update (revive now refl) (here, refl) (noted (updates_agree "" "" now m).3)

  module _ (id : String) (named : m.id ≡ id) (now : Time) where
    pub deliver-Moves : Moves At (mark_delivered agent id now) m (deliver_update now)
    deliver-Moves =
        follow At _ (deliver_update now) (deliver now refl) (here, named, refl)
          (noted (updates_agree "" "" now m).0)

    pub claim-Moves : Moves At (mark_pushing agent id now) m (claim_update now)
    claim-Moves =
        follow At _ (claim_update now) (claim now refl) (here, named, refl) (claim_notes now m)

    pub push_ok-Moves : Moves At (mark_push_ok agent id now) m (push_ok_update now)
    push_ok-Moves =
        follow At _ (push_ok_update now) (succeed now refl) (here, named, refl)
          (noted (updates_agree "" "" now m).2)

    pub push_failed-Moves :
        (reason : String)
        → Moves At (mark_push_failed agent id reason now) m (push_failed_update reason)
    unfolding should_give_up
    push_failed-Moves reason =
        follow At _ (push_failed_update reason) (fail reason now refl) (here, named, refl)
          (stored-noteless m (Letter.push_failed_letter reason now m) tt _
            (push_failed-agree reason now m))

    pub reclaim-Moves :
        (reason : String)
        → Moves At (reclaim_stale_pushing agent id reason now) m (reclaim_update reason)
    reclaim-Moves reason =
        follow At _ (reclaim_update reason) (reclaim reason now refl) (here, named, refl)
          (noted (updates_agree "" reason now m).4)

    pub dead-Moves :
        (reason : String) → Moves At (mark_dead agent id reason now) m (dead_update reason)
    dead-Moves reason =
        follow At _ (dead_update reason) (bury reason now refl) (here, named, refl)
          (stored-noteless m (Letter.dead_letter reason now m) tt _ (dead-agree reason now m))

    pub read-Moves : Moves At (mark_read agent id now) m (read_update now)
    read-Moves =
        follow At _ (read_update now) (open_letter now refl) (here, named, refl)
          (ap without_notes (updates_agree "" "" now m).5)

    pub ack-Moves : (text : String) → Moves At (ack agent id text now) m (ack_update text now)
    ack-Moves text =
        follow At _ (ack_update text now) (file text now refl) (here, named, refl)
          (ap without_notes (updates_agree text "" now m).7)
