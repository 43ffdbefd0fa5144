-- ===== src/Memory/Lives.antt =====
-- The life of a letter in a store: how it came there and which of the calls moved it.
use hot_potato.Prelude.{
  ℕ, ◌≡◌, sym, ap, ◌∙◌, ◌⊎◌, inl, inr, String, List, [], ◌∷◌, arith, if◌then◌else◌,
}
use hot_potato.Message.{Message, MessageStatus, queued, dead, status_eq}
use hot_potato.State.{
  Event, push_started, push_ok, push_rejected, give_up, revive_auth, u32_add_one,
}
use hot_potato.State.Table.{apply-eq-verdict}
use hot_potato.State.History.{advance}
use hot_potato.Memory.Letter.{
  deliver_letter, claim_letter, push_ok_letter, push_failed_letter, revive_letter, reclaim_letter,
  dead_letter, read_letter, ack_letter,
}
use hot_potato.Memory.Changes.{
  Change, deliver, claim, succeed, fail, revive, reclaim, bury, open_letter, file, SameEnvelope,
  Change-SameEnvelope, event_of, Change-advance,
}
use hot_potato.Memory.Runs.{
  Call, push, poll, mark_delivered, mark_pushing, mark_push_ok, mark_push_failed,
  reclaim_stale_pushing, mark_dead, revive_auth_dead, mark_read, ack, Puts,
}

-- The attempts after an event: a push that starts counts, and a revival starts afresh.
unfoldable pub tries : Event → Message → ℕ
tries push_started m = if status_eq m.status queued then u32_add_one m.attempts else m.attempts
tries revive_auth m = if status_eq m.status dead then 0 else m.attempts
tries e m = m.attempts

-- What the state machine makes of the letter `m` on the event that the call puts to it.
pub record Moved (At : String → Type 0) (c : Call) (m m' : Message) : Type 0 where
  pub event : Event
  pub puts : Puts At c m event
  pub envelope : SameEnvelope m m'
  pub status : m'.status ≡ advance m.status event
  pub attempts : m'.attempts ≡ tries event m

-- The letter is the one that the call pushes, to an agent of `At`.
abbrev pub Posted : (String → Type 0) → Call → Message → Type 0
Posted At (push msg) m = At msg.receiver × (m ≡ msg)
Posted At c m = ⊥

-- The letter has lived through the calls, the latest first: it was there at the start, or a call
-- posted it, and each call since has left it alone, or moved it once, on the event of that call.
abbrev pub Lived : (Message → Type 0) → (String → Type 0) → List Call → Message → Type 0
Lived Start At [] m = Start m
Lived Start At (c ∷ cs) m =
    Lived Start At cs m
    ⊎ (Posted At c m ⊎ ((m₀ : Message) × Lived Start At cs m₀ × Moved At c m₀ m))

Change-tries : {m m' : Message} (c : Change m m') → m'.attempts ≡ tries (event_of c) m
unfolding tries deliver_letter claim_letter push_ok_letter push_failed_letter revive_letter
    reclaim_letter dead_letter read_letter ack_letter
Change-tries {m} (deliver now e) = ground arith
Change-tries {m} (claim now e) = ground (arith, apply-eq-verdict m.status push_started)
Change-tries {m} (succeed now e) = ground (arith, apply-eq-verdict m.status push_ok)
Change-tries {m} (fail reason now e) = ground (
  arith,
  apply-eq-verdict m.status (give_up reason),
  apply-eq-verdict m.status (push_rejected reason),
)
Change-tries {m} (revive now e) = ground (arith, apply-eq-verdict m.status revive_auth)
Change-tries {m} (reclaim reason now e) =
    ground (arith, apply-eq-verdict m.status (push_rejected reason))
Change-tries {m} (bury reason now e) = ground (arith, apply-eq-verdict m.status (give_up reason))
Change-tries {m} (open_letter now e) = ground arith
Change-tries {m} (file text now e) = ground arith

pub Change-Moved :
    (At : String → Type 0) (c : Call) {m m' : Message} (ch : Change m m')
    → Puts At c m (event_of ch)
    → Moved At c m m'
Change-Moved At c ch p = record {
  event = event_of ch;
  puts = p;
  envelope = Change-SameEnvelope ch;
  status = Change-advance ch;
  attempts = Change-tries ch;
}

advance-twice : (s : MessageStatus) (e : Event) → advance (advance s e) e ≡ advance s e
unfolding advance
advance-twice s e = ground (arith, apply-eq-verdict s e, apply-eq-verdict (advance s e) e)

tries-twice :
    (m m' : Message) (e : Event)
    → m'.status ≡ advance m.status e
    → m'.attempts ≡ tries e m
    → tries e m' ≡ tries e m
unfolding advance tries
tries-twice m m' e s t = ground (arith, apply-eq-verdict m.status e)

-- A call puts the same event to a letter that it has moved.
same_event :
    (At : String → Type 0) (c : Call) (m m' : Message) (e e' : Event)
    → m'.attempts ≡ tries e m
    → Puts At c m e
    → Puts At c m' e'
    → e' ≡ e
unfolding tries
same_event At (poll agent limit now) m m' e e' t p q = q.1 ∙ sym p.1
same_event At (revive_auth_dead agent now) m m' e e' t p q = q.1 ∙ sym p.1
same_event At (mark_push_failed agent id reason now) m m' e e' t p q = ground arith
same_event At (mark_delivered agent id now) m m' e e' t p q = q.2 ∙ sym p.2
same_event At (mark_pushing agent id now) m m' e e' t p q = q.2 ∙ sym p.2
same_event At (mark_push_ok agent id now) m m' e e' t p q = q.2 ∙ sym p.2
same_event At (reclaim_stale_pushing agent id reason now) m m' e e' t p q = q.2 ∙ sym p.2
same_event At (mark_dead agent id reason now) m m' e e' t p q = q.2 ∙ sym p.2
same_event At (mark_read agent id now) m m' e e' t p q = q.2 ∙ sym p.2
same_event At (ack agent id text now) m m' e e' t p q = q.2 ∙ sym p.2
same_event At c m m' e e' t p q = absurd p

SameEnvelope-trans : {a b c : Message} → SameEnvelope a b → SameEnvelope b c → SameEnvelope a c
SameEnvelope-trans h k = ground arith

-- To move a letter twice by one call is to move it once.
Moved-twice :
    (At : String → Type 0) (c : Call) {a b d : Message}
    → Moved At c a b
    → Moved At c b d
    → Moved At c a d
Moved-twice At c {a} {b} {d} h k =
    let same = same_event At c a b h.event k.event h.attempts h.puts k.puts in
    record {
      event = h.event;
      puts = h.puts;
      envelope = SameEnvelope-trans h.envelope k.envelope;
      status =
          k.status
          ∙ ap (λ e. advance b.status e) same
          ∙ ap (λ s. advance s h.event) h.status
          ∙ advance-twice a.status h.event;
      attempts =
          k.attempts ∙ ap (λ e. tries e b) same ∙ tries-twice a b h.event h.status h.attempts;
    }

Posted-not_Moved :
    (At : String → Type 0) (c : Call) {m m' : Message} → Posted At c m → Moved At c m m' → ⊥
Posted-not_Moved At (push msg) p h = h.puts
Posted-not_Moved At c p h = absurd p

pub Moved-Lived :
    (Start : Message → Type 0) (At : String → Type 0) (c : Call) (cs : List Call) {m m' : Message}
    → Moved At c m m'
    → Lived Start At (c ∷ cs) m
    → Lived Start At (c ∷ cs) m'
Moved-Lived Start At c cs h (inl before) = inr (inr (_, before, h))
Moved-Lived Start At c cs h (inr (inl posted)) = absurd (Posted-not_Moved At c posted h)
Moved-Lived Start At c cs h (inr (inr (m₀, lived, first))) =
    inr (inr (m₀, lived, Moved-twice At c first h))
