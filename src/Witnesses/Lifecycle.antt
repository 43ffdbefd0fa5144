-- ===== src/Witnesses/Lifecycle.antt =====
-- The state machine, the single letter, the order of a mailbox and the threads at concrete inputs.
use hot_potato.Prelude.{◌≡◌, ◌≢◌, ◌↔◌, refl, some, List, [], ◌∷◌, take_chars}
use hot_potato.Error.{ok}
use hot_potato.Message.{Message, MessageStatus, queued, pushing, delivered, acked, dead}
use hot_potato.State.{push_started, to, no_op, apply}
use hot_potato.State.Table.{Lifecycle, apply-Lifecycle}
use hot_potato.Store.{validate_ack}
use hot_potato.Memory.Letter.{filed, ack_letter, claim_letter}
use hot_potato.Memory.Changes.{Change, claim}
use hot_potato.Witnesses.Fixtures.{letter}

apply-Lifecycle_example :
    ((t : MessageStatus)
      → (apply pushing push_started ≡ ok (to t)) ↔ Lifecycle pushing push_started t)
    × ((t : MessageStatus)
        → (apply pushing push_started ≡ ok (no_op t))
          ↔ ((pushing ≡ pushing) × (push_started ≡ push_started) × (t ≡ pushing)))
apply-Lifecycle_example = apply-Lifecycle pushing push_started

pushing≢dead : pushing ≢ dead
pushing≢dead h = cc

delivered≢acked : delivered ≢ acked
delivered≢acked h = cc

note_is : (ack_letter "ok" 200 (letter "m" 1 delivered)).0.ack_note ≡ some "ok"
unfolding ack_letter filed validate_ack take_chars
note_is = refl

claimed : Change (letter "m" 1 queued) (claim_letter 200 (letter "m" 1 queued)).0
claimed = claim 200 refl

-- A question and the reply to it.
abbrev thread : List Message
thread = letter "q" 1 queued ∷ record (letter "a" 2 queued) { ref = some "q" } ∷ []
