-- ===== src/Memory/Sound.antt =====
-- What every history of the in-memory store keeps: well-stamped letters in the right mailboxes,
-- and the receipts of an acked letter.
use hot_potato.Prelude.{◌≡◌, sym, ◌∙◌, String, List, arith}
use hot_potato.Message.{Message, acked}
use hot_potato.State.{push_ok, push_started, push_rejected, give_up, revive_auth}
use hot_potato.State.Table.{apply-eq-verdict}
use hot_potato.Memory.Letter.{
  deliver_letter, claim_letter, push_ok_letter, push_failed_letter, revive_letter, reclaim_letter,
  dead_letter, read_letter, ack_letter,
}
use hot_potato.Memory.Changes.{
  Change, deliver, claim, succeed, fail, revive, reclaim, bury, open_letter, file,
  Change-SameEnvelope, WellStamped, Change-WellStamped,
}
use hot_potato.Memory.Defs.{MemoryStore}
use hot_potato.Memory.Lifting.{Holds}
use hot_potato.Memory.Runs.{Call, run, PushesSatisfy, run-Holds}

-- The letter is well stamped and lies in the mailbox of its receiver.
pub record IsSound (k : String) (m : Message) : Type 0 where
  pub stamped : WellStamped m
  pub in_place : m.receiver ≡ k

IsSound-Change : (k : String) (m m' : Message) → Change m m' → IsSound k m → IsSound k m'
IsSound-Change k m m' c h = record {
  stamped = Change-WellStamped c h.stamped;
  in_place = (Change-SameEnvelope c).receiver ∙ h.in_place;
}

-- From a sound store, after any calls that push well-stamped letters into it, every letter lies in
-- its receiver's mailbox and carries a delivery, read and ack receipt and a note exactly as its
-- status says, a letter in flight has the time of its push and a dead one a reason, and no mailbox
-- is above the capacity.
pub run-IsSound :
    (cs : List Call) (s : MemoryStore)
    → PushesSatisfy IsSound cs
    → Holds IsSound s
    → Holds IsSound (run cs s)
run-IsSound cs s p h = run-Holds IsSound IsSound-Change cs s p h

-- A letter with the id of the acked letter `x` has its receipts.
pub record HasReceipts (x m : Message) : Type 0 where
  pub status : m.status ≡ acked
  pub delivered_at : m.delivered_at ≡ x.delivered_at
  pub read_at : m.read_at ≡ x.read_at
  pub acked_at : m.acked_at ≡ x.acked_at
  pub ack_note : m.ack_note ≡ x.ack_note

HasReceipts-Change : (x m m' : Message) → Change m m' → HasReceipts x m → HasReceipts x m'
unfolding deliver_letter claim_letter push_ok_letter push_failed_letter revive_letter reclaim_letter
    dead_letter read_letter ack_letter
HasReceipts-Change x m m' (deliver now e) h = ground arith
HasReceipts-Change x m m' (claim now e) h = ground (arith, apply-eq-verdict m.status push_started)
HasReceipts-Change x m m' (succeed now e) h = ground (arith, apply-eq-verdict m.status push_ok)
HasReceipts-Change x m m' (fail reason now e) h = ground (
  arith,
  apply-eq-verdict m.status (give_up reason),
  apply-eq-verdict m.status (push_rejected reason),
)
HasReceipts-Change x m m' (revive now e) h = ground (arith, apply-eq-verdict m.status revive_auth)
HasReceipts-Change x m m' (reclaim reason now e) h =
    ground (arith, apply-eq-verdict m.status (push_rejected reason))
HasReceipts-Change x m m' (bury reason now e) h =
    ground (arith, apply-eq-verdict m.status (give_up reason))
HasReceipts-Change x m m' (open_letter now e) h = ground arith
HasReceipts-Change x m m' (file text now e) h = ground arith

abbrev pub IsFiled : Message → String → Message → Type 0
IsFiled x k m = m.id ≡ x.id → HasReceipts x m

-- Suppose that every letter of the store with the id of `x` is acked and has the receipts and the
-- note of `x`, and that so is every letter with that id that the calls push. Then this is so after
-- the calls.
pub run-IsFiled :
    (x : Message) (cs : List Call) (s : MemoryStore)
    → PushesSatisfy (IsFiled x) cs
    → Holds (IsFiled x) s
    → Holds (IsFiled x) (run cs s)
run-IsFiled x cs s p h =
    run-Holds (IsFiled x)
      (λ k m m' c filed e. HasReceipts-Change x m m' c (filed (sym (Change-SameEnvelope c).id ∙ e)))
      cs s p h
