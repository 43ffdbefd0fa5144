-- ===== src/Store/Fifo.antt =====
-- `fifo` returns a permutation of the letters, in the order of creation.
use mathlib.Core.List.{Perm}
use hot_potato.Prelude.{
  ◌≡◌, refl, ◌⊎◌, Bool, true, List, [], arith, codes, lex_le_total, lex_le_trans, All, IsSorted,
  sort_by-IsSorted, sort_by-Perm, All-sort_by, length, length-sort_by, any, any-sort_by, sort_by,
  sort_by_sorted,
}
use hot_potato.Message.{Message}
use hot_potato.Store.{message_le, fifo}

message_le_total : (a b : Message) → (message_le a b ≡ true) ⊎ (message_le b a ≡ true)
unfolding message_le
message_le_total a b = ground (arith, lex_le_total (codes a.id) (codes b.id))

message_le_trans :
    (a b c : Message) → message_le a b ≡ true → message_le b c ≡ true → message_le a c ≡ true
unfolding message_le
message_le_trans a b c p q = ground (arith, lex_le_trans (codes a.id) (codes b.id) (codes c.id))

-- Sorting a mailbox keeps its letters and their multiplicities, and puts every letter before those
-- that were created later, letters of the same instant by their ids.
pub fifo-sorts : (l : List Message) → Perm (fifo l) l × IsSorted message_le (fifo l)
unfolding fifo
fifo-sorts l =
    (sort_by-Perm message_le l, sort_by-IsSorted message_le message_le_total message_le_trans l)

pub fifo_sorted : (l : List Message) → IsSorted message_le l → fifo l ≡ l
unfolding fifo
fifo_sorted l h = sort_by_sorted message_le l h

pub All-fifo {κ} : (P : Message → Type κ) (l : List Message) → All P l → All P (fifo l)
unfolding fifo
All-fifo P l h = All-sort_by message_le P l h

pub length-fifo : (l : List Message) → length (fifo l) ≡ length l
unfolding fifo
length-fifo l = length-sort_by message_le l

pub any-fifo : (p : Message → Bool) (l : List Message) → any p (fifo l) ≡ any p l
unfolding fifo
any-fifo p l = any-sort_by message_le p l

pub fifo_nil : fifo [] ≡ []
unfolding fifo sort_by
fifo_nil = refl
