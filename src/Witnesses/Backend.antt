-- ===== src/Witnesses/Backend.antt =====
-- Single operations of the in-memory store at concrete inputs.
use hot_potato.Prelude.{◌≡◌, map, take, drop, filter, lookup}
use hot_potato.Error.{ok}
use hot_potato.Store.{fifo, or_default}
use hot_potato.Memory.Defs.{poll}
use hot_potato.Memory.Poll.{is_queued, handed_over, poll_lem}
use hot_potato.Witnesses.Fixtures.{store}

poll_lem_example :
    ((poll "bob" 1 200 store).0
      ≡ ok (
          map
            (handed_over 200)
            (take 1 (filter is_queued (fifo (or_default (lookup "bob" store.mailboxes)))))))
    × (filter is_queued (or_default (lookup "bob" (poll "bob" 1 200 store).1.mailboxes))
        ≡ drop 1 (filter is_queued (fifo (or_default (lookup "bob" store.mailboxes)))))
poll_lem_example = poll_lem "bob" 0 200 store
