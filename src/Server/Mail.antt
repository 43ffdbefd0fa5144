-- ===== src/Server/Mail.antt =====
-- server.rs: the methods on the mailboxes, and the queries.
use text.Mathlib.Text.{starts_with}
use hot_potato.Prelude.{
  ℕ, String, Option, none, some, List, [], ◌∷◌, ◌++◌, map, str_eq, if◌then◌else◌,
}
use hot_potato.Error.{Result, BusResult, ok, err}
use hot_potato.Message.{Message, Time}
use hot_potato.Store.Interface.{BusStore}
use hot_potato.Bus.Defs
use hot_potato.Bus.Defs.{EventBus}
use hot_potato.Deliver.{PushTransport}
use hot_potato.Sweeper.{with_bus}
use hot_potato.Server.Journeys.{thread_of}
use hot_potato.Server.Listing.{Query, list_letters}
use hot_potato.Server.Pool.{
  Reply, bus_error, error, refused, letter, letters, deleted, Handler, reply_of,
}

abbrev or_zero : Option ℕ → ℕ
or_zero none = 0
or_zero (some n) = n

module _ (B : BusStore) (T : PushTransport) where
  -- An answer with one letter, which is announced.
  unfoldable pub announce : String → BusResult Message × EventBus B → Handler B T
  announce event (err e, bus) p = (bus_error e, record p { post = with_bus B T bus p.post })
  announce event (ok m, bus) p =
      let post = with_bus B T bus p.post in
      (letter m, record p { post = record post { events = post.events ++ ((event, m) ∷ []) } })

  unfoldable pub announce_all : BusResult (List Message) × EventBus B → Handler B T
  announce_all (err e, bus) p = (bus_error e, record p { post = with_bus B T bus p.post })
  announce_all (ok ms, bus) p =
      let post = with_bus B T bus p.post in
      (
        letters ms,
        record p { post = record post { events = post.events ++ map (λ m. ("delivered", m)) ms } },
      )

  -- `message/poll`. An agent whose name begins with the text of the error is taken for a missing
  -- one.
  unfoldable pub handle_poll : Option String → Option ℕ → Time → Handler B T
  unfolding announce_all
  handle_poll none limit now p = (refused 32602 "missing param: agent", p)
  handle_poll (some agent) limit now p =
      if starts_with agent "missing param"
      then (refused 32602 agent, p)
      else announce_all (Defs.poll B agent (or_zero limit) now p.post.bus) p

  -- `message/read`.
  unfoldable pub handle_read : Option String → Option String → Time → Handler B T
  handle_read none id now p = (error "missing param", p)
  handle_read (some agent) none now p = (error "missing param", p)
  handle_read (some agent) (some id) now p =
      announce "read" (Defs.mark_read B agent id now p.post.bus) p

  -- `message/ack`.
  unfoldable pub handle_ack : Option String → Option String → Option String → Time → Handler B T
  handle_ack none id text now p = (error "missing param", p)
  handle_ack (some agent) none text now p = (error "missing param", p)
  handle_ack (some agent) (some id) none now p = (error "missing param", p)
  handle_ack (some agent) (some id) (some text) now p =
      announce "acked" (Defs.ack B agent id text now p.post.bus) p

  -- `agent/status`.
  unfoldable pub handle_status : Option String → Handler B T
  handle_status none p = (error "missing param", p)
  handle_status (some agent) p = (reply_of letters (Defs.status B agent p.post.bus), p)

  -- `message/peek`: an empty name is a missing one.
  unfoldable pub handle_peek : Option String → Handler B T
  handle_peek none p = (refused 32602 "missing required param: agent", p)
  handle_peek (some agent) p =
      if str_eq agent ""
      then (refused 32602 "missing required param: agent", p)
      else (reply_of letters (Defs.peek B agent p.post.bus), p)

  -- `bus/archive`.
  unfoldable pub handle_archive : Handler B T
  handle_archive p = (reply_of letters (Defs.archive B p.post.bus), p)

  -- `message/delete`.
  unfoldable pub handle_delete : Option String → Handler B T
  handle_delete none p = (error "missing param", p)
  handle_delete (some id) p = announce "deleted" (Defs.delete_letter B id p.post.bus) p

  -- `message/delete_all`.
  unfoldable pub handle_delete_all : Handler B T
  handle_delete_all p =
      let out = Defs.delete_all_letters B p.post.bus in
      (reply_of deleted out.0, record p { post = with_bus B T out.1 p.post })

  -- `message/list`.
  unfoldable pub handle_list : (String → String) → Time → Query → Handler B T
  handle_list lower now q p =
      (reply_of (λ ms. letters (list_letters lower now q ms)) (Defs.list_all B p.post.bus), p)

  thread_reply : Result String (List Message) → Reply
  thread_reply (ok ms) = letters ms
  thread_reply (err text) = error text

  abbrev or_none_listed : BusResult (List Message) → List Message
  or_none_listed (ok ms) = ms
  or_none_listed (err e) = []

  -- `message/thread`: an empty id is a missing one. A bus that cannot list its letters has none.
  unfoldable pub handle_thread : Option String → Handler B T
  unfolding thread_reply
  handle_thread none p = (refused 32602 "missing param: id", p)
  handle_thread (some id) p =
      if str_eq id ""
      then (refused 32602 "missing param: id", p)
      else (thread_reply (thread_of (or_none_listed (Defs.list_all B p.post.bus)) id), p)
