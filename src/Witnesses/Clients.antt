-- ===== src/Witnesses/Clients.antt =====
-- Requests to the bus, polls and the guard at concrete inputs.
use hot_potato.Prelude.{
  ◌≡◌, refl, true, false, none, some, List, [], ◌∷◌, All, any, arith, filter, sort_by, lookup,
}
use hot_potato.Message.{Message}
use hot_potato.Store.{fifo, message_le}
use hot_potato.Memory.Backend.{memory_backend}
use hot_potato.Memory.NoLoss.{has_letter}
use hot_potato.Memory.Drain.{Round, polls, ids, room_for, polls-drain}
use hot_potato.Memory.Drain
use hot_potato.Federation.{rpc_result}
use hot_potato.Sweeper.Diagnose.{unreachable}
use hot_potato.Sweeper.Watch.{Watched, Texts, watch_once}
use hot_potato.Sweeper.Keeps.{watch_once-has_letter}
use hot_potato.Server.Gate.{has_session}
use hot_potato.Server.Pool.{ServerConfig, HeaderMap, Pool}
use hot_potato.Memory.Defs.{push}
use hot_potato.Bus.Defs
use hot_potato.Federation.{wire_hops, resolve, contains}
use hot_potato.Handshake.{contains_agent}
use hot_potato.Message.{task, new_message}
use hot_potato.Prelude.{find}
use hot_potato.Server.Stored.{receipt, handle_send-has_letter}
use hot_potato.Server.Send.{
  SendParams, Envelope, read_params, handle_send, send_read, send_envelope, send_local, local_sent,
  home_pool,
}
use hot_potato.Server.Peers.{rejected}
use hot_potato.Server.Rpc.{
  Request, World, message_send, message_poll, message_ack, dashboard_login, message_delete_all,
}
use hot_potato.Server.Locked.{Attempt, IsRefusal, run, run-IsLockedOut}
use hot_potato.Server.Kept.{run-has_letter_kept}
use hot_potato.Witnesses.Fixtures.{store, bus, done, post, registry, counting, fleet, waiting}

abbrev pub config : ServerConfig
config = record {
  public_url = "http://here";
  bearer_token = some "secret";
  dashboard_user = "admin";
  dashboard_password = "pass";
  peers = fleet ∷ [];
  pool_name = "home";
}

abbrev pub outside : World
outside = record {
  fresh = λ name. name;
  pools = λ r. rpc_result;
  url_in = λ bytes. none;
  present = λ url q. rejected "no";
  lower = λ s. s;
  stamp = λ t. "0";
  remote = λ peer method. unreachable "down";
}

abbrev pub pool : Pool memory_backend counting
pool = record {
  post = post;
  registry = registry;
  invites = [];
  dynamic_peers = [];
  sessions = "sid" ∷ [];
}

-- A client with a wrong token, one without any, and one with the token.
abbrev wrong : HeaderMap
wrong = record {
  authorization = some "Bearer guess";
  dashboard_session = some "old";
  potato_pool = none;
}

abbrev nothing : HeaderMap
nothing = record { authorization = none; dashboard_session = none; potato_pool = none }

abbrev holder : HeaderMap
holder = record {
  authorization = some "Bearer secret";
  dashboard_session = none;
  potato_pool = none;
}

abbrev attempt : HeaderMap → Request → Attempt
attempt headers request = record { world = outside; at = 200; headers = headers; request = request }

abbrev break_in : List Attempt
break_in =
    attempt wrong message_delete_all
    ∷ attempt nothing (message_poll (some "bob") none)
    ∷ attempt nothing (dashboard_login (some "admin") (some "guess"))
    ∷ []

run-IsLockedOut_example :
    All IsRefusal (run memory_backend counting config break_in pool).0
    × ((run memory_backend counting config break_in pool).1 ≡ pool)
unfolding has_session any
run-IsLockedOut_example =
    run-IsLockedOut memory_backend counting config "secret" break_in pool refl (
      (record { no_token = refl; no_session = refl }, tt),
      (
        (record { no_token = refl; no_session = refl }, tt),
        ((record { no_token = refl; no_session = refl }, refl), tt),
      ),
    )

abbrev greeting : SendParams
greeting = record {
  sender = some "ann";
  receiver = some "bob";
  kind = none;
  subject = some "hello";
  body = some "text";
  ref = none;
  hops = none;
  forwarded_from = none;
}

abbrev visits : List Attempt
visits =
    attempt holder (message_send greeting)
    ∷ attempt holder (message_poll (some "bob") (some 1))
    ∷ attempt holder (message_ack (some "bob") (some "m-1") (some "done"))
    ∷ []

run-has_letter_kept_example :
    has_letter "bob" "m-1" (run memory_backend counting config visits pool).1.post.bus.store ≡ true
unfolding any lookup
run-has_letter_kept_example = run-has_letter_kept counting config visits pool "bob" "m-1" refl refl

abbrev rounds : List Round
rounds = (0, 200) ∷ (0, 300) ∷ []

polls-drain_example :
    (ids (polls "bob" rounds store).0 ≡ ids (Drain.waiting "bob" store))
    × (Drain.waiting "bob" (polls "bob" rounds store).1 ≡ [])
unfolding filter fifo sort_by lookup message_le
polls-drain_example = polls-drain "bob" rounds store (omega arith)

-- The letter of "bob" is stuck on a refused credential.
abbrev stuck : Message
stuck = record waiting { last_error = some "HTTP 401" }

abbrev watched : Watched memory_backend counting
watched = record {
  post = record post {
    bus = record bus { store = record store { mailboxes = ("bob", done ∷ stuck ∷ []) ∷ [] } };
  };
  registry = registry;
  notified = false;
}

abbrev texts : Texts
texts = record {
  peer_line = λ peer alive probe. probe;
  summary = λ letters receivers lines. "stuck";
}

watch_once-has_letter_example :
    has_letter "bob" "m-1"
      (watch_once memory_backend counting
        (λ peer method. unreachable "down")
        texts
        (fleet ∷ [])
        "home"
        "n-1"
        200
        watched).post.bus.store
    ≡ true
unfolding any lookup
watch_once-has_letter_example =
    watch_once-has_letter counting (λ peer method. unreachable "down") texts (fleet ∷ []) "home"
      "n-1" 200 watched "bob" "m-1" refl

abbrev greeted : Envelope
greeted = record {
  sender = "ann";
  receiver = "bob";
  kind = task;
  subject = "hello";
  body = "text";
  ref = none;
  hops = 0;
  forwarded_from = none;
}

greeting_complete : read_params greeting ≡ some greeted
unfolding read_params wire_hops
greeting_complete = refl

greeting_accepted :
    receipt
      (handle_send memory_backend counting outside.pools outside.fresh 200 config holder greeting
        pool).0
    ≡ some "letter"
unfolding handle_send send_read send_envelope send_local local_sent home_pool Defs.send_envelope
    push read_params resolve find contains any contains_agent Defs.send_guard lookup new_message
greeting_accepted = refl

handle_send-has_letter_example :
    has_letter "bob" "letter"
      (handle_send memory_backend counting outside.pools outside.fresh 200 config holder greeting
        pool).1.post.bus.store
    ≡ true
handle_send-has_letter_example =
    handle_send-has_letter counting outside.pools outside.fresh 200 config holder greeting pool
      greeted "letter" greeting_complete greeting_accepted
