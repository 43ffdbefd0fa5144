-- ===== src/Witnesses/Observers.antt =====
-- The feed of events at concrete inputs.
use hot_potato.Prelude.{◌≡◌, some, none, List, [], ◌∷◌, any, lookup, str_eq, if◌then◌else◌}
use hot_potato.Message.{MessageStatus}
use hot_potato.Memory.Backend.{memory_backend}
use hot_potato.Server.Gate.{passes_gate}
use hot_potato.Socket.{Wake, event, dropped, tick, client_sent, client_gone, stats_of, is_admitted}
use hot_potato.Socket.Backlog.{count, stats_of-lookup}
use hot_potato.Socket.Admission.{bearer, is_admitted-passes_gate}
use hot_potato.Witnesses.Fixtures.{waiting, done, counting}
use hot_potato.Witnesses.Clients.{config, pool}

stats_of-lookup_example : lookup "bob" (stats_of (waiting ∷ done ∷ [])).mailbox_backlog ≡ (
    if any (λ m. str_eq m.receiver "bob") (waiting ∷ done ∷ [])
    then some (record {
      queued = count "bob" MessageStatus.queued (waiting ∷ done ∷ []);
      unread = count "bob" MessageStatus.delivered (waiting ∷ done ∷ []);
    })
    else none)
stats_of-lookup_example = stats_of-lookup "bob" (waiting ∷ done ∷ [])

abbrev session : List Wake
session =
    event 100 (record { event = "queued"; message = waiting })
    ∷ client_sent
    ∷ tick (waiting ∷ done ∷ [])
    ∷ dropped
    ∷ client_gone
    ∷ []

is_admitted-passes_gate_example :
    is_admitted config pool.sessions (some "secret") none
    ≡ passes_gate config
        (record {
          authorization = bearer (some "secret");
          dashboard_session = none;
          potato_pool = none;
        })
        pool
is_admitted-passes_gate_example =
    is_admitted-passes_gate memory_backend counting config pool (some "secret") none none
