-- ===== src/Server/Diagnose.antt =====
-- server.rs: `bus/diagnose`, the evidence on failing pushes in one call.
use Prim.Native.String.{◌++◌ as str_append}
use hot_potato.Prelude.{String, Option, none, some, List, [], filter, find, map}
use hot_potato.Error.{BusResult, ok, err}
use hot_potato.Message.{Message, Time, task, new_message}
use hot_potato.Store.Interface.{BusStore}
use hot_potato.Bus.Defs
use hot_potato.Deliver.{PushTransport, AgentEntry, is_push, all_entries}
use hot_potato.Sweeper.{dispatch_from}
use hot_potato.Sweeper.Diagnose.{PoolReply, diagnose_peer}
use hot_potato.Sweeper.Watch.{is_auth_stuck}
use hot_potato.Federation.{Peer}
use hot_potato.Server.Pool.{ServerConfig, Pool, Probe, no_receiver, probed, diagnosed, Handler}

abbrev probe_body : String
probe_body = "Transport probe only. Delivered-or-dead by design; requires no action."

abbrev or_no_letters : BusResult (List Message) → List Message
or_no_letters (ok ms) = ms
or_no_letters (err e) = []

module _ (B : BusStore) (T : PushTransport) where
  -- The push of a letter that is in no mailbox. Its JSON has the fields that are given here, and a
  -- mark that it is a probe. `stamp` prints the seconds of the clock.
  unfoldable pub push_probe :
      (Time → String) → Time → Option AgentEntry → Pool B T → Probe × Pool B T
  push_probe stamp now none p = (no_receiver, p)
  push_probe stamp now (some e) p =
      let letter =
        new_message (str_append "probe-" (stamp now)) now "bus-probe" e.agent task
          "[probe] bus/diagnose push self-test (ignore)" probe_body none in
      let out =
        dispatch_from B T p.registry e.agent (record { letter = letter; context_id = none })
          p.post in
      (probed e.agent out.0, record p { post = out.1 })

  -- `bus/diagnose`. `post` is the other pool at the end of a call.
  unfoldable pub handle_diagnose :
      (Time → String) → (Peer → String → PoolReply) → ServerConfig → Time → Handler B T
  unfolding push_probe
  handle_diagnose stamp post config now p =
      let all = or_no_letters (Defs.list_all B p.post.bus) in
      let probe =
        push_probe stamp now (find (λ e. is_push e.deliver_via) (all_entries p.registry)) p in
      (
        diagnosed (filter is_auth_stuck all) probe.0
            (map (λ peer. diagnose_peer post peer config.pool_name) config.peers),
        probe.1,
      )
