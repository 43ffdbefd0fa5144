-- ===== src/Lib.antt =====
-- Hot Potato: a message bus for agents. A sender writes a letter to the mailbox of another agent
-- and lets go; the bus pushes it to the receiver or keeps it until it is polled, read and acked.
--
-- The parts, and the files that model them:
--   src/error.rs            Error.antt: BusError, and Result with `?` as `>>=`.
--   src/message.rs          Message.antt: Message, Message::new, thread_root_id. Thread.antt.
--   src/state.rs            State.antt: Event, TRANSITIONS, apply, bookkeep. Table.antt says what
--                           apply is, History.antt is about runs of events.
--   src/store/mod.rs        Store.antt: fifo, validate_ack. Store/Interface.antt: the trait
--                           BusStore as a record of a type of states and its operations.
--   src/store/memory.rs     Memory/Letter.antt: what each operation does to the letter it found,
--                           apply_event included. Memory/Defs.antt: the operations on the store.
--                           Memory/Backend.antt: the implementation of the trait. Memory/Changes,
--                           Loops, Lifting and Runs carry a property of one letter through every
--                           operation and every list of calls; Lives and Traced follow a letter
--                           through the calls that move it.
--   src/store/sled_store.rs Sled/Letter.antt: the closures that change a letter. Sled/Tree.antt:
--                           the database as a parameter, keys, update_one, collect.
--                           Sled/Defs.antt: the operations. Sled/Laws.antt: what is relied on.
--                           Sled/Agree.antt compares the two backends; Sled/Races.antt is about
--                           two threads in update_one, which takes no lock; Keeps, Steps,
--                           Moves, Runs and Traced follow a letter through every list of calls.
--   src/bus.rs              Bus/Defs.antt: EventBus over any backend, its roles and guards.
--   src/deliver.rs          Deliver.antt: the registry, the trait PushTransport, dispatch_push.
--                           Deliver/Http.antt: the verdict of HttpTransport on an answer.
--                           Disk.antt: files, a JSON codec and `persist`, which deliver.rs and
--                           handshake.rs share. Deliver/Mirror.antt: the registry with its file;
--                           Deliver/Filed.antt and Restart.antt are about what a restart finds.
--   src/sweeper.rs          Sweeper.antt: retry_window and sweep_once. Sweeper/Diagnose.antt:
--                           pool_rpc, diagnose_peer. Sweeper/Watch.antt: federation_watch_once.
--                           Sweeper/Traffic.antt: dispatchers at work at the same time, as a step
--                           relation on the in-memory store; Exclusion.antt and Claims.antt, on
--                           Memory/Distinct, Unique, Held and Flights, are about it.
--   src/server.rs           Server.antt: push_on_arrival. Server/Pool.antt: ServerConfig, BusState
--                           and the answers. Server/Gate.antt: the login and the test before the
--                           methods. The arms of rpc: Server/Agents.antt (agent/*), Send.antt
--                           (message/send), Mail.antt (the other message/*), Listing.antt
--                           (message/list), Journeys.antt (message/thread), Peers.antt (peer/*),
--                           Diagnose.antt (bus/diagnose). Server/Rpc.antt puts them together.
--                           Server/LogPage.antt: the page /log. Server/Wire.antt: the reading of
--                           a request from JSON, and the JSON-RPC answer. Server/Links.antt and
--                           Greetings.antt: the requests that pools write to each other, in a
--                           forward and in a handshake; Server/Crossing.antt follows a letter from
--                           one pool into the mailbox of another.
--                           The checks on a letter of another pool are in Federation.antt, and the
--                           merge of peer/list is in Handshake.antt. Server/Keeps.antt,
--                           RelayKeeps.antt, MailKeeps.antt, SendKeeps.antt, Stored.antt and
--                           Kept.antt carry a property of the store through every method, as
--                           Bus/Keeps.antt and Sweeper/Keeps.antt do below them.
--   src/ws.rs               Socket.antt: BusEvent, ws_handler's check, the snapshot, the loop.
--   src/federation.rs       Federation.antt: Peer, Peers::resolve, forward. Federation/Table.antt:
--                           the table from the environment.
--   src/handshake.rs        Handshake.antt: Invite, create_invite, consume_invite, DynamicPeers.
--                           Handshake/Base64.antt: base64 on bytes. Handshake/Codes.antt: the code
--                           of an invite, and what peer/join (src/server.rs) makes of it.
--                           Handshake/Mirror.antt: the learned peers with their file.
-- Prelude.antt has what these share: tests, lists, texts, association lists, insertion sort.
-- Witnesses.antt has the theorems at concrete inputs.
--
-- How they interact: the server and the sweeper call the bus, the bus checks its roles and calls
-- the backend, and the backend asks the state machine. The sweeper and the push on arrival also
-- call the transport through the registry. Their state is a record, Post: the bus, what lies
-- behind the transport, and the events sent to observers. The state of the server, Pool, is a Post
-- with the registry, the invites, the learned peers and the sessions; a method is a function from
-- a Pool to an answer and a Pool. A connection of the feed reads the bus and the events.
--
-- Conventions. The clock and the fresh ids of letters are arguments of the operations that read
-- them. A DateTime and a Duration are numbers of nanoseconds, and differences of times stop at 0. A HashMap is an
-- association list, whose order is the one in which it is iterated. Texts are ordered by code
-- points, which is the order of their UTF-8 bytes. An operation of the in-memory store holds one
-- lock from its first line to its last, so it is one step from a store to a store; the sled store
-- takes none, and the files on it, but for Sled/Races.antt, are about calls that do not overlap. A
-- u32 counter wraps, a shift of a u64 loses the bits that leave it. What is not under src/ is a
-- parameter: the HTTP client by its answers (HttpAnswer, PeerAnswer, PoolReply, Accepting,
-- PushTransport), the sled database by its calls (Sled), the file system (Files), serde_json
-- (Codec, Json), to_lowercase and the printing of numbers by functions. A request is what its JSON
-- holds, `none` where a parameter is missing or of another type. A task that a method spawns runs
-- to its end right after the method. A HashSet of sessions is a list.
--
-- Bounds and fuel: thread_root_id walks 32 rounds, as the source does. ilog2 has 64 rounds, enough
-- for a u64. All other loops are structural.
--
-- Not modelled: JSON text below the values, logs and the payloads of pushes; the routes, the static
-- pages and the rest of the environment of src/server.rs; the timer of src/sweeper.rs; main.rs,
-- openapi.rs, the dashboard and the scripts. A sweep, a method and a round of the guard have one time
-- for all that they do, and nothing else runs between their steps, except in Sweeper/Traffic.antt.
-- The methods work on the registry and the peers in memory; their files are beside, in the mirrors.
mod Prelude
pub mod Error
pub mod Message
pub mod State
pub mod Store
pub mod Memory
pub mod Sled
pub mod Bus
pub mod Deliver
pub mod Disk
pub mod Sweeper
pub mod Server
pub mod Socket
pub mod Federation
pub mod Handshake
mod Witnesses
