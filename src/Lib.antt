-- ===== src/Lib.antt =====
-- The Redis module `key_evt_amqp`: it subscribes to keyspace events, publishes those whose key
-- matches a mask to an AMQP broker, and keeps what the broker does not take in a Redis list, the
-- fallback storage, until a connection takes it. Paths are from the repository's root.
--
-- The parts, and the files that model them:
-- * utils.c. Match: `match` and `matchhere`, lines 133-165; Match/Spec says what an occurrence of a
--   mask is, and Match/Decides and Match/Plain compare the code with it. Memory: the copies of C
--   strings, lines 11-26. StringArray: the growing array, lines 28-59, with its first block in
--   StringArray/First. Wire: commands as text for the cluster bus and back, lines 61-117;
--   Wire/Fields has a reference for the decoder.
-- * amqp_connection.c. Amqp: all four functions, each cut at its calls; Amqp/Wait says when the
--   wait for frames ends, Amqp/Effects says what they change, Amqp/Handles how they use the
--   connection handle, and Amqp/Healthy what they do with a broker that answers.
-- * library.c. System: the globals of lines 13-32 as one record, with the calls made so far.
--   Storage: lines 34-104. Event: the event handler, the timer's callback and the mask filter,
--   lines 112-210. Event/Timer, Event/Beats and Event/Pace say when and how many timers are
--   pending, Event/Selection which events are published, Event/Delivery when at once,
--   Event/Waiting, Event/Recovery and Event/Outage what becomes of stored events, Event/Replica
--   what a node does that is no master. Strtol: the standard function as library.c calls it.
--   Config: lines 212-292 and 375-408, with the C types in Config/Fits. Command: lines 311-373 and
--   410-461; Command/Answers and Command/Runs count the replies. Cluster: the receiver of bus
--   messages, lines 463-506; Cluster/Carry reads it as a table of commands. Cluster/Nodes has two
--   nodes and the bus between them, Cluster/Agree and Cluster/Settle their settings, Cluster/Many
--   any number of nodes, and Cluster/Diverge the command that the other nodes ignore. Load: lines
--   294-309 and 508-601, and the globals before the load.
-- * The whole module. Ledger: what it promises for its events, as an abstract machine of a broker's
--   queue and a storage; Ledger/Conserve has its law, Ledger/Flow and Ledger/Entries compare the
--   code with it. Reach: the entry points as the steps of one relation, and what every run keeps:
--   Reach/Owned the connection, Reach/Answers the replies, Reach/Quiet and Reach/Off a module that
--   is switched off, Reach/Audit the events and the timer, Reach/Paced the number of timers,
--   Reach/Calls and Reach/Schedule that calls end, with a configuration that is ready for the next,
--   and Reach/Whole all of it from the load on.
-- * Base has what all parts share. Samples and Witness run the code on concrete inputs.
--
-- How the parts meet: `on_keyspace_event` is Redis's callback, it starts the timer and the
-- connection, asks `mask_loop` and `match`, and hands the event to `publish_event`, which calls
-- `amqp_publish` and then either `publish_stored_events` or `push_event_to_storage`. The timer's
-- callback `check_frames_and_heartbeat` waits for frames, reconnects and drains the storage. The
-- commands change the configuration and the connection; on a cluster they are sent to the other
-- nodes first, by `broadcast_redis_command`, where `cluster_message_receiver` takes them.
--
-- How the code is rendered: a C string is the list of its bytes and ends at the first NUL
-- (`c_str`). A function that changes globals takes the state and returns it. An `if` whose branches
-- do different things is a function by clauses or an `if`, named after the function it is part of.
-- A machine integer keeps its modulus (`u16_mod`, `u64_mod`, …), so `fallbackStorageLen--` is
-- `decrement`. A write past a block and a `free` of a constant are `fault`. Every call that leaves
-- the module is recorded in `trace`, newest first; a log call by its format alone.
--
-- What stands outside the repository is a parameter. `Env` answers the calls of librabbitmq and
-- Redis, by any function of the calls made so far. `Allocator` says how many bytes stand behind a
-- request, at least what was asked for. `ListKey` is the Redis key of the storage, with the
-- documented behaviour of its list calls. `Incoming` is what the calls of one wait for frames give,
-- in any order and with whatever the frame variable holds, with the assumption, `ends`, that some
-- reply ends the wait: all that is said of a run is said of one whose waits end.
--
-- Fuel: `publish_loop` gets the list's length plus 1, one round for each stored message and one for
-- the pop that finds none. `wait_loop` gets one round more than `Incoming` says, which Amqp/Wait
-- shows to be enough; on replies that never end the wait it has no result on any fuel. `digits`
-- gets 9, for the ten digits of an int. All other loops are by recursion on the list or on the
-- number of rounds that the code itself counts.
--
-- Not modelled: the arguments of log calls; CloseKey and FreeString, which change nothing here; a
-- storage key that holds another type than a list; a wait for frames that never ends; the
-- zero-length local arrays of utils.c lines 72, 91 and 93, of which only element 0 is used, as a
-- variable; redismodule.h but for its flags; and the scripts of the test cluster. A bus message has
-- no NUL of its own, so the receiver takes what lies behind it as an argument, `beyond`.
pub mod Base
pub mod Match
pub mod Memory
pub mod StringArray
pub mod Wire
pub mod System
pub mod Amqp
pub mod Storage
pub mod Event
pub mod Ledger
pub mod Strtol
pub mod Config
pub mod Command
pub mod Cluster
pub mod Load
pub mod Reach
pub mod Samples
mod Witness
