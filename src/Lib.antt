-- ===== src/Lib.antt =====
-- A model of the replicated log of this repository, and the theorems that make it correct.
--
-- The program is two consensus nodes over one storage interface. src/raft/node runs a user's state
-- machine on several hosts: clients send Execute to the leader, which appends to its log, copies
-- the log to the followers by AppendEntries, and applies an entry once a majority holds it.
-- src/metamorphosis/node is a queue on the same protocol: Append of a producer with a sequence id,
-- and Read at an offset. Both keep their term, vote and log in a key-value storage.
--
-- Which file models what:
-- - Prelude, with its children: Boolean tests, lists over the native numbers, and the outcome of
--   code that may abort by VERIFY or by GetValue of an error.
-- - Kv: src/runtime/kv_storage.h over src/runtime/simulator/database.cpp, a map in the order of its keys.
--   Kv/Lookup says what is read after a write; Kv/Numbered, how a map with keys 1, 2, ... is a list.
-- - Raft/Messages: src/raft/raft.proto. Raft/Machine: src/raft/node/state_machine_wrapper. Raft/Node,
--   Raft/Voting, Raft/Replication, Raft/Leading: src/raft/node/node.cpp, its state, accessors and
--   changes of role, then RequestVote with the elections, AppendEntries, and Execute with the
--   sessions of the leader and UpdateCommitIndex. The other files under Raft hold the theorems.
-- - Mtf/Messages, Mtf/Node, Mtf/Voting, Mtf/Replication, Mtf/Appends, Mtf/Leading: the proto file
--   and node/node.cpp of src/metamorphosis, in the same way, with Append and Read in Mtf/Appends; the
--   other files under Mtf hold theorems.
-- - Raft/Commit, Raft/Majority, Raft/Answered and Raft/Committing hold the theorems of UpdateCommitIndex:
--   which index it finds, that this is the protocol's, and what becomes of the frames that wait.
-- - Mtf/Pending is about a message that the queue's leader has not written yet, Mtf/Contents about what a
--   request of it holds.
-- - Raft/Client: src/raft/client, the loop that sends one request until a leader answers; Raft/Retries
--   holds its theorems.
-- - Queue: src/queue/service.cpp, the queue of one process; Queue/Ids holds its theorems.
-- - Raft/Cluster: several nodes of src/raft/node/node.cpp at once, as a step relation: the handlers of
--   each node in any order, restarts, and a network that loses, delays and repeats messages. Raft/Steady,
--   Raft/Quorum, Raft/Elected, Raft/Turns, Raft/Preserving, Raft/Campaigns and Raft/Safety hold the proof
--   of its safety.
-- - Store: src/runtime/kv_storage.h again, but down to the bytes: Store/Serde is src/runtime/util/serde,
--   Store/Database and Store/Iterator are src/runtime/simulator/database.cpp, Store/Storage is the
--   typed storage over them, and Store/Open has the two Opens. Store/Refine leads back to Kv; the
--   other files hold theorems and lemmas.
-- - Util/Search: src/util/binary_search.h; the files beside it hold its theorems.
-- - Cancel: src/runtime/util/cancellation, a StopState with the pointers of its callbacks, the constructor
--   and destructor of StopCallback, and StopSource::Stop; the files under it prove that they are a list.
-- - Raft/History: src/raft/test/util/history_checker.cpp, CheckLinearizability; Raft/Linear says what it
--   decides.
-- - Raft/Net: the cluster again, with the AppendEntries requests that its leaders have sent, which the
--   network may lose, delay, repeat and reorder, and with the sessions of a leader as they follow one
--   another. Raft/LogMatching is its theorem; Raft/Traced, Raft/Merging, Raft/Recorded, Raft/Recording,
--   Raft/Received, Raft/Sent, Raft/Matched, Raft/Keeping, Raft/Writing, Raft/Executing, Raft/Winning,
--   Raft/Winners and Raft/Sending lead to it, each for one part of a node or of the cluster.
-- - Sim: src/runtime/simulator, the deterministic simulation. Sim/Host is the life of a host, Sim/Time its
--   clock and SleepUntil, Sim/World the queue of events and RunSimulation, Sim/Network the way of a
--   request; Sim/Epochs, Sim/Sleeping, Sim/Clock and Sim/Answers hold their theorems.
--
-- A handler runs without interruption between two awaits, since fibers of a node are cooperative.
-- A handler that awaits is therefore two functions, one up to the await and one from it (execute
-- and end_execute, flush, build_request and handle_response). A timer, an RPC and its error are
-- inputs of the second function. In the nodes a StopSource is modelled by whether its present source
-- is stopped, and what its callbacks do is written out where it is stopped.
--
-- Bounds: uint64 keys and indices are numbers without a limit, except where the code names the
-- limit; theorems that need it say that the log fits below it. The term of a candidate, the counters
-- of producers and the ids of the queue wrap at 2 ^ 64. The local time of a simulated host is held
-- by its 64 bits, which wrap where the code's int64 overflows, and compared as int64. The loops are structural: over lists, or over a number of rounds that the definition
-- computes from the bounds of the loop, so that none can run out. BinarySearch takes its rounds as
-- an argument: 64 are enough for every range of uint64, and 63 for the times of a host. StopSource::Stop takes its rounds too: as
-- many as there are callbacks, and one, are enough.
--
-- The std::map of a simulated host is a list in the order of its comparator. Values of protobuf are
-- assumed to be read back as they were written.
--
-- Not modelled: the transport, timers and real databases; the rest of the runtime, the simulator's
-- scheduler, the code generators and the executables. The user's state machine, protobuf's
-- comparison of messages, MD5 and std::sort are parameters; the comparison is assumed to hold of
-- equal messages only.
pub mod Prelude
pub mod Kv
pub mod Raft
pub mod Mtf
pub mod Queue
pub mod Util
pub mod Store
pub mod Cancel
pub mod Sim
