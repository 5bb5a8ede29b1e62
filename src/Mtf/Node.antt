-- ===== src/Mtf/Node.antt =====
-- src/metamorphosis/node/node.cpp: the state of MetamorphosisNode, its accessors and its changes of role.
use metamorphosis.Prelude.{
  suc, zero, ◌%◌, ◌^◌, ◌>>=◌, ℕ, ◌+◌, ◌-◌, ◌/◌, ltb, leb, ◌&&◌, if◌then◌else◌, Bool, true, false,
  Option, none, some, List, [], ◌∷◌, length, get_elem?, replicate, Outcome, done, aborted, ◌>>◌,
  verify, get_value,
}
use metamorphosis.Kv.{put, Kv, get, seek_to_last}
use metamorphosis.Kv.Numbered.{last_key}
use metamorphosis.Mtf.Messages.{LogEntry}

pub data State : Type 0 where
  leader follower candidate : State

-- The sessions between which the loop of StartNode chooses.
pub data Session : Type 0 where
  leader_session follower_session candidate_session : Session

abbrev pub next_session : State → Session
next_session leader = leader_session
next_session follower = follower_session
next_session candidate = candidate_session

-- The PendingRequest on the stack of one call of Append.
pub record PendingRequest : Type 0 where
  pub replication_finished : Bool
  pub offset : ℕ

-- Of NodeConfig, the own index and the size of cluster_nodes.
pub record Config : Type 0 where
  pub node_id : ℕ
  pub node_count : ℕ

-- A StopSource field is modelled by whether its present source is stopped. `frames` holds the
-- PendingRequest objects by address, `pending_requests` the addresses by log index, and `wake_up`
-- is the event that the leader's main session awaits.
pub record Node : Type 0 where
  pub state : State
  pub config : Config
  pub open config use *
  pub current_term : ℕ
  pub voted_for : Option ℕ
  pub raft_log : Kv LogEntry
  pub commit_index : ℕ
  pub match_index : List ℕ
  pub next_index : List ℕ
  pub current_term_start_index : ℕ
  pub pending_requests : Kv ℕ
  pub frames : Kv PendingRequest
  pub pending_log : List LogEntry
  pub stop_election : Bool
  pub stop_leader : Bool
  pub reset_election_timeout : Bool
  pub reset_heartbeat_timeout : Bool
  pub wake_up : Bool
  pub producer_next_sequence_id : Kv ℕ
  pub pending_producers : List ℕ
  pub alive_main_nodes_count : ℕ

abbrev pub is_leader : State → Bool
is_leader leader = true
is_leader follower = false
is_leader candidate = false

abbrev pub is_follower : State → Bool
is_follower leader = false
is_follower follower = true
is_follower candidate = false

abbrev pub is_candidate : State → Bool
is_candidate leader = false
is_candidate follower = false
is_candidate candidate = true

abbrev term_or_zero : Option ℕ → ℕ
term_or_zero none = 0
term_or_zero (some t) = t

abbrev pub entry_term : Option (ℕ × LogEntry) → ℕ
entry_term none = 0
entry_term (some (k, e)) = e.term

abbrev signal : PendingRequest → PendingRequest
signal p = record p { replication_finished = true }

-- StopSource::Stop runs the finish_guard of every Append that waits.
pub signal_all : Kv PendingRequest → Kv PendingRequest
signal_all [] = []
signal_all ((k, p) ∷ m) = (k, signal p) ∷ signal_all m

unfoldable pub majority_count : Config → ℕ
majority_count c = c.node_count / 2 + 1

-- unordered_map::operator[] of a counter: a missing one is 0.
abbrev pub counter : ℕ → Kv ℕ → ℕ
counter p m = elim (get p m) [ none ↦ 0 | some n ↦ n ]

-- ++producer_next_sequence_id[p] and --producer_next_sequence_id[p] on uint64.
unfoldable pub increment : ℕ → Kv ℕ → Kv ℕ
increment p m = put p ((counter p m + 1) % 2 ^ 64) m

unfoldable pub decrement : ℕ → Kv ℕ → Kv ℕ
decrement p m = put p ((counter p m + (2 ^ 64 - 1)) % 2 ^ 64) m

-- A counter is incremented for each entry, or decremented.
unfoldable pub increment_all : List LogEntry → Kv ℕ → Kv ℕ
increment_all [] m = m
increment_all (e ∷ es) m = increment_all es (increment e.producer_id m)

unfoldable pub decrement_all : List LogEntry → Kv ℕ → Kv ℕ
decrement_all [] m = m
decrement_all (e ∷ es) m = decrement_all es (decrement e.producer_id m)

-- The values of `count` keys from `index`; GetValue aborts where one is missing.
unfoldable pub get_range : ℕ → ℕ → Kv LogEntry → Outcome (List LogEntry)
get_range zero index log = done []
get_range (suc count) index log = do
  e ← get_value (get index log)
  es ← get_range count (suc index) log
  done (e ∷ es)

-- The constructor: opens the databases of an earlier run, puts a missing term to 0, and counts the
-- entries of each producer.
unfoldable pub start_node : Config → Option ℕ → Option ℕ → Kv LogEntry → Outcome Node
start_node config term voted_for log = do
  es ← get_range (last_key (seek_to_last log)) 1 log
  done (record {
    state = follower;
    config = config;
    current_term = term_or_zero term;
    voted_for = voted_for;
    raft_log = log;
    commit_index = 0;
    match_index = [];
    next_index = [];
    current_term_start_index = 0;
    pending_requests = [];
    frames = [];
    pending_log = [];
    stop_election = false;
    stop_leader = false;
    reset_election_timeout = false;
    reset_heartbeat_timeout = false;
    wake_up = false;
    producer_next_sequence_id = increment_all es [];
    pending_producers = [];
    alive_main_nodes_count = 0;
  })

unfoldable pub saved_log_size : Node → ℕ
saved_log_size s = last_key (seek_to_last s.raft_log)

unfoldable pub last_saved_log_term : Node → ℕ
last_saved_log_term s = entry_term (seek_to_last s.raft_log)

unfoldable pub get_log_entry : ℕ → Node → Outcome LogEntry
get_log_entry index s =
    let size = saved_log_size s in
    do
      verify (ltb 0 index && leb index (size + length s.pending_log))
      if leb index size
          then get_value (get index s.raft_log)
          else get_value (get_elem? s.pending_log (index - size - 1))

-- One WriteBatch: the term, and the vote put or deleted.
unfoldable pub update_term : ℕ → Option ℕ → Node → Outcome (Node)
update_term term voted s = do
  verify (ltb s.current_term term)
  done (record s { current_term = term; voted_for = voted })

-- reset_heartbeat_timeout.Stop(), whose callback is the wake_up_guard of the main session.
abbrev pub stop_heartbeat : Node → Node
stop_heartbeat s = record s { reset_heartbeat_timeout = true; wake_up = true }

unfoldable pub become_leader : Node → Outcome (Node)
become_leader s = do
  verify (is_candidate s.state)
  done (record s {
    pending_log = [];
    current_term_start_index = saved_log_size s + 1;
    next_index = replicate s.node_count (saved_log_size s + 1);
    match_index = replicate s.node_count 0;
    reset_heartbeat_timeout = false;
    stop_leader = false;
    stop_election = true;
    alive_main_nodes_count = majority_count s.config;
    state = leader;
  })

-- stop_leader.Stop() runs the finish_guards and leader_cancel_propagate.
step_down : State → Node → Outcome (Node)
step_down leader s = done (
    stop_heartbeat
      (record s { stop_leader = true; frames = signal_all s.frames; state = follower }))
step_down candidate s = done (record s { stop_election = true; state = follower })
step_down follower s = aborted

unfoldable pub become_follower : Node → Outcome (Node)
unfolding step_down signal_all
become_follower s = step_down s.state s

unfoldable pub become_candidate : Node → Outcome (Node)
become_candidate s = do
  verify (is_follower s.state)
  done (record s { reset_election_timeout = true; state = candidate })

-- if (state != State::Follower) BecomeFollower();
unfoldable pub ensure_follower : Node → Outcome (Node)
unfolding become_follower
ensure_follower s = if is_follower s.state then done s else become_follower s

-- A main node receives full copies before the commit: the first nodes but this one, as many as make
-- a majority with it.
unfoldable pub is_main_node : Config → ℕ → Bool
unfolding majority_count
is_main_node c index =
    if leb (majority_count c) c.node_id
    then ltb index (majority_count c - 1)
    else ltb index (majority_count c)
