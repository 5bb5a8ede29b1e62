-- ===== src/Raft/Tests.antt =====
-- Runs of the node of src/raft/node on small inputs, and instances of the theorems about it.
use metamorphosis.Prelude.{
  Option, some, ◌+◌, zero, get_or, ℕ, suc, ◌≤◌, ◌<◌, ◌≡◌, ◌↔◌, refl, List, [], ◌∷◌, arith, true,
  false, Bool, none, done, inr, ℕ_discrete,
}
use metamorphosis.Raft.Elections.{on_votes, election_won}
use metamorphosis.Raft.Voting.{end_follower, start_candidate, request_vote}
use metamorphosis.Raft.Node.{
  next_session, candidate_session, leader_session, saved_log_size, last_saved_log_term,
  majority_count, Node, leader, follower, candidate, become_leader,
}
use metamorphosis.Kv.{get}
use metamorphosis.Kv.Numbered.{numbered}
use metamorphosis.Raft.Messages.{
  RequestVoteResult, Request, LogEntry, AppendEntriesRequest, RequestVoteRequest,
}
use metamorphosis.Raft.Machine.{Externals, ExactlyOnce, IsLawful, apply, replay}
use metamorphosis.Raft.Replication.{reply, append_entries}
use metamorphosis.Raft.Leading.{start_main_session, flush, build_request}
use metamorphosis.Raft.Accepting.{IsValid}
use metamorphosis.Raft.Appending.{append_entries_accepts, append_entries_rejects, Follows}
use metamorphosis.Raft.Committed.{Keeps, append_entries-Keeps}
use metamorphosis.Raft.Ballots.{voted, UpToDate, Voted, request_vote-Voted, grants-UpToDate}
use metamorphosis.Raft.Serving.{execute_all, entries_of, serving-Leads}
use metamorphosis.Raft.Leadership.{Leads, flush-Leads}
use metamorphosis.Raft.Matching.{request_replicates}
use metamorphosis.Raft.ExactlyOnce.{
  effective, run_commands, replay-effective, retry_once, zero_id_lost,
}

pub Request-discrete : Discrete Request
Request-discrete = hlevel ℕ_discrete

pub LogEntry-discrete : Discrete LogEntry
LogEntry-discrete = hlevel (ℕ_discrete, Request-discrete)

abbrev pub is_yes : {A : Type 0} → Dec A → Bool
is_yes (yes a) = true
is_yes (no f) = false

is_yes_iff : {A : Type 0} (d : Dec A) → (is_yes d ≡ true) ↔ A
is_yes_iff (yes a) = ((λ _. a), (λ _. refl))
is_yes_iff (no f) = ((λ e. cc), (λ a. absurd (f a)))

-- A machine that counts commands and answers with the count.
abbrev pub counter : Externals ℕ
counter = record {
  apply = λ m c. (suc m, suc m ∷ []);
  equals = λ a b. is_yes (LogEntry-discrete a b);
}

pub counter-IsLawful : IsLawful counter
counter-IsLawful = record { equals_iff = λ a b. is_yes_iff (LogEntry-discrete a b) }

abbrev pub fresh : ExactlyOnce ℕ
fresh = record { state_machine = 0; clients_last_cmd_id = [] }

abbrev pub request : ℕ → ℕ → Request
request client id = record { request_id = id; client_id = client; command = 5 ∷ [] }

abbrev pub entry : ℕ → ℕ → LogEntry
entry term id = record { term = term; request = request 7 id }

-- Node 0 of three, in term 1 with one uncommitted entry.
abbrev node : Node ℕ
node = record {
  state = follower;
  config = record { node_id = 0; node_count = 3 };
  current_term = 1;
  voted_for = none;
  raft_log = numbered 1 (entry 1 10 ∷ []);
  commit_index = 0;
  match_index = [];
  next_index = [];
  current_term_start_index = 0;
  pending_requests = [];
  frames = [];
  pending_log = [];
  rsm = fresh;
  stop_election = false;
  stop_leader = false;
  reset_election_timeout = false;
  reset_heartbeat_timeout = false;
  wake_up = false;
}

node-IsValid : IsValid counter fresh node (entry 1 10 ∷ [])
unfolding replay
node-IsValid = record { log = refl; fits = omega arith; committed = omega arith; applied = refl }

-- The leader of term 2, with one saved and one pending entry; nodes 0 and 1 hold the saved one.
abbrev pub leading : Node ℕ
leading = record node {
  state = leader;
  current_term = 2;
  raft_log = numbered 1 (entry 2 10 ∷ []);
  match_index = 1 ∷ 1 ∷ 0 ∷ [];
  next_index = 3 ∷ 2 ∷ 1 ∷ [];
  current_term_start_index = 1;
  pending_log = entry 2 11 ∷ [];
}

leading-IsValid : IsValid counter fresh leading (entry 2 10 ∷ [])
unfolding replay
leading-IsValid = record { log = refl; fits = omega arith; committed = omega arith; applied = refl }

three : (P : ℕ → Type 0) → P 0 → P 1 → P 2 → (i : ℕ) → i < 3 → P i
three P a b c zero h = a
three P a b c (suc zero) h = b
three P a b c (suc (suc zero)) h = c
three P a b c (suc (suc (suc i))) h = absurd (omega arith)

leading-Leads : Leads leading (entry 2 10 ∷ [])
leading-Leads = record {
  state = refl;
  self = omega arith;
  nexts = refl;
  matches = refl;
  saved = refl;
  next_self = refl;
  low = three (λ i. 1 ≤ get_or (3 ∷ 2 ∷ 1 ∷ []) i 0) (omega arith) (omega arith) (omega arith);
  high = three (λ i. get_or (3 ∷ 2 ∷ 1 ∷ []) i 0 ≤ 3) (omega arith) (omega arith) (omega arith);
}

abbrev heartbeat : AppendEntriesRequest
heartbeat = record {
  term = 2;
  leader_id = 1;
  prev_log_index = 1;
  prev_log_term = 1;
  entries = entry 2 11 ∷ [];
  leader_commit = 1;
}

append_entries_accepts_example :
    (s' : Node ℕ) × (append_entries counter heartbeat node ≡ done (s', reply 1 true))
    × IsValid counter fresh s' (entry 1 10 ∷ entry 2 11 ∷ [])
    × (s'.commit_index ≡ 1)
    × (s'.state ≡ follower)
    × (s'.current_term ≡ 2)
append_entries_accepts_example =
    append_entries_accepts counter counter-IsLawful fresh heartbeat node (entry 1 10 ∷ [])
      node-IsValid (omega arith) (omega arith) (omega arith) refl ((λ h. absurd (omega arith)), tt)

append_entries_rejects_example :
    (s' : Node ℕ) × (append_entries counter (record heartbeat { prev_log_term = 2 }) node
      ≡ done (s', reply 1 false))
    × Follows 2 node s'
append_entries_rejects_example =
    append_entries_rejects counter counter-IsLawful fresh (record heartbeat { prev_log_term = 2 })
      node (entry 1 10 ∷ []) node-IsValid (omega arith) (λ e. absurd (omega (arith, e)))
      (inr (omega arith))

append_entries-Keeps_example :
    (ys : List LogEntry) × Keeps counter fresh node append_entries_accepts_example.0
      (entry 1 10 ∷ [])
      ys
append_entries-Keeps_example =
    append_entries-Keeps counter counter-IsLawful fresh heartbeat node (entry 1 10 ∷ [])
      node-IsValid (omega arith) append_entries_accepts_example.0 (reply 1 true)
      append_entries_accepts_example.1

abbrev ballot : RequestVoteRequest
ballot = record { term = 2; candidate_id = 2; last_log_index = 1; last_log_term = 1 }

request_vote-Voted_example :
    (request_vote ballot node ≡ done (voted ballot node))
    × Voted ballot node (voted ballot node).0 (voted ballot node).1
request_vote-Voted_example = request_vote-Voted ballot node

grants-UpToDate_example :
    ((voted ballot node).1.vote_granted ≡ true)
    ↔ ((node.current_term ≡ 2 → node.voted_for ≡ none) × UpToDate ballot (entry 1 10 ∷ []))
grants-UpToDate_example =
    grants-UpToDate ballot node (entry 1 10 ∷ []) refl (omega arith)
      (λ e. absurd (omega (arith, e)))

abbrev elected_node : Node ℕ
elected_node = record node { state = candidate }

abbrev two_requests : List (ℕ × Request)
two_requests = (0, request 7 12) ∷ (1, request 7 13) ∷ []

serving-Leads_example :
    (s' : Node ℕ) × (become_leader elected_node ≡ done s')
    × Leads (execute_all two_requests (start_main_session s')) (entry 1 10 ∷ [])
    × ((execute_all two_requests (start_main_session s')).pending_log ≡ entries_of 1 two_requests)
serving-Leads_example =
    serving-Leads elected_node (entry 1 10 ∷ []) two_requests refl (omega arith) refl

flush-Leads_example :
    (s' : Node ℕ) × (flush counter leading ≡ done s')
    × IsValid counter fresh s' (entry 2 10 ∷ entry 2 11 ∷ [])
    × Leads s' (entry 2 10 ∷ entry 2 11 ∷ [])
    × (s'.pending_log ≡ [])
flush-Leads_example =
    flush-Leads counter fresh leading (entry 2 10 ∷ []) leading-IsValid leading-Leads (omega arith)

request_replicates_example :
    (r : AppendEntriesRequest) × (t' : Node ℕ) × (build_request 2 leading ≡ done r)
    × (append_entries counter r node ≡ done (t', reply 1 true))
    × IsValid counter fresh t' (entry 2 10 ∷ entry 2 11 ∷ [])
request_replicates_example =
    request_replicates counter counter-IsLawful fresh leading node (entry 2 10 ∷ [])
      (entry 1 10 ∷ []) refl leading-Leads node-IsValid 2 0 refl (omega arith) (omega arith)
      (omega arith) (omega arith) refl refl (omega arith)

abbrev twice : List LogEntry
twice = entry 1 10 ∷ entry 1 10 ∷ entry 1 11 ∷ []

replay-effective_example : (replay counter twice fresh).state_machine ≡ 2
unfolding effective run_commands get
replay-effective_example = replay-effective counter twice fresh (λ _. 0) (λ _. refl)

abbrev other : LogEntry
other = record { term = 1; request = request 8 3 }

retry_once_example :
    let first = apply counter (request 7 10) fresh in
    let before = replay counter (other ∷ []) first.0 in
    ((apply counter (request 7 10) before).0.state_machine ≡ before.state_machine)
    × ((apply counter (request 7 10) before).1 ≡ first.1)
retry_once_example = retry_once counter (request 7 10) (other ∷ []) fresh (omega arith, tt)

zero_id_lost_example :
    ((apply counter (request 7 0) fresh).0.state_machine ≡ 0)
    × ((apply counter (request 7 0) fresh).1 ≡ [])
unfolding get
zero_id_lost_example = zero_id_lost counter (request 7 0) fresh refl refl

-- An error, a refusal and a grant.
abbrev vote_answers : List (Option RequestVoteResult)
vote_answers =
    none
    ∷ some (record { term = 1; vote_granted = false })
    ∷ some (record { term = 2; vote_granted = true })
    ∷ []

election_won_example :
    (s' : Node ℕ) × (t : Node ℕ) × (r : RequestVoteRequest) × (u : Node ℕ) × (end_follower node
      ≡ done s')
    × (next_session s'.state ≡ candidate_session)
    × (start_candidate s' ≡ done (t, 1, r))
    × (t.current_term ≡ 2)
    × (t.voted_for ≡ some 0)
    × (r.term ≡ 2)
    × (r.last_log_index ≡ saved_log_size node)
    × (r.last_log_term ≡ last_saved_log_term node)
    × (on_votes vote_answers 1 t ≡ done (u, 2))
    × (next_session u.state ≡ leader_session)
    × (u.current_term ≡ 2)
    × (u.current_term_start_index ≡ saved_log_size node + 1)
    × (u.pending_log ≡ [])
unfolding majority_count
election_won_example =
    election_won node vote_answers refl refl (omega arith) (omega arith) (omega arith)
      (tt, (omega arith, (omega arith, tt)))
