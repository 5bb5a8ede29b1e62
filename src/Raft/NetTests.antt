-- ===== src/Raft/NetTests.antt =====
-- A run of three nodes of src/raft/node in which node 0 is elected and replicates an entry to node 1,
-- and an instance of log matching.
use metamorphosis.Prelude.{
  ◌<◌, length, ◌+◌, done, ℕ, ◌≡◌, refl, true, false, none, some, [], ◌∷◌, arith, ◌==◌, not,
}
use metamorphosis.Raft.Messages.{RequestVoteRequest, RequestVoteResult, AppendEntriesRequest}
use metamorphosis.Raft.Net.{
  Net, node_at, on_send, on_append_entries, on_execute, on_start_main_session, on_flush, on_timeout,
  on_candidate, on_reply, on_request_vote, Runs, here, next,
}
use metamorphosis.Raft.Cluster.{Election}
use metamorphosis.Raft.LogMatching.{IsNew, logs_match}
use metamorphosis.Raft.Tests.{counter, counter-IsLawful, entry, request}
use metamorphosis.Raft.Node.{
  Node, leader, start_node, majority_count, update_term, become_candidate, become_leader,
  ensure_follower, saved_log_size, last_saved_log_term, get_log_entry,
}
use metamorphosis.Raft.Voting.{end_follower, start_candidate, request_vote, on_vote, is_up_to_date}
use metamorphosis.Raft.Replication.{
  u64_max, reply, append_entries, append, accept, follow, check_committed, matches_previous,
  apply_range, entries_batch,
}
use metamorphosis.Raft.Leading.{
  execute, start_main_session, build_request, collect_entries, flush, update_commit_index,
  commit_range, find_commit_index, match_count,
}
use metamorphosis.Kv.{get, put, write, delete_range, seek_to_last}

abbrev three : Net ℕ
three = record {
  cluster = record {
    nodes = λ i. start_node (record { node_id = i; node_count = 3 }) 0 none none [];
    elections = λ i. none;
    granted = λ v t d. false;
    elected = λ d t. false;
  };
  main = λ i. false;
  sent = [];
  written = λ t. [];
}

three-IsNew : IsNew 3 three
unfolding start_node
three-IsNew = record {
  cluster = record {
    config = λ i l. refl;
    state = λ i l. refl;
    elections = λ i l. refl;
    granted = λ v t d. refl;
    elected = λ d t. refl;
  };
  nodes = λ i l. (0, refl);
  main = λ i. refl;
  sent = refl;
  written = λ t. refl;
}

abbrev asks : RequestVoteRequest
asks = record { term = 1; candidate_id = 0; last_log_index = 0; last_log_term = 0 }

abbrev grants : RequestVoteResult
grants = record { term = 0; vote_granted = true }

abbrev first : Election
first = record { term = 1; waiting = λ j. not (j == 0); votes = 1 }

abbrev carries : AppendEntriesRequest
carries = record {
  term = 1;
  leader_id = 0;
  prev_log_index = 0;
  prev_log_term = 0;
  entries = entry 1 10 ∷ [];
  leader_commit = 0;
}

-- Node 1 after its vote, and node 0 as the leader: as it is elected, and with a request in its
-- pending log.
abbrev voter : Node ℕ
voter = record (start_node (record { node_id = 1; node_count = 3 }) 0 none none []) {
  current_term = 1;
  voted_for = some 0;
}

abbrev chosen : Node ℕ
chosen = record (start_node (record { node_id = 0; node_count = 3 }) 0 none none []) {
  state = leader;
  current_term = 1;
  voted_for = some 0;
  match_index = 0 ∷ 0 ∷ 0 ∷ [];
  next_index = 1 ∷ 1 ∷ 1 ∷ [];
  current_term_start_index = 1;
  stop_election = true;
  reset_election_timeout = true;
}

abbrev working : Node ℕ
working = record chosen {
  next_index = 2 ∷ 1 ∷ 1 ∷ [];
  pending_requests = (1, 5) ∷ [];
  frames = (5, record { replication_finished = false; result = [] }) ∷ [];
  pending_log = entry 1 10 ∷ [];
  wake_up = true;
}

abbrev holder : Node ℕ
holder = record voter { raft_log = (1, entry 1 10) ∷ []; reset_election_timeout = true }

abbrev saver : Node ℕ
saver = record working {
  raft_log = (1, entry 1 10) ∷ [];
  match_index = 1 ∷ 0 ∷ 0 ∷ [];
  pending_log = [];
  wake_up = false;
}

election : (d : Net ℕ) × Runs counter 3 three d × (node_at d 0 ≡ chosen) × (node_at d 1 ≡ voter)
unfolding start_node end_follower become_candidate start_candidate update_term request_vote on_vote
    become_leader ensure_follower majority_count saved_log_size last_saved_log_term is_up_to_date
    seek_to_last
election = (
  _,
  next
      (next
        (next (next here (on_timeout 0 (omega arith) refl refl refl))
          (on_candidate 0 1 asks (omega arith) refl refl refl))
        (on_request_vote 1 asks grants (omega arith) refl))
      (on_reply 0 1 2 first (some grants) (omega arith) (omega arith) refl refl (λ a e g. refl)
        refl),
  refl,
  refl,
)

works : start_main_session (execute 5 (request 7 10) chosen).0 ≡ working
unfolding start_node execute start_main_session saved_log_size seek_to_last put
works = refl

sends : build_request 1 working ≡ done carries
unfolding start_node build_request collect_entries get_log_entry saved_log_size seek_to_last get
sends = refl

holds : append_entries counter carries voter ≡ done (holder, reply 1 true)
unfolding start_node append_entries append accept follow ensure_follower check_committed
    matches_previous apply_range entries_batch write put delete_range saved_log_size seek_to_last
holds = refl

saves : flush counter working ≡ done saver
unfolding start_node flush update_commit_index commit_range find_commit_index match_count write put
    majority_count saved_log_size seek_to_last
saves = refl

served : (execute 5 (request 7 10) chosen).0.state ≡ leader
unfolding start_node execute
served = refl

leads : working.state ≡ leader
leads = refl

room : saved_log_size working + length working.pending_log < u64_max
unfolding start_node saved_log_size seek_to_last
room = omega arith

run :
    (d : Net ℕ) × Runs counter 3 three d
    × (get 1 (node_at d 0).raft_log ≡ some (entry 1 10))
    × (get 1 (node_at d 1).raft_log ≡ some (entry 1 10))
unfolding get
run =
    let (d, elect, zero_is, one_is) = election in
    let asked = (execute 5 (request 7 10) (node_at d 0)).0 in
    let begun_ = start_main_session asked in
    let work : begun_ ≡ working = rw zero_is works in
    let serving : asked.state ≡ leader = rw zero_is served in
    let leading : begun_.state ≡ leader = rw work leads in
    let built : build_request 1 begun_ ≡ done carries = rw work sends in
    let held : append_entries counter carries (node_at d 1) ≡ done (holder, reply 1 true) =
      rw one_is holds in
    let fits : saved_log_size begun_ + length begun_.pending_log < u64_max = rw work room in
    let saved : flush counter begun_ ≡ done saver = rw work saves in
    let taken = next elect (on_execute 0 5 (request 7 10) (omega arith)) in
    let begins = next taken (on_start_main_session 0 (omega arith) serving) in
    let sent = next begins (on_send 0 1 carries (omega arith) leading built) in
    let copied =
      next sent
        (on_append_entries 1 0 carries (reply 1 true) (omega arith) refl (omega arith) held) in
    (_, next copied (on_flush 0 (omega arith) refl fits saved), refl, refl)

logs_match_example : get 1 (node_at run.0 0).raft_log ≡ get 1 (node_at run.0 1).raft_log
logs_match_example =
    logs_match counter counter-IsLawful 3 three run.0 three-IsNew run.1 0 1 1 1 (entry 1 10)
      (entry 1 10) (omega arith) (omega arith) run.2 run.3 refl (omega arith)
