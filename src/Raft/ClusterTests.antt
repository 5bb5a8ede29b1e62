-- ===== src/Raft/ClusterTests.antt =====
-- A run of a cluster of three nodes of src/raft/node in which node 0 is elected, and instances of the
-- theorems about clusters.
use metamorphosis.Prelude.{inr, inl, ℕ, ◌≡◌, refl, true, false, none, some, [], arith, ◌==◌, not}
use metamorphosis.Raft.Messages.{RequestVoteRequest, RequestVoteResult}
use metamorphosis.Raft.Machine.{Externals}
use metamorphosis.Raft.Node.{
  start_node, leader, majority_count, update_term, become_candidate, become_leader, ensure_follower,
  saved_log_size, last_saved_log_term,
}
use metamorphosis.Raft.Voting.{end_follower, start_candidate, request_vote, on_vote, is_up_to_date}
use metamorphosis.Raft.Cluster.{
  Election, Cluster, Reach, here, next, IsInitial, on_timeout, on_candidate, on_request_vote,
  on_reply,
}
use metamorphosis.Kv.{seek_to_last}
use metamorphosis.Raft.Safety.{one_leader}

-- A machine without a state; the comparison of entries plays no part.
abbrev idle : Externals ℕ
idle = record { apply = λ m c. (m, c); equals = λ a b. true }

abbrev three_nodes : Cluster ℕ
three_nodes = record {
  nodes = λ i. start_node (record { node_id = i; node_count = 3 }) 0 none none [];
  elections = λ i. none;
  granted = λ v t d. false;
  elected = λ d t. false;
}

three_nodes-IsInitial : IsInitial 3 three_nodes
unfolding start_node
three_nodes-IsInitial = record {
  config = λ i l. refl;
  state = λ i l. refl;
  elections = λ i l. refl;
  granted = λ v t d. refl;
  elected = λ d t. refl;
}

abbrev asks : RequestVoteRequest
asks = record { term = 1; candidate_id = 0; last_log_index = 0; last_log_term = 0 }

abbrev grants : RequestVoteResult
grants = record { term = 0; vote_granted = true }

abbrev first : Election
first = record { term = 1; waiting = λ j. not (j == 0); votes = 1 }

run :
    (d : Cluster ℕ) × Reach idle 3 three_nodes d
    × (d.elected 0 1 ≡ true)
    × ((d.nodes 0).state ≡ leader)
    × ((d.nodes 0).current_term ≡ 1)
unfolding start_node end_follower become_candidate start_candidate update_term request_vote on_vote
    become_leader ensure_follower majority_count saved_log_size last_saved_log_term is_up_to_date
    seek_to_last
run = (
  _,
  next
      (next
        (next (next here (on_timeout 0 (omega arith) refl refl))
          (on_candidate 0 1 asks (omega arith) refl refl refl))
        (on_request_vote 1 asks grants (omega arith) refl))
      (on_reply 0 1 2 first (some grants) (omega arith) (omega arith) refl refl (λ a e g. refl)
        refl),
  refl,
  refl,
  refl,
)

one_leader_example : ◌≡◌ {A = ℕ} 0 0
one_leader_example =
    one_leader idle 3 three_nodes run.0 three_nodes-IsInitial run.1 0 0 1 (inl run.2)
      (inr (omega arith, run.3, run.4))
