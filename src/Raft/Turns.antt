-- ===== src/Raft/Turns.antt =====
-- What each turn of a node of src/raft/node/node.cpp does to its term, vote and role.
use metamorphosis.Prelude.{
  Bool-cases, ltb, ℕ, suc, ◌+◌, ◌≡◌, ◌≢◌, ◌==◌, ◌⊎◌, inl, inr, ◌&&◌, not, true, Option, some, none,
  done, arith, refl,
}
use metamorphosis.Raft.Messages.{RequestVoteRequest, RequestVoteResult}
use metamorphosis.Raft.Machine.{Externals}
use metamorphosis.Raft.Node.{
  Node, leader, candidate, is_candidate, majority_count, start_node, update_term, ensure_follower,
  become_candidate, become_leader,
}
use metamorphosis.Raft.Voting.{request_vote, end_follower, start_candidate, on_vote}
use metamorphosis.Raft.Steady.{
  Steady, append_entries-Steady, execute-Steady, end_execute-Steady, flush-Steady,
  handle_response-Steady, start_follower-Steady, start_main_session-Steady, end_leader-Steady,
}
use metamorphosis.Raft.Cluster.{
  at, Local, on_append_entries, on_execute, on_end_execute, on_flush, on_response,
  on_start_follower, on_start_main_session, on_end_leader,
}

pub at-same {ℓ} : {A : Type ℓ} (i : ℕ) (a : A) (f : ℕ → A) → at i a f i ≡ a
at-same i a f = ground arith

pub at-other {ℓ} : {A : Type ℓ} (i j : ℕ) (a : A) (f : ℕ → A) → j ≢ i → at i a f j ≡ f j
at-other i j a f h = ground arith

pub Local-Steady : {M : Type 0} {x : Externals M} {s s' : Node M} → Local x s s' → Steady s s'
Local-Steady (on_append_entries r a e) = append_entries-Steady _ r _ _ a e
Local-Steady (on_execute address r) = execute-Steady address r _
Local-Steady (on_end_execute w o e) = end_execute-Steady w _ _ o e
Local-Steady (on_flush e) = flush-Steady _ _ _ e
Local-Steady (on_response node r o e) = handle_response-Steady _ node r o _ _ e
Local-Steady on_start_follower = start_follower-Steady _
Local-Steady on_start_main_session = start_main_session-Steady _
Local-Steady on_end_leader = end_leader-Steady _

module _ {M : Type 0} where
  pub start_node-Steady :
      (s : Node M) (machine : M)
      → Steady s (start_node s.config machine (some s.current_term) s.voted_for s.raft_log)
  unfolding start_node
  start_node-Steady s machine = ground arith

  pub request_vote_grants :
      (r : RequestVoteRequest) (s s' : Node M) (a : RequestVoteResult)
      → request_vote r s ≡ done (s', a)
      → a.vote_granted ≡ true
      → (s'.current_term ≡ r.term) × (s'.voted_for ≡ some r.candidate_id)
  unfolding request_vote ensure_follower update_term
  request_vote_grants r s s' a e g = ground arith

  pub end_follower_keeps :
      (s s' : Node M)
      → end_follower s ≡ done s'
      → (s'.config ≡ s.config)
        × (s'.current_term ≡ s.current_term)
        × (s'.voted_for ≡ s.voted_for)
        × (s'.state ≡ leader → s.state ≡ leader)
  unfolding end_follower become_candidate
  end_follower_keeps s s' e = ground arith

  pub start_candidate_votes :
      (s s' : Node M) (votes : ℕ) (r : RequestVoteRequest)
      → start_candidate s ≡ done (s', votes, r)
      → (votes ≡ 1)
        × (r.term ≡ suc s.current_term)
        × (s'.current_term ≡ suc s.current_term)
        × (s'.voted_for ≡ some s.node_id)
        × (s'.config ≡ s.config)
        × (s'.state ≡ s.state)
  unfolding start_candidate update_term
  start_candidate_votes s s' votes r e = ground arith

  -- A reply changes nothing of the count, or is a granted vote, which may be the one that makes the
  -- candidate the leader.
  pub on_vote_cases :
      (o : Option RequestVoteResult) (votes : ℕ) (s s' : Node M) (votes' : ℕ)
      → on_vote o votes s ≡ done (s', votes')
      → ((votes' ≡ votes) × Steady s s')
        ⊎ ((a : RequestVoteResult) × (o ≡ some a)
            × (a.vote_granted ≡ true)
            × (votes' ≡ suc votes)
            × (Steady s s'
                ⊎ ((s.state ≡ candidate)
                    × (suc votes ≡ majority_count s.config)
                    × (s'.config ≡ s.config)
                    × (s'.current_term ≡ s.current_term)
                    × (s'.voted_for ≡ s.voted_for)
                    × (s'.state ≡ leader))))
  unfolding on_vote update_term ensure_follower become_leader
  on_vote_cases none votes s s' votes' e = inl (ground arith, ground arith)
  on_vote_cases (some a) votes s s' votes' e =
      elim (Bool-cases (a.vote_granted && not (ltb s.current_term a.term))) [
        | inl counted ↦ inr (
          a,
          refl,
          ground arith,
          ground arith,
          elim (Bool-cases (votes + 1 == majority_count s.config && is_candidate s.state)) [
            | inl wins ↦ inr (ground arith)
            | inr waits ↦ inl (ground arith)
          ],
        )
        | inr other ↦ inl (ground arith, ground arith)
      ]
