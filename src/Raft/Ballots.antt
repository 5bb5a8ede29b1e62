-- ===== src/Raft/Ballots.antt =====
-- What RequestVote of src/raft/node/node.cpp promises: one vote in a term, for an up-to-date log.
use metamorphosis.Prelude.{
  max, ◌↔◌, ℕ, ◌-◌, ◌≤◌, ◌<◌, ◌≡◌, ◌≢◌, ◌⊎◌, List, length, arith, true, false, none, some,
  get_elem?, done, value_or,
}
use metamorphosis.Kv.Numbered.{numbered}
use metamorphosis.Raft.Messages.{LogEntry, RequestVoteRequest, RequestVoteResult}
use metamorphosis.Raft.Node.{
  Node, follower, saved_log_size, last_saved_log_term, update_term, ensure_follower,
}
use metamorphosis.Raft.Voting.{is_up_to_date, request_vote}
use metamorphosis.Raft.Log.{term_at, saved_log_size-length, last_saved_log_term-last}

-- The later of two last entries: by term, then by index.
abbrev pub UpToDate : RequestVoteRequest → List LogEntry → Type 0
UpToDate r xs =
    (term_at (get_elem? xs (length xs - 1)) < r.last_log_term)
    ⊎ ((term_at (get_elem? xs (length xs - 1)) ≡ r.last_log_term) × (length xs ≤ r.last_log_index))

-- What a handled vote request leaves: the later of the two terms, the role and vote as granted.
pub record Voted {M : Type 0} (r : RequestVoteRequest) (s s' : Node M) (a : RequestVoteResult)
    : Type 0 where
  pub log : s'.raft_log ≡ s.raft_log
  pub commit : s'.commit_index ≡ s.commit_index
  pub rsm : s'.rsm ≡ s.rsm
  pub replied : a.term ≡ s.current_term
  pub term : s'.current_term ≡ max s.current_term r.term
  pub stays : s.current_term ≡ s'.current_term → s'.state ≡ s.state
  pub falls : s.current_term < s'.current_term → s'.state ≡ follower
  pub granted :
      a.vote_granted ≡ true → (s.current_term ≤ r.term) × (s'.voted_for ≡ some r.candidate_id)
  pub kept :
      (c : ℕ) → s.current_term ≡ s'.current_term → s.voted_for ≡ some c → s'.voted_for ≡ some c

module _ {M : Type 0} (r : RequestVoteRequest) (s : Node M) where
  abbrev pub voted : Node M × RequestVoteResult
  voted = value_or (request_vote r s) (s, record { term = 0; vote_granted = false })

  -- The handler never aborts.
  pub request_vote-Voted : (request_vote r s ≡ done voted) × Voted r s voted.0 voted.1
  unfolding request_vote ensure_follower update_term
  request_vote-Voted = ground arith

  -- Of a candidate of this or a later term that the node has not yet voted for in that term, the
  -- vote is granted exactly if the node has voted for nobody in it and the candidate's log is
  -- up to date.
  pub grants-UpToDate :
      (xs : List LogEntry)
      → s.raft_log ≡ numbered 1 xs
      → s.current_term ≤ r.term
      → (s.current_term ≡ r.term → s.voted_for ≢ some r.candidate_id)
      → (voted.1.vote_granted ≡ true)
        ↔ ((s.current_term ≡ r.term → s.voted_for ≡ none) × UpToDate r xs)
  unfolding request_vote ensure_follower update_term is_up_to_date saved_log_size
      last_saved_log_term
  grants-UpToDate xs log h new =
      let size = saved_log_size-length s xs log in
      let last = last_saved_log_term-last s xs log in
      ((λ g. ground (arith, size, last)), (λ u. ground (arith, size, last)))
