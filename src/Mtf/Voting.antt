-- ===== src/Mtf/Voting.antt =====
-- src/metamorphosis/node/node.cpp: RequestVote, StartFollower and StartCandidate.
use metamorphosis.Prelude.{
  ◌%◌, ◌^◌, ℕ, ◌+◌, ◌==◌, ltb, leb, ◌&&◌, if◌then◌else◌, Bool, true, false, Option, none, some,
  Outcome, done, ◌>>=◌,
}
use metamorphosis.Mtf.Messages.{RequestVoteReq, RequestVoteRsp}
use metamorphosis.Mtf.Node.{
  Node, is_candidate, majority_count, saved_log_size, last_saved_log_term, update_term,
  ensure_follower, become_leader, become_candidate,
}

-- voted_for == request.candidate_id()
abbrev pub is_vote_for : ℕ → Option ℕ → Bool
is_vote_for c none = false
is_vote_for c (some v) = v == c

abbrev pub has_voted : Option ℕ → Bool
has_voted none = false
has_voted (some v) = true

-- The comparison of the last log entries: is the candidate's log at least as new?
unfoldable pub is_up_to_date : RequestVoteReq → ℕ → ℕ → Bool
is_up_to_date r last_log_term log_size =
    if ltb r.last_log_term last_log_term
    then false
    else if last_log_term == r.last_log_term
    then leb log_size r.last_log_index
    else true

abbrev pub reply_vote : ℕ → Bool → RequestVoteRsp
reply_vote term granted = record { term = term; vote_granted = granted }

-- From the load of voted_for to the end. The reply carries the term read at the start.
cast_vote : RequestVoteReq → ℕ → Node → Node × RequestVoteRsp
cast_vote r term s =
    if is_vote_for r.candidate_id s.voted_for
    then (s, reply_vote term true)
    else if has_voted s.voted_for
    then (s, reply_vote term false)
    else if is_up_to_date r (last_saved_log_term s) (saved_log_size s)
    then (record s { voted_for = some r.candidate_id }, reply_vote term true)
    else (s, reply_vote term false)

unfoldable pub request_vote : RequestVoteReq → Node → Outcome (Node × RequestVoteRsp)
unfolding cast_vote
request_vote r s =
    if ltb r.term s.current_term
    then done (s, reply_vote s.current_term false)
    else if ltb s.current_term r.term
    then (do
      s' ← update_term r.term none s
      s'' ← ensure_follower s'
      done (cast_vote r s.current_term s''))
    else done (cast_vote r s.current_term s)

-- StartFollower up to SleepFor.
unfoldable pub start_follower : Node → Node
start_follower s = record s { reset_election_timeout = false }

-- StartFollower after SleepFor, which reports whether the source was stopped.
unfoldable pub end_follower : Node → Outcome (Node)
end_follower s = if s.reset_election_timeout then done s else become_candidate s

vote_request : Node → RequestVoteReq
vote_request s = record {
  term = s.current_term;
  candidate_id = s.node_id;
  last_log_index = saved_log_size s;
  last_log_term = last_saved_log_term s;
}

-- StartCandidate up to the first send: the votes so far, and the request for all peers.
unfoldable pub start_candidate : Node → Outcome (Node × ℕ × RequestVoteReq)
unfolding vote_request
start_candidate s = do
  s' ←
      update_term ((s.current_term + 1) % 2 ^ 64) (some s.node_id)
        (record s { stop_election = false })
  done (s', 1, vote_request s')

count_vote : ℕ → Node → Outcome (Node × ℕ)
count_vote votes s =
    if votes + 1 == majority_count s.config && is_candidate s.state
    then (do s' ← become_leader s; done (s', votes + 1))
    else done (s, votes + 1)

-- The fiber of one peer after its RPC; `none` is an RPC error. The second component is
-- votes_count.
unfoldable pub on_vote : Option RequestVoteRsp → ℕ → Node → Outcome (Node × ℕ)
unfolding count_vote
on_vote none votes s = done (s, votes)
on_vote (some r) votes s =
    if ltb s.current_term r.term
    then (do s' ← update_term r.term none s; s'' ← ensure_follower s'; done (s'', votes))
    else if r.vote_granted
    then count_vote votes s
    else done (s, votes)
