-- ===== src/Mtf/Elections.antt =====
-- The elections of src/metamorphosis/node/node.cpp: StartFollower, StartCandidate and the count of votes.
use metamorphosis.Prelude.{
  ◌%◌, ◌^◌, ◌==◌, inr, inl, ◌>>=◌, Bool-cases, ◌<◌, if◌then◌else◌, ◌≢◌, Outcome, ◌∷◌, Option, List,
  none, dec_lt, lt→ltb, le→ltb, ap, replicate, ==_iff, [], ℕ, ◌+◌, ◌≤◌, ◌≡◌, refl, some, true,
  false, done, arith,
}
use metamorphosis.Mtf.Messages.{RequestVoteReq, RequestVoteRsp}
use metamorphosis.Mtf.Node.{
  Node, is_follower, is_candidate, follower, candidate, leader, candidate_session, leader_session,
  next_session, majority_count, saved_log_size, last_saved_log_term, become_candidate,
  become_leader, update_term,
}
use metamorphosis.Mtf.Voting.{end_follower, start_candidate, on_vote}

abbrev pub grant : Option RequestVoteRsp → ℕ
grant none = 0
grant (some a) = if a.vote_granted then 1 else 0

abbrev pub grants : List (Option RequestVoteRsp) → ℕ
grants [] = 0
grants (o ∷ os) = grant o + grants os

-- No answer has a later term.
abbrev pub IsUpTo : ℕ → Option RequestVoteRsp → Type 0
IsUpTo t none = Unit {0}
IsUpTo t (some a) = a.term ≤ t

abbrev pub AreUpTo : ℕ → List (Option RequestVoteRsp) → Type 0
AreUpTo t [] = Unit {0}
AreUpTo t (o ∷ os) = IsUpTo t o × AreUpTo t os

abbrev pub on_votes : List (Option RequestVoteRsp) → ℕ → Node → Outcome (Node × ℕ)
on_votes [] votes s = done (s, votes)
on_votes (o ∷ os) votes s = on_vote o votes s >>= λ p. on_votes os p.1 p.0

-- The node after BecomeLeader.
abbrev won : Node → Node
won s = record s {
  pending_log = [];
  current_term_start_index = saved_log_size s + 1;
  next_index = replicate s.node_count (saved_log_size s + 1);
  match_index = replicate s.node_count 0;
  reset_heartbeat_timeout = false;
  stop_leader = false;
  stop_election = true;
  alive_main_nodes_count = majority_count s.config;
  state = leader;
}

majority_leads :
    (s : Node) (votes : ℕ) (a : RequestVoteRsp)
    → s.state ≡ candidate
    → a.vote_granted ≡ true
    → a.term ≤ s.current_term
    → votes + 1 ≡ majority_count s.config
    → on_vote (some a) votes s ≡ done (won s, votes + 1)
unfolding on_vote become_leader
majority_leads s votes a state granted old most =
    let complete = (==_iff (votes + 1) (majority_count s.config)).1 most in
    let runs = ap is_candidate state in
    rw (le→ltb s.current_term a.term old, granted, complete, runs) refl

vote_wins :
    (s : Node) (votes : ℕ) (o : Option RequestVoteRsp)
    → s.state ≡ candidate
    → votes < majority_count s.config
    → majority_count s.config ≤ votes + grant o
    → IsUpTo s.current_term o
    → on_vote o votes s ≡ done (won s, votes + grant o)
vote_wins s votes none c l h u = absurd (omega arith)
vote_wins s votes (some a) c l h u = elim (Bool-cases a.vote_granted) [
  | inl granted ↦
      let one : grant (some a) ≡ 1 = rw granted refl in
      rw one (majority_leads s votes a c granted u (omega arith))
  | inr denied ↦ let z : grant (some a) ≡ 0 = rw denied refl in absurd (omega arith)
]

-- No other answer changes the node, but the grant is counted.
vote_counts :
    (s : Node) (votes : ℕ) (o : Option RequestVoteRsp)
    → IsUpTo s.current_term o
    → (grant o ≡ 1 → votes + 1 ≢ majority_count s.config)
    → on_vote o votes s ≡ done (s, votes + grant o)
unfolding on_vote
vote_counts s votes none u d = let z : votes + 0 ≡ votes = omega arith in rw z refl
vote_counts s votes (some a) u d = elim (Bool-cases a.vote_granted) [
  | inl granted ↦
      let d' : votes + 1 ≢ majority_count s.config = d (rw granted refl) in
      let n : (votes + 1 == majority_count s.config) ≡ false = ground arith in
      rw (le→ltb s.current_term a.term u, granted, n) refl
  | inr denied ↦
      let z : votes + 0 ≡ votes = omega arith in rw (le→ltb s.current_term a.term u, denied, z) refl
]

leader_stays :
    (os : List (Option RequestVoteRsp)) (s : Node) (votes : ℕ)
    → majority_count s.config ≤ votes
    → AreUpTo s.current_term os
    → on_votes os votes s ≡ done (s, votes + grants os)
leader_stays [] s votes h u = let z : votes + 0 ≡ votes = omega arith in rw z refl
leader_stays (o ∷ os) s votes h u =
    let e : votes + (grant o + grants os) ≡ votes + grant o + grants os = omega arith in
    rw (vote_counts s votes o u.0 (λ g q. omega arith), e)
      (leader_stays os s (votes + grant o) (omega arith) u.1)

candidate_wins :
    (os : List (Option RequestVoteRsp)) (s : Node) (votes : ℕ)
    → s.state ≡ candidate
    → votes < majority_count s.config
    → majority_count s.config ≤ votes + grants os
    → AreUpTo s.current_term os
    → on_votes os votes s ≡ done (won s, votes + grants os)
candidate_wins [] s votes c l h u = absurd (omega arith)
candidate_wins (o ∷ os) s votes c l h u =
    let e : votes + (grant o + grants os) ≡ votes + grant o + grants os = omega arith in
    elim (dec_lt (votes + grant o) (majority_count s.config)) [
      | yes below ↦
          rw (vote_counts s votes o u.0 (λ g q. omega arith), e)
            (candidate_wins os s (votes + grant o) c below (omega arith) u.1)
      | no most ↦
          rw (vote_wins s votes o c l (omega arith) u.0, e)
            (leader_stays os (won s) (votes + grant o) (omega arith) u.1)
    ]

-- The node whose election timer runs out, and as it asks for votes.
abbrev expired : Node → Node
expired s = record s { reset_election_timeout = true; state = candidate }

abbrev asking : Node → Node
asking s = record (expired s) {
  stop_election = false;
  current_term = s.current_term + 1;
  voted_for = some s.node_id;
}

-- In a cluster of more than one node, a follower whose term is not the last of uint64 and whose
-- election timer runs out asks for votes in the next term, with its own vote and its last entry; if
-- with that a majority grants, in whatever order, with errors and refusals between and no answer of a
-- later term, it leads that term, with nothing pending, and nothing aborts.
pub queue_election_won :
    (s : Node) (os : List (Option RequestVoteRsp))
    → s.state ≡ follower
    → s.reset_election_timeout ≡ false
    → 1 < s.node_count
    → s.current_term + 1 < 2 ^ 64
    → majority_count s.config ≤ 1 + grants os
    → AreUpTo (s.current_term + 1) os
    → (s' : Node) × (t : Node) × (r : RequestVoteReq) × (u : Node) × (end_follower s ≡ done s')
      × (next_session s'.state ≡ candidate_session)
      × (start_candidate s' ≡ done (t, 1, r))
      × (t.current_term ≡ s.current_term + 1)
      × (t.voted_for ≡ some s.node_id)
      × (r.term ≡ s.current_term + 1)
      × (r.last_log_index ≡ saved_log_size s)
      × (r.last_log_term ≡ last_saved_log_term s)
      × (on_votes os 1 t ≡ done (u, 1 + grants os))
      × (next_session u.state ≡ leader_session)
      × (u.current_term ≡ s.current_term + 1)
      × (u.current_term_start_index ≡ saved_log_size s + 1)
      × (u.pending_log ≡ [])
unfolding end_follower become_candidate start_candidate update_term saved_log_size
    last_saved_log_term majority_count
queue_election_won s os state timeout many last granted up =
    let r : RequestVoteReq = record {
      term = s.current_term + 1;
      candidate_id = s.node_id;
      last_log_index = saved_log_size s;
      last_log_term = last_saved_log_term s;
    } in
    let wraps : (s.current_term + 1) % 2 ^ 64 ≡ s.current_term + 1 = omega arith in
    let most : 1 < majority_count s.config = omega arith in
    let later = lt→ltb s.current_term (s.current_term + 1) (omega arith) in
    (
      expired s,
      asking s,
      r,
      won (asking s),
      rw (timeout, ap is_follower state) refl,
      refl,
      rw (wraps, later) refl,
      refl,
      refl,
      refl,
      refl,
      refl,
      candidate_wins os (asking s) 1 refl most granted up,
      refl,
      refl,
      refl,
      refl,
    )
