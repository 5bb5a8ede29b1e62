-- ===== src/Raft/Keeping.antt =====
-- The turns of a net of nodes of src/raft/node/node.cpp in which no leader writes and none is elected:
-- they keep what holds of the logs.
use metamorphosis.Raft.Campaigns.{candidate_step}
use metamorphosis.Raft.Recording.{start_main_session-IsRecorded}
use metamorphosis.Raft.Preserving.{restart_step, vote_step, timeout_step, Steady-step}
use metamorphosis.Raft.Recorded.{
  start_candidate-IsIdle, end_leader-IsIdle, restart-IsRecorded, end_follower-IsIdle,
  request_vote-IsIdle, IsIdle-IsRecorded, IsRecorded,
}
use metamorphosis.Raft.Turns.{
  start_candidate_votes, end_follower_keeps, at-other, at-same, start_node-Steady,
}
use metamorphosis.Raft.Voting.{start_candidate, end_follower, request_vote}
use metamorphosis.Raft.Leading.{start_main_session, end_leader}
use metamorphosis.Raft.Steady.{
  request_vote-Steady, end_leader-Steady, start_main_session-Steady, Steady,
}
use metamorphosis.Raft.Messages.{RequestVoteResult, RequestVoteRequest}
use metamorphosis.Raft.Node.{leader, candidate, start_node, Node}
use metamorphosis.Raft.Machine.{Externals}
use metamorphosis.Prelude.{
  inr, inl, Bool-cases, ◌==◌, not, done, subst, true, some, none, false, ◌≢◌, ◌≡◌, arith, ◌<◌,
  Option, Bool, ℕ, refl,
}
use metamorphosis.Raft.Net.{Net, node_at, move}
use metamorphosis.Raft.Matched.{Led, IsTimed, IsMatched, quiet}
use metamorphosis.Raft.Cluster.{add_vote, Election, at}

module _ {M : Type 0} (main : Bool) (o : Option Election) (elected : ℕ → Bool) (s : Node M)
    (h : IsTimed main o elected s) where
  -- A handler that makes no candidate and no leader, in the main session or outside of it.
  pub Steady-IsTimed : (s' : Node M) → Steady s s' → IsTimed main o elected s'
  Steady-IsTimed s' p = record {
    waits = λ m k. h.waits m (p.candidate k).0;
    fresh = λ e q k.
        let (was, term) = p.candidate k in subst (λ t. elected t ≡ false) term (h.fresh e q was);
    past = λ t e. omega (arith, h.past t e, p.term);
  }

  pub leader-IsTimed : s.state ≡ leader → IsTimed true o elected s
  leader-IsTimed l = record { waits = λ m k. cc; fresh = h.fresh; past = h.past }

  pub outside-IsTimed : IsTimed false o elected s
  outside-IsTimed = record { waits = λ m. absurd (ground arith); fresh = h.fresh; past = h.past }

  pub joined-IsTimed : IsTimed main none elected s
  joined-IsTimed = record { waits = h.waits; fresh = λ e q. absurd (ground arith); past = h.past }

module _ {M : Type 0} (x : Externals M) (n : ℕ) (c : Net M) (h : IsMatched x n c) (i : ℕ)
    (l : i < n) where
  abbrev old : Node M
  old = node_at c i

  pub self_known : old.node_id < old.node_count
  self_known = let p = (h.safe.placed i l).config in ground arith

  -- A steady turn of node i.
  pub handler_turn :
      (s' : Node M)
      → Steady old s'
      → IsRecorded x (Led c) c.written (c.main i) s'
      → IsMatched x n (move i s' c)
  handler_turn s' p own =
      quiet x n c h i s' c.main c.cluster.elections c.cluster.granted (λ j k. refl) (λ j k. refl)
        (Steady-step n c.cluster h.safe i l s' p) own (Steady-IsTimed _ _ _ old (h.timed i l) s' p)

  pub start_main_session_turn :
      old.state ≡ leader
      → IsMatched x n (record (move i (start_main_session old) c) { main = at i true c.main })
  start_main_session_turn leads =
      let s' = start_main_session old in
      let p = start_main_session-Steady old in
      let role = at-same i true c.main in
      quiet x n c h i s' (at i true c.main) c.cluster.elections c.cluster.granted
        (λ j. at-other i j true c.main) (λ j k. refl) (Steady-step n c.cluster h.safe i l s' p)
        (rw role (
          start_main_session-IsRecorded x (Led c) c.written (c.main i) old self_known
            (h.recorded i l) leads))
        (rw role (Steady-IsTimed true _ _ old (leader-IsTimed _ _ _ old (h.timed i l) leads) s' p))

  pub end_leader_turn :
      old.state ≢ leader
      → IsMatched x n (record (move i (end_leader old) c) { main = at i false c.main })
  end_leader_turn follows =
      let s' = end_leader old in
      let p = end_leader-Steady old in
      let role = at-same i false c.main in
      quiet x n c h i s' (at i false c.main) c.cluster.elections c.cluster.granted
        (λ j. at-other i j false c.main) (λ j k. refl) (Steady-step n c.cluster h.safe i l s' p)
        (rw role (
          IsIdle-IsRecorded x (Led c) c.written (c.main i) old (h.recorded i l) s' false
            (end_leader-IsIdle old follows) (λ m. absurd (ground arith))))
        (rw role (Steady-IsTimed false _ _ old (outside-IsTimed _ _ _ old (h.timed i l)) s' p))

  pub request_vote_turn :
      (r : RequestVoteRequest) (a : RequestVoteResult) (s' : Node M)
      → request_vote r old ≡ done (s', a)
      → IsMatched x n (record c {
        cluster = record c.cluster {
          nodes = at i s' c.cluster.nodes;
          granted = add_vote i r.term r.candidate_id a.vote_granted c.cluster.granted;
        };
      })
  request_vote_turn r a s' e =
      quiet x n c h i s' c.main c.cluster.elections
        (add_vote i r.term r.candidate_id a.vote_granted c.cluster.granted) (λ j k. refl)
        (λ j k. refl) (vote_step n c.cluster h.safe i l r a s' e)
        (IsIdle-IsRecorded x (Led c) c.written (c.main i) old (h.recorded i l) s' (c.main i)
          (request_vote-IsIdle r old s' a e) (λ m. m))
        (Steady-IsTimed _ _ _ old (h.timed i l) s' (request_vote-Steady r old s' a e))

  pub timeout_turn :
      (s' : Node M)
      → c.main i ≡ false
      → c.cluster.elections i ≡ none
      → end_follower old ≡ done s'
      → IsMatched x n (move i s' c)
  timeout_turn s' outside idle e =
      let p = h.timed i l in
      let k = end_follower_keeps old s' e in
      quiet x n c h i s' c.main c.cluster.elections c.cluster.granted (λ j k. refl) (λ j k. refl)
        (timeout_step n c.cluster h.safe i l s' idle e)
        (IsIdle-IsRecorded x (Led c) c.written (c.main i) old (h.recorded i l) s' (c.main i)
          (end_follower-IsIdle old s' e) (λ m. m))
        (record { waits = λ m. cc; fresh = λ e q. cc; past = λ t q. omega (arith, p.past t q, k) })

  pub candidate_turn :
      (votes : ℕ) (r : RequestVoteRequest) (s' : Node M)
      → old.state ≡ candidate
      → start_candidate old ≡ done (s', votes, r)
      → let e : Election = record { term = r.term; waiting = λ j. not (j == i); votes = votes } in
        IsMatched x n (record c {
          cluster = record c.cluster {
            nodes = at i s' c.cluster.nodes;
            elections = at i (some e) c.cluster.elections;
            granted = add_vote i r.term i true c.cluster.granted;
          };
        })
  candidate_turn votes r s' stands started =
      let e : Election = record { term = r.term; waiting = λ j. not (j == i); votes = votes } in
      let p = h.timed i l in
      let k = start_candidate_votes old s' votes r started in
      quiet x n c h i s' c.main (at i (some e) c.cluster.elections)
        (add_vote i r.term i true c.cluster.granted) (λ j k. refl)
        (λ j. at-other i j (some e) c.cluster.elections)
        (candidate_step n c.cluster h.safe i l votes r s' stands started)
        (IsIdle-IsRecorded x (Led c) c.written (c.main i) old (h.recorded i l) s' (c.main i)
          (start_candidate-IsIdle old s' votes r stands started) (λ m. m))
        (record {
          waits = λ m _. p.waits m stands;
          fresh = λ e q _. elim (Bool-cases (c.cluster.elected i s'.current_term)) [
            | inl led ↦ absurd (omega (arith, p.past s'.current_term led, k))
            | inr new ↦ new
          ];
          past = λ t q. omega (arith, p.past t q, k);
        })

  pub restart_turn :
      (machine : M)
      → IsMatched x n (record c {
        cluster = record c.cluster {
          nodes =
              at i
                (start_node old.config machine (some old.current_term) old.voted_for old.raft_log)
                c.cluster.nodes;
          elections = at i none c.cluster.elections;
        };
        main = at i false c.main;
      })
  restart_turn machine =
      let s' = start_node old.config machine (some old.current_term) old.voted_for old.raft_log in
      let p = start_node-Steady old machine in
      let role = at-same i false c.main in
      let idle = at-same i none c.cluster.elections in
      quiet x n c h i s' (at i false c.main) (at i none c.cluster.elections) c.cluster.granted
        (λ j. at-other i j false c.main) (λ j. at-other i j none c.cluster.elections)
        (restart_step n c.cluster h.safe i l s' p)
        (rw role (
          restart-IsRecorded x (Led c) c.written (c.main i) old (h.recorded i l) machine old.config
            (some old.current_term) old.voted_for))
        (rw (role, idle)
          (Steady-IsTimed false none _ old
            (joined-IsTimed _ _ _ old (outside-IsTimed _ _ _ old (h.timed i l))) s' p))
