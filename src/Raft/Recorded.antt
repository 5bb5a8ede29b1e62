-- ===== src/Raft/Recorded.antt =====
-- A node of src/raft/node/node.cpp against what the leaders have written: what holds of its log and,
-- while it leads, of its indices, and which handlers leave that alone.
use metamorphosis.Prelude.{
  refl, inr, ◌==◌, ltb, not, ◌&&◌, Bool-cases, ◌+◌, take, some, get_or, inl, sym, length, [], ◌⊎◌,
  false, ◌∙◌, ◌++◌, ap, Option, done, true, List, ◌≡◌, ◌≢◌, arith, Bool, none, ℕ,
}
use metamorphosis.Raft.Machine.{replay, ExactlyOnce, Externals}
use metamorphosis.Raft.Steady.{Steady}
use metamorphosis.Raft.Accepting.{IsValid}
use metamorphosis.Raft.Node.{
  is_candidate, majority_count, Config, become_leader, start_node, leader, candidate,
  ensure_follower, become_candidate, update_term, Node,
}
use metamorphosis.Mtf.Appends.{answer}
use metamorphosis.Raft.Messages.{Response, LogEntry, RequestVoteResult, RequestVoteRequest}
use metamorphosis.Raft.Traced.{IsTraced, Written}
use metamorphosis.Raft.Voting.{end_follower, start_follower, on_vote, request_vote, start_candidate}
use metamorphosis.Raft.Leading.{Waiting, end_execute, end_leader}

-- What a leader has written is its saved and its pending log, and its indices of itself are in step:
-- the next one always, the match index while the main session runs.
pub record IsWriting {M : Type 0} (w : Written) (main : Bool) (s : Node M) (xs : List LogEntry)
    : Type 0 where
  pub wrote : w s.current_term ≡ xs ++ s.pending_log
  pub nexts : length s.next_index ≡ s.node_count
  pub matches : length s.match_index ≡ s.node_count
  pub next_self : get_or s.next_index s.node_id 0 ≡ length xs + length s.pending_log + 1
  pub saved : main ≡ true → get_or s.match_index s.node_id 0 ≡ length xs

pub record IsRecorded {M : Type 0} (x : Externals M) (led : ℕ → Type 0) (w : Written) (main : Bool)
    (s : Node M) : Type 0 where
  pub start : ExactlyOnce M
  pub entries : List LogEntry
  pub valid : IsValid x start s entries
  pub traced : IsTraced led w entries
  pub leading : s.state ≡ leader → IsWriting w main s entries

-- The log stays, and a leader's pending log and indices.
pub record IsIdle {M : Type 0} (s s' : Node M) : Type 0 where
  pub log : s'.raft_log ≡ s.raft_log
  pub commit : s'.commit_index ≡ s.commit_index
  pub rsm : s'.rsm ≡ s.rsm
  pub leading :
      s'.state ≡ leader
      → (s.state ≡ leader)
        × (s'.config ≡ s.config)
        × (s'.current_term ≡ s.current_term)
        × (s'.pending_log ≡ s.pending_log)
        × (s'.next_index ≡ s.next_index)
        × (s'.match_index ≡ s.match_index)

module _ {M : Type 0} where
  pub IsIdle-refl : (s : Node M) → IsIdle s s
  IsIdle-refl s = ground arith

  pub request_vote-IsIdle :
      (r : RequestVoteRequest) (s s' : Node M) (a : RequestVoteResult)
      → request_vote r s ≡ done (s', a)
      → IsIdle s s'
  unfolding request_vote ensure_follower update_term
  request_vote-IsIdle r s s' a e = ground arith

  pub start_follower-IsIdle : (s : Node M) → IsIdle s (start_follower s)
  unfolding start_follower
  start_follower-IsIdle s = ground arith

  pub end_follower-IsIdle : (s s' : Node M) → end_follower s ≡ done s' → IsIdle s s'
  unfolding end_follower become_candidate
  end_follower-IsIdle s s' e = ground arith

  pub start_candidate-IsIdle :
      (s s' : Node M) (votes : ℕ) (r : RequestVoteRequest)
      → s.state ≡ candidate
      → start_candidate s ≡ done (s', votes, r)
      → IsIdle s s'
  unfolding start_candidate update_term
  start_candidate-IsIdle s s' votes r c e = ground arith

  pub end_execute-IsIdle :
      (w : Waiting) (s s' : Node M) (o : Option Response)
      → end_execute w s ≡ done (s', o)
      → IsIdle s s'
  unfolding end_execute answer
  end_execute-IsIdle w s s' o e = ground arith

  pub end_leader-IsIdle : (s : Node M) → s.state ≢ leader → IsIdle s (end_leader s)
  unfolding end_leader
  end_leader-IsIdle s h = ground arith

  pub step_down-IsIdle :
      (term : ℕ) (s t s' : Node M)
      → update_term term none s ≡ done t
      → ensure_follower t ≡ done s'
      → IsIdle s s'
  unfolding update_term ensure_follower
  step_down-IsIdle term s t s' e f = ground arith

  -- A reply to a candidate makes it the leader, or leaves the log alone.
  pub on_vote-IsIdle :
      (o : Option RequestVoteResult) (votes : ℕ) (s s' : Node M) (votes' : ℕ)
      → on_vote o votes s ≡ done (s', votes')
      → (IsIdle s s' × Steady s s') ⊎ ((s.state ≡ candidate) × (become_leader s ≡ done s'))
  unfolding on_vote update_term ensure_follower become_leader
  on_vote-IsIdle none votes s s' votes' e = inl (ground arith, ground arith)
  on_vote-IsIdle (some a) votes s s' votes' e =
      elim (Bool-cases (a.vote_granted && not (ltb s.current_term a.term))) [
        | inl counted ↦
            elim (Bool-cases (votes + 1 == majority_count s.config && is_candidate s.state)) [
              | inl wins ↦ inr (ground arith)
              | inr waits ↦ inl (ground arith, ground arith)
            ]
        | inr other ↦ inl (ground arith, ground arith)
      ]

module _ {M : Type 0} (x : Externals M) (led : ℕ → Type 0) (w : Written) (main : Bool) (s : Node M)
    (h : IsRecorded x led w main s) where
  pub IsIdle-IsValid :
      (s' : Node M)
      → IsIdle s s'
      → (start : ExactlyOnce M) (xs : List LogEntry) → IsValid x start s xs
      → IsValid x start s' xs
  IsIdle-IsValid s' p start xs v = record {
    log = p.log ∙ v.log;
    fits = v.fits;
    committed = rw p.commit v.committed;
    applied = p.rsm ∙ v.applied ∙ ap (λ c. replay x (take c xs) start) (sym p.commit);
  }

  -- The main session may also end, or not have begun.
  pub IsIdle-IsRecorded :
      (s' : Node M) (main' : Bool)
      → IsIdle s s'
      → (main' ≡ true → main ≡ true)
      → IsRecorded x led w main' s'
  IsIdle-IsRecorded s' main' p m = record {
    start = h.start;
    entries = h.entries;
    valid = IsIdle-IsValid s' p h.start h.entries h.valid;
    traced = h.traced;
    leading = λ l.
        let (was, config, term, pending, nexts, matches) = p.leading l in
        let q = h.leading was in
        record {
          wrote = ap w term ∙ q.wrote ∙ ap (λ ys. h.entries ++ ys) (sym pending);
          nexts = ground arith;
          matches = ground arith;
          next_self = ground arith;
          saved = λ k. ground (arith, q.saved (m k));
        };
  }

  pub restart-IsRecorded :
      (machine : M) (config : Config) (term vote : Option ℕ)
      → IsRecorded x led w false (start_node config machine term vote s.raft_log)
  unfolding start_node replay
  restart-IsRecorded machine config term vote = record {
    start = record { state_machine = machine; clients_last_cmd_id = [] };
    entries = h.entries;
    valid = record {
      log = h.valid.log;
      fits = h.valid.fits;
      committed = omega arith;
      applied = refl;
    };
    traced = h.traced;
    leading = λ l. cc;
  }
