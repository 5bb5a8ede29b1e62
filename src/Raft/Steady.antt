-- ===== src/Raft/Steady.antt =====
-- What every handler of src/raft/node/node.cpp keeps that counts for an election: the configuration,
-- the term or a later one, the vote within a term, and a role that is not taken but given up.
use metamorphosis.Prelude.{
  ◌&&◌, ltb, ◌+◌, Bool-cases, set, get_or, length, inl, inr, dec_lt, le→ltb, List, ℕ, zero, suc,
  ◌≤◌, ◌≡◌, some, none, true, done, arith, >>=-eq-done, Option,
}
use metamorphosis.Raft.Messages.{
  Response, AppendEntriesRequest, AppendEntriesResult, RequestVoteRequest, RequestVoteResult,
  Request,
}
use metamorphosis.Raft.Machine.{Externals}
use metamorphosis.Raft.Node.{is_leader, Node, leader, candidate, update_term, ensure_follower}
use metamorphosis.Raft.Voting.{request_vote, start_follower}
use metamorphosis.Raft.Replication.{accept, append, append_entries, follow}
use metamorphosis.Raft.Leadership.{written}
use metamorphosis.Raft.Leading.{
  on_success, on_failure, on_reply, answer, Waiting, execute, end_execute, finish, commit_one,
  commit_range, update_commit_index, flush, handle_response, start_main_session, end_leader,
}

pub record Steady {M : Type 0} (s s' : Node M) : Type 0 where
  pub config : s'.config ≡ s.config
  pub term : s.current_term ≤ s'.current_term
  pub vote :
      (c : ℕ) → s.current_term ≡ s'.current_term → s.voted_for ≡ some c → s'.voted_for ≡ some c
  pub candidate : s'.state ≡ candidate → (s.state ≡ candidate) × (s.current_term ≡ s'.current_term)
  pub leader : s'.state ≡ leader → (s.state ≡ leader) × (s.current_term ≡ s'.current_term)

module _ {M : Type 0} where
  pub Steady-refl : (s : Node M) → Steady s s
  Steady-refl s = ground arith

  pub Steady-trans : (s t u : Node M) → Steady s t → Steady t u → Steady s u
  Steady-trans s t u p q = ground arith

  pub request_vote-Steady :
      (r : RequestVoteRequest) (s s' : Node M) (a : RequestVoteResult)
      → request_vote r s ≡ done (s', a)
      → Steady s s'
  unfolding request_vote ensure_follower update_term
  request_vote-Steady r s s' a e = ground arith

  pub start_follower-Steady : (s : Node M) → Steady s (start_follower s)
  unfolding start_follower
  start_follower-Steady s = ground arith

  pub execute-Steady : (address : ℕ) (r : Request) (s : Node M) → Steady s (execute address r s).0
  unfolding execute
  execute-Steady address r s = ground arith

  pub start_main_session-Steady : (s : Node M) → Steady s (start_main_session s)
  unfolding start_main_session
  start_main_session-Steady s = ground arith

  pub end_leader-Steady : (s : Node M) → Steady s (end_leader s)
  unfolding end_leader
  end_leader-Steady s = ground arith

  finish-Steady : (i : ℕ) (result : List ℕ) (s : Node M) → Steady s (finish i result s)
  unfolding finish
  finish-Steady i result s = ground arith

  follow-Steady :
      (r : AppendEntriesRequest) (s s' : Node M)
      → follow r s ≡ done s'
      → s.current_term ≤ r.term
      → Steady s s'
  unfolding follow ensure_follower update_term
  follow-Steady r s s' e h = ground arith

  step_down-Steady :
      (term : ℕ) (s t s' : Node M)
      → update_term term none s ≡ done t
      → ensure_follower t ≡ done s'
      → Steady s s'
  unfolding update_term ensure_follower
  step_down-Steady term s t s' e f = ground arith

  pub end_execute-Steady :
      (w : Waiting) (s s' : Node M) (o : Option Response)
      → end_execute w s ≡ done (s', o)
      → Steady s s'
  unfolding end_execute answer
  end_execute-Steady w s s' o e = ground arith

module _ {M : Type 0} (x : Externals M) where
  accept-Steady : (r : AppendEntriesRequest) (s s' : Node M) → accept x r s ≡ done s' → Steady s s'
  unfolding accept
  accept-Steady r s s' e = ground arith

  append-Steady :
      (r : AppendEntriesRequest) (term : ℕ) (s s' : Node M) (a : AppendEntriesResult)
      → append x r term s ≡ done (s', a)
      → Steady s s'
  unfolding append
  append-Steady r term s s' a e = ground (arith, accept-Steady r s s', Steady-refl s)

  pub append_entries-Steady :
      (r : AppendEntriesRequest) (s s' : Node M) (a : AppendEntriesResult)
      → append_entries x r s ≡ done (s', a)
      → Steady s s'
  unfolding append_entries
  append_entries-Steady r s s' a e = elim (dec_lt r.term s.current_term) [
    | yes old ↦ ground (arith, Steady-refl s)
    | no new ↦
        let (t, f, e') = >>=-eq-done _ _ (rw (le→ltb r.term s.current_term (omega arith)) at e) in
        Steady-trans s t s' (follow-Steady r s t f (omega arith))
          (append-Steady r s.current_term t s' a e')
  ]

  commit_one-Steady : (i : ℕ) (s s' : Node M) → commit_one x i s ≡ done s' → Steady s s'
  unfolding commit_one
  commit_one-Steady i s s' e = ground (arith, finish-Steady i)

  commit_range-Steady : (n i : ℕ) (s s' : Node M) → commit_range x n i s ≡ done s' → Steady s s'
  unfolding commit_range
  commit_range-Steady zero i s s' e = ground arith
  commit_range-Steady (suc n) i s s' e =
      let (t, f, e') = >>=-eq-done _ _ e in
      Steady-trans s t s' (commit_one-Steady i s t f) (commit_range-Steady n (suc i) t s' e')

  update_commit_index-Steady : (s s' : Node M) → update_commit_index x s ≡ done s' → Steady s s'
  unfolding update_commit_index
  update_commit_index-Steady s s' e =
      let (t, f, e') = >>=-eq-done _ _ e in
      Steady-trans s t s' (commit_range-Steady _ _ s t f) (ground arith)

  pub flush-Steady : (s s' : Node M) → flush x s ≡ done s' → Steady s s'
  unfolding flush
  flush-Steady s s' e = elim (Bool-cases (is_leader s.state)) [
    | inl lead ↦
        let (t, f, e') = >>=-eq-done (update_commit_index x (written s)) _ (rw lead at e) in
        let h = update_commit_index-Steady (written s) t f in ground (arith, h)
    | inr other ↦ ground (arith, Steady-refl s)
  ]

  on_success-Steady :
      (node : ℕ) (r : AppendEntriesRequest) (s s' : Node M)
      → on_success x node r s ≡ done s'
      → Steady s s'
  unfolding on_success
  on_success-Steady node r s s' e =
      let sent = length r.entries in
      let t : Node M = record s {
        match_index = set s.match_index node (r.prev_log_index + sent);
        next_index = set s.next_index node (get_or s.next_index node 0 + sent);
      } in
      let h = update_commit_index-Steady t s' e in ground (arith, h)

  pub handle_response-Steady :
      (node : ℕ) (r : AppendEntriesRequest) (o : Option AppendEntriesResult) (s s' : Node M)
      → handle_response x node r o s ≡ done s'
      → Steady s s'
  unfolding handle_response on_reply on_failure
  handle_response-Steady node r none s s' e = ground arith
  handle_response-Steady node r (some a) s s' e =
      elim (Bool-cases (is_leader s.state && ltb s.current_term a.term)) [
        | inl newer ↦
            let lead : is_leader s.state ≡ true = ground arith in
            let later : ltb s.current_term a.term ≡ true = ground arith in
            let (t, f, e') =
              >>=-eq-done (update_term a.term none s) ensure_follower (rw (lead, later) at e) in
            step_down-Steady a.term s t s' f e'
        | inr other ↦ ground (arith, on_success-Steady node r s s')
      ]
