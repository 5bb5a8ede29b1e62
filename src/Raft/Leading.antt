-- ===== src/Raft/Leading.antt =====
-- src/raft/node/node.cpp: Execute, the leader's sessions and UpdateCommitIndex. A handler that
-- awaits is two functions, one to the await and one from it.
use metamorphosis.Prelude.{
  ℕ, zero, suc, ◌+◌, ◌-◌, ◌==◌, inl, inr, ◌⊎◌, ltb, leb, ◌&&◌, if◌then◌else◌, true, false, List, [],
  ◌∷◌, ◌++◌, length, get_or, set, Option, none, some, Outcome, done, ◌>>=◌, ◌>>◌, verify, get_value,
}
use metamorphosis.Kv.{get, put, delete, write}
use metamorphosis.Kv.Numbered.{puts}
use metamorphosis.Raft.Messages.{
  Any, Request, Response, LogEntry, AppendEntriesRequest, AppendEntriesResult, not_a_leader,
  commited,
}
use metamorphosis.Raft.Machine.{Externals, apply}
use metamorphosis.Raft.Node.{
  Node, PendingRequest, is_leader, majority_count, saved_log_size, get_log_entry, update_term,
  ensure_follower, stop_heartbeat,
}

-- An Execute that waits: the address of its PendingRequest, its log index and its term.
pub record Waiting : Type 0 where
  pub address : ℕ
  pub new_log_index : ℕ
  pub term : ℕ

abbrev pub refused : Response
refused = record { status = not_a_leader; result = [] }

abbrev pub entry_of : ℕ → Request → LogEntry
entry_of term r = record { term = term; request = r }

abbrev fill : Any → PendingRequest → PendingRequest
fill result p = record { replication_finished = true; result = result }

-- The number of nodes whose match_index has reached the index.
unfoldable pub match_count : ℕ → List ℕ → ℕ
match_count index [] = 0
match_count index (m ∷ ms) =
    let rest = match_count index ms in if leb index m then suc rest else rest

-- The search of UpdateCommitIndex, downwards from the last index.
unfoldable pub find_commit_index : ℕ → ℕ → ℕ → List ℕ → ℕ → ℕ
find_commit_index commit_index start majority matches zero = commit_index
find_commit_index commit_index start majority matches (suc i) =
    let rest = find_commit_index commit_index start majority matches i in
    if ltb commit_index (suc i) && leb start (suc i)
    then (if leb majority (match_count (suc i) matches) then suc i else rest)
    else commit_index

module _ {M : Type 0} where
  -- Execute up to Await, at a fresh `address`: the reply of a node that does not lead, or the wait.
  unfoldable pub execute : ℕ → Request → Node M → Node M × (Response ⊎ Waiting)
  execute address r s = if is_leader s.state then (enqueue, inr waiting) else (s, inl refused)
    where
      new_log_index : ℕ
      new_log_index = get_or s.next_index s.node_id 0

      waiting : Waiting
      waiting = record { address = address; new_log_index = new_log_index; term = s.current_term }

      enqueue : Node M
      enqueue = record (stop_heartbeat s) {
        next_index = set s.next_index s.node_id (new_log_index + 1);
        pending_log = s.pending_log ++ entry_of s.current_term r ∷ [];
        frames =
            put address (record { replication_finished = s.stop_leader; result = [] }) s.frames;
        pending_requests = put new_log_index address s.pending_requests;
        reset_heartbeat_timeout = false;
      }

  unfoldable pub answer : Waiting → PendingRequest → Node M → Outcome (Node M × Option Response)
  answer w p s =
      if w.term == s.current_term
      then (do
        verify (is_leader s.state)
        done (s, some (record { status = commited; result = p.result })))
      else done (s, some refused)

  -- Execute from Await: no reply while the signal is missing.
  unfoldable pub end_execute : Waiting → Node M → Outcome (Node M × Option Response)
  unfolding answer
  end_execute w s = do
    p ← get_value (get w.address s.frames)
    if p.replication_finished
        then answer w p (record s {
          pending_requests = delete w.new_log_index s.pending_requests;
          frames = delete w.address s.frames;
        })
        else done (s, none)

  unfoldable pub collect_entries : ℕ → ℕ → Node M → Outcome (List LogEntry)
  collect_entries zero index s = done []
  collect_entries (suc count) index s = do
    e ← get_log_entry index s
    es ← collect_entries count (suc index) s
    done (e ∷ es)

  unfoldable pub previous_term : ℕ → Node M → Outcome ℕ
  previous_term next s =
      if next == 1 then done 0 else (do e ← get_value (get (next - 1) s.raft_log); done e.term)

  -- The request that StartLeaderNodeSession builds for a node.
  unfoldable pub build_request : ℕ → Node M → Outcome AppendEntriesRequest
  unfolding previous_term collect_entries
  build_request node s =
      let next = get_or s.next_index node 0 in
      do
        verify (leb 1 next)
        prev_log_term ← previous_term next s
        entries ← collect_entries (get_or s.next_index s.node_id 0 - next) next s
        done (record {
          term = s.current_term;
          leader_id = s.node_id;
          prev_log_index = next - 1;
          prev_log_term = prev_log_term;
          entries = entries;
          leader_commit = s.commit_index;
        })

  -- StartLeaderMainSession before its loop.
  unfoldable pub start_main_session : Node M → Node M
  start_main_session s = record s { match_index = set s.match_index s.node_id (saved_log_size s) }

  unfoldable pub finish : ℕ → Any → Node M → Node M
  finish index result s = elim (get index s.pending_requests) [
    | none ↦ s
    | some address ↦ elim (get address s.frames) [
      | none ↦ s
      | some p ↦ record s { frames = put address (fill result p) s.frames }
    ]
  ]

module _ {M : Type 0} (x : Externals M) where
  -- One round of the loop that applies: the request that waits for the index gets its result.
  unfoldable pub commit_one : ℕ → Node M → Outcome (Node M)
  unfolding finish
  commit_one index s = do
    e ← get_value (get index s.raft_log)
    let (rsm, result) = apply x e.request s.rsm
    done (finish index result (record s { rsm = rsm }))

  unfoldable pub commit_range : ℕ → ℕ → Node M → Outcome (Node M)
  unfolding commit_one
  commit_range zero index s = done s
  commit_range (suc count) index s = do s' ← commit_one index s; commit_range count (suc index) s'

  unfoldable pub update_commit_index : Node M → Outcome (Node M)
  update_commit_index s =
      let new_commit_index =
        find_commit_index s.commit_index s.current_term_start_index (majority_count s.config)
          s.match_index (saved_log_size s) in
      do
        s' ← commit_range (new_commit_index - s.commit_index) (s.commit_index + 1) s
        done (record s' { commit_index = new_commit_index })

  -- A round of StartLeaderMainSession up to Await.
  unfoldable pub flush : Node M → Outcome (Node M)
  flush s =
      let saved = get_or s.match_index s.node_id 0 in
      if is_leader s.state
      then (do
        s' ← update_commit_index (record s {
          raft_log = write (puts (saved + 1) s.pending_log) s.raft_log;
          match_index = set s.match_index s.node_id (saved + length s.pending_log);
          pending_log = [];
        })
        done (record s' { wake_up = s'.reset_heartbeat_timeout }))
      else done s

  -- A round of StartLeaderNodeSession after its RPC; `none` is an RPC error.
  unfoldable pub on_success : ℕ → AppendEntriesRequest → Node M → Outcome (Node M)
  on_success node request s =
      let sent = length request.entries in
      update_commit_index (record s {
        match_index = set s.match_index node (request.prev_log_index + sent);
        next_index = set s.next_index node (get_or s.next_index node 0 + sent);
      })

  unfoldable pub on_failure : ℕ → Node M → Outcome (Node M)
  on_failure node s =
      let next = get_or s.next_index node 0 in
      do verify (leb 2 next); done (record s { next_index = set s.next_index node (next - 1) })

  unfoldable pub on_reply :
      ℕ → AppendEntriesRequest → AppendEntriesResult → Node M → Outcome (Node M)
  unfolding on_success on_failure
  on_reply node request r s =
      if ltb s.current_term r.term
      then (do s' ← update_term r.term none s; ensure_follower s')
      else if r.success
      then on_success node request s
      else on_failure node s

  unfoldable pub handle_response :
      ℕ → AppendEntriesRequest → Option AppendEntriesResult → Node M → Outcome (Node M)
  unfolding on_reply
  handle_response node request none s = done s
  handle_response node request (some r) s =
      if is_leader s.state then on_reply node request r s else done s

-- The end of StartLeader, after its sessions.
unfoldable pub end_leader : {M : Type 0} → Node M → Node M
end_leader s = record s { pending_log = [] }
