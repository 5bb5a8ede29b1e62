-- ===== src/Raft/Replication.antt =====
-- src/raft/node/node.cpp: AppendEntries.
use metamorphosis.Prelude.{
  ℕ, zero, suc, ◌+◌, ◌-◌, ◌^◌, ◌==◌, ltb, leb, ◌||◌, not, if◌then◌else◌, Bool, true, false, List,
  [], ◌∷◌, drop, min, max, none, Outcome, done, ◌>>=◌, ◌>>◌, verify, get_value,
}
use metamorphosis.Kv.{Kv, Command, delete_range_cmd, get, write}
use metamorphosis.Kv.Numbered.{puts}
use metamorphosis.Raft.Messages.{LogEntry, AppendEntriesRequest, AppendEntriesResult}
use metamorphosis.Raft.Machine.{Externals, ExactlyOnce, apply}
use metamorphosis.Raft.Node.{Node, saved_log_size, update_term, ensure_follower}

-- std::numeric_limits<uint64_t>::max()
abbrev pub u64_max : ℕ
u64_max = 2 ^ 64 - 1

abbrev pub reply : ℕ → Bool → AppendEntriesResult
reply term success = record { term = term; success = success }

-- The commands that replace all after the kept part of the log by entries of the request.
unfoldable pub entries_batch : AppendEntriesRequest → ℕ → List (Command LogEntry)
entries_batch r commit_index =
    let kept = max r.prev_log_index commit_index in
    delete_range_cmd (kept + 1) u64_max ∷ puts (kept + 1) (drop (kept - r.prev_log_index) r.entries)

-- The loop that compares entries of the request with the committed log, from `index`.
unfoldable pub check_committed :
    (LogEntry → LogEntry → Bool) → ℕ → ℕ → List LogEntry → Kv LogEntry → Outcome (Unit {0})
check_committed equals commit_index index [] log = done tt
check_committed equals commit_index index (e ∷ es) log =
    let rest = check_committed equals commit_index (suc index) es log in
    if leb index commit_index
    then (do e' ← get_value (get index log); verify (equals e e'); rest)
    else done tt

-- if (request.prev_log_index() != 0): does the log hold the previous entry's term?
unfoldable pub matches_previous : AppendEntriesRequest → Kv LogEntry → Outcome Bool
matches_previous r log =
    if r.prev_log_index == 0
    then done true
    else (do e ← get_value (get r.prev_log_index log); done (e.term == r.prev_log_term))

module _ {M : Type 0} where
  -- The step down and the new term of a request that is not older.
  unfoldable pub follow : AppendEntriesRequest → Node M → Outcome (Node M)
  follow r s = do
    s' ← ensure_follower (record s { reset_election_timeout = true })
    if ltb s'.current_term r.term then update_term r.term none s' else done s'

module _ {M : Type 0} (x : Externals M) where
  -- rsm.Apply for `count` entries from `index`.
  unfoldable pub apply_range : ℕ → ℕ → Kv LogEntry → ExactlyOnce M → Outcome (ExactlyOnce M)
  apply_range zero index log rsm = done rsm
  apply_range (suc count) index log rsm = do
    e ← get_value (get index log)
    apply_range count (suc index) log (apply x e.request rsm).0

  -- From the check of the committed log to the end.
  unfoldable pub accept : AppendEntriesRequest → Node M → Outcome (Node M)
  unfolding entries_batch
  accept r s = do
    check_committed x.equals s.commit_index (r.prev_log_index + 1) r.entries s.raft_log
    let s' = record s { raft_log = write (entries_batch r s.commit_index) s.raft_log }
    let new_commit_index = max s'.commit_index (min r.leader_commit (saved_log_size s'))
    rsm ← apply_range (new_commit_index - s'.commit_index) (s'.commit_index + 1) s'.raft_log s'.rsm
    done (record s' { rsm = rsm; commit_index = new_commit_index })

  -- From the check of prev_log_index to the end, with the term of the reply.
  unfoldable pub append : AppendEntriesRequest → ℕ → Node M → Outcome (Node M × AppendEntriesResult)
  append r term s = do
    verify (not (r.prev_log_index == 0) || r.prev_log_term == 0)
    if ltb (saved_log_size s) r.prev_log_index then done (s, reply term false) else (do
      ok ← matches_previous r s.raft_log
      if ok then (do s' ← accept r s; done (s', reply term true)) else done (s, reply term false))

  unfoldable pub append_entries :
      AppendEntriesRequest → Node M → Outcome (Node M × AppendEntriesResult)
  append_entries r s =
      if ltb r.term s.current_term
      then done (s, reply s.current_term false)
      else (do s' ← follow r s; append r s.current_term s')
