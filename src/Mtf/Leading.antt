-- ===== src/Mtf/Leading.antt =====
-- src/metamorphosis/node/node.cpp: the leader's sessions and UpdateCommitIndex. A session that awaits
-- is two functions, one to the await and one from it.
use metamorphosis.Prelude.{
  ◌%◌, ◌^◌, not, Bool, ℕ, zero, suc, ◌+◌, ◌-◌, ◌==◌, ltb, leb, ◌&&◌, if◌then◌else◌, true, false,
  List, [], ◌∷◌, length, get_or, set, Option, none, some, Outcome, done, ◌>>=◌, ◌>>◌, verify,
  get_value,
}
use metamorphosis.Kv.{get, put, write}
use metamorphosis.Kv.Numbered.{puts}
use metamorphosis.Mtf.Appends.{erase}
use metamorphosis.Mtf.Messages.{LogEntry, AppendEntriesReq, AppendEntriesRsp}
use metamorphosis.Mtf.Node.{
  increment_all, is_main_node, Node, PendingRequest, is_leader, majority_count, saved_log_size,
  get_log_entry, update_term, ensure_follower,
}

abbrev complete : ℕ → PendingRequest → PendingRequest
complete offset p = record { replication_finished = true; offset = offset }

-- The number of nodes whose match_index has reached the index.
unfoldable pub match_count : ℕ → List ℕ → ℕ
match_count index [] = 0
match_count index (m ∷ ms) =
    let rest = match_count index ms in if leb index m then suc rest else rest

-- The search of UpdateCommitIndex, downwards from the last index.
unfoldable pub find_commit_index : ℕ → ℕ → ℕ → List ℕ → ℕ → ℕ
find_commit_index commit_index start majority matches zero = commit_index
find_commit_index commit_index start majority matches (suc i) =
    let rest = find_commit_index commit_index start majority matches i in
    if ltb commit_index (suc i) && leb start (suc i)
    then (if leb majority (match_count (suc i) matches) then suc i else rest)
    else commit_index

-- The entry for a node; of a committed one only the hash is sent.
abbrev pub strip : ℕ → ℕ → LogEntry → LogEntry
strip commit_index index e = if leb index commit_index then record e { content = [] } else e

unfoldable pub collect_entries : ℕ → ℕ → Node → Outcome (List LogEntry)
collect_entries zero index s = done []
collect_entries (suc count) index s = do
  e ← get_log_entry index s
  es ← collect_entries count (suc index) s
  done (strip s.commit_index index e ∷ es)

unfoldable pub previous_term : ℕ → Node → Outcome ℕ
previous_term next s =
    if next == 1 then done 0 else (do e ← get_value (get (next - 1) s.raft_log); done e.term)

-- While all main nodes are alive, another node is sent committed entries only.
unfoldable pub last_log_entry_index : ℕ → Node → ℕ
last_log_entry_index node s =
    if not (is_main_node s.config node) && s.alive_main_nodes_count == majority_count s.config
    then s.commit_index
    else get_or s.next_index s.node_id 0 - 1

-- The request that StartLeaderNodeSession builds for a node.
unfoldable pub build_request : ℕ → Node → Outcome AppendEntriesReq
unfolding previous_term collect_entries last_log_entry_index
build_request node s =
    let next = get_or s.next_index node 0 in
    do
      verify (leb 1 next)
      prev_log_term ← previous_term next s
      entries ← collect_entries (last_log_entry_index node s + 1 - next) next s
      done (record {
        term = s.current_term;
        leader_id = s.node_id;
        prev_log_index = next - 1;
        prev_log_term = prev_log_term;
        entries = entries;
        leader_commit = s.commit_index;
      })

unfoldable pub finish : ℕ → Node → Node
finish index s = elim (get index s.pending_requests) [
  | none ↦ s
  | some address ↦ elim (get address s.frames) [
    | none ↦ s
    | some p ↦ record s { frames = put address (complete index p) s.frames }
  ]
]

unfoldable pub commit_range : ℕ → ℕ → Node → Node
unfolding finish
commit_range zero index s = s
commit_range (suc count) index s = commit_range count (suc index) (finish index s)

unfoldable pub update_commit_index : Node → Node
update_commit_index s =
    let new_commit_index =
      find_commit_index s.commit_index s.current_term_start_index (majority_count s.config)
        s.match_index (saved_log_size s) in
    record (commit_range (new_commit_index - s.commit_index) (s.commit_index + 1) s) {
      commit_index = new_commit_index;
    }

-- StartLeaderMainSession before its loop.
unfoldable pub start_main_session : Node → Node
start_main_session s = record s { match_index = set s.match_index s.node_id (saved_log_size s) }

unfoldable pub erase_all : List LogEntry → List ℕ → List ℕ
erase_all [] ps = ps
erase_all (e ∷ es) ps = erase_all es (erase e.producer_id ps)

-- The state of the main session after its write.
unfoldable pub written : Node → Node
unfolding erase_all
written s =
    let saved = get_or s.match_index s.node_id 0 in
    record s {
      raft_log = write (puts (saved + 1) s.pending_log) s.raft_log;
      producer_next_sequence_id = increment_all s.pending_log s.producer_next_sequence_id;
      pending_producers = erase_all s.pending_log s.pending_producers;
      match_index = set s.match_index s.node_id (saved + length s.pending_log);
      pending_log = [];
    }

-- A round of StartLeaderMainSession up to Await.
unfoldable pub flush : Node → Node
unfolding written
flush s =
    if is_leader s.state
    then (let t = update_commit_index (written s) in
        record t { wake_up = t.reset_heartbeat_timeout })
    else s

-- `is_alive` of a session: the RPC to its node has failed. The second component is its new value.
unfoldable pub on_rpc_error : ℕ → Bool → Node → Node × Bool
on_rpc_error node is_alive s =
    if is_alive && is_main_node s.config node
    then (
      record s { alive_main_nodes_count = (s.alive_main_nodes_count + (2 ^ 64 - 1)) % 2 ^ 64 },
      false,
    )
    else (s, false)

unfoldable pub on_rpc_success : ℕ → Bool → Node → Node × Bool
on_rpc_success node is_alive s =
    if not is_alive && is_main_node s.config node
    then (record s { alive_main_nodes_count = (s.alive_main_nodes_count + 1) % 2 ^ 64 }, true)
    else (s, true)

on_success : ℕ → AppendEntriesReq → Node → Node
on_success node request s =
    let sent = length request.entries in
    update_commit_index (record s {
      match_index = set s.match_index node (request.prev_log_index + sent);
      next_index = set s.next_index node (get_or s.next_index node 0 + sent);
    })

on_failure : ℕ → Node → Outcome Node
on_failure node s =
    let next = get_or s.next_index node 0 in
    do verify (leb 2 next); done (record s { next_index = set s.next_index node (next - 1) })

on_reply : ℕ → AppendEntriesReq → AppendEntriesRsp → Node → Outcome Node
unfolding on_success on_failure
on_reply node request r s =
    if ltb s.current_term r.term
    then (do s' ← update_term r.term none s; ensure_follower s')
    else if r.success
    then done (on_success node request s)
    else on_failure node s

-- A round of StartLeaderNodeSession after its RPC; `none` is an RPC error.
unfoldable pub handle_response :
    ℕ → AppendEntriesReq → Option AppendEntriesRsp → Bool → Node → Outcome (Node × Bool)
unfolding on_rpc_error on_rpc_success on_reply
handle_response node request none is_alive s =
    done (if is_leader s.state then on_rpc_error node is_alive s else (s, is_alive))
handle_response node request (some r) is_alive s =
    if is_leader s.state
    then (let (s', alive) = on_rpc_success node is_alive s in
        do s'' ← on_reply node request r s'; done (s'', alive))
    else done (s, is_alive)

-- The end of StartLeader, after its sessions.
unfoldable pub end_leader : Node → Node
end_leader s = record s { pending_log = [] }
