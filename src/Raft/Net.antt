-- ===== src/Raft/Net.antt =====
-- A cluster of nodes of src/raft/node/node.cpp with the AppendEntries requests between them: which
-- steps it can take. The network may lose, delay, repeat and reorder every request.
use metamorphosis.Prelude.{
  ℕ, ◌+◌, ◌<◌, ◌≡◌, ◌≢◌, ◌==◌, not, ◌&&◌, if◌then◌else◌, Bool, true, false, Option, some, none,
  List, [], ◌∷◌, ◌++◌, length, get_elem?, done,
}
use metamorphosis.Kv.{Kv}
use metamorphosis.Raft.Messages.{
  LogEntry, Request, Response, AppendEntriesRequest, AppendEntriesResult, RequestVoteRequest,
  RequestVoteResult,
}
use metamorphosis.Raft.Machine.{Externals}
use metamorphosis.Raft.Node.{
  Node, leader, is_leader, start_node, next_session, candidate_session, saved_log_size,
}
use metamorphosis.Raft.Voting.{request_vote, start_follower, end_follower, start_candidate, on_vote}
use metamorphosis.Raft.Replication.{u64_max, append_entries}
use metamorphosis.Raft.Leading.{
  Waiting, entry_of, execute, end_execute, flush, build_request, handle_response,
  start_main_session, end_leader,
}
use metamorphosis.Raft.Accepting.{Fits}
use metamorphosis.Raft.Cluster.{Election, Cluster, at, add_vote, add_leader}
use metamorphosis.Raft.Traced.{Written}

-- `main i`: node i is in the loop of StartLeaderMainSession, or between it and the end of StartLeader.
-- `sent` lists every AppendEntries request that was sent. `written t` is the log of the leader of
-- term t, saved and pending, as it was last; it is never forgotten.
pub record Net (M : Type 0) : Type 0 where
  pub cluster : Cluster M
  pub main : ℕ → Bool
  pub sent : List AppendEntriesRequest
  pub written : Written

abbrev pub node_at : {M : Type 0} → Net M → ℕ → Node M
node_at c i = c.cluster.nodes i

abbrev pub move : {M : Type 0} → ℕ → Node M → Net M → Net M
move i s c = record c { cluster = record c.cluster { nodes = at i s c.cluster.nodes } }

-- A turn of a node in which its log, its pending log and its term stay.
pub data Calm {M : Type 0} (x : Externals M) (s : Node M) : Node M → Type 0 where
  on_end_execute :
      (w : Waiting) (o : Option Response) {s' : Node M}
      → end_execute w s ≡ done (s', o)
      → Calm x s s'
  on_response :
      (node : ℕ) (r : AppendEntriesRequest) (o : Option AppendEntriesResult) {s' : Node M}
      → node ≢ s.node_id
      → handle_response x node r o s ≡ done s'
      → Calm x s s'
  on_start_follower : Calm x s (start_follower s)

-- The entry that Execute appends, if the node leads.
abbrev pub wrote : {M : Type 0} → Node M → Request → Written → Written
wrote s r w t =
    if is_leader s.state
    then at s.current_term (w s.current_term ++ entry_of s.current_term r ∷ []) w t
    else w t

-- The entries of a log database, in its order.
abbrev pub entries_in : Kv LogEntry → List LogEntry
entries_in [] = []
entries_in ((k, e) ∷ m) = e ∷ entries_in m

-- A node that has just become the leader begins with its saved log.
abbrev pub begun : {M : Type 0} → Node M → Node M → Written → Written
begun s s' w t =
    if is_leader s'.state && not (is_leader s.state)
    then at s'.current_term (entries_in s'.raft_log) w t
    else w t

-- A step of a net of n nodes. A leader's session sends its request to another node, while the node
-- leads; it starts its main session while it leads, and ends StartLeader when it does not lead any
-- more. Only after that can its timer as a follower run out. No log grows beyond uint64.
pub data Turn {M : Type 0} (x : Externals M) (n : ℕ) (c : Net M) : Net M → Type 0 where
  on_calm : (i : ℕ) {s' : Node M} → i < n → Calm x (node_at c i) s' → Turn x n c (move i s' c)
  on_send :
      (i p : ℕ) (r : AppendEntriesRequest)
      → i < n
      → (node_at c i).state ≡ leader
      → build_request p (node_at c i) ≡ done r
      → Turn x n c (record c { sent = r ∷ c.sent })
  on_append_entries :
      (i k : ℕ) (r : AppendEntriesRequest) (a : AppendEntriesResult) {s' : Node M}
      → i < n
      → get_elem? c.sent k ≡ some r
      → Fits r
      → append_entries x r (node_at c i) ≡ done (s', a)
      → Turn x n c (move i s' c)
  on_execute :
      (i address : ℕ) (r : Request)
      → i < n
      → Turn x n c (record (move i (execute address r (node_at c i)).0 c) {
        written = wrote (node_at c i) r c.written;
      })
  on_start_main_session :
      (i : ℕ)
      → i < n
      → (node_at c i).state ≡ leader
      → Turn x n c
          (record (move i (start_main_session (node_at c i)) c) { main = at i true c.main })
  on_flush :
      (i : ℕ) {s' : Node M}
      → i < n
      → c.main i ≡ true
      → saved_log_size (node_at c i) + length (node_at c i).pending_log < u64_max
      → flush x (node_at c i) ≡ done s'
      → Turn x n c (move i s' c)
  on_end_leader :
      (i : ℕ)
      → i < n
      → (node_at c i).state ≢ leader
      → Turn x n c (record (move i (end_leader (node_at c i)) c) { main = at i false c.main })
  on_request_vote :
      (i : ℕ) (r : RequestVoteRequest) (a : RequestVoteResult) {s' : Node M}
      → i < n
      → request_vote r (node_at c i) ≡ done (s', a)
      → Turn x n c (record c {
        cluster = record c.cluster {
          nodes = at i s' c.cluster.nodes;
          granted = add_vote i r.term r.candidate_id a.vote_granted c.cluster.granted;
        };
      })
  on_timeout :
      (i : ℕ) {s' : Node M}
      → i < n
      → c.main i ≡ false
      → c.cluster.elections i ≡ none
      → end_follower (node_at c i) ≡ done s'
      → Turn x n c (move i s' c)
  on_candidate :
      (i votes : ℕ) (r : RequestVoteRequest) {s' : Node M}
      → i < n
      → c.cluster.elections i ≡ none
      → next_session (node_at c i).state ≡ candidate_session
      → start_candidate (node_at c i) ≡ done (s', votes, r)
      → Turn x n c (record c {
        cluster = record c.cluster {
          nodes = at i s' c.cluster.nodes;
          elections =
              at i
                (some (record { term = r.term; waiting = λ j. not (j == i); votes = votes }))
                c.cluster.elections;
          granted = add_vote i r.term i true c.cluster.granted;
        };
      })
  on_reply :
      (i p votes : ℕ) (e : Election) (o : Option RequestVoteResult) {s' : Node M}
      → i < n
      → p < n
      → c.cluster.elections i ≡ some e
      → e.waiting p ≡ true
      → ((a : RequestVoteResult)
          → o ≡ some a
          → a.vote_granted ≡ true
          → c.cluster.granted p e.term i ≡ true)
      → on_vote o e.votes (node_at c i) ≡ done (s', votes)
      → Turn x n c (record c {
        cluster = record c.cluster {
          nodes = at i s' c.cluster.nodes;
          elections =
              at i
                (some (record e { waiting = at p false e.waiting; votes = votes }))
                c.cluster.elections;
          elected = add_leader i s' c.cluster.elected;
        };
        written = begun (node_at c i) s' c.written;
      })
  on_join :
      (i : ℕ) (e : Election)
      → i < n
      → c.cluster.elections i ≡ some e
      → Turn x n c
          (record c { cluster = record c.cluster { elections = at i none c.cluster.elections } })
  on_restart :
      (i : ℕ) (machine : M)
      → i < n
      → Turn x n c (record c {
        cluster = record c.cluster {
          nodes =
              at i
                (start_node
                  (node_at c i).config
                  machine
                  (some (node_at c i).current_term)
                  (node_at c i).voted_for
                  (node_at c i).raft_log)
                c.cluster.nodes;
          elections = at i none c.cluster.elections;
        };
        main = at i false c.main;
      })

pub data Runs {M : Type 0} (x : Externals M) (n : ℕ) (c : Net M) : Net M → Type 0 where
  here : Runs x n c c
  next : {d e : Net M} → Runs x n c d → Turn x n d e → Runs x n c e
