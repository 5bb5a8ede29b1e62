-- ===== src/Raft/Cluster.antt =====
-- A cluster of nodes of src/raft/node/node.cpp: which steps its nodes can take, in any order, and
-- what it remembers of the votes. The network may lose, delay and repeat every message.
use metamorphosis.Prelude.{
  ℕ, ◌<◌, ◌≡◌, ◌==◌, ◌&&◌, ◌||◌, not, if◌then◌else◌, Bool, true, false, Option, none, some, done,
}
use metamorphosis.Raft.Messages.{
  Request, Response, AppendEntriesRequest, AppendEntriesResult, RequestVoteRequest,
  RequestVoteResult,
}
use metamorphosis.Raft.Machine.{Externals}
use metamorphosis.Raft.Node.{follower, Node, is_leader, start_node, next_session, candidate_session}
use metamorphosis.Raft.Voting.{request_vote, start_follower, end_follower, start_candidate, on_vote}
use metamorphosis.Raft.Replication.{append_entries}
use metamorphosis.Raft.Leading.{
  Waiting, execute, end_execute, flush, handle_response, start_main_session, end_leader,
}

-- A run of StartCandidate whose fibers are not all joined: the term of its request, the peers whose
-- RPC has not returned, and votes_count.
pub record Election : Type 0 where
  pub term : ℕ
  pub waiting : ℕ → Bool
  pub votes : ℕ

-- `granted v t c`: a reply of node v that grants its vote in term t to c was sent, or v = c voted for
-- itself. `elected c t`: node c has become leader in term t. Neither is ever forgotten.
pub record Cluster (M : Type 0) : Type 0 where
  pub nodes : ℕ → Node M
  pub elections : ℕ → Option Election
  pub granted : ℕ → ℕ → ℕ → Bool
  pub elected : ℕ → ℕ → Bool

-- A map with the value at one place replaced.
abbrev pub at {ℓ} : {A : Type ℓ} → ℕ → A → (ℕ → A) → ℕ → A
at i a f j = if j == i then a else f j

abbrev pub add_vote : ℕ → ℕ → ℕ → Bool → (ℕ → ℕ → ℕ → Bool) → ℕ → ℕ → ℕ → Bool
add_vote v t c yes_or_no granted v' t' c' =
    (yes_or_no && v' == v && t' == t && c' == c) || granted v' t' c'

abbrev pub add_leader : {M : Type 0} → ℕ → Node M → (ℕ → ℕ → Bool) → ℕ → ℕ → Bool
add_leader i s elected j t = (is_leader s.state && j == i && t == s.current_term) || elected j t

-- A step of one node that concerns no vote: a handler, or a part of one between two awaits.
pub data Local {M : Type 0} (x : Externals M) (s : Node M) : Node M → Type 0 where
  on_append_entries :
      (r : AppendEntriesRequest) (a : AppendEntriesResult) {s' : Node M}
      → append_entries x r s ≡ done (s', a)
      → Local x s s'
  on_execute : (address : ℕ) (r : Request) → Local x s (execute address r s).0
  on_end_execute :
      (w : Waiting) (o : Option Response) {s' : Node M}
      → end_execute w s ≡ done (s', o)
      → Local x s s'
  on_flush : {s' : Node M} → flush x s ≡ done s' → Local x s s'
  on_response :
      (node : ℕ) (r : AppendEntriesRequest) (o : Option AppendEntriesResult) {s' : Node M}
      → handle_response x node r o s ≡ done s'
      → Local x s s'
  on_start_follower : Local x s (start_follower s)
  on_start_main_session : Local x s (start_main_session s)
  on_end_leader : Local x s (end_leader s)

-- A step of a cluster of n nodes. StartCandidate is three kinds of step: its start, the return of the
-- RPC to one peer (`none` is an RPC error), and the join of its fibers. A restart keeps the databases.
pub data Step {M : Type 0} (x : Externals M) (n : ℕ) (c : Cluster M) : Cluster M → Type 0 where
  on_local :
      (i : ℕ) {s' : Node M}
      → i < n
      → Local x (c.nodes i) s'
      → Step x n c (record c { nodes = at i s' c.nodes })
  on_request_vote :
      (i : ℕ) (r : RequestVoteRequest) (a : RequestVoteResult) {s' : Node M}
      → i < n
      → request_vote r (c.nodes i) ≡ done (s', a)
      → Step x n c (record c {
        nodes = at i s' c.nodes;
        granted = add_vote i r.term r.candidate_id a.vote_granted c.granted;
      })
  on_timeout :
      (i : ℕ) {s' : Node M}
      → i < n
      → c.elections i ≡ none
      → end_follower (c.nodes i) ≡ done s'
      → Step x n c (record c { nodes = at i s' c.nodes })
  on_candidate :
      (i votes : ℕ) (r : RequestVoteRequest) {s' : Node M}
      → i < n
      → c.elections i ≡ none
      → next_session (c.nodes i).state ≡ candidate_session
      → start_candidate (c.nodes i) ≡ done (s', votes, r)
      → Step x n c (record c {
        nodes = at i s' c.nodes;
        elections =
            at i
              (some (record { term = r.term; waiting = λ j. not (j == i); votes = votes }))
              c.elections;
        granted = add_vote i r.term i true c.granted;
      })
  on_reply :
      (i p votes : ℕ) (e : Election) (o : Option RequestVoteResult) {s' : Node M}
      → i < n
      → p < n
      → c.elections i ≡ some e
      → e.waiting p ≡ true
      → ((a : RequestVoteResult) → o ≡ some a → a.vote_granted ≡ true → c.granted p e.term i ≡ true)
      → on_vote o e.votes (c.nodes i) ≡ done (s', votes)
      → Step x n c (record c {
        nodes = at i s' c.nodes;
        elections =
            at i (some (record e { waiting = at p false e.waiting; votes = votes })) c.elections;
        elected = add_leader i s' c.elected;
      })
  on_join :
      (i : ℕ) (e : Election)
      → i < n
      → c.elections i ≡ some e
      → Step x n c (record c { elections = at i none c.elections })
  on_restart :
      (i : ℕ) (machine : M)
      → i < n
      → Step x n c (record c {
        nodes =
            at i
              (start_node
                (c.nodes i).config
                machine
                (some (c.nodes i).current_term)
                (c.nodes i).voted_for
                (c.nodes i).raft_log)
              c.nodes;
        elections = at i none c.elections;
      })

pub data Reach {M : Type 0} (x : Externals M) (n : ℕ) (c : Cluster M) : Cluster M → Type 0 where
  here : Reach x n c c
  next : {d e : Cluster M} → Reach x n c d → Step x n d e → Reach x n c e

-- Followers that know their place in the cluster, and no election or vote yet.
pub record IsInitial {M : Type 0} (n : ℕ) (c : Cluster M) : Type 0 where
  pub config : (i : ℕ) → i < n → (c.nodes i).config ≡ record { node_id = i; node_count = n }
  pub state : (i : ℕ) → i < n → (c.nodes i).state ≡ follower
  pub elections : (i : ℕ) → i < n → c.elections i ≡ none
  pub granted : (v t d : ℕ) → c.granted v t d ≡ false
  pub elected : (d t : ℕ) → c.elected d t ≡ false
