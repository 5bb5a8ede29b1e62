-- ===== src/Raft/LogMatching.antt =====
-- Log matching in a cluster of nodes of src/raft/node/node.cpp, in any run of any length, with restarts
-- and a network that loses, delays, repeats and reorders messages.
use metamorphosis.Kv.Numbered.{get-log, numbered}
use metamorphosis.Raft.Campaigns.{reply_step}
use metamorphosis.Raft.Winners.{reply_turn}
use metamorphosis.Raft.Keeping.{
  restart_turn, candidate_turn, timeout_turn, request_vote_turn, end_leader_turn,
  start_main_session_turn,
}
use metamorphosis.Raft.Executing.{execute_turn}
use metamorphosis.Raft.Recorded.{IsRecorded}
use metamorphosis.Kv.{get}
use metamorphosis.Raft.Preserving.{join_step}
use metamorphosis.Raft.Messages.{LogEntry}
use metamorphosis.Raft.Sending.{flush_turn, append_entries_turn, send_turn, own_turn}
use metamorphosis.Raft.Traced.{Same, traced_logs_match, nil-IsTraced, Written}
use metamorphosis.Raft.Machine.{IsLawful, replay, Externals}
use metamorphosis.Raft.Node.{Config, start_node}
use metamorphosis.Prelude.{
  sym, ◌∙◌, get_elem?, List, zero, suc, ◌≤◌, some, false, none, arith, ◌≡◌, ◌<◌, ℕ, refl, [], ◌∷◌,
}
use metamorphosis.Raft.Net.{
  Net, node_at, Turn, on_calm, on_send, on_append_entries, on_execute, on_start_main_session,
  on_flush, on_end_leader, on_request_vote, on_timeout, on_candidate, on_reply, on_join, on_restart,
  Runs, here, next,
}
use metamorphosis.Raft.Matched.{Led, IsMatched}
use metamorphosis.Raft.Cluster.{at, IsInitial}
use metamorphosis.Raft.Safety.{initial-IsSafe, candidate-next_session}

-- A cluster as it starts: empty databases, no session of a leader, nothing sent.
pub record IsNew {M : Type 0} (n : ℕ) (c : Net M) : Type 0 where
  pub cluster : IsInitial n c.cluster
  pub nodes :
      (i : ℕ)
      → i < n
      → (machine : M) × (node_at c i
          ≡ start_node (record { node_id = i; node_count = n }) machine none none [])
  pub main : (i : ℕ) → c.main i ≡ false
  pub sent : c.sent ≡ []
  pub written : (t : ℕ) → c.written t ≡ []

get_zero-numbered : (i : ℕ) (xs : List LogEntry) → get 0 (numbered (suc i) xs) ≡ none
unfolding get
get_zero-numbered i [] = refl
get_zero-numbered i (e ∷ xs) = ground (arith, get_zero-numbered (suc i) xs)

-- Equal beginnings of lists, as the databases that hold them.
numbered_match :
    (xs ys : List LogEntry) (k m : ℕ) (a b : LogEntry)
    → ((v : ℕ) → get_elem? xs v ≡ some a → get_elem? ys v ≡ some b → Same (suc v) xs ys)
    → get k (numbered 1 xs) ≡ some a
    → get k (numbered 1 ys) ≡ some b
    → m ≤ k
    → get m (numbered 1 xs) ≡ get m (numbered 1 ys)
numbered_match xs ys k zero a b same f g le = get_zero-numbered 0 xs ∙ sym (get_zero-numbered 0 ys)
numbered_match xs ys zero (suc m) a b same f g le = absurd (omega arith)
numbered_match xs ys (suc k) (suc m) a b same f g le =
    get-log m xs
    ∙ same k (sym (get-log k xs) ∙ f) (sym (get-log k ys) ∙ g) m (omega arith)
    ∙ sym (get-log m ys)

start_node-IsRecorded :
    {M : Type 0} (x : Externals M) (led : ℕ → Type 0) (w : Written) (config : Config) (machine : M)
    → IsRecorded x led w false (start_node config machine none none [])
unfolding start_node replay
start_node-IsRecorded x led w config machine = record {
  start = record { state_machine = machine; clients_last_cmd_id = [] };
  entries = [];
  valid = record { log = refl; fits = omega arith; committed = omega arith; applied = refl };
  traced = nil-IsTraced led w;
  leading = λ l. cc;
}

module _ {M : Type 0} (x : Externals M) (law : IsLawful x) (n : ℕ) where
  new-IsMatched : (c : Net M) → IsNew n c → IsMatched x n c
  new-IsMatched c h = record {
    safe = initial-IsSafe x n c.cluster h.cluster;
    recorded = λ i l.
        let (machine, e) = h.nodes i l in
        rw (h.main i, e) (start_node-IsRecorded x (Led c) c.written _ machine);
    timed = λ i l. record {
      waits = λ m. absurd (ground (arith, h.main i));
      fresh = λ e o. absurd (ground (arith, h.cluster.elections i l));
      past = λ t e. absurd (ground (arith, h.cluster.elected i t));
    };
    writers = λ t. rw (h.written t) (nil-IsTraced (Led c) c.written);
    sent = λ k r e. absurd (ground (arith, h.sent));
  }

  join_turn :
      (c : Net M) (i : ℕ)
      → IsMatched x n c
      → i < n
      → IsMatched x n
          (record c { cluster = record c.cluster { elections = at i none c.cluster.elections } })
  join_turn c i h l = record {
    safe = join_step n c.cluster h.safe i l;
    recorded = h.recorded;
    timed = λ j m.
        let p = h.timed j m in
        record { waits = p.waits; fresh = λ e o. p.fresh e (ground arith); past = p.past };
    writers = h.writers;
    sent = h.sent;
  }

  Turn-IsMatched : {c d : Net M} → IsMatched x n c → Turn x n c d → IsMatched x n d
  Turn-IsMatched h (on_calm i l step) = own_turn x n _ h i l step
  Turn-IsMatched h (on_send i p r l leads e) = send_turn x n _ h i l p r leads e
  Turn-IsMatched h (on_append_entries i k r a l from fits e) =
      append_entries_turn x n _ h i l law k r a _ from fits e
  Turn-IsMatched h (on_execute i address r l) = execute_turn x n _ h i l address r
  Turn-IsMatched h (on_start_main_session i l leads) = start_main_session_turn x n _ h i l leads
  Turn-IsMatched h (on_flush i l inside fits e) = flush_turn x n _ h i l _ inside fits e
  Turn-IsMatched h (on_end_leader i l follows) = end_leader_turn x n _ h i l follows
  Turn-IsMatched h (on_request_vote i r a l e) = request_vote_turn x n _ h i l r a _ e
  Turn-IsMatched h (on_timeout i l outside idle e) = timeout_turn x n _ h i l _ outside idle e
  Turn-IsMatched h (on_candidate i votes r l idle state e) =
      candidate_turn x n _ h i l votes r _ (candidate-next_session _ state) e
  Turn-IsMatched h (on_reply i p votes e o l m runs waits granted handled) =
      reply_turn x n _ h i l e runs _ o _ e.votes votes handled
        (reply_step n _ h.safe i l p m e runs waits o _ votes granted handled)
  Turn-IsMatched h (on_join i e l runs) = join_turn _ i h l
  Turn-IsMatched h (on_restart i machine l) = restart_turn x n _ h i l machine

  Runs-IsMatched : {c d : Net M} → IsMatched x n c → Runs x n c d → IsMatched x n d
  Runs-IsMatched h here = h
  Runs-IsMatched h (next r s) = Turn-IsMatched (Runs-IsMatched h r) s

  -- If the comparison of entries holds of equal ones only, then however a cluster of n nodes runs from
  -- empty databases, two saved logs that hold entries of one term at one index hold the same entries at
  -- that index and at all before it.
  pub logs_match :
      (c d : Net M)
      → IsNew n c
      → Runs x n c d
      → (i j k m : ℕ) (a b : LogEntry) → i < n
      → j < n
      → get k (node_at d i).raft_log ≡ some a
      → get k (node_at d j).raft_log ≡ some b
      → a.term ≡ b.term
      → m ≤ k
      → get m (node_at d i).raft_log ≡ get m (node_at d j).raft_log
  logs_match c d new run i j k m a b l l' f g same le =
      let h = Runs-IsMatched (new-IsMatched c new) run in
      let p = h.recorded i l in
      let q = h.recorded j l' in
      rw (p.valid.log, q.valid.log)
        (numbered_match p.entries q.entries k m a b
          (λ v f' g'.
            traced_logs_match (Led d) d.written p.entries q.entries v a b p.traced q.traced f' g'
              same)
          (rw p.valid.log at f) (rw q.valid.log at g) le)
