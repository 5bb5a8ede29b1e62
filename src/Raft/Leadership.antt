-- ===== src/Raft/Leadership.antt =====
-- What holds of a leader of src/raft/node/node.cpp between its awaits: its indices against its
-- saved and its pending log.
use metamorphosis.Prelude.{
  true, false, take-append_le, replicate, ℕ, ◌+◌, ◌≤◌, ◌<◌, ◌≡◌, ◌≢◌, refl, sym, ap, ◌∙◌, subst,
  List, [], ◌∷◌, ◌++◌, length, get_or, set, arith, done, length-append, length-set, get_or-set_self,
  get_or-set_ne, get_or-replicate, length-replicate, ℕ_discrete, inl, inr, ◌⊎◌,
}
use metamorphosis.Kv.{write}
use metamorphosis.Kv.Numbered.{numbered, puts, write-puts}
use metamorphosis.Raft.Messages.{Request, LogEntry}
use metamorphosis.Raft.Machine.{Externals, ExactlyOnce, replay}
use metamorphosis.Raft.Node.{is_leader, Node, leader, candidate, saved_log_size, become_leader}
use metamorphosis.Raft.Leading.{entry_of, execute, start_main_session, flush}
use metamorphosis.Raft.Replication.{u64_max}
use metamorphosis.Raft.Log.{saved_log_size-length}
use metamorphosis.Raft.Accepting.{IsValid}
use metamorphosis.Raft.Commit.{Applied, new_commit_index, update_commit_index-Applied}

pub record Leads {M : Type 0} (s : Node M) (xs : List LogEntry) : Type 0 where
  pub state : s.state ≡ leader
  pub self : s.node_id < s.node_count
  pub nexts : length s.next_index ≡ s.node_count
  pub matches : length s.match_index ≡ s.node_count
  pub saved : get_or s.match_index s.node_id 0 ≡ length xs
  pub next_self : get_or s.next_index s.node_id 0 ≡ length xs + length s.pending_log + 1
  pub low : (i : ℕ) → i < s.node_count → 1 ≤ get_or s.next_index i 0
  pub high :
      (i : ℕ) → i < s.node_count → get_or s.next_index i 0 ≤ length xs + length s.pending_log + 1

-- A read after a write of the same list, at any place.
get_or-set :
    (xs : List ℕ) (i j v : ℕ)
    → i < length xs
    → ((i ≡ j) × (get_or (set xs i v) j 0 ≡ v))
      ⊎ ((i ≢ j) × (get_or (set xs i v) j 0 ≡ get_or xs j 0))
get_or-set xs i j v h = elim (ℕ_discrete i j) [
  | yes p ↦ inl (p, subst (λ k. get_or (set xs i v) k 0 ≡ v) p (get_or-set_self xs i v 0 h))
  | no p ↦ inr (p, get_or-set_ne xs i j v 0 p)
]

module _ {M : Type 0} (s : Node M) (xs : List LogEntry) (l : Leads s xs) where
  -- A leader that takes a request adds its entry to the pending log, and keeps its indices in step.
  pub execute-Leads : (address : ℕ) (r : Request) → Leads (execute address r s).0 xs
  unfolding execute
  execute-Leads address r =
      let n = get_or s.next_index s.node_id 0 in
      let at = λ (i : ℕ). get_or-set s.next_index s.node_id i (n + 1) (omega arith) in
      let pending = length-append s.pending_log (entry_of s.current_term r ∷ []) in
      rw l.state (record {
        state = refl;
        self = l.self;
        nexts = omega (arith, length-set s.next_index s.node_id (n + 1));
        matches = l.matches;
        saved = l.saved;
        next_self =
            omega (arith, get_or-set_self s.next_index s.node_id (n + 1) 0 (omega arith), pending);
        low = λ i h. ground (arith, at i, l.low i h);
        high = λ i h. ground (arith, at i, l.high i h, pending);
      })

-- The state that BecomeLeader makes of a candidate.
abbrev pub elected : {M : Type 0} → Node M → Node M
elected s = record s {
  pending_log = [];
  current_term_start_index = saved_log_size s + 1;
  next_index = replicate s.node_count (saved_log_size s + 1);
  match_index = replicate s.node_count 0;
  reset_heartbeat_timeout = false;
  stop_leader = false;
  stop_election = true;
  state = leader;
}

module _ {M : Type 0} (s : Node M) (xs : List LogEntry) where
  -- A candidate that becomes the leader, and starts its main session, leads with its saved log.
  pub start-Leads :
      s.state ≡ candidate
      → s.node_id < s.node_count
      → s.raft_log ≡ numbered 1 xs
      → (s' : Node M) × (become_leader s ≡ done s') × Leads (start_main_session s') xs
  unfolding become_leader start_main_session
  start-Leads c n log =
      let size = saved_log_size-length s xs log in
      let size' = saved_log_size-length (elected s) xs log in
      let k = saved_log_size s in
      let zeros : List ℕ = replicate s.node_count 0 in
      let at = λ (i : ℕ) (h : i < s.node_count). get_or-replicate s.node_count i (k + 1) 0 h in
      let len = λ (v : ℕ). length-replicate s.node_count v in
      (
        elected s,
        ground arith,
        record {
          state = refl;
          self = n;
          nexts = len (k + 1);
          matches = length-set zeros s.node_id (saved_log_size (elected s)) ∙ len 0;
          saved = omega (
            arith,
            get_or-set_self zeros s.node_id (saved_log_size (elected s)) 0 (omega (arith, len 0)),
            size',
          );
          next_self = omega (arith, at s.node_id n, size);
          low = λ i h. omega (arith, at i h);
          high = λ i h. omega (arith, at i h, size);
        },
      )

Leads-keep :
    {M : Type 0} (m : ExactlyOnce M) (s t : Node M) (xs : List LogEntry) (c : ℕ)
    → Applied m s t
    → Leads s xs
    → Leads (record t { commit_index = c }) xs
Leads-keep m s t xs c p l = record {
  state = p.state ∙ l.state;
  self = rw p.config l.self;
  nexts = ground arith;
  matches = ground arith;
  saved = ground arith;
  next_self = ground arith;
  low = λ i h. ground (arith, l.low i);
  high = λ i h. ground (arith, l.high i);
}

-- The state of the main session after its write, before it updates the commit index.
abbrev pub written : {M : Type 0} → Node M → Node M
written s = record s {
  raft_log = write (puts (get_or s.match_index s.node_id 0 + 1) s.pending_log) s.raft_log;
  match_index =
      set s.match_index s.node_id (get_or s.match_index s.node_id 0 + length s.pending_log);
  pending_log = [];
}

module _ {M : Type 0} (x : Externals M) (start : ExactlyOnce M) (s : Node M) (xs : List LogEntry)
    (v : IsValid x start s xs) (saved : get_or s.match_index s.node_id 0 ≡ length xs) where
  pub written-IsValid :
      length xs + length s.pending_log < u64_max → IsValid x start (written s) (xs ++ s.pending_log)
  written-IsValid fits = record {
    log = rw v.log (
        write-puts 1 (get_or s.match_index s.node_id 0 + 1) s.pending_log xs
          (omega (arith, saved)));
    fits = omega (arith, length-append xs s.pending_log);
    committed = omega (arith, length-append xs s.pending_log, v.committed);
    applied =
        v.applied
        ∙ ap (λ ys. replay x ys start)
            (sym (take-append_le s.commit_index xs s.pending_log v.committed));
  }

module _ {M : Type 0} (x : Externals M) (start : ExactlyOnce M) (s : Node M) (xs : List LogEntry)
    (v : IsValid x start s xs) (l : Leads s xs) where
  written-Leads : Leads (written s) (xs ++ s.pending_log)
  written-Leads =
      let n = get_or s.match_index s.node_id 0 + length s.pending_log in
      let len = length-append xs s.pending_log in
      record {
        state = l.state;
        self = l.self;
        nexts = l.nexts;
        matches = length-set s.match_index s.node_id n ∙ l.matches;
        saved =
            omega
              (arith, get_or-set_self s.match_index s.node_id n 0 (omega (arith, l)), len, l.saved);
        next_self = omega (arith, len, l.next_self);
        low = l.low;
        high = λ i h. omega (arith, len, l.high i h);
      }

  -- A round of the main session of a leader does not abort: it moves the pending log to the saved
  -- one, and the leader stays valid and in step.
  pub flush-Leads :
      length xs + length s.pending_log < u64_max
      → (s' : Node M) × (flush x s ≡ done s')
        × IsValid x start s' (xs ++ s.pending_log)
        × Leads s' (xs ++ s.pending_log)
        × (s'.pending_log ≡ [])
  unfolding flush
  flush-Leads fits =
      let (t, e, p, w) =
        update_commit_index-Applied x start (written s) (xs ++ s.pending_log)
          (written-IsValid x start s xs v l.saved fits) in
      let n =
        new_commit_index x start (written s) (xs ++ s.pending_log)
          (written-IsValid x start s xs v l.saved fits) in
      let lead : is_leader s.state ≡ true = ap is_leader l.state in
      let l' = Leads-keep _ (written s) t (xs ++ s.pending_log) n p written-Leads in
      (
        record t { commit_index = n; wake_up = t.reset_heartbeat_timeout },
        rw (lead, e),
        record { log = w.log; fits = w.fits; committed = w.committed; applied = w.applied },
        record {
          state = l'.state;
          self = l'.self;
          nexts = l'.nexts;
          matches = l'.matches;
          saved = l'.saved;
          next_self = l'.next_self;
          low = l'.low;
          high = l'.high;
        },
        p.pending_log,
      )
