-- ===== src/Raft/Recording.antt =====
-- The handlers of a leader of src/raft/node/node.cpp against what it has written: Execute, the main
-- session and the replies to AppendEntries.
use metamorphosis.Raft.Leadership.{written, written-IsValid}
use metamorphosis.Raft.Replication.{u64_max}
use metamorphosis.Raft.Log.{saved_log_size-length}
use metamorphosis.Raft.Accepting.{IsValid}
use metamorphosis.Raft.Commit.{new_commit_index, update_commit_index-Applied, Applied}
use metamorphosis.Raft.Messages.{LogEntry, Request}
use metamorphosis.Raft.Leading.{entry_of, flush, execute, start_main_session}
use metamorphosis.Raft.Node.{is_leader, saved_log_size, leader, Node}
use metamorphosis.Raft.Traced.{IsTraced, Written}
use metamorphosis.Raft.Machine.{ExactlyOnce, Externals}
use metamorphosis.Raft.Turns.{at-same}
use metamorphosis.Raft.Net.{wrote}
use metamorphosis.Prelude.{
  append-nil, subst, Outcome, append_assoc, [], ◌∷◌, ◌++◌, length-append, done, get_or, ap, length,
  sym, arith, get_or-set_self, ◌+◌, ◌∙◌, true, length-set, ◌≡◌, List, ◌<◌, Bool, ℕ, refl,
}
use metamorphosis.Raft.Recorded.{IsRecorded, IsWriting}

pub done_same : {A : Type 0} {a b : A} → ◌≡◌ {A = Outcome A} (done a) (done b) → a ≡ b
done_same e = cc

module _ {M : Type 0} (x : Externals M) (led : ℕ → Type 0) (w : Written) (main : Bool) (s : Node M)
    (self : s.node_id < s.node_count) (h : IsRecorded x led w main s) where
  abbrev xs : List LogEntry
  xs = h.entries

  pub start_main_session-IsRecorded :
      s.state ≡ leader → IsRecorded x led w true (start_main_session s)
  unfolding start_main_session
  start_main_session-IsRecorded l =
      let q = h.leading l in
      record {
        start = h.start;
        entries = xs;
        valid = record {
          log = h.valid.log;
          fits = h.valid.fits;
          committed = h.valid.committed;
          applied = h.valid.applied;
        };
        traced = h.traced;
        leading = λ _. record {
          wrote = q.wrote;
          nexts = q.nexts;
          matches = length-set s.match_index s.node_id (saved_log_size s) ∙ q.matches;
          next_self = q.next_self;
          saved = λ _.
              get_or-set_self s.match_index s.node_id (saved_log_size s) 0
                (omega (arith, q.matches))
              ∙ saved_log_size-length s xs h.valid.log;
        };
      }

  pub execute-IsRecorded :
      (address : ℕ) (r : Request)
      → s.state ≡ leader
      → IsTraced led (wrote s r w) xs
      → IsRecorded x led (wrote s r w) main (execute address r s).0
  unfolding execute
  execute-IsRecorded address r l traced =
      let q = h.leading l in
      let e = entry_of s.current_term r in
      let n = get_or s.next_index s.node_id 0 in
      let pending = length-append s.pending_log (e ∷ []) in
      let lead : is_leader s.state ≡ true = ap is_leader l in
      rw lead (record {
        start = h.start;
        entries = xs;
        valid = record {
          log = h.valid.log;
          fits = h.valid.fits;
          committed = h.valid.committed;
          applied = h.valid.applied;
        };
        traced = traced;
        leading = λ _. record {
          wrote =
              (rw lead (at-same s.current_term (w s.current_term ++ e ∷ []) w))
              ∙ ap (λ ys. ys ++ e ∷ []) q.wrote
              ∙ append_assoc xs s.pending_log (e ∷ []);
          nexts = length-set s.next_index s.node_id (n + 1) ∙ q.nexts;
          matches = q.matches;
          next_self = omega (
            arith,
            get_or-set_self s.next_index s.node_id (n + 1) 0 (omega (arith, q.nexts)),
            pending,
            q.next_self,
          );
          saved = q.saved;
        };
      })

  -- The commit index moves, and the state machine with it.
  pub committed-IsRecorded :
      (t s' : Node M) (xs' : List LogEntry) (c : ℕ) (m : ExactlyOnce M)
      → Applied m t s'
      → IsValid x h.start (record s' { commit_index = c }) xs'
      → IsTraced led w xs'
      → (t.state ≡ leader → IsWriting w main t xs')
      → (wake_up : Bool)
      → IsRecorded x led w main (record s' { commit_index = c; wake_up = wake_up })
  committed-IsRecorded t s' xs' c m p v traced leading wake_up = record {
    start = h.start;
    entries = xs';
    valid = record { log = v.log; fits = v.fits; committed = v.committed; applied = v.applied };
    traced = traced;
    leading = λ l.
        let q = leading (sym p.state ∙ l) in
        record {
          wrote = ap w p.current_term ∙ q.wrote ∙ ap (λ ys. xs' ++ ys) (sym p.pending_log);
          nexts = ground arith;
          matches = ground arith;
          next_self = ground arith;
          saved = λ k. ground (arith, q.saved k);
        };
  }

  pub flush-IsRecorded :
      (s' : Node M)
      → main ≡ true
      → s.state ≡ leader
      → led s.current_term
      → IsTraced led w (w s.current_term)
      → saved_log_size s + length s.pending_log < u64_max
      → flush x s ≡ done s'
      → IsRecorded x led w main s'
  unfolding flush
  flush-IsRecorded s' m l leads writer fits e =
      let q = h.leading l in
      let size = saved_log_size-length s xs h.valid.log in
      let ys = xs ++ s.pending_log in
      let v = written-IsValid x h.start s xs h.valid (q.saved m) (omega arith) in
      let (t, ran, p, valid) = update_commit_index-Applied x h.start (written s) ys v in
      let n = new_commit_index x h.start (written s) ys v in
      let lead : is_leader s.state ≡ true = ap is_leader l in
      let k = get_or s.match_index s.node_id 0 + length s.pending_log in
      let len = length-append xs s.pending_log in
      let made : s' ≡ record t { commit_index = n; wake_up = t.reset_heartbeat_timeout } =
        done_same (sym e ∙ rw (lead, ran) refl) in
      rw made (
        committed-IsRecorded (written s) t ys n _ p valid (subst (IsTraced led w) q.wrote writer)
          (λ _. record {
            wrote = q.wrote ∙ sym (append-nil ys);
            nexts = q.nexts;
            matches = length-set s.match_index s.node_id k ∙ q.matches;
            next_self = omega (arith, len, q.next_self);
            saved = λ _. omega (
              arith,
              get_or-set_self s.match_index s.node_id k 0 (omega (arith, q.matches)),
              len,
              q.saved m,
            );
          })
          t.reset_heartbeat_timeout)

  -- The indices change, but not the node's own.
  pub others-IsRecorded :
      (matches nexts : List ℕ)
      → length matches ≡ length s.match_index
      → length nexts ≡ length s.next_index
      → get_or matches s.node_id 0 ≡ get_or s.match_index s.node_id 0
      → get_or nexts s.node_id 0 ≡ get_or s.next_index s.node_id 0
      → IsRecorded x led w main (record s { match_index = matches; next_index = nexts })
  others-IsRecorded matches nexts more_matches more_nexts match next = record {
    start = h.start;
    entries = xs;
    valid = record {
      log = h.valid.log;
      fits = h.valid.fits;
      committed = h.valid.committed;
      applied = h.valid.applied;
    };
    traced = h.traced;
    leading = λ l.
        let q = h.leading l in
        record {
          wrote = q.wrote;
          nexts = more_nexts ∙ q.nexts;
          matches = more_matches ∙ q.matches;
          next_self = next ∙ q.next_self;
          saved = λ m. match ∙ q.saved m;
        };
  }
