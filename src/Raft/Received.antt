-- ===== src/Raft/Received.antt =====
-- The replies to AppendEntries that a leader of src/raft/node/node.cpp handles, and the requests that a
-- follower handles, against what the leaders have written.
use metamorphosis.Prelude.{
  le→ltb, dec_lt, true, ◌==◌, none, >>=-eq-done, ltb, Bool-cases, some, subst, Option, ◌∙◌, sym,
  inr, inl, get_or-set_ne, arith, length-set, set, ◌-◌, length, ◌≤◌, get_or, ◌⊎◌, ◌+◌, done, List,
  ◌≡◌, ◌≢◌, ◌<◌, Bool, ℕ, refl,
}
use metamorphosis.Raft.Merging.{merged-IsTraced}
use metamorphosis.Raft.Committed.{append_cases, accept-Agrees}
use metamorphosis.Raft.Commit.{new_commit_index, update_commit_index-Applied}
use metamorphosis.Raft.Log.{saved_log_size-length, Agrees}
use metamorphosis.Raft.Appending.{
  followed, follow-Follows, append_entries_stale, term_of, matches_previous-term_of,
}
use metamorphosis.Raft.Replication.{append_entries, append}
use metamorphosis.Raft.Accepting.{accepted-IsValid, accept-accepted, merged, accepted, Fits}
use metamorphosis.Raft.Leading.{handle_response, on_failure, on_success, on_reply}
use metamorphosis.Raft.Node.{follower, ensure_follower, update_term, is_leader, Node}
use metamorphosis.Raft.Messages.{LogEntry, AppendEntriesResult, AppendEntriesRequest}
use metamorphosis.Raft.Traced.{IsPart, IsTraced, Written}
use metamorphosis.Raft.Machine.{IsLawful, Externals}
use metamorphosis.Raft.Recorded.{IsIdle, step_down-IsIdle, IsIdle-IsRecorded, IsRecorded}
use metamorphosis.Raft.Recording.{others-IsRecorded, committed-IsRecorded, done_same}

module _ {M : Type 0} (x : Externals M) (led : ℕ → Type 0) (w : Written) (main : Bool) (s : Node M)
    (self : s.node_id < s.node_count) (h : IsRecorded x led w main s) where
  on_success-IsRecorded :
      (node : ℕ) (r : AppendEntriesRequest) (s' : Node M)
      → node ≢ s.node_id
      → on_success x node r s ≡ done s'
      → IsRecorded x led w main s'
  unfolding on_success
  on_success-IsRecorded node r s' other e =
      let a = r.prev_log_index + length r.entries in
      let b = get_or s.next_index node 0 + length r.entries in
      let t : Node M = record s {
        match_index = set s.match_index node a;
        next_index = set s.next_index node b;
      } in
      let k =
        others-IsRecorded x led w main s self h (set s.match_index node a) (set s.next_index node b)
          (length-set s.match_index node a) (length-set s.next_index node b)
          (get_or-set_ne s.match_index node s.node_id a 0 other)
          (get_or-set_ne s.next_index node s.node_id b 0 other) in
      let (u, ran, p, valid) = update_commit_index-Applied x k.start t k.entries k.valid in
      let n = new_commit_index x k.start t k.entries k.valid in
      let made : s' ≡ record u { commit_index = n } = done_same (sym e ∙ ran) in
      rw made (
        committed-IsRecorded x led w main t self k t u k.entries n _ p valid k.traced k.leading
          u.wake_up)

  on_failure-IsRecorded :
      (node : ℕ) (s' : Node M)
      → node ≢ s.node_id
      → on_failure x node s ≡ done s'
      → IsRecorded x led w main s'
  unfolding on_failure
  on_failure-IsRecorded node s' other e =
      let b = get_or s.next_index node 0 - 1 in
      let made : s' ≡ record s { next_index = set s.next_index node b } = ground arith in
      rw made (
        others-IsRecorded x led w main s self h s.match_index (set s.next_index node b) refl
          (length-set s.next_index node b) refl
          (get_or-set_ne s.next_index node s.node_id b 0 other))

  pub handle_response-IsRecorded :
      (node : ℕ) (r : AppendEntriesRequest) (o : Option AppendEntriesResult) (s' : Node M)
      → node ≢ s.node_id
      → handle_response x node r o s ≡ done s'
      → IsRecorded x led w main s'
  unfolding handle_response on_reply
  handle_response-IsRecorded node r none s' other e =
      subst (IsRecorded x led w main) (done_same e) h
  handle_response-IsRecorded node r (some a) s' other e = elim (Bool-cases (is_leader s.state)) [
    | inr follows ↦ subst (IsRecorded x led w main) (done_same (rw follows at e)) h
    | inl leads ↦ elim (Bool-cases (ltb s.current_term a.term)) [
      | inl newer ↦
          let (t, f, e') =
            >>=-eq-done (update_term a.term none s) ensure_follower (rw (leads, newer) at e) in
          IsIdle-IsRecorded x led w main s h s' main (step_down-IsIdle a.term s t s' f e') (λ m. m)
      | inr known ↦ elim (Bool-cases a.success) [
        | inl yes_reply ↦ on_success-IsRecorded node r s' other (rw (leads, known, yes_reply) at e)
        | inr no_reply ↦ on_failure-IsRecorded node s' other (rw (leads, known, no_reply) at e)
      ]
    ]
  ]

module _ {M : Type 0} (x : Externals M) (law : IsLawful x) (led : ℕ → Type 0) (w : Written)
    (main : Bool) (r : AppendEntriesRequest) (s : Node M) (h : IsRecorded x led w main s)
    (writer : IsTraced led w (w r.term)) (part : IsPart (w r.term) r) (fits : Fits r) where
  abbrev xs : List LogEntry
  xs = h.entries

  accept_matches :
      (t : ℕ) (s' : Node M) (a : AppendEntriesResult)
      → append x r t s ≡ done (s', a)
      → (s' ≡ s)
        ⊎ ((r.prev_log_index ≤ length xs)
            × (term_of xs r.prev_log_index ≡ r.prev_log_term)
            × Agrees s.commit_index r.prev_log_index r.entries xs
            × (s' ≡ accepted x h.start r s xs))
  accept_matches t s' a e = elim (append_cases x law h.start r s xs h.valid t s' a e) [
    | inl same ↦ inl same
    | inr (within, made, first, matches) ↦
        let size = saved_log_size-length s xs h.valid.log in
        let agrees = accept-Agrees x law h.start r s xs h.valid s' made in
        let prev : r.prev_log_index ≤ length xs = omega (arith, size) in
        let compared = matches_previous-term_of r xs r.prev_log_index refl prev first in
        let held : (term_of xs r.prev_log_index == r.prev_log_term) ≡ true =
          done_same (sym compared ∙ (rw h.valid.log at matches)) in
        inr (
          prev,
          ground arith,
          agrees,
          done_same (sym made ∙ accept-accepted x law h.start r s xs h.valid prev agrees),
        )
  ]

  append-IsRecorded :
      (t : ℕ) (s' : Node M) (a : AppendEntriesResult)
      → s.state ≡ follower
      → append x r t s ≡ done (s', a)
      → IsRecorded x led w main s'
  append-IsRecorded t s' a follows e = elim (accept_matches t s' a e) [
    | inl same ↦ rw same h
    | inr (prev, term, agrees, made) ↦ rw made (record {
      start = h.start;
      entries = merged r s.commit_index xs;
      valid = accepted-IsValid x law h.start r s xs h.valid prev fits;
      traced =
          merged-IsTraced led w r xs h.traced writer part s.commit_index prev h.valid.committed term
            agrees;
      leading = λ l. cc;
    })
  ]

module _ {M : Type 0} (x : Externals M) (law : IsLawful x) (led : ℕ → Type 0) (w : Written)
    (main : Bool) (r : AppendEntriesRequest) (s : Node M) (h : IsRecorded x led w main s)
    (writer : IsTraced led w (w r.term)) (part : IsPart (w r.term) r) (fits : Fits r) where
  pub append_entries-IsRecorded :
      (s' : Node M) (a : AppendEntriesResult)
      → append_entries x r s ≡ done (s', a)
      → IsRecorded x led w main s'
  unfolding append_entries
  append_entries-IsRecorded s' a e = elim (dec_lt r.term s.current_term) [
    | yes old ↦
        let stale = append_entries_stale x law h.start r s h.entries h.valid old in
        let same : s' ≡ s = cc in rw same h
    | no new ↦
        let (done_follow, f) = follow-Follows r s (omega arith) in
        let idle : IsIdle s (followed r s) = record {
          log = f.log;
          commit = f.commit;
          rsm = f.rsm;
          leading = λ l. cc;
        } in
        append-IsRecorded x law led w main r (followed r s)
          (IsIdle-IsRecorded x led w main s h (followed r s) main idle (λ m. m)) writer part fits
          s.current_term s' a f.state
          (rw (le→ltb r.term s.current_term (omega arith), done_follow) at e)
  ]
