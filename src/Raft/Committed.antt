-- ===== src/Raft/Committed.antt =====
-- AppendEntries of src/raft/node/node.cpp, on every branch that does not abort: what it keeps.
use metamorphosis.Prelude.{
  true, ℕ, ◌≤◌, ◌≡◌, ◌⊎◌, inl, inr, refl, subst, List, length, take, arith, done, >>=-eq-done,
  dec_lt, le→ltb,
}
use native.Mathlib.Numerals.{add-one}
use metamorphosis.Raft.Messages.{LogEntry, AppendEntriesRequest, AppendEntriesResult}
use metamorphosis.Raft.Machine.{Externals, ExactlyOnce, IsLawful}
use metamorphosis.Raft.Node.{saved_log_size, Node}
use metamorphosis.Raft.Replication.{matches_previous, accept, append, append_entries}
use metamorphosis.Raft.Log.{saved_log_size-length, Agrees, check_committed-Agrees}
use metamorphosis.Raft.Accepting.{
  IsValid, Fits, merged, accepted, accept-accepted, accepted-IsValid, take-merged,
}
use metamorphosis.Raft.Appending.{followed, follow-Follows, followed-IsValid, append_entries_stale}

-- What a handler keeps: a valid state, with the committed entries the same, and the commit index
-- and the term not smaller.
pub record Keeps {M : Type 0} (x : Externals M) (start : ExactlyOnce M) (s s' : Node M)
    (xs ys : List LogEntry) : Type 0 where
  pub valid : IsValid x start s' ys
  pub prefix : take s.commit_index ys ≡ take s.commit_index xs
  pub commit : s.commit_index ≤ s'.commit_index
  pub term : s.current_term ≤ s'.current_term

module _ {M : Type 0} (x : Externals M) (law : IsLawful x) (start : ExactlyOnce M)
    (r : AppendEntriesRequest) (s : Node M) (xs : List LogEntry) (v : IsValid x start s xs) where
  Keeps-same : Keeps x start s s xs xs
  Keeps-same = record { valid = v; prefix = refl; commit = omega arith; term = omega arith }

  pub accept-Agrees :
      (s' : Node M) → accept x r s ≡ done s' → Agrees s.commit_index r.prev_log_index r.entries xs
  unfolding accept
  accept-Agrees s' e =
      let (u, checked, _) = >>=-eq-done _ _ e in
      (check_committed-Agrees x law s.commit_index r.prev_log_index r.entries xs v.committed).0
        (rw (← v.log, ← add-one) checked)

  pub append_cases :
      (t : ℕ) (s' : Node M) (a : AppendEntriesResult)
      → append x r t s ≡ done (s', a)
      → (s' ≡ s)
        ⊎ ((r.prev_log_index ≤ saved_log_size s)
            × (accept x r s ≡ done s')
            × (r.prev_log_index ≡ 0 → r.prev_log_term ≡ 0)
            × (matches_previous r s.raft_log ≡ done true))
  unfolding append
  append_cases t s' a e = ground arith

  append-Keeps :
      Fits r
      → (t : ℕ) (s' : Node M) (a : AppendEntriesResult) → append x r t s ≡ done (s', a)
      → (ys : List LogEntry) × Keeps x start s s' xs ys
  append-Keeps fits t s' a e = elim (append_cases t s' a e) [
    | inl same ↦ (xs, rw same Keeps-same)
    | inr (within, e', first, matches) ↦
        let prev : r.prev_log_index ≤ length xs = omega (arith, saved_log_size-length s xs v.log) in
        let made = accept-accepted x law start r s xs v prev (accept-Agrees s' e') in
        let same : s' ≡ accepted x start r s xs = cc in
        (
          merged r s.commit_index xs,
          rw same (record {
            valid = accepted-IsValid x law start r s xs v prev fits;
            prefix = take-merged r s.commit_index xs prev v.committed s.commit_index (omega arith);
            commit = omega arith;
            term = omega arith;
          }),
        )
  ]

module _ {M : Type 0} (x : Externals M) (law : IsLawful x) (start : ExactlyOnce M)
    (r : AppendEntriesRequest) (s : Node M) (xs : List LogEntry) (v : IsValid x start s xs) where
  -- Whatever a request holds, a node that handles it without an abort stays valid: it keeps every
  -- committed entry, and its commit index and its term do not fall.
  pub append_entries-Keeps :
      Fits r
      → (s' : Node M) (a : AppendEntriesResult) → append_entries x r s ≡ done (s', a)
      → (ys : List LogEntry) × Keeps x start s s' xs ys
  unfolding append_entries
  append_entries-Keeps fits s' a e = elim (dec_lt r.term s.current_term) [
    | yes old ↦
        let stale = append_entries_stale x law start r s xs v old in
        let same : s' ≡ s = cc in (xs, rw same (Keeps-same x law start r s xs v))
    | no new ↦
        let (done_follow, f) = follow-Follows r s (omega arith) in
        let (ys, k) =
          append-Keeps x law start r (followed r s) xs
            (followed-IsValid x law start r s xs v (omega arith)) fits s.current_term s' a
            (rw (le→ltb r.term s.current_term (omega arith), done_follow) at e) in
        (
          ys,
          record {
            valid = k.valid;
            prefix = subst (λ c. take c ys ≡ take c xs) f.commit k.prefix;
            commit = omega (arith, k, f);
            term = omega (arith, k, f);
          },
        )
  ]
