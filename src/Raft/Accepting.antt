-- ===== src/Raft/Accepting.antt =====
-- What AppendEntries of src/raft/node/node.cpp makes of the log, the commit index and the state
-- machine when it accepts a request.
use metamorphosis.Prelude.{
  ℕ, ◌+◌, ◌-◌, ◌<◌, ◌≤◌, ◌≡◌, refl, sym, ap, ◌∙◌, List, ◌++◌, length, take, drop, min, max, arith,
  length-append, length-take, length-drop, take-append_le, take-take, done,
}
use metamorphosis.Kv.{write}
use metamorphosis.Kv.Numbered.{numbered, puts, delete_range-numbered, write-puts}
use native.Mathlib.Numerals.{add-one}
use metamorphosis.Raft.Messages.{LogEntry, AppendEntriesRequest}
use metamorphosis.Raft.Machine.{Externals, ExactlyOnce, IsLawful, replay}
use metamorphosis.Raft.Node.{Node, saved_log_size}
use metamorphosis.Raft.Replication.{apply_range, check_committed, u64_max, entries_batch, accept}
use metamorphosis.Raft.Log.{
  Agrees, saved_log_size-length, check_committed-Agrees, apply_range-continues,
}

-- The node holds the log `xs` in consecutive keys, within uint64, its commit index lies in the log,
-- and its state machine is the one that has applied the committed entries in order to `start`.
pub record IsValid {M : Type 0} (x : Externals M) (start : ExactlyOnce M) (s : Node M)
    (xs : List LogEntry) : Type 0 where
  pub log : s.raft_log ≡ numbered 1 xs
  pub fits : length xs < u64_max
  pub committed : s.commit_index ≤ length xs
  pub applied : s.rsm ≡ replay x (take s.commit_index xs) start

-- The part of the log that a request leaves, and the log that it makes.
abbrev pub kept : AppendEntriesRequest → ℕ → ℕ
kept r commit_index = max r.prev_log_index commit_index

abbrev pub merged : AppendEntriesRequest → ℕ → List LogEntry → List LogEntry
merged r commit_index xs =
    take (kept r commit_index) xs ++ drop (kept r commit_index - r.prev_log_index) r.entries

abbrev pub Fits : AppendEntriesRequest → Type 0
Fits r = r.prev_log_index + length r.entries < u64_max

module _ (r : AppendEntriesRequest) (c : ℕ) (xs : List LogEntry)
    (prev : r.prev_log_index ≤ length xs) (committed : c ≤ length xs) where
  write-entries_batch :
      length xs < u64_max → write (entries_batch r c) (numbered 1 xs) ≡ numbered 1 (merged r c xs)
  unfolding entries_batch write
  write-entries_batch fits =
      let k : kept r c + 1 - 1 ≡ kept r c = omega arith in
      let rest = drop (kept r c - r.prev_log_index) r.entries in
      ap (write (puts (kept r c + 1) rest)) (
        delete_range-numbered 1 (kept r c + 1) u64_max xs (omega arith) (omega arith)
        ∙ ap (λ n. numbered 1 (take n xs)) k)
      ∙ write-puts 1 (kept r c + 1) rest (take (kept r c) xs)
          (omega (arith, length-take (kept r c) xs))

  pub length-merged : length (merged r c xs) ≡ max (kept r c) (r.prev_log_index + length r.entries)
  length-merged = omega (
    arith,
    length-append (take (kept r c) xs) (drop (kept r c - r.prev_log_index) r.entries),
    length-take (kept r c) xs,
    length-drop (kept r c - r.prev_log_index) r.entries,
  )

  pub take-merged : (n : ℕ) → n ≤ kept r c → take n (merged r c xs) ≡ take n xs
  take-merged n h =
      take-append_le n (take (kept r c) xs) (drop (kept r c - r.prev_log_index) r.entries)
        (omega (arith, length-take (kept r c) xs))
      ∙ take-take n (kept r c) xs h

-- The node after an accepted request.
abbrev pub accepted :
    {M : Type 0}
    → Externals M
    → ExactlyOnce M
    → AppendEntriesRequest
    → Node M
    → List LogEntry
    → Node M
accepted x start r s xs =
    let ys = merged r s.commit_index xs in
    let c = max s.commit_index (min r.leader_commit (length ys)) in
    record s { raft_log = numbered 1 ys; rsm = replay x (take c ys) start; commit_index = c }

module _ {M : Type 0} (x : Externals M) (law : IsLawful x) (start : ExactlyOnce M)
    (r : AppendEntriesRequest) (s : Node M) (xs : List LogEntry) (v : IsValid x start s xs)
    (prev : r.prev_log_index ≤ length xs) where
  pub accept-accepted :
      Agrees s.commit_index r.prev_log_index r.entries xs
      → accept x r s ≡ done (accepted x start r s xs)
  unfolding accept
  accept-accepted agrees =
      let c = s.commit_index in
      let ys = merged r c xs in
      let c' = max c (min r.leader_commit (length ys)) in
      let batch : write (entries_batch r c) s.raft_log ≡ numbered 1 ys =
        rw v.log (write-entries_batch r c xs prev v.committed v.fits) in
      let checked : check_committed x.equals c (r.prev_log_index + 1) r.entries s.raft_log
          ≡ done tt =
        rw (v.log, add-one)
          ((check_committed-Agrees x law c r.prev_log_index r.entries xs v.committed).1 agrees) in
      let size : saved_log_size (record s { raft_log = write (entries_batch r c) s.raft_log })
          ≡ length ys =
        saved_log_size-length (record s { raft_log = write (entries_batch r c) s.raft_log }) ys
          batch in
      let old : s.rsm ≡ replay x (take c ys) start =
        v.applied
        ∙ ap (λ p. replay x p start) (sym (take-merged r c xs prev v.committed c (omega arith))) in
      let total : c + (c' - c) ≡ c' = omega arith in
      let applied : apply_range x (c' - c) (c + 1) (numbered 1 ys) s.rsm
          ≡ done (replay x (take c' ys) start) =
        rw (old, add-one c)
          (apply_range-continues x (c' - c) c ys start
              (omega (arith, length-merged r c xs prev v.committed))
            ∙ ap (λ n. done (replay x (take n ys) start)) total) in
      rw (checked, size, batch, applied)

  pub accepted-IsValid :
      Fits r → IsValid x start (accepted x start r s xs) (merged r s.commit_index xs)
  accepted-IsValid f = record {
    log = refl;
    fits = omega (arith, length-merged r s.commit_index xs prev v.committed);
    committed = omega (arith, length-merged r s.commit_index xs prev v.committed);
    applied = refl;
  }
