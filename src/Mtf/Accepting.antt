-- ===== src/Mtf/Accepting.antt =====
-- What AppendEntries of src/metamorphosis/node/node.cpp makes of the log, the commit index and the
-- counters of the producers when it accepts a request.
use metamorphosis.Prelude.{
  ℕ, ◌+◌, ◌-◌, ◌<◌, ◌≤◌, ◌≡◌, refl, sym, ap, ◌∙◌, List, ◌++◌, length, take, drop, max, arith,
  length-append, length-take, length-drop, take-append_add, take-append-drop, take_of_length-le,
  done, ◌%◌, ◌^◌,
}
use metamorphosis.Kv.{Kv, write}
use metamorphosis.Kv.Numbered.{numbered, puts, delete_range-numbered, write-puts}
use native.Mathlib.Numerals.{add-one}
use metamorphosis.Mtf.Messages.{LogEntry, AppendEntriesReq}
use metamorphosis.Mtf.Node.{Node, counter, increment_all, decrement_all}
use metamorphosis.Mtf.Replication.{u64_max, entries_batch, recount}
use metamorphosis.Mtf.Counting.{
  count, count-append, Counted, increment_all-Counted, decrement_all-Counted,
}
use metamorphosis.Mtf.Log.{saved_log_size-length, get_range-take}

-- The node holds the log `xs` in consecutive keys, within uint64, its commit index lies in the log,
-- and its counters are those of the log.
pub record IsValid (s : Node) (xs : List LogEntry) : Type 0 where
  pub log : s.raft_log ≡ numbered 1 xs
  pub fits : length xs < u64_max
  pub committed : s.commit_index ≤ length xs
  pub counted : Counted s.producer_next_sequence_id (λ p. count p xs)

-- The part of the log that a request leaves, the entries that it writes, and the log that it makes.
abbrev pub kept : AppendEntriesReq → ℕ → ℕ
kept r commit_index = max r.prev_log_index commit_index

abbrev pub fresh_entries : AppendEntriesReq → ℕ → List LogEntry
fresh_entries r commit_index = drop (kept r commit_index - r.prev_log_index) r.entries

abbrev pub merged : AppendEntriesReq → ℕ → List LogEntry → List LogEntry
merged r commit_index xs = take (kept r commit_index) xs ++ fresh_entries r commit_index

-- The committed entries after the request's previous one.
abbrev pub overlap : AppendEntriesReq → ℕ → List LogEntry → List LogEntry
overlap r commit_index xs = take (kept r commit_index - r.prev_log_index) (drop r.prev_log_index xs)

abbrev pub Fits : AppendEntriesReq → Type 0
Fits r = r.prev_log_index + length r.entries < u64_max

module _ (r : AppendEntriesReq) (c : ℕ) (xs : List LogEntry) (prev : r.prev_log_index ≤ length xs)
    (committed : c ≤ length xs) where
  pub write-entries_batch :
      length xs < u64_max → write (entries_batch r c) (numbered 1 xs) ≡ numbered 1 (merged r c xs)
  unfolding entries_batch write
  write-entries_batch fits =
      let n = kept r c in
      let shift : n + 1 - 1 ≡ n = omega arith in
      let cut =
        delete_range-numbered 1 (n + 1) u64_max xs (omega arith) (omega arith)
        ∙ ap (λ k. numbered 1 (take k xs)) shift in
      ap (write (puts (n + 1) (fresh_entries r c))) cut
      ∙ write-puts 1 (n + 1) (fresh_entries r c) (take n xs) (omega (arith, length-take n xs))

  pub length-merged : length (merged r c xs) ≡ max (kept r c) (r.prev_log_index + length r.entries)
  length-merged = omega (
    arith,
    length-append (take (kept r c) xs) (fresh_entries r c),
    length-take (kept r c) xs,
    length-drop (kept r c - r.prev_log_index) r.entries,
  )

  pub count-merged :
      (p : ℕ)
      → count p (merged r c xs)
        ≡ count p (take r.prev_log_index xs)
          + count p (overlap r c xs)
          + count p (fresh_entries r c)
  count-merged p =
      let n = r.prev_log_index in
      let k = kept r c - n in
      let total : n + k ≡ kept r c = omega arith in
      let split = take-append_add n k xs in
      let first : take (kept r c) xs ≡ take n xs ++ take k (drop n xs) =
        ap (λ m. take m xs) (sym total) ∙ split in
      count-append p (take (kept r c) xs) (fresh_entries r c)
      ∙ ap (λ ys. count p ys + count p (fresh_entries r c)) first
      ∙ ap (λ m. m + count p (fresh_entries r c)) (count-append p (take n xs) (take k (drop n xs)))

-- The counters after an accepted request.
abbrev pub recounted : AppendEntriesReq → Node → List LogEntry → Kv ℕ
recounted r s xs =
    increment_all (fresh_entries r s.commit_index)
      (decrement_all (drop r.prev_log_index xs) s.producer_next_sequence_id)

module _ (r : AppendEntriesReq) (s : Node) (xs : List LogEntry) (v : IsValid s xs)
    (prev : r.prev_log_index ≤ length xs) where
  pub recount-recounted : recount r s ≡ done (recounted r s xs)
  unfolding recount
  recount-recounted =
      let n = r.prev_log_index in
      let size = saved_log_size-length s xs v.log in
      let rest : take (length xs - n) (drop n xs) ≡ drop n xs =
        take_of_length-le (length xs - n) (drop n xs) (omega (arith, length-drop n xs)) in
      let range = get_range-take (length xs - n) n xs (omega arith) in
      rw (size, v.log, add-one n, range, rest) refl

  pub recounted-overlap :
      (p : ℕ)
      → counter p (recounted r s xs)
        ≡ (count p (merged r s.commit_index xs) - count p (overlap r s.commit_index xs)) % 2 ^ 64
  recounted-overlap p =
      let n = r.prev_log_index in
      let c = s.commit_index in
      let whole : (q : ℕ) → count q xs ≡ count q (take n xs) + count q (drop n xs) =
        λ q. ap (count q) (sym (take-append-drop n xs)) ∙ count-append q (take n xs) (drop n xs) in
      let removed =
        decrement_all-Counted (drop n xs) s.producer_next_sequence_id (λ q. count q (take n xs))
          (λ q. v.counted q ∙ ap (λ k. k % 2 ^ 64) (whole q ∙ omega arith)) in
      let added =
        increment_all-Counted (fresh_entries r c) _ (λ q. count q (take n xs)) removed p in
      added ∙ ap (λ k. k % 2 ^ 64) (omega (arith, count-merged r c xs prev v.committed p))
