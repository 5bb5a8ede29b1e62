-- ===== src/Mtf/Appending.antt =====
-- The handler AppendEntries of src/metamorphosis/node/node.cpp as a whole.
use metamorphosis.Kv.{write}
use metamorphosis.Kv.Numbered.{numbered}
use native.Mathlib.Numerals.{add-one}
use metamorphosis.Prelude.{
  [], refl, subst, max, min, ◌+◌, ◌-◌, ◌%◌, ◌^◌, le→ltb, sym, arith, true, ap, ◌==◌, length, done,
  ◌∙◌, ◌≡◌, ◌≤◌, List, Bool, value_or, ℕ,
}
use metamorphosis.Mtf.Messages.{LogEntry, AppendEntriesReq}
use metamorphosis.Mtf.Node.{Node, follower, saved_log_size, counter, update_term, ensure_follower}
use metamorphosis.Mtf.Replication.{
  check_committed, reply, matches_previous, follow, append_checked, append_entries, accept,
  entries_batch,
}
use metamorphosis.Mtf.Counting.{count}
use metamorphosis.Mtf.Log.{
  Agrees-beyond, IsLawful, Agrees, term_of, saved_log_size-length, check_committed-done,
  matches_previous-term_of,
}
use metamorphosis.Mtf.Accepting.{
  IsValid, Fits, merged, overlap, recounted, recount-recounted, recounted-overlap, length-merged,
  write-entries_batch,
}

-- A node that has taken the role of follower in the term, its log, commit index and counters
-- unchanged.
pub record Follows (t : ℕ) (s s' : Node) : Type 0 where
  pub log : s'.raft_log ≡ s.raft_log
  pub commit : s'.commit_index ≡ s.commit_index
  pub counters : s'.producer_next_sequence_id ≡ s.producer_next_sequence_id
  pub state : s'.state ≡ follower
  pub term : s'.current_term ≡ t

module _ (r : AppendEntriesReq) (s : Node) where
  abbrev pub followed : Node
  followed = value_or (follow r s) s

  pub follow-Follows :
      s.current_term ≤ r.term → (follow r s ≡ done followed) × Follows r.term s followed
  unfolding follow ensure_follower update_term
  follow-Follows h = ground arith

-- The node after an accepted request.
abbrev accepted : AppendEntriesReq → Node → List LogEntry → Node
accepted r s xs =
    let ys = merged r s.commit_index xs in
    record s {
      raft_log = numbered 1 ys;
      producer_next_sequence_id = recounted r s xs;
      commit_index = max s.commit_index (min r.leader_commit (length ys));
    }

module _ (equals : LogEntry → LogEntry → Bool) (law : IsLawful equals) (r : AppendEntriesReq)
    (s : Node) (xs : List LogEntry) (v : IsValid s xs) (prev : r.prev_log_index ≤ length xs) where
  accept-accepted :
      Agrees s.commit_index r.prev_log_index r.entries xs
      → accept equals r s ≡ done (accepted r s xs)
  unfolding accept
  accept-accepted agrees =
      let c = s.commit_index in
      let ys = merged r c xs in
      let batch : write (entries_batch r c) s.raft_log ≡ numbered 1 ys =
        rw v.log (write-entries_batch r c xs prev v.committed v.fits) in
      let checked : check_committed equals c (r.prev_log_index + 1) r.entries s.raft_log ≡ done tt =
        rw (v.log, add-one)
          (check_committed-done equals law c r.prev_log_index r.entries xs v.committed agrees) in
      let size : saved_log_size
            (record s { raft_log = numbered 1 ys; producer_next_sequence_id = recounted r s xs })
          ≡ length ys =
        saved_log_size-length
          (record s { raft_log = numbered 1 ys; producer_next_sequence_id = recounted r s xs }) ys
          refl in
      rw (checked, recount-recounted r s xs v prev, batch, size) refl

  pub matched :
      (r.prev_log_index ≡ 0 → r.prev_log_term ≡ 0)
      → matches_previous r s.raft_log ≡ done (term_of xs r.prev_log_index == r.prev_log_term)
  matched z = rw v.log (matches_previous-term_of r xs r.prev_log_index refl prev z)

  append_checked-accepted :
      (t : ℕ)
      → term_of xs r.prev_log_index ≡ r.prev_log_term
      → Agrees s.commit_index r.prev_log_index r.entries xs
      → append_checked equals r t s ≡ done (accepted r s xs, reply t true)
  unfolding append_checked
  append_checked-accepted t same agrees =
      let z : r.prev_log_index ≡ 0 → r.prev_log_term ≡ 0 = λ e. sym same ∙ ap (term_of xs) e in
      ground (arith, saved_log_size-length s xs v.log, z, matched z, accept-accepted agrees)

module _ (r : AppendEntriesReq) (s : Node) (xs : List LogEntry) (v : IsValid s xs) where
  pub followed-IsValid : s.current_term ≤ r.term → IsValid (followed r s) xs
  followed-IsValid h =
      let f = (follow-Follows r s h).1 in
      record {
        log = f.log ∙ v.log;
        fits = v.fits;
        committed = rw f.commit v.committed;
        counted = λ p. ap (counter p) f.counters ∙ v.counted p;
      }

module _ (equals : LogEntry → LogEntry → Bool) (law : IsLawful equals) (r : AppendEntriesReq)
    (s : Node) (xs : List LogEntry) (v : IsValid s xs) where
  -- A request of this or a later term whose previous entry the node holds, and which agrees with
  -- the committed entries, is accepted, and the log becomes `merged`; but the counter of each
  -- producer is short by the number of its committed entries after the request's previous one.
  pub append_entries-overlap :
      s.current_term ≤ r.term
      → Fits r
      → r.prev_log_index ≤ length xs
      → term_of xs r.prev_log_index ≡ r.prev_log_term
      → Agrees s.commit_index r.prev_log_index r.entries xs
      → (s' : Node) × (append_entries equals r s ≡ done (s', reply s.current_term true))
        × (s'.raft_log ≡ numbered 1 (merged r s.commit_index xs))
        × (s'.commit_index
            ≡ max s.commit_index (min r.leader_commit (length (merged r s.commit_index xs))))
        × ((p : ℕ)
            → counter p s'.producer_next_sequence_id
              ≡ (count p (merged r s.commit_index xs) - count p (overlap r s.commit_index xs))
                % 2 ^ 64)
  unfolding append_entries
  append_entries-overlap h fits prev same agrees =
      let (e, f) = follow-Follows r s h in
      let w = followed-IsValid r s xs v h in
      let agrees' : Agrees (followed r s).commit_index r.prev_log_index r.entries xs =
        rw f.commit agrees in
      (
        accepted r (followed r s) xs,
        rw (le→ltb r.term s.current_term h, e)
            (append_checked-accepted equals law r (followed r s) xs w prev s.current_term same
              agrees'),
        ap (λ c. numbered 1 (merged r c xs)) f.commit,
        ap (λ c. max c (min r.leader_commit (length (merged r c xs)))) f.commit,
        subst
            (λ c.
              (p : ℕ)
              → counter p (recounted r (followed r s) xs)
                ≡ (count p (merged r c xs) - count p (overlap r c xs)) % 2 ^ 64)
            f.commit (recounted-overlap r (followed r s) xs w prev),
      )

  -- A valid node accepts a request of this or a later term whose previous entry it holds and whose
  -- previous index is not below the commit index, and stays valid with the merged log: every counter
  -- is that of the new log.
  pub append_entries-IsValid :
      s.current_term ≤ r.term
      → Fits r
      → s.commit_index ≤ r.prev_log_index
      → r.prev_log_index ≤ length xs
      → term_of xs r.prev_log_index ≡ r.prev_log_term
      → (s' : Node) × (append_entries equals r s ≡ done (s', reply s.current_term true))
        × IsValid s' (merged r s.commit_index xs)
  unfolding count
  append_entries-IsValid h fits new prev same =
      let c = s.commit_index in
      let agrees = Agrees-beyond c r.prev_log_index r.entries xs new in
      let (s', e, log, commit, counts) = append_entries-overlap h fits prev same agrees in
      let no_overlap : max r.prev_log_index c - r.prev_log_index ≡ 0 = omega arith in
      let none_lost : overlap r c xs ≡ [] = rw no_overlap refl in
      let long = length-merged r c xs prev v.committed in
      let whole : (n : ℕ) → (n - 0) % 2 ^ 64 ≡ n % 2 ^ 64 = λ n. omega arith in
      (
        s',
        e,
        record {
          log = log;
          fits = omega (arith, long);
          committed = omega (arith, commit, long);
          counted = λ p.
              counts p
              ∙ ap (λ ys. (count p (merged r c xs) - count p ys) % 2 ^ 64) none_lost
              ∙ whole (count p (merged r c xs));
        },
      )
