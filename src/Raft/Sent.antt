-- ===== src/Raft/Sent.antt =====
-- The AppendEntries requests that StartLeaderNodeSession of src/raft/node/node.cpp builds: each one is
-- a part of what its leader has written.
use metamorphosis.Kv.{get}
use metamorphosis.Raft.Leading.{build_request, previous_term}
use metamorphosis.Kv.Numbered.{get-log, numbered}
use metamorphosis.Raft.Messages.{AppendEntriesRequest, LogEntry}
use metamorphosis.Raft.Traced.{get_elem?-length, Same-append, term_of-Same, IsPart, Written}
use metamorphosis.Raft.Node.{Node}
use metamorphosis.Prelude.{
  get_elem?-drop, leb, verify, ap, Option, some, get_elem?, length-append, ◌∙◌, false, ◌==◌, sym,
  >>=-eq-done, arith, suc, ◌++◌, length, ◌-◌, get_or, ◌≤◌, done, ◌≡◌, List, Bool, get_value, ℕ,
  dec_lt,
}
use metamorphosis.Raft.Recorded.{IsWriting}
use metamorphosis.Raft.Recording.{done_same}
use metamorphosis.Raft.Matching.{full_request, build_request-full}

get_value-done : {A : Type 0} (o : Option A) (a : A) → get_value o ≡ done a → o ≡ some a
get_value-done o a e = ground arith

module _ {M : Type 0} (s : Node M) (xs : List LogEntry) (log : s.raft_log ≡ numbered 1 xs) where
  -- A session that finds the term of the entry before its index finds it in the saved log.
  previous_term-saved :
      (next t : ℕ) → 1 ≤ next → previous_term next s ≡ done t → next - 1 ≤ length xs
  unfolding previous_term
  previous_term-saved next t low e = elim (dec_lt 1 next) [
    | no first ↦ omega arith
    | yes later ↦
        let differs : (next == 1) ≡ false = ground arith in
        let (d, found, _) =
          >>=-eq-done (get_value (get (next - 1) s.raft_log)) _ (rw differs at e) in
        let saved : get (next - 1) s.raft_log ≡ some d = get_value-done _ _ found in
        let place : suc (next - 2) ≡ next - 1 = omega arith in
        let held : get_elem? xs (next - 2) ≡ some d =
          sym (get-log (next - 2) xs) ∙ (rw (place, ← log) saved) in
        omega (arith, get_elem?-length xs (next - 2) d held)
  ]

  build_request-saved :
      (node : ℕ) (r : AppendEntriesRequest)
      → build_request node s ≡ done r
      → (1 ≤ get_or s.next_index node 0) × (get_or s.next_index node 0 - 1 ≤ length xs)
  unfolding build_request
  build_request-saved node r e =
      let next = get_or s.next_index node 0 in
      let (u, low, e') = >>=-eq-done (verify (leb 1 next)) _ e in
      let (t, found, e'') = >>=-eq-done (previous_term next s) _ e' in
      let low' : 1 ≤ next = ground arith in (low', previous_term-saved next t low' found)

module _ {M : Type 0} (w : Written) (main : Bool) (s : Node M) (xs : List LogEntry)
    (log : s.raft_log ≡ numbered 1 xs) (q : IsWriting w main s xs) where
  -- The request of a leader is of its term, and a part of what it has written.
  pub build_request-IsPart :
      (node : ℕ) (r : AppendEntriesRequest)
      → build_request node s ≡ done r
      → (r.term ≡ s.current_term) × IsPart (w s.current_term) r
  build_request-IsPart node r e =
      let ws = xs ++ s.pending_log in
      let (low, high) = build_request-saved s xs log node r e in
      let prev : ℕ = get_or s.next_index node 0 - 1 in
      let next : get_or s.next_index node 0 ≡ suc prev = omega arith in
      let full = full_request s xs log q.next_self node prev in
      let made : r ≡ full =
        done_same (sym e ∙ build_request-full s xs log q.next_self node prev next high) in
      let part : IsPart ws full = record {
        previous = omega (arith, length-append xs s.pending_log);
        term = term_of-Same xs ws prev (Same-append prev xs s.pending_log high);
        entries = λ m d g. sym (get_elem?-drop prev m ws) ∙ g;
      } in
      (ap (λ u. u.term) made, rw (q.wrote, made) part)
