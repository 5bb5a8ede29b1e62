-- ===== src/Raft/Matching.antt =====
-- A leader's request and a follower's handling of it, together: StartLeaderNodeSession and
-- AppendEntries of src/raft/node/node.cpp.
use metamorphosis.Prelude.{
  le→leb, subst, take-append_le, dec_le, get_elem?-take, drop-eq-cons, some, ℕ, zero, suc, ◌+◌, ◌-◌,
  ◌≤◌, ◌<◌, ◌≡◌, refl, sym, ap, ◌∙◌, List, [], ◌∷◌, ◌++◌, length, get_or, get_elem?, take, drop,
  max, arith, done, true, length-append, length-drop, take_of_length-le, take-append-drop,
  drop-drop, get_elem?-append_left, get_elem?-append_right, get_elem?-some, dec_lt, drop-get_elem?,
}
use metamorphosis.Kv.{get}
use metamorphosis.Kv.Numbered.{get-log, numbered}
use metamorphosis.Raft.Messages.{LogEntry, AppendEntriesRequest}
use metamorphosis.Raft.Machine.{Externals, ExactlyOnce, IsLawful}
use metamorphosis.Raft.Node.{Node, saved_log_size, get_log_entry}
use metamorphosis.Raft.Leading.{collect_entries, previous_term, build_request}
use metamorphosis.Raft.Replication.{u64_max, reply, append_entries}
use metamorphosis.Raft.Log.{Agrees, term_at, saved_log_size-length}
use metamorphosis.Raft.Accepting.{IsValid, merged}
use metamorphosis.Raft.Appending.{term_of, append_entries_accepts}
use metamorphosis.Raft.Leadership.{Leads}

module _ {M : Type 0} (s : Node M) (xs : List LogEntry) (log : s.raft_log ≡ numbered 1 xs) where
  -- All entries of a leader, saved and pending.
  abbrev pub whole : List LogEntry
  whole = xs ++ s.pending_log

  get_log_entry-whole :
      (i : ℕ) (e : LogEntry)
      → get_elem? whole i ≡ some e
      → i < length whole
      → get_log_entry (suc i) s ≡ done e
  unfolding get_log_entry
  get_log_entry-whole i e g h =
      let size = saved_log_size-length s xs log in
      let len = length-append xs s.pending_log in
      elim (dec_lt i (length xs)) [
        | yes saved ↦
            let found : get (suc i) s.raft_log ≡ some e =
              rw log (get-log i xs ∙ sym (get_elem?-append_left xs s.pending_log i saved) ∙ g) in
            ground (arith, size, len, found)
        | no pending ↦
            let k : ℕ = suc i - saved_log_size s - 1 in
            let place : i ≡ length xs + k = omega (arith, size) in
            let found : get_elem? s.pending_log k ≡ some e =
              sym (get_elem?-append_right xs s.pending_log k)
              ∙ ap (get_elem? whole) (sym place)
              ∙ g in
            ground (arith, size, len, found)
      ]

  collect_entries-whole :
      (n i : ℕ) → i + n ≤ length whole → collect_entries n (suc i) s ≡ done (take n (drop i whole))
  unfolding collect_entries
  collect_entries-whole zero i h = refl
  collect_entries-whole (suc n) i h =
      let (e, g) = get_elem?-some whole i (omega arith) in
      rw (
        get_log_entry-whole i e g (omega arith),
        collect_entries-whole n (suc i) (omega arith),
        drop-get_elem? i whole e g,
      )

previous_term-term_of :
    {M : Type 0} (s : Node M) (xs : List LogEntry) (prev : ℕ)
    → s.raft_log ≡ numbered 1 xs
    → prev ≤ length xs
    → previous_term (suc prev) s ≡ done (term_of xs prev)
unfolding previous_term
previous_term-term_of s xs zero log h = ground arith
previous_term-term_of s xs (suc i) log h =
    let (e, g) = get_elem?-some xs i h in
    let found : get (suc i) s.raft_log ≡ some e = rw log (get-log i xs ∙ g) in
    let index : suc (suc i) - 1 ≡ suc i = omega arith in rw (index, found, g) (ground arith)

module _ {M : Type 0} (s : Node M) (xs : List LogEntry) (log : s.raft_log ≡ numbered 1 xs)
    (own : get_or s.next_index s.node_id 0 ≡ length xs + length s.pending_log + 1) (node : ℕ) where
  -- The request that tells a node all that the leader has from a point of its log on.
  abbrev pub full_request : ℕ → AppendEntriesRequest
  full_request prev = record {
    term = s.current_term;
    leader_id = s.node_id;
    prev_log_index = prev;
    prev_log_term = term_of xs prev;
    entries = drop prev (whole s xs log);
    leader_commit = s.commit_index;
  }

  -- A leader whose index for a node lies in or just behind its saved log builds its request without
  -- an abort: the entry before the index, and all entries from it on, saved and pending.
  pub build_request-full :
      (prev : ℕ)
      → get_or s.next_index node 0 ≡ suc prev
      → prev ≤ length xs
      → build_request node s ≡ done (full_request prev)
  unfolding build_request
  build_request-full prev next h =
      let ws = whole s xs log in
      let n : ℕ = length xs + length s.pending_log - prev in
      let count : get_or s.next_index s.node_id 0 - suc prev ≡ n = omega (arith, own) in
      let len = length-append xs s.pending_log in
      let all : take n (drop prev ws) ≡ drop prev ws =
        take_of_length-le n (drop prev ws) (omega (arith, length-drop prev ws, len)) in
      let entries = collect_entries-whole s xs log n prev (omega (arith, len)) in
      let before = previous_term-term_of s xs prev log h in
      let index : suc prev - 1 ≡ prev = omega arith in
      rw (next, before, count, entries, all, index, le→leb 1 (suc prev) (omega arith))

Agrees-take :
    (c i : ℕ) (ws xs es : List LogEntry) → take c xs ≡ take c ws → drop i ws ≡ es → Agrees c i es xs
Agrees-take c i ws xs [] same rest = tt
Agrees-take c i ws xs (e ∷ es) same rest =
    let (here, later) = drop-eq-cons i ws e es rest in
    (
      λ h.
          sym (get_elem?-take c i xs h)
          ∙ ap (λ ys. get_elem? ys i) same
          ∙ get_elem?-take c i ws h
          ∙ here,
      Agrees-take c (suc i) ws xs es same later,
    )

term_of-take : (n : ℕ) (xs : List LogEntry) → term_of xs n ≡ term_of (take n xs) n
term_of-take zero xs = refl
term_of-take (suc i) xs = ap term_at (sym (get_elem?-take (suc i) i xs (omega arith)))

module _ {M : Type 0} (x : Externals M) (law : IsLawful x) (start : ExactlyOnce M) (s t : Node M)
    (ls xs : List LogEntry) (log : s.raft_log ≡ numbered 1 ls) (l : Leads s ls)
    (v : IsValid x start t xs) where
  -- A follower of this or an older term whose log matches the leader's up to the leader's index for
  -- it, and whose committed entries are the leader's, accepts the leader's request: afterwards its
  -- log is the leader's, saved and pending.
  pub request_replicates :
      (node prev : ℕ)
      → get_or s.next_index node 0 ≡ suc prev
      → prev ≤ length ls
      → prev ≤ length xs
      → t.current_term ≤ s.current_term
      → length ls + length s.pending_log < u64_max
      → take prev xs ≡ take prev ls
      → take t.commit_index xs ≡ take t.commit_index (ls ++ s.pending_log)
      → t.commit_index ≤ length ls + length s.pending_log
      → (r : AppendEntriesRequest) × (t' : Node M) × (build_request node s ≡ done r)
        × (append_entries x r t ≡ done (t', reply t.current_term true))
        × IsValid x start t' (ls ++ s.pending_log)
  request_replicates node prev next saved held older fits match same short =
      let ws = ls ++ s.pending_log in
      let r = full_request s ls log l.next_self node prev in
      let len = length-append ls s.pending_log in
      let accepts =
        append_entries_accepts x law start r t xs v older (omega (arith, length-drop prev ws, len))
          held
          (term_of-take prev xs ∙ ap (λ ys. term_of ys prev) match ∙ sym (term_of-take prev ls))
          (Agrees-take t.commit_index prev ws xs (drop prev ws) same refl) in
      let c = t.commit_index in
      let k = max prev c in
      let shared : take k xs ≡ take k ws = elim (dec_le prev c) [
        | yes p ↦ let e : k ≡ c = omega arith in rw e same
        | no p ↦
            let e : k ≡ prev = omega arith in
            rw e (match ∙ sym (take-append_le prev ls s.pending_log saved))
      ] in
      let index : prev + (k - prev) ≡ k = omega arith in
      let whole_log : merged r c xs ≡ ws =
        ap (λ ys. ys ++ drop (k - prev) (drop prev ws)) shared
        ∙ ap (λ ys. take k ws ++ ys) (drop-drop (k - prev) prev ws ∙ ap (λ n. drop n ws) index)
        ∙ take-append-drop k ws in
      (
        r,
        accepts.0,
        build_request-full s ls log l.next_self node prev next saved,
        accepts.1,
        subst (IsValid x start accepts.0) whole_log accepts.2,
      )
