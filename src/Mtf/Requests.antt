-- ===== src/Mtf/Requests.antt =====
-- The request that StartLeaderNodeSession of src/metamorphosis/node/node.cpp builds: which entries
-- it holds, and which of them in full.
use native.Mathlib.Numerals.{add-one}
use metamorphosis.Prelude.{
  sym, ap, le→ltb, aborted, ◌∙◌, le→leb, ◌≢◌, drop-get_elem?, get_elem?-some, arith, some, drop,
  get_elem?, done, length, ◌-◌, ◌+◌, get_or, ◌<◌, take, suc, ◌≤◌, ◌∷◌, ◌≡◌, Bool, List, ℕ, [], refl,
  zero,
}
use metamorphosis.Kv.{get}
use metamorphosis.Kv.Numbered.{get-log, numbered}
use metamorphosis.Mtf.Messages.{LogEntry, AppendEntriesReq}
use metamorphosis.Mtf.Node.{Node, get_log_entry}
use metamorphosis.Mtf.Replication.{check_committed, append_checked, append_entries, accept}
use metamorphosis.Mtf.Leading.{
  strip, collect_entries, previous_term, last_log_entry_index, build_request,
}
use metamorphosis.Mtf.Log.{IsLawful, term_of, saved_log_size-length, check_committed-aborted}
use metamorphosis.Mtf.Accepting.{IsValid}
use metamorphosis.Mtf.Appending.{matched, followed, follow-Follows, followed-IsValid}

-- A list of entries as it is sent, from an index of the log counted from 0.
abbrev pub stripped : ℕ → ℕ → List LogEntry → List LogEntry
stripped commit_index i [] = []
stripped commit_index i (e ∷ es) = strip commit_index (suc i) e ∷ stripped commit_index (suc i) es

module _ (s : Node) (ls : List LogEntry) (log : s.raft_log ≡ numbered 1 ls) where
  get_log_entry-saved :
      (i : ℕ) (e : LogEntry)
      → i < length ls
      → get_elem? ls i ≡ some e
      → get_log_entry (suc i) s ≡ done e
  unfolding get_log_entry
  get_log_entry-saved i e h g =
      let size = saved_log_size-length s ls log in
      let found : get (suc i) s.raft_log ≡ some e = rw log (get-log i ls ∙ g) in
      ground (arith, size, found)

  collect_entries-stripped :
      (n i : ℕ)
      → i + n ≤ length ls
      → collect_entries n (suc i) s ≡ done (stripped s.commit_index i (take n (drop i ls)))
  unfolding collect_entries
  collect_entries-stripped zero i h = refl
  collect_entries-stripped (suc n) i h =
      let (e, g) = get_elem?-some ls i (omega arith) in
      rw
        (
          get_log_entry-saved i e (omega arith) g,
          drop-get_elem? i ls e g,
          collect_entries-stripped n (suc i) (omega arith),
        )
        refl

  previous_term-term_of : (i : ℕ) → i ≤ length ls → previous_term (suc i) s ≡ done (term_of ls i)
  unfolding previous_term
  previous_term-term_of zero h = refl
  previous_term-term_of (suc i) h =
      let (e, g) = get_elem?-some ls i h in
      let found : get (suc i) s.raft_log ≡ some e = rw log (get-log i ls ∙ g) in
      let index : suc (suc i) - 1 ≡ suc i = omega arith in ground (arith, index, found, g)

  -- The request for a node whose index is `i + 1`.
  abbrev pub stripped_request : ℕ → ℕ → AppendEntriesReq
  stripped_request node i = record {
    term = s.current_term;
    leader_id = s.node_id;
    prev_log_index = i;
    prev_log_term = term_of ls i;
    entries = stripped s.commit_index i (take (last_log_entry_index node s - i) (drop i ls));
    leader_commit = s.commit_index;
  }

  -- A leader whose index for a node lies in or just behind its saved log, and that has no pending
  -- entry to send, builds its request without an abort: the entry before the index, and those from
  -- it up to last_log_entry_index, a committed one without its data.
  pub build_request-stripped :
      (node i : ℕ)
      → get_or s.next_index node 0 ≡ suc i
      → i ≤ length ls
      → last_log_entry_index node s ≤ length ls
      → build_request node s ≡ done (stripped_request node i)
  unfolding build_request
  build_request-stripped node i next h last =
      let n = last_log_entry_index node s in
      let within : i + (n - i) ≤ length ls = omega arith in
      let entries = collect_entries-stripped (n - i) i within in
      let before = previous_term-term_of i h in
      let rounds : n + 1 - suc i ≡ n - i = omega arith in
      let index : suc i - 1 ≡ i = omega arith in
      rw (next, before, rounds, entries, index, le→leb 1 (suc i) (omega arith)) refl

module _ (equals : LogEntry → LogEntry → Bool) (law : IsLawful equals) (r : AppendEntriesReq)
    (t : Node) (xs : List LogEntry) (v : IsValid t xs) (e d : LogEntry) (es : List LogEntry) where
  append_checked-aborted :
      (term : ℕ)
      → term_of xs r.prev_log_index ≡ r.prev_log_term
      → r.entries ≡ e ∷ es
      → r.prev_log_index < t.commit_index
      → get_elem? xs r.prev_log_index ≡ some d
      → e ≢ d
      → append_checked equals r term t ≡ aborted
  unfolding append_checked accept
  append_checked-aborted term same entries old held differs =
      let i = r.prev_log_index in
      let z : i ≡ 0 → r.prev_log_term ≡ 0 = λ p. sym same ∙ ap (term_of xs) p in
      let prev : i ≤ length xs = omega (arith, v.committed) in
      let stopped : check_committed equals t.commit_index (i + 1) r.entries t.raft_log ≡ aborted =
        rw (v.log, add-one, entries)
          (check_committed-aborted equals law t.commit_index i e d es xs old held differs) in
      let accepts : accept equals r t ≡ aborted = rw stopped refl in
      let size = saved_log_size-length t xs v.log in
      ground (arith, size, z, matched equals law r t xs v prev z, accepts)

module _ (equals : LogEntry → LogEntry → Bool) (law : IsLawful equals) (s t : Node)
    (ls xs : List LogEntry) (log : s.raft_log ≡ numbered 1 ls) (v : IsValid t xs) where
  -- A follower that has committed an entry with its data, and is sent the entry again by a leader
  -- that has committed it too, aborts: the leader leaves the data out, and the entries differ.
  pub stripped_retry_aborts :
      (node i : ℕ) (d : LogEntry)
      → get_or s.next_index node 0 ≡ suc i
      → i < s.commit_index
      → i < last_log_entry_index node s
      → last_log_entry_index node s ≤ length ls
      → t.current_term ≤ s.current_term
      → i < t.commit_index
      → term_of xs i ≡ term_of ls i
      → get_elem? ls i ≡ some d
      → get_elem? xs i ≡ some d
      → d.content ≢ []
      → (r : AppendEntriesReq) × (build_request node s ≡ done r)
        × (append_entries equals r t ≡ aborted)
  unfolding append_entries
  stripped_retry_aborts node i d next sent more saved older done_here same led held full =
      let r = stripped_request s ls log node i in
      let c = s.commit_index in
      let n = last_log_entry_index node s in
      let (e, f) = follow-Follows r t older in
      let w = followed-IsValid r t xs v older in
      let rest = take (n - suc i) (drop (suc i) ls) in
      let rounds : n - i ≡ suc (n - suc i) = omega arith in
      let entries : r.entries ≡ strip c (suc i) d ∷ stripped c (suc i) rest =
        ap (λ ys. stripped c i (take (n - i) ys)) (drop-get_elem? i ls d led)
        ∙ ap (λ m. stripped c i (take m (d ∷ drop (suc i) ls))) rounds in
      let bare : strip c (suc i) d ≡ record d { content = [] } = rw (le→leb (suc i) c sent) refl in
      let differs : strip c (suc i) d ≢ d = λ p. full (ap (λ x. x.content) (sym p ∙ bare)) in
      let here : i < (followed r t).commit_index = omega (arith, f.commit) in
      (
        r,
        build_request-stripped s ls log node i next (omega arith) saved,
        rw (le→ltb s.current_term t.current_term older, e)
            (append_checked-aborted equals law r (followed r t) xs w (strip c (suc i) d) d
              (stripped c (suc i) rest) t.current_term same entries here held differs),
      )
