-- ===== src/Raft/Appending.antt =====
-- The handler AppendEntries of src/raft/node/node.cpp as a whole: what each branch does.
use metamorphosis.Prelude.{
  subst, lt→ltb, le→ltb, ℕ, zero, suc, ◌<◌, ◌≤◌, ◌==◌, ◌≡◌, ◌≢◌, ◌⊎◌, inl, inr, refl, sym, ap, ◌∙◌,
  List, length, take, max, min, arith, true, false, get_elem?, get_elem?-some, done, value_or,
  dec_lt,
}
use metamorphosis.Kv.Numbered.{get-log, numbered}
use metamorphosis.Raft.Messages.{LogEntry, AppendEntriesRequest}
use metamorphosis.Raft.Machine.{Externals, ExactlyOnce, IsLawful, replay}
use metamorphosis.Raft.Node.{Node, follower, saved_log_size, update_term, ensure_follower}
use metamorphosis.Raft.Replication.{reply, matches_previous, append, follow, append_entries}
use metamorphosis.Raft.Log.{Agrees, term_at, saved_log_size-length}
use metamorphosis.Raft.Accepting.{
  IsValid, Fits, merged, accepted, accept-accepted, accepted-IsValid,
}

-- A node that has taken the role of follower in the term, its log and commit index unchanged.
pub record Follows {M : Type 0} (t : ℕ) (s s' : Node M) : Type 0 where
  pub log : s'.raft_log ≡ s.raft_log
  pub commit : s'.commit_index ≡ s.commit_index
  pub rsm : s'.rsm ≡ s.rsm
  pub state : s'.state ≡ follower
  pub term : s'.current_term ≡ t

module _ {M : Type 0} (r : AppendEntriesRequest) (s : Node M) where
  abbrev pub followed : Node M
  followed = value_or (follow r s) s

  pub follow-Follows :
      s.current_term ≤ r.term → (follow r s ≡ done followed) × Follows r.term s followed
  unfolding follow ensure_follower update_term
  follow-Follows h = ground arith

-- The term of the entry at an index of the log, counted from 1; 0 at index 0.
abbrev pub term_of : List LogEntry → ℕ → ℕ
term_of xs zero = 0
term_of xs (suc i) = term_at (get_elem? xs i)

module _ (r : AppendEntriesRequest) (xs : List LogEntry) where
  pub matches_previous-term_of :
      (p : ℕ)
      → r.prev_log_index ≡ p
      → p ≤ length xs
      → (p ≡ 0 → r.prev_log_term ≡ 0)
      → matches_previous r (numbered 1 xs) ≡ done (term_of xs p == r.prev_log_term)
  unfolding matches_previous
  matches_previous-term_of zero e h z = ground (arith, z refl)
  matches_previous-term_of (suc i) e h z =
      let (d, g) = get_elem?-some xs i h in
      let looked = get-log i xs ∙ g in rw (e, looked, g) (ground arith)

module _ {M : Type 0} (x : Externals M) (law : IsLawful x) (start : ExactlyOnce M)
    (r : AppendEntriesRequest) (t : ℕ) (s : Node M) (xs : List LogEntry)
    (v : IsValid x start s xs) where
  size : saved_log_size s ≡ length xs
  size = saved_log_size-length s xs v.log

  matched :
      r.prev_log_index ≤ length xs
      → (r.prev_log_index ≡ 0 → r.prev_log_term ≡ 0)
      → matches_previous r s.raft_log ≡ done (term_of xs r.prev_log_index == r.prev_log_term)
  matched h z = rw v.log (matches_previous-term_of r xs r.prev_log_index refl h z)

  pub append_accepts :
      r.prev_log_index ≤ length xs
      → term_of xs r.prev_log_index ≡ r.prev_log_term
      → Agrees s.commit_index r.prev_log_index r.entries xs
      → append x r t s ≡ done (accepted x start r s xs, reply t true)
  unfolding append
  append_accepts prev same agrees =
      let z : r.prev_log_index ≡ 0 → r.prev_log_term ≡ 0 = λ e. sym same ∙ ap (term_of xs) e in
      ground (arith, size, z, matched prev z, accept-accepted x law start r s xs v prev agrees)

  pub append_rejects :
      (r.prev_log_index ≡ 0 → r.prev_log_term ≡ 0)
      → (length xs < r.prev_log_index) ⊎ (term_of xs r.prev_log_index ≢ r.prev_log_term)
      → append x r t s ≡ done (s, reply t false)
  unfolding append
  append_rejects z (inl beyond) = ground (arith, size, z)
  append_rejects z (inr differs) = elim (dec_lt (length xs) r.prev_log_index) [
    | yes beyond ↦ ground (arith, size, z)
    | no within ↦ ground (arith, size, z, matched (omega arith) z)
  ]

module _ {M : Type 0} (x : Externals M) (law : IsLawful x) (start : ExactlyOnce M)
    (r : AppendEntriesRequest) (s : Node M) (xs : List LogEntry) (v : IsValid x start s xs) where
  pub followed-IsValid : s.current_term ≤ r.term → IsValid x start (followed r s) xs
  followed-IsValid h =
      let f = (follow-Follows r s h).1 in
      record {
        log = f.log ∙ v.log;
        fits = v.fits;
        committed = rw f.commit v.committed;
        applied = f.rsm ∙ v.applied ∙ ap (λ c. replay x (take c xs) start) (sym f.commit);
      }

  -- A valid node accepts a request of this or a later term whose previous entry it holds, and which
  -- agrees with the committed entries: it stays valid with the log `merged`, its commit index moves to
  -- the leader's within that log but never back, and it is a follower in the leader's term.
  pub append_entries_accepts :
      s.current_term ≤ r.term
      → Fits r
      → r.prev_log_index ≤ length xs
      → term_of xs r.prev_log_index ≡ r.prev_log_term
      → Agrees s.commit_index r.prev_log_index r.entries xs
      → (s' : Node M) × (append_entries x r s ≡ done (s', reply s.current_term true))
        × IsValid x start s' (merged r s.commit_index xs)
        × (s'.commit_index
            ≡ max s.commit_index (min r.leader_commit (length (merged r s.commit_index xs))))
        × (s'.state ≡ follower)
        × (s'.current_term ≡ r.term)
  unfolding append_entries
  append_entries_accepts h fits prev same agrees =
      let (e, f) = follow-Follows r s h in
      let w = followed-IsValid h in
      let agrees' : Agrees (followed r s).commit_index r.prev_log_index r.entries xs =
        rw f.commit agrees in
      (
        accepted x start r (followed r s) xs,
        rw (le→ltb r.term s.current_term h, e)
            (append_accepts x law start r s.current_term (followed r s) xs w prev same agrees'),
        subst (λ c. IsValid x start (accepted x start r (followed r s) xs) (merged r c xs)) f.commit
            (accepted-IsValid x law start r (followed r s) xs w prev fits),
        ap (λ c. max c (min r.leader_commit (length (merged r c xs)))) f.commit,
        f.state,
        f.term,
      )

  -- A request of an older term is refused, and changes nothing.
  pub append_entries_stale :
      r.term < s.current_term → append_entries x r s ≡ done (s, reply s.current_term false)
  unfolding append_entries
  append_entries_stale h = rw (lt→ltb r.term s.current_term h)

  -- A request of this or a later term whose previous entry the node does not hold is refused; the
  -- node follows the leader's term, and keeps its log, commit index and state machine.
  pub append_entries_rejects :
      s.current_term ≤ r.term
      → (r.prev_log_index ≡ 0 → r.prev_log_term ≡ 0)
      → (length xs < r.prev_log_index) ⊎ (term_of xs r.prev_log_index ≢ r.prev_log_term)
      → (s' : Node M) × (append_entries x r s ≡ done (s', reply s.current_term false))
        × Follows r.term s s'
  unfolding append_entries
  append_entries_rejects h z reason =
      let (e, f) = follow-Follows r s h in
      (
        followed r s,
        rw (le→ltb r.term s.current_term h, e)
            (append_rejects x law start r s.current_term (followed r s) xs (followed-IsValid h) z
              reason),
        f,
      )
