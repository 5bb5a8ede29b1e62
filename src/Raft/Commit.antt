-- ===== src/Raft/Commit.antt =====
-- UpdateCommitIndex of src/raft/node/node.cpp: the index that it finds, and what applying up to it
-- leaves.
use metamorphosis.Prelude.{
  take-append_add, subst, ℕ_discrete, ℕ, zero, suc, ◌+◌, ◌-◌, ◌≤◌, ◌<◌, ◌≡◌, refl, sym, ap, ◌∙◌,
  List, length, take, drop, get_elem?, arith, done, some, get_elem?-some, drop-get_elem?,
}
use native.Mathlib.Numerals.{add-one}
use metamorphosis.Kv.{get}
use metamorphosis.Kv.Numbered.{get-log, numbered}
use metamorphosis.Raft.Messages.{Any, LogEntry}
use metamorphosis.Raft.Machine.{Externals, ExactlyOnce, apply, replay}
use metamorphosis.Raft.Node.{Node, majority_count}
use metamorphosis.Raft.Leading.{
  commit_one, match_count, find_commit_index, finish, commit_range, update_commit_index,
}
use metamorphosis.Raft.Log.{saved_log_size-length, replay-append}
use metamorphosis.Raft.Accepting.{IsValid}

-- An index that a majority has reached, of the present term's entries.
abbrev pub Reached : ℕ → ℕ → List ℕ → ℕ → Type 0
Reached start majority matches i = (start ≤ i) × (majority ≤ match_count i matches)

module _ (c start majority : ℕ) (matches : List ℕ) where
  abbrev found : ℕ → ℕ
  found n = find_commit_index c start majority matches n

  find_commit_index_bounds : (n : ℕ) → c ≤ n → (c ≤ found n) × (found n ≤ n)
  unfolding find_commit_index
  find_commit_index_bounds zero h = omega arith
  find_commit_index_bounds (suc n) h = ground (arith, find_commit_index_bounds n)

  find_commit_index-Reached : (n : ℕ) → c < found n → Reached start majority matches (found n)
  unfolding find_commit_index
  find_commit_index-Reached zero h = absurd (omega arith)
  find_commit_index-Reached (suc n) h = ground (arith, find_commit_index-Reached n)

  find_commit_index_max :
      (n i : ℕ) → found n < i → i ≤ n → c ≤ n → ¬ Reached start majority matches i
  unfolding find_commit_index
  find_commit_index_max zero i h k l r = absurd (omega arith)
  find_commit_index_max (suc n) i h k l (late, most) = elim (ℕ_discrete i (suc n)) [
    | yes last ↦ let most' = rw last at most in ground (arith, find_commit_index_bounds (suc n) l)
    | no before ↦
        let earlier = λ (p : found n < i) (q : c ≤ n).
          find_commit_index_max n i p (omega arith) q (late, most) in
        ground (arith, find_commit_index_bounds (suc n) l, earlier)
  ]

-- What applying committed entries leaves alone: all but the frames and the state machine.
pub record Applied {M : Type 0} (m : ExactlyOnce M) (s s' : Node M) : Type 0 where
  pub state : s'.state ≡ s.state
  pub config : s'.config ≡ s.config
  pub current_term : s'.current_term ≡ s.current_term
  pub voted_for : s'.voted_for ≡ s.voted_for
  pub log : s'.raft_log ≡ s.raft_log
  pub commit : s'.commit_index ≡ s.commit_index
  pub match_index : s'.match_index ≡ s.match_index
  pub next_index : s'.next_index ≡ s.next_index
  pub pending_log : s'.pending_log ≡ s.pending_log
  pub pending_requests : s'.pending_requests ≡ s.pending_requests
  pub current_term_start_index : s'.current_term_start_index ≡ s.current_term_start_index
  pub stop_election : s'.stop_election ≡ s.stop_election
  pub stop_leader : s'.stop_leader ≡ s.stop_leader
  pub reset_election_timeout : s'.reset_election_timeout ≡ s.reset_election_timeout
  pub reset_heartbeat_timeout : s'.reset_heartbeat_timeout ≡ s.reset_heartbeat_timeout
  pub wake_up : s'.wake_up ≡ s.wake_up
  pub rsm : s'.rsm ≡ m

Applied-trans :
    {M : Type 0} {m n : ExactlyOnce M} {s t u : Node M}
    → Applied m s t
    → Applied n t u
    → Applied n s u
Applied-trans p q = ground arith

finish-Applied :
    {M : Type 0} (i : ℕ) (result : Any) (s : Node M) (m : ExactlyOnce M)
    → Applied m s (finish i result (record s { rsm = m }))
unfolding finish
finish-Applied i result s m = ground arith

module _ {M : Type 0} (x : Externals M) where
  pub commit_one-Applied :
      (i : ℕ) (s : Node M) (xs : List LogEntry) (e : LogEntry)
      → s.raft_log ≡ numbered 1 xs
      → get_elem? xs i ≡ some e
      → (s' : Node M) × (commit_one x (suc i) s ≡ done s')
        × Applied (apply x e.request s.rsm).0 s s'
  unfolding commit_one
  commit_one-Applied i s xs e log g =
      let found : get (suc i) s.raft_log ≡ some e = rw log (get-log i xs ∙ g) in
      let (m, result) = apply x e.request s.rsm in
      (finish (suc i) result (record s { rsm = m }), rw found, finish-Applied (suc i) result s m)

  commit_range-Applied :
      (n i : ℕ) (s : Node M) (xs : List LogEntry)
      → s.raft_log ≡ numbered 1 xs
      → i + n ≤ length xs
      → (s' : Node M) × (commit_range x n (suc i) s ≡ done s')
        × Applied (replay x (take n (drop i xs)) s.rsm) s s'
  unfolding commit_range replay
  commit_range-Applied zero i s xs log h = (s, refl, ground arith)
  commit_range-Applied (suc n) i s xs log h =
      let (e, g) = get_elem?-some xs i (omega arith) in
      let (t, one, p) = commit_one-Applied i s xs e log g in
      let (u, more, q) = commit_range-Applied n (suc i) t xs (p.log ∙ log) (omega arith) in
      (
        u,
        rw one more,
        rw (drop-get_elem? i xs e g) (
            Applied-trans p
              (subst (λ m. Applied (replay x (take n (drop (suc i) xs)) m) t u) p.rsm q)),
      )

module _ {M : Type 0} (x : Externals M) (start : ExactlyOnce M) (s : Node M) (xs : List LogEntry)
    (v : IsValid x start s xs) where
  pub replay_to :
      (n : ℕ)
      → s.commit_index ≤ n
      → replay x (take (n - s.commit_index) (drop s.commit_index xs)) s.rsm
        ≡ replay x (take n xs) start
  replay_to n h =
      let c = s.commit_index in
      let total : c + (n - c) ≡ n = omega arith in
      ap (replay x (take (n - c) (drop c xs))) v.applied
      ∙ sym (replay-append x (take c xs) (take (n - c) (drop c xs)) start)
      ∙ ap (λ ys. replay x ys start)
          (sym (take-append_add c (n - c) xs) ∙ ap (λ k. take k xs) total)

  pub commit_to :
      (n : ℕ)
      → s.commit_index ≤ n
      → n ≤ length xs
      → (t : Node M) × (commit_range x (n - s.commit_index) (s.commit_index + 1) s ≡ done t)
        × Applied (replay x (take n xs) start) s t
  commit_to n low high =
      let (t, e, p) =
        commit_range-Applied x (n - s.commit_index) s.commit_index s xs v.log (omega arith) in
      (t, rw add-one e, subst (λ m. Applied m s t) (replay_to n low) p)

  abbrev pub new_commit_index : ℕ
  new_commit_index =
      find_commit_index s.commit_index s.current_term_start_index (majority_count s.config)
        s.match_index (length xs)

  pub update_commit_index-Applied :
      (t : Node M) × (update_commit_index x s ≡ done (record t { commit_index = new_commit_index }))
      × Applied (replay x (take new_commit_index xs) start) s t
      × IsValid x start (record t { commit_index = new_commit_index }) xs
  unfolding update_commit_index
  update_commit_index-Applied =
      let (low, high) = find_commit_index_bounds _ _ _ _ (length xs) v.committed in
      let (t, e, p) = commit_to new_commit_index low high in
      (
        t,
        rw (saved_log_size-length s xs v.log, e),
        p,
        record { log = p.log ∙ v.log; fits = v.fits; committed = high; applied = p.rsm },
      )

  pub new_commit_index_greatest :
      (s.commit_index ≤ new_commit_index)
      × (new_commit_index ≤ length xs)
      × (s.commit_index < new_commit_index
          → Reached s.current_term_start_index
              (majority_count s.config)
              s.match_index
              new_commit_index)
      × ((i : ℕ)
          → new_commit_index < i
          → i ≤ length xs
          → ¬ Reached s.current_term_start_index (majority_count s.config) s.match_index i)
  new_commit_index_greatest =
      let (low, high) = find_commit_index_bounds _ _ _ _ (length xs) v.committed in
      (
        low,
        high,
        find_commit_index-Reached _ _ _ _ (length xs),
        (λ i h k. find_commit_index_max _ _ _ _ (length xs) i h k v.committed),
      )
