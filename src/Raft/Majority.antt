-- ===== src/Raft/Majority.antt =====
-- UpdateCommitIndex of src/raft/node/node.cpp against the rule of the protocol: which entry is the last
-- that it commits.
use metamorphosis.Raft.Accepting.{IsValid}
use metamorphosis.Raft.Messages.{LogEntry}
use metamorphosis.Raft.Node.{majority_count, Node}
use metamorphosis.Raft.Machine.{ExactlyOnce, Externals}
use metamorphosis.Prelude.{
  if◌then◌else◌, Bool-cases, inl, inr, sym, ◌∙◌, ap, leb, get_or, ◌+◌, length, done, arith, ◌↔◌,
  ◌≤◌, ◌*◌, ◌<◌, ◌≡◌, List, Bool, ℕ, zero, suc, refl, [], ◌∷◌,
}
use metamorphosis.Raft.Quorum.{count_nodes}
use metamorphosis.Raft.Commit.{
  new_commit_index, new_commit_index_greatest, update_commit_index-Applied,
}
use metamorphosis.Raft.Appending.{term_of}
use metamorphosis.Raft.Leading.{update_commit_index, match_count}

-- More than half of the nodes have reached the index.
abbrev pub HasMajority : {M : Type 0} → Node M → ℕ → Type 0
HasMajority s i =
    s.node_count < 2 * count_nodes s.node_count (λ v. leb i (get_or s.match_index v 0))

-- The entries of the leader's term are those from current_term_start_index on.
abbrev pub IsStarted : {M : Type 0} → Node M → List LogEntry → Type 0
IsStarted s xs =
    (i : ℕ)
    → 0 < i
    → i ≤ length xs
    → (s.current_term_start_index ≤ i) ↔ (term_of xs i ≡ s.current_term)

count_nodes_front :
    (n : ℕ) (p : ℕ → Bool)
    → count_nodes (suc n) p ≡ (if p 0 then 1 else 0) + count_nodes n (λ v. p (suc v))
unfolding count_nodes
count_nodes_front zero p = refl
count_nodes_front (suc n) p = let h = count_nodes_front n p in omega (arith, h)

match_count_first :
    (i m : ℕ) (ms : List ℕ) → match_count i (m ∷ ms) ≡ (if leb i m then 1 else 0) + match_count i ms
unfolding match_count
match_count_first i m ms = elim (Bool-cases (leb i m)) [
  | inl t ↦ rw t (omega arith)
  | inr f ↦ rw f (omega arith)
]

match_count-count_nodes :
    (i : ℕ) (ms : List ℕ) → match_count i ms ≡ count_nodes (length ms) (λ v. leb i (get_or ms v 0))
unfolding match_count count_nodes
match_count-count_nodes i [] = refl
match_count-count_nodes i (m ∷ ms) =
    match_count_first i m ms
    ∙ ap (λ r. (if leb i m then 1 else 0) + r) (match_count-count_nodes i ms)
    ∙ sym (count_nodes_front (length ms) (λ v. leb i (get_or (m ∷ ms) v 0)))

module _ {M : Type 0} (s : Node M) (full : length s.match_index ≡ s.node_count) where
  majority-HasMajority :
      (i : ℕ) → (majority_count s.config ≤ match_count i s.match_index) ↔ HasMajority s i
  unfolding majority_count
  majority-HasMajority i =
      let same : match_count i s.match_index
          ≡ count_nodes s.node_count (λ v. leb i (get_or s.match_index v 0)) =
        match_count-count_nodes i s.match_index
        ∙ ap (λ n. count_nodes n (λ v. leb i (get_or s.match_index v 0))) full in
      (λ h. omega (arith, same), λ h. omega (arith, same))

module _ {M : Type 0} (x : Externals M) (start : ExactlyOnce M) (s : Node M) (xs : List LogEntry)
    (v : IsValid x start s xs) where
  -- UpdateCommitIndex of a valid leader, whose entries from current_term_start_index on are those of
  -- its term, and which has a match index for each node, moves the commit index to the last entry of its
  -- term that more than half of the nodes have reached, if there is one behind the old commit index, and
  -- else leaves it.
  pub update_commit_index_majority :
      length s.match_index ≡ s.node_count
      → IsStarted s xs
      → (s' : Node M) × (update_commit_index x s ≡ done s')
        × (s.commit_index ≤ s'.commit_index)
        × (s'.commit_index ≤ length xs)
        × (s.commit_index < s'.commit_index
            → (term_of xs s'.commit_index ≡ s.current_term) × HasMajority s s'.commit_index)
        × ((i : ℕ)
            → s'.commit_index < i
            → i ≤ length xs
            → term_of xs i ≡ s.current_term
            → ¬ HasMajority s i)
  update_commit_index_majority full started =
      let (t, ran, p, w) = update_commit_index-Applied x start s xs v in
      let n = new_commit_index x start s xs v in
      let (low, high, reached, last) = new_commit_index_greatest x start s xs v in
      (
        record t { commit_index = n },
        ran,
        low,
        high,
        λ more.
            let (late, most) = reached more in
            ((started n (omega arith) high).0 late, (majority-HasMajority s full n).0 most),
        λ i later l term most.
            last i later l
              ((started i (omega arith) l).1 term, (majority-HasMajority s full i).1 most),
      )
