-- ===== src/Raft/Elected.antt =====
-- What a cluster of nodes of src/raft/node/node.cpp keeps of its votes, and how a step of one node
-- keeps it.
use metamorphosis.Prelude.{
  ℕ, ◌+◌, ◌/◌, ◌≤◌, ◌<◌, ◌≡◌, ◌≢◌, ◌⊎◌, inl, inr, ◌&&◌, not, true, Option, some, none, arith,
  ℕ_discrete, Bool, subst, sym,
}
use metamorphosis.Raft.Node.{Node, leader, candidate}
use metamorphosis.Raft.Quorum.{count_nodes, count_nodes_mono}
use metamorphosis.Raft.Cluster.{Election, Cluster}

-- Node i knows its place, each vote that it has granted is of an earlier term or its present vote,
-- and if it leads it was elected.
pub record IsPlaced {M : Type 0} (n : ℕ) (granted : ℕ → ℕ → ℕ → Bool) (elected : ℕ → ℕ → Bool)
    (i : ℕ) (s : Node M) : Type 0 where
  pub config : s.config ≡ record { node_id = i; node_count = n }
  pub held :
      (t d : ℕ)
      → granted i t d ≡ true
      → (t ≤ s.current_term) × (t ≡ s.current_term → s.voted_for ≡ some d)
  pub leads : s.state ≡ leader → elected i s.current_term ≡ true

-- The election that node i runs: its term is the node's while the node is a candidate, and it has
-- counted votes only of nodes that granted them and for whom it does not wait.
abbrev pub IsRunning : {M : Type 0} → ℕ → (ℕ → ℕ → ℕ → Bool) → ℕ → Node M → Option Election → Type 0
IsRunning n granted i s none = Unit {0}
IsRunning n granted i s (some e) =
    (e.term ≤ s.current_term)
    × (s.state ≡ candidate → e.term ≡ s.current_term)
    × (e.votes ≤ count_nodes n (λ v. granted v e.term i && not (e.waiting v)))

pub record IsSafe {M : Type 0} (n : ℕ) (c : Cluster M) : Type 0 where
  pub placed : (i : ℕ) → i < n → IsPlaced n c.granted c.elected i (c.nodes i)
  pub running : (i : ℕ) → i < n → IsRunning n c.granted i (c.nodes i) (c.elections i)
  pub once : (v t d e : ℕ) → v < n → c.granted v t d ≡ true → c.granted v t e ≡ true → d ≡ e
  pub backed : (d t : ℕ) → c.elected d t ≡ true → n / 2 + 1 ≤ count_nodes n (λ v. c.granted v t d)

-- A change at node i alone: it may grant votes in its term, and become a leader with a majority.
pub record Change {M : Type 0} (n i : ℕ) (c d : Cluster M) : Type 0 where
  pub nodes : (j : ℕ) → j ≢ i → d.nodes j ≡ c.nodes j
  pub elections : (j : ℕ) → j ≢ i → d.elections j ≡ c.elections j
  pub others : (v t e : ℕ) → v ≢ i → d.granted v t e ≡ c.granted v t e
  pub more : (v t e : ℕ) → c.granted v t e ≡ true → d.granted v t e ≡ true
  pub fresh :
      (t e : ℕ) → d.granted i t e ≡ true → (c.granted i t e ≡ true) ⊎ (t ≡ (d.nodes i).current_term)
  pub elected : (j t : ℕ) → j ≢ i → d.elected j t ≡ c.elected j t
  pub wins :
      (t : ℕ)
      → d.elected i t ≡ true
      → (c.elected i t ≡ true) ⊎ (n / 2 + 1 ≤ count_nodes n (λ v. d.granted v t i))

module _ {M : Type 0} (n i : ℕ) (c d : Cluster M) (h : IsSafe n c) (g : Change n i c d) where
  other-IsPlaced : (j : ℕ) → j < n → j ≢ i → IsPlaced n d.granted d.elected j (d.nodes j)
  other-IsPlaced j l k =
      let p = h.placed j l in
      rw (g.nodes j k) (record {
        config = p.config;
        held = λ t e q. p.held t e (rw (g.others j t e k) at q);
        leads = λ q. rw (g.elected j (c.nodes j).current_term k) (p.leads q);
      })

  pub IsRunning-more :
      (j : ℕ) (s : Node M) (o : Option Election)
      → IsRunning n c.granted j s o
      → IsRunning n d.granted j s o
  IsRunning-more j s none r = tt
  IsRunning-more j s (some e) r =
      let bound =
        count_nodes_mono n (λ v. c.granted v e.term j && not (e.waiting v))
          (λ v. d.granted v e.term j && not (e.waiting v))
          (λ v l q. ground (arith, g.more v e.term j)) in
      (r.0, r.1, omega (arith, r.2, bound))

  other-IsRunning : (j : ℕ) → j < n → j ≢ i → IsRunning n d.granted j (d.nodes j) (d.elections j)
  other-IsRunning j l k =
      rw (g.nodes j k, g.elections j k)
        (IsRunning-more j (c.nodes j) (c.elections j) (h.running j l))

  once_here :
      IsPlaced n d.granted d.elected i (d.nodes i)
      → i < n
      → (t a b : ℕ) → d.granted i t a ≡ true
      → d.granted i t b ≡ true
      → a ≡ b
  once_here p l t a b q q' =
      ground (arith, p.held t a q, p.held t b q', g.fresh t a q, g.fresh t b q', h.once i t a b l)

  kept_backed : (e t : ℕ) → c.elected e t ≡ true → n / 2 + 1 ≤ count_nodes n (λ v. d.granted v t e)
  kept_backed e t q = omega (
    arith,
    h.backed e t q,
    count_nodes_mono n (λ v. c.granted v t e) (λ v. d.granted v t e) (λ v l. g.more v t e),
  )

  still_backed : (e t : ℕ) → d.elected e t ≡ true → n / 2 + 1 ≤ count_nodes n (λ v. d.granted v t e)
  still_backed e t q = elim (ℕ_discrete e i) [
    | yes k ↦
        let q' : d.elected i t ≡ true = subst (λ j. d.elected j t ≡ true) k q in
        subst (λ j. n / 2 + 1 ≤ count_nodes n (λ v. d.granted v t j)) (sym k)
          (elim (g.wins t q') [ inl old ↦ kept_backed i t old | inr new ↦ new ])
    | no k ↦ kept_backed e t (rw (g.elected e t k) at q)
  ]

  pub Change-IsSafe :
      IsPlaced n d.granted d.elected i (d.nodes i)
      → IsRunning n d.granted i (d.nodes i) (d.elections i)
      → IsSafe n d
  Change-IsSafe p r = record {
    placed = λ j l. elim (ℕ_discrete j i) [
      | yes e ↦ subst (λ k. IsPlaced n d.granted d.elected k (d.nodes k)) (sym e) p
      | no k ↦ other-IsPlaced j l k
    ];
    running = λ j l. elim (ℕ_discrete j i) [
      | yes e ↦ subst (λ k. IsRunning n d.granted k (d.nodes k) (d.elections k)) (sym e) r
      | no k ↦ other-IsRunning j l k
    ];
    once = λ v t a b l q q'. elim (ℕ_discrete v i) [
      | yes e ↦
          once_here p (subst (λ k. k < n) e l) t a b (subst (λ k. d.granted k t a ≡ true) e q)
            (subst (λ k. d.granted k t b ≡ true) e q')
      | no k ↦ h.once v t a b l (rw (g.others v t a k) at q) (rw (g.others v t b k) at q')
    ];
    backed = still_backed;
  }
