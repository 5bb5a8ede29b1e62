-- ===== src/Raft/Quorum.antt =====
-- Counting the nodes of a cluster that satisfy a test: two majorities share a node.
use metamorphosis.Prelude.{
  inr, inl, ◌&&◌, Bool-cases, ℕ, zero, suc, ◌+◌, ◌/◌, ◌≤◌, ◌<◌, ◌≡◌, Bool, true, false,
  if◌then◌else◌, arith, ℕ_discrete,
}

-- How many of the first n nodes satisfy the test.
unfoldable pub count_nodes : ℕ → (ℕ → Bool) → ℕ
count_nodes zero p = 0
count_nodes (suc n) p = (if p n then 1 else 0) + count_nodes n p

pub count_nodes_mono :
    (n : ℕ) (p q : ℕ → Bool)
    → ((i : ℕ) → i < n → p i ≡ true → q i ≡ true)
    → count_nodes n p ≤ count_nodes n q
unfolding count_nodes
count_nodes_mono zero p q h = omega arith
count_nodes_mono (suc n) p q h =
    ground (arith, h n, count_nodes_mono n p q (λ i l. h i (omega arith)))

-- A node that is counted by the second test only makes it count one more.
pub count_nodes_add :
    (n i : ℕ) (p q : ℕ → Bool)
    → i < n
    → p i ≡ false
    → q i ≡ true
    → ((j : ℕ) → j < n → p j ≡ true → q j ≡ true)
    → count_nodes n p < count_nodes n q
unfolding count_nodes
count_nodes_add zero i p q l a b h = absurd (omega arith)
count_nodes_add (suc n) i p q l a b h = elim (ℕ_discrete i n) [
  | yes here ↦
      let a' = rw here at a in
      let b' = rw here at b in
      ground (arith, a', b', count_nodes_mono n p q (λ j k. h j (omega arith)))
  | no before ↦
      let ih = count_nodes_add n i p q (omega arith) a b (λ j k. h j (omega arith)) in
      ground (arith, ih, h n)
]

meet :
    (n : ℕ) (p q : ℕ → Bool)
    → n < count_nodes n p + count_nodes n q
    → (i : ℕ) × (i < n) × (p i ≡ true) × (q i ≡ true)
unfolding count_nodes
meet zero p q h = absurd (omega arith)
meet (suc n) p q h = elim (Bool-cases (p n && q n)) [
  | inl both ↦ (n, omega arith, ground arith, ground arith)
  | inr one ↦ let (i, l, a, b) = meet n p q (ground arith) in (i, omega arith, a, b)
]

pub majorities_meet :
    (n : ℕ) (p q : ℕ → Bool)
    → n / 2 + 1 ≤ count_nodes n p
    → n / 2 + 1 ≤ count_nodes n q
    → (i : ℕ) × (i < n) × (p i ≡ true) × (q i ≡ true)
majorities_meet n p q h k = meet n p q (omega arith)
