-- ===== src/Mtf/MainNodes.antt =====
-- IsMainNode of src/metamorphosis/node/node.cpp against the count of alive main nodes that
-- BecomeLeader starts with.
use metamorphosis.Prelude.{
  dec_le, ◌==◌, not, arith, ◌-◌, min, ◌&&◌, ltb, ◌+◌, if◌then◌else◌, ◌≡◌, ◌≤◌, ◌<◌, suc, ℕ, zero,
}
use metamorphosis.Mtf.Node.{Config, majority_count, is_main_node}

-- The main nodes other than the own one among the first nodes.
unfoldable pub count_main : Config → ℕ → ℕ
count_main c zero = 0
count_main c (suc n) =
    let rest = count_main c n in if is_main_node c n && not (n == c.node_id) then suc rest else rest

module _ (c : Config) where
  count_main_high :
      majority_count c ≤ c.node_id
      → (n : ℕ) → n ≤ c.node_count
      → count_main c n ≡ min n (majority_count c - 1)
  unfolding count_main is_main_node
  count_main_high h zero l = omega arith
  count_main_high h (suc n) l = ground (arith, count_main_high h n)

  count_main_low :
      c.node_id < majority_count c
      → (n : ℕ) → count_main c n + (if ltb c.node_id n then 1 else 0) ≡ min n (majority_count c)
  unfolding count_main is_main_node
  count_main_low h zero = ground arith
  count_main_low h (suc n) = ground (arith, count_main_low h n)

  -- With the own node, the main nodes of a cluster that the node belongs to are a majority, no more
  -- and no fewer.
  pub count_main-majority_count :
      c.node_id < c.node_count → count_main c c.node_count + 1 ≡ majority_count c
  unfolding majority_count
  count_main-majority_count h = elim (dec_le (majority_count c) c.node_id) [
    | yes p ↦ omega (arith, count_main_high p c.node_count (omega arith))
    | no p ↦ ground (arith, count_main_low (omega arith) c.node_count)
  ]
