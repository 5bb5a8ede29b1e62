-- ===== src/Util/Search.antt =====
-- src/util/binary_search.h: BinarySearch, at indices that are not negative.
use metamorphosis.Prelude.{
  ℕ, zero, suc, ◌+◌, ◌-◌, ◌/◌, ◌<◌, ◌≤◌, ltb, if◌then◌else◌, ◌≡◌, Bool, true, Option, none, some,
}

-- begin + (end - begin) / 2
abbrev pub middle : ℕ → ℕ → ℕ
middle begin end_index = begin + (end_index - begin) / 2

module _ (predicate : ℕ → Bool) where
  -- The loop, in at most the given number of rounds; `none` where it is not done by then.
  unfoldable pub binary_search : ℕ → ℕ → ℕ → Option ℕ
  binary_search zero begin end_index = if ltb begin end_index then none else some begin
  binary_search (suc rounds) begin end_index =
      let left = binary_search rounds begin (middle begin end_index) in
      let right = binary_search rounds (middle begin end_index + 1) end_index in
      if ltb begin end_index
      then (if predicate (middle begin end_index) then left else right)
      else some begin

  -- The reference: the first of the n indices from `begin` at which the predicate holds, else their end.
  abbrev pub linear_search : ℕ → ℕ → ℕ
  linear_search begin zero = begin
  linear_search begin (suc n) =
      let rest = linear_search (suc begin) n in if predicate begin then begin else rest

-- Once the predicate holds it holds on, between the bounds.
abbrev pub IsMonotone : (ℕ → Bool) → ℕ → ℕ → Type 0
IsMonotone p begin end_index =
    (i j : ℕ) → begin ≤ i → i ≤ j → j < end_index → p i ≡ true → p j ≡ true
