-- ===== src/Util/Monotone.antt =====
-- BinarySearch of src/util/binary_search.h finds what a search from the front finds.
use metamorphosis.Prelude.{
  ℕ, zero, suc, ◌+◌, ◌-◌, ◌*◌, ◌^◌, ◌<◌, ◌≤◌, ◌≡◌, refl, Bool, true, false, some, arith, lt→ltb,
  le→ltb, dec_lt, Bool-cases, inl, inr, ap, ◌∙◌, sym,
}
use metamorphosis.Util.Search.{middle, binary_search, linear_search, IsMonotone}

module _ (p : ℕ → Bool) where
  linear_search_left :
      (m begin n : ℕ)
      → begin ≤ m
      → m < begin + n
      → p m ≡ true
      → linear_search p begin n ≡ linear_search p begin (m - begin)
  linear_search_left m begin zero l h t = absurd (omega arith)
  linear_search_left m begin (suc n) l h t = elim (dec_lt begin m) [
    | yes before ↦
        let e : m - begin ≡ suc (m - suc begin) = omega arith in
        rw e (rw (linear_search_left m (suc begin) n before (omega arith) t) refl)
    | no here ↦
        let same : begin ≡ m = omega arith in
        let z : m - begin ≡ 0 = omega arith in rw (z, same, t) refl
  ]

  linear_search_right :
      (k begin n : ℕ)
      → k ≤ n
      → ((i : ℕ) → begin ≤ i → i < begin + k → p i ≡ false)
      → linear_search p begin n ≡ linear_search p (begin + k) (n - k)
  linear_search_right zero begin n l h =
      let z : begin + 0 ≡ begin = omega arith in let y : n - 0 ≡ n = omega arith in rw (z, y) refl
  linear_search_right (suc k) begin zero l h = absurd (omega arith)
  linear_search_right (suc k) begin (suc n) l h =
      let e : begin + suc k ≡ suc begin + k = omega arith in
      let d : suc n - suc k ≡ n - k = omega arith in
      rw (e, d, h begin (omega arith) (omega arith))
        (linear_search_right k (suc begin) n (omega arith)
          (λ i a b. h i (omega arith) (omega arith)))

  none_before :
      {begin end_index : ℕ}
      → IsMonotone p begin end_index
      → (m i : ℕ) → begin ≤ i
      → i ≤ m
      → m < end_index
      → p m ≡ false
      → p i ≡ false
  none_before h m i a b c f = elim (Bool-cases (p i)) [
    | inl t ↦ let u = h i m a b c t in cc
    | inr e ↦ e
  ]

  -- For a predicate that holds on once it holds, a number of rounds is enough if two to its power is
  -- above the size of the range, and the result is that of a search from the front.
  pub binary_search-linear_search :
      (rounds begin end_index : ℕ)
      → begin ≤ end_index
      → end_index - begin < 2 ^ rounds
      → IsMonotone p begin end_index
      → binary_search p rounds begin end_index ≡ some (linear_search p begin (end_index - begin))
  unfolding binary_search
  binary_search-linear_search zero begin end_index l b h =
      let z : end_index - begin ≡ 0 = omega arith in
      rw (z, le→ltb begin end_index (omega arith)) refl
  binary_search-linear_search (suc rounds) begin end_index l b h = elim (dec_lt begin end_index) [
    | no empty ↦
        let z : end_index - begin ≡ 0 = omega arith in
        rw (z, le→ltb begin end_index (omega arith)) refl
    | yes more ↦
        let double : 2 ^ suc rounds ≡ 2 * 2 ^ rounds = omega arith in
        let m = middle begin end_index in
        elim (Bool-cases (p m)) [
          | inl t ↦
              rw (lt→ltb begin end_index more, t)
                (binary_search-linear_search rounds begin m (omega arith) (omega arith)
                    (λ i j a c d. h i j a c (omega arith))
                  ∙ ap some (
                      sym (
                        linear_search_left m begin (end_index - begin) (omega arith) (omega arith)
                          t)))
          | inr f ↦
              let k : ℕ = m + 1 - begin in
              let at : begin + k ≡ m + 1 = omega arith in
              let left : end_index - begin - k ≡ end_index - (m + 1) = omega arith in
              let below : (i : ℕ) → begin ≤ i → i < begin + k → p i ≡ false =
                λ i a c. none_before h m i a (omega arith) (omega arith) f in
              let skipped : linear_search p begin (end_index - begin)
                  ≡ linear_search p (m + 1) (end_index - (m + 1)) =
                rw (at, left) at
                  (linear_search_right k begin (end_index - begin) (omega arith) below) in
              rw (lt→ltb begin end_index more, f)
                (binary_search-linear_search rounds (m + 1) end_index (omega arith) (omega arith)
                    (λ i j a c d. h i j (omega arith) c d)
                  ∙ ap some (sym skipped))
        ]
  ]
