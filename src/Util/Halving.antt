-- ===== src/Util/Halving.antt =====
-- BinarySearch of src/util/binary_search.h ends, for any predicate.
use metamorphosis.Prelude.{
  ℕ, zero, suc, ◌+◌, ◌-◌, ◌*◌, ◌^◌, ◌<◌, ◌≤◌, ◌≡◌, refl, Bool, true, false, some, arith, lt→ltb,
  le→ltb, dec_lt, Bool-cases, inl, inr,
}
use metamorphosis.Util.Search.{middle, binary_search}

-- Two to the power of the rounds above the size of the range, the loop ends within it, for any
-- predicate: where it does not hold just before the result, and holds at it, unless that is a bound.
pub binary_search_ends :
    (p : ℕ → Bool) (rounds begin end_index : ℕ)
    → begin ≤ end_index
    → end_index - begin < 2 ^ rounds
    → (r : ℕ) × (binary_search p rounds begin end_index ≡ some r)
      × (begin ≤ r)
      × (r ≤ end_index)
      × (r < end_index → p r ≡ true)
      × ((i : ℕ) → begin ≤ i → suc i ≡ r → p i ≡ false)
unfolding binary_search
binary_search_ends p zero begin end_index l b =
    rw (le→ltb begin end_index (omega arith))
      (begin, refl, omega arith, l, λ m. absurd (omega arith), λ i a e. absurd (omega arith))
binary_search_ends p (suc rounds) begin end_index l b = elim (dec_lt begin end_index) [
  | no empty ↦
      rw (le→ltb begin end_index (omega arith))
        (begin, refl, omega arith, l, λ m. absurd (omega arith), λ i a e. absurd (omega arith))
  | yes more ↦
      let double : 2 ^ suc rounds ≡ 2 * 2 ^ rounds = omega arith in
      let m = middle begin end_index in
      elim (Bool-cases (p m)) [
        | inl t ↦
            let (r, e, a, c, up, down) =
              binary_search_ends p rounds begin m (omega arith) (omega arith) in
            rw (lt→ltb begin end_index more, t)
              (
                r,
                e,
                a,
                omega arith,
                λ _. elim (dec_lt r m) [
                  | yes before ↦ up before
                  | no here ↦ let same : r ≡ m = omega arith in rw same t
                ],
                down,
              )
        | inr f ↦
            let (r, e, a, c, up, down) =
              binary_search_ends p rounds (m + 1) end_index (omega arith) (omega arith) in
            rw (lt→ltb begin end_index more, f)
              (
                r,
                e,
                omega arith,
                c,
                up,
                λ i x y. elim (dec_lt m i) [
                  | yes after ↦ down i (omega arith) y
                  | no here ↦ let same : i ≡ m = omega arith in rw same f
                ],
              )
      ]
]
