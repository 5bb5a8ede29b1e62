-- ===== src/Kv/Numbered.antt =====
-- A map whose keys are consecutive, as the log database of a node: it behaves as a list.
use metamorphosis.Prelude.{
  ℕ, suc, ◌+◌, ◌-◌, ◌≤◌, ◌≡◌, refl, sym, ap, ◌∙◌, Option, none, some, List, [], ◌∷◌, ◌++◌, arith,
  in_range, below_range, dec_lt, length, length-append, get_elem?, take, take_of_length-le,
  append_assoc, append-nil,
}
use metamorphosis.Kv.{Kv, Command, put_cmd, put, get, delete_range, write, seek_to_last}

module _ {ℓ} {V : Type ℓ} where
  abbrev pub numbered : ℕ → List V → Kv V
  numbered i [] = []
  numbered i (x ∷ xs) = (i, x) ∷ numbered (suc i) xs

  -- The Put commands of a loop that gives consecutive keys to a list of values.
  abbrev pub puts : ℕ → List V → List (Command V)
  puts i [] = []
  puts i (x ∷ xs) = put_cmd i x ∷ puts (suc i) xs

  pub get-numbered : (i j : ℕ) (xs : List V) → i ≤ j → get j (numbered i xs) ≡ get_elem? xs (j - i)
  unfolding get
  get-numbered i j [] h = refl
  get-numbered i j (x ∷ xs) h = ground (arith, get-numbered (suc i) j xs)

  pub put-numbered :
      (i j : ℕ) (v : V) (xs : List V)
      → j ≡ i + length xs
      → put j v (numbered i xs) ≡ numbered i (xs ++ v ∷ [])
  unfolding put
  put-numbered i j v [] h = ground arith
  put-numbered i j v (x ∷ xs) h = ground (arith, put-numbered (suc i) j v xs)

  pub write-puts :
      (i j : ℕ) (ys xs : List V)
      → j ≡ i + length xs
      → write (puts j ys) (numbered i xs) ≡ numbered i (xs ++ ys)
  unfolding write
  write-puts i j [] xs h = ap (numbered i) (sym (append-nil xs))
  write-puts i j (y ∷ ys) xs h =
      rw (put-numbered i j y xs h, write)
        (write-puts i (suc j) ys (xs ++ y ∷ []) (omega (arith, length-append {ℓ} xs (y ∷ [])))
          ∙ ap (numbered i) (append_assoc xs (y ∷ []) ys))

  delete_range_all :
      (i a b : ℕ) (xs : List V) → a ≤ i → i + length xs ≤ b → delete_range a b (numbered i xs) ≡ []
  unfolding delete_range
  delete_range_all i a b [] h e = refl
  delete_range_all i a b (x ∷ xs) h e = ground (arith, delete_range_all (suc i) a b xs)

  pub delete_range-numbered :
      (i a b : ℕ) (xs : List V)
      → i ≤ a
      → i + length xs ≤ b
      → delete_range a b (numbered i xs) ≡ numbered i (take (a - i) xs)
  unfolding delete_range
  delete_range-numbered i a b [] h e =
      ap (numbered i) (sym (take_of_length-le (a - i) [] (omega arith)))
  delete_range-numbered i a b (x ∷ xs) h e = elim (dec_lt i a) [
    | yes later ↦
        let e' : a - i ≡ suc (a - suc i) = omega arith in
        rw (below_range a b i later, e')
          (ap (◌∷◌ (i, x)) (delete_range-numbered (suc i) a b xs later (omega arith)))
    | no here ↦
        let z : a - i ≡ 0 = omega arith in
        rw (in_range a b i (omega arith) (omega arith), z)
          (delete_range_all (suc i) a b xs (omega arith) (omega arith))
  ]

  -- SeekToLast, then GetKey: 0 where the iterator is not valid.
  abbrev pub last_key : Option (ℕ × V) → ℕ
  last_key none = 0
  last_key (some (k, v)) = k

  pub seek_to_last-numbered :
      (i : ℕ) (x : V) (xs : List V)
      → (v : V) × (seek_to_last (numbered i (x ∷ xs)) ≡ some (i + length xs, v))
        × (get_elem? (x ∷ xs) (length xs) ≡ some v)
  unfolding seek_to_last
  seek_to_last-numbered i x [] = (x, ground arith, refl)
  seek_to_last-numbered i x (y ∷ ys) =
      let (v, e, g) = seek_to_last-numbered (suc i) y ys in (v, ground (arith, e), g)

  pub last_key-numbered : (xs : List V) → last_key (seek_to_last (numbered 1 xs)) ≡ length xs
  unfolding seek_to_last
  last_key-numbered [] = refl
  last_key-numbered (x ∷ xs) = let (v, e, _) = seek_to_last-numbered 1 x xs in rw e (omega arith)

  pub get-log : (i : ℕ) (xs : List V) → get (suc i) (numbered 1 xs) ≡ get_elem? xs i
  get-log i xs =
      let e : suc i - 1 ≡ i = omega arith in rw (get-numbered 1 (suc i) xs (omega arith), e)
