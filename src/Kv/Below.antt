-- ===== src/Kv/Below.antt =====
-- A map of src/runtime/kv_storage.h whose keys all lie below a bound.
use metamorphosis.Prelude.{none, ◌∷◌, some, arith, ◌<◌, ◌≡◌, ◌≤◌, suc, ℕ, [], refl}
use metamorphosis.Kv.{Kv, put, get, delete, delete_range, seek_to_last}
use metamorphosis.Kv.Lookup.{From}

abbrev pub Below {ℓ} : {V : Type ℓ} → ℕ → Kv V → Type 0
Below n [] = Unit {0}
Below n ((j, v) ∷ m) = (j < n) × Below n m

module _ {ℓ} {V : Type ℓ} where
  pub put-Below : (n k : ℕ) (v : V) (m : Kv V) → k < n → Below n m → Below n (put k v m)
  unfolding put
  put-Below n k v [] h b = (h, tt)
  put-Below n k v ((j, w) ∷ m) h b = ground (arith, put-Below n k v m)

  pub Below-mono : (a b : ℕ) (m : Kv V) → a ≤ b → Below a m → Below b m
  Below-mono a b [] h l = tt
  Below-mono a b ((j, w) ∷ m) h l = (omega arith, Below-mono a b m h l.1)

  pub delete_range-Below : (n a b : ℕ) (m : Kv V) → Below n m → Below n (delete_range a b m)
  unfolding delete_range
  delete_range-Below n a b [] h = tt
  delete_range-Below n a b ((j, w) ∷ m) h = ground (arith, delete_range-Below n a b m)

  pub delete-Below : (n k : ℕ) (m : Kv V) → Below n m → Below n (delete k m)
  unfolding delete
  delete-Below n k [] b = tt
  delete-Below n k ((j, w) ∷ m) b = ground (arith, delete-Below n k m)

  pub get_above : (n j : ℕ) (m : Kv V) → Below n m → n ≤ j → get j m ≡ none
  unfolding get
  get_above n j [] b h = refl
  get_above n j ((i, w) ∷ m) b h = ground (arith, get_above n j m)

  pub delete_range_all_keys : (n : ℕ) (m : Kv V) → Below n m → delete_range 0 n m ≡ []
  unfolding delete_range
  delete_range_all_keys n [] h = refl
  delete_range_all_keys n ((j, w) ∷ m) h = ground (arith, delete_range_all_keys n m)

  -- The last key of a map in order is its greatest.
  pub seek_to_last-Below :
      (a : ℕ) (v : V) (m : Kv V)
      → From (suc a) m
      → (k : ℕ) × (w : V) × (seek_to_last ((a, v) ∷ m) ≡ some (k, w))
        × (a ≤ k)
        × Below (suc k) ((a, v) ∷ m)
  unfolding seek_to_last
  seek_to_last-Below a v [] f = (a, v, refl, omega arith, (omega arith, tt))
  seek_to_last-Below a v ((j, w) ∷ m) f =
      let (k, u, e, l, b) = seek_to_last-Below j w m f.1 in
      (k, u, e, omega (arith, f.0), (omega (arith, f.0), b))

  pub seek_to_last_bound :
      (n a : ℕ) (v : V) (m : Kv V)
      → Below n ((a, v) ∷ m)
      → (k : ℕ) (w : V) → seek_to_last ((a, v) ∷ m) ≡ some (k, w)
      → k < n
  unfolding seek_to_last
  seek_to_last_bound n a v [] b k w e = ground arith
  seek_to_last_bound n a v ((j, u) ∷ m) b k w e = seek_to_last_bound n j u m b.1 k w e
