-- ===== src/Kv/Lookup.antt =====
-- What can be read from the map of src/runtime/kv_storage.h after each write.
use metamorphosis.Prelude.{
  ℕ, suc, ◌<◌, ◌≤◌, ◌==◌, ltb, leb, ◌&&◌, if◌then◌else◌, ◌≡◌, refl, none, some, [], ◌∷◌, arith,
  Bool-cases, ==_iff, true, false, inl, inr,
}
use metamorphosis.Kv.{Kv, put, get, delete, delete_range}

-- The keys rise strictly, and none is below the bound.
abbrev pub From {ℓ} : {V : Type ℓ} → ℕ → Kv V → Type 0
From n [] = Unit {0}
From n ((j, v) ∷ m) = (n ≤ j) × From (suc j) m

module _ {ℓ} {V : Type ℓ} where
  pub get-put :
      (k j : ℕ) (v : V) (m : Kv V) → get j (put k v m) ≡ (if j == k then some v else get j m)
  unfolding get put
  get-put k j v [] = refl
  get-put k j v ((i, w) ∷ m) = ground (arith, get-put k j v m)

  pub get-delete_range :
      (a b j : ℕ) (m : Kv V)
      → get j (delete_range a b m) ≡ (if leb a j && ltb j b then none else get j m)
  unfolding get delete_range
  get-delete_range a b j [] = ground arith
  get-delete_range a b j ((i, w) ∷ m) = elim (Bool-cases (j == i)) [
    | inl same ↦ elim (Bool-cases (leb a i && ltb i b)) [
      | inl gone ↦
          let gone' : (leb a j && ltb j b) ≡ true = rw ((==_iff j i).0 same) gone in
          rw (gone, gone') (rw gone' at (get-delete_range a b j m))
      | inr kept ↦
          let kept' : (leb a j && ltb j b) ≡ false = rw ((==_iff j i).0 same) kept in
          rw (kept, kept', get, same)
    ]
    | inr other ↦ elim (Bool-cases (leb a i && ltb i b)) [
      | inl gone ↦ rw (gone, other) (get-delete_range a b j m)
      | inr kept ↦ rw (kept, get, other) (get-delete_range a b j m)
    ]
  ]

  From-mono : {a b : ℕ} (m : Kv V) → a ≤ b → From b m → From a m
  From-mono [] h f = tt
  From-mono ((i, w) ∷ m) h f = (omega arith, f.1)

  pub get_below : (n j : ℕ) (m : Kv V) → From n m → j < n → get j m ≡ none
  unfolding get
  get_below n j [] f h = refl
  get_below n j ((i, w) ∷ m) f h = ground (arith, get_below (suc i) j m f.1)

  pub get-delete :
      (n k j : ℕ) (m : Kv V) → From n m → get j (delete k m) ≡ (if j == k then none else get j m)
  unfolding get delete
  get-delete n k j [] f = ground arith
  get-delete n k j ((i, w) ∷ m) f =
      ground (arith, get-delete (suc i) k j m f.1, get_below (suc i) j m f.1)

  pub put-From : (n k : ℕ) (v : V) (m : Kv V) → n ≤ k → From n m → From n (put k v m)
  unfolding put
  put-From n k v [] h f = (h, tt)
  put-From n k v ((i, w) ∷ m) h f = ground (arith, put-From (suc i) k v m)

  pub delete-From : (n k : ℕ) (m : Kv V) → From n m → From n (delete k m)
  unfolding delete
  delete-From n k [] f = tt
  delete-From n k ((i, w) ∷ m) f =
      ground (arith, delete-From (suc i) k m f.1, From-mono {a = n} {b = suc i} m)

  pub delete_range-From : (n a b : ℕ) (m : Kv V) → From n m → From n (delete_range a b m)
  unfolding delete_range
  delete_range-From n a b [] f = tt
  delete_range-From n a b ((i, w) ∷ m) f = ground (
    arith,
    delete_range-From (suc i) a b m f.1,
    From-mono {a = n} {b = suc i} (delete_range a b m),
  )
