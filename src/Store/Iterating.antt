-- ===== src/Store/Iterating.antt =====
-- What the iterator of src/runtime/kv_storage.h reads, of the data it was made of.
use metamorphosis.Prelude.{
  ℕ, zero, suc, ◌+◌, ◌-◌, ◌<◌, ◌≤◌, ◌^◌, ◌==◌, ltb, ◌≡◌, refl, true, false, Option, none, some, [],
  ◌∷◌, Outcome, done, ◌>>=◌, arith, length, get_elem?, get_elem?-none, get_elem?-some, dec_lt, ap,
}
use metamorphosis.Kv.{Kv}
use metamorphosis.Kv
use metamorphosis.Kv.Below.{Below}
use metamorphosis.Store.Serde.{Serde, bytes, u64_serde}
use metamorphosis.Store.Bytes.{deserialize-u64}
use metamorphosis.Store.Iterator.{
  Iterator, new_iterator, seek_to_first, seek_to_last, next, prev, valid,
}
use metamorphosis.Store.Database.{Map}
use metamorphosis.Store.Storage.{get_key, get_value_at}
use metamorphosis.Store.Encoded.{IsLossless, encode}

module _ {V : Type 0} (value_serde : Serde V) where
  -- At an entry the iterator is valid and reads it; where there is none it is not valid.
  abbrev pub Reads : Iterator → Option (ℕ × V) → Type 0
  Reads it none = valid it ≡ false
  Reads it (some (k, v)) =
      (valid it ≡ true)
      × (get_key u64_serde value_serde ltb it ≡ done k)
      × (get_value_at u64_serde value_serde ltb it ≡ done v)

-- A number of calls of Next, and of Prev.
abbrev pub nexts : ℕ → Iterator → Outcome Iterator
nexts zero it = done it
nexts (suc n) it = next it >>= nexts n

abbrev pub prevs : ℕ → Iterator → Outcome Iterator
prevs zero it = done it
prevs (suc n) it = prev it >>= prevs n

module _ {V : Type 0} (value_serde : Serde V) (lossless : IsLossless value_serde) where
  length-encode : (m : Kv V) → length (encode value_serde lossless m) ≡ length m
  length-encode [] = refl
  length-encode ((k, v) ∷ m) = ap suc (length-encode m)

  get_elem?-encode :
      (m : Kv V) (i k : ℕ) (v : V)
      → Below (2 ^ 64) m
      → get_elem? m i ≡ some (k, v)
      → (get_elem? (encode value_serde lossless m) i ≡ some (bytes 8 k, lossless.code v))
        × (k < 2 ^ 64)
  get_elem?-encode [] i k v b h = cc
  get_elem?-encode ((j, w) ∷ m) zero k v b h =
      let e : j ≡ k = cc in let f : w ≡ v = cc in (rw (e, f) refl, rw e at b.0)
  get_elem?-encode ((j, w) ∷ m) (suc i) k v b h = get_elem?-encode m i k v b.1 h

  pub Reads-at :
      (m : Kv V) (i : ℕ)
      → Below (2 ^ 64) m
      → i ≤ length m
      → Reads value_serde
          (record { storage = encode value_serde lossless m; position = i })
          (get_elem? m i)
  unfolding get_key get_value_at
  Reads-at m i b l = elim (dec_lt i (length m)) [
    | yes in_map ↦
        let ((k, v), e) = get_elem?-some m i in_map in
        let (g, small) = get_elem?-encode m i k v b e in
        let ne : (i == length m) ≡ false = ground arith in
        rw (e, length-encode m, ne, g, deserialize-u64 k small, lossless.deserialized v)
          (refl, refl, refl)
    | no at_end ↦
        let same : i ≡ length m = omega arith in
        let eq : (i == length m) ≡ true = ground arith in
        rw (get_elem?-none m i (omega arith), length-encode m, eq) refl
  ]

  seek_to_last-get_elem? : (m : Kv V) → Kv.seek_to_last m ≡ get_elem? m (length m - 1)
  unfolding Kv.seek_to_last
  seek_to_last-get_elem? [] = refl
  seek_to_last-get_elem? (e ∷ []) = refl
  seek_to_last-get_elem? (e ∷ f ∷ m) =
      let l : length (e ∷ f ∷ m) - 1 ≡ suc (length (f ∷ m) - 1) = omega arith in
      rw l (seek_to_last-get_elem? (f ∷ m))

at_position : Map → ℕ → Iterator
at_position m i = record { storage = m; position = i }

next_lem : (m : Map) (p : ℕ) → p < length m → next (at_position m p) ≡ done (at_position m (p + 1))
unfolding at_position
next_lem m p h = let ne : (p == length m) ≡ false = ground arith in rw ne refl

nexts_lem :
    (n : ℕ) (m : Map) (p : ℕ)
    → p + n ≤ length m
    → nexts n (at_position m p) ≡ done (at_position m (p + n))
nexts_lem zero m p h = let z : p + 0 ≡ p = omega arith in rw z refl
nexts_lem (suc n) m p h =
    let e : p + suc n ≡ p + 1 + n = omega arith in
    rw (next_lem m p (omega arith), e) (nexts_lem n m (p + 1) (omega arith))

prev_lem :
    (m : Map) (p : ℕ) → suc p < length m → prev (at_position m (suc p)) ≡ done (at_position m p)
unfolding at_position
prev_lem m p h =
    let ne : (suc p == length m) ≡ false = ground arith in
    let nz : (suc p == 0) ≡ false = ground arith in
    let e : suc p - 1 ≡ p = omega arith in rw (ne, nz, e) refl

prevs_lem :
    (n : ℕ) (m : Map) (p : ℕ)
    → n ≤ p
    → p < length m
    → prevs n (at_position m p) ≡ done (at_position m (p - n))
prevs_lem zero m p h l = let z : p - 0 ≡ p = omega arith in rw z refl
prevs_lem (suc n) m zero h l = absurd (omega arith)
prevs_lem (suc n) m (suc p) h l =
    let e : suc p - suc n ≡ p - n = omega arith in
    rw (prev_lem m p l, e) (prevs_lem n m p (omega arith) (omega arith))

module _ {V : Type 0} (value_serde : Serde V) (lossless : IsLossless value_serde) where
  -- An iterator over a map of uint64 keys that has n calls of Next behind it since SeekToFirst reads the
  -- entry n of the  at the end none, and one with n calls of Prev since SeekToLast the entry n
  -- from the end; the first of these is the last entry of the map.
  pub iterator-Reads :
      (m : Kv V) (n : ℕ)
      → Below (2 ^ 64) m
      → n < length m
      → let it = new_iterator (encode value_serde lossless m) in
        (a : Iterator) × (b : Iterator) × (c : Iterator) × (nexts n (seek_to_first it) ≡ done a)
        × (nexts (length m) (seek_to_first it) ≡ done b)
        × (prevs n (seek_to_last it) ≡ done c)
        × Reads value_serde a (get_elem? m n)
        × Reads value_serde b none
        × Reads value_serde c (get_elem? m (length m - 1 - n))
        × Reads value_serde (seek_to_last it) (Kv.seek_to_last m)
  unfolding at_position
  iterator-Reads m n b l =
      let s = encode value_serde lossless m in
      let le : length s ≡ length m = length-encode value_serde lossless m in
      (
        at_position s (0 + n),
        at_position s (0 + length m),
        at_position s (length s - 1 - n),
        nexts_lem n s 0 (omega arith),
        nexts_lem (length m) s 0 (omega arith),
        prevs_lem n s (length s - 1) (omega arith) (omega arith),
        (let z : 0 + n ≡ n = omega arith in
            rw z (Reads-at value_serde lossless m n b (omega arith))),
        (let q : (0 + length m == length s) ≡ true = ground arith in rw q refl),
        rw le (Reads-at value_serde lossless m (length m - 1 - n) b (omega arith)),
        rw (le, seek_to_last-get_elem? value_serde lossless m)
            (Reads-at value_serde lossless m (length m - 1) b (omega arith)),
      )
