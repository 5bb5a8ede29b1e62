-- ===== src/Store/Encoded.antt =====
-- The map of src/runtime/kv_storage.h at uint64 keys, as the bytes that the database holds.
use metamorphosis.Prelude.{
  ◌&&◌, ◌==◌, Bool, leb, ℕ, suc, ◌<◌, ◌^◌, ◌≤◌, ltb, if◌then◌else◌, ◌≡◌, refl, [], ◌∷◌, done, arith,
  ◌>>=◌, dec_lt, le→ltb, true, false,
}
use metamorphosis.Kv.{Kv}
use metamorphosis.Kv
use metamorphosis.Kv.Below.{Below}
use metamorphosis.Kv.Lookup.{From, get_below}
use metamorphosis.Store.Serde.{Data, Serde, bytes, u64_serde}
use metamorphosis.Store.Bytes.{deserialize-u64}
use metamorphosis.Store.Database.{Map, below, Comparison, less, same, greater}
use metamorphosis.Store.Database
use metamorphosis.Store.Storage.{compare, transform}

-- What is serialized is read back.
pub record IsLossless {A : Type 0} (serde : Serde A) : Type 0 where
  pub code : A → Data
  pub serialized : (a : A) → serde.serialize a ≡ done (code a)
  pub deserialized : (a : A) → serde.deserialize (code a) ≡ done a

module _ {V : Type 0} (value_serde : Serde V) (lossless : IsLossless value_serde) where
  abbrev pub encode : Kv V → Map
  encode [] = []
  encode ((k, v) ∷ m) = (bytes 8 k, lossless.code v) ∷ encode m

  encode-if :
      (b : Bool) (m n : Kv V) → encode (if b then m else n) ≡ (if b then encode m else encode n)
  encode-if true m n = refl
  encode-if false m n = refl

  pub below-bytes :
      (a b : ℕ)
      → a < 2 ^ 64
      → b < 2 ^ 64
      → below (compare u64_serde value_serde ltb) (bytes 8 a) (bytes 8 b) ≡ done (ltb a b)
  unfolding compare
  below-bytes a b h l = rw (deserialize-u64 a h, deserialize-u64 b l) (ground arith)

  pub put-encode :
      (k : ℕ) (v : V) (m : Kv V)
      → k < 2 ^ 64
      → Below (2 ^ 64) m
      → Database.put (compare u64_serde value_serde ltb) (bytes 8 k) (lossless.code v) (encode m)
        ≡ done (encode (Kv.put k v m))
  unfolding Database.put Kv.put
  put-encode k v [] h b = refl
  put-encode k v ((j, w) ∷ m) h b =
      rw (below-bytes j k b.0 h, below-bytes k j h b.0, put-encode k v m h b.1) (ground arith)

  delete_above : (n k : ℕ) (m : Kv V) → k < n → From n m → Kv.delete k m ≡ m
  unfolding Kv.delete
  delete_above n k [] h f = refl
  delete_above n k ((j, w) ∷ m) h f =
      rw (delete_above (suc j) k m (omega (arith, f.0)) f.1) (ground (arith, f.0))

  pub get-encode :
      (n k : ℕ) (m : Kv V)
      → k < 2 ^ 64
      → Below (2 ^ 64) m
      → From n m
      → (Database.get (compare u64_serde value_serde ltb) (bytes 8 k) (encode m)
          >>= transform u64_serde value_serde ltb)
        ≡ done (Kv.get k m)
  unfolding Database.get Kv.get transform
  get-encode n k [] h b f = refl
  get-encode n k ((j, w) ∷ m) h b f =
      let rest = get-encode (suc j) k m h b.1 f.1 in
      rw (below-bytes j k b.0 h, below-bytes k j h b.0)
        (ground (arith, rest, lossless.deserialized w, get_below (suc j) k m f.1))

  pub delete-encode :
      (n k : ℕ) (m : Kv V)
      → k < 2 ^ 64
      → Below (2 ^ 64) m
      → From n m
      → Database.delete (compare u64_serde value_serde ltb) (bytes 8 k) (encode m)
        ≡ done (encode (Kv.delete k m))
  unfolding Database.delete Kv.delete
  delete-encode n k [] h b f = refl
  delete-encode n k ((j, w) ∷ m) h b f =
      rw (below-bytes j k b.0 h, below-bytes k j h b.0, delete-encode (suc j) k m h b.1 f.1)
        (rw (encode-if (k == j) m ((j, w) ∷ Kv.delete k m)) (elim (dec_lt k (suc j)) [
          | yes l ↦ let d = delete_above (suc j) k m l f.1 in ground (arith, d)
          | no g ↦ ground arith
        ]))

  delete_range_above : (n a b : ℕ) (m : Kv V) → b ≤ n → From n m → Kv.delete_range a b m ≡ m
  unfolding Kv.delete_range
  delete_range_above n a b [] h f = refl
  delete_range_above n a b ((j, w) ∷ m) h f =
      rw (delete_range_above (suc j) a b m (omega (arith, f.0)) f.1) (ground (arith, f.0))

  erase_to-encode :
      (n a e : ℕ) (m : Kv V)
      → a ≤ n
      → e < 2 ^ 64
      → Below (2 ^ 64) m
      → From n m
      → Database.erase_to (compare u64_serde value_serde ltb) (bytes 8 e) (encode m)
        ≡ done (encode (Kv.delete_range a e m))
  unfolding Database.erase_to Kv.delete_range
  erase_to-encode n a e [] l h b f = refl
  erase_to-encode n a e ((j, w) ∷ m) l h b f =
      rw (below-bytes j e b.0 h, erase_to-encode (suc j) a e m (omega (arith, f.0)) h b.1 f.1)
        (rw
          (encode-if (leb a j && ltb j e) (Kv.delete_range a e m) ((j, w) ∷ Kv.delete_range a e m))
          (elim (dec_lt j e) [
            | yes g ↦ ground (arith, f.0)
            | no g ↦
                let out : (leb a j && ltb j e) ≡ false = ground arith in
                let d = delete_range_above (suc j) a e m (omega arith) f.1 in
                rw (out, le→ltb j e (omega arith), d) refl
          ]))

  pub delete_range-encode :
      (n a e : ℕ) (m : Kv V)
      → a ≤ e
      → e < 2 ^ 64
      → Below (2 ^ 64) m
      → From n m
      → Database.delete_range (compare u64_serde value_serde ltb) (bytes 8 a) (bytes 8 e) (encode m)
        ≡ done (encode (Kv.delete_range a e m))
  unfolding Database.delete_range Kv.delete_range
  delete_range-encode n a e [] l h b f = refl
  delete_range-encode n a e ((j, w) ∷ m) l h b f = elim (dec_lt j a) [
    | yes before ↦
        rw (below-bytes j a b.0 (omega arith), delete_range-encode (suc j) a e m l h b.1 f.1)
          (ground (arith, f.0))
    | no after ↦
        rw (below-bytes j a b.0 (omega arith), le→ltb j a (omega arith))
          (erase_to-encode j a e ((j, w) ∷ m) (omega arith) h b (omega arith, f.1))
  ]
