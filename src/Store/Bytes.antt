-- ===== src/Store/Bytes.antt =====
-- The bytes of src/runtime/util/serde/u64_serde.h lose nothing.
use metamorphosis.Prelude.{
  false, aborted, ◌>>=◌, ◌≢◌, ℕ, zero, suc, ◌+◌, ◌*◌, ◌/◌, ◌%◌, ◌^◌, ◌<◌, ◌==◌, ◌≡◌, refl, ap, [],
  ◌∷◌, length, done, arith,
}
use metamorphosis.Store.Serde.{Data, bytes, from_bytes, u64_serde}

pub length-bytes : (w n : ℕ) → length (bytes w n) ≡ w
unfolding bytes
length-bytes zero n = refl
length-bytes (suc w) n = ap suc (length-bytes w (n / 256))

from_bytes-bytes : (w n : ℕ) → n < 256 ^ w → from_bytes (bytes w n) ≡ n
unfolding bytes from_bytes
from_bytes-bytes zero n h = omega arith
from_bytes-bytes (suc w) n h =
    let e : 256 ^ suc w ≡ 256 * 256 ^ w = omega arith in
    let ih = from_bytes-bytes w (n / 256) (omega arith) in omega arith

-- Each element of the data fits in a byte.
abbrev pub IsData : Data → Type 0
IsData [] = Unit {0}
IsData (b ∷ bs) = (b < 256) × IsData bs

bytes-from_bytes : (d : Data) → IsData d → bytes (length d) (from_bytes d) ≡ d
unfolding bytes from_bytes
bytes-from_bytes [] h = refl
bytes-from_bytes (b ∷ bs) h =
    let r : (b + 256 * from_bytes bs) % 256 ≡ b = omega (arith, h.0) in
    let q : (b + 256 * from_bytes bs) / 256 ≡ from_bytes bs = omega (arith, h.0) in
    rw (r, q) (ap (◌∷◌ b) (bytes-from_bytes bs h.1))

pub serialize-u64 : (n : ℕ) → u64_serde.serialize n ≡ done (bytes 8 n)
unfolding u64_serde
serialize-u64 n = refl

pub deserialize-u64 : (n : ℕ) → n < 2 ^ 64 → u64_serde.deserialize (bytes 8 n) ≡ done n
unfolding u64_serde
deserialize-u64 n h = rw (length-bytes 8 n, from_bytes-bytes 8 n h) refl

-- Of an integer below 2 ^ 64, and of eight bytes: what is written is read back, what is read is
-- written back as the same bytes, and data of another size aborts.
pub u64_round_trip :
    (n : ℕ) (d e : Data)
    → n < 2 ^ 64
    → IsData d
    → length d ≡ 8
    → length e ≢ 8
    → ((u64_serde.serialize n >>= u64_serde.deserialize) ≡ done n)
      × ((u64_serde.deserialize d >>= u64_serde.serialize) ≡ done d)
      × (u64_serde.deserialize e ≡ aborted)
unfolding u64_serde
u64_round_trip n d e h b l k = (
  rw (length-bytes 8 n, from_bytes-bytes 8 n h) refl,
  rw l (ap done (let s = bytes-from_bytes d b in rw l at s)),
  let f : (length e == 8) ≡ false = ground arith in rw f refl,
)
