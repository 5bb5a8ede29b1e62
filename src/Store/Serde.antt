-- ===== src/Store/Serde.antt =====
-- src/runtime/util/serde: how keys and values become bytes. A little-endian machine is assumed, and
-- protobuf's own conversions are parameters.
use metamorphosis.Prelude.{
  ℕ, zero, suc, ◌+◌, ◌*◌, ◌/◌, ◌%◌, ◌==◌, List, [], ◌∷◌, length, Outcome, done, verify, get_value,
  Option, ◌>>◌,
}

-- std::vector<uint8_t>, or a view of one
abbrev pub Data : Type 0
Data = List ℕ

-- CSerde
pub record Serde (A : Type 0) : Type 0 where
  pub serialize : A → Outcome Data
  pub deserialize : Data → Outcome A

-- The bytes of an integer in memory, the lowest first.
unfoldable pub bytes : ℕ → ℕ → Data
bytes zero n = []
bytes (suc w) n = n % 256 ∷ bytes w (n / 256)

unfoldable pub from_bytes : Data → ℕ
from_bytes [] = 0
from_bytes (b ∷ bs) = b + 256 * from_bytes bs

unfoldable pub u64_serde : Serde ℕ
u64_serde = record {
  serialize = λ n. done (bytes 8 n);
  deserialize = λ d. verify (length d == 8) >> done (from_bytes d);
}

-- A std::string is its bytes.
abbrev pub string_serde : Serde Data
string_serde = record { serialize = λ s. done s; deserialize = λ d. done d }

-- SerializeToArray and ParseFromArray give nothing where they fail.
abbrev pub protobuf_serde : {P : Type 0} → (P → Option Data) → (Data → Option P) → Serde P
protobuf_serde serialize_to_array parse_from_array = record {
  serialize = λ value. get_value (serialize_to_array value);
  deserialize = λ d. get_value (parse_from_array d);
}
