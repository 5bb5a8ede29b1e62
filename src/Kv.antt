-- ===== src/Kv.antt =====
-- src/runtime/kv_storage.h over src/runtime/simulator/database.cpp, at uint64 keys in their usual
-- order (U64Serde, std::less): a sorted association list stands for the std::map.
pub mod Lookup
pub mod Numbered
pub mod Below
use metamorphosis.Prelude.{
  ℕ, ◌==◌, ltb, leb, ◌&&◌, if◌then◌else◌, Option, none, some, List, [], ◌∷◌,
}

abbrev pub Kv {ℓ} : Type ℓ → Type ℓ
Kv V = List (ℕ × V)

pub data Command {ℓ} (V : Type ℓ) : Type ℓ where
  put_cmd : ℕ → V → Command V
  delete_range_cmd : ℕ → ℕ → Command V
  delete_cmd : ℕ → Command V

module _ {ℓ} {V : Type ℓ} where
  -- database_->data[key] = value
  unfoldable pub put : ℕ → V → Kv V → Kv V
  put k v [] = (k, v) ∷ []
  put k v ((j, w) ∷ m) =
      if k == j then (k, v) ∷ m else if ltb k j then (k, v) ∷ (j, w) ∷ m else (j, w) ∷ put k v m

  -- `none` is DBErrorType::NotFound.
  unfoldable pub get : ℕ → Kv V → Option V
  get k [] = none
  get k ((j, v) ∷ m) = if k == j then some v else get k m

  unfoldable pub delete : ℕ → Kv V → Kv V
  delete k [] = []
  delete k ((j, v) ∷ m) = if k == j then m else (j, v) ∷ delete k m

  -- Erases the keys from `start`, before `end_key`; with `end_key` below `start` it is not called.
  unfoldable pub delete_range : ℕ → ℕ → Kv V → Kv V
  delete_range start end_key [] = []
  delete_range start end_key ((j, v) ∷ m) =
      let rest = delete_range start end_key m in
      if leb start j && ltb j end_key then rest else (j, v) ∷ rest

  unfoldable pub run_command : Command V → Kv V → Kv V
  run_command (put_cmd k v) m = put k v m
  run_command (delete_range_cmd start end_key) m = delete_range start end_key m
  run_command (delete_cmd k) m = delete k m

  -- The commands of a WriteBatch, in order.
  unfoldable pub write : List (Command V) → Kv V → Kv V
  unfolding run_command
  write [] m = m
  write (c ∷ cs) m = write cs (run_command c m)

  -- An iterator after SeekToLast: `none` where it is not valid.
  unfoldable pub seek_to_last : Kv V → Option (ℕ × V)
  seek_to_last [] = none
  seek_to_last (e ∷ []) = some e
  seek_to_last (e ∷ f ∷ m) = seek_to_last (f ∷ m)
