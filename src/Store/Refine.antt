-- ===== src/Store/Refine.antt =====
-- src/runtime/kv_storage.h at uint64 keys, over the simulated database, is the map of Kv.
use metamorphosis.Prelude.{
  ◌∙◌, sym, ℕ, ◌<◌, ◌^◌, ◌≤◌, ltb, ◌≡◌, refl, List, [], ◌∷◌, ◌++◌, Outcome, done, arith, ◌>>=◌, ap,
  map, append_assoc, append-nil,
}
use metamorphosis.Kv.{Kv, Command, put_cmd, delete_range_cmd, delete_cmd, run_command}
use metamorphosis.Kv
use metamorphosis.Kv.Below.{Below, put-Below, delete-Below, delete_range-Below}
use metamorphosis.Kv.Lookup.{From, put-From, delete-From, delete_range-From}
use metamorphosis.Store.Serde.{Serde, bytes, u64_serde}
use metamorphosis.Store.Bytes.{serialize-u64}
use metamorphosis.Store.Database.{Map, DataCommand}
use metamorphosis.Store.Database
use metamorphosis.Store.Storage.{compare, batch_put, batch_delete_range, batch_delete}
use metamorphosis.Store.Storage
use metamorphosis.Store.Encoded.{
  IsLossless, encode, put-encode, get-encode, delete-encode, delete_range-encode,
}

-- The keys fit in uint64, and a range does not end before its start.
abbrev pub IsCommand : {V : Type 0} → Command V → Type 0
IsCommand (put_cmd k v) = k < 2 ^ 64
IsCommand (delete_range_cmd start end_key) = (start ≤ end_key) × (end_key < 2 ^ 64)
IsCommand (delete_cmd k) = k < 2 ^ 64

abbrev pub AreCommands : {V : Type 0} → List (Command V) → Type 0
AreCommands [] = Unit {0}
AreCommands (c ∷ cs) = IsCommand c × AreCommands cs

abbrev pub IsStored : {V : Type 0} → Kv V → Type 0
IsStored m = From 0 m × Below (2 ^ 64) m

module _ {V : Type 0} (value_serde : Serde V) where
  -- One call of a WriteBatch.
  abbrev pub add : Command V → List DataCommand → Outcome (List DataCommand)
  add (put_cmd k v) = batch_put u64_serde value_serde ltb k v
  add (delete_range_cmd start end_key) = batch_delete_range u64_serde value_serde ltb start end_key
  add (delete_cmd k) = batch_delete u64_serde value_serde ltb k

  abbrev pub build : List (Command V) → List DataCommand → Outcome (List DataCommand)
  build [] batch = done batch
  build (c ∷ cs) batch = add c batch >>= build cs

module _ {V : Type 0} (value_serde : Serde V) (lossless : IsLossless value_serde) where
  code_command : Command V → DataCommand
  code_command (put_cmd k v) = Database.put_cmd (bytes 8 k) (lossless.code v)
  code_command (delete_range_cmd a e) = Database.delete_range_cmd (bytes 8 a) (bytes 8 e)
  code_command (delete_cmd k) = Database.delete_cmd (bytes 8 k)

  add-code :
      (c : Command V) (batch : List DataCommand)
      → add value_serde c batch ≡ done (batch ++ code_command c ∷ [])
  unfolding batch_put batch_delete_range batch_delete code_command
  add-code (put_cmd k v) batch = rw (serialize-u64 k, lossless.serialized v) refl
  add-code (delete_range_cmd a e) batch = rw (serialize-u64 a, serialize-u64 e) refl
  add-code (delete_cmd k) batch = rw (serialize-u64 k) refl

  build-code :
      (cs : List (Command V)) (batch : List DataCommand)
      → build value_serde cs batch ≡ done (batch ++ map code_command cs)
  build-code [] batch = ap done (sym (append-nil batch))
  build-code (c ∷ cs) batch = rw (add-code c batch) (
      build-code cs (batch ++ code_command c ∷ [])
      ∙ ap done (append_assoc batch (code_command c ∷ []) (map code_command cs)))

  run_command-encode :
      (c : Command V) (m : Kv V)
      → IsCommand c
      → IsStored m
      → Database.run_command
          (compare u64_serde value_serde ltb)
          (code_command c)
          (encode value_serde lossless m)
        ≡ done (encode value_serde lossless (run_command c m))
  unfolding code_command run_command Database.run_command
  run_command-encode (put_cmd k v) m h s = put-encode value_serde lossless k v m h s.1
  run_command-encode (delete_range_cmd a e) m h s =
      delete_range-encode value_serde lossless 0 a e m h.0 h.1 s.1 s.0
  run_command-encode (delete_cmd k) m h s = delete-encode value_serde lossless 0 k m h s.1 s.0

  run_command-IsStored :
      (c : Command V) (m : Kv V) → IsCommand c → IsStored m → IsStored (run_command c m)
  unfolding run_command
  run_command-IsStored (put_cmd k v) m h s =
      (put-From 0 k v m (omega arith) s.0, put-Below (2 ^ 64) k v m h s.1)
  run_command-IsStored (delete_range_cmd a e) m h s =
      (delete_range-From 0 a e m s.0, delete_range-Below (2 ^ 64) a e m s.1)
  run_command-IsStored (delete_cmd k) m h s = (delete-From 0 k m s.0, delete-Below (2 ^ 64) k m s.1)

  write-encode :
      (cs : List (Command V)) (m : Kv V)
      → AreCommands cs
      → IsStored m
      → (Database.write
            (compare u64_serde value_serde ltb)
            (map code_command cs)
            (encode value_serde lossless m)
          ≡ done (encode value_serde lossless (Kv.write cs m)))
        × IsStored (Kv.write cs m)
  unfolding Database.write Kv.write
  write-encode [] m h s = (refl, s)
  write-encode (c ∷ cs) m h s =
      let (e, s') = write-encode cs (run_command c m) h.1 (run_command-IsStored c m h.0 s) in
      (rw (run_command-encode c m h.0 s) e, s')

  -- A batch of commands on uint64 keys, built and written through the storage, does to the bytes what
  -- it does to the map, and each key then has the value that the map has, if values are read back as
  -- they were written and no range ends before its start.
  pub storage_refines :
      (cs : List (Command V)) (m : Kv V) (k : ℕ)
      → AreCommands cs
      → IsStored m
      → k < 2 ^ 64
      → ((build value_serde cs [] >>= λ batch.
            Storage.write u64_serde value_serde ltb batch (encode value_serde lossless m))
          ≡ done (encode value_serde lossless (Kv.write cs m)))
        × (Storage.get u64_serde value_serde ltb k (encode value_serde lossless (Kv.write cs m))
            ≡ done (Kv.get k (Kv.write cs m)))
        × IsStored (Kv.write cs m)
  unfolding Storage.write Storage.get
  storage_refines cs m k h s l =
      let (e, s') = write-encode cs m h s in
      (
        rw (build-code cs []) e,
        rw (serialize-u64 k) (get-encode value_serde lossless 0 k (Kv.write cs m) l s'.1 s'.0),
        s',
      )
