-- ===== src/Store/Storage.antt =====
-- src/runtime/kv_storage.h: typed keys and values over a database of bytes.
use metamorphosis.Prelude.{
  Bool, if◌then◌else◌, List, [], ◌∷◌, ◌++◌, Option, none, some, Outcome, done, ◌>>=◌,
}
use metamorphosis.Store.Serde.{Data, Serde}
use metamorphosis.Store.Database.{
  Comparison, less, same, greater, Map, DataCommand, put_cmd, delete_range_cmd, delete_cmd,
}
use metamorphosis.Store.Database
use metamorphosis.Store.Iterator
use metamorphosis.Store.Iterator.{Iterator}

module _ {K V : Type 0} (key_serde : Serde K) (value_serde : Serde V) (cmp : K → K → Bool) where
  unfoldable pub compare : Data → Data → Outcome Comparison
  compare a b = do
    a_des ← key_serde.deserialize a
    b_des ← key_serde.deserialize b
    done (if cmp a_des b_des then less else if cmp b_des a_des then greater else same)

  unfoldable pub put : K → V → Map → Outcome Map
  put key value m = do
    key_ser ← key_serde.serialize key
    value_ser ← value_serde.serialize value
    Database.put compare key_ser value_ser m

  -- Result::Transform
  unfoldable pub transform : Option Data → Outcome (Option V)
  transform none = done none
  transform (some found) = value_serde.deserialize found >>= λ value. done (some value)

  unfoldable pub get : K → Map → Outcome (Option V)
  get key m = do
    key_ser ← key_serde.serialize key
    found ← Database.get compare key_ser m
    transform found

  unfoldable pub delete_range : K → K → Map → Outcome Map
  delete_range start_key end_key m = do
    start_key_ser ← key_serde.serialize start_key
    end_key_ser ← key_serde.serialize end_key
    Database.delete_range compare start_key_ser end_key_ser m

  unfoldable pub delete : K → Map → Outcome Map
  delete key m = key_serde.serialize key >>= λ key_ser. Database.delete compare key_ser m

  -- The operations of KVStorage::WriteBatch, on the commands of the batch so far.
  unfoldable pub batch_put : K → V → List DataCommand → Outcome (List DataCommand)
  batch_put key value commands = do
    key_ser ← key_serde.serialize key
    value_ser ← value_serde.serialize value
    done (commands ++ put_cmd key_ser value_ser ∷ [])

  unfoldable pub batch_delete_range : K → K → List DataCommand → Outcome (List DataCommand)
  batch_delete_range start_key end_key commands = do
    start_key_ser ← key_serde.serialize start_key
    end_key_ser ← key_serde.serialize end_key
    done (commands ++ delete_range_cmd start_key_ser end_key_ser ∷ [])

  unfoldable pub batch_delete : K → List DataCommand → Outcome (List DataCommand)
  batch_delete key commands =
      key_serde.serialize key >>= λ key_ser. done (commands ++ delete_cmd key_ser ∷ [])

  unfoldable pub write : List DataCommand → Map → Outcome Map
  write commands m = Database.write compare commands m

  unfoldable pub get_key : Iterator → Outcome K
  get_key it = Iterator.get_key it >>= key_serde.deserialize

  unfoldable pub get_value_at : Iterator → Outcome V
  get_value_at it = Iterator.get_value_at it >>= value_serde.deserialize
