-- ===== src/Store/Database.antt =====
-- src/runtime/simulator/database.cpp: the database of a simulated host. A list in the order of the
-- comparator stands for the std::map; a search in it compares from the front.
use metamorphosis.Prelude.{
  Bool, true, false, if◌then◌else◌, List, [], ◌∷◌, Option, none, some, Outcome, done, ◌>>=◌,
}
use metamorphosis.Store.Serde.{Data}

-- What IComparator::Compare returns: below, at or above 0.
pub data Comparison : Type 0 where
  less same greater : Comparison

abbrev pub Comparator : Type 0
Comparator = Data → Data → Outcome Comparison

abbrev pub Map : Type 0
Map = List (Data × Data)

pub data DataCommand : Type 0 where
  put_cmd : Data → Data → DataCommand
  delete_range_cmd : Data → Data → DataCommand
  delete_cmd : Data → DataCommand

abbrev is_less : Comparison → Bool
is_less less = true
is_less same = false
is_less greater = false

-- The entry after those that a search has passed, with them.
abbrev and_then : Data × Data → Outcome Map → Outcome Map
and_then e m = m >>= λ rest. done (e ∷ rest)

module _ (compare : Comparator) where
  -- HostDatabase::Comparator
  abbrev pub below : Data → Data → Outcome Bool
  below left right = compare left right >>= λ c. done (is_less c)

  unfoldable pub put : Data → Data → Map → Outcome Map
  put k v [] = done ((k, v) ∷ [])
  put k v ((j, w) ∷ m) = do
    before ← below j k
    after ← below k j
    if before
        then and_then (j, w) (put k v m)
        else done (if after then (k, v) ∷ (j, w) ∷ m else (j, v) ∷ m)

  -- `none` is DBErrorType::NotFound.
  unfoldable pub get : Data → Map → Outcome (Option Data)
  get k [] = done none
  get k ((j, w) ∷ m) = do
    before ← below j k
    after ← below k j
    if before then get k m else done (if after then none else some w)

  unfoldable pub delete : Data → Map → Outcome Map
  delete k [] = done []
  delete k ((j, w) ∷ m) = do
    before ← below j k
    after ← below k j
    if before then and_then (j, w) (delete k m) else done (if after then (j, w) ∷ m else m)

  -- erase up to the lower bound of `end_key`
  unfoldable pub erase_to : Data → Map → Outcome Map
  erase_to end_key [] = done []
  erase_to end_key ((j, w) ∷ m) = do
    before ← below j end_key
    if before then erase_to end_key m else done ((j, w) ∷ m)

  -- With `end_key` below `start` the code is undefined; here it erases nothing.
  unfoldable pub delete_range : Data → Data → Map → Outcome Map
  delete_range start end_key [] = done []
  delete_range start end_key ((j, w) ∷ m) = do
    before ← below j start
    if before then and_then (j, w) (delete_range start end_key m) else erase_to end_key ((j, w) ∷ m)

  unfoldable pub run_command : DataCommand → Map → Outcome Map
  run_command (put_cmd k v) m = put k v m
  run_command (delete_range_cmd start end_key) m = delete_range start end_key m
  run_command (delete_cmd k) m = delete k m

  unfoldable pub write : List DataCommand → Map → Outcome Map
  write [] m = done m
  write (c ∷ cs) m = run_command c m >>= write cs
