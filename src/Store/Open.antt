-- ===== src/Store/Open.antt =====
-- Open of src/runtime/simulator/database.cpp and of src/runtime/kv_storage.h.
use metamorphosis.Prelude.{
  ℕ, ◌==◌, leb, Bool, true, false, ◌&&◌, if◌then◌else◌, [], ◌∷◌, Option, none, some, Outcome, done,
  verify, ◌>>◌,
}
use metamorphosis.Store.Serde.{Data}
use metamorphosis.Store.Database.{Map}

pub record HostDatabase : Type 0 where
  pub comparator_name : Data
  pub entries : Map
  pub epoch : ℕ

-- What Open uses of a simulated host; `epoch` is the epoch of the fiber that calls.
pub record Host : Type 0 where
  pub databases : Data → Option HostDatabase
  pub epoch : ℕ

-- db::Options; of the comparator, its name.
pub record Options : Type 0 where
  pub comparator : Option Data
  pub create_if_missing : Bool

pub data DbErrorType : Type 0 where
  internal invalid_argument not_found : DbErrorType

-- A database that is open is at its path in the host.
pub data Opened : Type 0 where
  opened : Data → Opened
  failed : DbErrorType → Opened

-- Equality of strings.
unfoldable pub same_string : Data → Data → Bool
same_string [] [] = true
same_string [] (y ∷ ys) = false
same_string (x ∷ xs) [] = false
same_string (x ∷ xs) (y ∷ ys) = x == y && same_string xs ys

abbrev pub store_at : Data → HostDatabase → Host → Host
store_at path d h = record h {
  databases = λ other. if same_string other path then some d else h.databases other;
}

-- Open from the assignment to `epoch` on.
unfoldable pub claim : Data → Data → HostDatabase → Host → Host × Opened
claim path name d h = (
  store_at path (record d { epoch = h.epoch }) h,
  if same_string name d.comparator_name then opened path else failed invalid_argument,
)

-- Database::Open, with the name of the options' comparator
unfoldable pub open_found :
    Data → Data → Bool → Option HostDatabase → Host → Outcome (Host × Opened)
open_found path name create none h = done (
    if create
    then claim path name (record { comparator_name = name; entries = []; epoch = 0 }) h
    else (h, failed invalid_argument))
open_found path name create (some d) h =
    verify (leb d.epoch h.epoch)
    >> done (if d.epoch == h.epoch then (h, failed internal) else claim path name d h)

unfoldable pub open_database : Data → Data → Bool → Host → Outcome (Host × Opened)
open_database path name create h = open_found path name create (h.databases path) h

abbrev pub is_null : Option Data → Bool
is_null none = true
is_null (some c) = false

-- kv::Open, with the name of the storage's type
unfoldable pub open_storage : Data → Data → Options → Host → Outcome (Host × Opened)
open_storage path name options h =
    verify (is_null options.comparator) >> open_database path name options.create_if_missing h
