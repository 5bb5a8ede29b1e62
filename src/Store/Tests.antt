-- ===== src/Store/Tests.antt =====
-- Instances of the theorems about the storage, with strings as values.
use metamorphosis.Prelude.{
  ltb, if◌then◌else◌, ◌≡◌, ◌⊎◌, ◌↔◌, refl, List, [], ◌∷◌, none, some, done, aborted, arith, false,
  ◌>>=◌,
}
use metamorphosis.Kv.{Kv, Command, put_cmd, delete_range_cmd, delete_cmd}
use metamorphosis.Kv
use metamorphosis.Store.Serde.{Data, u64_serde, string_serde}
use metamorphosis.Store.Bytes.{u64_round_trip}
use metamorphosis.Store.Storage
use metamorphosis.Store.Iterator.{Iterator, new_iterator, seek_to_first, seek_to_last}
use metamorphosis.Store.Encoded.{IsLossless, encode}
use metamorphosis.Store.Refine.{build, IsStored, storage_refines}
use metamorphosis.Store.Iterating.{nexts, prevs, Reads, iterator-Reads}
use metamorphosis.Store.Open.{
  Host, Options, Opened, opened, failed, internal, invalid_argument, open_storage, same_string,
}
use metamorphosis.Store.Claims.{IsOpening, IsHost, CanOpen}
use metamorphosis.Store.Once.{open_once}

strings-IsLossless : IsLossless string_serde
strings-IsLossless = record { code = λ s. s; serialized = λ s. refl; deserialized = λ s. refl }

abbrev eight : Data
eight = 7 ∷ 1 ∷ 0 ∷ 0 ∷ 0 ∷ 0 ∷ 0 ∷ 255 ∷ []

u64_round_trip_example :
    ((u64_serde.serialize 515 >>= u64_serde.deserialize) ≡ done 515)
    × ((u64_serde.deserialize eight >>= u64_serde.serialize) ≡ done eight)
    × (u64_serde.deserialize (1 ∷ []) ≡ aborted)
u64_round_trip_example =
    u64_round_trip 515 eight (1 ∷ []) (omega arith)
      (
        omega arith,
        (
          omega arith,
          (
            omega arith,
            (omega arith, (omega arith, (omega arith, (omega arith, (omega arith, tt))))),
          ),
        ),
      )
      refl (λ e. absurd (omega arith))

abbrev two : Kv Data
two = (3, 65 ∷ []) ∷ (400, 66 ∷ []) ∷ []

two-IsStored : IsStored two
two-IsStored = ((omega arith, (omega arith, tt)), (omega arith, (omega arith, tt)))

abbrev batch : List (Command Data)
batch = put_cmd 5 (67 ∷ []) ∷ delete_range_cmd 4 6 ∷ delete_cmd 3 ∷ put_cmd 4 [] ∷ []

storage_refines_example :
    ((build string_serde batch [] >>= λ b.
    Storage.write u64_serde string_serde ltb b (encode string_serde strings-IsLossless two))
      ≡ done (encode string_serde strings-IsLossless (Kv.write batch two)))
    × (Storage.get u64_serde string_serde ltb 400
          (encode string_serde strings-IsLossless (Kv.write batch two))
        ≡ done (Kv.get 400 (Kv.write batch two)))
    × IsStored (Kv.write batch two)
storage_refines_example =
    storage_refines string_serde strings-IsLossless batch two 400
      (omega arith, ((omega arith, omega arith), (omega arith, (omega arith, tt)))) two-IsStored
      (omega arith)

iterator-Reads_example :
    (a : Iterator) × (b : Iterator) × (c : Iterator) × (nexts 1
        (seek_to_first (new_iterator (encode string_serde strings-IsLossless two)))
      ≡ done a)
    × (nexts 2 (seek_to_first (new_iterator (encode string_serde strings-IsLossless two))) ≡ done b)
    × (prevs 1 (seek_to_last (new_iterator (encode string_serde strings-IsLossless two))) ≡ done c)
    × Reads string_serde a (some (400, 66 ∷ []))
    × Reads string_serde b none
    × Reads string_serde c (some (3, 65 ∷ []))
    × Reads string_serde
        (seek_to_last (new_iterator (encode string_serde strings-IsLossless two)))
        (Kv.seek_to_last two)
iterator-Reads_example =
    iterator-Reads string_serde strings-IsLossless two 1 (omega arith, (omega arith, tt))
      (omega arith)

-- In the second run of a host: the database at "a" was opened by the first, with the comparator "c".
abbrev host : Host
host = record {
  databases = λ path.
      if same_string path (97 ∷ [])
      then some (record { comparator_name = 99 ∷ []; entries = []; epoch = 0 })
      else none;
  epoch = 1;
}

host-IsHost : IsHost host
host-IsHost path d e = ground arith

abbrev plain : Options
plain = record { comparator = none; create_if_missing = false }

open_once_example :
    (h' : Host) × (r : Opened) × (open_storage (97 ∷ []) (99 ∷ []) plain host ≡ done (h', r))
    × IsOpening host (97 ∷ []) h' r
    × ((r ≡ opened (97 ∷ [])) ↔ CanOpen host (97 ∷ []) (99 ∷ []) plain)
    × ((open_storage (97 ∷ []) (100 ∷ []) plain h' ≡ done (h', failed internal))
        ⊎ ((host.databases (97 ∷ []) ≡ none) × (h' ≡ host) × (r ≡ failed invalid_argument)))
open_once_example = open_once host (97 ∷ []) (99 ∷ []) (100 ∷ []) plain plain host-IsHost refl refl
