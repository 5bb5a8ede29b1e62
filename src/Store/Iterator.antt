-- ===== src/Store/Iterator.antt =====
-- src/runtime/simulator/database.cpp: the iterator over a copy of a host's data.
use metamorphosis.Prelude.{
  ℕ, ◌+◌, ◌-◌, ◌==◌, if◌then◌else◌, Bool, length, get_elem?, Outcome, done, verify, get_value, ◌>>◌,
  ◌>>=◌, not,
}
use metamorphosis.Store.Serde.{Data}
use metamorphosis.Store.Database.{Map}

-- `position` counts the entries before the iterator; at their number it is storage.end().
pub record Iterator : Type 0 where
  pub storage : Map
  pub position : ℕ

abbrev pub new_iterator : Map → Iterator
new_iterator m = record { storage = m; position = length m }

abbrev pub valid : Iterator → Bool
valid it = not (it.position == length it.storage)

abbrev pub seek_to_last : Iterator → Iterator
seek_to_last it = record it { position = length it.storage - 1 }

abbrev pub seek_to_first : Iterator → Iterator
seek_to_first it = record it { position = 0 }

abbrev pub next : Iterator → Outcome Iterator
next it = verify (valid it) >> done (record it { position = it.position + 1 })

abbrev pub prev : Iterator → Outcome Iterator
prev it =
    verify (valid it)
    >> done
        (record it { position = if it.position == 0 then length it.storage else it.position - 1 })

abbrev pub entry : Iterator → Outcome (Data × Data)
entry it = verify (valid it) >> get_value (get_elem? it.storage it.position)

abbrev pub get_key : Iterator → Outcome Data
get_key it = entry it >>= λ e. done e.0

abbrev pub get_value_at : Iterator → Outcome Data
get_value_at it = entry it >>= λ e. done e.1
