-- ===== src/Queue/Tests.antt =====
-- Instances of the theorems about src/queue/service.cpp on a small queue.
use metamorphosis.Prelude.{◌==◌, ltb, if◌then◌else◌, false, some, ◌≡◌, ◌≤◌, ℕ, [], ◌∷◌, arith}
use metamorphosis.Queue.{QueueService, ok, no_data, start, append, read, trim}
use metamorphosis.Queue.Ids.{IsValid, append-trim-read, start-IsValid}

abbrev queue : QueueService
queue = record { end_index = 2; kv_storage = (0, 7 ∷ []) ∷ (1, 8 ∷ []) ∷ [] }

queue-IsValid : IsValid queue
queue-IsValid = record {
  order = (omega arith, (omega arith, tt));
  free = (omega arith, (omega arith, tt));
  fits = omega arith;
}

append-trim-read_example :
    ((append false (9 ∷ []) queue).1 ≡ some 2)
    × (read 2 queue ≡ no_data)
    × IsValid (append false (9 ∷ []) queue).0
    × IsValid (trim 1 queue)
    × ((j : ℕ)
        → read j (append false (9 ∷ []) queue).0 ≡ (if j == 2 then ok (9 ∷ []) else read j queue))
    × ((j : ℕ) → read j (trim 1 queue) ≡ (if ltb j 1 then no_data else read j queue))
append-trim-read_example = append-trim-read queue queue-IsValid (9 ∷ []) 1 (omega arith)

start-IsValid_example :
    IsValid (start queue.kv_storage)
    × ((start queue.kv_storage).end_index ≤ 2)
    × ((j : ℕ) → read j (start queue.kv_storage) ≡ read j queue)
    × ((start (trim 2 queue).kv_storage).end_index ≡ 0)
start-IsValid_example = start-IsValid queue queue-IsValid
