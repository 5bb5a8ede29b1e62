-- ===== src/Queue.antt =====
-- src/queue/service.cpp: the queue of one process, QueueService, with queue_service.proto. A message
-- is a list of bytes.
pub mod Ids
mod Tests
use metamorphosis.Prelude.{ℕ, ◌+◌, ◌%◌, ◌^◌, Bool, if◌then◌else◌, Option, none, some, List}
use metamorphosis.Kv.{Kv, get, put, delete_range, seek_to_last}

abbrev pub Message : Type 0
Message = List ℕ

pub record QueueService : Type 0 where
  pub end_index : ℕ
  pub kv_storage : Kv Message

-- The reply of Read.
pub data ReadReply : Type 0 where
  ok : Message → ReadReply
  no_data : ReadReply

abbrev first_free : Option (ℕ × Message) → ℕ
first_free none = 0
first_free (some (k, m)) = (k + 1) % 2 ^ 64

-- The constructor, on the storage of an earlier run.
unfoldable pub start : Kv Message → QueueService
start kv = record { end_index = first_free (seek_to_last kv); kv_storage = kv }

-- Append, and its reply: `none` is RpcErrorType::Internal. `failed` says whether Put of the storage
-- reports an error; a failed Put writes nothing. fetch_add wraps.
unfoldable pub append : Bool → Message → QueueService → QueueService × Option ℕ
append failed m q =
    let index = q.end_index in
    let taken = (index + 1) % 2 ^ 64 in
    if failed
    then (record q { end_index = taken }, none)
    else (record { end_index = taken; kv_storage = put index m q.kv_storage }, some index)

abbrev read_reply : Option Message → ReadReply
read_reply none = no_data
read_reply (some m) = ok m

-- Read, of a storage whose only error is NotFound.
unfoldable pub read : ℕ → QueueService → ReadReply
read id q = read_reply (get id q.kv_storage)

-- Trim, of a storage that reports no error.
unfoldable pub trim : ℕ → QueueService → QueueService
trim id q = record q { kv_storage = delete_range 0 id q.kv_storage }
