-- ===== src/Mtf/Messages.antt =====
-- src/metamorphosis/metamorphosis.proto: the messages. Strings and hashes are lists of bytes.
use metamorphosis.Prelude.{ℕ, List, Bool}

abbrev pub Bytes : Type 0
Bytes = List ℕ

pub record ReadReq : Type 0 where
  pub offset : ℕ

-- The status with the payload that the node sets for it.
pub data ReadRsp : Type 0 where
  not_found : ReadRsp
  hash_only : Bytes → ReadRsp
  full_message : Bytes → ReadRsp

pub record AppendReq : Type 0 where
  pub content : Bytes
  pub producer_id : ℕ
  pub sequence_id : ℕ

-- The status with the fields that the node sets for it.
pub data AppendRsp : Type 0 where
  not_a_leader : AppendRsp
  commited : (offset next_sequence_id : ℕ) → AppendRsp
  invalid_sequence_id : (next_sequence_id : ℕ) → AppendRsp
  parallel_request : AppendRsp

pub record LogEntry : Type 0 where
  pub term : ℕ
  pub producer_id : ℕ
  pub content : Bytes
  pub md5hash : Bytes

pub record AppendEntriesReq : Type 0 where
  pub term : ℕ
  pub leader_id : ℕ
  pub prev_log_index : ℕ
  pub prev_log_term : ℕ
  pub entries : List LogEntry
  pub leader_commit : ℕ

pub record AppendEntriesRsp : Type 0 where
  pub term : ℕ
  pub success : Bool

pub record RequestVoteReq : Type 0 where
  pub term : ℕ
  pub candidate_id : ℕ
  pub last_log_index : ℕ
  pub last_log_term : ℕ

pub record RequestVoteRsp : Type 0 where
  pub term : ℕ
  pub vote_granted : Bool
