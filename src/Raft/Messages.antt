-- ===== src/Raft/Messages.antt =====
-- src/raft/raft.proto: the messages. A google.protobuf.Any is its payload, a list of bytes.
use metamorphosis.Prelude.{ℕ, List, Bool}

abbrev pub Any : Type 0
Any = List ℕ

pub data Status : Type 0 where
  not_a_leader commited : Status

pub record Response : Type 0 where
  pub status : Status
  pub result : Any

pub record Request : Type 0 where
  pub request_id : ℕ
  pub client_id : ℕ
  pub command : Any

pub record LogEntry : Type 0 where
  pub term : ℕ
  pub request : Request

pub record AppendEntriesRequest : Type 0 where
  pub term : ℕ
  pub leader_id : ℕ
  pub prev_log_index : ℕ
  pub prev_log_term : ℕ
  pub entries : List LogEntry
  pub leader_commit : ℕ

pub record AppendEntriesResult : Type 0 where
  pub term : ℕ
  pub success : Bool

pub record RequestVoteRequest : Type 0 where
  pub term : ℕ
  pub candidate_id : ℕ
  pub last_log_index : ℕ
  pub last_log_term : ℕ

pub record RequestVoteResult : Type 0 where
  pub term : ℕ
  pub vote_granted : Bool
