-- ===== src/Raft/Client.antt =====
-- src/raft/client: RaftClient, whose Apply sends one request until a leader answers.
use metamorphosis.Prelude.{
  ℕ, zero, suc, ◌+◌, ◌%◌, ltb, if◌then◌else◌, Bool, true, false, ◌⊎◌, inl, inr, Outcome, done, ◌>>◌,
  verify,
}
use metamorphosis.Raft.Messages.{Any, Status, not_a_leader, commited, Request, Response}

-- runtime/util/rpc_error: the kind of an RpcError.
pub data RpcErrorType : Type 0 where
  handler_not_found internal connection_refused network_error cancelled parse_error : RpcErrorType

pub data RaftClientError : Type 0 where
  global_timeout rpc_timeout not_leader : RaftClientError
  rpc_error : RpcErrorType → RaftClientError

-- The states of an Apply when its loop is over; Finished comes after it.
pub data RequestState : Type 0 where
  running request_cancelled timed_out : RequestState

pub record RaftClient : Type 0 where
  pub node_count : ℕ
  pub current_leader : ℕ
  pub client_id : ℕ

pub record Config : Type 0 where
  pub global_timeout : ℕ
  pub rpc_timeout : ℕ
  pub retry_count : ℕ

-- What comes of one attempt: whether its timer has fired before Execute returned, what Execute
-- returned, and whether a stop is requested after the sleep that follows an error.
pub record Attempt : Type 0 where
  pub rpc_timed_out : Bool
  pub reply : RpcErrorType ⊎ Response
  pub stop_requested : Bool

abbrev pub Result : Type 0
Result = RaftClientError ⊎ Any

abbrev of_response : Status → Any → Result
of_response not_a_leader result = inl not_leader
of_response commited result = inr result

-- The result of StartAttempt.
abbrev pub start_attempt : Bool → RpcErrorType ⊎ Response → Result
start_attempt rpc_timed_out (inl e) = inl (if rpc_timed_out then rpc_timeout else rpc_error e)
start_attempt rpc_timed_out (inr r) = of_response r.status r.result

abbrev pub has_error : Result → Bool
has_error (inl e) = true
has_error (inr x) = false

-- The next node, after an error.
abbrev pub advance : RaftClient → RaftClient
advance c = record c { current_leader = (c.current_leader + 1) % c.node_count }

-- What the network makes of an attempt, by its number, its node and its request.
abbrev pub Network : Type 0
Network = ℕ → ℕ → Request → Attempt

-- The loop of Apply from attempt `attempt_id`, with at most `retries` attempts after it.
unfoldable pub attempts : Network → Request → ℕ → ℕ → RaftClient → RaftClient × Result
attempts network r zero attempt_id c =
    let a = network attempt_id c.current_leader r in
    let result = start_attempt a.rpc_timed_out a.reply in
    (if has_error result then advance c else c, result)
attempts network r (suc retries) attempt_id c =
    let a = network attempt_id c.current_leader r in
    let result = start_attempt a.rpc_timed_out a.reply in
    let rest = attempts network r retries (suc attempt_id) (advance c) in
    if has_error result
    then (if a.stop_requested then (advance c, result) else rest)
    else (c, result)

-- The switch after the loop.
abbrev pub conclude : RequestState → Result → Result
conclude running result = result
conclude request_cancelled result = inl (rpc_error cancelled)
conclude timed_out result = inl global_timeout

-- Apply, with the random request id and the state in which the loop ends.
unfoldable pub apply_command :
    Network → Config → ℕ → RequestState → Any → RaftClient → Outcome (RaftClient × Result)
apply_command network config request_id state command c = do
  verify (ltb 0 config.rpc_timeout)
  verify (ltb 0 config.global_timeout)
  let r : Request = record { request_id = request_id; client_id = c.client_id; command = command }
  let (c', result) = attempts network r config.retry_count 0 c
  done (c', conclude state result)
