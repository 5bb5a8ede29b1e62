-- ===== src/Raft/Machine.antt =====
-- src/raft/node/state_machine_wrapper: the state machine with exactly-once semantics.
use metamorphosis.Prelude.{
  ℕ, ◌==◌, if◌then◌else◌, Bool, Option, none, some, true, ◌≡◌, ◌↔◌, List, [], ◌∷◌,
}
use metamorphosis.Kv.{Kv, get, put}
use metamorphosis.Raft.Messages.{Any, Request, LogEntry}

-- What the node takes from outside: IStateMachine::Apply of its user, and
-- MessageDifferencer::Equals of the protobuf library on log entries.
pub record Externals (M : Type 0) : Type 0 where
  pub apply : M → Any → M × Any
  pub equals : LogEntry → LogEntry → Bool

pub record LastClientData : Type 0 where
  pub response : Any
  pub request_id : ℕ

abbrev pub no_data : LastClientData
no_data = record { response = []; request_id = 0 }

pub record ExactlyOnce (M : Type 0) : Type 0 where
  pub state_machine : M
  pub clients_last_cmd_id : Kv LastClientData

-- MessageDifferencer compares all fields.
pub record IsLawful {M : Type 0} (x : Externals M) : Type 0 where
  pub equals_iff : (a b : LogEntry) → (x.equals a b ≡ true) ↔ (a ≡ b)

-- `find`, and `emplace` of a default entry where there is none.
abbrev pub data_or_default : Option LastClientData → LastClientData
data_or_default none = no_data
data_or_default (some d) = d

module _ {M : Type 0} (x : Externals M) where
  unfoldable pub apply : Request → ExactlyOnce M → ExactlyOnce M × Any
  apply r m =
      let last_data = data_or_default (get r.client_id m.clients_last_cmd_id) in
      let (machine, response) = x.apply m.state_machine r.command in
      if last_data.request_id == r.request_id
      then (
        record m { clients_last_cmd_id = put r.client_id last_data m.clients_last_cmd_id },
        last_data.response,
      )
      else (
        record {
          state_machine = machine;
          clients_last_cmd_id =
              put r.client_id (record { response = response; request_id = r.request_id })
                m.clients_last_cmd_id;
        },
        response,
      )

  -- The wrapper after the requests of a log, in order.
  unfoldable pub replay : List LogEntry → ExactlyOnce M → ExactlyOnce M
  replay [] m = m
  replay (e ∷ es) m = replay es (apply e.request m).0
