-- ===== src/Raft/ClientTests.antt =====
-- A run of the client of src/raft/client, and instances of the theorems about it.
use metamorphosis.Prelude.{◌↔◌, inl, inr, ◌+◌, ℕ, zero, suc, ◌≤◌, ◌≡◌, refl, [], ◌∷◌, true, false}
use metamorphosis.Raft.Messages.{Request, not_a_leader, commited}
use metamorphosis.Raft.Client.{Network, RaftClient, cancelled, attempts}
use metamorphosis.Raft.Retries.{Failing, rotate, attempted, attempts_iff}

abbrev request : ℕ → ℕ → Request
request client id = record { request_id = id; client_id = client; command = 5 ∷ [] }

-- Node 0 of three has stopped, node 1 follows and node 2 leads.
abbrev network : Network
network attempt_id zero r = record {
  rpc_timed_out = true;
  reply = inl cancelled;
  stop_requested = false;
}
network attempt_id (suc zero) r = record {
  rpc_timed_out = false;
  reply = inr (record { status = not_a_leader; result = [] });
  stop_requested = false;
}
network attempt_id (suc (suc n)) r = record {
  rpc_timed_out = false;
  reply = inr (record { status = commited; result = 6 ∷ [] });
  stop_requested = false;
}

abbrev client : RaftClient
client = record { node_count = 3; current_leader = 0; client_id = 7 }

attempts_iff_example :
    (attempts network (request 7 10) 2 0 client
      ≡ (record client { current_leader = 2 }, inr (6 ∷ [])))
    ↔ ((k : ℕ) × (k ≤ 2)
        × Failing network (request 7 10) k 0 client
        × (record client { current_leader = 2 } ≡ rotate k client)
        × (attempted network (request 7 10) (0 + k) (record client { current_leader = 2 })
            ≡ inr (6 ∷ [])))
attempts_iff_example =
    attempts_iff network (request 7 10) 2 0 client (record client { current_leader = 2 }) (6 ∷ [])

two_failures :
    attempts network (request 7 10) 2 0 client
    ≡ (record client { current_leader = 2 }, inr (6 ∷ []))
unfolding attempts
two_failures = refl
