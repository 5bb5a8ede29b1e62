-- ===== src/Sim/Network.antt =====
-- src/runtime/simulator/world.cpp: MakeRequest, between the two delays of a message.
use metamorphosis.Prelude.{
  ◌==◌, inl, Option, ◌&&◌, List, ◌⊎◌, ℕ, Bool, [], ◌∷◌, if◌then◌else◌, none, some,
}
use metamorphosis.Raft.Client.{RpcErrorType, connection_refused, network_error, cancelled}
use metamorphosis.Sim.Host.{Host, process_request}
use metamorphosis.Sim.World.{World, is_closed}

abbrev pub find_host : ℕ → List (ℕ × Host) → Option Host
find_host address [] = none
find_host address ((a, h) ∷ hs) =
    let rest = find_host address hs in if a == address then some h else rest

-- What the fiber of a request does after its first sleep: it answers with an error, ends without an
-- answer, or goes to a host.
pub data Arrival : Type 0 where
  answers : RpcErrorType → Arrival
  gives_up : Arrival
  reaches : Host → Arrival

-- `is_network_error` and `lost` are the results of its two draws.
unfoldable pub arrive : ℕ → ℕ → Bool → Bool → Bool → World → Arrival
arrive from address is_network_error lost stop_requested w =
    if is_network_error && lost then answers network_error else elim (find_host address w.hosts) [
      | none ↦ answers connection_refused
      | some h ↦
          if is_closed from address w.closed_links
          then answers network_error
          else if stop_requested
          then gives_up
          else reaches h
    ]

module _ {A : Type 0} where
  -- After its second sleep.
  unfoldable pub respond : ℕ → ℕ → Bool → RpcErrorType ⊎ A → World → RpcErrorType ⊎ A
  respond from address is_network_error result w =
      if is_closed from address w.closed_links
      then inl network_error
      else if is_network_error
      then inl network_error
      else result

  -- The result of a request at a world and a later one, between which the host gives `handled`. A stop
  -- before the answer leaves the result that State has at first.
  unfoldable pub make_request :
      ℕ
      → ℕ
      → ℕ
      → Bool
      → Bool
      → Bool
      → Bool
      → (Host → RpcErrorType ⊎ A)
      → World
      → World
      → RpcErrorType ⊎ A
  make_request from address port is_network_error lost stop_requested stopped handled w w' =
      if stopped
      then inl cancelled
      else elim (arrive from address is_network_error lost stop_requested w) [
        | answers e ↦ inl e
        | gives_up ↦ inl cancelled
        | reaches h ↦ respond from address is_network_error (process_request port (handled h) h) w'
      ]
