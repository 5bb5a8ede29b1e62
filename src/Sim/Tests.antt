-- ===== src/Sim/Tests.antt =====
-- Runs of the simulation of src/runtime/simulator on small inputs, and instances of its theorems.
use metamorphosis.Sim.Network.{make_request}
use metamorphosis.Sim.Answers.{IsDelivered, make_request-IsDelivered}
use metamorphosis.Prelude.{
  ◌↔◌, ◌⊎◌, inl, inr, length, if◌then◌else◌, ◌+◌, ◌≤◌, done, ◌≡◌, ◌/◌, List, arith, ℕ, true, false,
  refl, [], ◌∷◌, some,
}
use metamorphosis.Raft.Client.{RpcErrorType, connection_refused}
use metamorphosis.Sim.Host.{
  Host, passes, waits, blocks, stop_fiber_if_necessary, kill_host, start_host, process_request,
}
use metamorphosis.Sim.Epochs.{Life, killed_blocks}
use metamorphosis.Sim.World.{is_closed, World, sleep_until, Call, sleeps, run_simulation, call_all}
use metamorphosis.Sim.Clock.{
  last_time, Fired, From, IsOrdered, IsFuture, ended, run_simulation_fires,
}
use metamorphosis.Sim.Time.{to_local_time, host_sleep_until}
use metamorphosis.Sim.Sleeping.{IsFirst, host_sleep_until-IsFirst}

abbrev host : Host
host = record { paused = false; epoch = 2; servers = 80 ∷ []; main_fiber = true }

-- A handler that answers with its epoch and three.
abbrev handled : Host → RpcErrorType ⊎ ℕ
handled h = inr (h.epoch + 3)

killed_blocks_example :
    ((h' : Host)
      → Life (kill_host host) h'
      → stop_fiber_if_necessary 2 h' ≡ done (if h'.paused then waits else blocks))
    × ((start_host (kill_host host)).1 ≡ some 3)
    × (stop_fiber_if_necessary 3 (start_host (kill_host host)).0 ≡ done passes)
    × (process_request {A = ℕ} 80 (inr 5) (start_host (kill_host host)).0 ≡ inl connection_refused)
killed_blocks_example = killed_blocks host 2 80 (inr 5) refl (omega arith)

-- One fiber that sleeps for five, and then for five again.
abbrev fibers : World → List Call
fibers w = sleeps (w.current_time + 5) 1 false ∷ []

fibers-IsFuture : (w : World) → IsFuture w.current_time (fibers w)
fibers-IsFuture w = (omega arith, tt)

abbrev world : World
world = record {
  hosts = [];
  initialized = true;
  events_queue = [];
  current_time = 0;
  closed_links = [];
  resumed = λ e. false;
}

run_simulation_fires_example :
    (a b : World) × (ts : List ℕ) × (a ≡ call_all (fibers world) world)
    × (run_simulation fibers 12 9 world ≡ done (ended b))
    × Fired fibers ts a b
    × IsOrdered 12 0 ts
    × (b.current_time ≡ last_time 0 ts)
    × (length ts ≤ 9)
    × ((length ts ≡ 9) ⊎ From 13 b.events_queue)
run_simulation_fires_example = run_simulation_fires fibers fibers-IsFuture 12 9 world refl tt

host_sleep_until-IsFirst_example :
    (g : ℕ) × IsFirst (λ t. t / 10) 7 107 g
    × (20 ≤ g)
    × (host_sleep_until (λ t. t / 10) 7 2 1 false 105 (record world { current_time = 20 })
        ≡ done (sleep_until g 1 false (record world { current_time = 20 })))
unfolding to_local_time
host_sleep_until-IsFirst_example =
    host_sleep_until-IsFirst (λ t. t / 10) 7 (λ s t l h. omega arith) (omega arith) 2 1 false 105
      (record world { current_time = 20 }) (omega arith) (omega arith) (omega arith)

make_request-IsDelivered_example :
    (make_request 1 2 80 false true false false handled
        (record world { hosts = (2, host) ∷ [] })
        world
      ≡ inr 5)
    ↔ IsDelivered 1 2 80 false true false false handled
        (record world { hosts = (2, host) ∷ [] })
        world
        5
make_request-IsDelivered_example =
    make_request-IsDelivered 1 2 80 false true false false handled
      (record world { hosts = (2, host) ∷ [] }) world 5

delivered :
    make_request 1 2 80 false true false false handled
      (record world { hosts = (2, host) ∷ [] })
      world
    ≡ inr 5
unfolding is_closed process_request
delivered =
    make_request-IsDelivered_example.1 (refl, refl, refl, refl, refl, (host, refl, refl, refl))
