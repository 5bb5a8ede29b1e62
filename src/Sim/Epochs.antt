-- ===== src/Sim/Epochs.antt =====
-- Killed hosts of src/runtime/simulator/host.cpp: their fibers do not run any more.
use metamorphosis.Raft.Client.{connection_refused, RpcErrorType}
use metamorphosis.Prelude.{if◌then◌else◌, inl, ◌⊎◌, ◌+◌, some, done, arith, ◌≡◌, ◌≤◌, ◌<◌, ℕ, true}
use metamorphosis.Sim.Host.{
  process_request, Host, passes, waits, blocks, stop_fiber_if_necessary, kill_host, start_host,
  pause_host, resume_host, register_server, unregister_server,
}

-- A step of the life of a host. A fiber that registers or unregisters a server has passed
-- StopFiberIfNecessary.
pub data Step (h : Host) : Host → Type 0 where
  on_pause : Step h (pause_host h)
  on_resume : Step h (resume_host h)
  on_kill : Step h (kill_host h)
  on_start : Step h (start_host h).0
  on_register :
      (fiber_epoch port : ℕ) {h' : Host}
      → stop_fiber_if_necessary fiber_epoch h ≡ done passes
      → register_server port h ≡ done h'
      → Step h h'
  on_unregister :
      (fiber_epoch port : ℕ) {h' : Host}
      → stop_fiber_if_necessary fiber_epoch h ≡ done passes
      → unregister_server port h ≡ done h'
      → Step h h'

pub data Life (h : Host) : Host → Type 0 where
  here : Life h h
  next : {a b : Host} → Life h a → Step a b → Life h b

Step-epoch : {h h' : Host} → Step h h' → h.epoch ≤ h'.epoch
unfolding pause_host resume_host kill_host start_host register_server unregister_server
Step-epoch {h} on_pause = omega arith
Step-epoch {h} on_resume = omega arith
Step-epoch {h} on_kill = ground arith
Step-epoch {h} on_start = ground arith
Step-epoch {h} (on_register fiber_epoch port passed e) = ground arith
Step-epoch {h} (on_unregister fiber_epoch port passed e) = ground arith

Life-epoch : {h h' : Host} → Life h h' → h.epoch ≤ h'.epoch
Life-epoch here = omega arith
Life-epoch (next l s) = omega (arith, Life-epoch l, Step-epoch s)

later_blocks :
    (fiber_epoch : ℕ) (h : Host)
    → fiber_epoch < h.epoch
    → stop_fiber_if_necessary fiber_epoch h ≡ done (if h.paused then waits else blocks)
unfolding stop_fiber_if_necessary
later_blocks fiber_epoch h l = ground arith

-- After KillHost of a host that was started, a fiber of an epoch up to then never passes
-- StopFiberIfNecessary again, whatever becomes of the host: it waits while the host is paused, and else
-- is blocked, and nothing aborts. StartHost right after it makes a main fiber of an epoch that passes,
-- unless the host is paused, and no server is left: each request is refused.
pub killed_blocks :
    {A : Type 0} (h : Host) (fiber_epoch port : ℕ) (handled : RpcErrorType ⊎ A)
    → h.main_fiber ≡ true
    → fiber_epoch ≤ h.epoch
    → ((h' : Host)
        → Life (kill_host h) h'
        → stop_fiber_if_necessary fiber_epoch h' ≡ done (if h'.paused then waits else blocks))
      × ((start_host (kill_host h)).1 ≡ some (h.epoch + 1))
      × (stop_fiber_if_necessary (h.epoch + 1) (start_host (kill_host h)).0
          ≡ done (if h.paused then waits else passes))
      × (process_request port handled (start_host (kill_host h)).0 ≡ inl connection_refused)
unfolding kill_host start_host stop_fiber_if_necessary process_request
killed_blocks h fiber_epoch port handled started old = (
  λ h' life.
      let grown : h.epoch + 1 ≤ h'.epoch = ground (arith, Life-epoch life) in
      later_blocks fiber_epoch h' (omega arith),
  ground arith,
  ground arith,
  ground arith,
)
