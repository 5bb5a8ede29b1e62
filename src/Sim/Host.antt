-- ===== src/Sim/Host.antt =====
-- src/runtime/simulator/host.cpp: the life of a Host, and which of its fibers run.
use metamorphosis.Raft.Client.{connection_refused, RpcErrorType}
use metamorphosis.Prelude.{
  not, leb, verify, ◌>>◌, if◌then◌else◌, ◌||◌, ◌+◌, inl, ◌==◌, some, ◌⊎◌, none, ◌∷◌, done, [],
  Option, Outcome, List, ℕ, Bool, true, false,
}

-- `servers` holds the ports of servers_, `main_fiber` whether main_fiber_ is joinable.
pub record Host : Type 0 where
  pub paused : Bool
  pub epoch : ℕ
  pub servers : List ℕ
  pub main_fiber : Bool

-- What StopFiberIfNecessary does with a fiber: it returns, waits until the host is resumed, or blocks
-- forever.
pub data Passage : Type 0 where
  passes waits blocks : Passage

abbrev pub contains : ℕ → List ℕ → Bool
contains port [] = false
contains port (p ∷ ps) = (p == port) || contains port ps

abbrev pub erase : ℕ → List ℕ → List ℕ
erase port [] = []
erase port (p ∷ ps) = let rest = erase port ps in if p == port then rest else p ∷ rest

unfoldable pub pause_host : Host → Host
pause_host h = record h { paused = true }

unfoldable pub resume_host : Host → Host
resume_host h = record h { paused = false }

-- From here on `fiber_epoch` is the epoch in the properties of the running fiber.
unfoldable pub stop_fiber_if_necessary : ℕ → Host → Outcome Passage
stop_fiber_if_necessary fiber_epoch h = if h.paused then done waits else (do
  verify (leb fiber_epoch h.epoch)
  done (if fiber_epoch == h.epoch then passes else blocks))

unfoldable pub kill_host : Host → Host
kill_host h =
    if h.main_fiber then record h { servers = []; main_fiber = false; epoch = h.epoch + 1 } else h

-- The epoch of the new main fiber, if there is one, stands beside the host.
unfoldable pub start_host : Host → Host × Option ℕ
start_host h = if h.main_fiber then (h, none) else (record h { main_fiber = true }, some h.epoch)

-- RegisterServer and UnregisterServer, when the fiber has passed.
unfoldable pub register_server : ℕ → Host → Outcome Host
register_server port h = do
  verify (not (contains port h.servers))
  done (record h { servers = port ∷ h.servers })

unfoldable pub unregister_server : ℕ → Host → Outcome Host
unregister_server port h = do
  verify (contains port h.servers)
  done (record h { servers = erase port h.servers })

-- ProcessRequest, when the fiber has passed; `handled` is the result of the server.
unfoldable pub process_request : {A : Type 0} → ℕ → RpcErrorType ⊎ A → Host → RpcErrorType ⊎ A
process_request port handled h = if contains port h.servers then handled else inl connection_refused
