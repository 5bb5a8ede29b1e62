-- ===== src/Sim/World.antt =====
-- src/runtime/simulator/world.cpp: the events of a simulation, its clock and its network. Times are
-- microseconds, and not negative.
use metamorphosis.Prelude.{
  zero, ◌>>=◌, [], ◌∷◌, suc, leb, not, ◌||◌, ◌&&◌, ltb, verify, done, List, Outcome, ◌==◌, ℕ, Bool,
  false, ◌>>◌, if◌then◌else◌,
}
use metamorphosis.Sim.Host.{Host}

-- hosts_ by address, events_queue_ in the order of its iterators, as timestamps with the addresses of
-- Events, and by address whether an Event is resumed.
pub record World : Type 0 where
  pub hosts : List (ℕ × Host)
  pub initialized : Bool
  pub events_queue : List (ℕ × ℕ)
  pub current_time : ℕ
  pub closed_links : List (ℕ × ℕ)
  pub resumed : ℕ → Bool

-- std::multimap::insert: behind the elements of an equal key.
unfoldable pub insert : ℕ → ℕ → List (ℕ × ℕ) → List (ℕ × ℕ)
insert t event [] = (t, event) ∷ []
insert t event ((u, e) ∷ q) =
    let rest = insert t event q in if ltb t u then (t, event) ∷ (u, e) ∷ q else (u, e) ∷ rest

-- erase of the element of an Event. Each Event is on the stack of the one SleepUntil that inserts it.
unfoldable pub erase_event : ℕ → List (ℕ × ℕ) → List (ℕ × ℕ)
erase_event event [] = []
erase_event event ((u, e) ∷ q) =
    let rest = erase_event event q in if e == event then q else (u, e) ∷ rest

abbrev pub signal : ℕ → (ℕ → Bool) → ℕ → Bool
signal event resumed e = e == event || resumed e

-- The callback of SleepUntil.
unfoldable pub wake : ℕ → World → World
wake event w = record w {
  events_queue = erase_event event w.events_queue;
  resumed = signal event w.resumed;
}

-- SleepUntil up to Await. The callback runs at once if the stop was requested before.
unfoldable pub sleep_until : ℕ → ℕ → Bool → World → World
unfolding wake
sleep_until wake_up_time event stop_requested w =
    let w' : World = record w {
      events_queue = insert wake_up_time event w.events_queue;
      resumed = λ e. if e == event then false else w.resumed e;
    } in
    if stop_requested then wake event w' else w'

abbrev pub is_link : ℕ → ℕ → ℕ × ℕ → Bool
is_link from to (a, b) = a == from && b == to

unfoldable pub is_closed : ℕ → ℕ → List (ℕ × ℕ) → Bool
is_closed from to [] = false
is_closed from to (l ∷ ls) = is_link from to l || is_closed from to ls

-- closed_links_ is a set.
unfoldable pub insert_link : ℕ → ℕ → List (ℕ × ℕ) → List (ℕ × ℕ)
insert_link from to ls = if is_closed from to ls then ls else (from, to) ∷ ls

unfoldable pub close_link : ℕ → ℕ → World → World
close_link from to w = record w { closed_links = insert_link from to w.closed_links }

unfoldable pub erase_link : ℕ → ℕ → List (ℕ × ℕ) → List (ℕ × ℕ)
erase_link from to [] = []
erase_link from to (l ∷ ls) =
    let rest = erase_link from to ls in if is_link from to l then rest else l ∷ rest

unfoldable pub restore_link : ℕ → ℕ → World → World
restore_link from to w = record w { closed_links = erase_link from to w.closed_links }

abbrev pub has_host : ℕ → List (ℕ × Host) → Bool
has_host address [] = false
has_host address ((a, h) ∷ hs) = a == address || has_host address hs

unfoldable pub add_host : ℕ → Host → World → Outcome World
add_host address h w = do
  verify (not (has_host address w.hosts))
  done (record w { hosts = (address, h) ∷ w.hosts })

-- A call of the world by a fiber that runs while the main fiber waits.
pub data Call : Type 0 where
  sleeps : ℕ → ℕ → Bool → Call
  stops : ℕ → Call
  closes restores : ℕ → ℕ → Call

unfoldable pub call : Call → World → World
call (sleeps wake_up_time event stop_requested) w = sleep_until wake_up_time event stop_requested w
call (stops event) w = wake event w
call (closes from to) w = close_link from to w
call (restores from to) w = restore_link from to w

unfoldable pub call_all : List Call → World → World
call_all [] w = w
call_all (c ∷ cs) w = call_all cs (call c w)

-- From here on `fibers` gives the calls of all fibers until they wait or end, in their order.
module _ (fibers : World → List Call) where
  -- A round of the loop of RunSimulation that takes the given event off the queue.
  unfoldable pub fire : ℕ → ℕ → List (ℕ × ℕ) → World → Outcome World
  fire ts event q w = do
    verify (leb w.current_time ts)
    let w' = record w { events_queue = q; current_time = ts; resumed = signal event w.resumed }
    done (call_all (fibers w') w')

  -- The test of the loop and a round, before the rest of the loop.
  unfoldable pub round : (World → Outcome World) → ℕ → List (ℕ × ℕ) → World → Outcome World
  round rest duration [] w = done w
  round rest duration ((ts, event) ∷ q) w =
      if leb ts duration then (do w' ← fire ts event q w; rest w') else done w

  -- The loop, whose rounds are iteration_count at most.
  unfoldable pub run : ℕ → ℕ → World → Outcome World
  run duration zero w = done w
  run duration (suc iteration_count) w =
      round (run duration iteration_count) duration w.events_queue w

  -- The hosts that the end kills and resumes are dropped with the queue, so that the calls of their
  -- fibers until they block leave nothing.
  unfoldable pub run_simulation : ℕ → ℕ → World → Outcome World
  run_simulation duration iteration_count w = do
    verify w.initialized
    w' ← run duration iteration_count (call_all (fibers w) w)
    done (record w' {
      hosts = [];
      initialized = false;
      events_queue = [];
      current_time = 0;
      closed_links = [];
    })
