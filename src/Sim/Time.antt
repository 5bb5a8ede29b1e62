-- ===== src/Sim/Time.antt =====
-- src/runtime/simulator/host.cpp: the local time of a Host, and its SleepUntil. Times are microseconds,
-- and not negative.
use metamorphosis.Util.Search.{binary_search}
use metamorphosis.Prelude.{
  ◌&&◌, ◌%◌, ltb, ◌||◌, done, ◌==◌, leb, ◌-◌, get_value, verify, ◌+◌, ◌^◌, Outcome, ℕ, Bool, ◌>>◌,
  ◌>>=◌,
}
use metamorphosis.Sim.Host.{Host, Passage, stop_fiber_if_necessary}
use metamorphosis.Sim.World.{sleep_until, World}

-- Duration::max().count()
abbrev pub duration_max : ℕ
duration_max = 2 ^ 63 - 1

-- local >= asked of int64 values, where `asked` is not negative and `local` is given by its 64 bits.
abbrev pub at_or_after : ℕ → ℕ → Bool
at_or_after local asked = ltb local (2 ^ 63) && leb asked local

-- `drifted t` is the 64 bits of the product of drift_ and t in doubles, cast to int64.
module _ (drifted : ℕ → ℕ) (start_time : ℕ) where
  -- The 64 bits of the local time. Where int64 overflows, which C++ leaves undefined, they wrap.
  unfoldable pub to_local_time : ℕ → ℕ
  to_local_time global_time = (global_time + (drifted global_time + start_time)) % 2 ^ 64

  -- 63 rounds are enough for the search.
  unfoldable pub to_global_time : ℕ → Outcome ℕ
  to_global_time local_time = do
    global_time ←
        get_value (binary_search (λ v. at_or_after (to_local_time v) local_time) 63 0 duration_max)
    verify (at_or_after (to_local_time global_time) local_time)
    done global_time

  -- SleepUntil up to the Await of the world, with the random lag and a new Event.
  unfoldable pub host_sleep_until : ℕ → ℕ → Bool → ℕ → World → Outcome World
  host_sleep_until lag event stop_requested local_time w = do
    global_time ← to_global_time (local_time + lag)
    verify (leb w.current_time global_time)
    done (sleep_until global_time event stop_requested w)

-- SleepUntil after that, for a fiber of the given epoch.
unfoldable pub end_sleep : ℕ → Bool → ℕ → Host → World → Outcome Passage
end_sleep global_time stop_requested fiber_epoch h w = do
  verify (w.current_time == global_time || stop_requested)
  stop_fiber_if_necessary fiber_epoch h
