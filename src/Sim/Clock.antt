-- ===== src/Sim/Clock.antt =====
-- The clock of src/runtime/simulator/world.cpp: RunSimulation fires events in the order of their times.
use metamorphosis.Prelude.{
  verify, ◌>>=◌, ap, gt→leb, ◌∙◌, subst, leb, dec_le, le→leb, ◌⊎◌, done, length, inr, inl, le→ltb,
  lt→ltb, ◌==◌, dec_lt, arith, ◌≤◌, ◌≡◌, Bool-cases, List, ℕ, true, false, ◌>>◌, [], ◌∷◌, suc, zero,
  refl,
}
use metamorphosis.Sim.World.{
  round, run_simulation, signal, restore_link, close_link, World, insert, erase_event, wake,
  sleep_until, Call, sleeps, stops, closes, restores, call, call_all, fire, run,
}

-- The queue is in the order of its times, which are not before the given one.
abbrev pub From : ℕ → List (ℕ × ℕ) → Type 0
From t [] = Unit {0}
From t ((u, e) ∷ q) = (t ≤ u) × From u q

-- A call does not ask for a time that has passed: Host::SleepUntil verifies it, and MakeRequest adds a
-- delay to the present time.
abbrev pub IsFuture : ℕ → List Call → Type 0
IsFuture now [] = Unit {0}
IsFuture now (sleeps t event stop_requested ∷ cs) = (now ≤ t) × IsFuture now cs
IsFuture now (stops event ∷ cs) = IsFuture now cs
IsFuture now (closes from to ∷ cs) = IsFuture now cs
IsFuture now (restores from to ∷ cs) = IsFuture now cs

From-before : (s t : ℕ) (q : List (ℕ × ℕ)) → s ≤ t → From t q → From s q
From-before s t [] l f = tt
From-before s t ((u, e) ∷ q) l (h, f) = (omega arith, f)

insert-From : (s t event : ℕ) (q : List (ℕ × ℕ)) → s ≤ t → From s q → From s (insert t event q)
unfolding insert
insert-From s t event [] l f = (l, tt)
insert-From s t event ((u, e) ∷ q) l (h, f) = elim (dec_lt t u) [
  | yes before ↦ rw (lt→ltb t u before) (l, (omega arith, f))
  | no after ↦ rw (le→ltb t u (omega arith)) (h, insert-From u t event q (omega arith) f)
]

erase_event-From : (s event : ℕ) (q : List (ℕ × ℕ)) → From s q → From s (erase_event event q)
unfolding erase_event
erase_event-From s event [] f = tt
erase_event-From s event ((u, e) ∷ q) (h, f) = elim (Bool-cases (e == event)) [
  | inl same ↦ rw same (From-before s u q h f)
  | inr other ↦ rw other (h, erase_event-From u event q f)
]

-- What calls leave: the time, and a queue in its order.
abbrev pub IsTimely : World → Type 0
IsTimely w = From w.current_time w.events_queue

call_all-IsTimely :
    (cs : List Call) (w : World)
    → IsFuture w.current_time cs
    → IsTimely w
    → ((call_all cs w).current_time ≡ w.current_time) × IsTimely (call_all cs w)
unfolding call_all call wake sleep_until close_link restore_link
call_all-IsTimely [] w h f = (refl, f)
call_all-IsTimely (sleeps t event true ∷ cs) w (l, h) f =
    call_all-IsTimely cs (call (sleeps t event true) w) h (
      erase_event-From w.current_time event (insert t event w.events_queue)
        (insert-From w.current_time t event w.events_queue l f))
call_all-IsTimely (sleeps t event false ∷ cs) w (l, h) f =
    call_all-IsTimely cs (call (sleeps t event false) w) h
      (insert-From w.current_time t event w.events_queue l f)
call_all-IsTimely (stops event ∷ cs) w h f =
    call_all-IsTimely cs (wake event w) h (erase_event-From w.current_time event w.events_queue f)
call_all-IsTimely (closes from to ∷ cs) w h f = call_all-IsTimely cs (close_link from to w) h f
call_all-IsTimely (restores from to ∷ cs) w h f = call_all-IsTimely cs (restore_link from to w) h f

-- Times in their order, between the given one and the duration.
abbrev pub IsOrdered : ℕ → ℕ → List ℕ → Type 0
IsOrdered duration t [] = Unit {0}
IsOrdered duration t (u ∷ us) = (t ≤ u) × (u ≤ duration) × IsOrdered duration u us

abbrev pub last_time : ℕ → List ℕ → ℕ
last_time t [] = t
last_time t (u ∷ us) = last_time u us

-- The world after RunSimulation.
abbrev pub ended : World → World
ended w = record w {
  hosts = [];
  initialized = false;
  events_queue = [];
  current_time = 0;
  closed_links = [];
}

module _ (fibers : World → List Call) where
  -- Rounds at the given times, each of which fires the first event of the queue.
  abbrev pub Fired : List ℕ → World → World → Type 0
  Fired [] w w' = w' ≡ w
  Fired (t ∷ ts) w w' =
      (event : ℕ) × (q : List (ℕ × ℕ)) × (a : World) × (w.events_queue ≡ (t, event) ∷ q)
      × (fire fibers t event q w ≡ done a)
      × Fired ts a w'

  module _ (future : (w : World) → IsFuture w.current_time (fibers w)) (duration : ℕ) where
    fire-IsTimely :
        (ts event : ℕ) (q : List (ℕ × ℕ)) (w : World)
        → w.current_time ≤ ts
        → From ts q
        → (w' : World) × (fire fibers ts event q w ≡ done w') × (w'.current_time ≡ ts) × IsTimely w'
    unfolding fire
    fire-IsTimely ts event q w l f =
        let a : World = record w {
          events_queue = q;
          current_time = ts;
          resumed = signal event w.resumed;
        } in
        let (time, timely) = call_all-IsTimely (fibers a) a (future a) f in
        (call_all (fibers a) a, rw (le→leb w.current_time ts l) refl, time, timely)

    -- What is known of a run of at most n rounds.
    abbrev Ran : ℕ → World → World → List ℕ → Type 0
    Ran n w w' ts =
        Fired ts w w'
        × IsOrdered duration w.current_time ts
        × (w'.current_time ≡ last_time w.current_time ts)
        × (length ts ≤ n)
        × ((length ts ≡ n) ⊎ From (suc duration) w'.events_queue)

    abbrev Runs : ℕ → World → Type 0
    Runs n w = (w' : World) × (ts : List ℕ) × (run fibers duration n w ≡ done w') × Ran n w w' ts

    run_round :
        (n : ℕ)
        → ((w : World) → IsTimely w → Runs n w)
        → (w : World) (q : List (ℕ × ℕ)) → w.events_queue ≡ q
        → From w.current_time q
        → Runs (suc n) w
    unfolding run round
    run_round n later w [] e f = (
      w,
      [],
      ap (λ p. round fibers (run fibers duration n) duration p w) e,
      (refl, tt, refl, omega arith, inr (rw e tt)),
    )
    run_round n later w ((t, event) ∷ q) e (l, f) = elim (dec_le t duration) [
      | no beyond ↦
          let stops : leb t duration ≡ false = gt→leb t duration (omega arith) in
          (
            w,
            [],
            ap (λ p. round fibers (run fibers duration n) duration p w) e ∙ rw stops refl,
            (refl, tt, refl, omega arith, inr (rw e (omega arith, f))),
          )
      | yes due ↦
          let goes = le→leb t duration due in
          let (a, fired, time, timely) = fire-IsTimely t event q w l f in
          let (b, ts, ran, (rounds, ordered, last, short, end)) = later a timely in
          (
            b,
            t ∷ ts,
            ap (λ p. round fibers (run fibers duration n) duration p w) e ∙ rw (goes, fired) ran,
            (
              (event, q, a, e, fired, rounds),
              (l, due, subst (λ u. IsOrdered duration u ts) time ordered),
              last ∙ ap (λ u. last_time u ts) time,
              omega arith,
              elim end [ inl all ↦ inl (omega arith) | inr over ↦ inr over ],
            ),
          )
    ]

    run_fires : (n : ℕ) (w : World) → IsTimely w → Runs n w
    unfolding run
    run_fires zero w f = (w, [], refl, (refl, tt, refl, omega arith, inl refl))
    run_fires (suc n) w f = run_round n (run_fires n) w w.events_queue refl f

    -- A simulation of an initialized world, whose queue is in the order of its times and holds none that
    -- has passed, and whose fibers ask for no wake-up in the past, does not abort. It fires first events
    -- of its queue in rounds, at times that do not fall and are not after the duration, and the clock
    -- shows the time of the last; it ends after the given number of rounds, or before when no event up to
    -- the duration is left. Then the world is emptied.
    pub run_simulation_fires :
        (n : ℕ) (w : World)
        → w.initialized ≡ true
        → IsTimely w
        → (a b : World) × (ts : List ℕ) × (a ≡ call_all (fibers w) w)
          × (run_simulation fibers duration n w ≡ done (ended b))
          × Fired ts a b
          × IsOrdered duration w.current_time ts
          × (b.current_time ≡ last_time w.current_time ts)
          × (length ts ≤ n)
          × ((length ts ≡ n) ⊎ From (suc duration) b.events_queue)
    unfolding run_simulation
    run_simulation_fires n w ready f =
        let a = call_all (fibers w) w in
        let (time, timely) = call_all-IsTimely (fibers w) w (future w) f in
        let (b, ts, ran, (rounds, ordered, last, short, end)) = run_fires n a timely in
        (
          a,
          b,
          ts,
          refl,
          ap (λ v. verify v >> (run fibers duration n a >>= λ d. done (ended d))) ready
              ∙ rw ran refl,
          rounds,
          subst (λ u. IsOrdered duration u ts) time ordered,
          last ∙ ap (λ u. last_time u ts) time,
          short,
          end,
        )
