-- ===== src/Sim/Sleeping.antt =====
-- A sleep of a host of src/runtime/simulator/host.cpp ends at the first moment that is late enough by
-- its own clock.
use metamorphosis.Prelude.{
  leb→le, ap, ◌-◌, ◌∙◌, ◌^◌, lt→ltb, sym, ◌+◌, subst, le→leb, dec_lt, leb, done, arith, ◌≡◌, ◌<◌,
  ◌≤◌, ℕ, Bool, true, false, zero, suc, refl,
}
use metamorphosis.Util.Search.{middle, binary_search}
use metamorphosis.Sim.Time.{
  at_or_after, duration_max, to_local_time, to_global_time, host_sleep_until,
}
use metamorphosis.Sim.World.{World, sleep_until}
use metamorphosis.Util.Halving.{binary_search_ends}

-- The first moment at which the local time is not before the given one.
abbrev pub IsFirst : (ℕ → ℕ) → ℕ → ℕ → ℕ → Type 0
IsFirst drifted start_time local_time g =
    (local_time ≤ to_local_time drifted start_time g)
    × (to_local_time drifted start_time g < 2 ^ 63)
    × ((t : ℕ) → t < g → to_local_time drifted start_time t < local_time)

-- The first index that the search asks about.
abbrev pub half : ℕ
half = 2 ^ 62 - 1

search_left :
    (p : ℕ → Bool) (rounds begin end_index : ℕ)
    → begin < end_index
    → p (middle begin end_index) ≡ true
    → binary_search p (suc rounds) begin end_index
      ≡ binary_search p rounds begin (middle begin end_index)
unfolding binary_search
search_left p rounds begin end_index l h = rw (lt→ltb begin end_index l, h) refl

module _ (drifted : ℕ → ℕ) (start_time : ℕ)
    (grows : (s t : ℕ) → s ≤ t → t ≤ half → drifted s ≤ drifted t)
    (fits : half + (drifted half + start_time) < 2 ^ 63) where
  abbrev local : ℕ → ℕ
  local = to_local_time drifted start_time

  -- Up to `half` nothing overflows.
  local_exact : (t : ℕ) → t ≤ half → (local t ≡ t + (drifted t + start_time)) × (local t < 2 ^ 63)
  unfolding to_local_time
  local_exact t l =
      let bound : t + (drifted t + start_time) < 2 ^ 63 = omega (arith, grows t half l) in
      (omega arith, omega arith)

  local_less : (s t : ℕ) → s < t → t ≤ half → local s < local t
  local_less s t l h =
      omega (arith, grows s t (omega arith) h, local_exact s (omega arith), local_exact t h)

  at_or_after-leb : (t asked : ℕ) → t ≤ half → at_or_after (local t) asked ≡ leb asked (local t)
  at_or_after-leb t asked l = let small = (local_exact t l).1 in ground arith

  to_global_time-IsFirst :
      (asked : ℕ)
      → asked ≤ half
      → (g : ℕ) × (g ≤ half)
        × (to_global_time drifted start_time asked ≡ done g)
        × IsFirst drifted start_time asked g
  unfolding to_global_time
  to_global_time-IsFirst asked small =
      let p = λ (v : ℕ). at_or_after (local v) asked in
      let late = λ (t : ℕ) (l : t ≤ half) (h : asked ≤ local t).
        at_or_after-leb t asked l ∙ le→leb asked (local t) h in
      let half_late = late half (omega arith) (omega (arith, local_exact half (omega arith))) in
      let first_probe : middle 0 duration_max ≡ half = omega arith in
      let narrowed =
        search_left p 62 0 duration_max (omega arith) (ap p first_probe ∙ half_late)
        ∙ ap (binary_search p 62 0) first_probe in
      let (g, found, low, high, up, down) =
        binary_search_ends p 62 0 half (omega arith) (omega arith) in
      let holds : p g ≡ true = elim (dec_lt g half) [
        | yes inside ↦ up inside
        | no last ↦ let same : g ≡ half = omega arith in ap p same ∙ half_late
      ] in
      let reached : asked ≤ local g =
        leb→le asked (local g) (sym (at_or_after-leb g asked high) ∙ holds) in
      (
        g,
        high,
        rw (narrowed ∙ found, holds) refl,
        (reached, (local_exact g high).1, before g high down),
      )
    where
      before :
          (g : ℕ)
          → g ≤ half
          → ((i : ℕ) → 0 ≤ i → suc i ≡ g → at_or_after (local i) asked ≡ false)
          → (t : ℕ) → t < g
          → local t < asked
      before zero h down t l = absurd (omega arith)
      before (suc i) h down t l =
          let early = sym (at_or_after-leb i asked (omega arith)) ∙ down i (omega arith) refl in
          let last : local i < asked = ground arith in
          elim (dec_lt t i) [
            | yes sooner ↦ omega (arith, local_less t i sooner (omega arith))
            | no here ↦
                let same : t ≡ i = omega arith in subst (λ j. local j < asked) (sym same) last
          ]

  -- A host whose drift does not fall with time and keeps its local time within int64 up to the global
  -- time 2 ^ 62 - 1, and that asks before then for a moment, with the lag not after 2 ^ 62 - 1, that is
  -- not before its present one, sleeps without an abort: the world is asked for the first moment at
  -- which the local time reaches the moment asked for, with the lag, and that moment has not passed.
  pub host_sleep_until-IsFirst :
      (lag event : ℕ) (stop_requested : Bool) (local_time : ℕ) (w : World)
      → w.current_time ≤ half
      → to_local_time drifted start_time w.current_time ≤ local_time
      → local_time + lag ≤ half
      → (g : ℕ) × IsFirst drifted start_time (local_time + lag) g
        × (w.current_time ≤ g)
        × (host_sleep_until drifted start_time lag event stop_requested local_time w
            ≡ done (sleep_until g event stop_requested w))
  unfolding host_sleep_until
  host_sleep_until-IsFirst lag event stop_requested local_time w early now small =
      let (g, high, found, first) = to_global_time-IsFirst (local_time + lag) small in
      let future : w.current_time ≤ g = elim (dec_lt g w.current_time) [
        | yes past ↦ absurd (omega (arith, first.0, local_less g w.current_time past early))
        | no later ↦ omega arith
      ] in
      let goes = le→leb w.current_time g future in (g, first, future, rw (found, goes) refl)
