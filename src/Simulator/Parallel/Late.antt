-- ===== src/Simulator/Parallel/Late.antt =====
-- A timer that goes off before a simulator has started.
use router_pulse_depin_proto.Common.{
  ℕ, zero, suc, ◌+◌, ◌==◌, ◌≡◌, refl, ap, true, List, [], ◌∷◌, arith,
}
use router_pulse_depin_proto.Common.Int.{ℤ}
use router_pulse_depin_proto.Simulator.Acts.{Program}
use router_pulse_depin_proto.Simulator.Router.{send_heartbeat}
use router_pulse_depin_proto.Simulator.Fleet.{Member}
use router_pulse_depin_proto.Simulator.Parallel.{
  Phase, waiting, beating, pausing, tested, Fleet, Event, began, beat_over, woke, timed_out, step,
  run,
}

-- Heartbeats that the draw misses, each with the pause after it.
abbrev pub misses : ℕ → ℕ → ℤ → List Event
misses zero i now = []
misses (suc n) i now = beat_over i true now ∷ woke i ∷ misses n i now

itself : (i : ℕ) → (i == i) ≡ true
itself i = ground arith

module _ (program : Program) (members : ℕ → Member program) where
  -- In a phase, not stopped, with a number of misses.
  abbrev IsIn : Phase → ℕ → ℕ → Fleet program.World → Type 0
  IsIn p i n f =
      ((f.runners i).phase ≡ p) × ((f.runners i).running ≡ true) × ((f.runners i).missed_count ≡ n)

  begin_lem :
      (i n : ℕ) (f : Fleet program.World)
      → (f.runners i).phase ≡ waiting
      → (f.runners i).missed_count ≡ n
      → IsIn beating i n (step program members (began i) f)
  unfolding step
  begin_lem i n f h m = rw (h, itself i) (refl, refl, m)

  miss_lem :
      (i n : ℕ) (now : ℤ) (f : Fleet program.World)
      → IsIn beating i n f
      → IsIn pausing i (suc n) (step program members (beat_over i true now) f)
  unfolding step send_heartbeat
  miss_lem i n now f h = rw (h.0, itself i) (refl, h.1, ap suc h.2)

  wake_lem :
      (i n : ℕ) (f : Fleet program.World)
      → IsIn pausing i n f
      → IsIn beating i n (step program members (woke i) f)
  unfolding step
  wake_lem i n f h = rw (h.0, itself i) (ap (tested program members) h.1, h.1, h.2)

  misses_lem :
      (k i n : ℕ) (now : ℤ) (f : Fleet program.World)
      → IsIn beating i n f
      → IsIn beating i (k + n) (run program members (misses k i now) f)
  unfolding run
  misses_lem zero i n now f h = (h.0, h.1, omega (arith, h.2))
  misses_lem (suc k) i n now f h =
      let missed = step program members (beat_over i true now) f in
      let rest =
        misses_lem k i (suc n) now (step program members (woke i) missed)
          (wake_lem i (suc n) missed (miss_lem i n now f h)) in
      (rest.0, rest.1, omega (arith, rest.2))

-- A simulator whose start comes after the timer of a bounded run is not stopped by it: it goes on,
-- for any number of missed heartbeats, and is then in its next one.
pub late_start-goes_on :
    (program : Program) (members : ℕ → Member program) (i : ℕ) (f : Fleet program.World)
    → (f.runners i).phase ≡ waiting
    → (k : ℕ) (now : ℤ)
    → let r = (run program members (timed_out ∷ began i ∷ misses k i now) f).runners i in
      (r.phase ≡ beating) × (r.running ≡ true) × (r.missed_count ≡ k + (f.runners i).missed_count)
unfolding run step
late_start-goes_on program members i f h k now =
    let stopped = step program members timed_out f in
    misses_lem program members k i (f.runners i).missed_count now
      (step program members (began i) stopped)
      (begin_lem program members i (f.runners i).missed_count stopped h refl)
