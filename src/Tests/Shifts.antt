-- ===== src/Tests/Shifts.antt =====
-- Examples for the fleet that runs in parallel.
use router_pulse_depin_proto.Common.{
  ℕ, ◌+◌, ◌≤◌, ◌≡◌, ◌≢◌, refl, Bool, true, none, List, [], ◌∷◌, ◌++◌, if◌then◌else◌, ◌==◌,
}
use router_pulse_depin_proto.Common.Int.{ℤ, pos}
use router_pulse_depin_proto.Simulator.Fleet.{Member}
use router_pulse_depin_proto.Simulator.Parallel.{
  Phase, waiting, beating, ended, Runner, Fleet, Event, began, beat_over, woke, timed_out, step,
  run,
}
use router_pulse_depin_proto.Simulator.Parallel.Ends.{beats_of, stopped-ends}
use router_pulse_depin_proto.Simulator.Parallel.Late.{misses, late_start-goes_on}
use router_pulse_depin_proto.Tests.Fleets.{pair, left}

abbrev members : ℕ → Member pair
members i = left

abbrev runner_in : Phase → Runner
runner_in p = record {
  phase = p;
  running = true;
  heartbeat_count = 4;
  missed_count = 1;
  last_finalized = none;
}

-- The first simulator is in a heartbeat, and the others have not started.
abbrev fleet : Fleet (ℕ × ℕ)
fleet = record {
  world = (100, 100);
  confirmed = [];
  runners = λ i. if i == 0 then runner_in beating else runner_in waiting;
}

first_has_started : beating ≢ waiting
first_has_started e = cc

stopped-ends_example :
    ((es : List Event) → beats_of pair members 0 es (step pair members timed_out fleet) ≤ 1)
    × ((a b c : List Event) (unlucky : Bool) (now : ℤ)
        → let after =
            run pair members (timed_out ∷ a ++ beat_over 0 unlucky now ∷ (b ++ woke 0 ∷ c)) fleet in
          (after.runners 0).phase ≡ ended)
stopped-ends_example = stopped-ends pair members 0 fleet first_has_started

late_start-goes_on_example :
    let r = (run pair members (timed_out ∷ began 2 ∷ misses 5 2 (pos 9000)) fleet).runners 2 in
    (r.phase ≡ beating) × (r.running ≡ true) × (r.missed_count ≡ 5 + 1)
late_start-goes_on_example = late_start-goes_on pair members 2 fleet refl 5 (pos 9000)
