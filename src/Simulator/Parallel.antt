-- ===== src/Simulator/Parallel.antt =====
-- routerpulse/simulator/src/index.ts from the first heartbeat on: the simulators of the fleet run in
-- parallel on one cluster, each from its own start, until the timer of a bounded run stops them.
-- What happens is a sequence of events; a heartbeat, with all that it sends, is one.
pub mod Ends
pub mod Late
use router_pulse_depin_proto.Common.{
  ℕ, zero, suc, ◌==◌, Bool, true, false, Option, List, [], ◌∷◌, if◌then◌else◌,
}
use router_pulse_depin_proto.Common.Int.{ℤ}
use router_pulse_depin_proto.Simulator.Acts.{Instruction, Program, Sim}
use router_pulse_depin_proto.Simulator.Router.{send_heartbeat, after_turn}
use router_pulse_depin_proto.Simulator.Fleet.{Member, client_of}

-- Where a simulator is: before its start, in a heartbeat, in the pause after one, or at its end.
pub data Phase : Type 0 where
  waiting beating pausing ended : Phase

-- The fields of a `RouterSimulator`.
pub record Runner : Type 0 where
  pub phase : Phase
  pub running : Bool
  pub heartbeat_count : ℕ
  pub missed_count : ℕ
  pub last_finalized : Option ℕ

pub record Fleet (World : Type 0) : Type 0 where
  pub world : World
  pub confirmed : List Instruction
  pub runners : ℕ → Runner

-- The delay of a start is over; a heartbeat comes to its end, of a draw and a time; the pause after
-- it is over; the timer of a bounded run goes off.
pub data Event : Type 0 where
  began : (member : ℕ) → Event
  beat_over : (member : ℕ) → (unlucky : Bool) → (now : ℤ) → Event
  woke : (member : ℕ) → Event
  timed_out : Event

module _ (program : Program) (members : ℕ → Member program) where
  abbrev State : Type 0
  State = Fleet program.World

  abbrev pub put : ℕ → Runner → (ℕ → Runner) → ℕ → Runner
  put i r runners j = if i == j then r else runners j

  abbrev pub sim_of : State → Runner → Sim program.World
  sim_of f r = record {
    world = f.world;
    confirmed = f.confirmed;
    running = r.running;
    heartbeat_count = r.heartbeat_count;
    missed_count = r.missed_count;
    last_finalized = r.last_finalized;
  }

  abbrev pub with_sim : ℕ → Sim program.World → State → State
  with_sim i s f = record {
    world = s.world;
    confirmed = s.confirmed;
    runners =
        put i
          (record {
            phase = pausing;
            running = s.running;
            heartbeat_count = s.heartbeat_count;
            missed_count = s.missed_count;
            last_finalized = s.last_finalized;
          })
          f.runners;
  }

  abbrev pub turn_of : ℕ → Bool → ℤ → Sim program.World → Sim program.World
  turn_of i unlucky now s =
      after_turn (client_of program (members i)) (members i).device
        (send_heartbeat (client_of program (members i)) (members i).device unlucky now s)

  -- The test of the loop.
  abbrev pub tested : Bool → Phase
  tested running = if running then beating else ended

  -- What an event does to a simulator in a phase; one that cannot happen there does nothing.
  abbrev pub begin_in : Phase → ℕ → State → State
  begin_in waiting i f = record f {
    runners = put i (record (f.runners i) { phase = beating; running = true }) f.runners;
  }
  begin_in _ i f = f

  abbrev pub beat_in : Phase → ℕ → Bool → ℤ → State → State
  beat_in beating i unlucky now f = with_sim i (turn_of i unlucky now (sim_of f (f.runners i))) f
  beat_in _ i unlucky now f = f

  abbrev pub wake_in : Phase → ℕ → State → State
  wake_in pausing i f = record f {
    runners = put i (record (f.runners i) { phase = tested (f.runners i).running }) f.runners;
  }
  wake_in _ i f = f

  -- `simulators.forEach(sim => sim.stop())`.
  abbrev pub stop_all : State → State
  stop_all f = record f { runners = λ i. record (f.runners i) { running = false } }

  unfoldable pub step : Event → State → State
  step (began i) f = begin_in (f.runners i).phase i f
  step (beat_over i unlucky now) f = beat_in (f.runners i).phase i unlucky now f
  step (woke i) f = wake_in (f.runners i).phase i f
  step timed_out f = stop_all f

  unfoldable pub run : List Event → State → State
  unfolding step
  run [] f = f
  run (e ∷ es) f = run es (step e f)

  -- How many heartbeats of a simulator come to their end.
  abbrev pub is_beat_of : ℕ → Event → Phase → ℕ
  is_beat_of i (beat_over j unlucky now) beating = if j == i then 1 else 0
  is_beat_of i _ _ = 0
