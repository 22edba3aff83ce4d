-- ===== src/Simulator/Parallel/Ends.antt =====
-- How the simulators come to their end once the timer of a bounded run has gone off.
use mathlib.Core.Path.{subst}
use router_pulse_depin_proto.Common.{
  ℕ, ◌+◌, ◌*◌, ◌≤◌, ◌==◌, ◌≡◌, ◌≢◌, refl, sym, inl, inr, Bool, true, false, Bool-cases, List, [],
  ◌∷◌, ◌++◌, arith,
}
use router_pulse_depin_proto.Common.Int.{ℤ}
use router_pulse_depin_proto.Simulator.Acts.{Program}
use router_pulse_depin_proto.Simulator.Router.Stopping.{turn-stopped}
use router_pulse_depin_proto.Simulator.Fleet.{Member, client_of}
use router_pulse_depin_proto.Simulator.Parallel.{
  Phase, waiting, beating, pausing, ended, Runner, Fleet, Event, began, beat_over, woke, timed_out,
  put, sim_of, begin_in, beat_in, wake_in, step, run, is_beat_of,
}

-- How far a simulator is from its end, after a stop.
abbrev pub rank : Phase → ℕ
rank waiting = 4
rank beating = 3
rank pausing = 1
rank ended = 0

same_number : (i j : ℕ) → (i == j) ≡ true → i ≡ j
same_number i j h = ground arith

itself : (i : ℕ) → (i == i) ≡ true
itself i = ground arith

module _ (program : Program) (members : ℕ → Member program) where
  -- A simulator that has started and been stopped.
  pub record IsStopping (i : ℕ) (f : Fleet program.World) : Type 0 where
    pub off : (f.runners i).running ≡ false
    pub has_started : rank (f.runners i).phase ≤ 3

  put_self : (i : ℕ) (r : Runner) (runners : ℕ → Runner) → put program members i r runners i ≡ r
  put_self i r runners = rw (itself i)

  put_other :
      (i j : ℕ) (r : Runner) (runners : ℕ → Runner)
      → (j == i) ≡ false
      → put program members j r runners i ≡ runners i
  put_other i j r runners h = rw h

  -- What a runner is after an event of its own, stopped as it is.
  abbrev After : ℕ → ℕ → Runner → Type 0
  After n m r = (r.running ≡ false) × (n * 2 + rank r.phase ≤ m)

  began_lem :
      (i : ℕ) (p : Phase) (f : Fleet program.World)
      → (f.runners i).phase ≡ p
      → IsStopping i f
      → After 0 (rank p) ((begin_in program members p i f).runners i)
  began_lem i waiting f e h = absurd (ground (arith, h.has_started))
  began_lem i beating f e h = (h.off, rw e (omega arith))
  began_lem i pausing f e h = (h.off, rw e (omega arith))
  began_lem i ended f e h = (h.off, rw e (omega arith))

  -- A heartbeat in flight comes to its end, and no other does.
  beat_lem :
      (i : ℕ) (unlucky : Bool) (now : ℤ) (p : Phase) (f : Fleet program.World)
      → (f.runners i).phase ≡ p
      → IsStopping i f
      → After
          (is_beat_of program members i (beat_over i unlucky now) p)
          (rank p)
          ((beat_in program members p i unlucky now f).runners i)
  beat_lem i unlucky now waiting f e h = (h.off, rw e (omega arith))
  beat_lem i unlucky now beating f e h = rw (itself i) (
    turn-stopped (client_of program (members i)) (members i).device unlucky now
        (sim_of program members f (f.runners i)) h.off,
    omega arith,
  )
  beat_lem i unlucky now pausing f e h = (h.off, rw e (omega arith))
  beat_lem i unlucky now ended f e h = (h.off, rw e (omega arith))

  woke_lem :
      (i : ℕ) (p : Phase) (f : Fleet program.World)
      → (f.runners i).phase ≡ p
      → IsStopping i f
      → After 0 (rank p) ((wake_in program members p i f).runners i)
  woke_lem i waiting f e h = (h.off, rw e (omega arith))
  woke_lem i beating f e h = (h.off, rw e (omega arith))
  woke_lem i pausing f e h = rw (itself i) (h.off, rw (h.off) (omega arith))
  woke_lem i ended f e h = (h.off, rw e (omega arith))

  -- The events of another simulator.
  began_other :
      (i j : ℕ) (p : Phase) (f : Fleet program.World)
      → (j == i) ≡ false
      → (begin_in program members p j f).runners i ≡ f.runners i
  began_other i j waiting f h = rw h
  began_other i j beating f h = refl
  began_other i j pausing f h = refl
  began_other i j ended f h = refl

  beat_other :
      (i j : ℕ) (unlucky : Bool) (now : ℤ) (p : Phase) (f : Fleet program.World)
      → (j == i) ≡ false
      → (beat_in program members p j unlucky now f).runners i ≡ f.runners i
  beat_other i j unlucky now waiting f h = refl
  beat_other i j unlucky now beating f h = rw h
  beat_other i j unlucky now pausing f h = refl
  beat_other i j unlucky now ended f h = refl

  woke_other :
      (i j : ℕ) (p : Phase) (f : Fleet program.World)
      → (j == i) ≡ false
      → (wake_in program members p j f).runners i ≡ f.runners i
  woke_other i j waiting f h = refl
  woke_other i j beating f h = refl
  woke_other i j pausing f h = rw h
  woke_other i j ended f h = refl

  no_beat :
      (i j : ℕ) (unlucky : Bool) (now : ℤ) (p : Phase)
      → (j == i) ≡ false
      → is_beat_of program members i (beat_over j unlucky now) p ≡ 0
  no_beat i j unlucky now waiting h = refl
  no_beat i j unlucky now beating h = rw h
  no_beat i j unlucky now pausing h = refl
  no_beat i j unlucky now ended h = refl

  same_runner :
      (i : ℕ) (f : Fleet program.World) (r : Runner)
      → IsStopping i f
      → r ≡ f.runners i
      → After 0 (rank (f.runners i).phase) r
  same_runner i f r h e = rw e (h.off, omega arith)

  -- Every event that counts brings the end nearer.
  step_lem :
      (i : ℕ) (e : Event) (f : Fleet program.World)
      → IsStopping i f
      → After
          (is_beat_of program members i e (f.runners i).phase)
          (rank (f.runners i).phase)
          ((step program members e f).runners i)
  unfolding step
  step_lem i (began j) f h = elim (Bool-cases (j == i)) [
    | inl own ↦
        subst
          (λ k.
            After 0 (rank (f.runners i).phase)
              ((begin_in program members (f.runners k).phase k f).runners i))
          (sym (same_number j i own)) (began_lem i (f.runners i).phase f refl h)
    | inr other ↦ same_runner i f _ h (began_other i j (f.runners j).phase f other)
  ]
  step_lem i (beat_over j unlucky now) f h = elim (Bool-cases (j == i)) [
    | inl own ↦
        subst
          (λ k.
            After (is_beat_of program members i (beat_over k unlucky now) (f.runners i).phase)
              (rank (f.runners i).phase)
              ((beat_in program members (f.runners k).phase k unlucky now f).runners i))
          (sym (same_number j i own)) (beat_lem i unlucky now (f.runners i).phase f refl h)
    | inr other ↦
        rw (no_beat i j unlucky now (f.runners i).phase other)
          (same_runner i f _ h (beat_other i j unlucky now (f.runners j).phase f other))
  ]
  step_lem i (woke j) f h = elim (Bool-cases (j == i)) [
    | inl own ↦
        subst
          (λ k.
            After 0 (rank (f.runners i).phase)
              ((wake_in program members (f.runners k).phase k f).runners i))
          (sym (same_number j i own)) (woke_lem i (f.runners i).phase f refl h)
    | inr other ↦ same_runner i f _ h (woke_other i j (f.runners j).phase f other)
  ]
  step_lem i timed_out f h = (refl, omega arith)

  step-IsStopping :
      (i : ℕ) (e : Event) (f : Fleet program.World)
      → IsStopping i f
      → IsStopping i (step program members e f)
  step-IsStopping i e f h =
      let after = step_lem i e f h in
      record { off = after.0; has_started = omega (arith, after.1, h.has_started) }

  -- The heartbeats of a simulator that come to their end in a run.
  unfoldable pub beats_of : ℕ → List Event → Fleet program.World → ℕ
  beats_of i [] f = 0
  beats_of i (e ∷ es) f =
      is_beat_of program members i e (f.runners i).phase + beats_of i es (step program members e f)

  run_lem :
      (i : ℕ) (es : List Event) (f : Fleet program.World)
      → IsStopping i f
      → (IsStopping i (run program members es f))
        × (beats_of i es f * 2 + rank ((run program members es f).runners i).phase
            ≤ rank (f.runners i).phase)
  unfolding run beats_of
  run_lem i [] f h = (h, omega arith)
  run_lem i (e ∷ es) f h =
      let (still, fewer) = run_lem i es (step program members e f) (step-IsStopping i e f h) in
      (still, omega (arith, fewer, (step_lem i e f h).1))

  run-append :
      (es es' : List Event) (f : Fleet program.World)
      → run program members (es ++ es') f ≡ run program members es' (run program members es f)
  unfolding run
  run-append [] es' f = refl
  run-append (e ∷ es) es' f = run-append es es' (step program members e f)

  after_beat :
      (i : ℕ) (unlucky : Bool) (now : ℤ) (p : Phase) (f : Fleet program.World)
      → (f.runners i).phase ≡ p
      → IsStopping i f
      → rank ((beat_in program members p i unlucky now f).runners i).phase ≤ 1
  after_beat i unlucky now waiting f e h = absurd (ground (arith, h.has_started))
  after_beat i unlucky now beating f e h = rw (itself i) (omega arith)
  after_beat i unlucky now pausing f e h = rw e (omega arith)
  after_beat i unlucky now ended f e h = rw e (omega arith)

  after_woke :
      (i : ℕ) (p : Phase) (f : Fleet program.World)
      → (f.runners i).phase ≡ p
      → rank p ≤ 1
      → IsStopping i f
      → ((wake_in program members p i f).runners i).phase ≡ ended
  after_woke i waiting f e r h = absurd (omega (arith, r))
  after_woke i beating f e r h = absurd (omega (arith, r))
  after_woke i pausing f e r h = rw (itself i, h.off)
  after_woke i ended f e r h = e

  stop-IsStopping :
      (i : ℕ) (f : Fleet program.World)
      → (f.runners i).phase ≢ waiting
      → IsStopping i (step program members timed_out f)
  unfolding step
  stop-IsStopping i f h = record { off = refl; has_started = at_most (f.runners i).phase h }
    where
      at_most : (p : Phase) → p ≢ waiting → rank p ≤ 3
      at_most waiting h = absurd (h refl)
      at_most beating h = omega arith
      at_most pausing h = omega arith
      at_most ended h = omega arith

  pause_over :
      (i : ℕ) (b c : List Event) (f : Fleet program.World)
      → IsStopping i f
      → rank (f.runners i).phase ≤ 1
      → rank ((run program members (b ++ woke i ∷ c) f).runners i).phase ≤ 0
  unfolding run step
  pause_over i b c f h r =
      let (h1, fewer) = run_lem i b f h in
      let f1 = run program members b f in
      let over = after_woke i (f1.runners i).phase f1 refl (omega (arith, fewer, r)) h1 in
      let last =
        run_lem i c (step program members (woke i) f1) (step-IsStopping i (woke i) f1 h1) in
      let none_left : rank ((step program members (woke i) f1).runners i).phase ≤ 0 =
        rw over (omega arith) in
      rw (run-append b (woke i ∷ c) f) (omega (arith, last.1, none_left))

  both_over :
      (i : ℕ) (a b c : List Event) (unlucky : Bool) (now : ℤ) (f : Fleet program.World)
      → IsStopping i f
      → rank
          ((run program members (a ++ beat_over i unlucky now ∷ (b ++ woke i ∷ c)) f).runners
            i).phase
        ≤ 0
  unfolding run step
  both_over i a b c unlucky now f h =
      let (h1, fewer) = run_lem i a f h in
      let f1 = run program members a f in
      rw (run-append a (beat_over i unlucky now ∷ (b ++ woke i ∷ c)) f) (
        pause_over i b c (step program members (beat_over i unlucky now) f1)
          (step-IsStopping i (beat_over i unlucky now) f1 h1)
          (after_beat i unlucky now (f1.runners i).phase f1 refl h1))

  no_rank : (p : Phase) → rank p ≤ 0 → p ≡ ended
  no_rank waiting h = absurd (omega (arith, h))
  no_rank beating h = absurd (omega (arith, h))
  no_rank pausing h = absurd (omega (arith, h))
  no_rank ended h = refl

-- Once the timer has stopped a fleet, a simulator that has started by then ends at most one more
-- heartbeat, whatever happens; and where one heartbeat of its and one pause after that come to their
-- end, it is at its end, whatever happens before, between and after.
pub stopped-ends :
    (program : Program) (members : ℕ → Member program) (i : ℕ) (f : Fleet program.World)
    → (f.runners i).phase ≢ waiting
    → ((es : List Event) → beats_of program members i es (step program members timed_out f) ≤ 1)
      × ((a b c : List Event) (unlucky : Bool) (now : ℤ)
          → let after =
              run program members
                (timed_out ∷ a ++ beat_over i unlucky now ∷ (b ++ woke i ∷ c))
                f in
            (after.runners i).phase ≡ ended)
unfolding run
stopped-ends program members i f h =
    let stopping = stop-IsStopping program members i f h in
    (
      λ es. omega (
        arith,
        (run_lem program members i es (step program members timed_out f) stopping).1,
        stopping.has_started,
      ),
      λ a b c unlucky now. no_rank program members _ (
          both_over program members i a b c unlucky now (step program members timed_out f)
            stopping),
    )
