-- ===== src/Simulator/Router/Stopping.antt =====
-- A simulator that was stopped stays so, whatever its heartbeat comes to.
use router_pulse_depin_proto.Common.{
  ℕ, zero, suc, String, Bool, true, false, ◌≡◌, refl, Bool-cases, inl, inr, Option, none, some,
  if◌then◌else◌,
}
use router_pulse_depin_proto.Common.Int.{ℤ}
use router_pulse_depin_proto.Simulator.Acts.{
  Instruction, Ran, done, threw, Program, Sim, Act, pure, throw, bind, caught, read, call, noted,
}
use router_pulse_depin_proto.Simulator.Router.{
  ensure_staked, vest, settled, crank, is_settled, if_heartbeats, maybe_settle, counted, beat,
  recover, send_heartbeat, stopped, after_turn,
}

module _ (program : Program) (device : ℕ) where
  record StaysStopped {A : Type 0} (act : Act program A) : Type 0 where
    at : (s : Sim program.World) → s.running ≡ false → (act s).1.running ≡ false

  stays-pure : {A : Type 0} (a : A) → StaysStopped (pure program a)
  stays-pure a = record { at = λ s h. h }

  stays-throw : {A : Type 0} (e : String) → StaysStopped (throw program {A = A} e)
  stays-throw e = record { at = λ s h. h }

  stays-read : {A : Type 0} (f : program.World → Ran A) → StaysStopped (read program f)
  stays-read f = record { at = λ s h. h }

  noted_lem :
      (i : Instruction) (r : program.World × Option String) (s : Sim program.World)
      → s.running ≡ false
      → (noted program i r s).1.running ≡ false
  noted_lem i (w, none) s h = h
  noted_lem i (w, some e) s h = h

  stays-call : (i : Instruction) → StaysStopped (call program i)
  stays-call i = record { at = λ s h. noted_lem i (program.send i s.world) s h }

  continued_lem :
      {A B : Type 0} (r : Ran A × Sim program.World) (k : A → Act program B)
      → r.1.running ≡ false
      → ((a : A) → StaysStopped (k a))
      → (bind program (λ s. r) k r.1).1.running ≡ false
  continued_lem (done a, s) k h hk = (hk a).at s h
  continued_lem (threw e, s) k h hk = h

  stays-bind :
      {A B : Type 0} (f : Act program A) (k : A → Act program B)
      → StaysStopped f
      → ((a : A) → StaysStopped (k a))
      → StaysStopped (bind program f k)
  stays-bind f k hf hk = record { at = λ s h. continued_lem (f s) k (hf.at s h) hk }

  handled_lem :
      {A : Type 0} (r : Ran A × Sim program.World) (k : String → Act program A)
      → r.1.running ≡ false
      → ((e : String) → StaysStopped (k e))
      → (caught program (λ s. r) k r.1).1.running ≡ false
  handled_lem (done a, s) k h hk = h
  handled_lem (threw e, s) k h hk = (hk e).at s h

  stays-caught :
      {A : Type 0} (f : Act program A) (k : String → Act program A)
      → StaysStopped f
      → ((e : String) → StaysStopped (k e))
      → StaysStopped (caught program f k)
  stays-caught f k hf hk = record { at = λ s h. handled_lem (f s) k (hf.at s h) hk }

  stays-if :
      {A : Type 0} (b : Bool) (f g : Act program A)
      → StaysStopped f
      → StaysStopped g
      → StaysStopped (if b then f else g)
  stays-if true f g hf hg = hf
  stays-if false f g hf hg = hg

  stays-settled : (n : ℕ) → StaysStopped (settled program device n)
  stays-settled n = record { at = λ s h. h }

  stays-counted : StaysStopped (counted program device)
  stays-counted = record { at = λ s h. h }

  stays-stopped : StaysStopped (stopped program device)
  stays-stopped = record { at = λ s h. refl }

  ruleset stays = (
    stays-pure, stays-throw, stays-read, stays-call, stays-bind, stays-caught, stays-if,
    stays-settled, stays-counted, stays-stopped,
  )

  ensure_staked-stays : StaysStopped (ensure_staked program device)
  unfolding ensure_staked
  ensure_staked-stays = search stays depth 30

  vest-stays : (n : ℕ) (b : Bool) → StaysStopped (vest program device n b)
  vest-stays n b = search stays depth 30

  crank-stays : (n : ℕ) → StaysStopped (crank program device n)
  unfolding crank
  crank-stays n = search (stays, vest-stays) depth 30

  recover-stays : (e : String) → StaysStopped (recover program device e)
  unfolding recover
  recover-stays e = search (stays, ensure_staked-stays) depth 30

  if_heartbeats-stays : (n : ℕ) (b : Bool) → StaysStopped (if_heartbeats program device n b)
  if_heartbeats-stays n b = search (stays, crank-stays) depth 30

  maybe_settle-stays : (n : ℕ) → StaysStopped (maybe_settle program device n)
  unfolding maybe_settle
  maybe_settle-stays zero = record { at = λ s h. h }
  maybe_settle-stays (suc n) = record {
    at = λ s h. elim (Bool-cases (is_settled program device n s.last_finalized)) [
      | inl already ↦ rw already h
      | inr open_epoch ↦
          let tried : StaysStopped _ =
            stays-bind (read program (program.epoch_exists n)) (if_heartbeats program device n)
              (stays-read (program.epoch_exists n)) (if_heartbeats-stays n) in
          rw open_epoch (tried.at s h)
    ];
  }

  beat-stays : (now : ℤ) → StaysStopped (beat program device now)
  unfolding beat
  beat-stays now = search (stays, maybe_settle-stays) depth 30

  send_heartbeat-stays :
      (unlucky : Bool) (now : ℤ) → StaysStopped (send_heartbeat program device unlucky now)
  unfolding send_heartbeat
  send_heartbeat-stays true now = record { at = λ s h. h }
  send_heartbeat-stays false now = search (stays, beat-stays, recover-stays) depth 30

  after_turn-stopped :
      (r : Ran Bool × Sim program.World)
      → r.1.running ≡ false
      → (after_turn program device r).running ≡ false
  after_turn-stopped (done b, s) h = h
  after_turn-stopped (threw e, s) h = h

  pub turn-stopped :
      (unlucky : Bool) (now : ℤ) (s : Sim program.World)
      → s.running ≡ false
      → (after_turn program device (send_heartbeat program device unlucky now s)).running ≡ false
  turn-stopped unlucky now s h =
      after_turn-stopped (send_heartbeat program device unlucky now s)
        ((send_heartbeat-stays unlucky now).at s h)
