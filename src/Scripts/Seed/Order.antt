-- ===== src/Scripts/Seed/Order.antt =====
-- The transactions that seed-claimable.ts confirms, in their order.
use mathlib.Core.Path.{subst}
use router_pulse_depin_proto.Common.{ℕ, zero, suc, List, [], ◌∷◌, ◌++◌, ◌≡◌, refl, ap}
use router_pulse_depin_proto.Common.Int.{ℤ}
use router_pulse_depin_proto.Simulator.Acts.{
  Instruction, transfer, register_router, stake, heartbeat, finalize_router_epoch, Protocol, done,
  Program, Sim, call,
}
use router_pulse_depin_proto.Simulator.Triples.{After, Triple, bind-Triple, if-Triple, call-Triple}
use router_pulse_depin_proto.Scripts.Seed.{
  device_lamports, epoch_now, expected_beats, registered, beats, closed, seeded, main,
}
use router_pulse_depin_proto.Scripts.Seed.Opening.{
  Any, Above, read-Above, Ready, account-Ready, funded-Above,
}

abbrev pub repeated : ℕ → Instruction → List Instruction
repeated zero i = []
repeated (suc n) i = i ∷ repeated n i

repeated-snoc :
    (n : ℕ) (i : Instruction) (is : List Instruction)
    → repeated n i ++ i ∷ is ≡ repeated (suc n) i ++ is
repeated-snoc zero i is = refl
repeated-snoc (suc n) i is = ap (λ l. i ∷ l) (repeated-snoc n i is)

module _ (program : Program) (p : Protocol) (origin : program.World)
    (before : List Instruction) where
  abbrev Over : List Instruction → Sim program.World → Type 0
  Over = Above program p origin before

  abbrev Anyhow : Sim program.World → Type 0
  Anyhow = Any program p origin before

  step-Above :
      (i : Instruction) (is : List Instruction)
      → Triple program (Over is) (call program i) (Over (i ∷ is)) Anyhow
  step-Above i is =
      call-Triple program (Over is) (Over (i ∷ is)) Anyhow i
        (λ s w h. (h.0, h.1, ap (λ l. i ∷ l) h.2)) (λ s w h. tt)

  registered-Above :
      Triple program (Over []) (registered program) (Over (register_router ∷ [])) Anyhow
  unfolding registered
  registered-Above =
      bind-Triple program (Over []) (Over []) (Over (register_router ∷ [])) Anyhow _ _
        (read-Above program p origin before [] program.router_exists)
        (λ existing.
          if-Triple program (Over []) (Over (register_router ∷ [])) Anyhow existing _ _ (λ s h. tt)
            (step-Above register_router []))

  beats-Above :
      (n e : ℕ) (is : List Instruction)
      → Triple program (Over is) (beats program n e) (Over (repeated n (heartbeat e) ++ is)) Anyhow
  unfolding beats
  beats-Above zero e is = λ s h. h
  beats-Above (suc n) e is =
      bind-Triple program (Over is) (Over (heartbeat e ∷ is)) _ Anyhow _ _
        (step-Above (heartbeat e) is)
        (λ sent.
          subst (λ l. Triple program (Over (heartbeat e ∷ is)) (beats program n e) (Over l) Anyhow)
            (repeated-snoc n (heartbeat e) is) (beats-Above n e (heartbeat e ∷ is)))

  closed-Above :
      (e : ℕ) (is : List Instruction)
      → Triple program (Over is) (closed program e) (Over (finalize_router_epoch e ∷ is)) Anyhow
  unfolding closed
  closed-Above e is =
      bind-Triple program (Over is) (Over (finalize_router_epoch e ∷ is)) _ Anyhow _ _
        (step-Above (finalize_router_epoch e) is)
        (λ sent.
          bind-Triple program (Over (finalize_router_epoch e ∷ is))
            (Over (finalize_router_epoch e ∷ is)) (Over (finalize_router_epoch e ∷ is)) Anyhow _ _
            (read-Above program p origin before (finalize_router_epoch e ∷ is)
              (program.fetch_epoch e))
            (λ r s h. h))

  abbrev Begins : Sim program.World → Type 0
  Begins s = (s.world ≡ origin) × (s.confirmed ≡ before)

  module _ (now : ℤ) (interval : ℕ) where
    abbrev staked_part : List Instruction
    staked_part = stake p.min_stake ∷ transfer device_lamports ∷ register_router ∷ []

    abbrev beaten_part : List Instruction
    beaten_part = repeated (expected_beats p interval) (heartbeat (epoch_now p now)) ++ staked_part

    -- Everything that the script confirms, the latest first.
    abbrev pub seed_order : List Instruction
    seed_order = finalize_router_epoch (epoch_now p now) ∷ beaten_part

    seeded-Above : Triple program Begins (seeded program now p interval) (Over seed_order) Anyhow
    seeded-Above =
        bind-Triple program Begins (Ready program p origin before) (Over seed_order) Anyhow _ _
          (λ s h. account-Ready program p origin before s h.0 h.1)
          (λ ready.
            bind-Triple program (Ready program p origin before) (Over []) (Over seed_order) Anyhow _
              _ (funded-Above program p origin before)
              (λ paid.
                bind-Triple program (Over []) (Over (register_router ∷ [])) (Over seed_order) Anyhow
                  _ _ registered-Above
                  (λ there.
                    bind-Triple program (Over (register_router ∷ []))
                      (Over (transfer device_lamports ∷ register_router ∷ [])) (Over seed_order)
                      Anyhow _ _ (step-Above (transfer device_lamports) (register_router ∷ []))
                      (λ fuelled.
                        bind-Triple program (Over (transfer device_lamports ∷ register_router ∷ []))
                          (Over staked_part) (Over seed_order) Anyhow _ _
                          (step-Above (stake p.min_stake)
                            (transfer device_lamports ∷ register_router ∷ []))
                          (λ staked.
                            bind-Triple program (Over staked_part) (Over beaten_part)
                              (Over seed_order) Anyhow _ _
                              (beats-Above (expected_beats p interval) (epoch_now p now)
                                staked_part)
                              (λ beaten. closed-Above (epoch_now p now) beaten_part))))))

-- A run of the script that comes to its end has confirmed, in this order: a token account, exactly if
-- the first read of the operator's balance throws; a genesis mint, exactly if the balance that is read
-- then is below the minimum stake, and of just what it lacks; the registration, the funding of the
-- device, a stake of exactly the minimum, as many heartbeats as an epoch expects, all for one epoch,
-- and the finalization of that epoch. It confirms nothing else, so the epoch is left unclaimed.
pub main-confirms :
    (program : Program) (s : Sim program.World) (now : ℤ) (p : Protocol) (interval : ℕ)
    → program.fetch_protocol s.world ≡ done p
    → program.heartbeat_interval s.world ≡ done interval
    → After program
        (Above program p s.world s.confirmed
          (seed_order program p s.world s.confirmed now interval))
        (λ t. Unit)
        (main program now s)
unfolding main
main-confirms program s now p interval e f =
    rw (e, f) (seeded-Above program p s.world s.confirmed now interval s (refl, refl))
