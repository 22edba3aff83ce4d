-- ===== src/Scripts/Seed.antt =====
-- routerpulse/scripts/seed-claimable.ts: an epoch that is finalized and left unclaimed.
-- The pauses between transactions are left out, and the id in the message of its throw.
pub mod Opening
pub mod Order
use router_pulse_depin_proto.Common.{
  ℕ, zero, suc, ◌-◌, ◌/◌, ◌==◌, String, Bool, true, false, not, ltb, leb, if◌then◌else◌,
}
use router_pulse_depin_proto.Common.Int.{ℤ, pos, negsuc, pos_part, ◌-ℤ◌}
use router_pulse_depin_proto.Simulator.Acts.{
  Instruction, transfer, create_token_account, register_router, mint_genesis, stake, heartbeat,
  finalize_router_epoch, Protocol, RouterEpoch, Program, Act, pure, throw, bind, caught, read, call,
}

-- A twentieth of a SOL, in lamports.
abbrev pub device_lamports : ℕ
device_lamports = 50000000

-- `epNow`: the clock is not behind the genesis time, and an epoch lasts.
abbrev pub epoch_now : Protocol → ℤ → ℕ
epoch_now p now = pos_part (now -ℤ p.genesis_time) / pos_part p.epoch_duration

-- `Math.max(1, Math.floor(EPOCH_DURATION / HEARTBEAT_INTERVAL))`, of an interval above 0.
abbrev pub expected_beats : Protocol → ℕ → ℕ
expected_beats p interval = let n = pos_part p.epoch_duration / interval in if leb 1 n then n else 1

module _ (program : Program) where
  open program use {
    World, router_exists, fetch_protocol, fetch_epoch, token_balance, heartbeat_interval,
  }

  -- `getAccount`, and in its `catch` the creation of the token account.
  unfoldable pub with_token_account : Act program Unit
  with_token_account =
      caught program (bind program (read program token_balance) (λ balance. pure program tt))
        (λ e. call program create_token_account)

  -- The shortfall is minted, and the balance is read again.
  abbrev minted : ℕ → ℕ → Act program Unit
  minted need balance =
      if ltb balance need
      then bind program (call program (mint_genesis (need - balance)))
          (λ sent. bind program (read program token_balance) (λ after. pure program tt))
      else pure program tt

  unfoldable pub funded : ℕ → Act program Unit
  funded need = bind program (read program token_balance) (minted need)

  abbrev unless_there : Bool → Act program Unit
  unless_there existing =
      if existing then throw program "router already exists" else call program register_router

  unfoldable pub registered : Act program Unit
  registered = bind program (read program router_exists) unless_there

  -- The loop over the heartbeats of an epoch.
  unfoldable pub beats : ℕ → ℕ → Act program Unit
  beats zero epoch = pure program tt
  beats (suc n) epoch = bind program (call program (heartbeat epoch)) (λ sent. beats n epoch)

  -- The finalized record: a reward of 0 is exit code 1.
  unfoldable pub closed : ℕ → Act program Bool
  closed epoch = bind program (call program (finalize_router_epoch epoch)) (λ sent.
      bind program (read program (fetch_epoch epoch))
        (λ e. pure program (not (e.reward_amount == 0))))

  -- `main`, from the protocol that it reads; `now` is the time at which the heartbeats begin.
  abbrev pub seeded : ℤ → Protocol → ℕ → Act program Bool
  seeded now p interval = bind program with_token_account (λ ready.
      bind program (funded p.min_stake) (λ paid. bind program registered (λ there.
        bind program (call program (transfer device_lamports)) (λ fuelled.
          bind program (call program (stake p.min_stake)) (λ staked.
            bind program (beats (expected_beats p interval) (epoch_now p now))
              (λ beaten. closed (epoch_now p now)))))))

  unfoldable pub main : ℤ → Act program Bool
  unfolding with_token_account funded registered beats closed
  main now =
      bind program (read program fetch_protocol)
        (λ p. bind program (read program heartbeat_interval) (λ interval. seeded now p interval))
