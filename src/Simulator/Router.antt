-- ===== src/Simulator/Router.antt =====
-- routerpulse/simulator/src/router.ts: one simulated router.
pub mod Stopping
pub mod Collateral
pub mod Counts
pub mod Stable
use router_pulse_depin_proto.Common.{
  ℕ, zero, suc, ◌+◌, ◌-◌, ◌==◌, ◌&&◌, String, Bool, true, false, not, Option, none, some, List, [],
  ◌∷◌, ltb, leb, if◌then◌else◌,
}
use router_pulse_depin_proto.Common.Int.{ℤ}
use router_pulse_depin_proto.Indexer.Retry.{includes}
use router_pulse_depin_proto.Api.Protocol.{current_epoch_number}
use router_pulse_depin_proto.Simulator.Acts.{
  Instruction, transfer, register_router, rotate_device_key, stake, heartbeat,
  finalize_router_epoch, slash_router, claim_reward, claim_vested, Protocol, Account, RouterEpoch,
  Ran, done, threw, Program, Sim, Act, pure, throw, bind, caught, read, call,
}

-- In lamports: 0.02 and 0.005 SOL.
abbrev pub device_fund_lamports : ℕ
device_fund_lamports = 20000000

abbrev pub device_min_lamports : ℕ
device_min_lamports = 5000000

-- `device` is the key of the simulated device.
module _ (program : Program) (device : ℕ) where
  open program use {
    World, balance, router_exists, fetch_router, fetch_protocol, epoch_exists, fetch_epoch,
    vesting_exists,
  }

  abbrev top_up : ℕ → Act program Unit
  top_up b =
      if leb device_min_lamports b
      then pure program tt
      else call program (transfer (device_fund_lamports - b))

  unfoldable pub fund_device : Act program Unit
  fund_device = bind program (read program balance) top_up

  abbrev rotated_to : Option ℕ → Act program Unit
  rotated_to none = throw program "Router account has no devicePubkey"
  rotated_to (some key) =
      if key == device then pure program tt else call program (rotate_device_key device)

  -- The branch of a router that is registered already.
  abbrev attach : Act program Unit
  attach = bind program (read program fetch_router) (λ router. rotated_to router.device_pubkey)

  abbrev collateral : Protocol → Account → Act program Unit
  collateral protocol router =
      if leb protocol.min_stake router.staked_amount
      then pure program tt
      else call program (stake (protocol.min_stake - router.staked_amount))

  unfoldable pub ensure_staked : Act program Unit
  ensure_staked =
      bind program (read program fetch_protocol) (λ protocol.
        bind program (read program fetch_router) (λ router. collateral protocol router))

  unfoldable pub register : Act program Unit
  unfolding fund_device ensure_staked
  register = bind program (read program router_exists) (λ existing.
      bind program fund_device (λ funded.
        bind program (if existing then attach else call program register_router)
          (λ registered. ensure_staked)))

  -- The steps of a settlement, each of the previous epoch.
  module _ (previous : ℕ) where
    abbrev finalized_record : RouterEpoch → Act program RouterEpoch
    finalized_record epoch =
        if epoch.finalized
        then pure program epoch
        else bind program (call program (finalize_router_epoch previous))
            (λ sent. read program (fetch_epoch previous))

    abbrev slash : RouterEpoch → Act program Unit
    slash epoch =
        if ltb 0 epoch.slash_amount && not epoch.slashed
        then call program (slash_router previous)
        else pure program tt

    abbrev claim : RouterEpoch → Act program Unit
    claim epoch =
        if ltb 0 epoch.reward_amount && not epoch.claimed
        then call program (claim_reward previous)
        else pure program tt

    abbrev vest : Bool → Act program Unit
    vest exists =
        if exists
        then caught program (call program (claim_vested previous))
            (λ e. if includes e "NothingVested" then pure program tt else throw program e)
        else pure program tt

    abbrev settled : Act program Unit
    settled s = (done tt, record s { last_finalized = some previous })

    unfoldable pub crank : Act program Unit
    crank = bind program (read program (fetch_epoch previous)) (λ found.
        bind program (finalized_record found) (λ epoch. bind program (slash epoch) (λ slashed.
          bind program (claim epoch) (λ claimed.
            bind program (read program (vesting_exists previous))
              (λ exists. bind program (vest exists) (λ vested. settled))))))

  abbrev is_settled : ℕ → Option ℕ → Bool
  is_settled previous none = false
  is_settled previous (some n) = n == previous

  abbrev if_heartbeats : ℕ → Bool → Act program Unit
  if_heartbeats previous exists =
      if exists then caught program (crank previous) (λ e. pure program tt) else pure program tt

  -- `maybeSettlePreviousEpoch`.
  unfoldable pub maybe_settle : ℕ → Act program Unit
  unfolding crank
  maybe_settle zero s = (done tt, s)
  maybe_settle (suc previous) s =
      if is_settled previous s.last_finalized
      then (done tt, s)
      else bind program (read program (epoch_exists previous)) (if_heartbeats previous) s

  abbrev counted : Act program Unit
  counted s = (done tt, record s { heartbeat_count = suc s.heartbeat_count })

  -- The `try` block of `sendHeartbeat`, at the second `now`.
  unfoldable pub beat : ℤ → Act program Bool
  unfolding maybe_settle
  beat now = bind program (read program fetch_protocol) (λ protocol.
      let epoch = current_epoch_number protocol.genesis_time protocol.epoch_duration now in
      bind program (call program (heartbeat epoch)) (λ sent. bind program counted (λ beaten.
        bind program (read program fetch_router)
          (λ router. bind program (maybe_settle epoch) (λ tried. pure program true)))))

  abbrev stopped : Act program Bool
  stopped s = (done false, record s { running = false })

  -- Its `catch`; the other messages are only logged.
  unfoldable pub recover : String → Act program Bool
  unfolding ensure_staked
  recover e =
      if includes e "RouterSuspended"
      then stopped
      else if includes e "HeartbeatTooSoon"
      then pure program false
      else if includes e "ProtocolPaused"
      then pure program false
      else if includes e "InsufficientStake"
      then bind program ensure_staked (λ staked. pure program false)
      else pure program false

  abbrev missed : Act program Bool
  missed s = (done false, record s { missed_count = suc s.missed_count })

  -- `unlucky` is `Math.random() < failRate`.
  unfoldable pub send_heartbeat : Bool → ℤ → Act program Bool
  unfolding beat recover
  send_heartbeat unlucky now = if unlucky then missed else caught program (beat now) recover

  -- A throw of `sendHeartbeat` counts as a miss.
  abbrev pub after_turn : Ran Bool × Sim World → Sim World
  after_turn (done b, s) = s
  after_turn (threw e, s) = record s { missed_count = suc s.missed_count }

  -- The loop of `start`, over the draws and the times of its turns.
  unfoldable pub run_turns : List (Bool × ℤ) → Sim World → Sim World
  unfolding send_heartbeat
  run_turns [] s = s
  run_turns ((unlucky, now) ∷ turns) s =
      let rest = run_turns turns (after_turn (send_heartbeat unlucky now s)) in
      if s.running then rest else s

  unfoldable pub start : List (Bool × ℤ) → Sim World → Sim World
  unfolding run_turns
  start turns s = run_turns turns (record s { running = true })
