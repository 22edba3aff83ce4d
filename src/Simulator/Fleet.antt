-- ===== src/Simulator/Fleet.antt =====
-- routerpulse/simulator/src/index.ts: the operator's wallet is topped up, and the routers of the
-- fleet are registered one after the other. The heartbeats that follow run in parallel, each as
-- Simulator/Router has them.
pub mod Collateral
use router_pulse_depin_proto.Common.{
  ℕ, suc, ◌+◌, ◌-◌, ◌*◌, String, Bool, true, false, Option, List, [], ◌∷◌, length, ltb,
  if◌then◌else◌,
}
use router_pulse_depin_proto.Simulator.Acts.{
  Instruction, mint_genesis, Account, RouterEpoch, Protocol, Ran, Program, Sim, Act, pure, bind,
  read, call,
}
use router_pulse_depin_proto.Simulator.Router.{register}

-- A router of the fleet as the one cluster shows it: its device, its accounts and its transactions.
pub record Member (program : Program) : Type 0 where
  pub device : ℕ
  pub device_balance : program.World → Ran ℕ
  pub is_there : program.World → Ran Bool
  pub account : program.World → Ran Account
  pub has_epoch : ℕ → program.World → Ran Bool
  pub epoch : ℕ → program.World → Ran RouterEpoch
  pub has_vesting : ℕ → program.World → Ran Bool
  pub submit : Instruction → program.World → program.World × Option String

module _ (program : Program) where
  -- The client as the simulator of a member uses it.
  abbrev pub client_of : Member program → Program
  client_of v = record program {
    balance = v.device_balance;
    router_exists = v.is_there;
    fetch_router = v.account;
    epoch_exists = v.has_epoch;
    fetch_epoch = v.epoch;
    vesting_exists = v.has_vesting;
    send = v.submit;
  }

  -- The wallet holds too little: the authority mints the shortfall, any other wallet goes on.
  abbrev pub shortfall_minted : Bool → ℕ → ℕ → Act program Unit
  shortfall_minted is_authority required balance =
      if ltb balance required
      then (if is_authority
          then call program (mint_genesis (required - balance))
          else pure program tt)
      else pure program tt

  unfoldable pub top_up_wallet : Bool → ℕ → Protocol → Act program Unit
  top_up_wallet is_authority routers protocol =
      bind program (read program program.token_balance)
        (shortfall_minted is_authority (protocol.min_stake * (routers + 1)))

  abbrev pub register_member : Member program → Act program Unit
  register_member v s = register (client_of v) v.device s

  -- The loop over the simulators; a throw of one ends the process.
  unfoldable pub register_all : List (Member program) → Act program Unit
  register_all [] = pure program tt
  register_all (v ∷ vs) = bind program (register_member v) (λ there. register_all vs)

  -- `main` up to the first heartbeat.
  unfoldable pub prepare : Bool → List (Member program) → Act program Unit
  unfolding top_up_wallet register_all
  prepare is_authority vs = bind program (read program program.fetch_protocol) (λ protocol.
      bind program (top_up_wallet is_authority (length vs) protocol) (λ paid. register_all vs))
