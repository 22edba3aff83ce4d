-- ===== src/Scripts/Cluster.antt =====
-- The cluster as routerpulse/scripts/full-lifecycle.ts and web/scripts/verify-operator-flow.ts use
-- it: the transactions that they send, with the arguments that they give, and the fields that they
-- read of its accounts. The lists of accounts of a transaction, whose addresses are derived from
-- the arguments, are left out. Keys and the addresses of routers are read as numbers.
use router_pulse_depin_proto.Common.{
  ℕ, ◌+◌, ◌-◌, ◌*◌, ◌/◌, String, Bool, List, Option, leb, if◌then◌else◌,
}
use router_pulse_depin_proto.Common.Int.{ℤ}

-- The argument of `initializeProtocol`.
pub record ProtocolConfig : Type 0 where
  pub reward_rate : ℕ
  pub penalty_bps : ℕ
  pub heartbeat_interval : ℕ
  pub epoch_duration : ℕ
  pub min_stake : ℕ
  pub stake_lock_duration : ℕ
  pub reward_cliff_duration : ℕ
  pub reward_vesting_duration : ℕ
  pub initial_emission_per_epoch : ℕ
  pub epochs_per_year : ℕ
  pub emission_decay_bps : ℕ
  pub genesis_allocation : ℕ

-- `mint_genesis` says whether the creation of the token account goes before it.
pub data Request : Type 0 where
  initialize_protocol : ProtocolConfig → Request
  mint_genesis : (with_account : Bool) → (amount : ℕ) → Request
  register_router : (router device : ℕ) → Request
  fund : (devices : List ℕ) → (lamports : ℕ) → Request
  stake unstake : (router amount : ℕ) → Request
  heartbeat : (router device epoch : ℕ) → Request
  finalize_router_epoch claim_reward claim_vested slash_router : (router epoch : ℕ) → Request
  burn_treasury : (amount : ℤ) → Request
  rotate_device_key : (router key : ℕ) → Request
  pause_protocol resume_protocol : Request
  update_reward_rate : (rate : ℕ) → Request

pub record ProtocolState : Type 0 where
  pub genesis_time : ℕ
  pub epoch_duration : ℕ
  pub total_minted : ℕ
  pub total_burned : ℕ

pub record RouterState : Type 0 where
  pub owner : ℕ
  pub device_pubkey : ℕ
  pub device_key_version : ℕ

pub record EpochRecord : Type 0 where
  pub reward_amount : ℕ
  pub slash_amount : ℕ

-- A value, or a throw with its message.
pub data Ran {ℓ} (A : Type ℓ) : Type ℓ where
  done : A → Ran A
  threw : String → Ran A

-- `.rpc()`, which waits for the confirmation: a signature, or a throw.
pub data Sent : Type 0 where
  confirmed : (signature : String) → Sent
  refused : (message : String) → Sent

-- The connection, the program's client and the clock, in seconds; `sleep` takes milliseconds. A
-- read takes no time. A transaction that is found is its logs, none where it has none, and
-- `event_names` are those of the events that Anchor's parser yields.
pub record Cluster : Type 1 where
  pub World : Type 0
  pub send : Request → World → World × Sent
  pub now : World → ℕ
  pub sleep : ℕ → World → World
  pub protocol_exists : World → Ran Bool
  pub token_account_exists : World → Ran Bool
  pub owner_balance : World → Ran ℕ
  pub vault_balance : World → Ran ℕ
  pub treasury_balance : World → Ran ℕ
  pub supply : World → Ran ℕ
  pub fetch_protocol : World → Ran ProtocolState
  pub fetch_router : ℕ → World → Ran RouterState
  pub fetch_epoch : ℕ → ℕ → World → Ran EpochRecord
  pub fetch_vesting : ℕ → ℕ → World → Ran ℕ
  pub confirm : String → World → Ran (Unit {0})
  pub find_transaction : String → World → Ran (Option (Option (List String)))
  pub event_names : List String → List String
  pub lower_case : String → String

-- `toBase` of the text of a whole number, as the scripts call it.
abbrev pub to_base : ℕ → ℕ
to_base n = n * 1000000000

abbrev pub heartbeat_interval : ℕ
heartbeat_interval = 60

abbrev pub epoch_duration : ℕ
epoch_duration = 120

-- A twentieth of a SOL, in lamports.
abbrev pub device_lamports : ℕ
device_lamports = 50000000

abbrev pub genesis_config : ProtocolConfig
genesis_config = record {
  reward_rate = 2000000;
  penalty_bps = 500;
  heartbeat_interval = heartbeat_interval;
  epoch_duration = epoch_duration;
  min_stake = to_base 1;
  stake_lock_duration = 0;
  reward_cliff_duration = 5;
  reward_vesting_duration = 60;
  initial_emission_per_epoch = to_base 120;
  epochs_per_year = 262800;
  emission_decay_bps = 1000;
  genesis_allocation = to_base 100000;
}

-- The epoch at a time that is not before the genesis; an epoch lasts.
abbrev pub epoch_at : ProtocolState → ℕ → ℕ
epoch_at p time = (time - p.genesis_time) / p.epoch_duration

-- `Math.max(1, Math.floor(EPOCH_DURATION / HEARTBEAT_INTERVAL))`.
abbrev pub expected : ℕ
expected = let n = epoch_duration / heartbeat_interval in if leb 1 n then n else 1

-- `Math.max(0, (endsAt - now + 3) * 1000)`: three seconds beyond the end of the epoch.
abbrev pub wait_ms : ProtocolState → ℕ → ℕ → ℕ
wait_ms p epoch time = (p.genesis_time + (epoch + 1) * p.epoch_duration + 3 - time) * 1000
