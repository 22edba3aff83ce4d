-- ===== src/Indexer/Reconcile.antt =====
-- indexer/src/reconcile.ts: the chain's accounts are read and written over the projection.
pub mod Refresh
pub mod Drift
pub mod Dashboard
use Prim.Native.String.{◌++◌}
use router_pulse_depin_proto.Common.{
  ℕ, suc, ◌+◌, String, Bool, true, false, not, ◌||◌, Option, none, some, List, [], ◌∷◌,
  ◌++◌ as append, length,
}
use router_pulse_depin_proto.Common.Int.{ℤ, pos}
use router_pulse_depin_proto.Js.{
  Value, undefined, str, num, bool, date, Fields, end, field, strict_eq, to_number,
}
use router_pulse_depin_proto.Mongo.{Doc, Mongo, Update, routers, epochs, protocol}
use Refresh.{refresh}

-- The accounts as Anchor decodes them: keys and big integers by their value.
pub record ProtocolAccount : Type 0 where
  pub authority : ℕ
  pub reward_mint : ℕ
  pub reward_rate : ℕ
  pub penalty_bps : ℕ
  pub heartbeat_interval : ℤ
  pub epoch_duration : ℤ
  pub genesis_time : ℤ
  pub min_stake : ℕ
  pub total_routers : ℕ
  pub total_rewards_distributed : ℕ
  pub total_staked : ℕ
  pub total_slashed : ℕ
  pub total_minted : ℕ
  pub total_burned : ℕ
  pub genesis_allocation : ℕ
  pub genesis_minted : ℕ
  pub is_paused : Bool

pub record RouterAccount : Type 0 where
  pub public_key : ℕ
  pub owner : ℕ
  pub router_id : String
  pub device_pubkey : ℕ
  pub device_key_version : ℕ
  pub status : Fields
  pub uptime_score : ℕ
  pub heartbeat_count : ℕ
  pub missed_heartbeats : ℕ
  pub total_rewards : ℕ
  pub total_penalties : ℕ
  pub staked_amount : ℕ
  pub registered_at : ℤ
  pub last_heartbeat : ℤ

pub record RouterEpochAccount : Type 0 where
  pub router : ℕ
  pub epoch_number : ℕ
  pub heartbeats : ℕ
  pub expected_heartbeats : ℕ
  pub uptime_bps : ℕ
  pub reward_amount : ℕ
  pub slash_amount : ℕ
  pub finalized : Bool
  pub claimed : Bool
  pub slashed : Bool

-- What one pass reads of the chain; no protocol account is a chain that is not initialised.
pub record Chain : Type 0 where
  pub protocol_account : Option ProtocolAccount
  pub all_routers : List RouterAccount
  pub all_epochs : List RouterEpochAccount

-- `Object.keys(account.status)[0]`.
abbrev pub first_key : Fields → Value
first_key end = undefined
first_key (field k v fs) = str k

abbrev pub member : String → Doc → Value
member f d = elim (d f) [ none ↦ undefined | some v ↦ v ]

-- What a pass returns, and the database after it.
pub record Reconciled (D : Type 0) : Type 0 where
  pub routers_seen : ℕ
  pub drifted : ℕ
  pub db : D

-- The printing of BNs and keys is of the libraries.
module _ (bn_to_string : ℤ → String) (to_base58 : ℕ → String) where
  abbrev pub amount : ℕ → Value
  amount n = str (bn_to_string (pos n))

  abbrev signed : ℤ → Value
  signed n = str (bn_to_string n)

  abbrev pub address : ℕ → Value
  address k = str (to_base58 k)

  abbrev pub protocol_fields : ProtocolAccount → List (String × Value)
  protocol_fields a =
      ("authority", address a.authority)
      ∷ ("rewardMint", address a.reward_mint)
      ∷ ("rewardRate", amount a.reward_rate)
      ∷ ("penaltyBps", num (pos a.penalty_bps))
      ∷ ("heartbeatInterval", signed a.heartbeat_interval)
      ∷ ("epochDuration", signed a.epoch_duration)
      ∷ ("genesisTime", signed a.genesis_time)
      ∷ ("minStake", amount a.min_stake)
      ∷ ("totalRouters", amount a.total_routers)
      ∷ ("totalRewardsDistributed", amount a.total_rewards_distributed)
      ∷ ("totalStaked", amount a.total_staked)
      ∷ ("totalSlashed", amount a.total_slashed)
      ∷ ("totalMinted", amount a.total_minted)
      ∷ ("totalBurned", amount a.total_burned)
      ∷ ("genesisAllocation", amount a.genesis_allocation)
      ∷ ("genesisMinted", amount a.genesis_minted)
      ∷ ("isPaused", bool a.is_paused)
      ∷ []

  abbrev pub router_key : RouterAccount → Value
  router_key a = address a.public_key

  -- The `update` of a router, without `reconciledAt`.
  abbrev pub router_fields : RouterAccount → List (String × Value)
  router_fields a =
      ("owner", address a.owner)
      ∷ ("routerId", str a.router_id)
      ∷ ("devicePubkey", address a.device_pubkey)
      ∷ ("deviceKeyVersion", num (pos a.device_key_version))
      ∷ ("status", first_key a.status)
      ∷ ("uptimeScore", num (pos a.uptime_score))
      ∷ ("heartbeatCount", to_number (amount a.heartbeat_count))
      ∷ ("missedHeartbeats", to_number (amount a.missed_heartbeats))
      ∷ ("totalRewards", amount a.total_rewards)
      ∷ ("totalPenalties", amount a.total_penalties)
      ∷ ("stakedAmount", amount a.staked_amount)
      ∷ ("registeredAt", to_number (signed a.registered_at))
      ∷ ("lastHeartbeat", to_number (signed a.last_heartbeat))
      ∷ []

  -- A document that is there and differs in its status or its stake.
  abbrev pub router_drifted : RouterAccount → Option Doc → Bool
  router_drifted a none = false
  router_drifted a (some before) =
      not (strict_eq (member "status" before) (first_key a.status))
      || not (strict_eq (member "stakedAmount" before) (amount a.staked_amount))

  -- `${router}:${epochNumber}`.
  abbrev pub epoch_doc_key : RouterEpochAccount → Value
  epoch_doc_key a = str (to_base58 a.router ++ (":" ++ bn_to_string (pos a.epoch_number)))

  abbrev pub epoch_fields : RouterEpochAccount → List (String × Value)
  epoch_fields a =
      ("router", address a.router)
      ∷ ("epochNumber", amount a.epoch_number)
      ∷ ("heartbeats", num (pos a.heartbeats))
      ∷ ("expectedHeartbeats", num (pos a.expected_heartbeats))
      ∷ ("uptimeBps", num (pos a.uptime_bps))
      ∷ ("rewardAmount", amount a.reward_amount)
      ∷ ("slashAmount", amount a.slash_amount)
      ∷ ("finalized", bool a.finalized)
      ∷ ("claimed", bool a.claimed)
      ∷ ("slashed", bool a.slashed)
      ∷ []

  -- A document that is missing, or differs in `finalized` or in its reward.
  abbrev pub epoch_drifted : RouterEpochAccount → Option Doc → Bool
  epoch_drifted a none = true
  epoch_drifted a (some before) =
      not (strict_eq (member "finalized" before) (bool a.finalized))
      || not (strict_eq (member "rewardAmount" before) (amount a.reward_amount))

  module _ (m : Mongo) (now : ℕ) where
    open m use {Db, update_one}

    abbrev reconciled_at : List (String × Value)
    reconciled_at = ("reconciledAt", date now) ∷ []

    -- The loops over the routers and over the epochs.
    unfoldable pub reconcile_routers : List RouterAccount → ℕ → Db → ℕ × Db
    reconcile_routers = refresh m routers router_key router_fields router_drifted now

    unfoldable pub reconcile_epochs : List RouterEpochAccount → ℕ → Db → ℕ × Db
    reconcile_epochs = refresh m epochs epoch_doc_key epoch_fields epoch_drifted now

    abbrev pub protocol_update : ProtocolAccount → Update
    protocol_update a = record {
      set = append (protocol_fields a) reconciled_at;
      inc = [];
      set_on_insert = [];
    }

    abbrev pub passes : Chain → Db → Reconciled Db
    passes chain db =
        let (drifted, db1) = reconcile_routers chain.all_routers 0 db in
        let (epochs_drifted, db2) = reconcile_epochs chain.all_epochs 0 db1 in
        record {
          routers_seen = length chain.all_routers;
          drifted = drifted + epochs_drifted;
          db = db2;
        }

    abbrev pub on_protocol : Option ProtocolAccount → Chain → Db → Reconciled Db
    on_protocol none chain db = record { routers_seen = 0; drifted = 0; db = db }
    on_protocol (some account) chain db =
        passes chain (update_one protocol (str "protocol") (protocol_update account) db)

    unfoldable pub reconcile_once : Chain → Db → Reconciled Db
    unfolding reconcile_routers reconcile_epochs
    reconcile_once chain db = on_protocol chain.protocol_account chain db
