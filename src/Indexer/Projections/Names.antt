-- ===== src/Indexer/Projections/Names.antt =====
-- The event names that projections.ts handles.
use router_pulse_depin_proto.Common.{String, str_eq, if◌then◌else◌}

pub data EventName : Type 0 where
  router_registered device_key_rotated heartbeat_received router_suspended : EventName
  penalty_applied collateral_staked collateral_unstaked router_slashed : EventName
  router_epoch_finalized reward_claimed vested_reward_claimed : EventName
  router_reinstated router_decommissioned protocol_paused protocol_resumed other : EventName

-- The labels of the `switch`; `other` is its `default`.
unfoldable pub event_name : String → EventName
event_name s =
    if str_eq s "RouterRegistered"
    then router_registered
    else if str_eq s "DeviceKeyRotated"
    then device_key_rotated
    else if str_eq s "HeartbeatReceived"
    then heartbeat_received
    else if str_eq s "RouterSuspended"
    then router_suspended
    else if str_eq s "PenaltyApplied"
    then penalty_applied
    else if str_eq s "CollateralStaked"
    then collateral_staked
    else if str_eq s "CollateralUnstaked"
    then collateral_unstaked
    else if str_eq s "RouterSlashed"
    then router_slashed
    else if str_eq s "RouterEpochFinalized"
    then router_epoch_finalized
    else if str_eq s "RewardClaimed"
    then reward_claimed
    else if str_eq s "VestedRewardClaimed"
    then vested_reward_claimed
    else if str_eq s "RouterReinstated"
    then router_reinstated
    else if str_eq s "RouterDecommissioned"
    then router_decommissioned
    else if str_eq s "ProtocolPaused"
    then protocol_paused
    else if str_eq s "ProtocolResumed"
    then protocol_resumed
    else other
