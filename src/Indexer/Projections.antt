-- ===== src/Indexer/Projections.antt =====
-- indexer/src/projections.ts: the update of the derived collections by one decoded event.
-- A case of the `switch` is a list of awaited upserts, in order, which are taken to succeed: the only
-- throw is that of `new PublicKey(owner)`, which comes before any of them. An `updateOne` that the
-- driver fails is left out; the code catches its throw for each event too, and between the two
-- updates of a slashing it would leave the first.
pub mod Names
pub mod Replay
pub mod Status
pub mod Frame
use Prim.Native.String.{◌++◌}
use mathlib.Core.Option
use router_pulse_depin_proto.Common.{
  ℕ, zero, String, Bool, true, false, Option, none, some, List, [], ◌∷◌,
}
use router_pulse_depin_proto.Common.Int.{pos}
use router_pulse_depin_proto.Js.{Value, str, num, bool, date, prop, to_number, key_text}
use router_pulse_depin_proto.Mongo.{Collection, routers, epochs, protocol, Update, Mongo}
use router_pulse_depin_proto.Mongo.Laws.{Write, run_writes}
use router_pulse_depin_proto.Indexer.EventParser.{DecodedEvent}
use Names.{
  EventName, event_name, router_registered, device_key_rotated, heartbeat_received,
  router_suspended, penalty_applied, collateral_staked, collateral_unstaked, router_slashed,
  router_epoch_finalized, reward_claimed, vested_reward_claimed, router_reinstated,
  router_decommissioned, protocol_paused, protocol_resumed, other,
}

-- An upsert that only sets fields.
abbrev pub set_fields : Collection → Value → List (String × Value) → Write
set_fields c i fields = record {
  collection = c;
  id = i;
  update = record { set = fields; inc = []; set_on_insert = [] };
}

-- `${router}:${epoch_number}`.
abbrev pub epoch_key : Value → Value → Value
epoch_key router epoch = str (key_text router ++ (":" ++ key_text epoch))

module _ (now : ℕ) (d : Value) where
  abbrev registered : Value → Write
  registered router = record {
    collection = routers;
    id = router;
    update = record {
      set =
          ("owner", prop "owner" d)
          ∷ ("routerId", prop "router_id" d)
          ∷ ("devicePubkey", prop "device_pubkey" d)
          ∷ ("deviceKeyVersion", num (pos 0))
          ∷ ("locationLat", prop "location_lat" d)
          ∷ ("locationLong", prop "location_long" d)
          ∷ ("registeredAt", to_number (prop "timestamp" d))
          ∷ ("status", str "inactive")
          ∷ ("uptimeScore", num (pos 100))
          ∷ ("heartbeatCount", num (pos 0))
          ∷ ("stakedAmount", str "0")
          ∷ ("updatedAt", date now)
          ∷ [];
      inc = [];
      set_on_insert = ("firstIndexedAt", date now) ∷ [];
    };
  }

  abbrev rotated : Value → Write
  rotated router = set_fields routers router (
      ("devicePubkey", prop "new_device_pubkey" d)
      ∷ ("deviceKeyVersion", to_number (prop "device_key_version" d))
      ∷ ("updatedAt", date now)
      ∷ [])

  abbrev beaten : Value → Write
  beaten router = record {
    collection = routers;
    id = router;
    update = record {
      set =
          ("lastHeartbeat", to_number (prop "timestamp" d))
          ∷ ("uptimeScore", to_number (prop "uptime_score" d))
          ∷ ("status", str "active")
          ∷ ("updatedAt", date now)
          ∷ [];
      inc = ("heartbeatCount", 1) ∷ [];
      set_on_insert = [];
    };
  }

  abbrev suspended : Value → Write
  suspended router = set_fields routers router (
      ("status", str "suspended")
      ∷ ("uptimeScore", to_number (prop "uptime_score" d))
      ∷ ("updatedAt", date now)
      ∷ [])

  abbrev penalised : Value → Write
  penalised router =
      set_fields routers router
        (("uptimeScore", to_number (prop "uptime_score" d)) ∷ ("updatedAt", date now) ∷ [])

  abbrev staked : Value → Write
  staked amount =
      set_fields routers (prop "router" d) (("stakedAmount", amount) ∷ ("updatedAt", date now) ∷ [])

  abbrev of_epoch : Value → List (String × Value) → Write
  of_epoch router fields =
      set_fields epochs (epoch_key router (prop "epoch_number" d))
        (("router", router) ∷ ("epochNumber", prop "epoch_number" d) ∷ fields)

  abbrev slashed : Write
  slashed = of_epoch (prop "router" d) (
      ("slashed", bool true)
      ∷ ("slashedAmount", prop "amount" d)
      ∷ ("slashedAt", to_number (prop "timestamp" d))
      ∷ [])

  abbrev finalized : Write
  finalized = of_epoch (prop "router" d) (
      ("heartbeats", to_number (prop "heartbeats" d))
      ∷ ("expectedHeartbeats", to_number (prop "expected_heartbeats" d))
      ∷ ("uptimeBps", to_number (prop "uptime_bps" d))
      ∷ ("rewardMultiplierBps", to_number (prop "reward_multiplier_bps" d))
      ∷ ("rewardAmount", prop "reward_amount" d)
      ∷ ("slashAmount", prop "slash_amount" d)
      ∷ ("finalized", bool true)
      ∷ ("finalizedAt", to_number (prop "timestamp" d))
      ∷ [])

  abbrev claimed : Value → Write
  claimed router =
      of_epoch router (("claimed", bool true) ∷ ("claimedAt", to_number (prop "timestamp" d)) ∷ [])

  abbrev vested : Write
  vested = of_epoch (prop "router" d) (
      ("lastVestedAt", to_number (prop "timestamp" d))
      ∷ ("vestedClaimed", prop "total_claimed" d)
      ∷ ("vestedTotal", prop "total_amount" d)
      ∷ [])

  abbrev reinstated : Write
  reinstated = set_fields routers (prop "router" d) (
      ("status", str "active")
      ∷ ("uptimeScore", to_number (prop "uptime_score" d))
      ∷ ("updatedAt", date now)
      ∷ [])

  abbrev decommissioned : Write
  decommissioned =
      set_fields routers (prop "router" d)
        (("status", str "decommissioned") ∷ ("updatedAt", date now) ∷ [])

  abbrev paused : Bool → Write
  paused b =
      set_fields protocol (str "protocol") (("isPaused", bool b) ∷ ("updatedAt", date now) ∷ [])

module _ (m : Mongo) where
  -- `none` is a throw, before any update.
  abbrev pub write_all : Option (List Write) → m.Db → Option m.Db
  write_all none db = none
  write_all (some ws) db = some (run_writes m ws db)

-- `router_pda owner routerId` is the address that `getRouterPDA` derives, and `none` where
-- `new PublicKey(owner)` throws: code of web3.js.
module _ (router_pda : Value → Value → Option Value) where
  -- `routerPdaFromOwnerRouterId`, and the upsert that follows.
  abbrev at_router : Value → (Value → Write) → Option (List Write)
  at_router d write =
      Option.map (λ router. write router ∷ []) (router_pda (prop "owner" d) (prop "router_id" d))

  -- The `switch` on the event's name.
  unfoldable pub event_writes : EventName → ℕ → Value → Option (List Write)
  event_writes router_registered now d = at_router d (registered now d)
  event_writes device_key_rotated now d = at_router d (rotated now d)
  event_writes heartbeat_received now d = at_router d (beaten now d)
  event_writes router_suspended now d = at_router d (suspended now d)
  event_writes penalty_applied now d = at_router d (penalised now d)
  event_writes collateral_staked now d = some (staked now d (prop "total_staked" d) ∷ [])
  event_writes collateral_unstaked now d = some (staked now d (prop "remaining" d) ∷ [])
  event_writes router_slashed now d =
      some (staked now d (prop "remaining_stake" d) ∷ slashed now d ∷ [])
  event_writes router_epoch_finalized now d = some (finalized now d ∷ [])
  event_writes reward_claimed now d = at_router d (claimed now d)
  event_writes vested_reward_claimed now d = some (vested now d ∷ [])
  event_writes router_reinstated now d = some (reinstated now d ∷ [])
  event_writes router_decommissioned now d = some (decommissioned now d ∷ [])
  event_writes protocol_paused now d = some (paused now d true ∷ [])
  event_writes protocol_resumed now d = some (paused now d false ∷ [])
  event_writes other now d = some []

  -- `none` is a throw of `new PublicKey`, which leaves the database as it was.
  unfoldable pub apply_event_to_projections : (m : Mongo) → ℕ → DecodedEvent → m.Db → Option m.Db
  apply_event_to_projections m now event db =
      write_all m (event_writes (event_name event.name) now event.fields) db
