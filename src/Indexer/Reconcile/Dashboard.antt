-- ===== src/Indexer/Reconcile/Dashboard.antt =====
-- What the dashboard has of the chain after a pass of reconcile.ts, field by field.
use Prim.Native.String.{◌++◌}
use router_pulse_depin_proto.Common.{ℕ, String, Option, none, some, ◌≡◌, ◌≢◌, refl, All, All-map}
use router_pulse_depin_proto.Common.Int.{ℤ, pos}
use router_pulse_depin_proto.Js.{Value, undefined, str, num, bool, to_number, Fields, end, field}
use router_pulse_depin_proto.Mongo.{Doc, Mongo, routers, epochs}
use router_pulse_depin_proto.Indexer.Reconcile.Refresh.{Shows}
use router_pulse_depin_proto.Indexer.Reconcile.{
  RouterAccount, RouterEpochAccount, Chain, first_key, router_key, router_fields, router_drifted,
  epoch_doc_key, epoch_fields, epoch_drifted, reconcile_once,
}
use router_pulse_depin_proto.Indexer.Reconcile.Drift.{IsKeyed, reconcile_once-IsSynced}

-- The name of the variant of an enum, as Anchor decodes one.
abbrev variant : Fields → Value
variant end = undefined
variant (field name v fs) = str name

module _ (bn_to_string : ℤ → String) (to_base58 : ℕ → String) where
  -- A document of a router has the owner, the key and the version of the device, the status, the
  -- score and the counts and amounts of the account, each under its own name.
  pub record IsRouterDoc (a : RouterAccount) (d : Doc) : Type 0 where
    pub has_owner : d "owner" ≡ some (str (to_base58 a.owner))
    pub has_router_id : d "routerId" ≡ some (str a.router_id)
    pub has_device_pubkey : d "devicePubkey" ≡ some (str (to_base58 a.device_pubkey))
    pub has_device_key_version : d "deviceKeyVersion" ≡ some (num (pos a.device_key_version))
    pub has_status : d "status" ≡ some (variant a.status)
    pub has_uptime_score : d "uptimeScore" ≡ some (num (pos a.uptime_score))
    pub has_heartbeat_count :
        d "heartbeatCount" ≡ some (to_number (str (bn_to_string (pos a.heartbeat_count))))
    pub has_missed_heartbeats :
        d "missedHeartbeats" ≡ some (to_number (str (bn_to_string (pos a.missed_heartbeats))))
    pub has_total_rewards : d "totalRewards" ≡ some (str (bn_to_string (pos a.total_rewards)))
    pub has_total_penalties : d "totalPenalties" ≡ some (str (bn_to_string (pos a.total_penalties)))
    pub has_staked_amount : d "stakedAmount" ≡ some (str (bn_to_string (pos a.staked_amount)))
    pub has_registered_at : d "registeredAt" ≡ some (to_number (str (bn_to_string a.registered_at)))
    pub has_last_heartbeat :
        d "lastHeartbeat" ≡ some (to_number (str (bn_to_string a.last_heartbeat)))

  -- The same of a router's epoch.
  pub record IsEpochDoc (a : RouterEpochAccount) (d : Doc) : Type 0 where
    pub has_router : d "router" ≡ some (str (to_base58 a.router))
    pub has_epoch_number : d "epochNumber" ≡ some (str (bn_to_string (pos a.epoch_number)))
    pub has_heartbeats : d "heartbeats" ≡ some (num (pos a.heartbeats))
    pub has_expected_heartbeats : d "expectedHeartbeats" ≡ some (num (pos a.expected_heartbeats))
    pub has_uptime_bps : d "uptimeBps" ≡ some (num (pos a.uptime_bps))
    pub has_reward_amount : d "rewardAmount" ≡ some (str (bn_to_string (pos a.reward_amount)))
    pub has_slash_amount : d "slashAmount" ≡ some (str (bn_to_string (pos a.slash_amount)))
    pub has_finalized : d "finalized" ≡ some (bool a.finalized)
    pub has_claimed : d "claimed" ≡ some (bool a.claimed)
    pub has_slashed : d "slashed" ≡ some (bool a.slashed)

  module _ (m : Mongo) where
    -- The documents of all routers and all epochs of a chain, under the router's address and under
    -- the address and the number of the epoch.
    pub record IsOnDashboard (chain : Chain) (db : m.Db) : Type 0 where
      pub routers_there :
          All
            (λ a.
              (d : Doc) × (m.find_one routers (str (to_base58 a.public_key)) db ≡ some d)
              × IsRouterDoc a d)
            chain.all_routers
      pub epochs_there :
          All
            (λ a.
              (d : Doc) × (m.find_one epochs
                  (str (to_base58 a.router ++ (":" ++ bn_to_string (pos a.epoch_number))))
                  db
                ≡ some d)
              × IsEpochDoc a d)
            chain.all_epochs

    router_doc :
        (a : RouterAccount) (o : Option Doc)
        → Shows m routers
            (router_key bn_to_string to_base58)
            (router_fields bn_to_string to_base58)
            (router_drifted bn_to_string to_base58)
            a
            o
        → (d : Doc) × (o ≡ some d) × IsRouterDoc a d
    router_doc a none h =
        let owner : none ≡ some (str (to_base58 a.owner)) =
          h "owner" (str (to_base58 a.owner)) refl in
        absurd cc
    router_doc a (some d) h = (
      d,
      refl,
      record {
        has_owner = h "owner" _ refl;
        has_router_id = h "routerId" _ refl;
        has_device_pubkey = h "devicePubkey" _ refl;
        has_device_key_version = h "deviceKeyVersion" _ refl;
        has_status = variant_lem a.status (h "status" _ refl);
        has_uptime_score = h "uptimeScore" _ refl;
        has_heartbeat_count = h "heartbeatCount" _ refl;
        has_missed_heartbeats = h "missedHeartbeats" _ refl;
        has_total_rewards = h "totalRewards" _ refl;
        has_total_penalties = h "totalPenalties" _ refl;
        has_staked_amount = h "stakedAmount" _ refl;
        has_registered_at = h "registeredAt" _ refl;
        has_last_heartbeat = h "lastHeartbeat" _ refl;
      },
    )
      where
        variant_lem :
            (fs : Fields) → d "status" ≡ some (first_key fs) → d "status" ≡ some (variant fs)
        variant_lem end e = e
        variant_lem (field k v fs) e = e

    epoch_doc :
        (a : RouterEpochAccount) (o : Option Doc)
        → Shows m epochs
            (epoch_doc_key bn_to_string to_base58)
            (epoch_fields bn_to_string to_base58)
            (epoch_drifted bn_to_string to_base58)
            a
            o
        → (d : Doc) × (o ≡ some d) × IsEpochDoc a d
    epoch_doc a none h = cc (h "finalized" (bool a.finalized) refl)
    epoch_doc a (some d) h = (
      d,
      refl,
      record {
        has_router = h "router" _ refl;
        has_epoch_number = h "epochNumber" _ refl;
        has_heartbeats = h "heartbeats" _ refl;
        has_expected_heartbeats = h "expectedHeartbeats" _ refl;
        has_uptime_bps = h "uptimeBps" _ refl;
        has_reward_amount = h "rewardAmount" _ refl;
        has_slash_amount = h "slashAmount" _ refl;
        has_finalized = h "finalized" _ refl;
        has_claimed = h "claimed" _ refl;
        has_slashed = h "slashed" _ refl;
      },
    )

-- A pass over an initialised chain whose accounts have distinct keys leaves a document for each
-- router of the chain, under its address, and for each epoch, under the address and the number. The
-- router's has the owner, the id, the device key and its version, the status, the score, both counts
-- of heartbeats, the totals of rewards and penalties, the stake and both times of the account, the
-- counts and times by `Number` of their texts; the epoch's has its router and number, the heartbeats
-- and those expected, the uptime, the reward, the slash and the three flags. Each is in the field of
-- its own name. The location of a router and the time of its last claim are not among them: the pass
-- does not copy them.
pub reconcile_once-IsOnDashboard :
    (bn_to_string : ℤ → String) (to_base58 : ℕ → String) (m : Mongo) (now : ℕ) (chain : Chain)
    (db : m.Db)
    → IsKeyed bn_to_string to_base58 m chain
    → chain.protocol_account ≢ none
    → IsOnDashboard bn_to_string to_base58 m chain
        (reconcile_once bn_to_string to_base58 m now chain db).db
reconcile_once-IsOnDashboard b t m now chain db keyed ready =
    let synced = reconcile_once-IsSynced b t m now chain db keyed ready in
    let after = (reconcile_once b t m now chain db).db in
    record {
      routers_there =
          All-map chain.all_routers
            (λ a shown. router_doc b t m a (m.find_one routers (router_key b t a) after) shown)
            synced.routers_shown;
      epochs_there =
          All-map chain.all_epochs
            (λ a shown. epoch_doc b t m a (m.find_one epochs (epoch_doc_key b t a) after) shown)
            synced.epochs_shown;
    }
