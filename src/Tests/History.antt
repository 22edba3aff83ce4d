-- ===== src/Tests/History.antt =====
-- Examples for the backfill and the reconciliation.
use router_pulse_depin_proto.Common.{
  All, ℕ, String, true, false, Option, none, some, List, [], ◌∷◌, ◌≡◌, refl, arith, length, take,
}
use router_pulse_depin_proto.Common.Int.{pos}
use router_pulse_depin_proto.Js.{num, field, end}
use router_pulse_depin_proto.Mongo.Memory.{memory, empty}
use router_pulse_depin_proto.Indexer.Retry.{Retried, returned}
use router_pulse_depin_proto.Indexer.EventParser.{decode_transaction_events}
use router_pulse_depin_proto.Indexer.Ingest.{Transaction, process_signature, store_and_project}
use router_pulse_depin_proto.Indexer.Backfill.{collect, collected, run_backfill}
use router_pulse_depin_proto.Indexer.Backfill.Pages.{Serves, older, IsDistinct, collect_history}
use router_pulse_depin_proto.Indexer.Backfill.Rerun.{Fetched, rerun_indexes_nothing}
use router_pulse_depin_proto.Indexer.Reconcile.{
  ProtocolAccount, RouterAccount, RouterEpochAccount, Chain, reconcile_once,
}
use router_pulse_depin_proto.Indexer.Reconcile.Drift.{IsKeyed}
use router_pulse_depin_proto.Indexer.Reconcile.Dashboard.{
  IsOnDashboard, reconcile_once-IsOnDashboard,
}
use router_pulse_depin_proto.Api.Routers.Detail.{IsShown, get_one-reconcile_once}
use router_pulse_depin_proto.Tests.Fixtures.{services, two_events, print, base58, differ}

-- Three signatures, the newest first, served two at a time.
abbrev history : List String
history = "c" ∷ "b" ∷ "a" ∷ []

abbrev rpc : Option String → ℕ → Retried (List String)
rpc none limit = returned (take limit history) []
rpc (some s) limit = returned (take limit (older s history)) []

rpc-Serves : Serves rpc 2 history
rpc-Serves = record { newest = refl; before = λ s. refl }

history-IsDistinct : IsDistinct history
history-IsDistinct =
    ((differ "b" "c" refl, (differ "a" "c" refl, tt)), ((differ "a" "b" refl, tt), (tt, tt)))

collect_history_example : collect rpc 2 5 none [] ≡ collected history
collect_history_example =
    collect_history rpc 2 5 history (omega arith) rpc-Serves history-IsDistinct (omega arith)

abbrev pub fetch : String → Retried (Option Transaction)
fetch s = returned (some two_events) []

pub fetch-Fetched : (s : String) → Fetched (services false) fetch s
fetch-Fetched s = record { tx = two_events; delays = []; fetched = refl }

-- A history of one signature.
abbrev pub young : List String
young = "a" ∷ []

abbrev pub young_rpc : Option String → ℕ → Retried (List String)
young_rpc none limit = returned (take limit young) []
young_rpc (some s) limit = returned (take limit (older s young)) []

pub young-Serves : Serves young_rpc 2 young
young-Serves = record { newest = refl; before = λ s. refl }

rerun_indexes_nothing_example :
    let first = run_backfill (services false) fetch 1 young_rpc 2 5 empty in
    let second = run_backfill (services false) fetch 2 young_rpc 2 5 first.db in
    (second.events ≡ 0) × (second.signatures ≡ length young) × (second.finished ≡ true)
unfolding run_backfill process_signature store_and_project decode_transaction_events
rerun_indexes_nothing_example =
    rerun_indexes_nothing (services false) fetch 1 2 young_rpc 2 5 young empty (omega arith)
      young-Serves (tt, tt) (omega arith) (fetch-Fetched "a", tt) refl

abbrev pub account : ProtocolAccount
account = record {
  authority = 1;
  reward_mint = 2;
  reward_rate = 10;
  penalty_bps = 50;
  heartbeat_interval = pos 60;
  epoch_duration = pos 3600;
  genesis_time = pos 1000;
  min_stake = 100;
  total_routers = 1;
  total_rewards_distributed = 0;
  total_staked = 100;
  total_slashed = 0;
  total_minted = 0;
  total_burned = 0;
  genesis_allocation = 0;
  genesis_minted = 0;
  is_paused = false;
}

abbrev a_router : RouterAccount
a_router = record {
  public_key = 3;
  owner = 4;
  router_id = "home";
  device_pubkey = 5;
  device_key_version = 0;
  status = field "active" (num (pos 0)) end;
  uptime_score = 100;
  heartbeat_count = 7;
  missed_heartbeats = 0;
  total_rewards = 0;
  total_penalties = 0;
  staked_amount = 100;
  registered_at = pos 1000;
  last_heartbeat = pos 2000;
}

abbrev an_epoch : RouterEpochAccount
an_epoch = record {
  router = 3;
  epoch_number = 0;
  heartbeats = 7;
  expected_heartbeats = 60;
  uptime_bps = 1166;
  reward_amount = 5;
  slash_amount = 0;
  finalized = true;
  claimed = false;
  slashed = false;
}

abbrev pub chain : Chain
chain = record {
  protocol_account = some account;
  all_routers = a_router ∷ [];
  all_epochs = an_epoch ∷ [];
}

chain-IsKeyed : IsKeyed print base58 (memory false) chain
chain-IsKeyed = record { router_keys = (tt, tt); epoch_keys = (tt, tt) }

reconcile_once-IsOnDashboard_example :
    IsOnDashboard print base58
      (memory false)
      chain
      (reconcile_once print base58 (memory false) 1 chain empty).db
reconcile_once-IsOnDashboard_example =
    reconcile_once-IsOnDashboard print base58 (memory false) 1 chain empty chain-IsKeyed (λ e. cc)

get_one-reconcile_once_example :
    All
      (IsShown print base58
        (memory false)
        (reconcile_once print base58 (memory false) 1 chain empty).db)
      chain.all_routers
get_one-reconcile_once_example =
    get_one-reconcile_once print base58 (memory false) 1 chain empty chain-IsKeyed (λ e. cc)
