-- ===== src/Tests/Running.antt =====
-- Examples for the indexer's process.
use router_pulse_depin_proto.Common.{
  true, false, none, some, List, [], ◌∷◌, ◌≡◌, ◌≤◌, refl, All, arith,
}
use router_pulse_depin_proto.Mongo.Memory.{empty}
use router_pulse_depin_proto.Indexer.EventParser.{decode_transaction_events}
use router_pulse_depin_proto.Indexer.Retry.{returned}
use router_pulse_depin_proto.Indexer.Ingest.{process_signature, store_and_project}
use router_pulse_depin_proto.Indexer.Ingest.Claims.{IsClaimed}
use router_pulse_depin_proto.Indexer.Backfill.{run_backfill}
use router_pulse_depin_proto.Indexer.Process.{
  Tick, notified, reconciled, Lifetime, start, lived, warn_on_hostile_indexes,
}
use router_pulse_depin_proto.Indexer.Process.Restarts.{start-claims}
use router_pulse_depin_proto.Indexer.Process.Fanout.{announced_in_all, announced-le-one}
use router_pulse_depin_proto.Tests.Fixtures.{services, two_events}
use router_pulse_depin_proto.Tests.History.{young, young_rpc, fetch, young-Serves, fetch-Fetched}

-- Two notifications, the first of a transaction that cannot be fetched yet, and a reconciliation
-- that reads nothing.
abbrev ticks : List Tick
ticks =
    notified false (record { now = 2; signature = "b"; fetched = returned none [] })
    ∷ reconciled 3 none
    ∷ notified false (record { now = 4; signature = "b"; fetched = returned (some two_events) [] })
    ∷ []

abbrev life : Lifetime
life = record { now = 1; fetch = fetch; rpc = young_rpc; page_size = 2; fuel = 5; ticks = ticks }

start-claims_example :
    All (λ s. IsClaimed (services false) s (lived (services false) life empty)) young
unfolding start run_backfill process_signature store_and_project decode_transaction_events
start-claims_example =
    start-claims (services false) life young empty
      (run_backfill (services false) fetch 1 young_rpc 2 5 empty).db (omega arith) young-Serves
      (tt, tt) (omega arith) (fetch-Fetched "a", tt) refl

announced-le-one_example : announced_in_all (services false) "b" (life ∷ life ∷ []) empty ≤ 1
announced-le-one_example = announced-le-one (services false) "b" (life ∷ life ∷ []) empty

hostile_test :
    warn_on_hostile_indexes (
      some
        (record { unique = true; key = some ("routerId" ∷ []); listed_name = "routerId_1" } ∷ []))
    ≡ some "routerId_1"
unfolding warn_on_hostile_indexes
hostile_test = refl
