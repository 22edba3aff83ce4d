-- ===== src/Tests/Ingestion.antt =====
-- Examples for the ingestion of transactions.
use router_pulse_depin_proto.Common.{true, false, some, List, [], ◌∷◌, ◌≡◌, ◌≤◌, refl, length}
use router_pulse_depin_proto.Mongo.{after_insert}
use router_pulse_depin_proto.Mongo.Memory.{empty}
use router_pulse_depin_proto.Indexer.EventParser.{decode_transaction_events}
use router_pulse_depin_proto.Indexer.Retry.{returned}
use router_pulse_depin_proto.Indexer.Ingest.{
  process_signature, threw, events_of, claim_signature, store_and_project,
}
use router_pulse_depin_proto.Indexer.Ingest.Schedule.{Delivery, effective, effective-le-one}
use router_pulse_depin_proto.Indexer.Ingest.Lost.{failed_batch_lost}
use router_pulse_depin_proto.Indexer.Ingest.Claims.{IsClaimed, process_done-IsClaimed}
use router_pulse_depin_proto.Tests.Fixtures.{
  services, two_events, decoded_event, suspension, slashing,
}

abbrev twice : List Delivery
twice =
    record { now = 1; signature = "s"; fetched = returned (some two_events) [] }
    ∷ record { now = 2; signature = "s"; fetched = returned (some two_events) [] }
    ∷ []

effective-le-one_example : effective (services false) "s" twice empty ≤ 1
effective-le-one_example = effective-le-one (services false) "s" twice empty

abbrev stored : (services false).mongo.Db
stored = (process_signature (services false) 1 "s" (returned (some two_events) []) empty).db

stored-IsClaimed : IsClaimed (services false) "s" stored
unfolding process_signature decode_transaction_events store_and_project
stored-IsClaimed = process_done-IsClaimed (services false) 1 "s" two_events [] 2 empty refl

-- The store once the signature is claimed, before the batch.
abbrev claimed_only : (services true).mongo.Db
claimed_only = after_insert empty (
    claim_signature (services true) 1 "s" two_events false
      (length (events_of (services true) "s" two_events)) empty)

failed_batch_lost_example :
    let p = process_signature (services true) 1 "s" (returned (some two_events) []) empty in
    (p.outcome ≡ threw)
    × (p.db ≡ claimed_only)
    × ((process_signature (services true) 2 "s" (returned (some two_events) []) claimed_only).db
        ≡ claimed_only)
    × ((process_signature
          (services true)
          2
          "s"
          (returned (some two_events) [])
          claimed_only).published
        ≡ [])
unfolding claim_signature decode_transaction_events
failed_batch_lost_example =
    failed_batch_lost (services true) 1 "s" two_events []
      (decoded_event 0 "RouterSuspended" suspension) (decoded_event 1 "RouterSlashed" slashing ∷ [])
      empty claimed_only claimed_only 2 (returned (some two_events) []) refl refl refl refl
