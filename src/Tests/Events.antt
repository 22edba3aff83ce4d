-- ===== src/Tests/Events.antt =====
-- Examples for the decoding, the retries and the projections.
use router_pulse_depin_proto.Common.{
  ℕ, zero, suc, ◌+◌, ◌*◌, ◌^◌, ◌<◌, ◌≤◌, String, true, false, none, some, List, [], ◌∷◌, ◌≡◌, refl,
  arith, length, inl,
}
use router_pulse_depin_proto.Js.{Value, str}
use router_pulse_depin_proto.Mongo.{routers}
use router_pulse_depin_proto.Mongo.Laws.{field_at}
use router_pulse_depin_proto.Mongo.Memory.{memory, empty}
use router_pulse_depin_proto.Indexer.EventParser.{
  RawEvent, serialize_event_data, decode_transaction_events,
}
use router_pulse_depin_proto.Indexer.EventParser.Storable.{storable, serialize_event_data-storable}
use router_pulse_depin_proto.Indexer.EventParser.Keys.{
  DistinctIds, decode_transaction_events-DistinctIds,
}
use router_pulse_depin_proto.Indexer.Retry.{
  Attempt, resolved, rejected, with_retry, is_transient, includes,
}
use router_pulse_depin_proto.Indexer.Retry.Backoff.{
  with_retry_first_stop, with_retry-total_delay, total_delay, ended, delays, IsRetried,
}
use router_pulse_depin_proto.Indexer.Projections.{apply_event_to_projections, event_writes}
use router_pulse_depin_proto.Indexer.Projections.Names.{event_name}
use router_pulse_depin_proto.Indexer.Projections.Status.{
  apply_event-status, next_status, status_of, subject,
}
use router_pulse_depin_proto.Indexer.Projections.Replay.{replay_harmless}
use router_pulse_depin_proto.Tests.Fixtures.{
  print, base58, router_pda, suspension, slashing, an_event,
}

serialize_event_data-storable_example :
    storable (serialize_event_data print base58 suspension) ≡ true
serialize_event_data-storable_example = serialize_event_data-storable print base58 suspension

abbrev two_raw : List RawEvent
two_raw =
    record { name = "RouterSuspended"; fields = suspension }
    ∷ record { name = "RouterSlashed"; fields = slashing }
    ∷ []

decode_transaction_events-DistinctIds_example :
    let es = decode_transaction_events print base58 "s" 9 (some 1000) two_raw in
    DistinctIds es × (length es ≡ length two_raw)
decode_transaction_events-DistinctIds_example =
    decode_transaction_events-DistinctIds print base58 "s" 9 (some 1000) two_raw

-- Fails twice with a timeout, then answers.
abbrev flaky : ℕ → Attempt ℕ
flaky zero = rejected "etimedout"
flaky (suc zero) = rejected "503"
flaky (suc (suc n)) = resolved 7

abbrev no_jitter : ℕ → ℕ
no_jitter i = 0

flaky_start : (j : ℕ) → j < 2 → IsRetried (flaky j)
unfolding is_transient includes
flaky_start zero h = refl
flaky_start (suc zero) h = refl
flaky_start (suc (suc n)) h = absurd (omega arith)

with_retry_first_stop_example :
    with_retry flaky no_jitter 500 5 ≡ ended (flaky 2) (delays flaky no_jitter 500 0 2)
with_retry_first_stop_example =
    with_retry_first_stop flaky no_jitter 500 5 2 (omega arith) flaky_start (inl tt)

with_retry-total_delay_example :
    total_delay (with_retry flaky no_jitter 500 5) + 500 ≤ 500 * 2 ^ 4 + 500 * 4
with_retry-total_delay_example = with_retry-total_delay flaky no_jitter 500 4 (λ i. omega arith)

-- The store after the suspension of the router r1.
abbrev applied_to : String → Value → ℕ → (memory false).Db → (memory false).Db
applied_to name fields now db =
    elim (apply_event_to_projections router_pda (memory false) now (an_event name fields) db) [
      | none ↦ db
      | some db1 ↦ db1
    ]

abbrev suspended_once : (memory false).Db
suspended_once = applied_to "RouterSuspended" suspension 1 empty

abbrev suspended_twice : (memory false).Db
suspended_twice = applied_to "RouterSuspended" suspension 2 suspended_once

abbrev suspended_later : (memory false).Db
suspended_later = applied_to "RouterSuspended" suspension 2 empty

apply_event-status_example :
    field_at (memory false) routers (str "r1") "status" suspended_once
    ≡ next_status
        (status_of (event_name "RouterSuspended"))
        (subject router_pda (event_name "RouterSuspended") suspension)
        (str "r1")
        (field_at (memory false) routers (str "r1") "status" empty)
unfolding apply_event_to_projections event_writes event_name
apply_event-status_example =
    apply_event-status router_pda (memory false) (an_event "RouterSuspended" suspension) 1
      (str "r1") empty suspended_once refl

replay_harmless_example :
    field_at (memory false) routers (str "r1") "uptimeScore" suspended_twice
    ≡ field_at (memory false) routers (str "r1") "uptimeScore" suspended_later
unfolding apply_event_to_projections event_writes event_name
replay_harmless_example =
    replay_harmless router_pda (memory false) (an_event "RouterSuspended" suspension) 1 2 routers
      (str "r1") "uptimeScore" empty suspended_once suspended_twice suspended_later (cc) (cc) refl
      refl refl
