-- ===== src/Indexer/Ingest/Lost.antt =====
-- The window between the claim of a signature and the insert of its events.
use router_pulse_depin_proto.Common.{
  ℕ, String, false, Option, some, List, [], ◌∷◌, map, ◌≡◌, refl, sym, ◌∙◌, arith, length,
}
use router_pulse_depin_proto.Js.{str}
use router_pulse_depin_proto.Mongo.{written, failed, events, transactions}
use router_pulse_depin_proto.Indexer.EventParser.{DecodedEvent}
use router_pulse_depin_proto.Indexer.Retry.{Retried, returned}
use router_pulse_depin_proto.Indexer.Ingest.{
  Services, Transaction, has_err, threw, event_row, events_of, claim_signature, store_and_project,
  process_signature,
}
use router_pulse_depin_proto.Indexer.Ingest.Claims.{IsClaimed, claim_written, process_claimed}

module _ (sv : Services) (now : ℕ) (s : String) (tx : Transaction) (ds : List ℕ) (ev : DecodedEvent)
    (evs : List DecodedEvent) (db db1 db2 : sv.mongo.Db) (ran : has_err tx.meta ≡ false)
    (decoded : events_of sv s tx ≡ ev ∷ evs)
    (claimed : claim_signature sv now s tx false (length (ev ∷ evs)) db ≡ written db1)
    (refused : sv.mongo.insert_many events (map event_row (ev ∷ evs)) db1 ≡ failed db2) where
  broken : (process_signature sv now s (returned (some tx) ds) db).outcome ≡ threw
  unfolding process_signature store_and_project
  broken = rw (ran, decoded, claimed, refused) refl

  broken_db : (process_signature sv now s (returned (some tx) ds) db).db ≡ db2
  unfolding process_signature store_and_project
  broken_db = rw (ran, decoded, claimed, refused) refl

  broken-IsClaimed : IsClaimed sv s db2
  broken-IsClaimed =
      let kept =
        sv.mongo.insert_many-elsewhere events (map event_row (ev ∷ evs)) db1 transactions (str s)
          (λ (e : ◌≡◌ {A = ℕ} 3 4). absurd (omega arith)) in
      let same = rw refused at kept in
      λ e. (claim_written sv now s tx false (length (ev ∷ evs)) db db1 claimed).1 (sym same ∙ e)

-- If the insert of the events fails after the claim, the call throws, and from then on every call
-- for the signature leaves the store as the failed insert left it and publishes nothing: the
-- events are never projected.
pub failed_batch_lost :
    (sv : Services) (now : ℕ) (s : String) (tx : Transaction) (ds : List ℕ) (ev : DecodedEvent)
    (evs : List DecodedEvent) (db db1 db2 : sv.mongo.Db) (later : ℕ)
    (refetched : Retried (Option Transaction))
    → has_err tx.meta ≡ false
    → events_of sv s tx ≡ ev ∷ evs
    → claim_signature sv now s tx false (length (ev ∷ evs)) db ≡ written db1
    → sv.mongo.insert_many events (map event_row (ev ∷ evs)) db1 ≡ failed db2
    → let p = process_signature sv now s (returned (some tx) ds) db in
      (p.outcome ≡ threw)
      × (p.db ≡ db2)
      × ((process_signature sv later s refetched db2).db ≡ db2)
      × ((process_signature sv later s refetched db2).published ≡ [])
failed_batch_lost sv now s tx ds ev evs db db1 db2 later refetched ran decoded claimed refused =
    let mine = broken-IsClaimed sv now s tx ds ev evs db db1 db2 ran decoded claimed refused in
    let (same, silent, _) = process_claimed sv later s refetched db2 mine in
    (
      broken sv now s tx ds ev evs db db1 db2 ran decoded claimed refused,
      broken_db sv now s tx ds ev evs db db1 db2 ran decoded claimed refused,
      same,
      silent,
    )
