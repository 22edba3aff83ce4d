-- ===== src/Indexer/Ingest.antt =====
-- indexer/src/ingest.ts: one transaction is fetched, decoded, claimed, stored, projected, published.
pub mod Claims
pub mod Stored
pub mod Lost
pub mod Schedule
use router_pulse_depin_proto.Common.{
  ℕ, zero, suc, String, Bool, true, false, Option, none, some, List, [], ◌∷◌, map, lookup, length,
  if◌then◌else◌,
}
use router_pulse_depin_proto.Common.Int.{ℤ, pos}
use router_pulse_depin_proto.Js.{Value, null, str, num, bool, date}
use router_pulse_depin_proto.Mongo.{
  Doc, Mongo, Inserted, written, duplicate_key, failed, events, transactions,
}
use router_pulse_depin_proto.Indexer.EventParser.{RawEvent, DecodedEvent, decode_transaction_events}
use router_pulse_depin_proto.Indexer.Retry.{Retried, returned, thrown, undefined_error}
use router_pulse_depin_proto.Indexer.Projections.{apply_event_to_projections}

-- `tx.meta`, as `getTransaction` gives it.
pub record Meta : Type 0 where
  pub err : Bool
  pub log_messages : Option (List String)

pub record Transaction : Type 0 where
  pub slot : ℕ
  pub block_time : Option ℕ
  pub meta : Option Meta

abbrev pub has_err : Option Meta → Bool
has_err none = false
has_err (some meta) = meta.err

-- `tx.meta?.logMessages ?? []`.
abbrev pub logs_of : Option Meta → List String
logs_of none = []
logs_of (some meta) = elim meta.log_messages [ none ↦ [] | some logs ↦ logs ]

abbrev optional_num : Option ℕ → Value
optional_num none = null
optional_num (some n) = num (pos n)

-- The document that claims a signature.
abbrev pub claim_doc : ℕ → Transaction → Bool → ℕ → Doc
claim_doc now tx failed_tx event_count f = lookup f (
    ("slot", num (pos tx.slot))
    ∷ ("blockTime", optional_num tx.block_time)
    ∷ ("failed", bool failed_tx)
    ∷ ("eventCount", num (pos event_count))
    ∷ ("indexedAt", date now)
    ∷ [])

-- `{ ...ev, _id: ev.id }`.
abbrev pub event_doc : DecodedEvent → Doc
event_doc ev f = lookup f (
    ("id", str ev.id)
    ∷ ("signature", str ev.signature)
    ∷ ("index", num (pos ev.index))
    ∷ ("slot", num (pos ev.slot))
    ∷ ("blockTime", optional_num ev.block_time)
    ∷ ("name", str ev.name)
    ∷ ("data", ev.fields)
    ∷ [])

abbrev pub event_row : DecodedEvent → Value × Doc
event_row ev = (str ev.id, event_doc ev)

-- What a call of `processSignature` comes to.
pub data Outcome : Type 0 where
  count : ℕ → Outcome
  threw : Outcome

-- What the service is given: the store, web3.js's address derivation, Anchor's log parser, the
-- printing of BNs and keys, and whether a publisher is passed.
pub record Services : Type 1 where
  pub mongo : Mongo
  pub router_pda : Value → Value → Option Value
  pub parse_logs : List String → List RawEvent
  pub bn_to_string : ℤ → String
  pub to_base58 : ℕ → String
  pub has_publisher : Bool

-- The state after a call, with the events published by it.
pub record Processed (D : Type 0) : Type 0 where
  pub outcome : Outcome
  pub db : D
  pub published : List DecodedEvent

module _ (sv : Services) where
  open sv use {mongo, router_pda, parse_logs, bn_to_string, to_base58, has_publisher}
  open mongo use {Db, insert_one, insert_many}

  -- `catch` logs the throw of a projection and goes on.
  abbrev caught : Db → Option Db → Db
  caught db none = db
  caught db (some db') = db'

  -- The loop over the events: each is projected, then published.
  unfoldable pub project_events : ℕ → List DecodedEvent → Db → Db
  project_events now [] db = db
  project_events now (ev ∷ rest) db =
      project_events now rest (caught db (apply_event_to_projections router_pda mongo now ev db))

  abbrev pub publish : List DecodedEvent → List DecodedEvent
  publish evs = if has_publisher then evs else []

  abbrev stopped : Outcome → Db → Processed Db
  stopped o db = record { outcome = o; db = db; published = [] }

  abbrev pub finish : ℕ → List DecodedEvent → Db → Processed Db
  finish now evs db = record {
    outcome = count (length evs);
    db = project_events now evs db;
    published = publish evs;
  }

  abbrev pub after_batch : ℕ → List DecodedEvent → Inserted Db → Db → Processed Db
  after_batch now evs (written db') db = finish now evs db'
  after_batch now evs duplicate_key db = stopped threw db
  after_batch now evs (failed db') db = stopped threw db'

  -- The writes of a claimed transaction.
  unfoldable pub store_and_project : ℕ → List DecodedEvent → Db → Processed Db
  unfolding project_events
  store_and_project now [] db = stopped (count 0) db
  store_and_project now (ev ∷ evs) db =
      after_batch now (ev ∷ evs) (insert_many events (map event_row (ev ∷ evs)) db) db

  abbrev pub events_of : String → Transaction → List DecodedEvent
  events_of signature tx =
      decode_transaction_events bn_to_string to_base58 signature tx.slot tx.block_time
        (parse_logs (logs_of tx.meta))

  -- `claimSignature`: a duplicate key is `false`, any other error is thrown on.
  unfoldable pub claim_signature : ℕ → String → Transaction → Bool → ℕ → Db → Inserted Db
  claim_signature now signature tx failed_tx event_count db =
      insert_one transactions (str signature) (claim_doc now tx failed_tx event_count) db

  abbrev pub claimed_failure : Inserted Db → Db → Processed Db
  claimed_failure (written db') db = stopped (count 0) db'
  claimed_failure duplicate_key db = stopped (count 0) db
  claimed_failure (failed db') db = stopped threw db'

  abbrev pub claimed_success : ℕ → List DecodedEvent → Inserted Db → Db → Processed Db
  claimed_success now evs (written db') db = store_and_project now evs db'
  claimed_success now evs duplicate_key db = stopped (count 0) db
  claimed_success now evs (failed db') db = stopped threw db'

  unfoldable pub process_transaction : ℕ → String → Transaction → Db → Processed Db
  unfolding claim_signature
  process_transaction now signature tx db =
      if has_err tx.meta
      then claimed_failure (claim_signature now signature tx true 0 db) db
      else claimed_success now (events_of signature tx)
          (claim_signature now signature tx false (length (events_of signature tx)) db) db

  -- `processSignature`, from what `withRetry` made of the `getTransaction` calls. A null
  -- transaction is left unclaimed.
  unfoldable pub process_signature : ℕ → String → Retried (Option Transaction) → Db → Processed Db
  unfolding process_transaction
  process_signature now signature (returned none delays) db = stopped (count 0) db
  process_signature now signature (returned (some tx) delays) db =
      process_transaction now signature tx db
  process_signature now signature (thrown e delays) db = stopped threw db
  process_signature now signature undefined_error db = stopped threw db
