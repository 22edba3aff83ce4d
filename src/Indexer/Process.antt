-- ===== src/Indexer/Process.antt =====
-- indexer/src/index.ts, live.ts, publisher.ts, db.ts: the indexer's process, from its start to the
-- notifications that it handles while it runs.
pub mod Restarts
pub mod Fanout
use router_pulse_depin_proto.Common.{
  ℕ, String, Bool, true, false, Option, none, some, List, [], ◌∷◌, ◌++◌, ◌&&◌, str_eq,
  if◌then◌else◌,
}
use router_pulse_depin_proto.Common.Int.{ℤ}
use router_pulse_depin_proto.Indexer.EventParser.{DecodedEvent}
use router_pulse_depin_proto.Indexer.Retry.{Retried}
use router_pulse_depin_proto.Indexer.Ingest.{Services, Processed, Transaction, process_signature}
use router_pulse_depin_proto.Indexer.Ingest.Schedule.{Delivery, deliver}
use router_pulse_depin_proto.Indexer.Backfill.{Backfilled, run_backfill}
use router_pulse_depin_proto.Indexer.Reconcile.{Chain, reconcile_once}

-- An index: its collection, its keys with whether each ascends, and its name.
pub record Index : Type 0 where
  pub collection : String
  pub index_keys : List (String × Bool)
  pub name : String

abbrev index : String → List (String × Bool) → String → Index
index collection index_keys name = record {
  collection = collection;
  index_keys = index_keys;
  name = name;
}

-- `INDEXES`.
abbrev pub indexes : List Index
indexes =
    index "events" (("name", true) ∷ ("blockTime", false) ∷ []) "rp_events_name_time"
    ∷ index "events" (("signature", true) ∷ []) "rp_events_signature"
    ∷ index "routers" (("owner", true) ∷ []) "rp_routers_owner"
    ∷ index "routers" (("status", true) ∷ []) "rp_routers_status"
    ∷ index "routers" (("routerId", true) ∷ []) "rp_routers_routerId"
    ∷ index "epochs" (("router", true) ∷ ("epochNumber", false) ∷ []) "rp_epochs_router_epoch"
    ∷ index "epochs" (("finalized", true) ∷ ("claimed", true) ∷ []) "rp_epochs_state"
    ∷ []

-- `createIndex` of the driver: the catalog of indexes after the call, and the message of a throw.
module _ {Catalog : Type 0} (create_index : Index → Catalog → Catalog × Option String) where
  abbrev warned : Option String → Index → List (Index × String) → List (Index × String)
  warned none i rest = rest
  warned (some message) i rest = (i, message) ∷ rest

  -- The loop of `ensureIndexes`: the catalog after it, and the indexes that it warns of.
  unfoldable pub ensure_each : List Index → Catalog → Catalog × List (Index × String)
  ensure_each [] c = (c, [])
  ensure_each (i ∷ is) c =
      let (c', thrown) = create_index i c in
      let (c'', warnings) = ensure_each is c' in (c'', warned thrown i warnings)

  unfoldable pub ensure_indexes : Catalog → Catalog × List (Index × String)
  unfolding ensure_each
  ensure_indexes c = ensure_each indexes c

-- An index of the collection `routers` as the driver lists it; `key` may be missing.
pub record Listed : Type 0 where
  pub unique : Bool
  pub key : Option (List String)
  pub listed_name : String

-- `Object.keys(i.key).join() === "routerId"`: the names hold no comma.
abbrev is_router_id : Option (List String) → Bool
is_router_id (some (k ∷ [])) = str_eq k "routerId"
is_router_id _ = false

unfoldable pub hostile : List Listed → Option String
hostile [] = none
hostile (i ∷ is) =
    let rest = hostile is in if i.unique && is_router_id i.key then some i.listed_name else rest

-- `warnOnHostileIndexes`, from what `indexes()` returns, none where it throws: the index of its
-- warning, if it gives one.
unfoldable pub warn_on_hostile_indexes : Option (List Listed) → Option String
unfolding hostile
warn_on_hostile_indexes none = none
warn_on_hostile_indexes (some existing) = hostile existing

-- `redactCredentials`: `parse`, `password`, `set_password` and `href` are those of `URL`.
module _ {Url : Type 0} (parse : String → Option Url) (password : Url → String)
    (set_password : String → Url → Url) (href : Url → String) where
  abbrev hidden : String → Url → String
  hidden String.[] u = href u
  hidden (String.◌∷◌ c s) u = href (set_password "***" u)

  abbrev redacted : Option Url → String
  redacted none = "(unparseable url)"
  redacted (some u) = hidden (password u) u

  unfoldable pub redact_credentials : Option String → Option String
  redact_credentials none = none
  redact_credentials (some String.[]) = none
  redact_credentials (some (String.◌∷◌ c s)) = some (redacted (parse (String.◌∷◌ c s)))

-- `EventPublisher`: what reaches the channel. `sends` tells which publishes Redis takes; a failed
-- one is swallowed.
abbrev pub sent_to : (DecodedEvent → Bool) → List DecodedEvent → List DecodedEvent
sent_to sends [] = []
sent_to sends (e ∷ es) = let rest = sent_to sends es in if sends e then e ∷ rest else rest

-- `has_url` is whether a Redis URL is configured.
unfoldable pub fan_out : Bool → (DecodedEvent → Bool) → List DecodedEvent → List DecodedEvent
fan_out has_url sends es = if has_url then sent_to sends es else []

-- What happens while the process runs: a notification of the subscription, with its `err` and what
-- `processSignature` fetches for it, or a pass of the reconciliation. A pass that a throw cuts short
-- is one over the accounts read until then.
pub data Tick : Type 0 where
  notified : Bool → Delivery → Tick
  reconciled : ℕ → Option Chain → Tick

-- A life of the process: what its backfill reads, and what happens until it stops.
pub record Lifetime : Type 0 where
  pub now : ℕ
  pub fetch : String → Retried (Option Transaction)
  pub rpc : Option String → ℕ → Retried (List String)
  pub page_size : ℕ
  pub fuel : ℕ
  pub ticks : List Tick

module _ (sv : Services) where
  open sv use {mongo, bn_to_string, to_base58}
  open mongo use {Db}

  abbrev reconciled_with : ℕ → Option Chain → Db → Db
  reconciled_with now none db = db
  reconciled_with now (some chain) db =
      (reconcile_once bn_to_string to_base58 mongo now chain db).db

  -- The callback of `onLogs`: the database and the published events after it.
  unfoldable pub on_logs : Bool → Delivery → Db → Db × List DecodedEvent
  on_logs err d db = if err then (db, []) else ((deliver sv d db).db, (deliver sv d db).published)

  unfoldable pub live : List Tick → Db → Db
  unfolding on_logs
  live [] db = db
  live (notified err d ∷ ts) db = live ts (on_logs err d db).0
  live (reconciled now chain ∷ ts) db = live ts (reconciled_with now chain db)

  -- The exit code of a process that ends in `main().catch`, or the database with which it goes on.
  pub data Started : Type 0 where
    running exited : Db → Started

  abbrev started : Backfilled Db → Started
  started b = if b.finished then running b.db else exited b.db

  -- `main` up to the subscription: the backfill, whose throw ends the process.
  unfoldable pub start : Lifetime → Db → Started
  start l db = started (run_backfill sv l.fetch l.now l.rpc l.page_size l.fuel db)

  abbrev goes_on : Started → List Tick → Db
  goes_on (running db) ts = live ts db
  goes_on (exited db) ts = db

  unfoldable pub lived : Lifetime → Db → Db
  unfolding start live
  lived l db = goes_on (start l db) l.ticks
