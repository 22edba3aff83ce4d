-- ===== src/Indexer/Backfill.antt =====
-- indexer/src/backfill.ts: all signatures of the program, page by page, then oldest first through
-- `processSignature`.
pub mod Pages
pub mod Rerun
use router_pulse_depin_proto.Common.{
  ℕ, zero, suc, ◌+◌, ◌==◌, String, Bool, Option, none, some, List, [], ◌∷◌, ◌++◌, reverse, length,
  ltb, if◌then◌else◌,
}
use router_pulse_depin_proto.Common.Int.{pos}
use router_pulse_depin_proto.Js.{str, num, date}
use router_pulse_depin_proto.Mongo.{sync_cursors, Update}
use router_pulse_depin_proto.Indexer.Retry.{Retried, returned, thrown, undefined_error}
use router_pulse_depin_proto.Indexer.Ingest.{
  Services, Processed, Outcome, count, threw, Transaction, process_signature,
}

-- The outcome of the paging loop; `out_of_fuel` stands for a loop that goes on.
pub data Collected : Type 0 where
  collected : List String → Collected
  rpc_threw out_of_fuel : Collected

-- `page[page.length - 1].signature`.
abbrev pub last : String → List String → String
last x [] = x
last x (y ∷ ys) = last y ys

-- `rpc before limit` is `getSignaturesForAddress` under `withRetry`.
module _ (rpc : Option String → ℕ → Retried (List String)) (page_size : ℕ) where
  abbrev pub next_page : List String → List String → (Option String → Collected) → Collected
  next_page all [] continue = collected all
  next_page all (x ∷ xs) continue =
      if ltb (length (x ∷ xs)) page_size
      then collected (all ++ x ∷ xs)
      else continue (some (last x xs))

  abbrev received : Retried (List String) → (List String → Collected) → Collected
  received (returned page delays) k = k page
  received (thrown e delays) k = rpc_threw
  received undefined_error k = rpc_threw

  unfoldable pub collect : ℕ → Option String → List String → Collected
  collect zero before all = out_of_fuel
  collect (suc fuel) before all =
      received (rpc before page_size)
        (λ page. next_page all page (λ before'. collect fuel before' (all ++ page)))

-- What `runBackfill` comes to.
pub record Backfilled (D : Type 0) : Type 0 where
  pub signatures : ℕ
  pub events : ℕ
  pub finished : Bool
  pub db : D

-- No publisher is passed.
abbrev pub silent : Services → Services
silent sv = record sv { has_publisher = Bool.false }

module _ (sv : Services) (fetch : String → Retried (Option Transaction)) (now : ℕ) where
  open sv use {mongo}
  open mongo use {Db, update_one}

  -- A throw ends the loop over the signatures.
  abbrev pub after_call : Outcome → Db → (ℕ → Option ℕ × Db) → Option ℕ × Db
  after_call (count n) db rest = rest n
  after_call threw db rest = (none, db)

  unfoldable pub index_signatures : List String → ℕ → Db → Option ℕ × Db
  index_signatures [] indexed db = (some indexed, db)
  index_signatures (s ∷ ss) indexed db =
      let p = process_signature (silent sv) now s (fetch s) db in
      let rest = λ (n : ℕ). index_signatures ss (indexed + n) p.db in after_call p.outcome p.db rest

  -- The bookkeeping document that a finished run writes.
  abbrev pub cursor : ℕ → ℕ → Update
  cursor seen indexed = record {
    set =
        ("lastRunAt", date now)
        ∷ ("signaturesSeen", num (pos seen))
        ∷ ("eventsIndexed", num (pos indexed))
        ∷ [];
    inc = [];
    set_on_insert = [];
  }

  abbrev pub summarise : ℕ → Option ℕ × Db → Backfilled Db
  summarise seen (some indexed, db) = record {
    signatures = seen;
    events = indexed;
    finished = Bool.true;
    db = update_one sync_cursors (str "backfill") (cursor seen indexed) db;
  }
  summarise seen (none, db) = record {
    signatures = seen;
    events = 0;
    finished = Bool.false;
    db = db;
  }

  abbrev pub indexed_from : Collected → Db → Backfilled Db
  indexed_from (collected all) db = summarise (length all) (index_signatures (reverse all) 0 db)
  indexed_from rpc_threw db = record { signatures = 0; events = 0; finished = Bool.false; db = db }
  indexed_from out_of_fuel db = record {
    signatures = 0;
    events = 0;
    finished = Bool.false;
    db = db;
  }

  unfoldable pub run_backfill :
      (Option String → ℕ → Retried (List String)) → ℕ → ℕ → Db → Backfilled Db
  unfolding collect index_signatures
  run_backfill rpc page_size fuel db = indexed_from (collect rpc page_size fuel none []) db
