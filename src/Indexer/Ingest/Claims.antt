-- ===== src/Indexer/Ingest/Claims.antt =====
-- Signatures are claimed once and stay claimed.
use router_pulse_depin_proto.Common.{
  ℕ, suc, ◌<◌, String, Bool, true, false, Option, none, some, List, [], ◌∷◌, ◌≡◌, ◌≢◌, refl, sym,
  ◌∙◌, arith, ◌⊎◌, inl, inr, Bool-cases, map, length,
}
use router_pulse_depin_proto.Js.{Value, str}
use router_pulse_depin_proto.Mongo.{
  Collection, Inserted, written, duplicate_key, failed, events, transactions, code, after_insert,
}
use router_pulse_depin_proto.Mongo.Laws.{insert_one-keeps, insert_one-found}
use router_pulse_depin_proto.Indexer.EventParser.{DecodedEvent}
use router_pulse_depin_proto.Indexer.Retry.{Retried, returned, thrown, undefined_error}
use router_pulse_depin_proto.Indexer.Projections.{apply_event_to_projections}
use router_pulse_depin_proto.Indexer.Projections.Frame.{apply_event-elsewhere}
use router_pulse_depin_proto.Indexer.Ingest.{
  Services, Processed, count, threw, Transaction, has_err, project_events, caught,
  store_and_project, after_batch, claim_signature, claimed_failure, claimed_success,
  process_transaction, process_signature, event_row, claim_doc, events_of,
}

module _ (sv : Services) where
  open sv use {mongo}
  open mongo use {Db, find_one}

  abbrev pub IsClaimed : String → Db → Type 0
  IsClaimed s db = find_one transactions (str s) db ≢ none

  -- What a call leaves of the transactions that were claimed before it.
  pub find_one-project_events :
      (now : ℕ) (evs : List DecodedEvent) (c : Collection) (i : Value) (db : Db)
      → 2 < code c
      → find_one c i (project_events sv now evs db) ≡ find_one c i db
  unfolding project_events
  find_one-project_events now [] c i db h = refl
  find_one-project_events now (ev ∷ rest) c i db h =
      find_one-project_events now rest c i _ h
      ∙ one (apply_event_to_projections sv.router_pda mongo now ev db)
          (λ db1 e. apply_event-elsewhere sv.router_pda mongo ev now c i db db1 h e)
    where
      one :
          (o : Option Db)
          → ((db1 : Db) → o ≡ some db1 → find_one c i db1 ≡ find_one c i db)
          → find_one c i (caught sv db o) ≡ find_one c i db
      one none k = refl
      one (some db1) k = k db1 refl

  find_one-store_and_project :
      (now : ℕ) (evs : List DecodedEvent) (i : Value) (db : Db)
      → find_one transactions i (store_and_project sv now evs db).db ≡ find_one transactions i db
  unfolding store_and_project
  find_one-store_and_project now [] i db = refl
  find_one-store_and_project now (ev ∷ evs) i db =
      batch (mongo.insert_many events (map event_row (ev ∷ evs)) db) (
        mongo.insert_many-elsewhere events (map event_row (ev ∷ evs)) db transactions i
          (λ (e : ◌≡◌ {A = ℕ} 3 4). absurd (omega arith)))
    where
      batch :
          (r : Inserted Db)
          → find_one transactions i (after_insert db r) ≡ find_one transactions i db
          → find_one transactions i (after_batch sv now (ev ∷ evs) r db).db
            ≡ find_one transactions i db
      batch (written db') e =
          find_one-project_events now (ev ∷ evs) transactions i db' (omega arith) ∙ e
      batch duplicate_key e = refl
      batch (failed db') e = e

  module _ (now : ℕ) (s : String) where
    keeps_failure :
        (tx : Transaction) (t : String) (r : Inserted Db) (db : Db)
        → IsClaimed t db
        → IsClaimed t (after_insert db r)
        → IsClaimed t (claimed_failure sv r db).db
    keeps_failure tx t (written db') db h k = k
    keeps_failure tx t duplicate_key db h k = h
    keeps_failure tx t (failed db') db h k = k

    keeps_success :
        (evs : List DecodedEvent) (t : String) (r : Inserted Db) (db : Db)
        → IsClaimed t db
        → IsClaimed t (after_insert db r)
        → IsClaimed t (claimed_success sv now evs r db).db
    keeps_success evs t (written db') db h k =
        λ n. k (sym (find_one-store_and_project now evs (str t) db') ∙ n)
    keeps_success evs t duplicate_key db h k = h
    keeps_success evs t (failed db') db h k = k

    claim_keeps :
        (tx : Transaction) (b : Bool) (n : ℕ) (t : String) (db : Db)
        → IsClaimed t db
        → IsClaimed t (after_insert db (claim_signature sv now s tx b n db))
    unfolding claim_signature
    claim_keeps tx b n t db h =
        insert_one-keeps mongo transactions (str s) (claim_doc now tx b n) db transactions (str t) h

    keeps_transaction :
        (tx : Transaction) (t : String) (db : Db)
        → IsClaimed t db
        → IsClaimed t (process_transaction sv now s tx db).db
    unfolding process_transaction
    keeps_transaction tx t db h =
        let evs = events_of sv s tx in
        elim (Bool-cases (has_err tx.meta)) [
          | inl bad ↦ rw bad (
              keeps_failure tx t (claim_signature sv now s tx true 0 db) db h
                (claim_keeps tx true 0 t db h))
          | inr good ↦ rw good (
              keeps_success evs t (claim_signature sv now s tx false (length evs) db) db h
                (claim_keeps tx false (length evs) t db h))
        ]

    claim_refused :
        (tx : Transaction) (b : Bool) (n : ℕ) (db : Db)
        → IsClaimed s db
        → claim_signature sv now s tx b n db ≡ duplicate_key
    unfolding claim_signature
    claim_refused tx b n db h =
        mongo.insert_one-taken transactions (str s) (claim_doc now tx b n) db h

    pub claim_written :
        (tx : Transaction) (b : Bool) (n : ℕ) (db db' : Db)
        → claim_signature sv now s tx b n db ≡ written db'
        → (find_one transactions (str s) db ≡ none) × IsClaimed s db'
    unfolding claim_signature
    claim_written tx b n db db' e =
        insert_one-found mongo transactions (str s) (claim_doc now tx b n) db e

  -- A signature that is claimed stays claimed, whatever is processed after it.
  pub process_signature-IsClaimed :
      (now : ℕ) (s t : String) (fetched : Retried (Option Transaction)) (db : Db)
      → IsClaimed t db
      → IsClaimed t (process_signature sv now s fetched db).db
  unfolding process_signature
  process_signature-IsClaimed now s t (returned none ds) db h = h
  process_signature-IsClaimed now s t (returned (some tx) ds) db h =
      keeps_transaction now s tx t db h
  process_signature-IsClaimed now s t (thrown e ds) db h = h
  process_signature-IsClaimed now s t undefined_error db h = h

  abbrev pub Replayed : Processed Db → Db → Type 0
  Replayed p db = (p.db ≡ db) × (p.published ≡ []) × ((p.outcome ≡ count 0) ⊎ (p.outcome ≡ threw))

  -- A call for a claimed signature changes nothing, publishes nothing, and counts no event.
  pub process_claimed :
      (now : ℕ) (s : String) (fetched : Retried (Option Transaction)) (db : Db)
      → IsClaimed s db
      → Replayed (process_signature sv now s fetched db) db
  unfolding process_signature
  process_claimed now s (returned none ds) db h = (refl, refl, inl refl)
  process_claimed now s (returned (some tx) ds) db h = elim (Bool-cases (has_err tx.meta)) [
    | inl bad ↦ rw (bad, claim_refused now s tx true 0 db h) (refl, refl, inl refl)
    | inr good ↦
        rw (good, claim_refused now s tx false (length (events_of sv s tx)) db h)
          (refl, refl, inl refl)
  ]
  process_claimed now s (thrown e ds) db h = (refl, refl, inr refl)
  process_claimed now s undefined_error db h = (refl, refl, inr refl)

  success_counts :
      (now : ℕ) (s : String) (evs : List DecodedEvent) (n : ℕ) (r : Inserted Db) (db : Db)
      → ((db' : Db) → r ≡ written db' → (find_one transactions (str s) db ≡ none) × IsClaimed s db')
      → (claimed_success sv now evs r db).outcome ≡ count (suc n)
      → (find_one transactions (str s) db ≡ none) × IsClaimed s (claimed_success sv now evs r db).db
  success_counts now s evs n (written db') db k h =
      let (free, mine) = k db' refl in
      (free, λ e. mine (sym (find_one-store_and_project now evs (str s) db') ∙ e))
  success_counts now s evs n duplicate_key db k h = cc
  success_counts now s evs n (failed db') db k h = cc

  pub failure_counts :
      (n : ℕ) (r : Inserted Db) (db : Db) → (claimed_failure sv r db).outcome ≢ count (suc n)
  failure_counts n (written db') db = cc
  failure_counts n duplicate_key db = cc
  failure_counts n (failed db') db = cc

  -- A call that counts events found its signature unclaimed and leaves it claimed.
  pub process_counts :
      (now : ℕ) (s : String) (fetched : Retried (Option Transaction)) (n : ℕ) (db : Db)
      → (process_signature sv now s fetched db).outcome ≡ count (suc n)
      → (find_one transactions (str s) db ≡ none)
        × IsClaimed s (process_signature sv now s fetched db).db
  unfolding process_signature
  process_counts now s (returned none ds) n db h = cc
  process_counts now s (returned (some tx) ds) n db h =
      let evs = events_of sv s tx in
      elim (Bool-cases (has_err tx.meta)) [
        | inl bad ↦
            absurd (failure_counts n (claim_signature sv now s tx true 0 db) db (rw bad at h))
        | inr good ↦ rw good (
            success_counts now s evs n (claim_signature sv now s tx false (length evs) db) db
              (claim_written now s tx false (length evs) db) (rw good at h))
      ]
  process_counts now s (thrown e ds) n db h = cc
  process_counts now s undefined_error n db h = cc

  -- A claimed signature is counted as no event, unless the RPC throws.
  pub claimed_counts_none :
      (now : ℕ) (s : String) (o : Option Transaction) (ds : List ℕ) (db : Db)
      → IsClaimed s db
      → (process_signature sv now s (returned o ds) db).outcome ≡ count 0
  unfolding process_signature
  claimed_counts_none now s none ds db h = refl
  claimed_counts_none now s (some tx) ds db h = elim (Bool-cases (has_err tx.meta)) [
    | inl bad ↦ rw (bad, claim_refused now s tx true 0 db h) refl
    | inr good ↦ rw (good, claim_refused now s tx false (length (events_of sv s tx)) db h) refl
  ]

  claim_taken :
      (now : ℕ) (s : String) (tx : Transaction) (b : Bool) (n : ℕ) (db : Db)
      → claim_signature sv now s tx b n db ≡ duplicate_key
      → IsClaimed s db
  unfolding claim_signature
  claim_taken now s tx b n db e free =
      mongo.insert_one-free transactions (str s) (claim_doc now tx b n) db free e

  failure_claims :
      (s : String) (n : ℕ) (r : Inserted Db) (db : Db)
      → ((db' : Db) → r ≡ written db' → IsClaimed s db')
      → (r ≡ duplicate_key → IsClaimed s db)
      → (claimed_failure sv r db).outcome ≡ count n
      → IsClaimed s (claimed_failure sv r db).db
  failure_claims s n (written db') db w t e = w db' refl
  failure_claims s n duplicate_key db w t e = t refl
  failure_claims s n (failed db') db w t e = cc

  success_claims :
      (now : ℕ) (s : String) (evs : List DecodedEvent) (n : ℕ) (r : Inserted Db) (db : Db)
      → ((db' : Db) → r ≡ written db' → IsClaimed s db')
      → (r ≡ duplicate_key → IsClaimed s db)
      → (claimed_success sv now evs r db).outcome ≡ count n
      → IsClaimed s (claimed_success sv now evs r db).db
  success_claims now s evs n (written db') db w t e =
      λ m. w db' refl (sym (find_one-store_and_project now evs (str s) db') ∙ m)
  success_claims now s evs n duplicate_key db w t e = t refl
  success_claims now s evs n (failed db') db w t e = cc

  -- A call that got a transaction and did not throw leaves its signature claimed.
  pub process_done-IsClaimed :
      (now : ℕ) (s : String) (tx : Transaction) (ds : List ℕ) (n : ℕ) (db : Db)
      → (process_signature sv now s (returned (some tx) ds) db).outcome ≡ count n
      → IsClaimed s (process_signature sv now s (returned (some tx) ds) db).db
  unfolding process_signature
  process_done-IsClaimed now s tx ds n db e =
      let evs = events_of sv s tx in
      elim (Bool-cases (has_err tx.meta)) [
        | inl bad ↦ rw bad (
            failure_claims s n (claim_signature sv now s tx true 0 db) db
              (λ db' w. (claim_written now s tx true 0 db db' w).1) (claim_taken now s tx true 0 db)
              (rw bad at e))
        | inr good ↦ rw good (
            success_claims now s evs n (claim_signature sv now s tx false (length evs) db) db
              (λ db' w. (claim_written now s tx false (length evs) db db' w).1)
              (claim_taken now s tx false (length evs) db) (rw good at e))
      ]
