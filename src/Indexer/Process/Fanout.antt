-- ===== src/Indexer/Process/Fanout.antt =====
-- What the process publishes over its restarts (indexer/src/index.ts, live.ts, publisher.ts).
use native.Mathlib.Nat.{zero-add}
use mathlib.Core.Path.{subst}
use router_pulse_depin_proto.Common.{
  ℕ, suc, ◌+◌, ◌≤◌, String, Bool, true, false, Option, none, some, List, [], ◌∷◌, ◌≡◌, refl, ap,
  sym, arith, length, ◌⊎◌, inl, inr, str_eq, str_eq_iff, if◌then◌else◌, Bool-cases,
}
use router_pulse_depin_proto.Mongo.{Inserted, written, duplicate_key, failed}
use router_pulse_depin_proto.Indexer.EventParser.{DecodedEvent}
use router_pulse_depin_proto.Indexer.Retry.{Retried, returned, thrown, undefined_error}
use router_pulse_depin_proto.Indexer.Ingest.{
  Services, Processed, Outcome, count, threw, Transaction, has_err, after_batch, store_and_project,
  claimed_failure, claimed_success, process_transaction, process_signature, events_of,
  claim_signature,
}
use router_pulse_depin_proto.Indexer.Ingest.Claims.{
  IsClaimed, process_signature-IsClaimed, process_claimed, process_counts,
}
use router_pulse_depin_proto.Indexer.Ingest.Schedule.{Delivery, deliver}
use router_pulse_depin_proto.Indexer.Backfill.{
  Collected, collected, rpc_threw, out_of_fuel, silent, after_call, index_signatures, summarise,
  indexed_from, run_backfill, collect,
}
use router_pulse_depin_proto.Indexer.Backfill.Rerun.{after_cursor}
use router_pulse_depin_proto.Indexer.Process.{
  Tick, notified, reconciled, on_logs, live, reconciled_with, Lifetime, Started, running, exited,
  start, goes_on, lived,
}
use router_pulse_depin_proto.Indexer.Process.Restarts.{
  on_logs-IsClaimed, live-IsClaimed, reconciled_with-IsClaimed,
}

-- Whether a notification of a signature published events.
abbrev announces : String → Delivery → List DecodedEvent → ℕ
announces s d [] = 0
announces s d (e ∷ es) = if str_eq d.signature s then 1 else 0

module _ (sv : Services) where
  open sv use {mongo}
  open mongo use {Db}

  -- How many notifications of a signature publish events: in a life of the process, and in several
  -- that follow each other. The backfill publishes nothing.
  unfoldable pub announced : String → List Tick → Db → ℕ
  announced s [] db = 0
  announced s (notified err d ∷ ts) db =
      let (db1, published) = on_logs sv err d db in announces s d published + announced s ts db1
  announced s (reconciled now chain ∷ ts) db = announced s ts (reconciled_with sv now chain db)

  abbrev announced_by : String → Started sv → List Tick → ℕ
  announced_by s (running db) ts = announced s ts db
  announced_by s (exited db) ts = 0

  unfoldable pub announced_in_all : String → List Lifetime → Db → ℕ
  unfolding announced
  announced_in_all s [] db = 0
  announced_in_all s (l ∷ ls) db =
      announced_by s (start sv l db) l.ticks + announced_in_all s ls (lived sv l db)

  -- Only a call that counts events publishes any.
  abbrev Counted : Processed Db → Type 0
  Counted p = (p.published ≡ []) ⊎ ((n : ℕ) × (p.outcome ≡ count (suc n)))

  after_batch-Counted :
      (now : ℕ) (ev : DecodedEvent) (evs : List DecodedEvent) (r : Inserted Db) (db : Db)
      → Counted (after_batch sv now (ev ∷ evs) r db)
  after_batch-Counted now ev evs (written db1) db = inr (length evs, refl)
  after_batch-Counted now ev evs duplicate_key db = inl refl
  after_batch-Counted now ev evs (failed db1) db = inl refl

  store-Counted :
      (now : ℕ) (evs : List DecodedEvent) (db : Db) → Counted (store_and_project sv now evs db)
  unfolding store_and_project
  store-Counted now [] db = inl refl
  store-Counted now (ev ∷ evs) db = after_batch-Counted now ev evs _ db

  success-Counted :
      (now : ℕ) (evs : List DecodedEvent) (r : Inserted Db) (db : Db)
      → Counted (claimed_success sv now evs r db)
  success-Counted now evs (written db1) db = store-Counted now evs db1
  success-Counted now evs duplicate_key db = inl refl
  success-Counted now evs (failed db1) db = inl refl

  failure-Counted : (r : Inserted Db) (db : Db) → Counted (claimed_failure sv r db)
  failure-Counted (written db1) db = inl refl
  failure-Counted duplicate_key db = inl refl
  failure-Counted (failed db1) db = inl refl

  process-Counted :
      (now : ℕ) (s : String) (r : Retried (Option Transaction)) (db : Db)
      → Counted (process_signature sv now s r db)
  unfolding process_signature process_transaction
  process-Counted now s (returned none ds) db = inl refl
  process-Counted now s (returned (some tx) ds) db = elim (Bool-cases (has_err tx.meta)) [
    | inl bad ↦ rw bad (failure-Counted (claim_signature sv now s tx true 0 db) db)
    | inr good ↦ rw good (success-Counted now (events_of sv s tx) _ db)
  ]
  process-Counted now s (thrown e ds) db = inl refl
  process-Counted now s undefined_error db = inl refl

  -- A loop over signatures unclaims none.
  index-IsClaimed :
      (fetch : String → Retried (Option Transaction)) (now : ℕ) (ss : List String) (n : ℕ)
      (s : String) (db : Db)
      → IsClaimed sv s db
      → IsClaimed sv s (index_signatures sv fetch now ss n db).1
  unfolding index_signatures
  index-IsClaimed fetch now [] n s db h = h
  index-IsClaimed fetch now (t ∷ ts) n s db h =
      let p = process_signature (silent sv) now t (fetch t) db in
      let kept = process_signature-IsClaimed (silent sv) now t s (fetch t) db h in
      called p.outcome p.db kept (λ m. index-IsClaimed fetch now ts (n + m) s p.db kept)
    where
      called :
          (o : Outcome) (db1 : Db)
          → IsClaimed sv s db1
          → ((m : ℕ) → IsClaimed sv s (index_signatures sv fetch now ts (n + m) db1).1)
          → IsClaimed sv s
              (after_call sv fetch now o db1 (λ m. index_signatures sv fetch now ts (n + m) db1)).1
      called (count m) db1 c k = k m
      called threw db1 c k = c

  summarise-IsClaimed :
      (fetch : String → Retried (Option Transaction)) (now seen : ℕ) (s : String)
      (r : Option ℕ × Db)
      → IsClaimed sv s r.1
      → IsClaimed sv s (summarise sv fetch now seen r).db
  summarise-IsClaimed fetch now seen s (some k, db) h = after_cursor sv fetch now seen k s db h
  summarise-IsClaimed fetch now seen s (none, db) h = h

  indexed_from-IsClaimed :
      (fetch : String → Retried (Option Transaction)) (now : ℕ) (c : Collected) (s : String)
      (db : Db)
      → IsClaimed sv s db
      → IsClaimed sv s (indexed_from sv fetch now c db).db
  unfolding index_signatures
  indexed_from-IsClaimed fetch now (collected all) s db h =
      summarise-IsClaimed fetch now (length all) s _ (index-IsClaimed fetch now _ 0 s db h)
  indexed_from-IsClaimed fetch now rpc_threw s db h = h
  indexed_from-IsClaimed fetch now out_of_fuel s db h = h

  abbrev db_of : Started sv → Db
  db_of (running db) = db
  db_of (exited db) = db

  start-IsClaimed :
      (l : Lifetime) (s : String) (db : Db)
      → IsClaimed sv s db
      → IsClaimed sv s (db_of (start sv l db))
  unfolding start run_backfill
  start-IsClaimed l s db h =
      let kept =
        indexed_from-IsClaimed l.fetch l.now (collect l.rpc l.page_size l.fuel none []) s db h in
      elim (Bool-cases (run_backfill sv l.fetch l.now l.rpc l.page_size l.fuel db).finished) [
        | inl e ↦ rw e kept
        | inr e ↦ rw e kept
      ]

  goes_on-IsClaimed :
      (o : Started sv) (ts : List Tick) (s : String)
      → IsClaimed sv s (db_of o)
      → IsClaimed sv s (goes_on sv o ts)
  goes_on-IsClaimed (running db) ts s h = live-IsClaimed sv ts s db h
  goes_on-IsClaimed (exited db) ts s h = h

  announces_other :
      (s : String) (d : Delivery) (es : List DecodedEvent)
      → str_eq d.signature s ≡ false
      → announces s d es ≡ 0
  announces_other s d [] h = refl
  announces_other s d (e ∷ es) h = rw h refl

  announces_none :
      (s : String) (d : Delivery) (es : List DecodedEvent) → es ≡ [] → announces s d es ≡ 0
  announces_none s d es h = ap (announces s d) h

  announces-le-one : (s : String) (d : Delivery) (es : List DecodedEvent) → announces s d es ≤ 1
  announces-le-one s d [] = omega arith
  announces-le-one s d (e ∷ es) = ground arith

  deliver-IsClaimed :
      (s : String) (d : Delivery) (db : Db)
      → str_eq d.signature s ≡ true
      → (n : ℕ) × ((deliver sv d db).outcome ≡ count (suc n))
      → IsClaimed sv s (deliver sv d db).db
  deliver-IsClaimed s d db same (n, e) =
      subst (λ t. IsClaimed sv t (deliver sv d db).db) ((str_eq_iff d.signature s).0 same)
        (process_counts sv d.now d.signature d.fetched n db e).1

  -- A notification publishes nothing, or leaves its signature claimed.
  announces-IsClaimed :
      (s : String) (err : Bool) (d : Delivery) (db : Db)
      → (announces s d (on_logs sv err d db).1 ≡ 0) ⊎ IsClaimed sv s (on_logs sv err d db).0
  unfolding on_logs
  announces-IsClaimed s true d db = inl refl
  announces-IsClaimed s false d db = elim (Bool-cases (str_eq d.signature s)) [
    | inr other ↦ inl (announces_other s d (deliver sv d db).published other)
    | inl same ↦ elim (process-Counted d.now d.signature d.fetched db) [
      | inl silent ↦ inl (announces_none s d (deliver sv d db).published silent)
      | inr counted ↦ inr (deliver-IsClaimed s d db same counted)
    ]
  ]

  announces_claimed :
      (s : String) (err : Bool) (d : Delivery) (db : Db)
      → IsClaimed sv s db
      → announces s d (on_logs sv err d db).1 ≡ 0
  unfolding on_logs
  announces_claimed s true d db h = refl
  announces_claimed s false d db h = elim (Bool-cases (str_eq d.signature s)) [
    | inr other ↦ announces_other s d (deliver sv d db).published other
    | inl same ↦
        let mine = subst (λ t. IsClaimed sv t db) (sym ((str_eq_iff d.signature s).0 same)) h in
        announces_none s d (deliver sv d db).published
          (process_claimed sv d.now d.signature d.fetched db mine).1
  ]

  announced_claimed :
      (s : String) (ts : List Tick) (db : Db) → IsClaimed sv s db → announced s ts db ≡ 0
  unfolding announced
  announced_claimed s [] db h = refl
  announced_claimed s (notified err d ∷ ts) db h =
      rw (announces_claimed s err d db h, zero-add)
        (announced_claimed s ts _ (on_logs-IsClaimed sv err d s db h))
  announced_claimed s (reconciled now chain ∷ ts) db h =
      announced_claimed s ts _ (reconciled_with-IsClaimed sv now chain s db h)

  announced_by_claimed :
      (s : String) (o : Started sv) (ts : List Tick)
      → IsClaimed sv s (db_of o)
      → announced_by s o ts ≡ 0
  announced_by_claimed s (running db) ts h = announced_claimed s ts db h
  announced_by_claimed s (exited db) ts h = refl

  all_claimed :
      (s : String) (ls : List Lifetime) (db : Db) → IsClaimed sv s db → announced_in_all s ls db ≡ 0
  unfolding announced_in_all lived
  all_claimed s [] db h = refl
  all_claimed s (l ∷ ls) db h =
      let up = start-IsClaimed l s db h in
      rw (announced_by_claimed s (start sv l db) l.ticks up, zero-add)
        (all_claimed s ls _ (goes_on-IsClaimed (start sv l db) l.ticks s up))

  -- One life publishes a signature's events at most once, and leaves it claimed if it does.
  Once : String → ℕ → Db → Type 0
  Once s n db = (n ≡ 0) ⊎ ((n ≤ 1) × IsClaimed sv s db)

  announced-Once :
      (s : String) (ts : List Tick) (db : Db) → Once s (announced s ts db) (live sv ts db)
  unfolding Once announced live
  announced-Once s [] db = inl refl
  announced-Once s (reconciled now chain ∷ ts) db = announced-Once s ts _
  announced-Once s (notified err d ∷ ts) db =
      let (db1, published) = on_logs sv err d db in
      elim (announces-IsClaimed s err d db) [
        | inl silent ↦ rw (silent, zero-add) (announced-Once s ts db1)
        | inr claimed ↦ inr (
          omega (arith, announces-le-one s d published, announced_claimed s ts db1 claimed),
          live-IsClaimed sv ts s db1 claimed,
        )
      ]

  started-Once :
      (s : String) (o : Started sv) (ts : List Tick)
      → Once s (announced_by s o ts) (goes_on sv o ts)
  started-Once s (running db) ts = announced-Once s ts db
  started-Once s (exited db) ts = unfold Once in inl refl

  -- However often the process is restarted, and in whatever order notifications come, repeat and
  -- mix with reconciliations: the events of a signature are published for at most one notification.
  pub announced-le-one : (s : String) (ls : List Lifetime) (db : Db) → announced_in_all s ls db ≤ 1
  unfolding announced_in_all lived Once
  announced-le-one s [] db = omega arith
  announced-le-one s (l ∷ ls) db = elim (started-Once s (start sv l db) l.ticks) [
    | inl none_yet ↦ rw none_yet (omega (arith, announced-le-one s ls (lived sv l db)))
    | inr (once, claimed) ↦ rw (all_claimed s ls (lived sv l db) claimed) (omega (arith, once))
  ]
