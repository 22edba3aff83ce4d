-- ===== src/Indexer/Ingest/Schedule.antt =====
-- Backfill and the live subscription deliver signatures in any order, and may repeat them.
use mathlib.Core.Path.{subst}
use router_pulse_depin_proto.Common.{
  ℕ, zero, suc, ◌+◌, ◌≤◌, String, Bool, true, false, Option, List, [], ◌∷◌, ◌≡◌, refl, sym, arith,
  inl, inr, str_eq, str_eq_iff, ◌&&◌, if◌then◌else◌, Bool-cases,
}
use router_pulse_depin_proto.Indexer.Retry.{Retried}
use router_pulse_depin_proto.Indexer.Ingest.{
  Services, Processed, Outcome, count, threw, Transaction, process_signature,
}
use router_pulse_depin_proto.Indexer.Ingest.Claims.{
  IsClaimed, Replayed, process_signature-IsClaimed, process_claimed, process_counts,
}

-- One call of `processSignature`: its time, its signature and what the RPC answers.
pub record Delivery : Type 0 where
  pub now : ℕ
  pub signature : String
  pub fetched : Retried (Option Transaction)

abbrev counted : Outcome → Bool
counted (count zero) = false
counted (count (suc n)) = true
counted threw = false

module _ (sv : Services) where
  open sv use {mongo}
  open mongo use {Db}

  abbrev pub deliver : Delivery → Db → Processed Db
  deliver d db = process_signature sv d.now d.signature d.fetched db

  -- How many of the calls for a signature count events.
  unfoldable pub effective : String → List Delivery → Db → ℕ
  effective s [] db = 0
  effective s (d ∷ ds) db =
      (if str_eq d.signature s && counted (deliver d db).outcome then 1 else 0)
      + effective s ds (deliver d db).db

  not_counted : (p : Processed Db) (db : Db) → Replayed sv p db → counted p.outcome ≡ false
  not_counted p db (e, f, inl g) = rw g
  not_counted p db (e, f, inr g) = rw g

  effective_claimed :
      (s : String) (ds : List Delivery) (db : Db) → IsClaimed sv s db → effective s ds db ≡ 0
  unfolding effective
  effective_claimed s [] db h = refl
  effective_claimed s (d ∷ ds) db h =
      let rest =
        effective_claimed s ds (deliver d db).db
          (process_signature-IsClaimed sv d.now d.signature s d.fetched db h) in
      elim (Bool-cases (str_eq d.signature s)) [
        | inl same ↦
            let mine = rw (sym ((str_eq_iff d.signature s).0 same)) at h in
            rw
              (not_counted (deliver d db) db
                (process_claimed sv d.now d.signature d.fetched db mine))
              (ground (arith, rest))
        | inr other ↦ rw (other, rest) refl
      ]

  counted-suc : (o : Outcome) → counted o ≡ true → (n : ℕ) × (o ≡ count (suc n))
  counted-suc (count zero) h = cc
  counted-suc (count (suc n)) h = (n, refl)
  counted-suc threw h = cc

  effective-head :
      (s : String) (d : Delivery) (ds : List Delivery) (db : Db)
      → str_eq d.signature s ≡ true
      → counted (deliver d db).outcome ≡ true
      → effective s ds (deliver d db).db ≡ 0
  effective-head s d ds db same h =
      let (n, e) = counted-suc (deliver d db).outcome h in
      let mine = (process_counts sv d.now d.signature d.fetched n db e).1 in
      effective_claimed s ds (deliver d db).db (
        subst (λ (x : String). IsClaimed sv x (deliver d db).db) ((str_eq_iff d.signature s).0 same)
          mine)

-- Whatever the order in which signatures are delivered, and however often each is repeated, at
-- most one call for a signature counts events.
pub effective-le-one :
    (sv : Services) (s : String) (ds : List Delivery) (db : sv.mongo.Db) → effective sv s ds db ≤ 1
unfolding effective
effective-le-one sv s [] db = omega arith
effective-le-one sv s (d ∷ ds) db =
    ground (arith, effective-le-one sv s ds (deliver sv d db).db, effective-head sv s d ds db)

-- A call for a signature that is claimed changes nothing in the store and publishes nothing.
pub redelivery_unchanged :
    (sv : Services) (now : ℕ) (s : String) (fetched : Retried (Option Transaction))
    (db : sv.mongo.Db)
    → IsClaimed sv s db
    → ((process_signature sv now s fetched db).db ≡ db)
      × ((process_signature sv now s fetched db).published ≡ [])
redelivery_unchanged sv now s fetched db h =
    let (same, silent, _) = process_claimed sv now s fetched db h in (same, silent)
