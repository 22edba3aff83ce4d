-- ===== src/Indexer/Backfill/Rerun.antt =====
-- A backfill that has finished leaves nothing for the next one.
use mathlib.Core.Path.{subst}
use mathlib.Core.List.{reverse-append}
use router_pulse_depin_proto.Common.{
  ℕ, ◌+◌, ◌<◌, String, true, Option, none, some, List, [], ◌∷◌, ◌++◌, reverse, ◌≡◌, refl, ap, sym,
  ◌∙◌, arith, All, All-map, length,
}
use router_pulse_depin_proto.Js.{str}
use router_pulse_depin_proto.Mongo.{sync_cursors, transactions}
use router_pulse_depin_proto.Indexer.Retry.{Retried, returned}
use router_pulse_depin_proto.Indexer.Ingest.{
  Services, Outcome, count, threw, Transaction, process_signature,
}
use router_pulse_depin_proto.Indexer.Ingest.Claims.{
  IsClaimed, process_signature-IsClaimed, process_claimed, claimed_counts_none,
  process_done-IsClaimed,
}
use router_pulse_depin_proto.Indexer.Backfill.{
  collected, silent, after_call, index_signatures, cursor, summarise, collect, run_backfill,
}
use router_pulse_depin_proto.Indexer.Backfill.Pages.{Serves, IsDistinct, collect_history}

All-append : (P : String → Type 0) (xs ys : List String) → All P xs → All P ys → All P (xs ++ ys)
All-append P [] ys h k = k
All-append P (x ∷ xs) ys (p, h) k = (p, All-append P xs ys h k)

pub All-reverse : (P : String → Type 0) (xs : List String) → All P xs → All P (reverse xs)
All-reverse P [] h = tt
All-reverse P (x ∷ xs) (p, h) =
    subst (All P) (sym (reverse-append (x ∷ []) xs))
      (All-append P (reverse xs) (x ∷ []) (All-reverse P xs h) (p, tt))

module _ (sv : Services) (fetch : String → Retried (Option Transaction)) where
  open sv use {mongo}
  open mongo use {Db, find_one, update_one}

  -- The RPC has a transaction for each signature of the history.
  pub record Fetched (s : String) : Type 0 where
    pub tx : Transaction
    pub delays : List ℕ
    pub fetched : fetch s ≡ returned (some tx) delays

  abbrev AllClaimed : List String → Db → Type 0
  AllClaimed ss db = All (λ s. IsClaimed (silent sv) s db) ss

  -- Signatures that are claimed are passed over.
  index_claimed :
      (now : ℕ) (ss : List String) (n : ℕ) (db : Db)
      → All Fetched ss
      → AllClaimed ss db
      → index_signatures sv fetch now ss n db ≡ (some n, db)
  unfolding index_signatures
  index_claimed now [] n db f h = refl
  index_claimed now (s ∷ ss) n db (f, fs) (h, hs) =
      let none_new =
        ap
          (λ (r : Retried (Option Transaction)). (process_signature (silent sv) now s r db).outcome)
          f.fetched
        ∙ claimed_counts_none (silent sv) now s (some f.tx) f.delays db h in
      let same = (process_claimed (silent sv) now s (fetch s) db h).0 in
      let no_more : n + 0 ≡ n = omega arith in
      rw (none_new, same, no_more) (index_claimed now ss n db fs hs)

  -- A loop that does not throw claims every signature, and unclaims none.
  index_claims :
      (now : ℕ) (ss : List String) (n k : ℕ) (db db1 : Db)
      → All Fetched ss
      → index_signatures sv fetch now ss n db ≡ (some k, db1)
      → AllClaimed ss db1
        × ((t : String) → IsClaimed (silent sv) t db → IsClaimed (silent sv) t db1)
  unfolding index_signatures
  index_claims now [] n k db db1 f e =
      (tt, λ t h. subst (IsClaimed (silent sv) t) (ap (λ (p : Option ℕ × Db). p.1) e) h)
  index_claims now (s ∷ ss) n k db db1 (f, fs) e =
      go (process_signature (silent sv) now s (fetch s) db).outcome refl e (λ m q.
        index_claims now ss (n + m) k (process_signature (silent sv) now s (fetch s) db).db db1 fs
          q)
    where
      P : Db
      P = (process_signature (silent sv) now s (fetch s) db).db

      mine :
          (m : ℕ)
          → (process_signature (silent sv) now s (fetch s) db).outcome ≡ count m
          → IsClaimed (silent sv) s P
      mine m q =
          subst
            (λ (r : Retried (Option Transaction)).
              IsClaimed (silent sv) s (process_signature (silent sv) now s r db).db)
            (sym f.fetched)
            (process_done-IsClaimed (silent sv) now s f.tx f.delays m db (
              ap
                (λ (r : Retried (Option Transaction)).
                  (process_signature (silent sv) now s r db).outcome)
                (sym f.fetched)
              ∙ q))

      go :
          (o : Outcome)
          → (process_signature (silent sv) now s (fetch s) db).outcome ≡ o
          → after_call sv fetch now o P (λ m. index_signatures sv fetch now ss (n + m) P)
            ≡ (some k, db1)
          → ((m : ℕ)
              → index_signatures sv fetch now ss (n + m) P ≡ (some k, db1)
              → AllClaimed ss db1
                × ((t : String) → IsClaimed (silent sv) t P → IsClaimed (silent sv) t db1))
          → AllClaimed (s ∷ ss) db1
            × ((t : String) → IsClaimed (silent sv) t db → IsClaimed (silent sv) t db1)
      go (count m) q e ih =
          let (rest, keep) = ih m e in
          (
            (keep s (mine m q), rest),
            λ t h. keep t (process_signature-IsClaimed (silent sv) now s t (fetch s) db h),
          )
      go threw q e ih = cc

  pub after_cursor :
      (now seen indexed : ℕ) (s : String) (db : Db)
      → IsClaimed (silent sv) s db
      → IsClaimed
          (silent sv)
          s
          (update_one sync_cursors (str "backfill") (cursor sv fetch now seen indexed) db)
  after_cursor now seen indexed s db h = λ e. h (
      sym (
        mongo.find_one-update_one sync_cursors (str "backfill") (cursor sv fetch now seen indexed)
          db transactions (str s))
      ∙ e)

  module _ (rpc : Option String → ℕ → Retried (List String)) (page_size fuel : ℕ)
      (history : List String) (whole : collect rpc page_size fuel none [] ≡ collected history)
      (fetched : All Fetched history) where
    backfill_claims :
        (now : ℕ) (o : Option ℕ × Db) (db : Db)
        → index_signatures sv fetch now (reverse history) 0 db ≡ o
        → (summarise sv fetch now (length history) o).finished ≡ true
        → AllClaimed (reverse history) (summarise sv fetch now (length history) o).db
    backfill_claims now (some k, db1) db e h =
        All-map (reverse history) (λ s c. after_cursor now (length history) k s db1 c)
          (index_claims now (reverse history) 0 k db db1 (All-reverse Fetched history fetched) e).0
    backfill_claims now (none, db1) db e h = cc

    again_nothing :
        (now : ℕ) (db : Db)
        → AllClaimed (reverse history) db
        → let b = run_backfill sv fetch now rpc page_size fuel db in
          (b.events ≡ 0) × (b.signatures ≡ length history) × (b.finished ≡ true)
    unfolding run_backfill
    again_nothing now db h =
        rw (whole, index_claimed now (reverse history) 0 db (All-reverse Fetched history fetched) h)
          (refl, refl, refl)

    pub first_claims :
        (now : ℕ) (db : Db)
        → (run_backfill sv fetch now rpc page_size fuel db).finished ≡ true
        → AllClaimed (reverse history) (run_backfill sv fetch now rpc page_size fuel db).db
    unfolding run_backfill
    first_claims now db h = rw whole (
        backfill_claims now (index_signatures sv fetch now (reverse history) 0 db) db refl
          (rw whole at h))

-- Where the RPC serves a history without repetition and has a transaction for every signature, a
-- backfill that follows a finished one sees the same signatures, finishes, and indexes no event.
pub rerun_indexes_nothing :
    (sv : Services) (fetch : String → Retried (Option Transaction)) (now later : ℕ)
    (rpc : Option String → ℕ → Retried (List String)) (page_size fuel : ℕ) (history : List String)
    (db : sv.mongo.Db)
    → 0 < page_size
    → Serves rpc page_size history
    → IsDistinct history
    → length history < fuel
    → All (Fetched sv fetch) history
    → (run_backfill sv fetch now rpc page_size fuel db).finished ≡ true
    → let first = run_backfill sv fetch now rpc page_size fuel db in
      let second = run_backfill sv fetch later rpc page_size fuel first.db in
      (second.events ≡ 0) × (second.signatures ≡ length history) × (second.finished ≡ true)
rerun_indexes_nothing sv fetch now later rpc page_size fuel history db h served distinct lt fetched
      f =
    let whole = collect_history rpc page_size fuel history h served distinct lt in
    again_nothing sv fetch rpc page_size fuel history whole fetched later
      (run_backfill sv fetch now rpc page_size fuel db).db
      (first_claims sv fetch rpc page_size fuel history whole fetched now db f)
