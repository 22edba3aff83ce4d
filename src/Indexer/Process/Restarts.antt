-- ===== src/Indexer/Process/Restarts.antt =====
-- What the restarts of the indexer's process (indexer/src/index.ts) lose, and what they repeat.
use mathlib.Core.Path.{subst}
use mathlib.Core.List.{reverse-reverse}
use router_pulse_depin_proto.Common.{
  ℕ, ◌<◌, String, Bool, true, false, Option, none, some, List, [], ◌∷◌, ◌==◌, ◌≡◌, ◌≢◌, refl, sym,
  ◌∙◌, All, All-map, length, inl, inr, Bool-cases, reverse,
}
use router_pulse_depin_proto.Js.{Value, str}
use router_pulse_depin_proto.Mongo.{
  Mongo, Doc, Collection, code, transactions, protocol, routers, epochs,
}
use router_pulse_depin_proto.Indexer.Ingest.{Services}
use router_pulse_depin_proto.Indexer.Ingest.Claims.{IsClaimed, process_signature-IsClaimed}
use router_pulse_depin_proto.Indexer.Ingest.Schedule.{Delivery}
use router_pulse_depin_proto.Indexer.Backfill.{Backfilled, run_backfill}
use router_pulse_depin_proto.Indexer.Backfill.Pages.{Serves, IsDistinct, collect_history}
use router_pulse_depin_proto.Indexer.Backfill.Rerun.{Fetched, All-reverse, first_claims}
use router_pulse_depin_proto.Indexer.Reconcile.{
  ProtocolAccount, Chain, on_protocol, protocol_update, reconcile_once, reconcile_routers,
  reconcile_epochs,
}
use router_pulse_depin_proto.Indexer.Reconcile.Refresh.{refresh, account_update}
use router_pulse_depin_proto.Indexer.Process.{
  Tick, notified, reconciled, on_logs, live, reconciled_with, Lifetime, running, started, start,
  lived,
}

module _ (m : Mongo) {A : Type 0} (c : Collection) (key : A → Value)
    (fields : A → List (String × Value)) (drifted : A → Option Doc → Bool) where
  -- A loop over one collection leaves the documents of another as they are.
  refresh-elsewhere :
      (now : ℕ) (accounts : List A) (n : ℕ) (d : Collection) (j : Value) (db : m.Db)
      → (code c == code d) ≡ false
      → m.find_one d j (refresh m c key fields drifted now accounts n db).1 ≡ m.find_one d j db
  unfolding refresh
  refresh-elsewhere now [] n d j db h = refl
  refresh-elsewhere now (a ∷ rest) n d j db h =
      refresh-elsewhere now rest _ d j _ h
      ∙ m.find_one-update_one c (key a) (account_update m c key fields drifted now a) db d j
      ∙ rw h refl

module _ (sv : Services) where
  open sv use {mongo, bn_to_string, to_base58}
  open mongo use {Db, find_one, update_one, find_one-update_one}

  pub same_claim :
      (s : String) (db db1 : Db)
      → find_one transactions (str s) db1 ≡ find_one transactions (str s) db
      → IsClaimed sv s db
      → IsClaimed sv s db1
  same_claim s db db1 e h = λ g. h (sym e ∙ g)

  on_protocol-elsewhere :
      (now : ℕ) (o : Option ProtocolAccount) (chain : Chain) (s : String) (db : Db)
      → find_one transactions (str s) (on_protocol bn_to_string to_base58 mongo now o chain db).db
        ≡ find_one transactions (str s) db
  unfolding reconcile_routers reconcile_epochs
  on_protocol-elsewhere now none chain s db = refl
  on_protocol-elsewhere now (some account) chain s db =
      refresh-elsewhere mongo epochs _ _ _ now chain.all_epochs 0 transactions (str s) _ refl
      ∙ refresh-elsewhere mongo routers _ _ _ now chain.all_routers 0 transactions (str s) _ refl
      ∙ find_one-update_one protocol (str "protocol")
          (protocol_update bn_to_string to_base58 mongo now account) db transactions (str s)

  pub reconciled_with-IsClaimed :
      (now : ℕ) (o : Option Chain) (s : String) (db : Db)
      → IsClaimed sv s db
      → IsClaimed sv s (reconciled_with sv now o db)
  unfolding reconcile_once
  reconciled_with-IsClaimed now none s db h = h
  reconciled_with-IsClaimed now (some chain) s db h =
      same_claim s db _ (on_protocol-elsewhere now chain.protocol_account chain s db) h

  pub on_logs-IsClaimed :
      (err : Bool) (d : Delivery) (s : String) (db : Db)
      → IsClaimed sv s db
      → IsClaimed sv s (on_logs sv err d db).0
  unfolding on_logs
  on_logs-IsClaimed true d s db h = h
  on_logs-IsClaimed false d s db h =
      process_signature-IsClaimed sv d.now d.signature s d.fetched db h

  pub live-IsClaimed :
      (ts : List Tick) (s : String) (db : Db) → IsClaimed sv s db → IsClaimed sv s (live sv ts db)
  unfolding live
  live-IsClaimed [] s db h = h
  live-IsClaimed (notified err d ∷ ts) s db h =
      live-IsClaimed ts s _ (on_logs-IsClaimed err d s db h)
  live-IsClaimed (reconciled now chain ∷ ts) s db h =
      live-IsClaimed ts s _ (reconciled_with-IsClaimed now chain s db h)

  started_db :
      (b : Backfilled Db) (db1 : Db) → b.finished ≡ true → started sv b ≡ running db1 → b.db ≡ db1
  started_db b db1 h e = let e' = rw h at e in cc

  not_running : (b : Backfilled Db) (db1 : Db) → b.finished ≡ false → started sv b ≢ running db1
  not_running b db1 h e = let e' = rw h at e in cc

  started-running :
      (l : Lifetime) (db db1 : Db)
      → start sv l db ≡ running db1
      → let b = run_backfill sv l.fetch l.now l.rpc l.page_size l.fuel db in
        (b.finished ≡ true) × (b.db ≡ db1)
  unfolding start
  started-running l db db1 e =
      let b = run_backfill sv l.fetch l.now l.rpc l.page_size l.fuel db in
      elim (Bool-cases b.finished) [
        | inl h ↦ (h, started_db b db1 h e)
        | inr h ↦ absurd (not_running b db1 h e)
      ]

  -- A start of the process that comes up has claimed every signature of the program's history,
  -- whatever was in the store before: also those whose notification was lost while no process ran,
  -- or came before the transaction could be fetched. None of the notifications and reconciliations
  -- that follow loses a claim. This is for an RPC that serves the history, without repetition and
  -- with a transaction for each signature.
  pub start-claims :
      (l : Lifetime) (history : List String) (db db1 : Db)
      → 0 < l.page_size
      → Serves l.rpc l.page_size history
      → IsDistinct history
      → length history < l.fuel
      → All (Fetched sv l.fetch) history
      → start sv l db ≡ running db1
      → All (λ s. IsClaimed sv s (lived sv l db)) history
  unfolding lived
  start-claims l history db db1 h served distinct lt fetched e =
      let (finished, same) = started-running l db db1 e in
      let whole = collect_history l.rpc l.page_size l.fuel history h served distinct lt in
      let claimed =
        first_claims sv l.fetch l.rpc l.page_size l.fuel history whole fetched l.now db finished in
      rw e (
        All-map history (λ s c. live-IsClaimed l.ticks s db1 (subst (IsClaimed sv s) same c))
          (subst (All (λ s. IsClaimed sv s _)) (reverse-reverse history)
            (All-reverse (λ s. IsClaimed sv s _) (reverse history) claimed)))
