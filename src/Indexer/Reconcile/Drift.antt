-- ===== src/Indexer/Reconcile/Drift.antt =====
-- A second pass over an unchanged chain finds no drift, and what a pass leaves is what the chain has.
use router_pulse_depin_proto.Common.{
  ℕ, String, Bool, true, false, Option, none, some, List, ◌≡◌, ◌≢◌, refl, ap, ◌∙◌, All, All-map,
  str_eq_iff,
}
use router_pulse_depin_proto.Common.Int.{ℤ}
use router_pulse_depin_proto.Js.{Value, str, bool, strict_eq, Fields, end, field}
use router_pulse_depin_proto.Mongo.{Doc, Mongo, routers, epochs, protocol}
use router_pulse_depin_proto.Mongo.Laws.{field_of}
use router_pulse_depin_proto.Indexer.Reconcile.Refresh.{
  Shows, Synced, DistinctKeys, refresh-Synced, refresh_quiet, refresh-elsewhere,
}
use router_pulse_depin_proto.Indexer.Reconcile.{
  ProtocolAccount, RouterAccount, RouterEpochAccount, Chain, Reconciled, first_key, member, amount,
  router_key, router_fields, router_drifted, epoch_doc_key, epoch_fields, epoch_drifted,
  reconcile_routers, reconcile_epochs, passes, on_protocol, protocol_update, reconcile_once,
}

strict_eq-str : (s : String) → strict_eq (str s) (str s) ≡ true
unfolding strict_eq
strict_eq-str s = (str_eq_iff s s).1 refl

strict_eq-bool : (b : Bool) → strict_eq (bool b) (bool b) ≡ true
unfolding strict_eq
strict_eq-bool true = refl
strict_eq-bool false = refl

strict_eq-key : (fs : Fields) → strict_eq (first_key fs) (first_key fs) ≡ true
unfolding strict_eq
strict_eq-key end = refl
strict_eq-key (field k v fs) = (str_eq_iff k k).1 refl

shown : (f : String) (v : Value) (d : Doc) → d f ≡ some v → member f d ≡ v
shown f v d e = rw (e, member)

module _ (bn_to_string : ℤ → String) (to_base58 : ℕ → String) (m : Mongo) where
  router_quiet :
      (a : RouterAccount) (o : Option Doc)
      → Shows m routers
          (router_key bn_to_string to_base58)
          (router_fields bn_to_string to_base58)
          (router_drifted bn_to_string to_base58)
          a
          o
      → router_drifted bn_to_string to_base58 a o ≡ false
  router_quiet a none h = refl
  router_quiet a (some d) h =
      rw
        (
          shown "status" (first_key a.status) d (h "status" (first_key a.status) refl),
          shown "stakedAmount" (amount bn_to_string to_base58 a.staked_amount) d
              (h "stakedAmount" (amount bn_to_string to_base58 a.staked_amount) refl),
          strict_eq-key a.status,
          strict_eq-str,
        )
        refl

  epoch_quiet :
      (a : RouterEpochAccount) (o : Option Doc)
      → Shows m epochs
          (epoch_doc_key bn_to_string to_base58)
          (epoch_fields bn_to_string to_base58)
          (epoch_drifted bn_to_string to_base58)
          a
          o
      → epoch_drifted bn_to_string to_base58 a o ≡ false
  epoch_quiet a none h = cc (h "finalized" (bool a.finalized) refl)
  epoch_quiet a (some d) h =
      rw
        (
          shown "finalized" (bool a.finalized) d (h "finalized" (bool a.finalized) refl),
          shown "rewardAmount" (amount bn_to_string to_base58 a.reward_amount) d
              (h "rewardAmount" (amount bn_to_string to_base58 a.reward_amount) refl),
          strict_eq-bool,
          strict_eq-str,
        )
        refl

  abbrev SyncedRouter : m.Db → RouterAccount → Type 0
  SyncedRouter db a =
      Synced m routers (router_key bn_to_string to_base58) (router_fields bn_to_string to_base58)
        (router_drifted bn_to_string to_base58) a db

  abbrev SyncedEpoch : m.Db → RouterEpochAccount → Type 0
  SyncedEpoch db a =
      Synced m epochs (epoch_doc_key bn_to_string to_base58) (epoch_fields bn_to_string to_base58)
        (epoch_drifted bn_to_string to_base58) a db

  -- Distinct accounts have distinct addresses, and distinct epoch records distinct keys.
  pub record IsKeyed (chain : Chain) : Type 0 where
    pub router_keys :
        DistinctKeys m routers
          (router_key bn_to_string to_base58)
          (router_fields bn_to_string to_base58)
          (router_drifted bn_to_string to_base58)
          chain.all_routers
    pub epoch_keys :
        DistinctKeys m epochs
          (epoch_doc_key bn_to_string to_base58)
          (epoch_fields bn_to_string to_base58)
          (epoch_drifted bn_to_string to_base58)
          chain.all_epochs

  -- Each router and each epoch of the chain has a document that shows its fields.
  pub record IsSynced (chain : Chain) (db : m.Db) : Type 0 where
    pub routers_shown : All (SyncedRouter db) chain.all_routers
    pub epochs_shown : All (SyncedEpoch db) chain.all_epochs

  -- Documents that two states share show the same accounts in both.
  move_routers :
      (xs : List RouterAccount) (db db1 : m.Db)
      → ((j : Value) → m.find_one routers j db1 ≡ m.find_one routers j db)
      → All (SyncedRouter db) xs
      → All (SyncedRouter db1) xs
  move_routers xs db db1 same h =
      All-map xs
        (λ a s f v e.
          ap (λ (o : Option Doc). field_of o f) (same (router_key bn_to_string to_base58 a))
          ∙ s f v e)
        h

  move_epochs :
      (xs : List RouterEpochAccount) (db db1 : m.Db)
      → ((j : Value) → m.find_one epochs j db1 ≡ m.find_one epochs j db)
      → All (SyncedEpoch db) xs
      → All (SyncedEpoch db1) xs
  move_epochs xs db db1 same h =
      All-map xs
        (λ a s f v e.
          ap (λ (o : Option Doc). field_of o f) (same (epoch_doc_key bn_to_string to_base58 a))
          ∙ s f v e)
        h

  module _ (chain : Chain) (keyed : IsKeyed chain) (now : ℕ) where
    abbrev pass : m.Db → Reconciled m.Db
    pass db = passes bn_to_string to_base58 m now chain db

    pass-IsSynced : (db : m.Db) → IsSynced chain (pass db).db
    unfolding reconcile_routers reconcile_epochs
    pass-IsSynced db = record {
      routers_shown =
          move_routers chain.all_routers
            (reconcile_routers bn_to_string to_base58 m now chain.all_routers 0 db).1 (pass db).db
            (λ j.
              refresh-elsewhere m epochs (epoch_doc_key bn_to_string to_base58)
                (epoch_fields bn_to_string to_base58) (epoch_drifted bn_to_string to_base58) now
                chain.all_epochs 0 routers j
                (reconcile_routers bn_to_string to_base58 m now chain.all_routers 0 db).1 refl)
            (refresh-Synced m routers (router_key bn_to_string to_base58)
              (router_fields bn_to_string to_base58) (router_drifted bn_to_string to_base58) now
              chain.all_routers 0 db keyed.router_keys);
      epochs_shown =
          refresh-Synced m epochs (epoch_doc_key bn_to_string to_base58)
            (epoch_fields bn_to_string to_base58) (epoch_drifted bn_to_string to_base58) now
            chain.all_epochs 0
            (reconcile_routers bn_to_string to_base58 m now chain.all_routers 0 db).1
            keyed.epoch_keys;
    }

    pass_quiet : (db : m.Db) → IsSynced chain db → (pass db).drifted ≡ 0
    unfolding reconcile_routers reconcile_epochs
    pass_quiet db s =
        let first =
          refresh_quiet m routers (router_key bn_to_string to_base58)
            (router_fields bn_to_string to_base58) (router_drifted bn_to_string to_base58)
            router_quiet now chain.all_routers 0 db keyed.router_keys s.routers_shown in
        let second =
          refresh_quiet m epochs (epoch_doc_key bn_to_string to_base58)
            (epoch_fields bn_to_string to_base58) (epoch_drifted bn_to_string to_base58) epoch_quiet
            now chain.all_epochs 0
            (reconcile_routers bn_to_string to_base58 m now chain.all_routers 0 db).1
            keyed.epoch_keys
            (move_epochs chain.all_epochs db
              (reconcile_routers bn_to_string to_base58 m now chain.all_routers 0 db).1
              (λ j.
                refresh-elsewhere m routers (router_key bn_to_string to_base58)
                  (router_fields bn_to_string to_base58) (router_drifted bn_to_string to_base58) now
                  chain.all_routers 0 epochs j db refl)
              s.epochs_shown) in
        rw (first, second) refl

    -- The update of the `protocol` document leaves the routers and the epochs alone.
    with_protocol-IsSynced :
        (a : ProtocolAccount) (db : m.Db)
        → IsSynced chain db
        → IsSynced chain (
            m.update_one protocol
              (str "protocol")
              (protocol_update bn_to_string to_base58 m now a)
              db)
    with_protocol-IsSynced a db s =
        let u = protocol_update bn_to_string to_base58 m now a in
        record {
          routers_shown =
              move_routers chain.all_routers db (m.update_one protocol (str "protocol") u db)
                (λ j. m.find_one-update_one protocol (str "protocol") u db routers j)
                s.routers_shown;
          epochs_shown =
              move_epochs chain.all_epochs db (m.update_one protocol (str "protocol") u db)
                (λ j. m.find_one-update_one protocol (str "protocol") u db epochs j) s.epochs_shown;
        }

    once-IsSynced :
        (o : Option ProtocolAccount) (db : m.Db)
        → o ≢ none
        → IsSynced chain (on_protocol bn_to_string to_base58 m now o chain db).db
    once-IsSynced none db h = absurd (h refl)
    once-IsSynced (some a) db h =
        pass-IsSynced (
          m.update_one protocol (str "protocol") (protocol_update bn_to_string to_base58 m now a)
            db)

    once_quiet :
        (o : Option ProtocolAccount) (db : m.Db)
        → IsSynced chain db
        → (on_protocol bn_to_string to_base58 m now o chain db).drifted ≡ 0
    once_quiet none db s = refl
    once_quiet (some a) db s =
        pass_quiet
          (m.update_one protocol (str "protocol") (protocol_update bn_to_string to_base58 m now a)
            db)
          (with_protocol-IsSynced a db s)

-- What a pass leaves of an initialised chain whose accounts have distinct keys.
pub reconcile_once-IsSynced :
    (bn_to_string : ℤ → String) (to_base58 : ℕ → String) (m : Mongo) (now : ℕ) (chain : Chain)
    (db : m.Db)
    → IsKeyed bn_to_string to_base58 m chain
    → chain.protocol_account ≢ none
    → IsSynced bn_to_string to_base58 m chain
        (reconcile_once bn_to_string to_base58 m now chain db).db
unfolding reconcile_once
reconcile_once-IsSynced b t m now chain db keyed ready =
    once-IsSynced b t m chain keyed now chain.protocol_account db ready

-- A pass that follows a pass over the same initialised chain counts no drift.
pub reconcile_again_quiet :
    (bn_to_string : ℤ → String) (to_base58 : ℕ → String) (m : Mongo) (now later : ℕ) (chain : Chain)
    (db : m.Db)
    → IsKeyed bn_to_string to_base58 m chain
    → chain.protocol_account ≢ none
    → (reconcile_once bn_to_string to_base58 m later chain
        (reconcile_once bn_to_string to_base58 m now chain db).db).drifted
      ≡ 0
unfolding reconcile_once
reconcile_again_quiet b t m now later chain db keyed ready =
    once_quiet b t m chain keyed later chain.protocol_account (reconcile_once b t m now chain db).db
      (once-IsSynced b t m chain keyed now chain.protocol_account db ready)
