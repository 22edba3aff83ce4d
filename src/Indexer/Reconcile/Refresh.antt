-- ===== src/Indexer/Reconcile/Refresh.antt =====
-- The loop that reconcile.ts runs over each kind of account: read the document, compare it with the
-- account, and upsert the account's fields over it.
use router_pulse_depin_proto.Common.{
  ℕ, suc, String, Bool, false, Option, some, List, [], ◌∷◌, ◌++◌, ◌≡◌, ◌≢◌, ◌==◌, refl, sym, ◌∙◌,
  All, All-map, All-zip, lookup, lookup_first, if◌then◌else◌, Bool-cases, inl, inr,
}
use router_pulse_depin_proto.Js.{Value, date}
use router_pulse_depin_proto.Mongo.{Collection, Doc, Mongo, Update, hits, code}
use router_pulse_depin_proto.Mongo.Laws.{
  field_at, field_of, field_at-update_one, hits_self, hits-eq,
}

module _ (m : Mongo) {A : Type 0} (c : Collection) (key : A → Value)
    (fields : A → List (String × Value)) (drifted : A → Option Doc → Bool) where
  open m use {Db, find_one, update_one}

  abbrev pub account_update : ℕ → A → Update
  account_update now a = record {
    set = fields a ++ ("reconciledAt", date now) ∷ [];
    inc = [];
    set_on_insert = [];
  }

  unfoldable pub refresh : ℕ → List A → ℕ → Db → ℕ × Db
  refresh now [] n db = (n, db)
  refresh now (a ∷ rest) n db =
      refresh now rest (if drifted a (find_one c (key a) db) then suc n else n)
        (update_one c (key a) (account_update now a) db)

  -- A document that shows every field of its account.
  abbrev pub Shows : A → Option Doc → Type 0
  Shows a o = (f : String) (v : Value) → lookup f (fields a) ≡ some v → field_of o f ≡ some v

  abbrev pub Synced : A → Db → Type 0
  Synced a db = Shows a (find_one c (key a) db)

  update_syncs :
      (now : ℕ) (a : A) (db : Db) → Synced a (update_one c (key a) (account_update now a) db)
  unfolding field_at
  update_syncs now a db f v h =
      field_at-update_one m c (key a) (account_update now a) c (key a) f db refl refl
      ∙ rw (hits_self c (key a), lookup_first f (fields a) (("reconciledAt", date now) ∷ []) v h)
          refl

  update_keeps :
      (now : ℕ) (a b : A) (db : Db)
      → key a ≢ key b
      → Synced b db
      → Synced b (update_one c (key a) (account_update now a) db)
  unfolding field_at
  update_keeps now a b db ne h f v e = elim (Bool-cases (hits c (key a) c (key b))) [
    | inl hit ↦ absurd (ne (hits-eq c (key a) c (key b) hit).1)
    | inr miss ↦
        field_at-update_one m c (key a) (account_update now a) c (key b) f db refl refl
        ∙ rw miss (h f v e)
  ]

  -- No two accounts have one document.
  abbrev pub DistinctKeys : List A → Type 0
  DistinctKeys [] = Unit
  DistinctKeys (a ∷ rest) = All (λ b. key a ≢ key b) rest × DistinctKeys rest

  refresh_keeps :
      (now : ℕ) (rest : List A) (n : ℕ) (b : A) (db : Db)
      → All (λ a. key a ≢ key b) rest
      → Synced b db
      → Synced b (refresh now rest n db).1
  unfolding refresh
  refresh_keeps now [] n b db ne h = h
  refresh_keeps now (a ∷ rest) n b db (ne, nes) h =
      refresh_keeps now rest (if drifted a (find_one c (key a) db) then suc n else n) b
        (update_one c (key a) (account_update now a) db) nes (update_keeps now a b db ne h)

  -- After the loop every account's document shows the account.
  pub refresh-Synced :
      (now : ℕ) (xs : List A) (n : ℕ) (db : Db)
      → DistinctKeys xs
      → All (λ a. Synced a (refresh now xs n db).1) xs
  unfolding refresh
  refresh-Synced now [] n db h = tt
  refresh-Synced now (a ∷ rest) n db (h, hs) =
      let n' = if drifted a (find_one c (key a) db) then suc n else n in
      let db' = update_one c (key a) (account_update now a) db in
      (
        refresh_keeps now rest n' a db' (All-map rest (λ b ne e. ne (sym e)) h)
            (update_syncs now a db),
        refresh-Synced now rest n' db' hs,
      )

  refresh-Synced_keeps :
      (now : ℕ) (a : A) (rest : List A) (db : Db)
      → All (λ b. key a ≢ key b) rest
      → All (λ b. Synced b db) rest
      → All (λ b. Synced b (update_one c (key a) (account_update now a) db)) rest
  refresh-Synced_keeps now a rest db h s =
      All-zip rest (λ b ne sb. update_keeps now a b db ne sb) h s

  module _ (quiet : (a : A) (o : Option Doc) → Shows a o → drifted a o ≡ false) where
    -- Over documents that show their accounts the loop counts no drift.
    pub refresh_quiet :
        (now : ℕ) (xs : List A) (n : ℕ) (db : Db)
        → DistinctKeys xs
        → All (λ a. Synced a db) xs
        → (refresh now xs n db).0 ≡ n
    unfolding refresh
    refresh_quiet now [] n db h s = refl
    refresh_quiet now (a ∷ rest) n db (h, hs) (s, ss) =
        rw (quiet a (find_one c (key a) db) s, refresh)
          (refresh_quiet now rest n (update_one c (key a) (account_update now a) db) hs
            (refresh-Synced_keeps now a rest db h ss))

  -- The loop writes to its own collection only.
  pub refresh-elsewhere :
      (now : ℕ) (xs : List A) (n : ℕ) (d : Collection) (j : Value) (db : Db)
      → (code c == code d) ≡ false
      → find_one d j (refresh now xs n db).1 ≡ find_one d j db
  unfolding refresh
  refresh-elsewhere now [] n d j db h = refl
  refresh-elsewhere now (a ∷ rest) n d j db h =
      refresh-elsewhere now rest (if drifted a (find_one c (key a) db) then suc n else n) d j
        (update_one c (key a) (account_update now a) db) h
      ∙ m.find_one-update_one c (key a) (account_update now a) db d j
      ∙ rw h
