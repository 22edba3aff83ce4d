-- ===== src/Mongo/Laws.antt =====
-- Sequences of updates and the fields that they leave.
use mathlib.Core.Bool.{and-eq-true_iff}
use router_pulse_depin_proto.Common.{
  String, true, false, ◌==◌, ◌≡◌, refl, Option, none, some, List, [], ◌∷◌, or_else, lookup, keys,
  if◌then◌else◌, arith, Bool-cases, ◌∙◌, ap, All, ◌⊎◌, inl, inr, ==_iff, sym, ◌≢◌,
}
use router_pulse_depin_proto.Js.{Value, same_id_iff}
use router_pulse_depin_proto.Mongo.{
  Collection, Doc, Update, Mongo, hits, code, Inserted, written, duplicate_key, failed,
  after_insert,
}

pub hits_self : (c : Collection) (i : Value) → hits c i c i ≡ true
hits_self c i = rw ((==_iff (code c) (code c)).1 refl, (same_id_iff i i).1 refl)

pub record Write : Type 0 where
  pub collection : Collection
  pub id : Value
  pub update : Update

abbrev pub field_of : Option Doc → String → Option Value
field_of none f = none
field_of (some d) f = d f

-- What a list of updates leaves of a field that none of them increments or sets on insertion.
abbrev pub overlay : List Write → Collection → Value → String → Option Value → Option Value
overlay [] c i f old = old
overlay (w ∷ ws) c i f old =
    overlay ws c i f
      (if hits w.collection w.id c i then or_else (lookup f w.update.set) old else old)

-- No update of the list increments the field or sets it on insertion only.
abbrev pub IsPlain : String → List Write → Type 0
IsPlain f [] = Unit
IsPlain f (w ∷ ws) =
    (lookup f w.update.inc ≡ none) × (lookup f w.update.set_on_insert ≡ none) × IsPlain f ws

code-eq : (c d : Collection) → (code c == code d) ≡ true → c ≡ d
code-eq c d h = ground arith

pub hits-eq :
    (c : Collection) (i : Value) (d : Collection) (j : Value)
    → hits c i d j ≡ true
    → (c ≡ d) × (i ≡ j)
hits-eq c i d j h =
    let (same, key) = (and-eq-true_iff _ _).0 h in (code-eq c d same, (same_id_iff i j).0 key)

module _ (m : Mongo) where
  open m use {Db, find_one, update_one, find_one-update_one}

  -- The awaited `updateOne` calls of a handler, in order.
  unfoldable pub run_writes : List Write → Db → Db
  run_writes [] db = db
  run_writes (w ∷ ws) db = run_writes ws (update_one w.collection w.id w.update db)

  unfoldable pub field_at : Collection → Value → String → Db → Option Value
  field_at c i f db = field_of (find_one c i db) f

  pub field_at-update_one :
      (c : Collection) (i : Value) (u : Update) (d : Collection) (j : Value) (f : String) (db : Db)
      → lookup f u.inc ≡ none
      → lookup f u.set_on_insert ≡ none
      → field_at d j f (update_one c i u db)
        ≡ (if hits c i d j then or_else (lookup f u.set) (field_at c i f db) else field_at d j f db)
  unfolding field_at
  field_at-update_one c i u d j f db p q =
      rw find_one-update_one (ground (arith, find_one-update_one c i u db d j))

  pub field_at-run_writes :
      (ws : List Write) (c : Collection) (i : Value) (f : String) (db : Db)
      → IsPlain f ws
      → field_at c i f (run_writes ws db) ≡ overlay ws c i f (field_at c i f db)
  unfolding run_writes
  field_at-run_writes [] c i f db h = refl
  field_at-run_writes (w ∷ ws) c i f db (p, q, h) =
      field_at-run_writes ws c i f (update_one w.collection w.id w.update db) h
      ∙ ap (overlay ws c i f) (step (Bool-cases (hits w.collection w.id c i)))
    where
      one : field_at c i f (update_one w.collection w.id w.update db) ≡ (
          if hits w.collection w.id c i
          then or_else (lookup f w.update.set) (field_at w.collection w.id f db)
          else field_at c i f db)
      one = field_at-update_one w.collection w.id w.update c i f db p q

      step :
          (hits w.collection w.id c i ≡ true) ⊎ (hits w.collection w.id c i ≡ false)
          → field_at c i f (update_one w.collection w.id w.update db) ≡ (
              if hits w.collection w.id c i
              then or_else (lookup f w.update.set) (field_at c i f db)
              else field_at c i f db)
      step (inl hit) =
          let (same, key) = hits-eq w.collection w.id c i hit in one ∙ rw (hit, same, key)
      step (inr miss) = one ∙ rw miss

  -- A collection that no update names keeps its documents.
  pub find_one-run_writes :
      (ws : List Write) (c : Collection) (i : Value) (db : Db)
      → All (λ w. (code w.collection == code c) ≡ false) ws
      → find_one c i (run_writes ws db) ≡ find_one c i db
  unfolding run_writes
  find_one-run_writes [] c i db h = refl
  find_one-run_writes (w ∷ ws) c i db (h, hs) =
      find_one-run_writes ws c i (update_one w.collection w.id w.update db) hs
      ∙ find_one-update_one w.collection w.id w.update db c i
      ∙ rw h

-- The last value that a list of updates sets.
abbrev wrote : List Write → Collection → Value → String → Option Value
wrote [] c i f = none
wrote (w ∷ ws) c i f =
    or_else (wrote ws c i f) (if hits w.collection w.id c i then lookup f w.update.set else none)

-- The same documents are named in the same order, and the same fields set in each.
abbrev pub SameShape : List Write → List Write → Type 0
SameShape [] [] = Unit
SameShape (v ∷ vs) (w ∷ ws) =
    (v.collection ≡ w.collection)
    × (v.id ≡ w.id)
    × (keys v.update.set ≡ keys w.update.set)
    × SameShape vs ws
SameShape _ _ = ⊥

overlay-wrote :
    (ws : List Write) (c : Collection) (i : Value) (f : String) (old : Option Value)
    → overlay ws c i f old ≡ or_else (wrote ws c i f) old
overlay-wrote [] c i f old = refl
overlay-wrote (w ∷ ws) c i f old = overlay-wrote ws c i f _ ∙ ground (arith)

no_key :
    (k : String) (m l : List (String × Value))
    → keys m ≡ keys l
    → lookup k l ≡ none
    → lookup k m ≡ none
no_key k [] l h n = refl
no_key k ((i, v) ∷ m) [] h n = cc
no_key k ((i, v) ∷ m) ((j, w) ∷ l) h n = ground (arith, no_key k m l)

none-wrote :
    (vs ws : List Write) (c : Collection) (i : Value) (f : String)
    → SameShape vs ws
    → wrote ws c i f ≡ none
    → wrote vs c i f ≡ none
none-wrote [] [] c i f h n = refl
none-wrote [] (w ∷ ws) c i f h n = absurd h
none-wrote (v ∷ vs) [] c i f h n = absurd h
none-wrote (v ∷ vs) (w ∷ ws) c i f (p, q, r, h) n =
    rw (p, q) (ground (arith, none-wrote vs ws c i f h, no_key f v.update.set w.update.set r))

-- Updates of one shape, run one after the other, leave what the second leaves alone.
pub overlay-overlay :
    (vs ws : List Write) (c : Collection) (i : Value) (f : String) (old : Option Value)
    → SameShape vs ws
    → overlay ws c i f (overlay vs c i f old) ≡ overlay ws c i f old
overlay-overlay vs ws c i f old h =
    overlay-wrote ws c i f _
    ∙ ground
        (arith, overlay-wrote vs c i f old, overlay-wrote ws c i f old, none-wrote vs ws c i f h)

module _ (m : Mongo) (c : Collection) (i : Value) (x : Doc) (db : m.Db) where
  keeps_from :
      (r : Inserted m.Db) (d : Collection) (j : Value)
      → m.insert_one c i x db ≡ r
      → m.find_one d j db ≢ none
      → m.find_one d j (after_insert db r) ≢ none
  keeps_from (written db') d j e h =
      let found = m.insert_one-written c i x db db' e d j in
      elim (Bool-cases (hits c i d j)) [
        | inl hit ↦ λ n. let here = rw hit at found in cc (n, here)
        | inr miss ↦ λ n. let as_before = rw miss at found in h (sym as_before ∙ n)
      ]
  keeps_from duplicate_key d j e h = h
  keeps_from (failed db') d j e h = elim (m.insert_one-failed c i x db db' e) [
    | inl unwritten ↦ λ n. h (sym (unwritten d j) ∙ n)
    | inr found_all ↦
        let found = found_all d j in
        elim (Bool-cases (hits c i d j)) [
          | inl hit ↦ λ n. let here = rw hit at found in cc (n, here)
          | inr miss ↦ λ n. let as_before = rw miss at found in h (sym as_before ∙ n)
        ]
  ]

  -- An insert removes no document.
  pub insert_one-keeps :
      (d : Collection) (j : Value)
      → m.find_one d j db ≢ none
      → m.find_one d j (after_insert db (m.insert_one c i x db)) ≢ none
  insert_one-keeps d j h = keeps_from (m.insert_one c i x db) d j refl h

  -- A written document was absent and is there.
  pub insert_one-found :
      {db' : m.Db}
      → m.insert_one c i x db ≡ written db'
      → (m.find_one c i db ≡ none) × (m.find_one c i db' ≢ none)
  insert_one-found {db'} e =
      let self : hits c i c i ≡ true = hits_self c i in
      let found = rw self at (m.insert_one-written c i x db db' e c i) in
      (absent (m.find_one c i db) refl, λ n. cc (n, found))
    where
      absent : (o : Option Doc) → m.find_one c i db ≡ o → m.find_one c i db ≡ none
      absent none p = p
      absent (some y) p = cc (e, m.insert_one-taken c i x db (λ n. cc (n, p)))
