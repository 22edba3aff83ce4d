-- ===== src/Mongo.antt =====
-- The document store as the services use it: MongoDB, which the repository does not implement.
-- `Mongo` holds the driver's calls and their documented behaviour; the services take it as an
-- argument. A document is seen as a map from field names to values.
pub mod Laws
pub mod Memory
use router_pulse_depin_proto.Common.{
  ℕ, String, Bool, ◌==◌, ◌&&◌, ◌≡◌, ◌≢◌, ◌⊎◌, Option, none, some, List, [], or_else, lookup,
  if◌then◌else◌, ◌∷◌,
}
use router_pulse_depin_proto.Common.Int.{pos, ◌+ℤ◌}
use router_pulse_depin_proto.Js.{Value, num, same_id}

-- The collections that the indexer writes.
pub data Collection : Type 0 where
  routers epochs protocol events transactions sync_cursors : Collection

abbrev pub code : Collection → ℕ
code routers = 0
code epochs = 1
code protocol = 2
code events = 3
code transactions = 4
code sync_cursors = 5

abbrev pub Doc : Type 0
Doc = String → Option Value

-- An upserting `updateOne`: `$set`, `$inc` and `$setOnInsert`.
pub record Update : Type 0 where
  pub set : List (String × Value)
  pub inc : List (String × ℕ)
  pub set_on_insert : List (String × Value)

-- `$inc` starts a missing field at 0. The services increment only fields that they set to numbers;
-- of another value MongoDB refuses the whole update, where this keeps the value.
abbrev pub incremented : ℕ → Option Value → Option Value
incremented n (some (num k)) = some (num (k +ℤ pos n))
incremented n none = some (num (pos n))
incremented n (some v) = some v

abbrev inc_field : Option ℕ → Option Value → Option Value
inc_field none old = old
inc_field (some n) old = incremented n old

abbrev before : Update → Option Doc → String → Option Value
before u none f = lookup f u.set_on_insert
before u (some d) f = d f

-- The document that an update leaves, from the one it found.
abbrev pub applied : Update → Option Doc → Doc
applied u old f = or_else (lookup f u.set) (inc_field (lookup f u.inc) (before u old f))

abbrev pub hits : Collection → Value → Collection → Value → Bool
hits c i d j = code c == code d && same_id i j

abbrev pub find_row : Value → List (Value × Doc) → Option Doc
find_row i [] = none
find_row i ((j, x) ∷ rows) = let rest = find_row i rows in if same_id j i then some x else rest

-- What an insert comes to: `duplicate_key` is the driver's error 11000, `failed` any other.
pub data Inserted (D : Type 0) : Type 0 where
  written : D → Inserted D
  duplicate_key : Inserted D
  failed : D → Inserted D

abbrev pub after_insert : {D : Type 0} → D → Inserted D → D
after_insert db (written db') = db'
after_insert db duplicate_key = db
after_insert db (failed db') = db'

pub record Mongo : Type 1 where
  pub Db : Type 0
  pub find_one : Collection → Value → Db → Option Doc
  pub update_one : Collection → Value → Update → Db → Db
  pub insert_one : Collection → Value → Doc → Db → Inserted Db
  pub insert_many : Collection → List (Value × Doc) → Db → Inserted Db
  pub find_one-update_one :
      (c : Collection) (i : Value) (u : Update) (db : Db) (d : Collection) (j : Value)
      → find_one d j (update_one c i u db)
        ≡ (if hits c i d j then some (applied u (find_one c i db)) else find_one d j db)
  -- `_id` is unique: a second insert is refused, and changes nothing. One that fails in
  -- another way may have been written all the same, as where the answer is lost.
  pub insert_one-taken :
      (c : Collection) (i : Value) (x : Doc) (db : Db)
      → find_one c i db ≢ none
      → insert_one c i x db ≡ duplicate_key
  pub insert_one-free :
      (c : Collection) (i : Value) (x : Doc) (db : Db)
      → find_one c i db ≡ none
      → insert_one c i x db ≢ duplicate_key
  pub insert_one-written :
      (c : Collection) (i : Value) (x : Doc) (db db' : Db)
      → insert_one c i x db ≡ written db'
      → (d : Collection) (j : Value)
      → find_one d j db' ≡ (if hits c i d j then some x else find_one d j db)
  pub insert_one-failed :
      (c : Collection) (i : Value) (x : Doc) (db db' : Db)
      → insert_one c i x db ≡ failed db'
      → ((d : Collection) (j : Value) → find_one d j db' ≡ find_one d j db)
        ⊎ ((d : Collection) (j : Value)
            → find_one d j db' ≡ (if hits c i d j then some x else find_one d j db))
  pub insert_many-written :
      (c : Collection) (rows : List (Value × Doc)) (db db' : Db)
      → insert_many c rows db ≡ written db'
      → (d : Collection) (j : Value)
      → find_one d j db' ≡ (
          if code c == code d then or_else (find_row j rows) (find_one d j db) else find_one d j db)
  -- A failed batch may have written some of its rows, but only in its own collection.
  pub insert_many-elsewhere :
      (c : Collection) (rows : List (Value × Doc)) (db : Db) (d : Collection) (j : Value)
      → (code c ≢ code d)
      → find_one d j (after_insert db (insert_many c rows db)) ≡ find_one d j db
