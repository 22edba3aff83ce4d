-- ===== src/Mongo/Memory.antt =====
-- A store in memory that has the behaviour `Mongo` asks for. With `batches_fail` every batch insert
-- is refused, as by a server that goes away.
use router_pulse_depin_proto.Common.{
  Bool, true, false, ◌==◌, ◌≡◌, ◌≢◌, refl, Option, none, some, List, or_else, if◌then◌else◌, arith,
  ap, sym,
}
use router_pulse_depin_proto.Js.{Value}
use router_pulse_depin_proto.Mongo.{
  Collection, code, Doc, applied, hits, find_row, Inserted, written, duplicate_key, failed,
  after_insert, Mongo,
}

abbrev pub Memory : Type 0
Memory = Collection → Value → Option Doc

abbrev put : Collection → Value → Doc → Memory → Memory
put c i x db d j = if hits c i d j then some x else db d j

abbrev put_many : Collection → List (Value × Doc) → Memory → Memory
put_many c rows db d j = if code c == code d then or_else (find_row j rows) (db d j) else db d j

abbrev insert_absent : Option Doc → Collection → Value → Doc → Memory → Inserted Memory
insert_absent none c i x db = written (put c i x db)
insert_absent (some _) c i x db = duplicate_key

abbrev insert_rows : Bool → Collection → List (Value × Doc) → Memory → Inserted Memory
insert_rows true c rows db = failed db
insert_rows false c rows db = written (put_many c rows db)

abbrev state_of : Memory → Inserted Memory → Memory
state_of db (written db') = db'
state_of db _ = db

module _ (c : Collection) (i : Value) (x : Doc) where
  pub taken : (o : Option Doc) (db : Memory) → o ≢ none → insert_absent o c i x db ≡ duplicate_key
  taken none db h = absurd (h refl)
  taken (some y) db h = refl

  pub free : (o : Option Doc) (db : Memory) → o ≡ none → insert_absent o c i x db ≢ duplicate_key
  free none db h = cc
  free (some y) db h = cc

  pub put_absent :
      (o : Option Doc) (db db' : Memory)
      → insert_absent o c i x db ≡ written db'
      → (d : Collection) (j : Value) → db' d j ≡ (if hits c i d j then some x else db d j)
  put_absent none db db' h d j = ap (λ (r : Inserted Memory). state_of db r d j) (sym h)
  put_absent (some y) db db' h d j = cc

  pub never_fails : (o : Option Doc) (db db' : Memory) → insert_absent o c i x db ≢ failed db'
  never_fails none db db' h = cc
  never_fails (some y) db db' h = cc

pub put_rows :
    (b : Bool) (c : Collection) (rows : List (Value × Doc)) (db db' : Memory)
    → insert_rows b c rows db ≡ written db'
    → (d : Collection) (j : Value)
    → db' d j ≡ (if code c == code d then or_else (find_row j rows) (db d j) else db d j)
put_rows true c rows db db' h d j = cc
put_rows false c rows db db' h d j = ap (λ (r : Inserted Memory). state_of db r d j) (sym h)

pub elsewhere :
    (b : Bool) (c : Collection) (rows : List (Value × Doc)) (db : Memory) (d : Collection)
    (j : Value)
    → code c ≢ code d
    → after_insert db (insert_rows b c rows db) d j ≡ db d j
elsewhere true c rows db d j h = refl
elsewhere false c rows db d j h = ground arith

abbrev pub memory : Bool → Mongo
memory batches_fail = record {
  Db = Memory;
  find_one = λ c i db. db c i;
  update_one = λ c i u db. put c i (applied u (db c i)) db;
  insert_one = λ c i x db. insert_absent (db c i) c i x db;
  insert_many = insert_rows batches_fail;
  find_one-update_one = λ c i u db d j. refl;
  insert_one-taken = λ c i x db h. taken c i x (db c i) db h;
  insert_one-free = λ c i x db h. free c i x (db c i) db h;
  insert_one-written = λ c i x db db' h. put_absent c i x (db c i) db db' h;
  insert_one-failed = λ c i x db db' h. absurd (never_fails c i x (db c i) db db' h);
  insert_many-written = put_rows batches_fail;
  insert_many-elsewhere = elsewhere batches_fail;
}

abbrev pub empty : Memory
empty c i = none
