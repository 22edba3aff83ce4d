-- ===== src/Indexer/EventParser.antt =====
-- indexer/src/eventParser.ts: the fields of a decoded event as storable values, and the events of a
-- transaction with their keys.
pub mod Storable
pub mod Keys
use Prim.Native.String.{◌++◌}
use router_pulse_depin_proto.Common.{
  ℕ, suc, String, Bool, true, false, Option, none, some, List, [], ◌∷◌, if◌then◌else◌,
}
use router_pulse_depin_proto.Common.Int.{ℤ}
use router_pulse_depin_proto.Common.Decimal.{show}
use router_pulse_depin_proto.Js.{
  Value, undefined, null, nan, bool, num, str, bn, public_key, date, arr, obj, Items, nil, cons,
  Fields, end, field,
}

-- `typeof v === "object"`, not null, not an array, and no own keys. A BN and a PublicKey have some;
-- a Date has none.
abbrev pub is_empty_object : Value → Bool
is_empty_object (obj end) = true
is_empty_object (date t) = true
is_empty_object _ = false

-- `{ variantName: {} }`, as Anchor decodes a Rust enum variant with no data.
abbrev pub enum_variant : Fields → Option String
enum_variant (field k v end) = if is_empty_object v then some k else none
enum_variant _ = none

abbrev or_object : Option String → Fields → Value
or_object (some variant) out = str variant
or_object none out = obj out

-- `BN.toString` and `PublicKey.toBase58` are of the libraries.
module _ (bn_to_string : ℤ → String) (to_base58 : ℕ → String) where
  unfoldable mutual
    pub serialize_event_data : Value → Value
    serialize_event_data undefined = undefined
    serialize_event_data null = null
    serialize_event_data nan = nan
    serialize_event_data (bool b) = bool b
    serialize_event_data (num n) = num n
    serialize_event_data (str s) = str s
    serialize_event_data (bn n) = str (bn_to_string n)
    serialize_event_data (public_key k) = str (to_base58 k)
    serialize_event_data (date t) = obj end
    serialize_event_data (arr xs) = arr (serialize_items xs)
    serialize_event_data (obj fs) = or_object (enum_variant fs) (serialize_fields fs)

    pub serialize_items : Items → Items
    serialize_items nil = nil
    serialize_items (cons x xs) = cons (serialize_event_data x) (serialize_items xs)

    pub serialize_fields : Fields → Fields
    serialize_fields end = end
    serialize_fields (field k v fs) = field k (serialize_event_data v) (serialize_fields fs)

pub record DecodedEvent : Type 0 where
  pub id : String
  pub signature : String
  pub index : ℕ
  pub slot : ℕ
  pub block_time : Option ℕ
  pub name : String
  pub fields : Value

-- What the library's log parser yields.
pub record RawEvent : Type 0 where
  pub name : String
  pub fields : Value

unfoldable pub event_id : String → ℕ → String
event_id signature index = signature ++ (":" ++ show index)

module _ (bn_to_string : ℤ → String) (to_base58 : ℕ → String) (signature : String) (slot : ℕ)
    (block_time : Option ℕ) where
  -- The loop of `decodeTransactionEvents`, over what `parser.parseLogs` yields.
  unfoldable pub decode_from : ℕ → List RawEvent → List DecodedEvent
  decode_from index [] = []
  decode_from index (event ∷ rest) =
      record {
        id = event_id signature index;
        signature = signature;
        index = index;
        slot = slot;
        block_time = block_time;
        name = event.name;
        fields = serialize_event_data bn_to_string to_base58 event.fields;
      }
      ∷ decode_from (suc index) rest

  unfoldable pub decode_transaction_events : List RawEvent → List DecodedEvent
  unfolding decode_from
  decode_transaction_events raw = decode_from 0 raw
