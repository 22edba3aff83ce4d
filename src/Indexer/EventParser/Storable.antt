-- ===== src/Indexer/EventParser/Storable.antt =====
-- What `serializeEventData` yields: no library object is left in it, and a second pass changes
-- nothing.
use router_pulse_depin_proto.Common.{String, ℕ, Bool, true, false, ◌&&◌, ◌≡◌, refl, ap, arith}
use router_pulse_depin_proto.Common.Int.{ℤ}
use router_pulse_depin_proto.Js.{
  Value, undefined, null, nan, bool, num, str, bn, public_key, date, arr, obj, Items, nil, cons,
  Fields, end, field,
}
use router_pulse_depin_proto.Indexer.EventParser.{
  is_empty_object, serialize_event_data, serialize_items, serialize_fields,
}

-- No BN, PublicKey or Date anywhere in the value.
mutual
  pub storable : Value → Bool
  storable (bn n) = false
  storable (public_key k) = false
  storable (date t) = false
  storable (arr xs) = storable_items xs
  storable (obj fs) = storable_fields fs
  storable undefined = true
  storable null = true
  storable nan = true
  storable (bool b) = true
  storable (num n) = true
  storable (str s) = true

  pub storable_items : Items → Bool
  storable_items nil = true
  storable_items (cons x xs) = storable x && storable_items xs

  pub storable_fields : Fields → Bool
  storable_fields end = true
  storable_fields (field k v fs) = storable v && storable_fields fs

module _ (bn_to_string : ℤ → String) (to_base58 : ℕ → String) where
  abbrev ser : Value → Value
  ser = serialize_event_data bn_to_string to_base58

  abbrev ser_items : Items → Items
  ser_items = serialize_items bn_to_string to_base58

  abbrev ser_fields : Fields → Fields
  ser_fields = serialize_fields bn_to_string to_base58

  mutual
    unfolding storable serialize_event_data

    storable_value : (v : Value) → storable (ser v) ≡ true
    storable_value undefined = refl
    storable_value null = refl
    storable_value nan = refl
    storable_value (bool b) = refl
    storable_value (num n) = refl
    storable_value (str s) = refl
    storable_value (bn n) = refl
    storable_value (public_key k) = refl
    storable_value (date t) = refl
    storable_value (arr xs) = storable_all xs
    storable_value (obj end) = refl
    storable_value (obj (field k v end)) = ground (arith, storable_each (field k v end))
    storable_value (obj (field k v (field j w fs))) = storable_each (field k v (field j w fs))

    storable_all : (xs : Items) → storable_items (ser_items xs) ≡ true
    storable_all nil = refl
    storable_all (cons x xs) = ground (arith, storable_value x, storable_all xs)

    storable_each : (fs : Fields) → storable_fields (ser_fields fs) ≡ true
    storable_each end = refl
    storable_each (field k v fs) = ground (arith, storable_value v, storable_each fs)

  -- Serialisation empties no object that was not empty before.
  empty_before : (v : Value) → is_empty_object (ser v) ≡ true → is_empty_object v ≡ true
  unfolding serialize_event_data
  empty_before (obj end) h = refl
  empty_before (obj (field k v end)) h = ground arith
  empty_before (obj (field k v (field j w fs))) h = cc
  empty_before (date t) h = refl
  empty_before (arr xs) h = cc
  empty_before (bn n) h = cc
  empty_before (public_key n) h = cc
  empty_before _ h = h

  mutual
    unfolding serialize_event_data

    twice_value : (v : Value) → ser (ser v) ≡ ser v
    twice_value undefined = refl
    twice_value null = refl
    twice_value nan = refl
    twice_value (bool b) = refl
    twice_value (num n) = refl
    twice_value (str s) = refl
    twice_value (bn n) = refl
    twice_value (public_key k) = refl
    twice_value (date t) = refl
    twice_value (arr xs) = ap arr (twice_items xs)
    twice_value (obj end) = refl
    twice_value (obj (field k v end)) = ground (arith, empty_before v, twice_fields (field k v end))
    twice_value (obj (field k v (field j w fs))) = ap obj (twice_fields (field k v (field j w fs)))

    twice_items : (xs : Items) → ser_items (ser_items xs) ≡ ser_items xs
    twice_items nil = refl
    twice_items (cons x xs) = cc (twice_value x, twice_items xs)

    twice_fields : (fs : Fields) → ser_fields (ser_fields fs) ≡ ser_fields fs
    twice_fields end = refl
    twice_fields (field k v fs) = cc (twice_value v, twice_fields fs)

-- However the libraries print their objects, serialised event data holds no BN, PublicKey or Date
-- at any depth.
pub serialize_event_data-storable :
    (bn_to_string : ℤ → String) (to_base58 : ℕ → String) (v : Value)
    → storable (serialize_event_data bn_to_string to_base58 v) ≡ true
serialize_event_data-storable bn_to_string to_base58 v = storable_value bn_to_string to_base58 v

-- Serialising serialised data again changes nothing.
pub serialize_event_data_idem :
    (bn_to_string : ℤ → String) (to_base58 : ℕ → String) (v : Value)
    → serialize_event_data bn_to_string to_base58 (serialize_event_data bn_to_string to_base58 v)
      ≡ serialize_event_data bn_to_string to_base58 v
serialize_event_data_idem bn_to_string to_base58 v = twice_value bn_to_string to_base58 v
