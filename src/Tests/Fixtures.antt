-- ===== src/Tests/Fixtures.antt =====
-- What the examples run on: a store in memory, and simple printing for the libraries'.
use Prim.Native.String.{◌++◌}
use router_pulse_depin_proto.Common.{
  ℕ, suc, String, Bool, false, true, Option, none, some, [], ◌∷◌, ◌≡◌, ◌≢◌, str_eq, str_eq_iff,
}
use router_pulse_depin_proto.Common.Int.{ℤ, pos, negsuc}
use router_pulse_depin_proto.Common.Decimal.{show}
use router_pulse_depin_proto.Js.{Value, str, bn, public_key, obj, end, field}
use router_pulse_depin_proto.Mongo.Memory.{memory}
use router_pulse_depin_proto.Indexer.EventParser.{DecodedEvent, event_id, serialize_event_data}
use router_pulse_depin_proto.Indexer.Ingest.{Services, Transaction}

abbrev pub print : ℤ → String
print (pos n) = show n
print (negsuc n) = "-" ++ show (suc n)

abbrev pub base58 : ℕ → String
base58 k = "k" ++ show k

pub differ : (s t : String) → str_eq s t ≡ false → s ≢ t
differ s t h e = cc (h, (str_eq_iff s t).1 e)

abbrev pub router_pda : Value → Value → Option Value
router_pda owner router_id = some (str "r1")

abbrev pub suspension : Value
suspension = obj (
    field "owner" (public_key 5)
      (field "router_id" (str "home") (field "uptime_score" (bn (pos 40)) end)))

abbrev pub slashing : Value
slashing =
    obj (field "router" (str "r1") (field "epoch_number" (str "3") (field "amount" (str "7") end)))

-- The logs of every transaction hold a suspension and a slashing.
abbrev pub services : Bool → Services
services batches_fail = record {
  mongo = memory batches_fail;
  router_pda = router_pda;
  parse_logs = λ logs.
      record { name = "RouterSuspended"; fields = suspension }
      ∷ record { name = "RouterSlashed"; fields = slashing }
      ∷ [];
  bn_to_string = print;
  to_base58 = base58;
  has_publisher = true;
}

abbrev pub two_events : Transaction
two_events = record {
  slot = 9;
  block_time = some 1000;
  meta = some (record { err = false; log_messages = some [] });
}

abbrev pub an_event : String → Value → DecodedEvent
an_event name fields = record {
  id = "s:0";
  signature = "s";
  index = 0;
  slot = 9;
  block_time = none;
  name = name;
  fields = fields;
}

-- The two events of the transaction "s".
abbrev pub decoded_event : ℕ → String → Value → DecodedEvent
decoded_event index name fields = record {
  id = event_id "s" index;
  signature = "s";
  index = index;
  slot = 9;
  block_time = some 1000;
  name = name;
  fields = serialize_event_data print base58 fields;
}
