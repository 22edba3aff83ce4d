-- ===== src/Api/Explorer.antt =====
-- api/src/explorer/explorer.service.ts: a transaction with its events, and the feed of events.
pub mod Times
use router_pulse_depin_proto.Common.{ℕ, suc, String, Option, none, some, List}
use router_pulse_depin_proto.Common.Int.{pos}
use router_pulse_depin_proto.Common.Decimal.{show}
use router_pulse_depin_proto.Js.{Value, str, to_number}
use router_pulse_depin_proto.Api.Pagination.{
  Number, CursorCodec, clamp_limit, decode_cursor, truthy, Listed, page_of,
}
use router_pulse_depin_proto.Api.Routers.{ListQuery, page_limit}

-- A stored event: its key, and its `blockTime`, which may be `null`.
pub record EventRow : Type 0 where
  pub id : String
  pub block_time : Option ℕ

-- A transaction with its events, or the 404 of one that is not indexed.
pub data Found (D E : Type 0) : Type 0 where
  found : D → List E → Found D E
  not_indexed : String → Found D E

-- `findOne` on the transactions, and `find({ signature }).sort({ index: 1 })` on the events.
module _ {D E : Type 0} (find_tx : String → Option D) (find_events : String → List E) where
  abbrev with_events : String → Option D → Found D E
  with_events signature none = not_indexed signature
  with_events signature (some tx) = found tx (find_events signature)

  unfoldable pub get_transaction : String → Found D E
  get_transaction signature = with_events signature (find_tx signature)

-- `String(blockTime)`.
abbrev pub time_text : Option ℕ → String
time_text none = "null"
time_text (some t) = show t

-- `find_before` is the `toArray` of the query with its filter's name fixed: the bound is the one of
-- `filter.blockTime = { $lt: Number(after) }`.
module _ (codec : CursorCodec) (find_before : Option Value → ℕ → List EventRow) where
  abbrev pub bound_time : Option String → Option Value
  bound_time none = none
  bound_time (some after) = some (to_number (str after))

  unfoldable pub list_events : ListQuery → Listed EventRow
  unfolding page_of decode_cursor clamp_limit to_number
  list_events query =
      page_of codec (λ (r : EventRow). time_text r.block_time) (page_limit query.limit)
        (find_before (bound_time (truthy codec (decode_cursor codec query.cursor)))
          (suc (page_limit query.limit)))
