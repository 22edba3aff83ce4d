-- ===== src/Api/Routers.antt =====
-- api/src/routers/routers.service.ts: the listings of routers and of a router's epochs.
pub mod Detail
pub mod Heartbeats
pub mod EpochPages
pub mod RouterPages
use router_pulse_depin_proto.Common.{ℕ, suc, String, Option, none, some, List}
use router_pulse_depin_proto.Common.Int.{ℤ}
use router_pulse_depin_proto.Js.{Value, str, num, to_number, key_text}
use router_pulse_depin_proto.Api.Pagination.{
  Number, CursorCodec, clamp_limit, decode_cursor, truthy, Listed, page_of,
}

-- A stored router or epoch: its key, and the field that the listing sorts by.
pub record Row : Type 0 where
  pub id : String
  pub sort_key : Value

-- The query of a listing, with the limit as `Number(limit)` gives it.
pub record ListQuery : Type 0 where
  pub cursor : Option String
  pub limit : Number

-- `clampLimit` at its default fallback and maximum.
abbrev pub page_limit : Number → ℕ
page_limit = clamp_limit 20 100

-- The `toArray` of `find(filter).sort(…).limit(n)` is MongoDB's: `after` is the bound that the
-- cursor puts into the filter, the rest of the filter being fixed.
module _ (codec : CursorCodec) (find_after : Option Value → ℕ → List Row) where
  abbrev pub bound_text : Option String → Option Value
  bound_text none = none
  bound_text (some after) = some (str after)

  abbrev pub bound_number : Option String → Option Value
  bound_number none = none
  bound_number (some after) = some (to_number (str after))

  -- `filter._id = { $gt: after }`, ascending by `_id`.
  unfoldable pub list_routers : ListQuery → Listed Row
  unfolding page_of decode_cursor clamp_limit
  list_routers query =
      page_of codec (λ (r : Row). r.id) (page_limit query.limit)
        (find_after (bound_text (truthy codec (decode_cursor codec query.cursor)))
          (suc (page_limit query.limit)))

  -- `filter.epochNumber = { $lt: Number(after) }`, descending by `epochNumber`.
  unfoldable pub list_epochs : ListQuery → Listed Row
  unfolding page_of decode_cursor clamp_limit to_number
  list_epochs query =
      page_of codec (λ (r : Row). key_text r.sort_key) (page_limit query.limit)
        (find_after (bound_number (truthy codec (decode_cursor codec query.cursor)))
          (suc (page_limit query.limit)))
