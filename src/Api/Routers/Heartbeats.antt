-- ===== src/Api/Routers/Heartbeats.antt =====
-- recentHeartbeats of api/src/routers/routers.service.ts: the latest heartbeats of a router, looked
-- up by the id that its operator has given it.
use router_pulse_depin_proto.Common.{
  ℕ, zero, suc, ◌≤◌, ◌<◌, ◌≡◌, ◌≢◌, refl, ap, ◌∙◌, Option, none, some, List, [], ◌∷◌, take, arith,
  if◌then◌else◌,
}
use router_pulse_depin_proto.Common.Int.{pos}
use router_pulse_depin_proto.Js.{Value, undefined, same_id}
use router_pulse_depin_proto.Mongo.{Mongo, Doc}
use router_pulse_depin_proto.Api.Pagination.{Number, binary}
use router_pulse_depin_proto.Api.Pagination.Limits.{IsProperFraction, clamp_limit_range}
use router_pulse_depin_proto.Api.Routers.{page_limit}
use router_pulse_depin_proto.Api.Routers.Detail.{Detail, found, not_found, get_one}

-- A stored heartbeat: its document, and `data.router_id`.
pub record Heartbeat : Type 0 where
  pub router_id : Value
  pub document : Doc

-- The rows, or the `NotFoundException` of `getOne`.
pub data Recent : Type 0 where
  rows : List Heartbeat → Recent
  no_router : Recent

abbrev pub field_or_undefined : Option Value → Value
field_or_undefined none = undefined
field_or_undefined (some v) = v

-- `limit = 20`.
abbrev pub or_twenty : Option Number → Number
or_twenty none = binary (pos 20) 0
or_twenty (some limit) = limit

-- `find_heartbeats` is the `toArray` of
-- `find({ name, "data.router_id" }).sort({ blockTime: -1 }).limit(n)`.
module _ (find_heartbeats : Value → ℕ → List Heartbeat) where
  abbrev pub heartbeats_of : Number → Detail → Recent
  heartbeats_of limit not_found = no_router
  heartbeats_of limit (found doc) =
      rows (find_heartbeats (field_or_undefined (doc "routerId")) (page_limit limit))

  unfoldable pub recent_heartbeats : (m : Mongo) → Value → Option Number → m.Db → Recent
  recent_heartbeats m router_pda limit db =
      heartbeats_of (or_twenty limit) (get_one m router_pda db)

-- The heartbeats with an id, whoever sent them.
abbrev pub with_id : Value → List Heartbeat → List Heartbeat
with_id id [] = []
with_id id (h ∷ hs) = if same_id h.router_id id then h ∷ with_id id hs else with_id id hs

-- What MongoDB makes of a limit: 0 is none.
abbrev pub limited : ℕ → List Heartbeat → List Heartbeat
limited zero hs = hs
limited (suc n) hs = take (suc n) hs

positive : (n : ℕ) → n ≢ 0 → 0 < n
positive zero h = absurd (h refl)
positive (suc n) h = omega arith

limited_lem : (n : ℕ) (hs : List Heartbeat) → n ≢ 0 → limited n hs ≡ take n hs
limited_lem zero hs h = absurd (h refl)
limited_lem (suc n) hs h = refl

-- Where the router is found, its heartbeats are those with the id in its document, the latest first,
-- whoever sent them: at most 100 of them, and at least one where there is one, unless the limit is
-- strictly between 0 and 1; then all of them, however many. This is for a store that answers a query
-- with what fits its filter, in order, and takes a limit of 0 as none.
pub recent_heartbeats-limit :
    (find_heartbeats : Value → ℕ → List Heartbeat) (history : List Heartbeat)
    → ((id : Value) (n : ℕ) → find_heartbeats id n ≡ limited n (with_id id history))
    → (m : Mongo) (router_pda : Value) (limit : Option Number) (db : m.Db) (doc : Doc)
    → get_one m router_pda db ≡ found doc
    → let answer = recent_heartbeats find_heartbeats m router_pda limit db in
      let fitting = with_id (field_or_undefined (doc "routerId")) history in
      (IsProperFraction (or_twenty limit) → answer ≡ rows fitting)
      × (¬ IsProperFraction (or_twenty limit)
          → (n : ℕ) × (0 < n) × (n ≤ 100) × (answer ≡ rows (take n fitting)))
unfolding recent_heartbeats
recent_heartbeats-limit find history answers m router_pda limit db doc there =
    let id = field_or_undefined (doc "routerId") in
    let n = page_limit (or_twenty limit) in
    let range =
      clamp_limit_range 20 100 (or_twenty limit) (omega arith) (omega arith) (omega arith) in
    (
      λ fraction. rw there (
          ap rows
            (answers id n ∙ ap (λ (k : ℕ). limited k (with_id id history)) (range.0.1 fraction))),
      λ whole. (
        n,
        positive n (λ none. whole (range.0.0 none)),
        range.1,
        rw there (
            ap rows
              (answers id n ∙ limited_lem n (with_id id history) (λ none. whole (range.0.0 none)))),
      ),
    )
