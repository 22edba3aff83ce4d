-- ===== src/Api/Status.antt =====
-- api/src/health.controller.ts, realtime/realtime.gateway.ts and admin/admin.controller.ts: the
-- health of the service, the fan-out of events to the clients, and the limit of the audit log.
use router_pulse_depin_proto.Common.{
  ℕ, ◌*◌, ◌^◌, String, Bool, true, false, ◌&&◌, Option, none, some, List, [], ◌∷◌, leb,
  if◌then◌else◌, ◌≡◌, refl,
}
use router_pulse_depin_proto.Common.Int.{pos, negsuc}
use router_pulse_depin_proto.Js.{Value}
use router_pulse_depin_proto.Api.Pagination.{Number, nan, infinity, binary}

pub record Health : Type 0 where
  pub status : String
  pub mongo : String
  pub redis : String

abbrev up_or_down : Bool → String
up_or_down fulfilled = if fulfilled then "up" else "down"

-- `health`, from whether each ping is fulfilled.
unfoldable pub health : Bool → Bool → Health
health mongo redis = record {
  status = if mongo && redis then "ok" else "degraded";
  mongo = up_or_down mongo;
  redis = up_or_down redis;
}

abbrev emitted_of : Option Value → List Value → List Value
emitted_of none rest = rest
emitted_of (some event) rest = event ∷ rest

-- The handler of the channel's messages: `parse` is `JSON.parse`, none where it throws, and a
-- message that it throws on is dropped.
unfoldable pub relayed : (String → Option Value) → List String → List Value
relayed parse [] = []
relayed parse (message ∷ rest) = emitted_of (parse message) (relayed parse rest)

-- `Number(limit) || 50`.
abbrev or_fifty : Number → Number
or_fifty nan = binary (pos 50) 0
or_fifty (infinity negative) = infinity negative
or_fifty (binary (pos ℕ.zero) e) = binary (pos 50) 0
or_fifty (binary m e) = binary m e

-- `Math.min(n, 200)`.
abbrev at_most_200 : Number → Number
at_most_200 nan = nan
at_most_200 (infinity true) = infinity true
at_most_200 (infinity false) = binary (pos 200) 0
at_most_200 (binary (negsuc m) e) = binary (negsuc m) e
at_most_200 (binary (pos m) e) =
    if leb (200 * 2 ^ e) m then binary (pos 200) 0 else binary (pos m) e

-- The limit of the audit log.
unfoldable pub audit_limit : Number → Number
audit_limit limit = at_most_200 (or_fifty limit)

health_test : health true false ≡ record { status = "degraded"; mongo = "up"; redis = "down" }
unfolding health
health_test = refl
