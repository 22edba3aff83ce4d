-- ===== src/Web/Fetch.antt =====
-- web/src/lib/api.ts and useSession.ts: requests to the API.
use Prim.Native.String.{◌++◌}
use router_pulse_depin_proto.Common.{ℕ, String, Bool, Option, none, some, ◌&&◌, leb, if◌then◌else◌}
use router_pulse_depin_proto.Common.Decimal.{show}
use router_pulse_depin_proto.Js.{Value, null}

-- A value, or a throw with the message of its error, if it has one.
pub data Outcome (A : Type 0) : Type 0 where
  returned : A → Outcome A
  raised : Option String → Outcome A

-- A response: `json` is what `res.json()` comes to.
pub record Response : Type 0 where
  pub status : ℕ
  pub json : Outcome Value

-- `res.ok`.
abbrev pub is_ok : Response → Bool
is_ok r = leb 200 r.status && leb r.status 299

abbrev pub and_then : {A B : Type 0} → Outcome A → (A → Outcome B) → Outcome B
and_then (returned a) k = k a
and_then (raised e) k = raised e

abbrev json_or_throw : String → Response → Outcome Value
json_or_throw path r =
    if is_ok r then r.json else raised (some ("API " ++ show r.status ++ " on " ++ path))

-- What an authenticated request comes to; `body` is the field `data`.
pub record Reply : Type 0 where
  pub ok : Bool
  pub status : ℕ
  pub body : Value

-- `fetch` of a path, without headers or with the session's token.
module _ (fetch : String → Option String → Outcome Response) where
  unfoldable pub get : String → Outcome Value
  unfolding show
  get path = and_then (fetch path none) (json_or_throw path)

  abbrev pub or_null : Outcome Value → Value
  or_null (returned v) = v
  or_null (raised e) = null

  unfoldable pub try_get : String → Value
  unfolding get
  try_get path = or_null (get path)

  abbrev replied : Response → Outcome Reply
  replied r = returned (record { ok = is_ok r; status = r.status; body = or_null r.json })

  unfoldable pub authed_fetch : String → String → Outcome Reply
  authed_fetch path token = and_then (fetch path (some ("Bearer " ++ token))) replied
