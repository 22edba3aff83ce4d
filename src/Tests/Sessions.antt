-- ===== src/Tests/Sessions.antt =====
-- Examples for the web client's sessions.
use router_pulse_depin_proto.Common.{
  String, true, false, Option, none, some, List, [], ◌∷◌, ◌≡◌, refl, str_eq, if◌then◌else◌,
}
use router_pulse_depin_proto.Js.{Value, null, str, obj, end, field, prop, get_field, strict_eq}
use router_pulse_depin_proto.Web.Fetch.{Outcome, returned, Response}
use router_pulse_depin_proto.Web.Session.{
  holds, Client, Services, handshake, session_of, connect, load, finish_sign_in, Event, steps,
  is_authenticated,
}
use router_pulse_depin_proto.Web.Session.Safety.{IsMine, authenticated-IsMine}
use router_pulse_depin_proto.Web.Session.Restore.{restore-finish_sign_in}
use router_pulse_depin_proto.Tests.Fixtures.{differ}

-- A `JSON` that knows one session.
abbrev stringify : Value → String
stringify v = "{}"

abbrev parse : String → Option Value
parse s = if str_eq s "{}" then some (session_of "alice" (str "jwt")) else none

abbrev ok_with : String → Value → Outcome Response
ok_with k v = returned (record { status = 200; json = returned (obj (field k v end)) })

abbrev services : Services
services = record {
  can_sign = true;
  challenge = λ wallet. ok_with "message" (str "sign this");
  sign_message = λ message. returned "signature";
  verify = λ wallet signature. ok_with "accessToken" (str "jwt");
  quota = none;
}

abbrev connected_client : Client
connected_client = record {
  wallet = some "alice";
  storage = holds none;
  session = null;
  signing_in = true;
  error = none;
}

restore-finish_sign_in_example :
    let loaded =
      load parse stringify
        (finish_sign_in parse stringify services "alice" connected_client).storage in
    (loaded.session ≡ null)
    × (let back = connect parse stringify (some "alice") loaded in
        (is_authenticated back ≡ true) × (back.session ≡ session_of "alice" (str "jwt")))
    × (let other = connect parse stringify (some "bob") loaded in
        (is_authenticated other ≡ false) × (other.session ≡ null) × (other.storage ≡ holds none))
unfolding handshake prop get_field
restore-finish_sign_in_example =
    restore-finish_sign_in parse stringify "alice" "jwt" refl (λ e. differ "{}" "" refl e) services
      connected_client none refl refl refl "bob" (differ "bob" "alice" refl)

abbrev Issued : String → String → Type 0
Issued w t = (w ≡ "alice") × (t ≡ "jwt")

parse-stringify :
    (w t : String)
    → Issued w t
    → parse (stringify (session_of w (str t))) ≡ some (session_of w (str t))
parse-stringify w t (e, f) = rw (e, f) refl

-- Alice signs in, and bob connects before her sign-in has ended.
abbrev events : List Event
events =
    Event.connected (some "alice")
    ∷ Event.began true
    ∷ Event.connected (some "bob")
    ∷ Event.ended services "alice"
    ∷ Event.reloaded
    ∷ Event.connected (some "alice")
    ∷ []

authenticated-IsMine_example :
    IsMine parse stringify Issued parse-stringify
      (steps parse stringify events (load parse stringify (holds none)))
unfolding steps handshake prop get_field is_authenticated strict_eq
authenticated-IsMine_example =
    authenticated-IsMine parse stringify Issued parse-stringify (holds none) events tt
      (tt, (tt, (tt, ((λ token e. ("jwt", (cc), (refl, refl))), (tt, (tt, tt)))))) refl
