-- ===== src/Web/Session.antt =====
-- web/src/lib/useSession.ts: the session of the web client, in memory and in the browser's storage.
pub mod Safety
pub mod Restore
use Prim.Native.String.{◌++◌}
use router_pulse_depin_proto.Common.{
  ℕ, String, Bool, true, false, Option, none, some, List, [], ◌∷◌, ◌&&◌, leb, if◌then◌else◌, str_eq,
}
use router_pulse_depin_proto.Common.Decimal.{show}
use router_pulse_depin_proto.Js.{
  Value, undefined, null, str, obj, end, field, strict_eq, prop, Fields,
}
use router_pulse_depin_proto.Indexer.Retry.{includes}
use router_pulse_depin_proto.Web.Fetch.{Outcome, returned, raised, and_then, Response, is_ok}

-- `localStorage` under the session's key: it may be unavailable, and then every access throws.
pub data Storage : Type 0 where
  unavailable : Storage
  holds : Option String → Storage

-- The state of the hook. A session is an object or `null`.
pub record Client : Type 0 where
  pub wallet : Option String
  pub storage : Storage
  pub session : Value
  pub signing_in : Bool
  pub error : Option String

-- What a sign-in calls: the two endpoints, the wallet's `signMessage` with the encoding of its
-- argument and of its result, and `localStorage.setItem`, which throws where the quota is used up.
pub record Services : Type 0 where
  pub can_sign : Bool
  pub challenge : String → Outcome Response
  pub sign_message : Value → Outcome String
  pub verify : String → String → Outcome Response
  pub quota : Option (Option String)

abbrev pub session_of : String → Value → Value
session_of wallet token = obj (field "wallet" (str wallet) (field "accessToken" token end))

-- `const { k } = v`.
abbrev destructured : String → Value → Outcome Value
destructured k undefined = raised (some "Cannot destructure a property of undefined")
destructured k null = raised (some "Cannot destructure a property of null")
destructured k v = returned (prop k v)

abbrev checked : String → Response → Outcome Value
checked words r = if is_ok r then r.json else raised (some (words ++ " (" ++ show r.status ++ ")"))

-- From the challenge to the token, of a wallet.
unfoldable pub handshake : Services → String → Outcome Value
unfolding show
handshake services wallet = and_then (services.challenge wallet) (λ challenge.
    and_then (checked "Challenge failed" challenge) (λ challenge_body.
      and_then (destructured "message" challenge_body) (λ message.
        and_then (services.sign_message message) (λ signature.
          and_then (services.verify wallet signature) (λ verified.
            and_then (checked "Verification rejected" verified)
              (λ body. destructured "accessToken" body))))))

abbrev shown : Option String → Option String
shown none = some "Sign-in failed"
shown (some text) = if includes text "User rejected" then none else some text

-- What happens to a page, in its order.
pub data Event : Type 0 where
  reloaded signed_off : Event
  connected : Option String → Event
  left : Bool → Event
  began : Bool → Event
  ended : Services → String → Event

-- `parse` and `stringify` are those of `JSON`; `parse` gives none where it throws.
module _ (parse : String → Option Value) (stringify : Value → String) where
  -- The two branches on a stored value, for a connected wallet.
  abbrev matched : String → Value → Client → Client
  matched w stored c =
      if strict_eq (prop "wallet" stored) (str w)
      then record c { session = stored }
      else record c { storage = holds none; session = null }

  abbrev throws_on_read : Value → Bool
  throws_on_read null = true
  throws_on_read undefined = true
  throws_on_read _ = false

  -- A read of a property of `null` throws, and the effect's `catch` leaves the state as it is.
  abbrev restored : Option String → Option Value → Client → Client
  restored w none c = c
  restored none (some stored) c = record c { session = null }
  restored (some w) (some stored) c = if throws_on_read stored then c else matched w stored c

  abbrev restored_raw : Storage → Client → Client
  restored_raw unavailable c = c
  restored_raw (holds none) c = c
  restored_raw (holds (some String.[])) c = c
  restored_raw (holds (some (String.◌∷◌ x raw))) c = restored c.wallet (parse (String.◌∷◌ x raw)) c

  -- The effect on `[wallet]`.
  unfoldable pub restore : Client → Client
  restore c = restored_raw c.storage c

  -- A change of the connected wallet runs the effect, which keeps to the order of the events.
  unfoldable pub connect : Option String → Client → Client
  unfolding restore
  connect w c = restore (record c { wallet = w })

  -- A load of the page: nothing is in memory, and no wallet is reported yet.
  unfoldable pub load : Storage → Client
  unfolding restore
  load storage = restore (record {
    wallet = none;
    storage = storage;
    session = null;
    signing_in = false;
    error = none;
  })

  -- `signIn` up to its first `await`; the wallet that it closes over, where it goes on.
  abbrev begun : Option String → Bool → Client → Client × Option String
  begun (some w) true c = (record c { signing_in = true; error = none }, some w)
  begun _ _ c =
      (record c { error = some "Connect a wallet that supports message signing first." }, none)

  unfoldable pub begin_sign_in : Bool → Client → Client × Option String
  begin_sign_in can_sign c = begun c.wallet can_sign c

  abbrev failed : Option String → Client → Client
  failed e c = record c { error = shown e; signing_in = false }

  abbrev kept : Storage → Option (Option String) → Value → Client → Client
  kept unavailable quota next c = failed (some "Access is denied for this document.") c
  kept (holds o) (some e) next c = failed e c
  kept (holds o) none next c = record c {
    storage = holds (some (stringify next));
    session = next;
    signing_in = false;
  }

  abbrev finished : Services → String → Outcome Value → Client → Client
  finished services w (raised e) c = failed e c
  finished services w (returned token) c = kept c.storage services.quota (session_of w token) c

  -- The rest of `signIn`, for the wallet that it closed over; another may be connected by then.
  unfoldable pub finish_sign_in : Services → String → Client → Client
  unfolding handshake
  finish_sign_in services w c = finished services w (handshake services w) c

  abbrev signed_out : Storage → Client → Client
  signed_out unavailable c = c
  signed_out (holds o) c = record c { storage = holds none; session = null }

  -- `signOut`; without a storage it throws before it clears the session.
  unfoldable pub sign_out : Client → Client
  sign_out c = signed_out c.storage c

  abbrev left_with : Storage → Bool → Client → Client
  left_with unavailable disconnects c = c
  left_with (holds o) true c = connect none (sign_out c)
  left_with (holds o) false c = sign_out c

  -- `signOutAndDisconnect`: a failure of the wallet's `disconnect` is swallowed, and its success is
  -- a change of the wallet.
  unfoldable pub sign_out_and_disconnect : Bool → Client → Client
  unfolding sign_out connect
  sign_out_and_disconnect disconnects c = left_with c.storage disconnects c

  unfoldable pub step : Event → Client → Client
  unfolding connect load sign_out sign_out_and_disconnect begin_sign_in finish_sign_in
  step reloaded c = load c.storage
  step signed_off c = sign_out c
  step (connected w) c = connect w c
  step (left disconnects) c = sign_out_and_disconnect disconnects c
  step (began can_sign) c = (begin_sign_in can_sign c).0
  step (ended services w) c = finish_sign_in services w c

  unfoldable pub steps : List Event → Client → Client
  unfolding step
  steps [] c = c
  steps (e ∷ es) c = steps es (step e c)

-- `!!session && session.wallet === wallet`; the sessions that are set are objects or `null`.
abbrev pub wallet_value : Option String → Value
wallet_value none = null
wallet_value (some w) = str w

abbrev pub matches_wallet : Value → Option String → Bool
matches_wallet null wallet = false
matches_wallet undefined wallet = false
matches_wallet session wallet = strict_eq (prop "wallet" session) (wallet_value wallet)

unfoldable pub is_authenticated : Client → Bool
is_authenticated c = matches_wallet c.session c.wallet
