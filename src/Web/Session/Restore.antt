-- ===== src/Web/Session/Restore.antt =====
-- How long a session of the web client lasts (web/src/lib/useSession.ts).
use mathlib.Core.Path.{subst}
use router_pulse_depin_proto.Common.{
  String, Bool, true, false, Option, none, some, List, [], ◌∷◌, ◌≡◌, ◌≢◌, refl, sym, ap, ◌∙◌, inl,
  inr, All, Bool-cases, str_eq, str_eq_iff,
}
use router_pulse_depin_proto.Js.{Value, null, str, strict_eq, prop, get_field}
use router_pulse_depin_proto.Web.Fetch.{returned, raised}
use router_pulse_depin_proto.Web.Session.{
  Storage, unavailable, holds, Client, Services, handshake, session_of, restored, restored_raw,
  restore, connect, load, begun, begin_sign_in, finished, finish_sign_in, signed_out, sign_out,
  left_with, sign_out_and_disconnect, Event, step, steps, matches_wallet, is_authenticated,
}

module _ (parse : String → Option Value) (stringify : Value → String) where
  module _ (w t : String)
      (parse-stringify : parse (stringify (session_of w (str t))) ≡ some (session_of w (str t)))
      (is_text : stringify (session_of w (str t)) ≢ String.[]) where
    abbrev stored : Storage
    stored = holds (some (stringify (session_of w (str t))))

    restored_text :
        (raw : String) (c : Client)
        → raw ≢ String.[]
        → restored_raw parse stringify (holds (some raw)) c
          ≡ restored parse stringify c.wallet (parse raw) c
    restored_text String.[] c h = absurd (h refl)
    restored_text (String.◌∷◌ x raw) c h = refl

    restore-stored :
        (c : Client)
        → c.storage ≡ stored
        → restore parse stringify c
          ≡ restored parse stringify c.wallet (some (session_of w (str t))) c
    unfolding restore
    restore-stored c e =
        ap (λ s. restored_raw parse stringify s c) e
        ∙ restored_text _ c is_text
        ∙ ap (λ r. restored parse stringify c.wallet r c) parse-stringify

    load-stored : load parse stringify stored ≡ record {
      wallet = none;
      storage = stored;
      session = null;
      signing_in = false;
      error = none;
    }
    unfolding load
    load-stored = restore-stored _ refl

    -- The page as it is after a load and the wallet's reconnection.
    again :
        (v : String)
        → connect parse stringify (some v) (load parse stringify stored)
          ≡ restored parse stringify (some v) (some (session_of w (str t))) (record {
            wallet = some v;
            storage = stored;
            session = null;
            signing_in = false;
            error = none;
          })
    unfolding connect
    again v = ap (connect parse stringify (some v)) load-stored ∙ restore-stored _ refl

    stored_by_sign_in :
        (services : Services) (c : Client) (o : Option String)
        → c.storage ≡ holds o
        → services.quota ≡ none
        → handshake services w ≡ returned (str t)
        → (finish_sign_in parse stringify services w c).storage ≡ stored
    unfolding finish_sign_in
    stored_by_sign_in services c o hs hq hh = rw (hh, hs, hq) refl

    same_wallet : connect parse stringify (some w) (load parse stringify stored) ≡ record {
      wallet = some w;
      storage = stored;
      session = session_of w (str t);
      signing_in = false;
      error = none;
    }
    unfolding strict_eq prop get_field
    same_wallet = rw (again w, (str_eq_iff w w).1 refl) refl

    other_wallet :
        (v : String)
        → v ≢ w
        → connect parse stringify (some v) (load parse stringify stored) ≡ record {
          wallet = some v;
          storage = holds none;
          session = null;
          signing_in = false;
          error = none;
        }
    unfolding strict_eq prop get_field
    other_wallet v h = elim (Bool-cases (str_eq w v)) [
      | inl e ↦ absurd (h (sym ((str_eq_iff w v).0 e)))
      | inr e ↦ rw (again v, e) refl
    ]

    -- After a sign-in that the services complete and that the storage takes, a reload of the page
    -- drops the session from memory, and the reconnection of the same wallet brings it back,
    -- authenticated, without another signature. The connection of another wallet instead leaves the
    -- page signed out and clears the storage. This is for a `JSON` that reads back what it wrote.
    pub restore-finish_sign_in :
        (services : Services) (c : Client) (o : Option String)
        → c.storage ≡ holds o
        → services.quota ≡ none
        → handshake services w ≡ returned (str t)
        → (v : String) → v ≢ w
        → let loaded = load parse stringify (finish_sign_in parse stringify services w c).storage in
          (loaded.session ≡ null)
          × (let back = connect parse stringify (some w) loaded in
              (is_authenticated back ≡ true) × (back.session ≡ session_of w (str t)))
          × (let other = connect parse stringify (some v) loaded in
              (is_authenticated other ≡ false)
              × (other.session ≡ null)
              × (other.storage ≡ holds none))
    unfolding is_authenticated strict_eq prop get_field
    restore-finish_sign_in services c o hs hq hh v h =
        rw (stored_by_sign_in services c o hs hq hh) (
          ap (λ s. s.session) load-stored,
          rw same_wallet ((str_eq_iff w w).1 refl, refl),
          rw (other_wallet v h) (refl, refl, refl),
        )

  -- An event that completes no sign-in.
  abbrev pub IsQuiet : Event → Type 0
  IsQuiet (Event.ended services w) = (e : Option String) × (handshake services w ≡ raised e)
  IsQuiet _ = Unit

  abbrev IsCleared : Client → Type 0
  IsCleared c = (c.storage ≡ holds none) × (c.session ≡ null)

  restored_raw-IsCleared :
      (storage : Storage) (c : Client)
      → storage ≡ holds none
      → IsCleared c
      → IsCleared (restored_raw parse stringify storage c)
  restored_raw-IsCleared storage c e cleared =
      subst (λ s. IsCleared (restored_raw parse stringify s c)) (sym e) cleared

  restore-IsCleared : (c : Client) → IsCleared c → IsCleared (restore parse stringify c)
  unfolding restore
  restore-IsCleared c (hs, hn) = restored_raw-IsCleared c.storage c hs (hs, hn)

  signed_out-IsCleared :
      (storage : Storage) (c : Client)
      → IsCleared c
      → IsCleared (signed_out parse stringify storage c)
  signed_out-IsCleared unavailable c cleared = cleared
  signed_out-IsCleared (holds o) c cleared = (refl, refl)

  left_with-IsCleared :
      (storage : Storage) (b : Bool) (c : Client)
      → IsCleared c
      → IsCleared (left_with parse stringify storage b c)
  unfolding sign_out connect
  left_with-IsCleared unavailable b c cleared = cleared
  left_with-IsCleared (holds o) true c cleared =
      restore-IsCleared _ (signed_out-IsCleared c.storage c cleared)
  left_with-IsCleared (holds o) false c cleared = signed_out-IsCleared c.storage c cleared

  begun-IsCleared :
      (w : Option String) (b : Bool) (c : Client)
      → IsCleared c
      → IsCleared (begun parse stringify w b c).0
  begun-IsCleared none b c cleared = cleared
  begun-IsCleared (some w) true c cleared = cleared
  begun-IsCleared (some w) false c cleared = cleared

  step-IsCleared :
      (e : Event) (c : Client) → IsQuiet e → IsCleared c → IsCleared (step parse stringify e c)
  unfolding step connect load sign_out sign_out_and_disconnect begin_sign_in finish_sign_in
  step-IsCleared Event.reloaded c q (hs, hn) = restore-IsCleared _ (hs, refl)
  step-IsCleared Event.signed_off c q cleared = signed_out-IsCleared c.storage c cleared
  step-IsCleared (Event.connected w) c q cleared = restore-IsCleared _ cleared
  step-IsCleared (Event.left b) c q cleared = left_with-IsCleared c.storage b c cleared
  step-IsCleared (Event.began b) c q cleared = begun-IsCleared c.wallet b c cleared
  step-IsCleared (Event.ended services w) c (e, q) cleared =
      subst (λ r. IsCleared (finished parse stringify services w r c)) (sym q) cleared

  steps-IsCleared :
      (es : List Event) (c : Client)
      → All IsQuiet es
      → IsCleared c
      → IsCleared (steps parse stringify es c)
  unfolding steps
  steps-IsCleared [] c q cleared = cleared
  steps-IsCleared (e ∷ es) c (q, qs) cleared =
      steps-IsCleared es _ qs (step-IsCleared e c q cleared)

  -- Once the user has signed out, with a storage that is available, no sequence of reloads, wallet
  -- changes, sign-outs and failed sign-ins makes the page authenticated again.
  pub sign_out-lasts :
      (c : Client) (o : Option String) (es : List Event)
      → c.storage ≡ holds o
      → All IsQuiet es
      → is_authenticated (steps parse stringify es (sign_out parse stringify c)) ≡ false
  unfolding sign_out is_authenticated
  sign_out-lasts c o es h q =
      let start = subst (λ s. IsCleared (signed_out parse stringify s c)) (sym h) (refl, refl) in
      let (_, e) = steps-IsCleared es (sign_out parse stringify c) q start in
      ap (λ v. matches_wallet v (steps parse stringify es (sign_out parse stringify c)).wallet) e
