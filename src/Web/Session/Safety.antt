-- ===== src/Web/Session/Safety.antt =====
-- Whose session the web client holds (web/src/lib/useSession.ts).
use mathlib.Core.Path.{subst}
use router_pulse_depin_proto.Common.{
  String, Bool, true, false, Option, none, some, List, [], ◌∷◌, ◌≡◌, refl, sym, ap, ◌∙◌, ◌⊎◌, inl,
  inr, All, Bool-cases, some_inj, str_eq_iff,
}
use router_pulse_depin_proto.Js.{Value, null, str, strict_eq, prop, get_field}
use router_pulse_depin_proto.Web.Fetch.{Outcome, returned, raised}
use router_pulse_depin_proto.Web.Session.{
  Storage, unavailable, holds, Client, Services, handshake, session_of, restored, restored_raw,
  restore, connect, load, begun, begin_sign_in, kept, finished, matched, finish_sign_in, signed_out,
  sign_out, left_with, sign_out_and_disconnect, Event, step, steps, matches_wallet,
  is_authenticated,
}

-- `Issued w t`: the API gave out the token `t` for the wallet `w`.
module _ (parse : String → Option Value) (stringify : Value → String)
    (Issued : String → String → Type 0)
    (parse-stringify : (w t : String)
      → Issued w t
      → parse (stringify (session_of w (str t))) ≡ some (session_of w (str t))) where
  -- A session whose token was given out for its wallet.
  abbrev Genuine : Value → Type 0
  Genuine v = (w : String) × (t : String) × (v ≡ session_of w (str t)) × Issued w t

  abbrev pub IsSound : Storage → Type 0
  IsSound unavailable = Unit
  IsSound (holds none) = Unit
  IsSound (holds (some raw)) = (v : Value) → parse raw ≡ some v → Genuine v

  abbrev IsOwn : Value → Type 0
  IsOwn v = (v ≡ null) ⊎ Genuine v

  -- The token of a completed sign-in is one that was given out for its wallet.
  abbrev pub IsHonest : Event → Type 0
  IsHonest (Event.ended services w) =
      (token : Value)
      → handshake services w ≡ returned token
      → (t : String) × (token ≡ str t) × Issued w t
  IsHonest _ = Unit

  abbrev IsSafe : Client → Type 0
  IsSafe c = IsSound c.storage × IsOwn c.session

  matched-IsSafe :
      (w : String) (stored : Value) (c : Client)
      → IsSafe c
      → Genuine stored
      → IsSafe (matched parse stringify w stored c)
  matched-IsSafe w stored c (h, own) g =
      elim (Bool-cases (strict_eq (prop "wallet" stored) (str w))) [
        | inl e ↦ rw e (h, inr g)
        | inr e ↦ rw e (tt, inl refl)
      ]

  restored-IsSafe :
      (w : Option String) (read : Option Value) (c : Client)
      → ((v : Value) → read ≡ some v → Genuine v)
      → IsSafe c
      → IsSafe (restored parse stringify w read c)
  restored-IsSafe w none c g safe = safe
  restored-IsSafe none (some stored) c g (h, own) = (h, inl refl)
  restored-IsSafe (some w) (some stored) c g safe =
      let (v, t, e, issued) = g stored refl in
      subst (λ u. IsSafe (restored parse stringify (some w) (some u) c)) (sym e)
        (matched-IsSafe w (session_of v (str t)) c safe (v, t, refl, issued))

  restored_raw-IsSafe :
      (storage : Storage) (c : Client)
      → IsSound storage
      → IsSafe c
      → IsSafe (restored_raw parse stringify storage c)
  restored_raw-IsSafe unavailable c h safe = safe
  restored_raw-IsSafe (holds none) c h safe = safe
  restored_raw-IsSafe (holds (some String.[])) c h safe = safe
  restored_raw-IsSafe (holds (some (String.◌∷◌ x raw))) c h safe =
      restored-IsSafe c.wallet (parse (String.◌∷◌ x raw)) c h safe

  restore-IsSafe : (c : Client) → IsSafe c → IsSafe (restore parse stringify c)
  unfolding restore
  restore-IsSafe c safe = restored_raw-IsSafe c.storage c safe.0 safe

  connect-IsSafe :
      (w : Option String) (c : Client) → IsSafe c → IsSafe (connect parse stringify w c)
  unfolding connect
  connect-IsSafe w c safe = restore-IsSafe (record c { wallet = w }) safe

  load-IsSafe : (storage : Storage) → IsSound storage → IsSafe (load parse stringify storage)
  unfolding load
  load-IsSafe storage h = restore-IsSafe _ (h, inl refl)

  begun-IsSafe :
      (w : Option String) (b : Bool) (c : Client)
      → IsSafe c
      → IsSafe (begun parse stringify w b c).0
  begun-IsSafe none b c safe = safe
  begun-IsSafe (some w) true c safe = safe
  begun-IsSafe (some w) false c safe = safe

  kept-IsSafe :
      (storage : Storage) (quota : Option (Option String)) (w t : String) (c : Client)
      → Issued w t
      → IsSafe c
      → IsSafe (kept parse stringify storage quota (session_of w (str t)) c)
  kept-IsSafe unavailable quota w t c issued safe = safe
  kept-IsSafe (holds o) (some e) w t c issued safe = safe
  kept-IsSafe (holds o) none w t c issued safe =
      let genuine : Genuine (session_of w (str t)) = (w, t, refl, issued) in
      (
        (λ v e. subst Genuine (some_inj (sym (parse-stringify w t issued) ∙ e)) genuine),
        inr genuine,
      )

  finished-IsSafe :
      (services : Services) (w : String) (r : Outcome Value) (c : Client)
      → ((token : Value) → r ≡ returned token → (t : String) × (token ≡ str t) × Issued w t)
      → IsSafe c
      → IsSafe (finished parse stringify services w r c)
  finished-IsSafe services w (raised e) c h safe = safe
  finished-IsSafe services w (returned token) c h safe =
      let (t, e, issued) = h token refl in
      subst (λ u. IsSafe (kept parse stringify c.storage services.quota (session_of w u) c)) (sym e)
        (kept-IsSafe c.storage services.quota w t c issued safe)

  signed_out-IsSafe :
      (storage : Storage) (c : Client) → IsSafe c → IsSafe (signed_out parse stringify storage c)
  signed_out-IsSafe unavailable c safe = safe
  signed_out-IsSafe (holds o) c safe = (tt, inl refl)

  left_with-IsSafe :
      (storage : Storage) (b : Bool) (c : Client)
      → IsSafe c
      → IsSafe (left_with parse stringify storage b c)
  unfolding sign_out
  left_with-IsSafe unavailable b c safe = safe
  left_with-IsSafe (holds o) true c safe =
      connect-IsSafe none _ (signed_out-IsSafe c.storage c safe)
  left_with-IsSafe (holds o) false c safe = signed_out-IsSafe c.storage c safe

  step-IsSafe : (e : Event) (c : Client) → IsHonest e → IsSafe c → IsSafe (step parse stringify e c)
  unfolding step sign_out sign_out_and_disconnect begin_sign_in finish_sign_in
  step-IsSafe Event.reloaded c h safe = load-IsSafe c.storage safe.0
  step-IsSafe Event.signed_off c h safe = signed_out-IsSafe c.storage c safe
  step-IsSafe (Event.connected w) c h safe = connect-IsSafe w c safe
  step-IsSafe (Event.left b) c h safe = left_with-IsSafe c.storage b c safe
  step-IsSafe (Event.began b) c h safe = begun-IsSafe c.wallet b c safe
  step-IsSafe (Event.ended services w) c h safe =
      finished-IsSafe services w (handshake services w) c h safe

  steps-IsSafe :
      (es : List Event) (c : Client)
      → All IsHonest es
      → IsSafe c
      → IsSafe (steps parse stringify es c)
  unfolding steps
  steps-IsSafe [] c h safe = safe
  steps-IsSafe (e ∷ es) c (h, hs) safe = steps-IsSafe es _ hs (step-IsSafe e c h safe)

  -- The session is that of the wallet that is connected.
  abbrev pub IsMine : Client → Type 0
  IsMine c =
      (w : String) × (t : String) × (c.wallet ≡ some w)
      × (c.session ≡ session_of w (str t))
      × Issued w t

  session-matches :
      (wallet : Option String) (v t : String)
      → Issued v t
      → matches_wallet (session_of v (str t)) wallet ≡ true
      → (w : String) × (t' : String) × (wallet ≡ some w)
        × (session_of v (str t) ≡ session_of w (str t'))
        × Issued w t'
  unfolding strict_eq prop get_field
  session-matches none v t issued e = cc
  session-matches (some w) v t issued e =
      let same = (str_eq_iff v w).0 e in (w, t, refl, cc, subst (λ u. Issued u t) same issued)

  own-IsMine : (c : Client) → IsOwn c.session → is_authenticated c ≡ true → IsMine c
  unfolding is_authenticated
  own-IsMine c (inl e) h =
      let clash : true ≡ false = sym h ∙ ap (λ u. matches_wallet u c.wallet) e in absurd (cc)
  own-IsMine c (inr (v, t, e, issued)) h =
      let (w, t', a, b, i) =
        session-matches c.wallet v t issued (sym (ap (λ u. matches_wallet u c.wallet) e) ∙ h) in
      (w, t', a, e ∙ b, i)

  -- On a page whose storage holds no foreign session, and whatever happens to it, sign-ins that end
  -- after the wallet has changed included: when the page takes itself for authenticated, a wallet is
  -- connected, and the session is that wallet's, with a token that was given out for it.
  pub authenticated-IsMine :
      (storage : Storage) (es : List Event)
      → IsSound storage
      → All IsHonest es
      → is_authenticated (steps parse stringify es (load parse stringify storage)) ≡ true
      → IsMine (steps parse stringify es (load parse stringify storage))
  authenticated-IsMine storage es h hs e =
      own-IsMine _ (steps-IsSafe es _ hs (load-IsSafe storage h)).1 e
