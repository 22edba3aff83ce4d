-- ===== src/Web/Operator/Sends.antt =====
-- What the operator's actions send and show (web/src/components/RouterActions.tsx).
use router_pulse_depin_proto.Common.{
  ℕ, ◌-◌, ◌*◌, ◌/◌, ◌^◌, ◌<◌, ◌≤◌, String, Bool, Option, none, some, List, [], ◌∷◌, ◌≡◌, refl, ◌⊎◌,
  inl, inr, Option-cases, if◌then◌else◌,
}
use router_pulse_depin_proto.Common.Int.{ℤ, pos}
use router_pulse_depin_proto.Common.Decimal.{show, read, all_digits}
use router_pulse_depin_proto.Web.Fetch.{Outcome, returned, raised}
use router_pulse_depin_proto.Web.Format.{format_tokens}
use router_pulse_depin_proto.Web.Format.RoundTrip.{to_base_units-format_tokens}
use router_pulse_depin_proto.Web.UseTx.{TxPhase, TxState, confirmed, error, in_phase, humanize, run}
use router_pulse_depin_proto.Web.Operator.{
  Call, stake, create_token_account, rotate_device_key, do_stake, do_rotate,
}

-- What a call of the RPC comes to.
Outcome-cases :
    {A : Type 0} (o : Outcome A)
    → ((a : A) × (o ≡ returned a)) ⊎ ((e : Option String) × (o ≡ raised e))
Outcome-cases (returned a) = inl (a, refl)
Outcome-cases (raised e) = inr (e, refl)

module _ (lower : String → String) (bn : String → Outcome ℤ)
    (rpc : List Call → Outcome String) where
  -- The last state and the result of an action whose transaction is confirmed, where the refresh
  -- after it does not throw and where it throws.
  abbrev pub landed : String → Option String → TxState × Option String
  landed sig none = (in_phase confirmed (some sig), some sig)
  landed sig (some raw) =
      (record { phase = error; signature = none; message = some (humanize lower raw) }, none)

  run-landed :
      (sig raw : String) (refreshed : Option String)
      → run lower (some sig) refreshed raw ≡ (
        in_phase TxPhase.building none
            ∷ in_phase TxPhase.signing none
            ∷ in_phase TxPhase.confirming (some sig)
            ∷ (landed sig refreshed).0
            ∷ [],
        (landed sig refreshed).1,
      )
  unfolding run
  run-landed sig raw none = refl
  run-landed sig raw (some e) = refl

  -- A stake whose transaction is confirmed, for an amount that the page itself displays: exactly one
  -- transaction is sent, and it stakes the displayed amount, rounded down to the decimals displayed,
  -- behind the creation of the token account where that is missing. The page shows that it builds,
  -- signs and confirms, with the signature, and ends confirmed with it if the refresh after it does
  -- not throw; if the refresh throws it ends in an error without a signature. This is for an amount
  -- below a thousand tokens, a `BN` that reads numerals in decimal and a locale that prints numbers
  -- below a thousand as numerals.
  pub do_stake-format_tokens :
      (locale : ℤ → String) (p v : ℕ) (exists : Bool) (sig : String) (refreshed : Option String)
      → ((s : String) → all_digits s ≡ Bool.true → bn s ≡ returned (pos (read s)))
      → ((n : ℕ) → n < 1000 → locale (pos n) ≡ show n)
      → p ≤ 9
      → v < 1000000000000
      → let staked = stake (pos (v / 10 ^ (9 - p) * 10 ^ (9 - p))) in
        let calls = if exists then staked ∷ [] else create_token_account ∷ staked ∷ [] in
        rpc calls ≡ returned sig
        → do_stake lower bn rpc refreshed
            (returned exists)
            (format_tokens locale 9 p (some (show v)))
          ≡ returned (record {
            sent = calls ∷ [];
            states =
                in_phase TxPhase.building none
                ∷ in_phase TxPhase.signing none
                ∷ in_phase TxPhase.confirming (some sig)
                ∷ (landed sig refreshed).0
                ∷ [];
            result = (landed sig refreshed).1;
          })
  unfolding do_stake
  do_stake-format_tokens locale p v exists sig refreshed bn_reads locale_small hp hv h =
      rw
        (
          to_base_units-format_tokens bn bn_reads locale locale_small p v hp hv,
          h,
          run-landed sig "" refreshed,
        )
        refl

  -- However a rotation ends: either it is confirmed and the refresh after it does not throw, and
  -- then the new key is shown, or the action has no signature and the key that was shown before
  -- stays, which is also so where the rotation is confirmed and only the refresh throws.
  pub do_rotate-shows :
      (refreshed : Option String) (next : ℕ) (rotated : Option ℕ)
      → let (action, shown) = do_rotate lower bn rpc refreshed next rotated in
        ((sig : String) × (rpc (rotate_device_key next ∷ []) ≡ returned sig)
          × (refreshed ≡ none)
          × (action.result ≡ some sig)
          × (shown ≡ some next))
        ⊎ ((((e : Option String) × (rpc (rotate_device_key next ∷ []) ≡ raised e))
              ⊎ ((m : String) × (refreshed ≡ some m)))
            × (action.result ≡ none)
            × (shown ≡ rotated))
  unfolding do_rotate run
  do_rotate-shows refreshed next rotated =
      elim (Outcome-cases (rpc (rotate_device_key next ∷ []))) [
        | inr (e, raises) ↦ rw raises (inr (inl (e, refl), refl, refl))
        | inl (sig, sends) ↦ elim (Option-cases refreshed) [
          | inl quiet ↦ rw (sends, quiet) (inl (sig, refl, refl, refl, refl))
          | inr (m, throws) ↦ rw (sends, throws) (inr (inr (m, refl), refl, refl))
        ]
      ]
