-- ===== src/Api/Auth/SingleUse.antt =====
-- What a challenge is good for: one session of one wallet, for five minutes.
use mathlib.Core.Path.{subst}
use text.Mathlib.TextLemmas.{append_cancel_left}
use router_pulse_depin_proto.Common.{
  ℕ, ◌+◌, ◌≤◌, String, Bool, false, Option, none, some, List, [], ◌∷◌, ◌≡◌, ◌≢◌, refl, sym, ap,
  arith, str_eq, str_eq_iff, Bool-cases, Option-cases, inl, inr, if◌then◌else◌,
}
use router_pulse_depin_proto.Api.Auth.{
  Redis, challenge_key, challenge_message, challenge_ttl_seconds, Verified, unauthorized, Refusal,
  token, issue_challenge, examined, concluded, verify,
}

challenge_key_injective : (v w : String) → challenge_key v ≡ challenge_key w → v ≡ w
challenge_key_injective v w h = append_cancel_left "siws:challenge:" v w h

-- A sequence of requests, each answered before the next comes, and of seconds that go by.
pub data Request : Type 0 where
  issuing : (wallet nonce issued : String) → Request
  verifying : (wallet signature : String) → Request
  waiting : (seconds : ℕ) → Request

abbrev one_of : Verified → ℕ
one_of (unauthorized refusal) = 0
one_of (token t) = 1

abbrev pending_of : Option String → ℕ
pending_of none = 0
pending_of (some message) = 1

module _ (redis : Redis) (check : String → String → String → Option Bool)
    (sign : String → String) where
  abbrev pub serve : Request → redis.Store → redis.Store
  serve (issuing wallet nonce issued) s = issue_challenge redis check sign wallet nonce issued s
  serve (verifying wallet signature) s = (verify redis check sign wallet signature s).1
  serve (waiting seconds) s = redis.elapse seconds s

  abbrev opened : String → Request → redis.Store → ℕ
  opened w (verifying wallet signature) s =
      if str_eq wallet w then one_of (verify redis check sign wallet signature s).0 else 0
  opened w _ s = 0

  abbrev asked : String → Request → ℕ
  asked w (issuing wallet nonce issued) = if str_eq wallet w then 1 else 0
  asked w _ = 0

  -- The sessions that a sequence opens for a wallet, and the challenges that it issues to it.
  unfoldable pub sessions : String → List Request → redis.Store → ℕ
  sessions w [] s = 0
  sessions w (r ∷ rs) s = opened w r s + sessions w rs (serve r s)

  unfoldable pub challenges : String → List Request → ℕ
  challenges w [] = 0
  challenges w (r ∷ rs) = asked w r + challenges w rs

  abbrev pending : String → redis.Store → ℕ
  pending w s = pending_of (redis.get (challenge_key w) s)

  conclude_own :
      (w : String) (o : Option Refusal) (s : redis.Store)
      → (o ≡ none → pending w s ≡ 1)
      → one_of (concluded redis check sign w o s).0 + pending w (concluded redis check sign w o s).1
        ≤ pending w s
  conclude_own w (some refusal) s h = omega arith
  conclude_own w none s h = rw (redis.get-del (challenge_key w) s) (omega (arith, h refl))

  conclude_other :
      (w v : String) (o : Option Refusal) (s : redis.Store)
      → w ≢ v
      → pending w (concluded redis check sign v o s).1 ≡ pending w s
  conclude_other w v (some refusal) s h = refl
  conclude_other w v none s h = ap pending_of (
      redis.get-del_other (challenge_key w) (challenge_key v) s
        (λ e. h (challenge_key_injective w v e)))

  examined-none :
      (w signature : String) (o : Option String)
      → examined redis check sign w signature o ≡ none
      → pending_of o ≡ 1
  unfolding examined
  examined-none w signature none h = absurd cc
  examined-none w signature (some message) h = refl

  pending-le-one : (o : Option String) → pending_of o ≤ 1
  pending-le-one none = omega arith
  pending-le-one (some message) = omega arith

  apart : (v w : String) → str_eq v w ≡ false → w ≢ v
  apart v w other e = cc (other, (str_eq_iff v w).1 (sym e))

  serve_step :
      (w : String) (r : Request) (s : redis.Store)
      → opened w r s + pending w (serve r s) ≤ asked w r + pending w s
  unfolding issue_challenge verify
  serve_step w (issuing wallet nonce issued) s = elim (Bool-cases (str_eq wallet w)) [
    | inl same ↦ rw same (
        omega (
          arith,
          pending-le-one (redis.get (challenge_key w) (serve (issuing wallet nonce issued) s)),
        ))
    | inr other ↦
        rw
          (
            other,
            redis.get-set_other (challenge_key w) (challenge_key wallet)
                (challenge_message wallet nonce issued) challenge_ttl_seconds s
                (λ e. apart wallet w other (challenge_key_injective w wallet e)),
          )
          (omega arith)
  ]
  serve_step w (verifying wallet signature) s =
      let o = examined redis check sign wallet signature (redis.get (challenge_key wallet) s) in
      elim (Bool-cases (str_eq wallet w)) [
        | inl same ↦
            let own =
              subst
                (λ v.
                  one_of (concluded redis check sign wallet o s).0
                    + pending v (concluded redis check sign wallet o s).1
                  ≤ pending v s)
                ((str_eq_iff wallet w).0 same)
                (conclude_own wallet o s
                  (examined-none wallet signature (redis.get (challenge_key wallet) s))) in
            rw same (omega (arith, own))
        | inr other ↦ rw (other, conclude_other w wallet o s (apart wallet w other)) (omega arith)
      ]
  serve_step w (waiting seconds) s = elim (Option-cases (redis.get (challenge_key w) s)) [
    | inl gone ↦ rw (redis.get-elapse_none (challenge_key w) seconds s gone) (omega arith)
    | inr (m, there) ↦
        rw there
          (omega (arith, pending-le-one (redis.get (challenge_key w) (redis.elapse seconds s))))
  ]

  sessions-le :
      (w : String) (rs : List Request) (s : redis.Store)
      → sessions w rs s ≤ challenges w rs + pending w s
  unfolding sessions challenges
  sessions-le w [] s = omega arith
  sessions-le w (r ∷ rs) s = omega (arith, serve_step w r s, sessions-le w rs (serve r s))

  -- Where no challenge of a wallet is pending at first, no sequence of requests, each answered before
  -- the next comes, opens more sessions for the wallet than challenges it issues to it.
  pub sessions-le-challenges :
      (w : String) (rs : List Request) (s : redis.Store)
      → redis.get (challenge_key w) s ≡ none
      → sessions w rs s ≤ challenges w rs
  sessions-le-challenges w rs s h =
      let bound = sessions-le w rs s in let bound_now = rw h at bound in omega (arith, bound_now)
