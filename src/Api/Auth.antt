-- ===== src/Api/Auth.antt =====
-- api/src/auth/auth.service.ts: the challenge that a wallet signs and the session that it opens.
pub mod SingleUse
pub mod Guards
pub mod Admin
pub mod Overlap
use Prim.Native.String.{◌++◌}
use router_pulse_depin_proto.Common.{
  ℕ, suc, ◌+◌, ◌≤◌, ◌<◌, String, Bool, true, false, Option, none, some, List, [], ◌∷◌, ◌≡◌, ◌≢◌,
  str_eq, if◌then◌else◌,
}

-- The Redis that the service keeps its challenges in, and the laws it relies on: a key set with an
-- expiry answers until that many seconds have gone by, and keys are apart.
pub record Redis : Type 1 where
  pub Store : Type 0
  pub get : String → Store → Option String
  pub set : String → String → ℕ → Store → Store
  pub del : String → Store → Store
  pub elapse : ℕ → Store → Store
  pub get-set :
      (k v : String) (ttl d : ℕ) (s : Store) → d < ttl → get k (elapse d (set k v ttl s)) ≡ some v
  pub get-set_expired :
      (k v : String) (ttl d : ℕ) (s : Store) → ttl ≤ d → get k (elapse d (set k v ttl s)) ≡ none
  pub get-set_other :
      (j k v : String) (ttl : ℕ) (s : Store) → j ≢ k → get j (set k v ttl s) ≡ get j s
  pub get-del : (k : String) (s : Store) → get k (del k s) ≡ none
  pub get-del_other : (j k : String) (s : Store) → j ≢ k → get j (del k s) ≡ get j s
  pub get-elapse_none :
      (k : String) (d : ℕ) (s : Store) → get k s ≡ none → get k (elapse d s) ≡ none

abbrev pub challenge_ttl_seconds : ℕ
challenge_ttl_seconds = 300

abbrev challenge_prefix : String
challenge_prefix = "siws:challenge:"

abbrev pub challenge_key : String → String
challenge_key wallet = challenge_prefix ++ wallet

unfoldable pub challenge_message : String → String → String → String
challenge_message wallet nonce issued =
    "RouterPulse wants you to sign in.\n\nWallet: "
    ++ (wallet ++ ("\nNonce: " ++ (nonce ++ ("\nIssued: " ++ issued))))

-- The two `UnauthorizedException`s of the service.
pub data Refusal : Type 0 where
  no_challenge bad_signature : Refusal

pub data Verified : Type 0 where
  unauthorized : Refusal → Verified
  token : String → Verified

-- `check message signature wallet` is nacl's verification after the base58 decodings, `none` where
-- one of them throws; `sign` is the JWT service's.
module _ (redis : Redis) (check : String → String → String → Option Bool)
    (sign : String → String) where
  abbrev pub matches : Option Bool → Bool
  matches none = false
  matches (some b) = b

  -- `issueChallenge`, at a fresh nonce and the time of the call.
  unfoldable pub issue_challenge : String → String → String → redis.Store → redis.Store
  issue_challenge wallet nonce issued s =
      redis.set (challenge_key wallet) (challenge_message wallet nonce issued) challenge_ttl_seconds
        s

  -- What `verify` has found out before it burns the challenge: the exception, or nothing.
  unfoldable pub examined : String → String → Option String → Option Refusal
  examined wallet signature none = some no_challenge
  examined wallet signature (some message) =
      if str_eq message ""
      then some no_challenge
      else if matches (check message signature wallet)
      then none
      else some bad_signature

  abbrev pub concluded : String → Option Refusal → redis.Store → Verified × redis.Store
  concluded wallet (some refusal) s = (unauthorized refusal, s)
  concluded wallet none s = (token (sign wallet), redis.del (challenge_key wallet) s)

  -- The first call of Redis in `verify`: what it reads, and the store after it.
  abbrev pub looked_up : String → redis.Store → Option String × redis.Store
  looked_up wallet s = (redis.get (challenge_key wallet) s, s)

  -- The rest of `verify`, with what it has read; its `del` comes in the same turn as its checks.
  abbrev pub answer : String → String → Option String → redis.Store → Verified × redis.Store
  answer wallet signature message s = concluded wallet (examined wallet signature message) s

  unfoldable pub verify : String → String → redis.Store → Verified × redis.Store
  verify wallet signature s =
      let (message, s') = looked_up wallet s in answer wallet signature message s'
