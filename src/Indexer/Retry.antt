-- ===== src/Indexer/Retry.antt =====
-- indexer/src/retry.ts: retries of RPC calls with exponential backoff.
pub mod Backoff
use text.Mathlib.Text.{find?}
use router_pulse_depin_proto.Common.{
  ℕ, zero, suc, ◌+◌, ◌*◌, ◌-◌, ◌^◌, ◌==◌, ◌||◌, ◌&&◌, String, Bool, true, false, not, Option, none,
  some, List, [], ◌∷◌, if◌then◌else◌,
}

abbrev pub transient : List String
transient =
    "429" ∷ "too many requests" ∷ "rate limit" ∷ "503" ∷ "502" ∷ "504" ∷ "service unavailable"
    ∷ "bad gateway" ∷ "gateway timeout" ∷ "timeout" ∷ "timed out" ∷ "econnreset" ∷ "socket hang up"
    ∷ "etimedout" ∷ "fetch failed" ∷ "network error" ∷ []

-- `msg.includes(t)`.
unfoldable pub includes : String → String → Bool
includes msg t = elim (find? msg t) [ none ↦ false | some k ↦ true ]

unfoldable pub includes_some : List String → String → Bool
includes_some [] msg = false
includes_some (t ∷ ts) msg = includes msg t || includes_some ts msg

-- What a call comes to: its value, or an error with its message in lower case.
pub data Attempt {ℓ} (A : Type ℓ) : Type ℓ where
  resolved : A → Attempt A
  rejected : String → Attempt A

unfoldable pub is_transient : String → Bool
unfolding includes_some
is_transient message = includes_some transient message

-- The outcome of the loop, with the delays in milliseconds that were slept through. `undefined_error`
-- is `throw lastErr` when no attempt was allowed.
pub data Retried {ℓ} (A : Type ℓ) : Type ℓ where
  returned : A → List ℕ → Retried A
  thrown : String → List ℕ → Retried A
  undefined_error : Retried A

abbrev pub slept {ℓ} : {A : Type ℓ} → ℕ → Retried A → Retried A
slept d (returned a ds) = returned a (d ∷ ds)
slept d (thrown e ds) = thrown e (d ∷ ds)
slept d undefined_error = undefined_error

module _ {ℓ} {A : Type ℓ} (fn : ℕ → Attempt A) (jitter : ℕ → ℕ) (base attempts : ℕ) where
  abbrev delay : ℕ → ℕ
  delay i = base * 2 ^ i + jitter i

  -- One turn of the loop: `rest` is what follows the sleep.
  abbrev turn : ℕ → Attempt A → Retried A → Retried A
  turn i (resolved a) rest = returned a []
  turn i (rejected err) rest =
      if not (is_transient err) || (i == attempts - 1) then thrown err [] else slept (delay i) rest

  -- `left` counts the rounds to come, so the loop variable is `attempts - left`.
  unfoldable pub retry_loop : ℕ → Retried A
  retry_loop zero = undefined_error
  retry_loop (suc left) =
      let rest = retry_loop left in turn (attempts - suc left) (fn (attempts - suc left)) rest

  unfoldable pub with_retry : Retried A
  unfolding retry_loop
  with_retry = retry_loop attempts
