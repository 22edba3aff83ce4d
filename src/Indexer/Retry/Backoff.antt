-- ===== src/Indexer/Retry/Backoff.antt =====
-- When `withRetry` stops, and how long it sleeps.
use native.Mathlib.Nat.{pow-suc}
use router_pulse_depin_proto.Common.{
  ℕ, zero, suc, ◌+◌, ◌*◌, ◌-◌, ◌^◌, ◌≤◌, ◌<◌, true, false, List, [], ◌∷◌, ◌≡◌, refl, ap, ◌∙◌, arith,
  ◌⊎◌,
}
use router_pulse_depin_proto.Indexer.Retry.{
  Attempt, resolved, rejected, Retried, returned, thrown, undefined_error, is_transient, slept,
  turn, retry_loop, with_retry,
}

abbrev sum : List ℕ → ℕ
sum [] = 0
sum (d ∷ ds) = d + sum ds

-- The time slept through, in all.
abbrev pub total_delay {ℓ} : {A : Type ℓ} → Retried A → ℕ
total_delay (returned a ds) = sum ds
total_delay (thrown e ds) = sum ds
total_delay undefined_error = 0

-- The outcome of an attempt after which the loop ends.
abbrev pub ended {ℓ} : {A : Type ℓ} → Attempt A → List ℕ → Retried A
ended (resolved a) ds = returned a ds
ended (rejected e) ds = thrown e ds

-- An attempt that leads to another one.
abbrev pub IsRetried {ℓ} : {A : Type ℓ} → Attempt A → Type 0
IsRetried (resolved a) = ⊥
IsRetried (rejected e) = is_transient e ≡ true

-- An attempt after which the loop ends: a value, or an error that no retry would mend.
abbrev IsFinal {ℓ} : {A : Type ℓ} → Attempt A → Type 0
IsFinal (resolved a) = Unit
IsFinal (rejected e) = is_transient e ≡ false

module _ {ℓ} {A : Type ℓ} (fn : ℕ → Attempt A) (jitter : ℕ → ℕ) (base : ℕ) where
  -- The delays after the attempts i, i + 1, …, i + n - 1.
  abbrev pub delays : ℕ → ℕ → List ℕ
  delays i zero = []
  delays i (suc n) = (base * 2 ^ i + jitter i) ∷ delays (suc i) n

module _ {ℓ} {A : Type ℓ} where
  ended-slept : (d : ℕ) (ds : List ℕ) (r : Attempt A) → slept d (ended r ds) ≡ ended r (d ∷ ds)
  ended-slept d ds (resolved a) = refl
  ended-slept d ds (rejected e) = refl

  turn_final :
      (fn : ℕ → Attempt A) (jitter : ℕ → ℕ) (base attempts i : ℕ) (r : Attempt A) (rest : Retried A)
      → IsFinal r ⊎ (i ≡ attempts - 1)
      → turn fn jitter base attempts i r rest ≡ ended r []
  turn_final fn jitter base attempts i (resolved a) rest h = refl
  turn_final fn jitter base attempts i (rejected e) rest h = ground arith

  turn_again :
      (fn : ℕ → Attempt A) (jitter : ℕ → ℕ) (base attempts i : ℕ) (r : Attempt A) (rest : Retried A)
      → IsRetried r
      → suc i < attempts
      → turn fn jitter base attempts i r rest ≡ slept (base * 2 ^ i + jitter i) rest
  turn_again fn jitter base attempts i (resolved a) rest h lt = absurd h
  turn_again fn jitter base attempts i (rejected e) rest h lt = ground arith

module _ {ℓ} {A : Type ℓ} (fn : ℕ → Attempt A) (jitter : ℕ → ℕ) (base attempts k : ℕ)
    (again : (j : ℕ) → j < k → IsRetried (fn j)) (stop : IsFinal (fn k) ⊎ (k ≡ attempts - 1)) where
  loop_stops :
      (n i left : ℕ)
      → attempts ≡ i + left
      → k ≡ i + n
      → n < left
      → retry_loop fn jitter base attempts left ≡ ended (fn k) (delays fn jitter base i n)
  unfolding retry_loop
  loop_stops n i zero ea ek lt = absurd (omega arith)
  loop_stops zero i (suc left) ea ek lt =
      let here : attempts - suc left ≡ i = omega arith in
      let now : i ≡ k = omega arith in
      rw (here, now) (turn_final fn jitter base attempts k (fn k) _ stop)
  loop_stops (suc n) i (suc left) ea ek lt =
      let here : attempts - suc left ≡ i = omega arith in
      rw here (
        turn_again fn jitter base attempts i (fn i) _ (again i (omega arith)) (omega arith)
        ∙ ap (slept (base * 2 ^ i + jitter i))
            (loop_stops n (suc i) left (omega arith) (omega arith) (omega arith))
        ∙ ended-slept (base * 2 ^ i + jitter i) (delays fn jitter base (suc i) n) (fn k))

module _ {ℓ} {A : Type ℓ} (fn : ℕ → Attempt A) (jitter : ℕ → ℕ) (base attempts : ℕ)
    (spread : (i : ℕ) → jitter i ≤ base) where
  turn_total :
      (i : ℕ) (r : Attempt A) (rest : Retried A)
      → total_delay (turn fn jitter base attempts i r rest) ≤ base * 2 ^ i + base + total_delay rest
  turn_total i (resolved a) rest = omega arith
  turn_total i (rejected e) (returned a ds) = ground (arith, spread i)
  turn_total i (rejected e) (thrown e' ds) = ground (arith, spread i)
  turn_total i (rejected e) undefined_error = ground (arith, spread i)

  doubled : (i : ℕ) → base * 2 ^ suc i ≡ base * 2 ^ i + base * 2 ^ i
  doubled i = rw pow-suc (omega arith)

  last_total :
      (i : ℕ) (r : Attempt A) (rest : Retried A)
      → i ≡ attempts - 1
      → total_delay (turn fn jitter base attempts i r rest) ≡ 0
  last_total i (resolved a) rest h = refl
  last_total i (rejected e) rest h = ground arith

  loop_total :
      (left i : ℕ)
      → attempts ≡ i + suc left
      → total_delay (retry_loop fn jitter base attempts (suc left)) + base * 2 ^ i
        ≤ base * 2 ^ (i + left) + base * left
  unfolding retry_loop
  loop_total zero i e =
      let here : attempts - 1 ≡ i = omega arith in
      let none_left : i + 0 ≡ i = omega arith in
      rw (here, none_left)
        (omega (arith, last_total i (fn i) (retry_loop fn jitter base attempts 0) (omega arith)))
  loop_total (suc left) i e =
      let here : attempts - suc (suc left) ≡ i = omega arith in
      let next : i + suc left ≡ suc i + left = omega arith in
      let ih = loop_total left (suc i) (omega arith) in
      rw (here, next)
        (omega
          (arith, doubled i, turn_total i (fn i) (retry_loop fn jitter base attempts (suc left))))

-- `withRetry` ends with the outcome of the first attempt that is no transient failure, or of the
-- last attempt allowed, and it slept once, with the exponential delay, after each attempt before.
pub with_retry_first_stop {ℓ} :
    {A : Type ℓ} (fn : ℕ → Attempt A) (jitter : ℕ → ℕ) (base attempts k : ℕ)
    → k < attempts
    → ((j : ℕ) → j < k → IsRetried (fn j))
    → IsFinal (fn k) ⊎ (k ≡ attempts - 1)
    → with_retry fn jitter base attempts ≡ ended (fn k) (delays fn jitter base 0 k)
unfolding with_retry
with_retry_first_stop fn jitter base attempts k lt again stop =
    loop_stops fn jitter base attempts k again stop k 0 attempts (omega arith) (omega arith) lt

-- With a random part of at most the base delay, `withRetry` with n + 1 attempts sleeps at most
-- base * (2 ^ n - 1 + n) in all, whatever the attempts come to.
pub with_retry-total_delay {ℓ} :
    {A : Type ℓ} (fn : ℕ → Attempt A) (jitter : ℕ → ℕ) (base attempts : ℕ)
    → ((i : ℕ) → jitter i ≤ base)
    → total_delay (with_retry fn jitter base (suc attempts)) + base
      ≤ base * 2 ^ attempts + base * attempts
unfolding with_retry
with_retry-total_delay fn jitter base attempts spread =
    let start : 0 + attempts ≡ attempts = omega arith in
    let all = loop_total fn jitter base (suc attempts) spread attempts 0 (omega arith) in
    let bound = rw start at all in omega (arith, bound)
