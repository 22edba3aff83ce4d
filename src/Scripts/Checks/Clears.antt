-- ===== src/Scripts/Checks/Clears.antt =====
-- What a part of a script has counted, as long as no check has failed.
use router_pulse_depin_proto.Common.{
  ◌==◌, ℕ, zero, suc, ◌≡◌, String, Bool, true, false, arith, if◌then◌else◌,
}
use router_pulse_depin_proto.Scripts.Cluster.{
  ProtocolState, wait_ms, Request, Ran, done, threw, Sent, confirmed, refused, Cluster,
}
use router_pulse_depin_proto.Scripts.Checks.{
  Script, Run, pure, raise, read, ok, fail, check, ◌>>=◌, caught, must_refuse, answered, request,
  clock, pause, paused, beats, wait_for_end,
}

-- The exit code of `finish`.
pub zero_code : (n : ℕ) → ◌≡◌ {A = ℕ} (if n == 0 then 0 else 1) 0 → n ≡ 0
zero_code n h = ground arith

module _ {W : Type 0} where
  -- Where no check has failed, `n` have passed.
  abbrev pub Clean : ℕ → Script W → Type 0
  Clean n s = s.failed ≡ 0 → s.passed ≡ n

  abbrev pub Cleared : {A : Type 0} → ℕ → Ran A × Script W → Type 0
  Cleared n (done a, s) = Clean n s
  Cleared n (threw e, s) = Unit

-- An act that passes from `n` checks to `m`, unless it throws.
pub record Clears {W A : Type 0} (n m : ℕ) (act : Run W A) : Type 0 where
  pub at : (s : Script W) → Clean n s → Cleared m (act s)

module _ {W : Type 0} where
  pub Clears-pure : {A : Type 0} (n : ℕ) (a : A) → Clears {W = W} n n (pure a)
  unfolding pure
  Clears-pure n a = record { at = λ s h. h }

  pub Clears-raise : {A : Type 0} (n m : ℕ) (e : String) → Clears {W = W} {A = A} n m (raise e)
  unfolding raise
  Clears-raise n m e = record { at = λ s h. tt }

  Cleared-same : {A : Type 0} (r : Ran A) (n : ℕ) (s : Script W) → Clean n s → Cleared n (r, s)
  Cleared-same (done a) n s h = h
  Cleared-same (threw e) n s h = tt

  pub Clears-read : {A : Type 0} (n : ℕ) (f : W → Ran A) → Clears n n (read f)
  unfolding read
  Clears-read n f = record { at = λ s h. Cleared-same (f s.world) n s h }

  pub Clears-ok : (n : ℕ) → Clears {W = W} n (suc n) ok
  unfolding ok
  Clears-ok n = record { at = λ s h e. ground (arith, h e) }

  pub Clears-fail : (n m : ℕ) → Clears {W = W} n m fail
  unfolding fail
  Clears-fail n m = record { at = λ s h e. absurd (omega arith) }

  pub Clears-check : (n : ℕ) (b : Bool) → Clears {W = W} n (suc n) (check b)
  unfolding check
  Clears-check n true = Clears-ok n
  Clears-check n false = Clears-fail n (suc n)

  pub Clears-if :
      {A : Type 0} (n m : ℕ) (b : Bool) (f g : Run W A)
      → Clears n m f
      → Clears n m g
      → Clears n m (if b then f else g)
  Clears-if n m true f g hf hg = hf
  Clears-if n m false f g hf hg = hg

module _ {W A B : Type 0} where
  continued_lem :
      (n m : ℕ) (r : Ran A) (s : Script W) (f : A → Run W B)
      → Cleared n (r, s)
      → ((a : A) → Clears n m (f a))
      → Cleared m (((λ t. (r, s)) >>= f) s)
  unfolding ◌>>=◌
  continued_lem n m (done a) s f h hf = (hf a).at s h
  continued_lem n m (threw e) s f h hf = tt

  pub Clears-bind :
      {n k m : ℕ} (act : Run W A) (f : A → Run W B)
      → Clears n k act
      → ((a : A) → Clears k m (f a))
      → Clears n m (act >>= f)
  unfolding ◌>>=◌
  Clears-bind {n} {k} {m} act f h hf = record {
    at = λ s c. let (r, s') = act s in continued_lem k m r s' f (h.at s c) hf;
  }

  -- The two forms in which a step of a script stands before the rest of it.
  pub Clears-then :
      (n m : ℕ) (act : Run W A) (f : A → Run W B)
      → Clears n n act
      → ((a : A) → Clears n m (f a))
      → Clears n m (act >>= f)
  Clears-then n m act f h hf = Clears-bind act f h hf

  pub Clears-then_check :
      (n m : ℕ) (act : Run W A) (f : A → Run W B)
      → Clears n (suc n) act
      → ((a : A) → Clears (suc n) m (f a))
      → Clears n m (act >>= f)
  Clears-then_check n m act f h hf = Clears-bind act f h hf

module _ {W : Type 0} where
  handled_lem :
      (n : ℕ) (r : Ran Unit) (s : Script W)
      → Cleared n (r, s)
      → Cleared n (caught (λ t. (r, s)) (λ e. fail) s)
  unfolding caught fail
  handled_lem n (done a) s h = h
  handled_lem n (threw e) s h = λ e. absurd (omega arith)

  -- A throw that is caught is a failed check.
  pub Clears-caught :
      (n m : ℕ) (act : Run W Unit) → Clears n m act → Clears n m (caught act (λ e. fail))
  unfolding caught
  Clears-caught n m act h = record {
    at = λ s c. let (r, s') = act s in handled_lem m r s' (h.at s c);
  }

module _ (cluster : Cluster) where
  answered_lem :
      (n : ℕ) (r : cluster.World × Sent) (s : Script cluster.World)
      → Clean n s
      → Cleared n (answered cluster r s)
  answered_lem n (w, confirmed sig) s h = h
  answered_lem n (w, refused e) s h = tt

  pub Clears-request : (n : ℕ) (r : Request) → Clears n n (request cluster r)
  unfolding request
  Clears-request n r = record { at = λ s h. answered_lem n (cluster.send r s.world) s h }

  pub Clears-clock : (n : ℕ) → Clears n n (clock cluster)
  unfolding clock
  Clears-clock n = record { at = λ s h. h }

  pub Clears-pause : (n ms : ℕ) → Clears n n (pause cluster ms)
  unfolding pause
  Clears-pause n ms = record { at = λ s h. h }

  refused_lem :
      (n : ℕ) (r : cluster.World × Sent) (s : Script cluster.World)
      → Clean n s
      → Cleared (suc n) (must_refuse (answered cluster r) s)
  unfolding must_refuse ok fail
  refused_lem n (w, confirmed sig) s h = λ e. absurd (omega arith)
  refused_lem n (w, refused e) s h = λ e. ground (arith, h e)

  pub Clears-must_refuse :
      (n : ℕ) (r : Request) → Clears n (suc n) (must_refuse (request cluster r))
  unfolding must_refuse request
  Clears-must_refuse n r = record { at = λ s h. refused_lem n (cluster.send r s.world) s h }

  paused-Clears : (n i : ℕ) → Clears n n (paused cluster i)
  unfolding paused
  paused-Clears n zero = Clears-pure n tt
  paused-Clears n (suc i) = Clears-pause n 1500

  pub Clears-beats : (n router device k i e : ℕ) → Clears n n (beats cluster router device k i e)
  unfolding beats
  Clears-beats n router device zero i e = Clears-pure n tt
  Clears-beats n router device (suc k) i e = Clears-then n n _ _ (paused-Clears n i) (λ waited.
      Clears-then n n _ _ (Clears-request n (Request.heartbeat router device e))
        (λ sig. Clears-beats n router device k (suc i) e))

  pub Clears-wait_for_end : (n e : ℕ) (p : ProtocolState) → Clears n n (wait_for_end cluster p e)
  unfolding wait_for_end
  Clears-wait_for_end n e p =
      Clears-then n n _ _ (Clears-clock n) (λ time. Clears-pause n (wait_ms p e time))

pub ruleset clears = (
  Clears-pure, Clears-raise, Clears-read, Clears-ok, Clears-check, Clears-if, Clears-then,
  Clears-then_check, Clears-request, Clears-clock, Clears-pause, Clears-must_refuse, Clears-beats,
  Clears-wait_for_end,
)
