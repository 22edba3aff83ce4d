-- ===== src/Scripts/Checks.antt =====
-- What the two scripts that check a cluster share: async code that counts the checks that passed
-- and failed, as functions from a state to a value or a throw and a state. The lines that they print
-- are left out.
pub mod Clears
pub mod Moves
pub mod Sequence
use router_pulse_depin_proto.Common.{
  ℕ, zero, suc, ◌+◌, ◌==◌, ◌&&◌, String, Bool, true, false, ltb, if◌then◌else◌,
}
use router_pulse_depin_proto.Common.Int.{ℤ, pos, negsuc}
use router_pulse_depin_proto.Scripts.Cluster.{
  ProtocolState, wait_ms, heartbeat, Request, Ran, done, threw, Sent, confirmed, refused, Cluster,
}

pub record Script (World : Type 0) : Type 0 where
  pub world : World
  pub passed : ℕ
  pub failed : ℕ

abbrev pub Run : Type 0 → Type 0 → Type 0
Run W A = Script W → Ran A × Script W

module _ {W : Type 0} where
  unfoldable pub pure : {A : Type 0} → A → Run W A
  pure a s = (done a, s)

  unfoldable pub raise : {A : Type 0} → String → Run W A
  raise e s = (threw e, s)

  unfoldable pub read : {A : Type 0} → (W → Ran A) → Run W A
  read f s = (f s.world, s)

  -- `ok(…)`.
  unfoldable pub ok : Run W Unit
  ok s = (done tt, record s { passed = s.passed + 1 })

  -- `fail(…)`, and `bad(…)` of the other script.
  unfoldable pub fail : Run W Unit
  fail s = (done tt, record s { failed = s.failed + 1 })

  -- `test ? ok(…) : fail(…)`.
  unfoldable pub check : Bool → Run W Unit
  unfolding ok fail
  check b = if b then ok else fail

module _ {W A B : Type 0} where
  abbrev continued : Ran A → (A → Run W B) → Run W B
  continued (done a) f s = f a s
  continued (threw e) f s = (threw e, s)

  infixl 5 ◌>>=◌ ◌>>◌
  unfoldable pub ◌>>=◌ : Run W A → (A → Run W B) → Run W B
  unfolding pure raise read check
  ◌>>=◌ m f s = let (r, s') = m s in continued r f s'

  abbrev pub ◌>>◌ : Run W A → Run W B → Run W B
  m >> k = m >>= λ _. k

module _ {W A : Type 0} where
  abbrev handled : Ran A → (String → Run W A) → Run W A
  handled (done a) h s = (done a, s)
  handled (threw e) h s = h e s

  -- `try { … } catch (e) { … }`.
  unfoldable pub caught : Run W A → (String → Run W A) → Run W A
  unfolding ◌>>=◌
  caught m h s = let (r, s') = m s in handled r h s'
  -- A step that has to be refused: any throw passes the check.

module _ {W : Type 0} where
  -- A step that has to be refused: any throw passes the check.
  unfoldable pub must_refuse : {A : Type 0} → Run W A → Run W Unit
  unfolding caught
  must_refuse m = caught (m >> fail) (λ e. ok)

module _ (cluster : Cluster) where
  open cluster use {World, send, now, sleep}

  abbrev pub answered : World × Sent → Run World String
  answered (w, confirmed sig) s = (done sig, record s { world = w })
  answered (w, refused e) s = (threw e, record s { world = w })

  -- `await ….rpc()`.
  unfoldable pub request : Request → Run World String
  request r s = answered (send r s.world) s

  unfoldable pub clock : Run World ℕ
  clock s = (done (now s.world), s)

  unfoldable pub pause : ℕ → Run World Unit
  pause ms s = (done tt, record s { world = sleep ms s.world })

  -- `if (i) await sleep(1500)`.
  unfoldable pub paused : ℕ → Run World Unit
  paused zero = pure tt
  paused (suc i) = pause 1500

  -- The heartbeats of a router from the i-th on, with a pause before all but the first.
  unfoldable pub beats : (router device : ℕ) → ℕ → ℕ → ℕ → Run World Unit
  unfolding paused
  beats router device zero i epoch = pure tt
  beats router device (suc n) i epoch = do
    paused i
    request (heartbeat router device epoch)
    beats router device n (suc i) epoch

  -- The wait for the end of the epoch.
  unfoldable pub wait_for_end : ProtocolState → ℕ → Run World Unit
  wait_for_end p epoch = do time ← clock; pause (wait_ms p epoch time)

abbrev pub same_int : ℤ → ℤ → Bool
same_int (pos m) (pos n) = m == n
same_int (negsuc m) (negsuc n) = m == n
same_int (pos m) (negsuc n) = false
same_int (negsuc m) (pos n) = false

-- `gained > 0n && gained < total`.
abbrev pub is_partial : ℤ → ℕ → Bool
is_partial (pos gained) total = ltb 0 gained && ltb gained total
is_partial (negsuc gained) total = false

-- How `main` ends, unless it throws: by `process.exit`, or by a return, after which the process ends
-- by itself. A throw is caught outside `main`, and exits with 1.
pub data Ending : Type 0 where
  exit : (code : ℕ) → Ending
  returned : Ending

abbrev pub exit_code : Ran Ending → ℕ
exit_code (done (exit code)) = code
exit_code (done returned) = 0
exit_code (threw e) = 1

-- `process.exit(failed === 0 ? 0 : 1)`.
unfoldable pub finish : {W : Type 0} → Run W Ending
finish s = (done (exit (if s.failed == 0 then 0 else 1)), s)

abbrev pub fresh : {W : Type 0} → W → Script W
fresh w = record { world = w; passed = 0; failed = 0 }
