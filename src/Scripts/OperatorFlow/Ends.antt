-- ===== src/Scripts/OperatorFlow/Ends.antt =====
-- How verify-operator-flow.ts ends, and what its exit code says.
use router_pulse_depin_proto.Common.{
  ℕ, suc, ◌+◌, ◌<◌, ◌≡◌, ◌⊎◌, inl, inr, refl, not, String, Bool, true, false, arith,
}
use router_pulse_depin_proto.Scripts.Cluster.{
  mint_genesis, ProtocolState, Ran, done, threw, refused, Cluster, to_base, epoch_at,
}
use router_pulse_depin_proto.Scripts.Checks.{
  Script, Run, pure, read, ok, fail, ◌>>=◌, caught, request, Ending, exit, returned, finish,
  exit_code, fresh,
}
use router_pulse_depin_proto.Scripts.Checks.Clears.{
  zero_code, Clean, Cleared, Clears, Clears-caught, Clears-ok, Clears-fail, Clears-pause,
  Clears-read, Clears-wait_for_end, Clears-clock, Clears-request, clears,
}
use router_pulse_depin_proto.Scripts.OperatorFlow.{
  Operator, unless_stopped, attempted, or_stop, or_bad, unstaking, rotation, vested, after_claim,
  claimed, claiming, finalized, finalizing, beating, staked, staking, registered, minted, minting,
  set_up, main,
}

module _ {W : Type 0} where
  -- A run that exits with 0 has passed `m` checks and no other was made; one that returns early has
  -- failed one.
  abbrev Ends : ℕ → Ran Ending × Script W → Type 0
  Ends m (done (exit code), s) = code ≡ 0 → (s.passed ≡ m) × (s.failed ≡ 0)
  Ends m (done returned, s) = 0 < s.failed
  Ends m (threw e, s) = Unit

record EndsWell {W : Type 0} (n m : ℕ) (act : Run W Ending) : Type 0 where
  at : (s : Script W) → Clean n s → Ends m (act s)

module _ {W : Type 0} where
  -- After a `try`: where the script goes on, and where it has to return.
  abbrev Tried : ℕ → Ran Bool × Script W → Type 0
  Tried n (done true, s) = Clean n s
  Tried n (done false, s) = 0 < s.failed
  Tried n (threw e, s) = Unit

  tried_lem :
      (n : ℕ) (r : Ran (Unit {0})) (s : Script W)
      → Cleared n (r, s)
      → Tried n (attempted (λ t. (r, s)) s)
  unfolding caught ◌>>=◌ pure fail
  tried_lem n (done a) s h = h
  tried_lem n (threw e) s h = omega arith

  attempted_lem :
      (n k : ℕ) (body : Run W Unit) (s : Script W)
      → Clears n k body
      → Clean n s
      → Tried k (attempted body s)
  unfolding caught ◌>>=◌
  attempted_lem n k body s h c = let (r, s') = body s in tried_lem k r s' (h.at s c)

  stopped_lem :
      (n m : ℕ) (r : Ran Bool) (s : Script W) (rest : Run W Ending)
      → Tried n (r, s)
      → EndsWell n m rest
      → Ends m (((λ t. (r, s)) >>= unless_stopped rest) s)
  unfolding ◌>>=◌ pure
  stopped_lem n m (done true) s rest h hr = hr.at s h
  stopped_lem n m (done false) s rest h hr = h
  stopped_lem n m (threw e) s rest h hr = tt

  or_stop-EndsWell :
      (n k m : ℕ) (body : Run W Unit) (rest : Run W Ending)
      → Clears n k body
      → EndsWell k m rest
      → EndsWell n m (or_stop body rest)
  unfolding or_stop ◌>>=◌
  or_stop-EndsWell n k m body rest h hr = record {
    at = λ s c.
        let (r, s') = attempted body s in
        stopped_lem k m r s' rest (attempted_lem n k body s h c) hr;
  }

  continued_lem :
      {A : Type 0} (n m : ℕ) (r : Ran A) (s : Script W) (f : A → Run W Ending)
      → Cleared n (r, s)
      → ((a : A) → EndsWell n m (f a))
      → Ends m (((λ t. (r, s)) >>= f) s)
  unfolding ◌>>=◌
  continued_lem n m (done a) s f h hf = (hf a).at s h
  continued_lem n m (threw e) s f h hf = tt

  then-EndsWell :
      {A : Type 0} (n k m : ℕ) (act : Run W A) (f : A → Run W Ending)
      → Clears n k act
      → ((a : A) → EndsWell k m (f a))
      → EndsWell n m (act >>= f)
  unfolding ◌>>=◌
  then-EndsWell n k m act f h hf = record {
    at = λ s c. let (r, s') = act s in continued_lem k m r s' f (h.at s c) hf;
  }

  finish-EndsWell : (n : ℕ) → EndsWell {W = W} n n finish
  unfolding finish
  finish-EndsWell n = record {
    at = λ s c e. let none_failed = zero_code s.failed e in (c none_failed, none_failed);
  }

module _ (cluster : Cluster) (operator : Operator) where
  vested-Clears : (n e b : ℕ) → Clears n (suc n) (vested cluster operator e b)
  unfolding vested
  vested-Clears n e b = search clears depth 30

  unstaking-Clears : (n : ℕ) → Clears n (suc n) (unstaking cluster operator)
  unfolding unstaking
  unstaking-Clears n = search clears depth 30

  rotation-Clears :
      (n : ℕ) (p : ProtocolState) → Clears n (suc (suc n)) (rotation cluster operator p)
  unfolding rotation
  rotation-Clears n p = search (clears, Clears-fail) depth 30

  claimed-Clears : (n e b : ℕ) → Clears n (suc n) (claimed cluster operator e b)
  unfolding claimed
  claimed-Clears n e b = search clears depth 30

  finalized-Clears : (n e : ℕ) → Clears n (suc n) (finalized cluster operator e)
  unfolding finalized
  finalized-Clears n e = search (clears, Clears-fail) depth 30

  staked-Clears : (n b : ℕ) → Clears n (suc n) (staked cluster operator b)
  unfolding staked
  staked-Clears n b = search clears depth 30

  registered-Clears : (n : ℕ) → Clears n (suc n) (registered cluster operator)
  unfolding registered
  registered-Clears n = search (clears, Clears-fail) depth 30

  minted-Clears : (n : ℕ) (account : Bool) → Clears n (suc n) (minted cluster operator account)
  unfolding minted
  minted-Clears n account = search clears depth 30

  after_claim-EndsWell :
      (e : ℕ) (p : ProtocolState) → EndsWell 7 11 (after_claim cluster operator p e)
  unfolding after_claim or_bad
  after_claim-EndsWell e p = then-EndsWell 7 7 11 _ _ (Clears-pause cluster 7 8000) (λ slept.
      then-EndsWell 7 7 11 _ _ (Clears-read 7 cluster.owner_balance) (λ before.
        then-EndsWell 7 8 11 _ _ (Clears-caught 7 8 _ (vested-Clears 7 e before)) (λ released.
          then-EndsWell 8 10 11 _ _ (Clears-caught 8 10 _ (rotation-Clears 8 p)) (λ rotated.
            then-EndsWell 10 11 11 _ _ (Clears-caught 10 11 _ (unstaking-Clears 10))
              (λ out. finish-EndsWell 11)))))

  claiming-EndsWell : (e : ℕ) (p : ProtocolState) → EndsWell 6 11 (claiming cluster operator p e)
  unfolding claiming
  claiming-EndsWell e p =
      then-EndsWell 6 6 11 _ _ (Clears-read 6 cluster.supply) (λ before.
        or_stop-EndsWell 6 7 11 _ _ (claimed-Clears 6 e before) (after_claim-EndsWell e p))

  finalizing-EndsWell :
      (e : ℕ) (p : ProtocolState) → EndsWell 5 11 (finalizing cluster operator p e)
  unfolding finalizing
  finalizing-EndsWell e p =
      then-EndsWell 5 5 11 _ _ (Clears-wait_for_end cluster 5 e p)
        (λ closed. or_stop-EndsWell 5 6 11 _ _ (finalized-Clears 5 e) (claiming-EndsWell e p))

  beating-EndsWell : EndsWell 4 11 (beating cluster operator)
  unfolding beating
  beating-EndsWell = then-EndsWell 4 4 11 _ _ (Clears-read 4 cluster.fetch_protocol) (λ p.
      then-EndsWell 4 4 11 _ _ (Clears-clock cluster 4) (λ time.
        then-EndsWell 4 4 11 _ _ (Clears-request cluster 4 _) (λ funded.
          or_stop-EndsWell 4 5 11 _ _ (search clears) (finalizing-EndsWell (epoch_at p time) p))))

  staking-EndsWell : EndsWell 3 11 (staking cluster operator)
  unfolding staking
  staking-EndsWell =
      then-EndsWell 3 3 11 _ _ (Clears-read 3 cluster.vault_balance)
        (λ before. or_stop-EndsWell 3 4 11 _ _ (staked-Clears 3 before) beating-EndsWell)

  minting-EndsWell : EndsWell 1 11 (minting cluster operator)
  unfolding minting
  minting-EndsWell =
      then-EndsWell 1 1 11 _ _ (Clears-read 1 cluster.token_account_exists) (λ account.
        or_stop-EndsWell 1 2 11 _ _ (minted-Clears 1 account)
          (or_stop-EndsWell 2 3 11 _ _ (registered-Clears 2) staking-EndsWell))

  set_up-EndsWell : (existing : Bool) → EndsWell 0 11 (set_up cluster operator existing)
  set_up-EndsWell true = then-EndsWell 0 1 11 _ _ (Clears-ok 0) (λ there. minting-EndsWell)
  set_up-EndsWell false = or_stop-EndsWell 0 1 11 _ _ (search clears) minting-EndsWell

  main-EndsWell : EndsWell 0 11 (main cluster operator)
  unfolding main
  main-EndsWell =
      then-EndsWell 0 0 11 _ _ (Clears-read 0 cluster.protocol_exists)
        (λ there. set_up-EndsWell there)

  code_lem :
      (n : ℕ) (r : Ran Ending × Script cluster.World)
      → Ends n r
      → exit_code r.0 ≡ 0
      → ((r.1.passed ≡ n) × (r.1.failed ≡ 0)) ⊎ ((r.0 ≡ done returned) × (0 < r.1.failed))
  code_lem n (done (exit code), s) h e = inl (h e)
  code_lem n (done returned, s) h e = inr (refl, h)
  code_lem n (threw m, s) h e = absurd (ground arith)

-- Where the exit code of the operator script is 0, either all of its 11 checks were made and passed
-- and none failed, or it returned from `main` before its end, and then at least one check has failed.
pub main-exits_zero_or_stopped :
    (cluster : Cluster) (operator : Operator) (w : cluster.World)
    → exit_code (main cluster operator (fresh w)).0 ≡ 0
    → let r = main cluster operator (fresh w) in
      ((r.1.passed ≡ 11) × (r.1.failed ≡ 0)) ⊎ ((r.0 ≡ done returned) × (0 < r.1.failed))
main-exits_zero_or_stopped cluster operator w e =
    code_lem cluster operator 11 (main cluster operator (fresh w))
      ((main-EndsWell cluster operator).at (fresh w) (λ none_failed. refl)) e

or_stop-threw :
    {W : Type 0} (body : Run W Unit) (rest : Run W Ending) (s t : Script W) (message : String)
    → body s ≡ (threw message, t)
    → or_stop body rest s ≡ (done returned, record t { failed = t.failed + 1 })
unfolding or_stop caught ◌>>=◌ pure fail
or_stop-threw body rest s t message h = rw h

minted-threw :
    (cluster : Cluster) (operator : Operator) (s : Script cluster.World) (v : cluster.World)
    (account : Bool) (message : String)
    → cluster.send (mint_genesis (not account) (to_base 500)) s.world ≡ (v, refused message)
    → minted cluster operator account s ≡ (threw message, record s { world = v })
unfolding minted ◌>>=◌ request
minted-threw cluster operator s v account message e = rw e

minting-stopped :
    (cluster : Cluster) (operator : Operator) (s : Script cluster.World) (v : cluster.World)
    (account : Bool) (message : String)
    → cluster.token_account_exists s.world ≡ done account
    → cluster.send (mint_genesis (not account) (to_base 500)) s.world ≡ (v, refused message)
    → minting cluster operator s ≡ (done returned, record s { world = v; failed = s.failed + 1 })
unfolding minting ◌>>=◌ read
minting-stopped cluster operator s v account message a e = rw a (
    or_stop-threw (minted cluster operator account) _ s (record s { world = v }) message
      (minted-threw cluster operator s v account message e))

-- A cluster that has the protocol and refuses the genesis mint: the operator script ends with exit
-- code 0, though its second check has failed; nothing but the mint was sent.
pub refused_mint-exits_zero :
    (cluster : Cluster) (operator : Operator) (w v : cluster.World) (account : Bool)
    (message : String)
    → cluster.protocol_exists w ≡ done true
    → cluster.token_account_exists w ≡ done account
    → cluster.send (mint_genesis (not account) (to_base 500)) w ≡ (v, refused message)
    → let r = main cluster operator (fresh w) in
      (exit_code r.0 ≡ 0) × (r.1 ≡ record { world = v; passed = 1; failed = 1 })
unfolding main ◌>>=◌ read ok
refused_mint-exits_zero cluster operator w v account message p a e =
    rw
      (
        p,
        minting-stopped cluster operator (record { world = w; passed = 1; failed = 0 }) v account
            message a e,
      )
      (refl, refl)
