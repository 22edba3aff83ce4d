-- ===== src/Scripts/Lifecycle/Exit.antt =====
-- What the exit code of full-lifecycle.ts says.
use router_pulse_depin_proto.Common.{ℕ, suc, ◌+◌, ◌≡◌, refl, Bool, true, false, arith}
use router_pulse_depin_proto.Scripts.Cluster.{ProtocolState, Ran, done, threw, Cluster}
use router_pulse_depin_proto.Scripts.Checks.{
  Script, Run, read, ok, fail, check, ◌>>=◌, ◌>>◌, Ending, exit_code, fresh, exit, returned, finish,
}
use router_pulse_depin_proto.Scripts.Checks.Clears.{zero_code, Clean, Cleared, Clears}
use router_pulse_depin_proto.Scripts.Lifecycle.{
  Cast, reconciliation, after_uptime, reconciles, main,
}
use router_pulse_depin_proto.Scripts.Lifecycle.Counts.{
  bootstrap-Clears, genesis-Clears, onboarding-Clears, collateral-Clears, uptime-Clears,
  finalization-Clears, claims-Clears, vesting-Clears, slashing-Clears, recovery-Clears,
  governance-Clears, withdrawal-Clears,
}

module _ (cluster : Cluster) where
  -- The supply is what was minted less what was burned.
  abbrev pub Reconciles : Script cluster.World → Type 0
  Reconciles s =
      (amount : ℕ) × (p : ProtocolState) × (cluster.supply s.world ≡ done amount)
      × (cluster.fetch_protocol s.world ≡ done p)
      × (amount + p.total_burned ≡ p.total_minted)

  -- After the last act: exit code 0 stands for `n` checks that passed, and no other.
  abbrev Honest : ℕ → Ran Ending × Script cluster.World → Type 0
  Honest n (done (exit code), s) = code ≡ 0 → (s.passed ≡ n) × (s.failed ≡ 0) × Reconciles s
  Honest n (done returned, s) = ⊥
  Honest n (threw e, s) = Unit

  record IsHonest (n m : ℕ) (act : Run cluster.World Ending) : Type 0 where
    at : (s : Script cluster.World) → Clean n s → Honest m (act s)

  continued_lem :
      {A : Type 0} (n m : ℕ) (r : Ran A) (s : Script cluster.World)
      (f : A → Run cluster.World Ending)
      → Cleared n (r, s)
      → ((a : A) → IsHonest n m (f a))
      → Honest m (((λ t. (r, s)) >>= f) s)
  unfolding ◌>>=◌
  continued_lem n m (done a) s f h hf = (hf a).at s h
  continued_lem n m (threw e) s f h hf = tt

  then-IsHonest :
      {A : Type 0} (n k m : ℕ) (act : Run cluster.World A) (f : A → Run cluster.World Ending)
      → Clears n k act
      → ((a : A) → IsHonest k m (f a))
      → IsHonest n m (act >>= f)
  unfolding ◌>>=◌
  then-IsHonest n k m act f h hf = record {
    at = λ s c. let (r, s') = act s in continued_lem k m r s' f (h.at s c) hf;
  }

  last_check :
      (n : ℕ) (b : Bool) (s : Script cluster.World)
      → Clean n s
      → (b ≡ true → Reconciles s)
      → Honest (suc n) ((check b >> finish) s)
  unfolding ◌>>=◌ check ok fail finish
  last_check n true s h r = λ e.
      let none_failed = zero_code s.failed e in (ground (arith, h none_failed), none_failed, r refl)
  last_check n false s h r = λ e. absurd (ground arith)

  code_lem :
      (n : ℕ) (r : Ran Ending × Script cluster.World)
      → Honest n r
      → exit_code r.0 ≡ 0
      → (r.1.passed ≡ n) × (r.1.failed ≡ 0) × Reconciles r.1
  code_lem n (done (exit code), s) h e = h e
  code_lem n (done returned, s) h e = absurd h
  code_lem n (threw m, s) h e = absurd (ground arith)

module _ (cluster : Cluster) (cast : Cast) where
  reconciles_lem :
      (amount : ℕ) (p : ProtocolState)
      → reconciles cluster cast amount p ≡ true
      → amount + p.total_burned ≡ p.total_minted
  reconciles_lem amount p h = ground arith

  reconciliation_lem :
      (n : ℕ) (s : Script cluster.World) (r : Ran ℕ) (q : Ran ProtocolState)
      → cluster.supply s.world ≡ r
      → cluster.fetch_protocol s.world ≡ q
      → Clean n s
      → Honest cluster (suc n) (reconciliation cluster cast s)
  unfolding reconciliation ◌>>=◌ read
  reconciliation_lem n s (threw m) q e f h = rw e tt
  reconciliation_lem n s (done amount) (threw m) e f h = rw (e, f) tt
  reconciliation_lem n s (done amount) (done p) e f h =
      rw (e, f)
        (last_check cluster n (reconciles cluster cast amount p) s h
          (λ same. (amount, p, e, f, reconciles_lem amount p same)))

  reconciliation-IsHonest : (n : ℕ) → IsHonest cluster n (suc n) (reconciliation cluster cast)
  reconciliation-IsHonest n = record {
    at = λ s h.
        reconciliation_lem n s (cluster.supply s.world) (cluster.fetch_protocol s.world) refl refl
          h;
  }

  after_uptime-IsHonest :
      (e : ℕ) (p : ProtocolState) → IsHonest cluster 7 21 (after_uptime cluster cast p e)
  unfolding after_uptime
  after_uptime-IsHonest e p =
      then-IsHonest cluster 7 9 21 _ _ (finalization-Clears cluster cast 7 e p) (λ of_bad.
        then-IsHonest cluster 9 11 21 _ _ (claims-Clears cluster cast 9 e) (λ claimed.
          then-IsHonest cluster 11 12 21 _ _ (vesting-Clears cluster cast 11 e) (λ vested.
            then-IsHonest cluster 12 15 21 _ _ (slashing-Clears cluster cast 12 e of_bad)
              (λ slashed.
                then-IsHonest cluster 15 17 21 _ _ (recovery-Clears cluster cast 15 e) (λ rotated.
                  then-IsHonest cluster 17 19 21 _ _ (governance-Clears cluster cast 17 e)
                    (λ governed.
                      then-IsHonest cluster 19 20 21 _ _ (withdrawal-Clears cluster cast 19)
                        (λ out. reconciliation-IsHonest 20)))))))

  main-IsHonest : IsHonest cluster 0 21 (main cluster cast)
  unfolding main
  main-IsHonest = then-IsHonest cluster 0 1 21 _ _ (bootstrap-Clears cluster cast 0) (λ ready.
      then-IsHonest cluster 1 2 21 _ _ (genesis-Clears cluster cast 1) (λ p.
        then-IsHonest cluster 2 3 21 _ _ (onboarding-Clears cluster cast 2) (λ both.
          then-IsHonest cluster 3 5 21 _ _ (collateral-Clears cluster cast 3 p) (λ staked.
            then-IsHonest cluster 5 7 21 _ _ (uptime-Clears cluster cast 5 p)
              (λ e. after_uptime-IsHonest e p)))))

-- The exit code of the lifecycle script is 0 only where all of its 21 checks were made and passed,
-- none failed, and the supply of the mint that it read last is what the protocol account has minted
-- less what it has burned: a throw on the way, also of a read that is only printed, or a check that
-- failed exits with another code.
pub main-exits_zero :
    (cluster : Cluster) (cast : Cast) (w : cluster.World)
    → exit_code (main cluster cast (fresh w)).0 ≡ 0
    → let s = (main cluster cast (fresh w)).1 in
      (s.passed ≡ 21) × (s.failed ≡ 0) × Reconciles cluster s
main-exits_zero cluster cast w e =
    code_lem cluster 21 (main cluster cast (fresh w))
      ((main-IsHonest cluster cast).at (fresh w) (λ none_failed. refl)) e
