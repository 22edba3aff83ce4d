-- ===== src/Scripts/Lifecycle/Counts.antt =====
-- How many checks each act of full-lifecycle.ts makes.
use router_pulse_depin_proto.Common.{ℕ, zero, suc, String, Option, none, some, List}
use router_pulse_depin_proto.Scripts.Cluster.{ProtocolState, EpochRecord, Cluster}
use router_pulse_depin_proto.Scripts.Checks.{Run}
use router_pulse_depin_proto.Scripts.Checks.Clears.{
  Clears, Clears-then, Clears-read, Clears-pause, clears,
}
use router_pulse_depin_proto.Scripts.Lifecycle.{
  Cast, bootstrap, genesis, onboarding, collateral, uptime, finalization, claims, vesting, slashing,
  recovery, old_key_check, pause_check, poll, logs_of, retried, governance, withdrawal,
}

module _ (cluster : Cluster) (cast : Cast) where
  pub bootstrap-Clears : (n : ℕ) → Clears n (suc n) (bootstrap cluster cast)
  unfolding bootstrap
  bootstrap-Clears n = search clears depth 30

  pub genesis-Clears : (n : ℕ) → Clears n (suc n) (genesis cluster cast)
  unfolding genesis
  genesis-Clears n = search clears depth 30

  pub onboarding-Clears : (n : ℕ) → Clears n (suc n) (onboarding cluster cast)
  unfolding onboarding
  onboarding-Clears n = search clears depth 30

  pub collateral-Clears :
      (n : ℕ) (p : ProtocolState) → Clears n (suc (suc n)) (collateral cluster cast p)
  unfolding collateral
  collateral-Clears n p = search clears depth 30

  pub uptime-Clears : (n : ℕ) (p : ProtocolState) → Clears n (suc (suc n)) (uptime cluster cast p)
  unfolding uptime
  uptime-Clears n p = search clears depth 30

  pub finalization-Clears :
      (n e : ℕ) (p : ProtocolState) → Clears n (suc (suc n)) (finalization cluster cast p e)
  unfolding finalization
  finalization-Clears n e p = search clears depth 30

  pub claims-Clears : (n e : ℕ) → Clears n (suc (suc n)) (claims cluster cast e)
  unfolding claims
  claims-Clears n e = search clears depth 30

  pub vesting-Clears : (n e : ℕ) → Clears n (suc n) (vesting cluster cast e)
  unfolding vesting
  vesting-Clears n e = search clears depth 30

  pub slashing-Clears :
      (n e : ℕ) (r : EpochRecord) → Clears n (suc (suc (suc n))) (slashing cluster cast e r)
  unfolding slashing
  slashing-Clears n e r = search clears depth 30

  pub recovery-Clears : (n e : ℕ) → Clears n (suc (suc n)) (recovery cluster cast e)
  unfolding recovery old_key_check
  recovery-Clears n e = search clears depth 30

  retried-Clears :
      (n : ℕ) (rest : Run cluster.World (Option (Option (List String))))
      (found : Option (Option (List String)))
      → Clears n n rest
      → Clears n n (retried cluster cast rest found)
  retried-Clears n rest none h = h
  retried-Clears n rest (some logs) h = search clears

  poll-Clears : (n k : ℕ) (sig : String) → Clears n n (poll cluster cast k sig)
  unfolding poll
  poll-Clears n zero sig = search clears
  poll-Clears n (suc k) sig =
      Clears-then n n _ _ (Clears-read n (cluster.find_transaction sig)) (λ found.
        retried-Clears n _ found
          (Clears-then n n _ _ (Clears-pause cluster n 400) (λ slept. poll-Clears n k sig)))

  logs_of-Clears :
      (n : ℕ) (found : Option (Option (List String))) → Clears n n (logs_of cluster cast found)
  logs_of-Clears n none = search clears
  logs_of-Clears n (some none) = search clears
  logs_of-Clears n (some (some logs)) = search clears

  pub governance-Clears : (n e : ℕ) → Clears n (suc (suc n)) (governance cluster cast e)
  unfolding governance pause_check
  governance-Clears n e = search (clears, poll-Clears, logs_of-Clears) depth 30

  pub withdrawal-Clears : (n : ℕ) → Clears n (suc n) (withdrawal cluster cast)
  unfolding withdrawal
  withdrawal-Clears n = search clears depth 30
