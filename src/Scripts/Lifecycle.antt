-- ===== src/Scripts/Lifecycle.antt =====
-- routerpulse/scripts/full-lifecycle.ts: the thirteen acts of the script, each with its checks. The
-- script reads some accounts only to print them; those reads stay, since they may throw. Addresses
-- and keys are drawn at its start.
pub mod Counts
pub mod Exit
pub mod Stale
use router_pulse_depin_proto.Common.{
  ℕ, zero, suc, ◌-◌, ◌==◌, ◌&&◌, not, ltb, leb, String, str_eq, Bool, true, false, Option, none,
  some, List, [], ◌∷◌, if◌then◌else◌,
}
use router_pulse_depin_proto.Common.Int.{ℤ, pos, negsuc, sub_ℕ, ◌-ℤ◌}
use router_pulse_depin_proto.Scripts.Cluster.{
  Request, initialize_protocol, mint_genesis, register_router, fund, stake, unstake, heartbeat,
  finalize_router_epoch, claim_reward, claim_vested, slash_router, burn_treasury, rotate_device_key,
  pause_protocol, resume_protocol, update_reward_rate, ProtocolState, RouterState, EpochRecord,
  Cluster, to_base, genesis_config, device_lamports, epoch_at, expected, wait_ms,
}
use router_pulse_depin_proto.Scripts.Checks.{
  Run, pure, raise, read, ok, check, ◌>>=◌, ◌>>◌, must_refuse, request, clock, pause, beats,
  wait_for_end, same_int, is_partial, Ending, finish,
}

pub record Cast : Type 0 where
  pub owner : ℕ
  pub good : ℕ
  pub bad : ℕ
  pub good_device : ℕ
  pub bad_device : ℕ
  pub replacement : ℕ

module _ (cluster : Cluster) (cast : Cast) where
  open cluster use {
    World, protocol_exists, token_account_exists, owner_balance, vault_balance, treasury_balance,
    supply, fetch_protocol, fetch_router, fetch_epoch, fetch_vesting, confirm, find_transaction,
    event_names, lower_case,
  }
  open cast use {owner, good, bad, good_device, bad_device, replacement}

  abbrev sent : Request → Run World String
  sent = request cluster

  abbrev initialised : Bool → Run World Unit
  initialised existing = if existing then ok else (sent (initialize_protocol genesis_config) >> ok)

  -- 1. The protocol, if it is not there.
  unfoldable pub bootstrap : Run World Unit
  bootstrap = do existing ← read protocol_exists; initialised existing; mint ← read supply; pure tt

  -- 2. A genesis mint; the protocol account that it reads serves the acts that follow.
  unfoldable pub genesis : Run World ProtocolState
  genesis = do
    account ← read token_account_exists
    sent (mint_genesis (not account) (to_base 1000))
    balance ← read owner_balance
    ok
    read fetch_protocol

  -- 3. Two routers.
  unfoldable pub onboarding : Run World Unit
  onboarding = do
    sent (register_router good good_device)
    sent (register_router bad bad_device)
    account ← read (fetch_router good)
    check (not (account.device_pubkey == owner))
    sent (fund (good_device ∷ bad_device ∷ []) device_lamports)
    pure tt

  -- 4. A heartbeat without collateral, then the collateral of both.
  unfoldable pub collateral : ProtocolState → Run World Unit
  collateral p = do
    time ← clock cluster
    must_refuse (sent (heartbeat good good_device (epoch_at p time)))
    before ← read vault_balance
    sent (stake good (to_base 10))
    sent (stake bad (to_base 10))
    after ← read vault_balance
    check (same_int (sub_ℕ after before) (pos (to_base 20)))

  -- 5. The uptime of both routers, in the epoch that it ends with.
  unfoldable pub uptime : ProtocolState → Run World ℕ
  uptime p = do
    time ← clock cluster
    beats cluster good good_device expected 0 (epoch_at p time)
    sent (heartbeat bad bad_device (epoch_at p time))
    ok
    must_refuse (sent (heartbeat good bad_device (epoch_at p time)))
    pure (epoch_at p time)

  -- 6. The finalization of both epochs, and the record of the bad router's.
  unfoldable pub finalization : ProtocolState → ℕ → Run World EpochRecord
  finalization p epoch = do
    wait_for_end cluster p epoch
    sent (finalize_router_epoch good epoch)
    sent (finalize_router_epoch bad epoch)
    of_good ← read (fetch_epoch good epoch)
    of_bad ← read (fetch_epoch bad epoch)
    check (ltb 0 of_good.reward_amount && of_good.slash_amount == 0)
    check (of_bad.reward_amount == 0 && ltb 0 of_bad.slash_amount)
    pure of_bad

  -- 7. A claim, which leaves the supply, and a second one.
  unfoldable pub claims : ℕ → Run World Unit
  claims epoch = do
    before ← read supply
    sent (claim_reward good epoch)
    after ← read supply
    check (after == before)
    must_refuse (sent (claim_reward good epoch))

  -- 8. A part of the grant, some seconds after its cliff.
  unfoldable pub vesting : ℕ → Run World Unit
  vesting epoch = do
    pause cluster 9000
    before ← read owner_balance
    sent (claim_vested good epoch)
    after ← read owner_balance
    amount ← read (fetch_vesting good epoch)
    check (is_partial (sub_ℕ after before) amount)

  -- 9. The slash, a second one, and the burn of what it moved.
  unfoldable pub slashing : ℕ → EpochRecord → Run World Unit
  slashing epoch record_of_bad = do
    before ← read treasury_balance
    sent (slash_router bad epoch)
    after ← read treasury_balance
    let moved = sub_ℕ after before
    check (same_int moved (pos record_of_bad.slash_amount))
    must_refuse (sent (slash_router bad epoch))
    supply_before ← read supply
    sent (burn_treasury moved)
    supply_after ← read supply
    check (same_int (pos supply_after) (pos supply_before -ℤ moved))

  -- "the old device key is dead".
  unfoldable pub old_key_check : ℕ → Run World Unit
  old_key_check epoch = must_refuse (sent (heartbeat good good_device epoch))

  -- "pause actually blocks heartbeats".
  unfoldable pub pause_check : ℕ → Run World Unit
  pause_check epoch = must_refuse (sent (heartbeat good replacement epoch))

  -- 10. A new device key, and a heartbeat with the old one.
  unfoldable pub recovery : ℕ → Run World Unit
  unfolding old_key_check
  recovery epoch = do
    sent (rotate_device_key good replacement)
    account ← read (fetch_router good)
    check (account.device_pubkey == replacement && leb 1 account.device_key_version)
    old_key_check epoch

  abbrev retried :
      Run World (Option (Option (List String)))
      → Option (Option (List String))
      → Run World (Option (Option (List String)))
  retried rest none = rest
  retried rest (some found) = pure (some found)

  -- The loop that asks for a transaction, at most `n` times more.
  unfoldable pub poll : ℕ → String → Run World (Option (Option (List String)))
  poll zero sig = pure none
  poll (suc n) sig = read (find_transaction sig) >>= retried (pause cluster 400 >> poll n sig)

  -- `rtx!.meta!.logMessages!`, which `parseLogs` walks.
  abbrev logs_of : Option (Option (List String)) → Run World (List String)
  logs_of none = raise "Cannot read properties of null (reading 'meta')"
  logs_of (some none) = raise "Cannot read properties of null (reading 'logMessages')"
  logs_of (some (some logs)) = pure logs

  unfoldable pub saw_rate : List String → Bool
  saw_rate [] = false
  saw_rate (name ∷ names) =
      let later = saw_rate names in
      if str_eq (lower_case name) "rewardrateupdated" then true else later

  -- What comes after the check of act 11: the end of the pause, and the event of a change of the rate.
  abbrev pub resumed : Run World Unit
  resumed = do
    sent resume_protocol
    sig ← sent (update_reward_rate 3000000)
    read (confirm sig)
    found ← poll 8 sig
    logs ← logs_of found
    check (saw_rate (event_names logs))
    sent (update_reward_rate 2000000)
    pure tt

  -- 11. A pause, a heartbeat during it, and the rest.
  unfoldable pub governance : ℕ → Run World Unit
  unfolding pause_check poll saw_rate
  governance epoch = do sent pause_protocol; pause_check epoch; resumed

  -- 12. A withdrawal.
  unfoldable pub withdrawal : Run World Unit
  withdrawal = do
    before ← read vault_balance
    sent (unstake good (to_base 5))
    after ← read vault_balance
    check (same_int (sub_ℕ before after) (pos (to_base 5)))

  abbrev reconciles : ℕ → ProtocolState → Bool
  reconciles amount p = same_int (pos amount) (sub_ℕ p.total_minted p.total_burned)

  -- 13. The supply against what was minted and burned, and the end of the script.
  unfoldable pub reconciliation : Run World Ending
  reconciliation = do
    amount ← read supply
    p ← read fetch_protocol
    check (reconciles amount p)
    finish

  -- The acts from the end of the epoch on.
  unfoldable pub after_uptime : ProtocolState → ℕ → Run World Ending
  after_uptime p epoch = do
    of_bad ← finalization p epoch
    claims epoch
    vesting epoch
    slashing epoch of_bad
    recovery epoch
    governance epoch
    withdrawal
    reconciliation

  unfoldable pub main : Run World Ending
  unfolding bootstrap genesis onboarding collateral uptime finalization claims vesting slashing
      recovery governance withdrawal reconciliation after_uptime
  main = do bootstrap; p ← genesis; onboarding; collateral p; epoch ← uptime p; after_uptime p epoch
