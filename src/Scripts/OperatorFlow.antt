-- ===== src/Scripts/OperatorFlow.antt =====
-- web/scripts/verify-operator-flow.ts: the transactions of an operator, one step after the other. A
-- step that throws is a failed check; after most of them the script then returns from `main`.
pub mod Ends
use router_pulse_depin_proto.Common.{
  ℕ, zero, ◌==◌, ◌&&◌, not, ltb, leb, Bool, true, false, [], ◌∷◌, if◌then◌else◌,
}
use router_pulse_depin_proto.Common.Int.{pos, sub_ℕ}
use router_pulse_depin_proto.Scripts.Cluster.{
  Request, initialize_protocol, mint_genesis, register_router, fund, stake, unstake, heartbeat,
  finalize_router_epoch, claim_reward, claim_vested, rotate_device_key, ProtocolState, Cluster,
  to_base, genesis_config, device_lamports, epoch_at, expected,
}
use router_pulse_depin_proto.Scripts.Checks.{
  Run, pure, read, ok, fail, check, ◌>>=◌, ◌>>◌, caught, must_refuse, request, clock, pause, beats,
  wait_for_end, same_int, is_partial, Ending, returned, finish,
}

pub record Operator : Type 0 where
  pub owner : ℕ
  pub router : ℕ
  pub device : ℕ
  pub new_device : ℕ

module _ {W : Type 0} where
  abbrev pub unless_stopped : Run W Ending → Bool → Run W Ending
  unless_stopped rest goes_on = if goes_on then rest else pure returned

  abbrev pub attempted : Run W Unit → Run W Bool
  attempted body = caught (body >> pure true) (λ e. fail >> pure false)

  -- `try { body } catch (e) { bad(…); return; }`, and the rest of `main`.
  unfoldable pub or_stop : Run W Unit → Run W Ending → Run W Ending
  or_stop body rest = attempted body >>= unless_stopped rest

  -- `try { body } catch (e) { bad(…); }`.
  unfoldable pub or_bad : Run W Unit → Run W Unit
  or_bad body = caught body (λ e. fail)

module _ (cluster : Cluster) (operator : Operator) where
  open cluster use {
    World, protocol_exists, token_account_exists, owner_balance, vault_balance, supply,
    fetch_protocol, fetch_router, fetch_epoch, fetch_vesting,
  }
  open operator use {owner, router, device, new_device}

  -- 8. A withdrawal.
  unfoldable pub unstaking : Run World Unit
  unstaking = do
    before ← read vault_balance
    request cluster (unstake router (to_base 1))
    after ← read vault_balance
    check (same_int (sub_ℕ before after) (pos (to_base 1)))

  -- 7. A new device key, and a heartbeat with the old one in the epoch of the time.
  unfoldable pub rotation : ProtocolState → Run World Unit
  rotation p = do
    request cluster (rotate_device_key router new_device)
    account ← read (fetch_router router)
    (if not (account.device_pubkey == new_device)
        then fail
        else if ltb account.device_key_version 1
        then fail
        else ok)
    time ← clock cluster
    must_refuse (request cluster (heartbeat router device (epoch_at p time)))

  -- 6. A part of the grant.
  unfoldable pub vested : ℕ → ℕ → Run World Unit
  vested epoch before = do
    request cluster (claim_vested router epoch)
    after ← read owner_balance
    amount ← read (fetch_vesting router epoch)
    check (is_partial (sub_ℕ after before) amount)

  -- What follows the claim.
  unfoldable pub after_claim : ProtocolState → ℕ → Run World Ending
  unfolding or_bad vested rotation unstaking
  after_claim p epoch = do
    pause cluster 8000
    before ← read owner_balance
    or_bad (vested epoch before)
    or_bad (rotation p)
    or_bad unstaking
    finish

  -- 5. The claim, which leaves the supply.
  unfoldable pub claimed : ℕ → ℕ → Run World Unit
  claimed epoch before = do
    request cluster (claim_reward router epoch)
    after ← read supply
    check (after == before)

  unfoldable pub claiming : ProtocolState → ℕ → Run World Ending
  unfolding claimed after_claim or_stop
  claiming p epoch = do before ← read supply; or_stop (claimed epoch before) (after_claim p epoch)

  -- 4. The finalization, and its reward.
  unfoldable pub finalized : ℕ → Run World Unit
  finalized epoch = do
    request cluster (finalize_router_epoch router epoch)
    e ← read (fetch_epoch router epoch)
    ok
    (if e.reward_amount == 0 then fail else pure tt)

  unfoldable pub finalizing : ProtocolState → ℕ → Run World Ending
  unfolding finalized claiming or_stop
  finalizing p epoch = do wait_for_end cluster p epoch; or_stop (finalized epoch) (claiming p epoch)

  -- 3. The heartbeats of one epoch, signed by a device that the owner has funded.
  unfoldable pub beating : Run World Ending
  unfolding finalizing or_stop
  beating = do
    p ← read fetch_protocol
    time ← clock cluster
    request cluster (fund (device ∷ []) device_lamports)
    or_stop (beats cluster router device expected 0 (epoch_at p time) >> ok)
        (finalizing p (epoch_at p time))

  -- 2. The stake.
  unfoldable pub staked : ℕ → Run World Unit
  staked before = do
    request cluster (stake router (to_base 10))
    after ← read vault_balance
    check (same_int (sub_ℕ after before) (pos (to_base 10)))

  unfoldable pub staking : Run World Ending
  unfolding staked beating or_stop
  staking = do before ← read vault_balance; or_stop (staked before) beating

  -- 1. The registration.
  unfoldable pub registered : Run World Unit
  registered = do
    request cluster (register_router router device)
    account ← read (fetch_router router)
    (if not (account.device_pubkey == device)
        then fail
        else if not (account.owner == owner)
        then fail
        else ok)

  -- A genesis mint.
  unfoldable pub minted : Bool → Run World Unit
  minted account = do
    request cluster (mint_genesis (not account) (to_base 500))
    balance ← read owner_balance
    ok

  unfoldable pub minting : Run World Ending
  unfolding minted registered staking or_stop
  minting = do
    account ← read token_account_exists
    or_stop (minted account) (or_stop registered staking)

  abbrev set_up : Bool → Run World Ending
  set_up existing =
      if existing
      then ok >> minting
      else or_stop (request cluster (initialize_protocol genesis_config) >> ok) minting

  unfoldable pub main : Run World Ending
  unfolding minting or_stop
  main = read protocol_exists >>= set_up
