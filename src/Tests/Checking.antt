-- ===== src/Tests/Checking.antt =====
-- The checking scripts on a small ledger that keeps the program's rules.
use router_pulse_depin_proto.Common.{
  ℕ, ◌+◌, ◌-◌, ◌*◌, ◌/◌, ◌≤◌, ◌<◌, ◌==◌, ◌&&◌, ◌≡◌, ◌⊎◌, refl, not, ltb, String, Bool, true, false,
  some, [], ◌∷◌, if◌then◌else◌, arith,
}
use router_pulse_depin_proto.Common.Int.{pos, negsuc, ◌-ℤ◌}
use router_pulse_depin_proto.Scripts.Cluster.{
  Request, mint_genesis, stake, unstake, heartbeat, claim_reward, claim_vested, slash_router,
  burn_treasury, rotate_device_key, pause_protocol, resume_protocol, ProtocolState, done, Sent,
  confirmed, refused, Cluster, to_base,
}
use router_pulse_depin_proto.Scripts.Checks.{
  Script, ◌>>=◌, ◌>>◌, caught, request, clock, must_refuse, beats, pause, wait_for_end, finish,
  exit_code, fresh, returned,
}
use router_pulse_depin_proto.Scripts.Lifecycle.{
  Cast, finalization, claims, vesting, slashing, resumed, withdrawal, reconciliation,
}
use router_pulse_depin_proto.Scripts.Lifecycle
use router_pulse_depin_proto.Scripts.Lifecycle.Exit.{Reconciles, main-exits_zero}
use router_pulse_depin_proto.Scripts.Lifecycle.Stale.{IsTimely, until_slashed, stale_checks-pass}
use router_pulse_depin_proto.Scripts.OperatorFlow
use router_pulse_depin_proto.Scripts.OperatorFlow.{Operator}
use router_pulse_depin_proto.Scripts.OperatorFlow.Ends.{
  main-exits_zero_or_stopped, refused_mint-exits_zero,
}

record Ledger : Type 0 where
  time : ℕ
  wallet : ℕ
  vault : ℕ
  treasury : ℕ
  all_minted : ℕ
  burned : ℕ
  device : ℕ
  version : ℕ
  is_paused : Bool
  is_claimed : Bool
  is_slashed : Bool

abbrev took : Bool → Ledger → Ledger → Ledger × Sent
took fits before after = if fits then (after, confirmed "sig") else (before, refused "refused")

-- Router 1 is the one whose key can be rotated; router 2 has device 22.
abbrev device_of : ℕ → Ledger → ℕ
device_of router l = if router == 1 then l.device else 22

abbrev beat_fits : ℕ → ℕ → ℕ → Ledger → Bool
beat_fits router device epoch l =
    ltb l.time ((epoch + 1) * 120)
    && (ltb 0 l.vault && (not l.is_paused && device == device_of router l))

abbrev ledger_send : Request → Ledger → Ledger × Sent
ledger_send (mint_genesis with_account n) l =
    took (ltb n (to_base 2000)) l
      (record l { wallet = l.wallet + n; all_minted = l.all_minted + n })
ledger_send (stake router n) l = took true l (record l { vault = l.vault + n })
ledger_send (unstake router n) l = took true l (record l { vault = l.vault - n })
ledger_send (heartbeat router device epoch) l = took (beat_fits router device epoch l) l l
ledger_send (claim_reward router epoch) l =
    took (not l.is_claimed) l (record l { is_claimed = true })
ledger_send (claim_vested router epoch) l =
    took true l (record l { wallet = l.wallet + 5; all_minted = l.all_minted + 5 })
ledger_send (slash_router router epoch) l =
    took (not l.is_slashed) l
      (record l { vault = l.vault - 3; treasury = l.treasury + 3; is_slashed = true })
ledger_send (burn_treasury (pos n)) l =
    took true l (record l { treasury = l.treasury - n; burned = l.burned + n })
ledger_send (rotate_device_key router key) l = took true l (record l { device = key; version = 1 })
ledger_send pause_protocol l = took true l (record l { is_paused = true })
ledger_send resume_protocol l = took true l (record l { is_paused = false })
ledger_send r l = took true l l

abbrev protocol_of : Ledger → ProtocolState
protocol_of l = record {
  genesis_time = 0;
  epoch_duration = 120;
  total_minted = l.all_minted;
  total_burned = l.burned;
}

-- The first router earns and the second is slashed.
abbrev ledger : Cluster
ledger = record {
  World = Ledger;
  send = ledger_send;
  now = λ l. l.time;
  sleep = λ ms l. record l { time = l.time + ms / 1000 };
  protocol_exists = λ l. done true;
  token_account_exists = λ l. done false;
  owner_balance = λ l. done l.wallet;
  vault_balance = λ l. done l.vault;
  treasury_balance = λ l. done l.treasury;
  supply = λ l. done (l.all_minted - l.burned);
  fetch_protocol = λ l. done (protocol_of l);
  fetch_router = λ r l.
      done (record { owner = 7; device_pubkey = device_of r l; device_key_version = l.version });
  fetch_epoch = λ r e l. done (
      if r == 1
      then record { reward_amount = 10; slash_amount = 0 }
      else record { reward_amount = 0; slash_amount = 3 });
  fetch_vesting = λ r e l. done 10;
  confirm = λ sig l. done tt;
  find_transaction = λ sig l. done (some (some ("log" ∷ [])));
  event_names = λ logs. "rewardrateupdated" ∷ [];
  lower_case = λ s. s;
}

abbrev opening : Ledger
opening = record {
  time = 1000;
  wallet = 0;
  vault = 0;
  treasury = 0;
  all_minted = 0;
  burned = 0;
  device = 11;
  version = 0;
  is_paused = false;
  is_claimed = false;
  is_slashed = false;
}

abbrev cast : Cast
cast = record { owner = 7; good = 1; bad = 2; good_device = 11; bad_device = 22; replacement = 33 }

abbrev operator : Operator
operator = record { owner = 7; router = 1; device = 11; new_device = 33 }

lifecycle_passes : exit_code (Lifecycle.main ledger cast (fresh opening)).0 ≡ 0
unfolding Lifecycle.main ◌>>=◌ request clock must_refuse beats pause wait_for_end ◌-ℤ◌ finish
lifecycle_passes = refl

main-exits_zero_example :
    let s = (Lifecycle.main ledger cast (fresh opening)).1 in
    (s.passed ≡ 21) × (s.failed ≡ 0) × Reconciles ledger s
main-exits_zero_example = main-exits_zero ledger cast opening lifecycle_passes

operator_flow_passes : exit_code (OperatorFlow.main ledger operator (fresh opening)).0 ≡ 0
unfolding OperatorFlow.main ◌>>=◌ caught request clock must_refuse beats pause wait_for_end finish
operator_flow_passes = refl

main-exits_zero_or_stopped_example :
    let r = OperatorFlow.main ledger operator (fresh opening) in
    ((r.1.passed ≡ 11) × (r.1.failed ≡ 0)) ⊎ ((r.0 ≡ done returned) × (0 < r.1.failed))
main-exits_zero_or_stopped_example =
    main-exits_zero_or_stopped ledger operator opening operator_flow_passes

-- A ledger on which a pause changes nothing.
abbrev without_pause : Request → Ledger → Ledger × Sent
without_pause pause_protocol l = took true l l
without_pause r l = ledger_send r l

abbrev lax : Cluster
lax = record ledger { send = without_pause }

lifecycle_misses_pause : exit_code (Lifecycle.main lax cast (fresh opening)).0 ≡ 0
unfolding Lifecycle.main ◌>>=◌ request clock must_refuse beats pause wait_for_end ◌-ℤ◌ finish
lifecycle_misses_pause = refl

-- A ledger on which the first mint goes wrong.
abbrev without_mint : Request → Ledger → Ledger × Sent
without_mint (mint_genesis with_account n) l = (l, refused "no genesis")
without_mint r l = ledger_send r l

abbrev closed_mint : Cluster
closed_mint = record ledger { send = without_mint }

refused_mint-exits_zero_example :
    let r = OperatorFlow.main closed_mint operator (fresh opening) in
    (exit_code r.0 ≡ 0) × (r.1 ≡ record { world = opening; passed = 1; failed = 1 })
refused_mint-exits_zero_example =
    refused_mint-exits_zero closed_mint operator opening opening false "no genesis" refl refl refl

took-time :
    (fits : Bool) (before after : Ledger)
    → before.time ≡ after.time
    → before.time ≤ (took fits before after).0.time
took-time true before after h = omega arith
took-time false before after h = omega arith

sends_later : (r : Request) (l : Ledger) → l.time ≤ (ledger_send r l).0.time
sends_later (mint_genesis with_account n) l =
    took-time (ltb n (to_base 2000)) l
      (record l { wallet = l.wallet + n; all_minted = l.all_minted + n }) refl
sends_later (heartbeat router device epoch) l = took-time (beat_fits router device epoch l) l l refl
sends_later (claim_reward router epoch) l =
    took-time (not l.is_claimed) l (record l { is_claimed = true }) refl
sends_later (slash_router router epoch) l =
    took-time (not l.is_slashed) l
      (record l { vault = l.vault - 3; treasury = l.treasury + 3; is_slashed = true }) refl
sends_later (burn_treasury (pos n)) l = omega arith
sends_later (burn_treasury (negsuc n)) l = omega arith
sends_later r l = omega arith

in_epoch :
    (router device epoch : ℕ) (l : Ledger) (sig : String)
    → (ledger_send (heartbeat router device epoch) l).1 ≡ confirmed sig
    → l.time < 0 + (epoch + 1) * 120 + 3
in_epoch router device epoch l sig h = split (beat_fits router device epoch l) refl h
  where
    split :
        (b : Bool)
        → beat_fits router device epoch l ≡ b
        → (took b l l).1 ≡ confirmed sig
        → l.time < 0 + (epoch + 1) * 120 + 3
    split true e h = ground arith
    split false e h = cc

ledger-IsTimely : IsTimely ledger (protocol_of opening)
ledger-IsTimely = record { sends = sends_later; sleeps = λ ms l. omega arith; current = in_epoch }

abbrev opened : Script Ledger
opened = fresh (record opening { vault = to_base 20 })

abbrev slashed : Script Ledger
slashed = (until_slashed ledger (protocol_of opening) cast 8 opened).1

abbrev with_new_key : Ledger
with_new_key = record slashed.world { device = 33; version = 1 }

abbrev on_pause : Ledger
on_pause = record with_new_key { is_paused = true }

stale_checks-pass_example :
    Lifecycle.after_uptime ledger cast (protocol_of opening) 8 opened
    ≡ (resumed ledger cast >> (withdrawal ledger cast >> reconciliation ledger cast))
        (record { world = on_pause; passed = slashed.passed + 1 + 1 + 1; failed = slashed.failed })
unfolding ◌>>=◌ request clock must_refuse beats pause wait_for_end ◌-ℤ◌ finalization claims vesting
    slashing
stale_checks-pass_example =
    stale_checks-pass ledger (protocol_of opening) ledger-IsTimely cast 8 opened slashed
      with_new_key on_pause "sig" "sig"
      (record { owner = 7; device_pubkey = 33; device_key_version = 1 }) refl refl refl refl
