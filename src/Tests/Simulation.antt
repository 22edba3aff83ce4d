-- ===== src/Tests/Simulation.antt =====
-- Examples for the simulated router.
use mathlib.Core.Path.{subst}
use router_pulse_depin_proto.Common.{
  ℕ, ◌+◌, ◌==◌, if◌then◌else◌, String, true, false, Option, none, some, [], ◌∷◌, ◌≡◌, refl, ap,
}
use router_pulse_depin_proto.Common.Int.{pos, ◌-ℤ◌}
use router_pulse_depin_proto.Simulator.Acts.{
  Instruction, create_token_account, mint_genesis, stake, finalize_router_epoch, heartbeat,
  transfer, register_router, Protocol, Account, Ran, done, threw, Program, Sim,
}
use router_pulse_depin_proto.Simulator.Router.{start}
use router_pulse_depin_proto.Simulator.Router.Collateral.{Stakes}
use router_pulse_depin_proto.Simulator.Router.Counts.{IsCounted, beats, start-IsCounted}
use router_pulse_depin_proto.Simulator.Triples.{After}
use router_pulse_depin_proto.Scripts.Seed.{main}
use router_pulse_depin_proto.Scripts.Seed.Opening.{Above}
use router_pulse_depin_proto.Scripts.Seed.Order.{seed_order, main-confirms}

abbrev pub rules : Protocol
rules = record { genesis_time = pos 1000; epoch_duration = pos 3600; min_stake = 100 }

abbrev pub with_stake : ℕ → Account
with_stake n = record { device_pubkey = some 7; staked_amount = n }

-- A cluster whose one account that changes is the router's stake.
abbrev pub sent : Instruction → ℕ → ℕ × Option String
sent (stake n) w = (w + n, none)
sent _ w = (w, none)

abbrev cluster : Ran Protocol → Program
cluster protocol = record {
  World = ℕ;
  balance = λ w. done 0;
  router_exists = λ w. done true;
  fetch_router = λ w. done (with_stake w);
  fetch_protocol = λ w. protocol;
  epoch_exists = λ n w. done false;
  fetch_epoch = λ n w. threw "Account does not exist";
  vesting_exists = λ n w. done false;
  token_balance = λ w. done 500;
  heartbeat_interval = λ w. done 1200;
  send = sent;
}

abbrev fresh : Sim ℕ
fresh = record {
  world = 30;
  confirmed = [];
  running = false;
  heartbeat_count = 0;
  missed_count = 0;
  last_finalized = none;
}

unfoldable pub account_of : Ran Account → Account
account_of (done a) = a
account_of (threw e) = with_stake 0

cluster-Stakes : Stakes (cluster (done rules))
unfolding account_of
cluster-Stakes = record {
  staked_router = λ n w w1 router e h.
      subst
        (λ v.
          done (with_stake v) ≡ done (record router { staked_amount = router.staked_amount + n }))
        (ap (λ (r : ℕ × Option String). r.0) e)
        (subst
          (λ a. done (with_stake (w + n)) ≡ done (record a { staked_amount = a.staked_amount + n }))
          (ap account_of h) refl);
  staked_protocol = λ n w w1 e. refl;
}

start-IsCounted_example :
    IsCounted (start (cluster (done rules)) 7 ((false, pos 9000) ∷ (true, pos 9060) ∷ []) fresh)
unfolding beats
start-IsCounted_example =
    start-IsCounted (cluster (done rules)) 7 ((false, pos 9000) ∷ (true, pos 9060) ∷ []) fresh refl

-- A cluster that does not know the router yet, whose epochs earn a reward. The operator has no token
-- account at first; one that is created holds 40.
abbrev sent_new : Instruction → ℕ → ℕ × Option String
sent_new create_token_account w = (w + 1, none)
sent_new i w = sent i w

abbrev new_cluster : Program
new_cluster = record (cluster (done rules)) {
  send = sent_new;
  token_balance = λ w. if w == 30 then threw "TokenAccountNotFoundError" else done 40;
  router_exists = λ w. done false;
  fetch_epoch = λ n w. done (record {
    finalized = true;
    slash_amount = 0;
    slashed = false;
    reward_amount = 5;
    claimed = false;
  });
}

main-confirms_example :
    After new_cluster
      (Above new_cluster rules 30 [] (seed_order new_cluster rules 30 [] (pos 8300) 1200))
      (λ t. Unit)
      (main new_cluster (pos 8300) fresh)
main-confirms_example = main-confirms new_cluster fresh (pos 8300) rules 1200 refl refl

main_test :
    (main new_cluster (pos 8300) fresh).1.confirmed
    ≡ finalize_router_epoch 2
      ∷ heartbeat 2
      ∷ heartbeat 2
      ∷ heartbeat 2
      ∷ stake 100
      ∷ transfer 50000000
      ∷ register_router
      ∷ mint_genesis 60
      ∷ create_token_account
      ∷ []
unfolding main ◌-ℤ◌
main_test = refl
