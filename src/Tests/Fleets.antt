-- ===== src/Tests/Fleets.antt =====
-- Examples for the simulator's fleet.
use mathlib.Core.Path.{subst}
use router_pulse_depin_proto.Common.{
  ℕ, ◌+◌, String, true, false, Option, none, [], ◌∷◌, ◌≡◌, refl, ap, All,
}
use router_pulse_depin_proto.Simulator.Acts.{Account, done, threw, Program, Sim}
use router_pulse_depin_proto.Simulator.Router.{fund_device, register, ensure_staked}
use router_pulse_depin_proto.Simulator.Router.Collateral.{Stakes}
use router_pulse_depin_proto.Simulator.Fleet.{Member, client_of, register_all}
use router_pulse_depin_proto.Simulator.Fleet.Collateral.{IsReady, Spares, register_all-IsReady}
use router_pulse_depin_proto.Tests.Simulation.{rules, with_stake, sent, account_of}

-- A cluster with the stakes of two routers.
abbrev pub pair : Program
pair = record {
  World = ℕ × ℕ;
  balance = λ w. done 0;
  router_exists = λ w. done true;
  fetch_router = λ w. threw "no router";
  fetch_protocol = λ w. done rules;
  epoch_exists = λ n w. done false;
  fetch_epoch = λ n w. threw "Account does not exist";
  vesting_exists = λ n w. done false;
  token_balance = λ w. done 500;
  heartbeat_interval = λ w. done 1200;
  send = λ i w. (w, none);
}

abbrev pub left : Member pair
left = record {
  device = 7;
  device_balance = λ w. done 0;
  is_there = λ w. done true;
  account = λ w. done (with_stake w.0);
  has_epoch = λ n w. done false;
  epoch = λ n w. threw "Account does not exist";
  has_vesting = λ n w. done false;
  submit = λ i w. (((sent i w.0).0, w.1), (sent i w.0).1);
}

abbrev right : Member pair
right = record left {
  account = λ w. done (with_stake w.1);
  submit = λ i w. ((w.0, (sent i w.1).0), (sent i w.1).1);
}

-- A router's account shows the stake that the cluster keeps for it.
shown_stake :
    (w n : ℕ) (router : Account)
    → done (with_stake w) ≡ done router
    → done (with_stake (w + n)) ≡ done (record router { staked_amount = router.staked_amount + n })
unfolding account_of
shown_stake w n router h =
    subst (λ a. done (with_stake (w + n)) ≡ done (record a { staked_amount = a.staked_amount + n }))
      (ap account_of h) refl

left-Stakes : Stakes (client_of pair left)
left-Stakes = record {
  staked_router = λ n w w1 router e h.
      subst
        (λ (v : ℕ × ℕ).
          done (with_stake v.0) ≡ done (record router { staked_amount = router.staked_amount + n }))
        (ap (λ (r : (ℕ × ℕ) × Option String). r.0) e) (shown_stake w.0 n router h);
  staked_protocol = λ n w w1 e. refl;
}

right-Stakes : Stakes (client_of pair right)
right-Stakes = record {
  staked_router = λ n w w1 router e h.
      subst
        (λ (v : ℕ × ℕ).
          done (with_stake v.1) ≡ done (record router { staked_amount = router.staked_amount + n }))
        (ap (λ (r : (ℕ × ℕ) × Option String). r.0) e) (shown_stake w.1 n router h);
  staked_protocol = λ n w w1 e. refl;
}

right-Spares : Spares pair right left
right-Spares i w h = record {
  protocol = h.protocol;
  router = h.router;
  protocol_read = h.protocol_read;
  router_read = h.router_read;
  enough = h.enough;
}

abbrev fresh_pair : Sim (ℕ × ℕ)
fresh_pair = record {
  world = (30, 0);
  confirmed = [];
  running = false;
  heartbeat_count = 0;
  missed_count = 0;
  last_finalized = none;
}

register_all-IsReady_example :
    All
      (IsReady pair (register_all pair (left ∷ right ∷ []) fresh_pair).1.world)
      (left ∷ right ∷ [])
unfolding register_all register fund_device ensure_staked
register_all-IsReady_example =
    register_all-IsReady pair (left ∷ right ∷ []) fresh_pair
      (left-Stakes, (right-Spares, tt), (right-Stakes, tt, tt)) refl
