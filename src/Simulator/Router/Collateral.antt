-- ===== src/Simulator/Router/Collateral.antt =====
-- Registration leaves a router that may go active.
use router_pulse_depin_proto.Common.{
  ℕ, ◌+◌, ◌-◌, ◌≤◌, String, Option, none, some, ◌∷◌, ◌≡◌, refl, ◌∙◌, arith, leb, if◌then◌else◌,
  Bool-cases, inl, inr,
}
use router_pulse_depin_proto.Simulator.Acts.{
  register_router, stake, Protocol, Account, Ran, done, threw, Program, Sim, Act, bind, read, call,
  noted,
}
use router_pulse_depin_proto.Simulator.Triples.{After, Triple, bind-Triple}
use router_pulse_depin_proto.Simulator.Router.{
  collateral, ensure_staked, fund_device, register, attach,
}

-- The program's `stake`, as the on-chain code has it: the tokens are added to the router's stake, and
-- the protocol's account keeps its minimum.
pub record Stakes (program : Program) : Type 0 where
  pub staked_router :
      (n : ℕ) (w w1 : program.World) (router : Account)
      → program.send (stake n) w ≡ (w1, none)
      → program.fetch_router w ≡ done router
      → program.fetch_router w1 ≡ done (record router { staked_amount = router.staked_amount + n })
  pub staked_protocol :
      (n : ℕ) (w w1 : program.World)
      → program.send (stake n) w ≡ (w1, none)
      → program.fetch_protocol w1 ≡ program.fetch_protocol w

-- The router's stake has reached the protocol's minimum.
pub record IsCollateralised (program : Program) (w : program.World) : Type 0 where
  pub protocol : Protocol
  pub router : Account
  pub protocol_read : program.fetch_protocol w ≡ done protocol
  pub router_read : program.fetch_router w ≡ done router
  pub enough : protocol.min_stake ≤ router.staked_amount

module _ (program : Program) (device : ℕ) (stakes : Stakes program) where
  abbrev Staked : Sim program.World → Type 0
  Staked s = IsCollateralised program s.world

  abbrev Anything : Sim program.World → Type 0
  Anything s = Unit

  sent-Staked :
      (p : Protocol) (a : Account) (s : Sim program.World) (n : ℕ)
      (r : program.World × Option String)
      → program.send (stake n) s.world ≡ r
      → program.fetch_protocol s.world ≡ done p
      → program.fetch_router s.world ≡ done a
      → p.min_stake ≤ a.staked_amount + n
      → After program Staked Anything (noted program (stake n) r s)
  sent-Staked p a s n (w, none) e hp ha le = record {
    protocol = p;
    router = record a { staked_amount = a.staked_amount + n };
    protocol_read = stakes.staked_protocol n s.world w e ∙ hp;
    router_read = stakes.staked_router n s.world w a e ha;
    enough = le;
  }
  sent-Staked p a s n (w, some m) e hp ha le = tt

  collateral-Staked :
      (p : Protocol) (a : Account) (s : Sim program.World)
      → program.fetch_protocol s.world ≡ done p
      → program.fetch_router s.world ≡ done a
      → After program Staked Anything (collateral program device p a s)
  collateral-Staked p a s hp ha = elim (Bool-cases (leb p.min_stake a.staked_amount)) [
    | inl enough ↦ rw enough (record {
      protocol = p;
      router = a;
      protocol_read = hp;
      router_read = ha;
      enough = ground (arith, enough);
    })
    | inr short ↦ rw short (
        sent-Staked p a s (p.min_stake - a.staked_amount)
          (program.send (stake (p.min_stake - a.staked_amount)) s.world) refl hp ha (omega arith))
  ]

  then_router :
      (p : Protocol) (s : Sim program.World) (r : Ran Account)
      → program.fetch_protocol s.world ≡ done p
      → program.fetch_router s.world ≡ r
      → After program Staked Anything (bind program (λ u. (r, u)) (collateral program device p) s)
  then_router p s (done a) hp ha = collateral-Staked p a s hp ha
  then_router p s (threw e) hp ha = tt

  then_protocol :
      (s : Sim program.World) (r : Ran Protocol)
      → program.fetch_protocol s.world ≡ r
      → After program Staked Anything (
          bind program
            (λ u. (r, u))
            (λ p. bind program (read program program.fetch_router) (collateral program device p))
            s)
  then_protocol s (done p) hp = then_router p s (program.fetch_router s.world) hp refl
  then_protocol s (threw e) hp = tt

  ensure_staked-Staked : Triple program Anything (ensure_staked program device) Staked Anything
  unfolding ensure_staked
  ensure_staked-Staked s h = then_protocol s (program.fetch_protocol s.world) refl

  After-any : {A : Type 0} (r : Ran A × Sim program.World) → After program Anything Anything r
  After-any (done a, s) = tt
  After-any (threw e, s) = tt

  -- Whatever comes before the last act of a sequence.
  last_act :
      {A : Type 0} (f : Act program A) (k : A → Act program Unit)
      → ((a : A) → Triple program Anything (k a) Staked Anything)
      → Triple program Anything (bind program f k) Staked Anything
  last_act f k h =
      bind-Triple program Anything Anything Staked Anything f k (λ s any. After-any (f s)) h

  register-Staked : Triple program Anything (register program device) Staked Anything
  unfolding register
  register-Staked = last_act (read program program.router_exists) _ (λ existing.
      last_act (fund_device program device) _ (λ funded.
        last_act (if existing then attach program device else call program register_router) _
          (λ registered. ensure_staked-Staked)))

  ended :
      (r : Ran Unit × Sim program.World)
      → After program Staked Anything r
      → r.0 ≡ done tt
      → Staked r.1
  ended (done a, s) h e = h
  ended (threw m, s) h e = cc

-- Where `register` ends without a throw, the router's stake has reached the protocol's minimum,
-- whether the router was registered before or not, and whatever it had staked.
pub register-IsCollateralised :
    (program : Program) (device : ℕ) (s : Sim program.World)
    → Stakes program
    → (register program device s).0 ≡ done tt
    → IsCollateralised program (register program device s).1.world
register-IsCollateralised program device s stakes e =
    ended program device stakes (register program device s)
      (register-Staked program device stakes s tt) e

-- Where the accounts can be read and the transaction that stakes the shortfall is confirmed,
-- `ensureStaked` ends without a throw; it sends nothing if the stake has reached the minimum, and
-- otherwise the one `stake` instruction for the shortfall.
pub ensure_staked-confirmed :
    (program : Program) (device : ℕ) (s : Sim program.World) (p : Protocol) (a : Account)
    (w1 : program.World)
    → program.fetch_protocol s.world ≡ done p
    → program.fetch_router s.world ≡ done a
    → program.send (stake (p.min_stake - a.staked_amount)) s.world ≡ (w1, none)
    → ((ensure_staked program device s).0 ≡ done tt)
      × ((ensure_staked program device s).1.confirmed ≡ (
          if leb p.min_stake a.staked_amount
          then s.confirmed
          else stake (p.min_stake - a.staked_amount) ∷ s.confirmed))
unfolding ensure_staked
ensure_staked-confirmed program device s p a w1 hp ha hs =
    elim (Bool-cases (leb p.min_stake a.staked_amount)) [
      | inl enough ↦ rw (hp, ha, enough) (refl, refl)
      | inr short ↦ rw (hp, ha, short, hs) (refl, refl)
    ]
