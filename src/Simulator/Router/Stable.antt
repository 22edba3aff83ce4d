-- ===== src/Simulator/Router/Stable.antt =====
-- What the acts of a simulated router leave as it is (routerpulse/simulator/src/router.ts).
use router_pulse_depin_proto.Common.{
  ℕ, ◌-◌, ◌==◌, String, Bool, Option, none, some, leb, if◌then◌else◌,
}
use router_pulse_depin_proto.Simulator.Acts.{
  Instruction, Program, Sim, Act, pure, bind, read, call, noted, transfer, rotate_device_key,
  register_router, stake,
}
use router_pulse_depin_proto.Simulator.Triples.{After, Triple, bind-Triple, read-Keeps, if-Triple}
use router_pulse_depin_proto.Simulator.Router.{
  device_fund_lamports, device_min_lamports, top_up, fund_device, rotated_to, attach, collateral,
  ensure_staked, register,
}

-- What a transaction does not undo, no act of a simulator undoes.
module _ (program : Program) (device : ℕ) (P : program.World → Type 0)
    (kept : (i : Instruction) (w : program.World) → P w → P (program.send i w).0) where
  abbrev Holds : Sim program.World → Type 0
  Holds s = P s.world

  abbrev Stable : {A : Type 0} → Act program A → Type 0
  Stable act = Triple program Holds act Holds Holds

  noted-Holds :
      (i : Instruction) (r : program.World × Option String) (s : Sim program.World)
      → P r.0
      → After program Holds Holds (noted program i r s)
  noted-Holds i (w, none) s h = h
  noted-Holds i (w, some e) s h = h

  call-Stable : (i : Instruction) → Stable (call program i)
  call-Stable i s h = noted-Holds i (program.send i s.world) s (kept i s.world h)

  then_Stable :
      {A B : Type 0} (f : Act program A) (k : A → Act program B)
      → Stable f
      → ((a : A) → Stable (k a))
      → Stable (bind program f k)
  then_Stable f k hf hk = bind-Triple program Holds Holds Holds Holds f k hf hk

  if-Stable :
      (b : Bool) (f g : Act program Unit) → Stable f → Stable g → Stable (if b then f else g)
  if-Stable b f g hf hg = if-Triple program Holds Holds Holds b f g hf hg

  pure-Stable : {A : Type 0} (a : A) → Stable (pure program a)
  pure-Stable a s h = h

  fund_device-Stable : Stable (fund_device program device)
  unfolding fund_device
  fund_device-Stable =
      then_Stable (read program program.balance) (top_up program device)
        (read-Keeps program Holds program.balance)
        (λ b.
          if-Stable (leb device_min_lamports b) _ _ (pure-Stable tt)
            (call-Stable (transfer (device_fund_lamports - b))))

  rotated_to-Stable : (key : Option ℕ) → Stable (rotated_to program device key)
  rotated_to-Stable none = λ s h. h
  rotated_to-Stable (some key) =
      if-Stable (key == device) _ _ (pure-Stable tt) (call-Stable (rotate_device_key device))

  attach-Stable : Stable (attach program device)
  attach-Stable =
      then_Stable (read program program.fetch_router) _
        (read-Keeps program Holds program.fetch_router)
        (λ router. rotated_to-Stable router.device_pubkey)

  ensure_staked-Stable : Stable (ensure_staked program device)
  unfolding ensure_staked
  ensure_staked-Stable =
      then_Stable (read program program.fetch_protocol) _
        (read-Keeps program Holds program.fetch_protocol)
        (λ p.
          then_Stable (read program program.fetch_router) (collateral program device p)
            (read-Keeps program Holds program.fetch_router)
            (λ a.
              if-Stable (leb p.min_stake a.staked_amount) _ _ (pure-Stable tt)
                (call-Stable (stake (p.min_stake - a.staked_amount)))))

  pub register-Stable : Stable (register program device)
  unfolding register
  register-Stable =
      then_Stable (read program program.router_exists) _
        (read-Keeps program Holds program.router_exists)
        (λ existing. then_Stable (fund_device program device) _ fund_device-Stable (λ funded.
          then_Stable (if existing then attach program device else call program register_router) _
            (if-Stable existing _ _ attach-Stable (call-Stable register_router))
            (λ there. ensure_staked-Stable)))
