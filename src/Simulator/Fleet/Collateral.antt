-- ===== src/Simulator/Fleet/Collateral.antt =====
-- The collateral of the whole fleet (routerpulse/simulator/src/index.ts).
use mathlib.Core.Path.{subst}
use router_pulse_depin_proto.Common.{List, [], ◌∷◌, All, ◌≡◌, refl, ap}
use router_pulse_depin_proto.Simulator.Acts.{Instruction, Ran, done, threw, Program, Sim, bind}
use router_pulse_depin_proto.Simulator.Triples.{After, Triple, bind-Triple}
use router_pulse_depin_proto.Simulator.Router.Collateral.{
  Stakes, IsCollateralised, register-IsCollateralised,
}
use router_pulse_depin_proto.Simulator.Router.Stable.{register-Stable}
use router_pulse_depin_proto.Simulator.Fleet.{Member, client_of, register_member, register_all}

module _ (program : Program) where
  abbrev pub IsReady : program.World → Member program → Type 0
  IsReady w v = IsCollateralised (client_of program v) w

  -- The transactions of one member leave the collateral of another.
  abbrev pub Spares : Member program → Member program → Type 0
  Spares u v = (i : Instruction) (w : program.World) → IsReady w v → IsReady (u.submit i w).0 v

  -- A member's own transactions stake what they say, and those of the members after it spare it.
  abbrev pub AreApart : List (Member program) → Type 0
  AreApart [] = Unit
  AreApart (v ∷ vs) = Stakes (client_of program v) × All (λ u. Spares u v) vs × AreApart vs

  abbrev Ready : Member program → Sim program.World → Type 0
  Ready v s = IsReady s.world v

  register_all-Ready :
      (v : Member program) (us : List (Member program))
      → All (λ u. Spares u v) us
      → Triple program (Ready v) (register_all program us) (Ready v) (Ready v)
  unfolding register_all
  register_all-Ready v [] h = λ s g. g
  register_all-Ready v (u ∷ us) (h, hs) =
      bind-Triple program (Ready v) (Ready v) (Ready v) (Ready v) (register_member program u) _
        (register-Stable (client_of program u) u.device (λ w. IsReady w v) h)
        (λ there. register_all-Ready v us hs)

  After-done :
      (v : Member program) (r : Ran Unit × Sim program.World)
      → After program (Ready v) (Ready v) r
      → IsReady r.1.world v
  After-done v (done a, s) h = h
  After-done v (threw e, s) h = h

  abbrev First : Member program → Ran {0} Unit × Sim program.World → Type 0
  First v (done a, s) = Ready v s
  First v (threw e, s) = Unit

  register_member-Ready :
      (v : Member program) (s : Sim program.World)
      → Stakes (client_of program v)
      → (r : Ran {0} Unit × Sim program.World) → register_member program v s ≡ r
      → First v r
  register_member-Ready v s stakes (done a, s1) e =
      subst (λ r. IsReady r.1.world v) e
        (register-IsCollateralised (client_of program v) v.device s stakes (ap (λ r. r.0) e))
  register_member-Ready v s stakes (threw m, s1) e = tt

  -- Where the loop over the fleet ends without a throw, every router of the fleet has its collateral
  -- when the first heartbeat is sent. This is for members whose transactions stake what they say and
  -- spare the members before them.
  pub register_all-IsReady :
      (vs : List (Member program)) (s : Sim program.World)
      → AreApart vs
      → (register_all program vs s).0 ≡ done tt
      → All (IsReady (register_all program vs s).1.world) vs
  unfolding register_all
  register_all-IsReady [] s apart e = tt
  register_all-IsReady (v ∷ vs) s (stakes, spared, apart) e =
      go (register_member program v s) (register_member-Ready v s stakes _ refl) e
        (λ s1. register_all-IsReady vs s1 apart)
    where
      go :
          (r : Ran {0} Unit × Sim program.World)
          → First v r
          → (bind program (λ u. r) (λ there. register_all program vs) s).0 ≡ done tt
          → ((s1 : Sim program.World)
              → (register_all program vs s1).0 ≡ done tt
              → All (IsReady (register_all program vs s1).1.world) vs)
          → All
              (IsReady (bind program (λ u. r) (λ there. register_all program vs) s).1.world)
              (v ∷ vs)
      go (done a, s1) h e ih =
          (After-done v (register_all program vs s1) (register_all-Ready v vs spared s1 h), ih s1 e)
      go (threw m, s1) h e ih = absurd (cc)
