-- ===== src/Scripts/Checks/Moves.antt =====
-- How the world moves while a part of a script runs: by transactions and by time.
use router_pulse_depin_proto.Common.{ℕ, ◌≡◌, refl, sym, Bool, true, false}
use mathlib.Core.Path.{subst}
use router_pulse_depin_proto.Scripts.Cluster.{
  Request, Ran, done, threw, Sent, confirmed, refused, Cluster,
}
use router_pulse_depin_proto.Scripts.Checks.{
  Script, Run, pure, read, ok, fail, check, ◌>>=◌, must_refuse, answered, request, clock, pause,
}

module _ (cluster : Cluster) where
  open cluster use {World, send, sleep}

  pub data Since (w : World) : World → Type 0 where
    here : Since w w
    sent : {v : World} → (r : Request) → Since w v → Since w (send r v).0
    slept : {v : World} → (ms : ℕ) → Since w v → Since w (sleep ms v)

  pub Since-trans : {u v w : World} → Since u v → Since v w → Since u w
  Since-trans a here = a
  Since-trans a (sent r b) = Since.sent r (Since-trans a b)
  Since-trans a (slept ms b) = Since.slept ms (Since-trans a b)

  -- An act that changes the world in no other way, where it throws too.
  pub record Moves {A : Type 0} (act : Run World A) : Type 0 where
    pub at : (s : Script World) → Since s.world (act s).1.world

  pub Moves-pure : {A : Type 0} (a : A) → Moves (pure a)
  unfolding pure
  Moves-pure a = record { at = λ s. Since.here }

  pub Moves-read : {A : Type 0} (f : World → Ran A) → Moves (read f)
  unfolding read
  Moves-read f = record { at = λ s. Since.here }

  pub Moves-ok : Moves ok
  unfolding ok
  Moves-ok = record { at = λ s. Since.here }

  pub Moves-fail : Moves fail
  unfolding fail
  Moves-fail = record { at = λ s. Since.here }

  pub Moves-check : (b : Bool) → Moves (check b)
  unfolding check
  Moves-check true = Moves-ok
  Moves-check false = Moves-fail

  answered_lem : (r : World × Sent) (s : Script World) → (answered cluster r s).1.world ≡ r.0
  answered_lem (w, confirmed sig) s = refl
  answered_lem (w, refused e) s = refl

  pub Moves-request : (r : Request) → Moves (request cluster r)
  unfolding request
  Moves-request r = record {
    at = λ s.
        subst (λ w. Since s.world w) (sym (answered_lem (send r s.world) s))
          (Since.sent r Since.here);
  }

  pub Moves-clock : Moves (clock cluster)
  unfolding clock
  Moves-clock = record { at = λ s. Since.here }

  pub Moves-pause : (ms : ℕ) → Moves (pause cluster ms)
  unfolding pause
  Moves-pause ms = record { at = λ s. Since.slept ms Since.here }

  module _ {A B : Type 0} where
    continued_lem :
        (w : World) (r : Ran A) (s : Script World) (f : A → Run World B)
        → Since w s.world
        → ((a : A) → Moves (f a))
        → Since w (((λ t. (r, s)) >>= f) s).1.world
    unfolding ◌>>=◌
    continued_lem w (done a) s f h hf = Since-trans h ((hf a).at s)
    continued_lem w (threw e) s f h hf = h

    -- What follows an act moves the world on from where the act left it.
    pub Since-bind :
        (act : Run World A) (f : A → Run World B) (s : Script World)
        → ((a : A) → Moves (f a))
        → Since (act s).1.world ((act >>= f) s).1.world
    unfolding ◌>>=◌
    Since-bind act f s hf = let (r, s') = act s in continued_lem s'.world r s' f Since.here hf

    pub Moves-bind :
        (act : Run World A) (f : A → Run World B)
        → Moves act
        → ((a : A) → Moves (f a))
        → Moves (act >>= f)
    unfolding ◌>>=◌
    Moves-bind act f h hf = record {
      at = λ s. let (r, s') = act s in continued_lem s.world r s' f (h.at s) hf;
    }

  refused_lem :
      (r : World × Sent) (s : Script World) → (must_refuse (answered cluster r) s).1.world ≡ r.0
  unfolding must_refuse ok fail
  refused_lem (w, confirmed sig) s = refl
  refused_lem (w, refused e) s = refl

  pub Moves-must_refuse : (r : Request) → Moves (must_refuse (request cluster r))
  unfolding must_refuse request
  Moves-must_refuse r = record {
    at = λ s.
        subst (λ w. Since s.world w) (sym (refused_lem (send r s.world) s))
          (Since.sent r Since.here);
  }

  pub ruleset moves = (
    Moves-pure, Moves-read, Moves-ok, Moves-check, Moves-request, Moves-clock, Moves-pause,
    Moves-bind, Moves-must_refuse,
  )
