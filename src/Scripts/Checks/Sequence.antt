-- ===== src/Scripts/Checks/Sequence.antt =====
-- How the parts of the checking scripts follow each other.
use mathlib.Core.Path.{fun_ext}
use router_pulse_depin_proto.Common.{◌+◌, ◌≡◌, refl, ap, ◌∙◌, Bool, true, false, if◌then◌else◌}
use router_pulse_depin_proto.Scripts.Cluster.{Ran, done, threw}
use router_pulse_depin_proto.Scripts.Checks.{Script, Run, ◌>>=◌, ◌>>◌, check, ok, fail}

module _ {W : Type 0} where
  continued-continued :
      {A B C : Type 0} (r : Ran A) (s : Script W) (f : A → Run W B) (g : B → Run W C)
      → ((λ u. (r, u)) >>= f >>= g) s ≡ ((λ u. (r, u)) >>= λ a. f a >>= g) s
  unfolding ◌>>=◌
  continued-continued (done a) s f g = refl
  continued-continued (threw e) s f g = refl

  pub bind_assoc :
      {A B C : Type 0} (m : Run W A) (f : A → Run W B) (g : B → Run W C)
      → (m >>= f >>= g) ≡ (m >>= λ a. f a >>= g)
  unfolding ◌>>=◌
  bind_assoc m f g = fun_ext (λ s. continued-continued (m s).0 (m s).1 f g)

  pub bind_assoc_twice :
      {A : Type 0} (k l m : Run W Unit) (rest : Run W A)
      → (k >> (l >> m) >> rest) ≡ (k >> (l >> (m >> rest)))
  bind_assoc_twice k l m rest =
      bind_assoc k (λ _. l >> m) (λ _. rest) ∙ ap (λ n. k >> n) (bind_assoc l (λ _. m) (λ _. rest))

  pub check_lem :
      (b : Bool) (s : Script W)
      → check b s ≡ (
        done tt,
        record s {
          passed = if b then s.passed + 1 else s.passed;
          failed = if b then s.failed else s.failed + 1;
        },
      )
  unfolding check ok fail
  check_lem true s = refl
  check_lem false s = refl
