-- ===== src/Common/Decimal.antt =====
-- Numbers as JavaScript prints them: `String(n)` and `${n}` of a whole number that is not negative.
use Prim.Native.Nat.{ℕ, zero, suc, ◌+◌, ◌-◌, ◌*◌, ◌/◌, ◌%◌, ◌<◌}
use Prim.Native.Char.{Char, code}
use Prim.Native.String.{String, ◌++◌}
use mathlib.Core.Path.{◌≡◌, refl, sym, ap, ◌∙◌}
use mathlib.Core.Logic.{inl, inr}
use mathlib.Core.Bool.{Bool, true, false, ◌&&◌}
use native.Mathlib.Omega.{arith}
use text.Mathlib.TextLemmas.{nil-append, cons-append}
use router_pulse_depin_proto.Common.Tests.{ltb, leb, if◌then◌else◌, Bool-cases}

abbrev pub digit : ℕ → Char
digit zero = "0"
digit (suc zero) = "1"
digit (suc (suc zero)) = "2"
digit (suc (suc (suc zero))) = "3"
digit (suc (suc (suc (suc zero)))) = "4"
digit (suc (suc (suc (suc (suc zero))))) = "5"
digit (suc (suc (suc (suc (suc (suc zero)))))) = "6"
digit (suc (suc (suc (suc (suc (suc (suc zero))))))) = "7"
digit (suc (suc (suc (suc (suc (suc (suc (suc zero)))))))) = "8"
digit (suc (suc (suc (suc (suc (suc (suc (suc (suc n))))))))) = "9"

unfoldable pub digits_of : ℕ → ℕ → String
digits_of zero n = String.[]
digits_of (suc fuel) n =
    let higher = digits_of fuel (n / 10) in
    if ltb n 10
    then String.◌∷◌ (digit n) String.[]
    else higher ++ String.◌∷◌ (digit (n % 10)) String.[]

-- A number has at most as many digits as its successor.
unfoldable pub show : ℕ → String
unfolding digits_of
show n = digits_of (suc n) n

unfoldable pub read_from : ℕ → String → ℕ
read_from acc String.[] = acc
read_from acc (String.◌∷◌ c s) = read_from (acc * 10 + (code c - 48)) s

-- The number that a run of digits stands for.
unfoldable pub read : String → ℕ
unfolding read_from
read s = read_from 0 s

-- A run of at least one digit.
unfoldable pub digits_only : String → Bool
digits_only String.[] = true
digits_only (String.◌∷◌ c s) = leb b'0' (code c) && leb (code c) b'9' && digits_only s

unfoldable pub all_digits : String → Bool
unfolding digits_only
all_digits String.[] = false
all_digits (String.◌∷◌ c s) = digits_only (String.◌∷◌ c s)

pub read_from-append :
    (acc : ℕ) (s t : String) → read_from acc (s ++ t) ≡ read_from (read_from acc s) t
unfolding read_from
read_from-append acc String.[] t = rw nil-append
read_from-append acc (String.◌∷◌ c s) t =
    rw cons-append (read_from-append (acc * 10 + (code c - 48)) s t)

digit-code : (n : ℕ) → n < 10 → code (digit n) - 48 ≡ n
digit-code zero h = refl
digit-code (suc zero) h = refl
digit-code (suc (suc zero)) h = refl
digit-code (suc (suc (suc zero))) h = refl
digit-code (suc (suc (suc (suc zero)))) h = refl
digit-code (suc (suc (suc (suc (suc zero))))) h = refl
digit-code (suc (suc (suc (suc (suc (suc zero)))))) h = refl
digit-code (suc (suc (suc (suc (suc (suc (suc zero))))))) h = refl
digit-code (suc (suc (suc (suc (suc (suc (suc (suc zero)))))))) h = refl
digit-code (suc (suc (suc (suc (suc (suc (suc (suc (suc n))))))))) h = omega arith

read_digits : (fuel n : ℕ) → n < fuel → read_from 0 (digits_of fuel n) ≡ n
unfolding digits_of read_from
read_digits zero n h = elim h [ ]
read_digits (suc fuel) n h = elim (Bool-cases (ltb n 10)) [
  | inl small ↦ rw small (omega (arith, digit-code n (ground arith)))
  | inr large ↦
      rw (large, read_from-append 0 (digits_of fuel (n / 10)))
        (omega (arith, digit-code (n % 10) (omega arith), read_digits fuel (n / 10) (ground arith)))
]

pub read-show : (n : ℕ) → read (show n) ≡ n
unfolding read show
read-show n = read_digits (suc n) n (omega arith)

pub show_injective : (m n : ℕ) → show m ≡ show n → m ≡ n
show_injective m n h = sym (read-show m) ∙ ap read h ∙ read-show n

show_test : show 1207 ≡ "1207"
unfolding show
show_test = refl
