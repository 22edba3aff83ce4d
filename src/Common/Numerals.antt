-- ===== src/Common/Numerals.antt =====
-- Texts of digits: their sizes, their first characters and zeros at their ends.
use Prim.Native.Nat.{ℕ, zero, suc, ◌+◌, ◌-◌, ◌*◌, ◌/◌, ◌%◌, ◌^◌, ◌<◌, ◌≤◌}
use Prim.Native.Char.{code}
use Prim.Native.String.{String, ◌++◌}
use mathlib.Core.Path.{◌≡◌, refl, sym, ap, ◌∙◌}
use mathlib.Core.Logic.{inl, inr}
use mathlib.Core.Bool.{true, ◌&&◌}
use native.Mathlib.Omega.{arith}
use native.Mathlib.Nat.{
  zero-add, suc-add, pow-suc, mul_assoc, mul_comm, mul-le-mul_right, mul-add-div_right,
  div-lt_iff_lt-mul, div-eq_of_lt, one-le-pow, add-mul,
}
use native.Mathlib.Numerals.{unary_clauses}
use text.Mathlib.TextLemmas.{nil-append, cons-append}
use router_pulse_depin_proto.Common.Tests.{ltb, leb, Bool-cases}
use router_pulse_depin_proto.Common.Decimal.{
  digit, digits_of, show, read_from, read_from-append, read, digits_only, all_digits,
}

-- The length of a text, of characters that are one UTF-16 unit each.
unfoldable pub size : String → ℕ
size String.[] = 0
size (String.◌∷◌ c s) = suc (size s)

-- `"0".repeat(n)`.
unfoldable pub zeros : ℕ → String
zeros zero = String.[]
zeros (suc n) = String.◌∷◌ "0" (zeros n)

-- `s.slice(0, n)`.
unfoldable pub prefix : ℕ → String → String
prefix zero s = String.[]
prefix (suc n) String.[] = String.[]
prefix (suc n) (String.◌∷◌ c s) = String.◌∷◌ c (prefix n s)

unfoldable pub suffix : ℕ → String → String
suffix zero s = s
suffix (suc n) String.[] = String.[]
suffix (suc n) (String.◌∷◌ c s) = suffix n s

pub size-append : (s t : String) → size (s ++ t) ≡ size s + size t
unfolding size
size-append String.[] t = rw nil-append (omega arith)
size-append (String.◌∷◌ c s) t = rw cons-append (omega (arith, size-append s t))

pub size-zeros : (n : ℕ) → size (zeros n) ≡ n
unfolding size zeros
size-zeros zero = refl
size-zeros (suc n) = ap suc (size-zeros n)

pub zeros-add : (m n : ℕ) → zeros (m + n) ≡ zeros m ++ zeros n
unfolding zeros
zeros-add zero n = rw (nil-append, zero-add n) refl
zeros-add (suc m) n = rw (cons-append, suc-add m n) (ap (λ s. String.◌∷◌ "0" s) (zeros-add m n))

pub prefix-suffix : (n : ℕ) (s : String) → s ≡ prefix n s ++ suffix n s
unfolding prefix suffix
prefix-suffix zero s = sym (nil-append _)
prefix-suffix (suc n) String.[] = sym (nil-append _)
prefix-suffix (suc n) (String.◌∷◌ c s) =
    rw cons-append (ap (λ u. String.◌∷◌ c u) (prefix-suffix n s))

pub prefix-append :
    (n : ℕ) (s t : String) → size s ≤ n → prefix n (s ++ t) ≡ s ++ prefix (n - size s) t
unfolding prefix size
prefix-append n String.[] t h = simp (nil-append, unary_clauses)
prefix-append zero (String.◌∷◌ c s) t h = absurd (omega arith)
prefix-append (suc n) (String.◌∷◌ c s) t h =
    simp (cons-append, unary_clauses, prefix-append n s t (omega arith))

pub prefix-zeros : (m n : ℕ) → m ≤ n → prefix m (zeros n) ≡ zeros m
unfolding prefix zeros
prefix-zeros zero n h = refl
prefix-zeros (suc m) zero h = absurd (omega arith)
prefix-zeros (suc m) (suc n) h = rw (prefix-zeros m n (omega arith)) refl

pub size-suffix : (n : ℕ) (s : String) → size (suffix n s) ≡ size s - n
unfolding size suffix
size-suffix zero s = omega arith
size-suffix (suc n) String.[] = omega arith
size-suffix (suc n) (String.◌∷◌ c s) = omega (arith, size-suffix n s)

pub digits_only-append : (s t : String) → digits_only (s ++ t) ≡ (digits_only s && digits_only t)
unfolding digits_only
digits_only-append String.[] t = rw nil-append refl
digits_only-append (String.◌∷◌ c s) t = rw cons-append (ground (arith, digits_only-append s t))

pub digits_only-zeros : (n : ℕ) → digits_only (zeros n) ≡ true
unfolding digits_only zeros
digits_only-zeros zero = refl
digits_only-zeros (suc n) = digits_only-zeros n

pub digits_only-prefix :
    (n : ℕ) (s : String) → digits_only s ≡ true → digits_only (prefix n s) ≡ true
unfolding digits_only prefix
digits_only-prefix zero s h = refl
digits_only-prefix (suc n) String.[] h = refl
digits_only-prefix (suc n) (String.◌∷◌ c s) h = ground (arith, digits_only-prefix n s)

shifted : (a d p : ℕ) → (a * 10 + d) * p ≡ a * (p * 10) + d * p
shifted a d p = rw (add-mul (a * 10) d p, mul_assoc a 10 p, mul_comm 10 p) refl

pub digits_only-suffix :
    (n : ℕ) (s : String) → digits_only s ≡ true → digits_only (suffix n s) ≡ true
unfolding digits_only suffix
digits_only-suffix zero s h = h
digits_only-suffix (suc n) String.[] h = refl
digits_only-suffix (suc n) (String.◌∷◌ c s) h = digits_only-suffix n s (ground arith)

pub read_from-shift : (acc : ℕ) (s : String) → read_from acc s ≡ acc * 10 ^ size s + read_from 0 s
unfolding read_from size
read_from-shift acc String.[] = omega arith
read_from-shift acc (String.◌∷◌ c s) =
    let d = code c - 48 in
    rw (read_from-shift (acc * 10 + d) s, read_from-shift (0 * 10 + d) s, pow-suc 10 (size s))
      (omega (arith, shifted acc d (10 ^ size s)))

pub read_from-zeros : (acc n : ℕ) → read_from acc (zeros n) ≡ acc * 10 ^ n
unfolding read_from zeros
read_from-zeros acc zero = omega arith
read_from-zeros acc (suc n) =
    rw (read_from-zeros (acc * 10 + 0) n, pow-suc 10 n) (omega (arith, shifted acc 0 (10 ^ n)))

pub read_from-digits :
    (acc : ℕ) (s : String)
    → digits_only s ≡ true
    → read_from acc s < acc * 10 ^ size s + 10 ^ size s
unfolding digits_only read_from size
read_from-digits acc String.[] h = omega arith
read_from-digits acc (String.◌∷◌ c s) h =
    let d = code c - 48 in
    let small : d ≤ 9 = ground arith in
    let inner = read_from-digits (acc * 10 + d) s (ground arith) in
    let at_most = mul-le-mul_right (10 ^ size s) small in
    rw (pow-suc 10 (size s)) (omega (arith, inner, shifted acc d (10 ^ size s), at_most))

digit-is_digit : (n : ℕ) → (leb b'0' (code (digit n)) && leb (code (digit n)) b'9') ≡ true
digit-is_digit zero = refl
digit-is_digit (suc zero) = refl
digit-is_digit (suc (suc zero)) = refl
digit-is_digit (suc (suc (suc zero))) = refl
digit-is_digit (suc (suc (suc (suc zero)))) = refl
digit-is_digit (suc (suc (suc (suc (suc zero))))) = refl
digit-is_digit (suc (suc (suc (suc (suc (suc zero)))))) = refl
digit-is_digit (suc (suc (suc (suc (suc (suc (suc zero))))))) = refl
digit-is_digit (suc (suc (suc (suc (suc (suc (suc (suc zero)))))))) = refl
digit-is_digit (suc (suc (suc (suc (suc (suc (suc (suc (suc n))))))))) = refl

one_digit : (n : ℕ) → digits_only (String.◌∷◌ (digit n) String.[]) ≡ true
unfolding digits_only
one_digit n = ground (arith, digit-is_digit n)

digits_only-digits_of : (fuel n : ℕ) → digits_only (digits_of fuel n) ≡ true
unfolding digits_of
digits_only-digits_of zero n = unfold digits_only in refl
digits_only-digits_of (suc fuel) n = elim (Bool-cases (ltb n 10)) [
  | inl e ↦ rw e (one_digit n)
  | inr e ↦ rw (e, digits_only-append, digits_only-digits_of fuel (n / 10), one_digit (n % 10)) refl
]

pub digits_only-show : (n : ℕ) → digits_only (show n) ≡ true
unfolding show
digits_only-show n = digits_only-digits_of (suc n) n

size-digits_of : (fuel k n : ℕ) → n < 10 ^ suc k → size (digits_of fuel n) ≤ suc k
unfolding digits_of size
size-digits_of zero k n h = omega arith
size-digits_of (suc fuel) zero n h = ground arith
size-digits_of (suc fuel) (suc k) n h = elim (Bool-cases (ltb n 10)) [
  | inl e ↦ rw e (omega arith)
  | inr e ↦
      let shorter =
        size-digits_of fuel k (n / 10)
          ((div-lt_iff_lt-mul (omega arith)).1 (rw (sym (pow-suc 10 (suc k))) h)) in
      rw (e, size-append) (omega (arith, shorter))
]

pub size-show : (k n : ℕ) → n < 10 ^ suc k → size (show n) ≤ suc k
unfolding show
size-show k n h = size-digits_of (suc n) k n h

-- The first digits of a number are a quotient.
pub read-prefix :
    (p m : ℕ) (s : String)
    → digits_only s ≡ true
    → size s ≡ p + m
    → read (prefix p s) ≡ read s / 10 ^ m
unfolding read
read-prefix p m s h e =
    let rest = suffix p s in
    let length : size rest ≡ m = omega (arith, size-suffix p s) in
    let whole : read s ≡ read_from 0 (prefix p s) * 10 ^ m + read_from 0 rest =
      ap (read_from 0) (prefix-suffix p s)
      ∙ read_from-append 0 (prefix p s) rest
      ∙ read_from-shift (read_from 0 (prefix p s)) rest
      ∙ ap (λ k. read_from 0 (prefix p s) * 10 ^ k + read_from 0 rest) length in
    let small : read_from 0 rest < 10 ^ m =
      rw (sym length) (omega (arith, read_from-digits 0 rest (digits_only-suffix p s h))) in
    rw
      (
        whole,
        mul-add-div_right (one-le-pow m 10 (omega arith)) (read_from 0 (prefix p s))
            (read_from 0 rest),
        div-eq_of_lt small,
      )
      (omega arith)

pub size-show-positive : (n : ℕ) → 1 ≤ size (show n)
unfolding show digits_of size
size-show-positive n = elim (Bool-cases (ltb n 10)) [
  | inl e ↦ rw e (omega arith)
  | inr e ↦ rw (e, size-append) (omega arith)
]

pub all_digits_of : (s : String) → digits_only s ≡ true → 1 ≤ size s → all_digits s ≡ true
unfolding all_digits size
all_digits_of String.[] h k = absurd (omega arith)
all_digits_of (String.◌∷◌ c s) h k = h

pub all_digits-show : (n : ℕ) → all_digits (show n) ≡ true
all_digits-show n = all_digits_of (show n) (digits_only-show n) (size-show-positive n)

pub size-prefix : (n : ℕ) (s : String) → n ≤ size s → size (prefix n s) ≡ n
unfolding size prefix
size-prefix zero s h = refl
size-prefix (suc n) String.[] h = absurd (omega arith)
size-prefix (suc n) (String.◌∷◌ c s) h = omega (arith, size-prefix n s)
