-- ===== src/Web/Format/RoundTrip.antt =====
-- What `formatTokens` of web/src/lib/api.ts prints for an amount, read again by `toBaseUnits` of
-- web/src/components/RouterActions.tsx.
use Prim.Native.String.{◌++◌}
use native.Mathlib.Nat.{
  add-zero, mul-one, zero-div, zero-mul, pow-suc, add-suc, mul_assoc, one-le-pow, mul-add-div_right,
  add-mul,
}
use mathlib.Core.Path.{subst}
use router_pulse_depin_proto.Common.{
  ℕ, zero, suc, ◌+◌, ◌-◌, ◌*◌, ◌/◌, ◌%◌, ◌^◌, ◌<◌, ◌≤◌, ◌==◌, String, true, some, List, ◌∷◌, ==_iff,
  ◌≡◌, refl, sym, ap, ◌∙◌, arith, Bool-cases, inl, inr,
}
use router_pulse_depin_proto.Common.Int.{ℤ, pos, ◌+ℤ◌, ◌*ℤ◌}
use router_pulse_depin_proto.Common.Decimal.{
  show, read, read-show, read_from-append, all_digits, digits_only,
}
use router_pulse_depin_proto.Common.Numerals.{
  size, zeros, prefix, digits_only-show, digits_only-prefix, digits_only-append, digits_only-zeros,
  all_digits-show, all_digits_of, size-prefix, size-append, size-zeros, size-show, read_from-zeros,
}
use router_pulse_depin_proto.Web.Fetch.{Outcome, returned}
use router_pulse_depin_proto.Web.Format.{
  is_space, is_0, strip_end, split_dot, or_zero, base_units, to_base_units, of_parts, with_fraction,
  split_value, of_raw, format_tokens, pad_start,
}
use router_pulse_depin_proto.Web.Format.Texts.{
  lacks, lacks-append, trim_start-lacks, strip_end-lacks, split_dot-lacks, split_dot-append,
  digits-no_space, digits-no_dot, padded-read,
}

tokens_and_rest : (n r : ℕ) → pos n *ℤ pos 1000000000 +ℤ pos r ≡ pos (n * 1000000000 + r)
unfolding ◌+ℤ◌ ◌*ℤ◌
tokens_and_rest n r = ground arith

or_zero-digits : (s : String) → all_digits s ≡ true → or_zero s ≡ s
unfolding all_digits
or_zero-digits String.[] h = cc
or_zero-digits (String.◌∷◌ c s) h = refl

module _ (bn : String → Outcome ℤ)
    (bn_reads : (s : String) → all_digits s ≡ true → bn s ≡ returned (pos (read s))) where
  bn-or_zero : (s : String) → all_digits s ≡ true → bn (or_zero s) ≡ returned (pos (read s))
  bn-or_zero s h = ap bn (or_zero-digits s h) ∙ bn_reads s h

  padded_digits : (g : String) → digits_only g ≡ true → all_digits (prefix 9 (g ++ zeros 9)) ≡ true
  padded_digits g h =
      let long = size-append g (zeros 9) in
      all_digits_of _
        (digits_only-prefix 9 _
          (digits_only-append g (zeros 9) ∙ ground (arith, h, digits_only-zeros 9)))
        (omega (arith, long, size-zeros 9, size-prefix 9 (g ++ zeros 9)))

  base_units-digits :
      (n : ℕ) (g : String)
      → digits_only g ≡ true
      → base_units bn (show n) g ≡ returned (pos (n * 1000000000 + read (prefix 9 (g ++ zeros 9))))
  base_units-digits n g h =
      rw (bn-or_zero (show n) (all_digits-show n), bn-or_zero _ (padded_digits g h), read-show)
        (ap returned (tokens_and_rest n _))

  read_text :
      (s : String) (parts : List String)
      → lacks is_space s ≡ true
      → split_dot s ≡ parts
      → to_base_units bn s ≡ of_parts bn parts
  unfolding to_base_units
  read_text s parts h e = rw (trim_start-lacks s h, strip_end-lacks is_space s h, e) refl

  module _ (locale : ℤ → String) (locale_small : (n : ℕ) → n < 1000 → locale (pos n) ≡ show n) where
    to_base_units-with_fraction :
        (n : ℕ) (g : String)
        → n < 1000
        → digits_only g ≡ true
        → to_base_units bn (with_fraction locale (pos n) g)
          ≡ returned (pos (n * 1000000000 + read (prefix 9 (g ++ zeros 9))))
    to_base_units-with_fraction n String.[] hn h =
        ap (to_base_units bn) (locale_small n hn)
        ∙ read_text (show n) _ (digits-no_space _ (digits_only-show n))
            (split_dot-lacks _ (digits-no_dot _ (digits_only-show n)))
        ∙ base_units-digits n String.[] h
    to_base_units-with_fraction n (String.◌∷◌ c g) hn h =
        ap (λ t. to_base_units bn (t ++ "." ++ String.◌∷◌ c g)) (locale_small n hn)
        ∙ read_text (show n ++ "." ++ String.◌∷◌ c g) _
            (rw
              (
                lacks-append,
                lacks-append,
                digits-no_space _ (digits_only-show n),
                digits-no_space _ h,
              )
              (unfold lacks in refl))
            (split_dot-append (show n) _ (digits-no_dot _ (digits_only-show n))
              ∙ ap (λ parts. show n ∷ parts) (split_dot-lacks _ (digits-no_dot _ h)))
        ∙ base_units-digits n (String.◌∷◌ c g) h

pow-add : (m n : ℕ) → 10 ^ (m + n) ≡ 10 ^ m * 10 ^ n
pow-add m zero = rw (add-zero m) (sym (mul-one (10 ^ m)))
pow-add m (suc n) = rw (add-suc m n, pow-suc, pow-suc, pow-add m n) (mul_assoc _ _ _)

multiples : (x f a m : ℕ) → 1 ≤ m → (x * (a * m) + f) / m * m ≡ x * (a * m) + f / m * m
multiples x f a m h = rw (sym (mul_assoc x a m), mul-add-div_right h (x * a) f, add-mul) refl

-- Rounding down to `p` decimals leaves the whole tokens alone.
rounded :
    (p v : ℕ)
    → p ≤ 9
    → v / 10 ^ (9 - p) * 10 ^ (9 - p)
      ≡ v / 1000000000 * 1000000000 + v % 1000000000 / 10 ^ (9 - p) * 10 ^ (9 - p)
rounded p v hp =
    let exponent : 9 ≡ p + (9 - p) = omega arith in
    let powers : 1000000000 ≡ 10 ^ p * 10 ^ (9 - p) =
      ap (λ k. 10 ^ k) exponent ∙ pow-add p (9 - p) in
    let parts : v ≡ v / 1000000000 * 1000000000 + v % 1000000000 = omega arith in
    ap (λ u. u / 10 ^ (9 - p) * 10 ^ (9 - p)) parts
    ∙ subst
        (λ b.
          (v / 1000000000 * b + v % 1000000000) / 10 ^ (9 - p) * 10 ^ (9 - p)
          ≡ v / 1000000000 * b + v % 1000000000 / 10 ^ (9 - p) * 10 ^ (9 - p))
        (sym powers)
        (multiples (v / 1000000000) (v % 1000000000) (10 ^ p) (10 ^ (9 - p))
          (one-le-pow (9 - p) 10 (omega arith)))

of_raw-digits :
    (locale : ℤ → String) (d p : ℕ) (s : String)
    → all_digits s ≡ true
    → of_raw locale d p s ≡ split_value locale d p (pos (read s))
unfolding all_digits
of_raw-digits locale d p String.[] h = absurd (cc)
of_raw-digits locale d p (String.◌∷◌ c s) h = rw h refl

module _ (bn : String → Outcome ℤ)
    (bn_reads : (s : String) → all_digits s ≡ true → bn s ≡ returned (pos (read s)))
    (locale : ℤ → String) (locale_small : (n : ℕ) → n < 1000 → locale (pos n) ≡ show n) where
  size-padded : (f : ℕ) → f < 1000000000 → size (pad_start 9 (show f)) ≡ 9
  size-padded f h = omega (
    arith,
    size-append (zeros (9 - size (show f))) (show f),
    size-zeros (9 - size (show f)),
    size-show 8 f h,
  )

  digits_only-strip_end :
      (s : String) → digits_only s ≡ true → digits_only (strip_end is_0 s) ≡ true
  unfolding digits_only strip_end
  digits_only-strip_end String.[] h = refl
  digits_only-strip_end (String.◌∷◌ c s) h = ground (arith, digits_only-strip_end s)

  digits_only-padded : (f : ℕ) → digits_only (pad_start 9 (show f)) ≡ true
  digits_only-padded f = rw (digits_only-append, digits_only-zeros, digits_only-show) refl

  read-padded : (f : ℕ) → read (pad_start 9 (show f)) ≡ f
  unfolding read
  read-padded f = rw (read_from-append, read_from-zeros, zero-mul) (read-show f)

  no_fraction : read (prefix 9 ("" ++ zeros 9)) ≡ 0
  unfolding read prefix zeros
  no_fraction = refl

  to_base_units-split_value :
      (p v : ℕ)
      → p ≤ 9
      → v < 1000000000000
      → to_base_units bn (split_value locale 9 p (pos v))
        ≡ returned (pos (v / 10 ^ (9 - p) * 10 ^ (9 - p)))
  to_base_units-split_value p v hp hv = elim (Bool-cases (v % 1000000000 == 0)) [
    | inl e ↦
        let exact : v % 1000000000 ≡ 0 = (==_iff (v % 1000000000) 0).0 e in
        rw e (
          to_base_units-with_fraction bn bn_reads locale locale_small (v / 1000000000) String.[]
            (omega arith) (unfold digits_only in refl)
          ∙ ap (λ k. returned (pos k))
              (rw (no_fraction, rounded p v hp, exact, zero-div, zero-mul) refl))
    | inr e ↦
        let s = pad_start 9 (show (v % 1000000000)) in
        let digits : digits_only (prefix p s) ≡ true =
          digits_only-prefix p s (digits_only-padded (v % 1000000000)) in
        rw e (
          to_base_units-with_fraction bn bn_reads locale locale_small (v / 1000000000)
            (strip_end is_0 (prefix p s)) (omega arith) (digits_only-strip_end _ digits)
          ∙ ap (λ k. returned (pos (v / 1000000000 * 1000000000 + k)))
              (padded-read p s hp (digits_only-padded (v % 1000000000))
                  (size-padded (v % 1000000000) (omega arith))
                ∙ ap (λ k. k / 10 ^ (9 - p) * 10 ^ (9 - p)) (read-padded (v % 1000000000)))
          ∙ ap (λ k. returned (pos k)) (sym (rounded p v hp)))
  ]

  -- An amount below a thousand tokens that is printed with at most nine decimals and read again is
  -- the amount rounded down to that many decimals: with nine of them it is the amount itself, and no
  -- amount is read as a larger one. This is for a `BN` that reads numerals in decimal and a locale
  -- that prints numbers below a thousand as numerals.
  pub to_base_units-format_tokens :
      (p v : ℕ)
      → p ≤ 9
      → v < 1000000000000
      → to_base_units bn (format_tokens locale 9 p (some (show v)))
        ≡ returned (pos (v / 10 ^ (9 - p) * 10 ^ (9 - p)))
  unfolding format_tokens
  to_base_units-format_tokens p v hp hv =
      ap (to_base_units bn) (of_raw-digits locale 9 p (show v) (all_digits-show v))
      ∙ ap (λ n. to_base_units bn (split_value locale 9 p (pos n))) (read-show v)
      ∙ to_base_units-split_value p v hp hv
