-- ===== src/Api/Pagination/Limits.antt =====
-- The range of `clampLimit`.
use native.Mathlib.Nat.{pow-suc, mod-lt, div-add-mod, div-eq_of_lt}
use router_pulse_depin_proto.Common.{
  ℕ, zero, suc, ◌*◌, ◌/◌, ◌^◌, ◌≤◌, ◌<◌, ◌≡◌, ◌↔◌, sym, ap, arith,
}
use router_pulse_depin_proto.Common.Int.{pos, negsuc}
use router_pulse_depin_proto.Api.Pagination.{Number, nan, infinity, binary, clamp_limit}

-- A number above 0 and below 1.
abbrev pub IsProperFraction : Number → Type 0
IsProperFraction (binary (pos m) e) = (0 < m) × (m < 2 ^ e)
IsProperFraction _ = ⊥

pow_pos : (e : ℕ) → 0 < 2 ^ e
pow_pos zero = omega arith
pow_pos (suc e) = rw pow-suc (omega (arith, pow_pos e))

below_one : (m q : ℕ) → 0 < q → m / q ≡ 0 → m < q
below_one m q h z = omega (arith, mod-lt m h, sym (div-add-mod m q), ap (λ (d : ℕ). q * d) z)

zero_below : (m q : ℕ) → m < q → m / q ≡ 0
zero_below m q h = div-eq_of_lt h

-- With a fallback and a maximum above 0, `clampLimit` is 0 exactly for the numbers strictly between
-- 0 and 1, and it never exceeds the larger of the two.
pub clamp_limit_range :
    (fallback most : ℕ) (n : Number)
    → 0 < fallback
    → 0 < most
    → fallback ≤ most
    → ((clamp_limit fallback most n ≡ 0) ↔ IsProperFraction n)
      × (clamp_limit fallback most n ≤ most)
unfolding clamp_limit
clamp_limit_range fallback most nan f h k = ground arith
clamp_limit_range fallback most (infinity b) f h k = ground arith
clamp_limit_range fallback most (binary (negsuc m) e) f h k = ground arith
clamp_limit_range fallback most (binary (pos m) e) f h k = (
  (
    λ z. (ground arith, below_one m (2 ^ e) (pow_pos e) (ground arith)),
    λ (p, q). let z = zero_below m (2 ^ e) q in ground arith,
  ),
  ground arith,
)
