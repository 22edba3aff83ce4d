-- ===== src/Api/Protocol/Epochs.antt =====
-- The current epoch covers the present second.
use native.Mathlib.Nat.{div-mul-le_self, lt-div-mul-add}
use router_pulse_depin_proto.Common.{
  ℕ, ◌+◌, ◌*◌, ◌-◌, ◌≤◌, ◌<◌, false, ◌≡◌, refl, arith, leb, Bool-cases, inl, inr,
}
use router_pulse_depin_proto.Common.Int.{
  ℤ, pos, pos_part, neg_part, sub_ℕ, ◌+ℤ◌, ◌-ℤ◌, ◌*ℤ◌, ◌≤ℤ◌, ◌<ℤ◌, leb_ℤ,
}
use router_pulse_depin_proto.Api.Protocol.{current_epoch, current_epoch_number}

pos_part-sub : (a b : ℕ) → pos_part (sub_ℕ a b) ≡ a - b
pos_part-sub a b = ground arith

neg_part-sub : (a b : ℕ) → neg_part (sub_ℕ a b) ≡ b - a
neg_part-sub a b = ground arith

scaled : (n d : ℕ) → pos n *ℤ pos d ≡ pos (n * d)
unfolding ◌*ℤ◌
scaled n d =
    let up : n * d + 0 * 0 ≡ n * d = omega arith in
    let down : n * 0 + 0 * d ≡ 0 = omega arith in rw (up, down) (zero_down (n * d))
  where
    zero_down : (a : ℕ) → sub_ℕ a 0 ≡ pos a
    zero_down a = ground arith

-- An epoch that contains a second, and what is left of it.
pub record Covers (start finish now : ℤ) (remaining : ℤ) (duration : ℕ) : Type 0 where
  pub begun : start ≤ℤ now
  pub not_over : now <ℤ finish
  pub something_left : pos 0 <ℤ remaining
  pub at_most : remaining ≤ℤ pos duration
  pub lasting : finish ≤ℤ now +ℤ remaining
  pub no_longer : now +ℤ remaining ≤ℤ finish

-- The value of a sum and of a difference, by its two parts.
abbrev IsParts : ℤ → ℕ → ℕ → Type 0
IsParts z p n = (pos_part z ≡ p - n) × (neg_part z ≡ n - p)

IsParts-add : (a b : ℤ) → IsParts (a +ℤ b) (pos_part a + pos_part b) (neg_part a + neg_part b)
unfolding ◌+ℤ◌
IsParts-add a b = (pos_part-sub _ _, neg_part-sub _ _)

IsParts-minus : (a b : ℤ) → IsParts (a -ℤ b) (pos_part a + neg_part b) (neg_part a + pos_part b)
unfolding ◌-ℤ◌
IsParts-minus a b = (pos_part-sub _ _, neg_part-sub _ _)

-- Where a number of durations reaches up to a second and one more goes beyond it.
placed :
    (genesis now : ℤ) (d q : ℕ)
    → pos_part genesis + q * d + neg_part now ≤ pos_part now + neg_part genesis
    → pos_part now + neg_part genesis < pos_part genesis + q * d + d + neg_part now
    → let start = genesis +ℤ pos (q * d) in
      let finish = start +ℤ pos d in Covers start finish now (pos (pos_part (finish -ℤ now))) d
placed genesis now d q low high =
    let start = genesis +ℤ pos (q * d) in
    let finish = start +ℤ pos d in
    let left = finish -ℤ now in
    let at_start = IsParts-add genesis (pos (q * d)) in
    let at_finish = IsParts-add start (pos d) in
    let at_left = IsParts-minus finish now in
    let at_sum = IsParts-add now (pos (pos_part left)) in
    record {
      begun = omega (arith, at_start.0, at_start.1);
      not_over = omega (arith, at_start.0, at_start.1, at_finish.0, at_finish.1);
      something_left =
          omega (arith, at_start.0, at_start.1, at_finish.0, at_finish.1, at_left.0, at_left.1);
      at_most =
          omega (arith, at_start.0, at_start.1, at_finish.0, at_finish.1, at_left.0, at_left.1);
      lasting = omega (
        arith, at_start.0, at_start.1, at_finish.0, at_finish.1, at_left.0, at_left.1, at_sum.0,
        at_sum.1,
      );
      no_longer = omega (
        arith, at_start.0, at_start.1, at_finish.0, at_finish.1, at_left.0, at_left.1, at_sum.0,
        at_sum.1,
      );
    }

number_bounds :
    (genesis now : ℤ) (d : ℕ)
    → 0 < d
    → genesis ≤ℤ now
    → let q = current_epoch_number genesis (pos d) now in
      (pos_part genesis + q * d + neg_part now ≤ pos_part now + neg_part genesis)
      × (pos_part now + neg_part genesis < pos_part genesis + q * d + d + neg_part now)
unfolding current_epoch_number
number_bounds genesis now d positive since =
    let some_length : leb (d + 0) 0 ≡ false = ground arith in
    elim (Bool-cases (leb_ℤ now genesis)) [
      | inl early ↦
          let at_most : pos_part now + neg_part genesis ≤ pos_part genesis + neg_part now =
            ground arith in
          rw early (omega arith, omega arith)
      | inr later ↦
          let gap = pos_part (now -ℤ genesis) in
          let floor = div-mul-le_self gap d in
          let ceiling = lt-div-mul-add {a = gap} positive in
          let size = IsParts-minus now genesis in
          rw (later, some_length) (omega (arith, floor, size.0), omega (arith, ceiling, size.0))
    ]

covered :
    (genesis now : ℤ) (d q : ℕ)
    → pos_part genesis + q * d + neg_part now ≤ pos_part now + neg_part genesis
    → pos_part now + neg_part genesis < pos_part genesis + q * d + d + neg_part now
    → let start = genesis +ℤ pos q *ℤ pos d in
      let finish = start +ℤ pos d in Covers start finish now (pos (pos_part (finish -ℤ now))) d
covered genesis now d q low high = rw (scaled q d) (placed genesis now d q low high)

-- From the genesis on, with a positive duration, the epoch that the API reports has begun and is not
-- over, the seconds remaining are at least 1, at most the duration, and lead up to its end exactly;
-- its number is the one that the simulator computes.
pub current_epoch-Covers :
    (genesis now : ℤ) (d : ℕ)
    → 0 < d
    → genesis ≤ℤ now
    → let epoch = current_epoch genesis (pos d) now in
      Covers epoch.start epoch.finish now epoch.remaining d
      × (epoch.number ≡ current_epoch_number genesis (pos d) now)
unfolding current_epoch current_epoch_number
current_epoch-Covers genesis now d positive since =
    let bounds = number_bounds genesis now d positive since in
    (covered genesis now d (current_epoch_number genesis (pos d) now) bounds.0 bounds.1, refl)
