-- ===== src/Api/Protocol.antt =====
-- api/src/protocol/protocol.service.ts, and simulator/src/config.ts, which computes the same epoch
-- number for its transactions.
pub mod Epochs
pub mod Served
use router_pulse_depin_proto.Common.{ℕ, ◌+◌, ◌*◌, ◌/◌, Bool, ◌||◌, if◌then◌else◌}
use router_pulse_depin_proto.Common.Int.{
  ℤ, pos, negsuc, pos_part, neg_part, sub_ℕ, ◌+ℤ◌, ◌-ℤ◌, ◌*ℤ◌, leb_ℤ,
}

pub record Epoch : Type 0 where
  pub number : ℕ
  pub start : ℤ
  pub finish : ℤ
  pub remaining : ℤ

-- `Math.floor((now - genesis) / duration)`, reached for positive operands only.
abbrev pub whole_epochs : ℤ → ℤ → ℤ → ℕ
whole_epochs genesis duration now = pos_part (now -ℤ genesis) / pos_part duration

-- `ProtocolService.currentEpoch`, at the second `now`.
unfoldable pub current_epoch : ℤ → ℤ → ℤ → Epoch
current_epoch genesis duration now =
    let number =
      if leb_ℤ now genesis || leb_ℤ duration (pos 0)
      then 0
      else whole_epochs genesis duration now in
    let start = genesis +ℤ pos number *ℤ duration in
    let finish = start +ℤ duration in
    record {
      number = number;
      start = start;
      finish = finish;
      remaining = pos (pos_part (finish -ℤ now));
    }

-- `currentEpochNumber` of the simulator.
unfoldable pub current_epoch_number : ℤ → ℤ → ℤ → ℕ
current_epoch_number genesis duration now =
    if leb_ℤ now genesis || leb_ℤ duration (pos 0) then 0 else whole_epochs genesis duration now
