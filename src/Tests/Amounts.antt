-- ===== src/Tests/Amounts.antt =====
-- Examples for amounts, for what an operator sends and for the feed.
use router_pulse_depin_proto.Common.{
  ℕ, String, true, false, none, some, List, [], ◌∷◌, ◌≡◌, ◌≤◌, ◌<◌, refl, arith, length,
  if◌then◌else◌,
}
use router_pulse_depin_proto.Common.Int.{ℤ, pos, ◌+ℤ◌, ◌*ℤ◌}
use router_pulse_depin_proto.Common.Decimal.{show, read, all_digits}
use router_pulse_depin_proto.Web.Fetch.{Outcome, returned, raised}
use router_pulse_depin_proto.Web.Format.{to_base_units, format_tokens}
use router_pulse_depin_proto.Web.Format.RoundTrip.{to_base_units-format_tokens}
use router_pulse_depin_proto.Web.UseTx.{TxPhase, in_phase}
use router_pulse_depin_proto.Web.Operator.{Call, stake, create_token_account, do_stake}
use router_pulse_depin_proto.Web.Operator.Sends.{do_stake-format_tokens}
use router_pulse_depin_proto.Web.Feed.{on_events, DistinctIds, on_events-IsFeed, score_meter}
use router_pulse_depin_proto.Tests.Fixtures.{print}

-- `new BN` of a numeral.
abbrev bn : String → Outcome ℤ
bn s = if all_digits s then returned (pos (read s)) else raised (some "Invalid character")

bn_reads : (s : String) → all_digits s ≡ true → bn s ≡ returned (pos (read s))
bn_reads s h = rw h refl

print_small : (n : ℕ) → n < 1000 → print (pos n) ≡ show n
print_small n h = refl

-- 12.345678912 tokens, displayed with four decimals.
to_base_units-format_tokens_example :
    to_base_units bn (format_tokens print 9 4 (some (show 12345678912)))
    ≡ returned (pos 12345600000)
to_base_units-format_tokens_example =
    to_base_units-format_tokens bn bn_reads print print_small 4 12345678912 (omega arith)
      (omega arith)

format_test : format_tokens print 9 4 (some "12345678912") ≡ "12.3456"
unfolding format_tokens
format_test = refl

base_units_test : to_base_units bn " 1.5 " ≡ returned (pos 1500000000)
unfolding to_base_units all_digits ◌+ℤ◌ ◌*ℤ◌ read
base_units_test = refl

abbrev rpc : List Call → Outcome String
rpc calls = returned "sig"

abbrev lower_of : String → String
lower_of s = s

do_stake-format_tokens_example :
    do_stake lower_of bn rpc none
      (returned false)
      (format_tokens print 9 4 (some (show 2500000000)))
    ≡ returned (record {
      sent = (create_token_account ∷ stake (pos 2500000000) ∷ []) ∷ [];
      states =
          in_phase TxPhase.building none
          ∷ in_phase TxPhase.signing none
          ∷ in_phase TxPhase.confirming (some "sig")
          ∷ in_phase TxPhase.confirmed (some "sig")
          ∷ [];
      result = some "sig";
    })
do_stake-format_tokens_example =
    do_stake-format_tokens lower_of bn rpc print 4 2500000000 false "sig" none bn_reads print_small
      (omega arith) (omega arith) refl

abbrev id_of : String → String
id_of s = s

on_events-IsFeed_example :
    DistinctIds id_of (on_events id_of ("b" ∷ "a" ∷ "b" ∷ []) ("a" ∷ []))
    × (length (on_events id_of ("b" ∷ "a" ∷ "b" ∷ []) ("a" ∷ [])) ≤ 50)
on_events-IsFeed_example =
    on_events-IsFeed id_of ("b" ∷ "a" ∷ "b" ∷ []) ("a" ∷ []) (tt, tt) (omega arith)

feed_test : on_events id_of ("b" ∷ "a" ∷ "b" ∷ []) ("a" ∷ []) ≡ "b" ∷ "a" ∷ []
unfolding on_events
feed_test = refl

meter_test : score_meter (pos 130) ≡ (100, "var(--ok)")
unfolding score_meter
meter_test = refl
