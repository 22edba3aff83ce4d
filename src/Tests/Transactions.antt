-- ===== src/Tests/Transactions.antt =====
-- Examples for the web client's transactions.
use router_pulse_depin_proto.Common.{String, false, none, some, ◌≡◌}
use router_pulse_depin_proto.Web.UseTx.{idle, in_phase, run, busy}
use router_pulse_depin_proto.Web.UseTx.Phases.{final, Agrees, run-Agrees}

abbrev lower_of : String → String
lower_of s = s

run-Agrees_example :
    let outcome = run lower_of (some "sig") (some "fetch failed") "" in
    let last_state = final (in_phase idle none) outcome.0 in
    (busy last_state.phase ≡ false) × Agrees lower_of last_state outcome.1
run-Agrees_example = run-Agrees lower_of (some "sig") (some "fetch failed") ""
