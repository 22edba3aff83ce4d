-- ===== src/Web/UseTx/Phases.antt =====
-- How a transaction ends.
use router_pulse_depin_proto.Common.{String, false, Option, none, some, List, [], ◌∷◌, ◌≡◌, refl}
use router_pulse_depin_proto.Web.UseTx.{TxState, confirmed, error, idle, in_phase, run, busy}

-- The last of a list of states.
unfoldable pub final : TxState → List TxState → TxState
final s [] = s
final s (u ∷ us) = final u us

-- What the state and the result of a finished run have to do with each other.
abbrev pub Agrees : (String → String) → TxState → Option String → Type 0
Agrees lower s none = (s.phase ≡ error) × (s.signature ≡ none)
Agrees lower s (some sig) = (s.phase ≡ confirmed) × (s.signature ≡ some sig) × (s.message ≡ none)

-- However `send` and `onDone` end, `run` ends in a state that is not busy, and the state agrees with
-- the result: confirmed with the signature that it returns, or an error without one where it returns
-- null.
pub run-Agrees :
    (lower : String → String) (sent refreshed : Option String) (raw : String)
    → let outcome = run lower sent refreshed raw in
      let last_state = final (in_phase idle none) outcome.0 in
      (busy last_state.phase ≡ false) × Agrees lower last_state outcome.1
unfolding run busy final
run-Agrees lower none refreshed raw = (refl, (refl, refl))
run-Agrees lower (some sig) none raw = (refl, (refl, refl, refl))
run-Agrees lower (some sig) (some e) raw = (refl, (refl, refl))
