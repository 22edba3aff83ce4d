-- ===== src/Web/UseTx.antt =====
-- web/src/lib/useTx.ts: the phases of a transaction, and the words for its errors.
pub mod Phases
use Prim.Native.Char.{code}
use router_pulse_depin_proto.Common.{
  ℕ, zero, suc, ◌==◌, ◌||◌, String, Bool, true, false, Option, none, some, List, [], ◌∷◌,
  if◌then◌else◌,
}
use router_pulse_depin_proto.Indexer.Retry.{includes}

pub data TxPhase : Type 0 where
  idle building signing confirming confirmed error : TxPhase

pub record TxState : Type 0 where
  pub phase : TxPhase
  pub signature : Option String
  pub message : Option String

abbrev pub in_phase : TxPhase → Option String → TxState
in_phase phase signature = record { phase = phase; signature = signature; message = none }

-- The table of program errors, in its order.
abbrev pub known : List (String × String)
known =
    ("InsufficientStake", "This router needs collateral before it can activate.")
    ∷ ("StakeLocked", "Collateral is still inside its lock period.")
    ∷ (
      "UnstakeBelowMinimum",
      "An active router must stay above the minimum stake — decommission it first.",
    )
    ∷ ("EpochNotFinalized", "That epoch hasn't been finalized yet.")
    ∷ ("EpochAlreadyClaimed", "That epoch's reward has already been claimed.")
    ∷ ("NothingVested", "Nothing new has vested yet — wait for the cliff or for more time to pass.")
    ∷ ("ProtocolPaused", "The protocol is paused.")
    ∷ ("RouterIdTooLong", "Router ID must be 32 characters or fewer.")
    ∷ ("RouterIdEmpty", "Router ID can't be empty.")
    ∷ ("InvalidLatitude", "Latitude must be between -90 and 90.")
    ∷ ("InvalidLongitude", "Longitude must be between -180 and 180.")
    ∷ ("GenesisAllocationExhausted", "The genesis allocation is used up.")
    ∷ []

unfoldable pub first_known : List (String × String) → String → Option String
first_known [] raw = none
first_known ((name, text) ∷ rest) raw =
    let later = first_known rest raw in if includes raw name then some text else later

-- `raw.split("\n")[0].slice(0, 200)`, of characters that are one UTF-16 unit each.
unfoldable pub first_line : ℕ → String → String
first_line zero s = String.[]
first_line (suc n) String.[] = String.[]
first_line (suc n) (String.◌∷◌ c s) =
    let rest = first_line n s in if code c == 10 then String.[] else String.◌∷◌ c rest

-- `busy`, of a state.
unfoldable pub busy : TxPhase → Bool
busy building = true
busy signing = true
busy confirming = true
busy idle = false
busy confirmed = false
busy error = false

-- `lower` is `toLowerCase`; the tests of the code ignore case.
module _ (lower : String → String) where
  abbrev last_words : String → String
  last_words raw =
      if includes (lower raw) "already in use"
      then "That router ID is already registered to this wallet."
      else if includes (lower raw) "insufficient lamports"
          || includes (lower raw) "attempt to debit"
      then "Not enough SOL to cover the transaction fee."
      else first_line 200 raw

  abbrev known_or : Option String → String → String
  known_or none raw = last_words raw
  known_or (some text) raw = text

  unfoldable pub humanize : String → String
  unfolding first_known first_line
  humanize raw =
      if includes (lower raw) "user rejected" || includes (lower raw) "rejected the request"
      then "You rejected the request in your wallet."
      else known_or (first_known known raw) raw

  abbrev failed_with : String → TxState
  failed_with raw = record { phase = error; signature = none; message = some (humanize raw) }

  -- After `send`: `refreshed` is the message of a throw of `onDone`, or none.
  abbrev after_send : String → Option String → List TxState × Option String
  after_send sig none =
      (in_phase confirming (some sig) ∷ in_phase confirmed (some sig) ∷ [], some sig)
  after_send sig (some raw) = (in_phase confirming (some sig) ∷ failed_with raw ∷ [], none)

  abbrev sent_or : Option String → Option String → String → List TxState × Option String
  sent_or (some sig) refreshed raw = after_send sig refreshed
  sent_or none refreshed raw = (failed_with raw ∷ [], none)

  -- `run`: the states that are set, in order, and the result. `sent` is the signature that `send`
  -- resolves to, or none with the message `raw` where it throws.
  unfoldable pub run : Option String → Option String → String → List TxState × Option String
  run sent refreshed raw =
      let (states, result) = sent_or sent refreshed raw in
      (in_phase building none ∷ in_phase signing none ∷ states, result)
