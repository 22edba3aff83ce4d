-- ===== src/Web/Operator.antt =====
-- web/src/components/RouterActions.tsx and RegisterRouter.tsx: the transactions of an operator.
pub mod Sends
use router_pulse_depin_proto.Common.{
  ℕ, String, Bool, true, false, Option, none, some, List, [], ◌∷◌, ◌&&◌, not, str_eq, if◌then◌else◌,
}
use router_pulse_depin_proto.Common.Int.{ℤ, pos}
use router_pulse_depin_proto.Web.Fetch.{Outcome, returned, raised, and_then}
use router_pulse_depin_proto.Web.Format.{to_base_units}
use router_pulse_depin_proto.Web.UseTx.{TxState, run}

-- The instructions, with the arguments that the page gives them. Keys are read as numbers.
pub data Call : Type 0 where
  create_token_account : Call
  stake unstake : (tokens : ℤ) → Call
  claim_reward claim_vested : (epoch : ℕ) → Call
  rotate_device_key : (key : ℕ) → Call
  register_router : (router_id : String) → (lat long : ℤ) → (key : ℕ) → Call

-- What an action comes to: the transactions that reach the RPC, the states that `useTx` shows, and
-- the signature that `run` returns.
pub record Action : Type 0 where
  pub sent : List (List Call)
  pub states : List TxState
  pub result : Option String

-- `err?.message ?? String(err)`, of an error.
abbrev pub raw_of : Option String → String
raw_of none = "Error"
raw_of (some message) = message

-- `lower` is `toLowerCase`, `bn` is `new BN` and `rpc` sends a transaction and waits for its
-- confirmation; `refreshed` is the message of a throw of `onDone`, or none.
module _ (lower : String → String) (bn : String → Outcome ℤ) (rpc : List Call → Outcome String)
    (refreshed : Option String) where
  abbrev pub ended : List (List Call) → List TxState × Option String → Action
  ended sent (states, result) = record { sent = sent; states = states; result = result }

  abbrev pub answered : List Call → Outcome String → Action
  answered calls (returned sig) = ended (calls ∷ []) (run lower (some sig) refreshed "")
  answered calls (raised e) = ended (calls ∷ []) (run lower none refreshed (raw_of e))

  -- `tx.run`, of a `send` that builds a transaction, which may throw, and calls `.rpc()`.
  abbrev pub run_with : Outcome (List Call) → Action
  run_with (returned calls) = answered calls (rpc calls)
  run_with (raised e) = ended [] (run lower none refreshed (raw_of e))

  -- `ix ? b.preInstructions([ix]) : b`, where `ataIx` gives an `ix` for a missing account.
  abbrev pub with_account : Bool → Call → List Call
  with_account exists call = if exists then call ∷ [] else create_token_account ∷ call ∷ []

  abbrev pub of_amount : Bool → String → (ℤ → Call) → Outcome (List Call)
  of_amount exists amount call =
      and_then (to_base_units bn amount) (λ n. returned (with_account exists (call n)))

  -- `account` is what `getAccountInfo` tells of the operator's token account; a throw of it leaves
  -- the action before `run`.
  unfoldable pub do_stake : Outcome Bool → String → Outcome Action
  do_stake account amount =
      and_then account (λ exists. returned (run_with (of_amount exists amount stake)))

  unfoldable pub do_unstake : Outcome Bool → String → Outcome Action
  do_unstake account amount =
      and_then account (λ exists. returned (run_with (of_amount exists amount unstake)))

  unfoldable pub do_claim : ℕ → Action
  do_claim epoch = run_with (returned (claim_reward epoch ∷ []))

  unfoldable pub do_vest : Outcome Bool → ℕ → Outcome Action
  do_vest account epoch =
      and_then account
        (λ exists. returned (run_with (returned (with_account exists (claim_vested epoch)))))

  -- `if (sig) setRotated(next)`: a signature is not empty.
  abbrev pub kept_key : ℕ → Option String → Option ℕ → Option ℕ
  kept_key next none rotated = rotated
  kept_key next (some sig) rotated = some next

  -- `doRotate`, with the key that `Keypair.generate` gives and the key that is shown before: the
  -- action, and the key that is shown after it.
  unfoldable pub do_rotate : ℕ → Option ℕ → Action × Option ℕ
  do_rotate next rotated =
      let action = run_with (returned (rotate_device_key next ∷ [])) in
      (action, kept_key next action.result rotated)

  -- `submit` of RegisterRouter: `parse_degrees` is `Math.round(parseFloat(s) * 1_000_000)`, none for
  -- `NaN`, of which `new BN` throws inside `send`.
  abbrev coordinates : Option ℤ → Option ℤ → (ℤ → ℤ → Call) → Outcome (List Call)
  coordinates (some lat) (some long) call = returned (call lat long ∷ [])
  coordinates _ _ call = raised (some "Invalid character")

  unfoldable pub submit :
      (String → Option ℤ) → String → String → String → ℕ → Option ℕ → Action × Option ℕ
  submit parse_degrees router_id lat long next device =
      let action = run_with (
        coordinates (parse_degrees lat) (parse_degrees long)
          (λ x y. register_router router_id x y next)) in
      (action, kept_key next action.result device)

-- The fields of an epoch that the page reads.
pub record Epoch : Type 0 where
  pub epoch_number : ℕ
  pub finalized : Bool
  pub claimed : Bool
  pub reward_amount : Option String

-- `e.rewardAmount && e.rewardAmount !== "0"`.
abbrev has_reward : Option String → Bool
has_reward none = false
has_reward (some String.[]) = false
has_reward (some (String.◌∷◌ c s)) = not (str_eq (String.◌∷◌ c s) "0")

abbrev pub filter {ℓ} : {A : Type ℓ} → (A → Bool) → List A → List A
filter p [] = []
filter p (x ∷ xs) = let rest = filter p xs in if p x then x ∷ rest else rest

unfoldable pub claimable : List Epoch → List Epoch
claimable = filter (λ e. e.finalized && not e.claimed && has_reward e.reward_amount)

unfoldable pub vesting : List Epoch → List Epoch
vesting = filter (λ e. e.claimed)
