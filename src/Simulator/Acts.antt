-- ===== src/Simulator/Acts.antt =====
-- What the simulator and the scripts work on: the cluster as the program's client sees it, and the simulator's own
-- fields. An `Act` is a piece of async code: it ends with a value or a throw, and a new state.
use router_pulse_depin_proto.Common.{ℕ, String, Bool, Option, none, some, List, ◌∷◌}
use router_pulse_depin_proto.Common.Int.{ℤ}

-- The instructions that the simulator and the scripts send, with their amounts and epochs.
pub data Instruction : Type 0 where
  transfer : (lamports : ℕ) → Instruction
  create_token_account register_router : Instruction
  mint_genesis : (tokens : ℕ) → Instruction
  rotate_device_key : (key : ℕ) → Instruction
  stake : (tokens : ℕ) → Instruction
  heartbeat finalize_router_epoch slash_router claim_reward claim_vested : (epoch : ℕ) → Instruction

-- The fields that the simulator reads of the accounts.
pub record Protocol : Type 0 where
  pub genesis_time : ℤ
  pub epoch_duration : ℤ
  pub min_stake : ℕ

pub record Account : Type 0 where
  pub device_pubkey : Option ℕ
  pub staked_amount : ℕ

pub record RouterEpoch : Type 0 where
  pub finalized : Bool
  pub slash_amount : ℕ
  pub slashed : Bool
  pub reward_amount : ℕ
  pub claimed : Bool

-- A value, or a throw with its message.
pub data Ran {ℓ} (A : Type ℓ) : Type ℓ where
  done : A → Ran A
  threw : String → Ran A

-- The RPC connection and the program's client: reads may throw, and `send` gives the world after a
-- confirmed or failed transaction and the message of a failure.
pub record Program : Type 1 where
  pub World : Type 0
  pub balance : World → Ran ℕ
  pub router_exists : World → Ran Bool
  pub fetch_router : World → Ran Account
  pub fetch_protocol : World → Ran Protocol
  pub epoch_exists : ℕ → World → Ran Bool
  pub fetch_epoch : ℕ → World → Ran RouterEpoch
  pub vesting_exists : ℕ → World → Ran Bool
  pub token_balance : World → Ran ℕ
  pub heartbeat_interval : World → Ran ℕ
  pub send : Instruction → World → World × Option String

-- `confirmed` lists the instructions that went through, the latest first; the source keeps no such
-- list. The other fields are those of `RouterSimulator`.
pub record Sim (World : Type 0) : Type 0 where
  pub world : World
  pub confirmed : List Instruction
  pub running : Bool
  pub heartbeat_count : ℕ
  pub missed_count : ℕ
  pub last_finalized : Option ℕ

module _ (program : Program) where
  open program use {World, send}

  abbrev pub Act : Type 0 → Type 0
  Act A = Sim World → Ran A × Sim World

  abbrev pub pure : {A : Type 0} → A → Act A
  pure a s = (done a, s)

  abbrev pub throw : {A : Type 0} → String → Act A
  throw e s = (threw e, s)

  abbrev continued : {A B : Type 0} → Ran A × Sim World → (A → Act B) → Ran B × Sim World
  continued (done a, s) k = k a s
  continued (threw e, s) k = (threw e, s)

  -- `await`, then the rest.
  abbrev pub bind : {A B : Type 0} → Act A → (A → Act B) → Act B
  bind f k s = continued (f s) k

  abbrev handled : {A : Type 0} → Ran A × Sim World → (String → Act A) → Ran A × Sim World
  handled (done a, s) h = (done a, s)
  handled (threw e, s) h = h e s

  -- `try { … } catch (err) { … }`.
  abbrev pub caught : {A : Type 0} → Act A → (String → Act A) → Act A
  caught f h s = handled (f s) h

  abbrev pub read : {A : Type 0} → (World → Ran A) → Act A
  read f s = (f s.world, s)

  abbrev pub noted : Instruction → World × Option String → Act Unit
  noted i (w, none) s = (done tt, record s { world = w; confirmed = i ∷ s.confirmed })
  noted i (w, some e) s = (threw e, record s { world = w })

  -- `.rpc()`: sends an instruction and waits until it is confirmed.
  abbrev pub call : Instruction → Act Unit
  call i s = noted i (send i s.world) s
