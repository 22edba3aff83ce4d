-- ===== src/Simulator/Router/Counts.antt =====
-- The heartbeats that a simulator reports are the ones that the cluster confirmed.
use router_pulse_depin_proto.Common.{
  ℕ, zero, suc, ◌+◌, ◌&&◌, String, Bool, true, false, not, List, [], ◌∷◌, ◌≡◌, refl, arith, ltb,
  leb, ◌-◌, if◌then◌else◌, Bool-cases, inl, inr,
}
use router_pulse_depin_proto.Common.Int.{ℤ}
use router_pulse_depin_proto.Indexer.Retry.{includes}
use router_pulse_depin_proto.Api.Protocol.{current_epoch_number}
use router_pulse_depin_proto.Simulator.Acts.{
  Instruction, heartbeat, finalize_router_epoch, slash_router, claim_reward, claim_vested, stake,
  Ran, done, threw, Program, Sim, Act, pure, throw, bind, read, call, RouterEpoch, Protocol,
  Account,
}
use router_pulse_depin_proto.Simulator.Triples.{
  After, Keeps, bind-Triple, caught-Triple, read-Keeps, if-Triple, call-Triple,
}
use router_pulse_depin_proto.Simulator.Router.{
  collateral, ensure_staked, finalized_record, slash, claim, vest, settled, crank, is_settled,
  if_heartbeats, maybe_settle, counted, beat, recover, send_heartbeat, after_turn, run_turns, start,
  stopped,
}

abbrev is_beat : Instruction → ℕ
is_beat (heartbeat epoch) = 1
is_beat _ = 0

-- How many heartbeats a list of instructions holds.
unfoldable pub beats : List Instruction → ℕ
beats [] = 0
beats (i ∷ is) = is_beat i + beats is

module _ (program : Program) (device : ℕ) where
  -- Some number of confirmed heartbeats is not counted yet.
  abbrev Behind : ℕ → Sim program.World → Type 0
  Behind n s = s.heartbeat_count + n ≡ beats s.confirmed

  -- An instruction that is no heartbeat changes neither side.
  quiet-Keeps :
      (n : ℕ) (i : Instruction) → is_beat i ≡ 0 → Keeps program (Behind n) (call program i)
  unfolding beats
  quiet-Keeps n i e =
      call-Triple program (Behind n) (Behind n) (Behind n) i (λ s w h. omega (arith, h, e))
        (λ s w h. h)

  pure-Keeps : {A : Type 0} (n : ℕ) (a : A) → Keeps program (Behind n) (pure program a)
  pure-Keeps n a s h = h

  optional-Keeps :
      (b : Bool) (i : Instruction)
      → is_beat i ≡ 0
      → Keeps program (Behind 0) (if b then call program i else pure program tt)
  optional-Keeps b i e =
      if-Triple program (Behind 0) (Behind 0) (Behind 0) b (call program i) (pure program tt)
        (quiet-Keeps 0 i e) (pure-Keeps 0 tt)

  collateral-Keeps :
      (p : Protocol) (r : Account) → Keeps program (Behind 0) (collateral program device p r)
  collateral-Keeps p r =
      if-Triple program (Behind 0) (Behind 0) (Behind 0) (leb p.min_stake r.staked_amount)
        (pure program tt) (call program (stake (p.min_stake - r.staked_amount))) (pure-Keeps 0 tt)
        (quiet-Keeps 0 (stake (p.min_stake - r.staked_amount)) refl)

  choice :
      (b : Bool) (f g : Act program Bool)
      → Keeps program (Behind 0) f
      → Keeps program (Behind 0) g
      → Keeps program (Behind 0) (if b then f else g)
  choice b f g = if-Triple program (Behind 0) (Behind 0) (Behind 0) b f g

  -- A read, then an act that depends on it.
  after_read :
      {A B : Type 0} (f : program.World → Ran A) (k : A → Act program B)
      → ((a : A) → Keeps program (Behind 0) (k a))
      → Keeps program (Behind 0) (bind program (read program f) k)
  after_read f k h =
      bind-Triple program (Behind 0) (Behind 0) (Behind 0) (Behind 0) (read program f) k
        (read-Keeps program (Behind 0) f) h

  -- An act, then another.
  in_turn :
      {A B : Type 0} (f : Act program A) (k : A → Act program B)
      → Keeps program (Behind 0) f
      → ((a : A) → Keeps program (Behind 0) (k a))
      → Keeps program (Behind 0) (bind program f k)
  in_turn f k = bind-Triple program (Behind 0) (Behind 0) (Behind 0) (Behind 0) f k

  ensure_staked-Keeps : Keeps program (Behind 0) (ensure_staked program device)
  unfolding ensure_staked
  ensure_staked-Keeps =
      after_read program.fetch_protocol
        (λ p. bind program (read program program.fetch_router) (collateral program device p))
        (λ p. after_read program.fetch_router (collateral program device p) (collateral-Keeps p))

  finalized_record-Keeps :
      (n : ℕ) (e : RouterEpoch) → Keeps program (Behind 0) (finalized_record program device n e)
  finalized_record-Keeps n e =
      if-Triple program (Behind 0) (Behind 0) (Behind 0) e.finalized (pure program e)
        (bind program (call program (finalize_router_epoch n))
          (λ sent. read program (program.fetch_epoch n)))
        (pure-Keeps 0 e)
        (in_turn (call program (finalize_router_epoch n))
          (λ sent. read program (program.fetch_epoch n))
          (quiet-Keeps 0 (finalize_router_epoch n) refl)
          (λ sent. read-Keeps program (Behind 0) (program.fetch_epoch n)))

  vest-Keeps : (n : ℕ) (b : Bool) → Keeps program (Behind 0) (vest program device n b)
  vest-Keeps n false s h = h
  vest-Keeps n true s h =
      caught-Triple program (Behind 0) (Behind 0) (Behind 0) (Behind 0)
        (call program (claim_vested n))
        (λ e. if includes e "NothingVested" then pure program tt else throw program e)
        (quiet-Keeps 0 (claim_vested n) refl)
        (λ e.
          if-Triple program (Behind 0) (Behind 0) (Behind 0) (includes e "NothingVested")
            (pure program tt) (throw program e) (pure-Keeps 0 tt) (λ s h. h))
        s h

  crank-Keeps : (n : ℕ) → Keeps program (Behind 0) (crank program device n)
  unfolding crank
  crank-Keeps n = after_read (program.fetch_epoch n) _ (λ found.
      in_turn (finalized_record program device n found) _ (finalized_record-Keeps n found) (λ epoch.
        in_turn (slash program device n epoch) _
          (optional-Keeps (ltb 0 epoch.slash_amount && not epoch.slashed) (slash_router n) refl)
          (λ slashed.
            in_turn (claim program device n epoch) _
              (optional-Keeps (ltb 0 epoch.reward_amount && not epoch.claimed) (claim_reward n)
                refl)
              (λ claimed. after_read (program.vesting_exists n) _ (λ exists.
                in_turn (vest program device n exists) _ (vest-Keeps n exists)
                  (λ vested s h. h))))))

  if_heartbeats-Keeps :
      (n : ℕ) (b : Bool) → Keeps program (Behind 0) (if_heartbeats program device n b)
  if_heartbeats-Keeps n false s h = h
  if_heartbeats-Keeps n true s h =
      caught-Triple program (Behind 0) (Behind 0) (Behind 0) (Behind 0) (crank program device n)
        (λ e. pure program tt) (crank-Keeps n) (λ e. pure-Keeps 0 tt) s h

  maybe_settle-Keeps : (n : ℕ) → Keeps program (Behind 0) (maybe_settle program device n)
  unfolding maybe_settle
  maybe_settle-Keeps zero s h = h
  maybe_settle-Keeps (suc n) s h =
      elim (Bool-cases (is_settled program device n s.last_finalized)) [
        | inl settled ↦ rw settled h
        | inr open_epoch ↦ rw open_epoch (
            after_read (program.epoch_exists n) (if_heartbeats program device n)
              (if_heartbeats-Keeps n) s h)
      ]

  -- A confirmed heartbeat is counted at once.
  beat-Keeps : (now : ℤ) → Keeps program (Behind 0) (beat program device now)
  unfolding beat beats
  beat-Keeps now = after_read program.fetch_protocol _ (λ p.
      let epoch = current_epoch_number p.genesis_time p.epoch_duration now in
      bind-Triple program (Behind 0) (Behind 1) (Behind 0) (Behind 0)
        (call program (heartbeat epoch)) _
        (call-Triple program (Behind 0) (Behind 1) (Behind 0) (heartbeat epoch)
          (λ s w h. omega (arith, h)) (λ s w h. h))
        (λ sent.
          bind-Triple program (Behind 1) (Behind 0) (Behind 0) (Behind 0) (counted program device) _
            (λ s h. omega (arith, h))
            (λ beaten. after_read program.fetch_router _ (λ router.
              in_turn (maybe_settle program device epoch) (λ tried. pure program true)
                (maybe_settle-Keeps epoch) (λ tried. pure-Keeps 0 true)))))

  recover-Keeps : (e : String) → Keeps program (Behind 0) (recover program device e)
  unfolding recover
  recover-Keeps e =
      let ended = stopped program device in
      let on = pure program false in
      let topped = bind program (ensure_staked program device) (λ staked. pure program false) in
      let staked_keeps =
        in_turn (ensure_staked program device) (λ staked. pure program false) ensure_staked-Keeps
          (λ staked. pure-Keeps 0 false) in
      let last_if = if includes e "InsufficientStake" then topped else on in
      let third_if = if includes e "ProtocolPaused" then on else last_if in
      let second_if = if includes e "HeartbeatTooSoon" then on else third_if in
      choice (includes e "RouterSuspended") ended second_if (λ s h. h)
        (choice (includes e "HeartbeatTooSoon") on third_if (pure-Keeps 0 false) (
          choice (includes e "ProtocolPaused") on last_if (pure-Keeps 0 false)
            (choice (includes e "InsufficientStake") topped on staked_keeps (pure-Keeps 0 false))))

  send_heartbeat-Keeps :
      (unlucky : Bool) (now : ℤ)
      → Keeps program (Behind 0) (send_heartbeat program device unlucky now)
  unfolding send_heartbeat
  send_heartbeat-Keeps true now s h = h
  send_heartbeat-Keeps false now s h =
      caught-Triple program (Behind 0) (Behind 0) (Behind 0) (Behind 0) (beat program device now)
        (recover program device) (beat-Keeps now) recover-Keeps s h

  after_turn-Behind :
      (r : Ran Bool × Sim program.World)
      → After program (Behind 0) (Behind 0) r
      → Behind 0 (after_turn program device r)
  after_turn-Behind (done b, s) h = h
  after_turn-Behind (threw e, s) h = h

  either :
      (b : Bool) (s u : Sim program.World) → Behind 0 s → Behind 0 u → Behind 0 (if b then s else u)
  either true s u hs hu = hs
  either false s u hs hu = hu

  run_turns-Behind :
      (turns : List (Bool × ℤ)) (s : Sim program.World)
      → Behind 0 s
      → Behind 0 (run_turns program device turns s)
  unfolding run_turns
  run_turns-Behind [] s h = h
  run_turns-Behind ((unlucky, now) ∷ turns) s h =
      let next = after_turn program device (send_heartbeat program device unlucky now s) in
      let ih = run_turns-Behind turns next (
        after_turn-Behind (send_heartbeat program device unlucky now s)
          (send_heartbeat-Keeps unlucky now s h)) in
      either s.running (run_turns program device turns next) s ih h

-- The count that a simulator reports.
abbrev pub IsCounted : {World : Type 0} → Sim World → Type 0
IsCounted s = s.heartbeat_count ≡ beats s.confirmed

-- However the draws, the times and the cluster's answers fall, and whether or not settlements and
-- top-ups fail, the heartbeats that a simulator has counted after any number of turns of `start` are
-- the heartbeat transactions that were confirmed, if they were so before.
pub start-IsCounted :
    (program : Program) (device : ℕ) (turns : List (Bool × ℤ)) (s : Sim program.World)
    → IsCounted s
    → IsCounted (start program device turns s)
unfolding start
start-IsCounted program device turns s h =
    let before = record s { running = true } in
    let kept = run_turns-Behind program device turns before (omega (arith, h)) in
    omega (arith, kept)

-- Where the protocol account cannot be read, and the message is none of those that the catch block
-- names, a heartbeat that was to be sent ends with `false` and leaves all of the simulator as it was,
-- the count of missed heartbeats included.
pub send_heartbeat-unreachable :
    (program : Program) (device : ℕ) (now : ℤ) (e : String) (s : Sim program.World)
    → program.fetch_protocol s.world ≡ threw e
    → includes e "RouterSuspended" ≡ false
    → includes e "InsufficientStake" ≡ false
    → send_heartbeat program device false now s ≡ (done false, s)
unfolding send_heartbeat beat recover
send_heartbeat-unreachable program device now e s h hs hi =
    rw (h, hs, hi) (same (includes e "HeartbeatTooSoon") (includes e "ProtocolPaused"))
  where
    same :
        (a b : Bool)
        → (if a then pure program false else if b then pure program false else pure program false) s
          ≡ (done false, s)
    same true b = refl
    same false true = refl
    same false false = refl
