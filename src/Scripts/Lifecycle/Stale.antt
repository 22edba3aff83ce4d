-- ===== src/Scripts/Lifecycle/Stale.antt =====
-- What full-lifecycle.ts does not test: its last two heartbeats are for an epoch that is over.
use mathlib.Core.Path.{fun_ext}
use native.Mathlib.Nat.{le_trans}
use router_pulse_depin_proto.Common.{
  ℕ, ◌+◌, ◌-◌, ◌*◌, ◌/◌, ◌≤◌, ◌<◌, ◌==◌, ◌&&◌, ◌≡◌, ◌≢◌, refl, sym, ap, ◌∙◌, String, leb,
  if◌then◌else◌, arith,
}
use router_pulse_depin_proto.Scripts.Cluster.{
  Request, heartbeat, rotate_device_key, pause_protocol, ProtocolState, RouterState, EpochRecord,
  done, Sent, confirmed, refused, Cluster, wait_ms,
}
use router_pulse_depin_proto.Scripts.Checks.{
  Script, Run, ◌>>=◌, ◌>>◌, read, must_refuse, answered, request, clock, pause, ok, fail,
  wait_for_end, Ending,
}
use router_pulse_depin_proto.Scripts.Checks.Sequence.{bind_assoc, bind_assoc_twice, check_lem}
use router_pulse_depin_proto.Scripts.Checks.Moves.{Since, Since-bind, Moves, moves}
use router_pulse_depin_proto.Scripts.Lifecycle.{
  Cast, old_key_check, pause_check, finalization, claims, vesting, slashing, recovery, resumed,
  governance, withdrawal, reconciliation, after_uptime,
}

-- The clock goes forward, and the program takes a heartbeat only for the epoch that its own clock
-- is in (`WrongEpochNumber` of heartbeat.rs), which is at most three seconds behind.
pub record IsTimely (cluster : Cluster) (p : ProtocolState) : Type 0 where
  pub sends : (r : Request) (w : cluster.World) → cluster.now w ≤ cluster.now (cluster.send r w).0
  pub sleeps :
      (ms : ℕ) (w : cluster.World) → cluster.now w + ms / 1000 ≤ cluster.now (cluster.sleep ms w)
  pub current :
      (router device epoch : ℕ) (w : cluster.World) (sig : String)
      → (cluster.send (heartbeat router device epoch) w).1 ≡ confirmed sig
      → cluster.now w < p.genesis_time + (epoch + 1) * p.epoch_duration + 3

module _ (cluster : Cluster) (p : ProtocolState) (cast : Cast) where
  -- The acts of the script from the end of the epoch to the slash.
  abbrev pub until_slashed : ℕ → Run cluster.World Unit
  until_slashed e = do
    of_bad ← finalization cluster cast p e
    claims cluster cast e
    vesting cluster cast e
    slashing cluster cast e of_bad

module _ (cluster : Cluster) (p : ProtocolState) (timely : IsTimely cluster p) where
  later : {v w : cluster.World} → Since cluster v w → cluster.now v ≤ cluster.now w
  later Since.here = omega arith
  later (Since.sent {v} r h) = omega (arith, later h, timely.sends r v)
  later (Since.slept {v} ms h) = omega (arith, later h, timely.sleeps ms v)

  -- The end of the epoch, with the margin of the script.
  abbrev closed_at : ℕ → ℕ
  closed_at e = p.genesis_time + (e + 1) * p.epoch_duration + 3

  wait_lem : (a t : ℕ) → a ≤ t + (a - t) * 1000 / 1000
  wait_lem a t = omega arith

  waited :
      (e : ℕ) (s : Script cluster.World)
      → closed_at e ≤ cluster.now (wait_for_end cluster p e s).1.world
  unfolding wait_for_end ◌>>=◌ clock pause
  waited e s = omega (
    arith,
    wait_lem (closed_at e) (cluster.now s.world),
    timely.sleeps (wait_ms p e (cluster.now s.world)) s.world,
  )

  answered_lem :
      (r : cluster.World × Sent) (s : Script cluster.World)
      → ((sig : String) → r.1 ≢ confirmed sig)
      → must_refuse (answered cluster r) s
        ≡ (done tt, record s { world = r.0; passed = s.passed + 1 })
  unfolding must_refuse ok fail
  answered_lem (w, confirmed sig) s h = absurd (h sig refl)
  answered_lem (w, refused e) s h = refl

  -- After the end of an epoch.
  beat_refused :
      (router device e : ℕ) (s : Script cluster.World)
      → closed_at e ≤ cluster.now s.world
      → must_refuse (request cluster (heartbeat router device e)) s ≡ (
        done tt,
        record s {
          world = (cluster.send (heartbeat router device e) s.world).0;
          passed = s.passed + 1;
        },
      )
  unfolding must_refuse request
  beat_refused router device e s h =
      answered_lem (cluster.send (heartbeat router device e) s.world) s
        (λ sig same. absurd (omega (arith, timely.current router device e s.world sig same)))

  module _ (cast : Cast) where
    claims-Moves : (e : ℕ) → Moves cluster (claims cluster cast e)
    unfolding claims
    claims-Moves e = search moves depth 30

    vesting-Moves : (e : ℕ) → Moves cluster (vesting cluster cast e)
    unfolding vesting
    vesting-Moves e = search moves depth 30

    slashing-Moves : (e : ℕ) (r : EpochRecord) → Moves cluster (slashing cluster cast e r)
    unfolding slashing
    slashing-Moves e r = search moves depth 30

    finalization-Since :
        (e : ℕ) (s : Script cluster.World)
        → Since cluster
            (wait_for_end cluster p e s).1.world
            (finalization cluster cast p e s).1.world
    unfolding finalization
    finalization-Since e s =
        Since-bind cluster (wait_for_end cluster p e) _ s (λ waited. search moves depth 30)

    until_slashed-Since :
        (e : ℕ) (s : Script cluster.World)
        → Since cluster
            (finalization cluster cast p e s).1.world
            (until_slashed cluster p cast e s).1.world
    until_slashed-Since e s =
        Since-bind cluster (finalization cluster cast p e) _ s
          (λ of_bad. search (moves, claims-Moves, vesting-Moves, slashing-Moves) depth 30)

    closed-le :
        (e : ℕ) (s : Script cluster.World)
        → closed_at e ≤ cluster.now (until_slashed cluster p cast e s).1.world
    closed-le e s =
        omega (arith, waited e s, later (finalization-Since e s), later (until_slashed-Since e s))

module _ (cluster : Cluster) (p : ProtocolState) (cast : Cast) (epoch : ℕ) where
  -- What the script runs after the slash.
  abbrev after_slash : Run cluster.World Ending
  after_slash =
      recovery cluster cast epoch
      >> (governance cluster cast epoch >> (withdrawal cluster cast >> reconciliation cluster cast))

  after_uptime-until_slashed :
      after_uptime cluster cast p epoch ≡ (until_slashed cluster p cast epoch >> after_slash)
  unfolding after_uptime
  after_uptime-until_slashed =
      ap (λ f. finalization cluster cast p epoch >>= f)
        (fun_ext (λ of_bad. sym (
          bind_assoc_twice (claims cluster cast epoch) (vesting cluster cast epoch)
            (slashing cluster cast epoch of_bad) after_slash)))
      ∙ sym (
          bind_assoc (finalization cluster cast p epoch)
            (λ of_bad.
              claims cluster cast epoch
              >> (vesting cluster cast epoch >> slashing cluster cast epoch of_bad))
            (λ _. after_slash))

module _ (cluster : Cluster) (p : ProtocolState) (timely : IsTimely cluster p) (cast : Cast) (e : ℕ)
    (s : Script cluster.World) where
  -- The state after act 10, from a rotation that is confirmed.
  abbrev recovered : cluster.World → RouterState → Script cluster.World
  recovered rotated account =
      let is_new = account.device_pubkey == cast.replacement && leb 1 account.device_key_version in
      record {
        world = (cluster.send (heartbeat cast.good cast.good_device e) rotated).0;
        passed = (if is_new then s.passed + 1 else s.passed) + 1;
        failed = if is_new then s.failed else s.failed + 1;
      }

  recovery_lem :
      (rotated : cluster.World) (sig : String) (account : RouterState)
      → closed_at cluster p timely e ≤ cluster.now rotated
      → cluster.send (rotate_device_key cast.good cast.replacement) s.world
        ≡ (rotated, confirmed sig)
      → cluster.fetch_router cast.good rotated ≡ done account
      → recovery cluster cast e s ≡ (done tt, recovered rotated account)
  unfolding recovery old_key_check request read ◌>>=◌
  recovery_lem rotated sig account over hr hf =
      let is_new = account.device_pubkey == cast.replacement && leb 1 account.device_key_version in
      let after = record s { world = rotated } in
      rw (hr, hf, check_lem is_new after)
        (beat_refused cluster p timely cast.good cast.good_device e
          (record after {
            passed = if is_new then s.passed + 1 else s.passed;
            failed = if is_new then s.failed else s.failed + 1;
          })
          over)

  governance_lem :
      (paused : cluster.World) (sig : String)
      → closed_at cluster p timely e ≤ cluster.now paused
      → cluster.send pause_protocol s.world ≡ (paused, confirmed sig)
      → governance cluster cast e s
        ≡ resumed cluster cast (record s {
          world = (cluster.send (heartbeat cast.good cast.replacement e) paused).0;
          passed = s.passed + 1;
        })
  unfolding governance pause_check request ◌>>=◌
  governance_lem paused sig over hp =
      rw
        (
          hp,
          beat_refused cluster p timely cast.good cast.replacement e (record s { world = paused })
              over,
        )
        refl

-- Once the script has waited for the end of its epoch, finalized, claimed, vested and slashed, and
-- where the rotation is confirmed, the router can be fetched after it and the pause is confirmed: the
-- heartbeat with the old key and the heartbeat during the pause both count as passed, and the script goes on from there, whatever the
-- rotation and the pause have done to the cluster; of acts 10 and 11 up to there, only the check of
-- the fetched key may count as failed. This is for a clock that goes forward and a program that
-- refuses a heartbeat for an epoch that is over by its own clock, which is at most three seconds
-- behind the script's; it need not look at the key or at the pause.
pub stale_checks-pass :
    (cluster : Cluster) (p : ProtocolState)
    → IsTimely cluster p
    → (cast : Cast) (epoch : ℕ) (start s : Script cluster.World) (rotated paused : cluster.World)
      (rotation pausing : String) (account : RouterState)
    → until_slashed cluster p cast epoch start ≡ (done tt, s)
    → cluster.send (rotate_device_key cast.good cast.replacement) s.world
      ≡ (rotated, confirmed rotation)
    → cluster.fetch_router cast.good rotated ≡ done account
    → cluster.send pause_protocol
        (cluster.send (heartbeat cast.good cast.good_device epoch) rotated).0
      ≡ (paused, confirmed pausing)
    → let is_new = account.device_pubkey == cast.replacement && leb 1 account.device_key_version in
      after_uptime cluster cast p epoch start
      ≡ (resumed cluster cast >> (withdrawal cluster cast >> reconciliation cluster cast)) (record {
        world = (cluster.send (heartbeat cast.good cast.replacement epoch) paused).0;
        passed = (if is_new then s.passed + 1 else s.passed) + 1 + 1;
        failed = if is_new then s.failed else s.failed + 1;
      })
unfolding ◌>>=◌
stale_checks-pass cluster p timely cast e start s rotated paused sig1 sig2 account h hr hf hp =
    let slashed = closed-le cluster p timely cast e start in
    let over = rw h at slashed in
    let rotates = timely.sends (rotate_device_key cast.good cast.replacement) s.world in
    let over_rotated = le_trans over (rw hr at rotates) in
    let beaten = recovered cluster p timely cast e s rotated account in
    let pauses = timely.sends pause_protocol beaten.world in
    let beats_on = timely.sends (heartbeat cast.good cast.good_device e) rotated in
    let over_paused = le_trans (le_trans over_rotated beats_on) (rw hp at pauses) in
    ap (λ run. run start) (after_uptime-until_slashed cluster p cast e)
    ∙ rw
        (
          h,
          recovery_lem cluster p timely cast e s rotated sig1 account over_rotated hr hf,
          governance_lem cluster p timely cast e beaten paused sig2 over_paused hp,
        )
        refl
