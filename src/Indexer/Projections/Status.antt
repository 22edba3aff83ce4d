-- ===== src/Indexer/Projections/Status.antt =====
-- The status and the heartbeat count that the projection keeps of a router.
use mathlib.Core.Path.{subst}
use mathlib.Core.Option
use router_pulse_depin_proto.Common.{
  some_inj, ℕ, String, Bool, true, false, Option, none, some, List, [], ◌∷◌, ◌≡◌, refl, ◌∙◌,
  if◌then◌else◌,
}
use router_pulse_depin_proto.Js.{Value, str, prop, same_id}
use router_pulse_depin_proto.Mongo.{Mongo, routers}
use router_pulse_depin_proto.Mongo.Laws.{Write, IsPlain, overlay, field_at, field_at-run_writes}
use router_pulse_depin_proto.Indexer.EventParser.{DecodedEvent}
use router_pulse_depin_proto.Indexer.Projections.{
  event_writes, write_all, apply_event_to_projections,
}
use router_pulse_depin_proto.Indexer.Projections.Names.{
  EventName, event_name, router_registered, device_key_rotated, heartbeat_received,
  router_suspended, penalty_applied, reward_claimed, router_slashed, router_reinstated,
  router_decommissioned, collateral_staked, collateral_unstaked, other,
}

-- The status that an event puts its router in.
abbrev pub status_of : EventName → Option String
status_of router_registered = some "inactive"
status_of heartbeat_received = some "active"
status_of router_suspended = some "suspended"
status_of router_reinstated = some "active"
status_of router_decommissioned = some "decommissioned"
status_of _ = none

-- The router that a status event is about: by its address, or by its owner and id.
abbrev pub subject : (Value → Value → Option Value) → EventName → Value → Option Value
subject router_pda router_reinstated d = some (prop "router" d)
subject router_pda router_decommissioned d = some (prop "router" d)
subject router_pda n d = router_pda (prop "owner" d) (prop "router_id" d)

-- The status of a router after an event about `about`.
abbrev pub next_status : Option String → Option Value → Value → Option Value → Option Value
next_status (some status) (some router) r old = if same_id router r then some (str status) else old
next_status _ _ r old = old

module _ (s : Option String) (about : Option Value) (r : Value) (old : Option Value) where
  abbrev OptStatus : Option (List Write) → Type 0
  OptStatus none = Unit
  OptStatus (some ws) =
      IsPlain "status" ws × (overlay ws routers r "status" old ≡ next_status s about r old)

each_status :
    (s : Option String) (o : Option Value) (r : Value) (old : Option Value) (w : Value → Write)
    → ((x : Value)
        → IsPlain "status" (w x ∷ [])
          × (overlay (w x ∷ []) routers r "status" old ≡ next_status s (some x) r old))
    → OptStatus s o r old (Option.map (λ x. w x ∷ []) o)
each_status s none r old w h = tt
each_status s (some x) r old w h = h x

kept : (b : Bool) (old : Option Value) → (if b then old else old) ≡ old
kept true old = refl
kept false old = refl

module _ (router_pda : Value → Value → Option Value) (d : Value) (now : ℕ) (r : Value)
    (old : Option Value) where
  status_step :
      (n : EventName)
      → OptStatus (status_of n) (subject router_pda n d) r old (event_writes router_pda n now d)
  unfolding event_writes
  status_step router_registered =
      each_status (some "inactive") _ r old _ (λ x. ((refl, refl, tt), refl))
  status_step heartbeat_received =
      each_status (some "active") _ r old _ (λ x. ((refl, refl, tt), refl))
  status_step router_suspended =
      each_status (some "suspended") _ r old _ (λ x. ((refl, refl, tt), refl))
  status_step device_key_rotated = each_status none _ r old _ (λ x. ((refl, refl, tt), kept _ old))
  status_step penalty_applied = each_status none _ r old _ (λ x. ((refl, refl, tt), kept _ old))
  status_step reward_claimed = each_status none _ r old _ (λ x. ((refl, refl, tt), refl))
  status_step router_reinstated = ((refl, refl, tt), refl)
  status_step router_decommissioned = ((refl, refl, tt), refl)
  status_step router_slashed = ((refl, refl, (refl, refl, tt)), kept _ old)
  status_step other = (tt, refl)
  status_step collateral_staked = ((refl, refl, tt), kept _ old)
  status_step collateral_unstaked = ((refl, refl, tt), kept _ old)
  status_step _ = ((refl, refl, tt), refl)

module _ (m : Mongo) (s : Option String) (about : Option Value) (r : Value) where
  write_status :
      (o : Option (List Write)) (db db1 : m.Db)
      → OptStatus s about r (field_at m routers r "status" db) o
      → write_all m o db ≡ some db1
      → field_at m routers r "status" db1 ≡ next_status s about r (field_at m routers r "status" db)
  write_status none db db1 h e = cc
  write_status (some ws) db db1 (p, q) e =
      subst
        (λ (x : m.Db).
          field_at m routers r "status" x
          ≡ next_status s about r (field_at m routers r "status" db))
        (some_inj e) (field_at-run_writes m ws routers r "status" db p ∙ q)

-- Where an event is applied, every router's status is the one that the event puts its own router
-- in, and stays for every other router and after every event that is not about a status.
pub apply_event-status :
    (router_pda : Value → Value → Option Value) (m : Mongo) (event : DecodedEvent) (now : ℕ)
    (r : Value) (db db1 : m.Db)
    → apply_event_to_projections router_pda m now event db ≡ some db1
    → let n = event_name event.name in
      field_at m routers r "status" db1
      ≡ next_status
          (status_of n)
          (subject router_pda n event.fields)
          r
          (field_at m routers r "status" db)
unfolding apply_event_to_projections
apply_event-status router_pda m event now r db db1 e =
    let n = event_name event.name in
    write_status m (status_of n) (subject router_pda n event.fields) r
      (event_writes router_pda n now event.fields) db db1
      (status_step router_pda event.fields now r (field_at m routers r "status" db) n) e
