-- ===== src/Indexer/Projections/Frame.antt =====
-- Projections write to the derived collections only.
use mathlib.Core.Option
use router_pulse_depin_proto.Common.{
  ℕ, ◌<◌, false, Option, none, some, List, [], ◌∷◌, ◌≡◌, ◌==◌, ap, sym, ◌∙◌, arith, All, some_inj,
}
use router_pulse_depin_proto.Js.{Value}
use router_pulse_depin_proto.Mongo.{Collection, Mongo, code}
use router_pulse_depin_proto.Mongo.Laws.{Write, find_one-run_writes}
use router_pulse_depin_proto.Indexer.EventParser.{DecodedEvent}
use router_pulse_depin_proto.Indexer.Projections.{
  event_writes, write_all, apply_event_to_projections,
}
use router_pulse_depin_proto.Indexer.Projections.Names.{
  EventName, event_name, router_registered, device_key_rotated, heartbeat_received,
  router_suspended, penalty_applied, reward_claimed, router_slashed, other,
}

abbrev Spares : Collection → Write → Type 0
Spares c w = (code w.collection == code c) ≡ false

abbrev OptSpares : Collection → Option (List Write) → Type 0
OptSpares c none = Unit
OptSpares c (some ws) = All (Spares c) ws

each-Spares :
    (c : Collection) (o : Option Value) (w : Value → Write)
    → ((r : Value) → Spares c (w r))
    → OptSpares c (Option.map (λ r. w r ∷ []) o)
each-Spares c none w h = tt
each-Spares c (some r) w h = (h r, tt)

differs : (k : ℕ) (c : Collection) → 2 < code c → k < 3 → (k == code c) ≡ false
differs k c h lt = ground arith

module _ (router_pda : Value → Value → Option Value) (d : Value) (now : ℕ) (c : Collection)
    (h : 2 < code c) where
  spares : (n : EventName) → OptSpares c (event_writes router_pda n now d)
  unfolding event_writes
  spares router_registered = each-Spares c _ _ (λ r. differs 0 c h (omega arith))
  spares device_key_rotated = each-Spares c _ _ (λ r. differs 0 c h (omega arith))
  spares heartbeat_received = each-Spares c _ _ (λ r. differs 0 c h (omega arith))
  spares router_suspended = each-Spares c _ _ (λ r. differs 0 c h (omega arith))
  spares penalty_applied = each-Spares c _ _ (λ r. differs 0 c h (omega arith))
  spares reward_claimed = each-Spares c _ _ (λ r. differs 1 c h (omega arith))
  spares router_slashed = (differs 0 c h (omega arith), (differs 1 c h (omega arith), tt))
  spares other = tt
  spares _ = (differs _ c h (omega arith), tt)

-- An event leaves `events`, `transactions` and `sync_cursors` as they were.
pub apply_event-elsewhere :
    (router_pda : Value → Value → Option Value) (m : Mongo) (event : DecodedEvent) (now : ℕ)
    (c : Collection) (i : Value) (db db1 : m.Db)
    → 2 < code c
    → apply_event_to_projections router_pda m now event db ≡ some db1
    → m.find_one c i db1 ≡ m.find_one c i db
unfolding apply_event_to_projections
apply_event-elsewhere router_pda m event now c i db db1 h e =
    go (event_writes router_pda (event_name event.name) now event.fields)
      (spares router_pda event.fields now c h (event_name event.name)) e
  where
    go :
        (o : Option (List Write))
        → OptSpares c o
        → write_all m o db ≡ some db1
        → m.find_one c i db1 ≡ m.find_one c i db
    go none p q = cc
    go (some ws) p q = ap (m.find_one c i) (sym (some_inj q)) ∙ find_one-run_writes m ws c i db p
