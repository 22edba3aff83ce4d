-- ===== src/Indexer/Projections/Replay.antt =====
-- What a second application of an event does to the projections.
use mathlib.Core.Option
use router_pulse_depin_proto.Common.{
  some_inj, ℕ, String, Option, none, some, List, [], ◌∷◌, ◌≡◌, ◌≢◌, refl, ap, sym, ◌∙◌, arith,
  lookup, str_eq_iff,
}
use router_pulse_depin_proto.Js.{Value}
use router_pulse_depin_proto.Mongo.{Collection, Mongo}
use router_pulse_depin_proto.Mongo.Laws.{
  Write, IsPlain, SameShape, overlay, field_at, field_at-run_writes, overlay-overlay,
}
use router_pulse_depin_proto.Indexer.EventParser.{DecodedEvent}
use router_pulse_depin_proto.Indexer.Projections.{
  event_writes, write_all, apply_event_to_projections,
}
use router_pulse_depin_proto.Indexer.Projections.Names.{
  EventName, event_name, router_registered, device_key_rotated, heartbeat_received,
  router_suspended, penalty_applied, reward_claimed, router_slashed, other,
}

abbrev OptShape : Option (List Write) → Option (List Write) → Type 0
OptShape none none = Unit
OptShape (some vs) (some ws) = SameShape vs ws
OptShape _ _ = ⊥

abbrev OptPlain : String → Option (List Write) → Type 0
OptPlain f none = Unit
OptPlain f (some ws) = IsPlain f ws

each_shape :
    (o : Option Value) (v w : Value → Write)
    → ((r : Value) → SameShape (v r ∷ []) (w r ∷ []))
    → OptShape (Option.map (λ r. v r ∷ []) o) (Option.map (λ r. w r ∷ []) o)
each_shape none v w h = tt
each_shape (some r) v w h = h r

each_plain :
    (f : String) (o : Option Value) (w : Value → Write)
    → ((r : Value) → IsPlain f (w r ∷ []))
    → OptPlain f (Option.map (λ r. w r ∷ []) o)
each_plain f none w h = tt
each_plain f (some r) w h = h r

set_once :
    (f : String) (v : Value) → f ≢ "firstIndexedAt" → lookup f (("firstIndexedAt", v) ∷ []) ≡ none
set_once f v h = ground (arith, str_eq_iff "firstIndexedAt" f)

module _ (router_pda : Value → Value → Option Value) (d : Value) where
  -- Two applications at different times make updates of one shape.
  same_shape :
      (n : EventName) (s t : ℕ)
      → OptShape (event_writes router_pda n s d) (event_writes router_pda n t d)
  unfolding event_writes
  same_shape router_registered s t = each_shape _ _ _ (λ r. (refl, refl, refl, tt))
  same_shape device_key_rotated s t = each_shape _ _ _ (λ r. (refl, refl, refl, tt))
  same_shape heartbeat_received s t = each_shape _ _ _ (λ r. (refl, refl, refl, tt))
  same_shape router_suspended s t = each_shape _ _ _ (λ r. (refl, refl, refl, tt))
  same_shape penalty_applied s t = each_shape _ _ _ (λ r. (refl, refl, refl, tt))
  same_shape reward_claimed s t = each_shape _ _ _ (λ r. (refl, refl, refl, tt))
  same_shape router_slashed s t = (refl, refl, refl, (refl, refl, refl, tt))
  same_shape other s t = tt
  same_shape _ s t = (refl, refl, refl, tt)

  plain :
      (n : EventName) (t : ℕ) (f : String)
      → n ≢ heartbeat_received
      → f ≢ "firstIndexedAt"
      → OptPlain f (event_writes router_pda n t d)
  unfolding event_writes
  plain router_registered t f h k = each_plain f _ _ (λ r. (refl, set_once f _ k, tt))
  plain heartbeat_received t f h k = absurd (h refl)
  plain device_key_rotated t f h k = each_plain f _ _ (λ r. (refl, refl, tt))
  plain router_suspended t f h k = each_plain f _ _ (λ r. (refl, refl, tt))
  plain penalty_applied t f h k = each_plain f _ _ (λ r. (refl, refl, tt))
  plain reward_claimed t f h k = each_plain f _ _ (λ r. (refl, refl, tt))
  plain router_slashed t f h k = (refl, refl, (refl, refl, tt))
  plain other t f h k = tt
  plain _ t f h k = (refl, refl, tt)

module _ (m : Mongo) where
  open m use {Db}

  twice :
      (v w : Option (List Write)) (c : Collection) (i : Value) (f : String) (db db1 db2 db3 : Db)
      → OptShape v w
      → OptPlain f v
      → OptPlain f w
      → write_all m v db ≡ some db1
      → write_all m w db1 ≡ some db2
      → write_all m w db ≡ some db3
      → field_at m c i f db2 ≡ field_at m c i f db3
  twice none w c i f db db1 db2 db3 h p q e1 e2 e3 = cc
  twice (some vs) none c i f db db1 db2 db3 h p q e1 e2 e3 = absurd h
  twice (some vs) (some ws) c i f db db1 db2 db3 h p q e1 e2 e3 =
      ap (field_at m c i f) (sym (some_inj e2))
      ∙ field_at-run_writes m ws c i f db1 q
      ∙ ap (λ (x : Db). overlay ws c i f (field_at m c i f x)) (sym (some_inj e1))
      ∙ ap (overlay ws c i f) (field_at-run_writes m vs c i f db p)
      ∙ overlay-overlay vs ws c i f (field_at m c i f db) h
      ∙ sym (field_at-run_writes m ws c i f db q)
      ∙ ap (field_at m c i f) (some_inj e3)

-- An event other than HeartbeatReceived that is applied twice, at any two times, leaves in every
-- field but `firstIndexedAt` what the later application alone leaves.
pub replay_harmless :
    (router_pda : Value → Value → Option Value) (m : Mongo) (event : DecodedEvent) (s t : ℕ)
    (c : Collection) (i : Value) (f : String) (db db1 db2 db3 : m.Db)
    → event_name event.name ≢ heartbeat_received
    → f ≢ "firstIndexedAt"
    → apply_event_to_projections router_pda m s event db ≡ some db1
    → apply_event_to_projections router_pda m t event db1 ≡ some db2
    → apply_event_to_projections router_pda m t event db ≡ some db3
    → field_at m c i f db2 ≡ field_at m c i f db3
unfolding apply_event_to_projections
replay_harmless router_pda m event s t c i f db db1 db2 db3 h k =
    let n = event_name event.name in
    let d = event.fields in
    twice m (event_writes router_pda n s d) (event_writes router_pda n t d) c i f db db1 db2 db3
      (same_shape router_pda d n s t) (plain router_pda d n s f h k) (plain router_pda d n t f h k)
