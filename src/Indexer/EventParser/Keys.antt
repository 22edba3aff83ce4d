-- ===== src/Indexer/EventParser/Keys.antt =====
-- The keys of a transaction's events: distinct, in the order of emission.
use text.Mathlib.TextLemmas.{append_cancel_left}
use router_pulse_depin_proto.Common.{
  ℕ, suc, ◌<◌, String, List, [], ◌∷◌, ◌≡◌, ◌≢◌, refl, ap, arith, All, Option, length,
}
use router_pulse_depin_proto.Common.Int.{ℤ}
use router_pulse_depin_proto.Common.Decimal.{show_injective}
use router_pulse_depin_proto.Indexer.EventParser.{
  DecodedEvent, RawEvent, event_id, decode_from, decode_transaction_events,
}

event_id_injective : (s : String) (m n : ℕ) → event_id s m ≡ event_id s n → m ≡ n
unfolding event_id
event_id_injective s m n h =
    show_injective m n (append_cancel_left ":" _ _ (append_cancel_left s _ _ h))

-- No two members of a list of events have one key.
abbrev pub DistinctIds : List DecodedEvent → Type 0
DistinctIds [] = Unit
DistinctIds (e ∷ es) = All (λ f. f.id ≢ e.id) es × DistinctIds es

module _ (bn_to_string : ℤ → String) (to_base58 : ℕ → String) (signature : String) (slot : ℕ)
    (block_time : Option ℕ) where
  abbrev decoded : ℕ → List RawEvent → List DecodedEvent
  decoded = decode_from bn_to_string to_base58 signature slot block_time

  later_ids :
      (k n : ℕ) (raw : List RawEvent)
      → k < n
      → All (λ f. f.id ≢ event_id signature k) (decoded n raw)
  unfolding decode_from
  later_ids k n [] h = tt
  later_ids k n (r ∷ raw) h = (
    (λ e. absurd (omega (arith, event_id_injective signature n k e))),
    later_ids k (suc n) raw (omega arith),
  )

  distinct_from : (n : ℕ) (raw : List RawEvent) → DistinctIds (decoded n raw)
  unfolding decode_from
  distinct_from n [] = tt
  distinct_from n (r ∷ raw) = (later_ids n (suc n) raw (omega arith), distinct_from (suc n) raw)

  length_from : (n : ℕ) (raw : List RawEvent) → length (decoded n raw) ≡ length raw
  unfolding decode_from
  length_from n [] = refl
  length_from n (r ∷ raw) = ap suc (length_from (suc n) raw)

-- The events of one transaction have pairwise distinct keys, and there is one for each that the
-- parser yields.
pub decode_transaction_events-DistinctIds :
    (bn_to_string : ℤ → String) (to_base58 : ℕ → String) (signature : String) (slot : ℕ)
    (block_time : Option ℕ) (raw : List RawEvent)
    → let es = decode_transaction_events bn_to_string to_base58 signature slot block_time raw in
      DistinctIds es × (length es ≡ length raw)
unfolding decode_transaction_events
decode_transaction_events-DistinctIds b t s n k raw =
    (distinct_from b t s n k 0 raw, length_from b t s n k 0 raw)
