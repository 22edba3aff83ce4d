-- ===== src/Tests/Feeds.antt =====
-- Examples for the explorer's feed of events.
use router_pulse_depin_proto.Common.{
  ℕ, zero, suc, ◌≤◌, String, Bool, true, false, Option, none, some, List, [], ◌∷◌, ◌≡◌, refl, arith,
  All, take, ltb, if◌then◌else◌, Bool-cases, inl, inr, str_eq, str_eq_iff,
}
use mathlib.Core.Path.{subst}
use router_pulse_depin_proto.Common.Int.{pos}
use router_pulse_depin_proto.Common.Decimal.{show, read, all_digits}
use router_pulse_depin_proto.Common.Numerals.{size, size-show-positive}
use router_pulse_depin_proto.Js.{Value, num, to_number}
use router_pulse_depin_proto.Api.Pagination.{Number, binary, clamp_limit, decode_cursor, truthy}
use router_pulse_depin_proto.Api.Pagination.Walk.{walk}
use router_pulse_depin_proto.Api.Explorer.{EventRow, list_events}
use router_pulse_depin_proto.Api.Explorer.Times.{IsBefore, later_pages-IsBefore}
use router_pulse_depin_proto.Tests.Reading.{plain}

abbrev event : String → ℕ → EventRow
event id t = record { id = id; block_time = some t }

-- Two events of one block, and an older one.
abbrev feed : List EventRow
feed = event "b" 9 ∷ event "a" 9 ∷ event "old" 5 ∷ []

abbrev is_before : ℕ → Option ℕ → Bool
is_before t none = false
is_before t (some u) = ltb u t

abbrev before : ℕ → List EventRow → List EventRow
before t [] = []
before t (r ∷ rs) = let rest = before t rs in if is_before t r.block_time then r ∷ rest else rest

abbrev serve_feed : Option Value → ℕ → List EventRow
serve_feed none n = take n feed
serve_feed (some (num (pos t))) n = take n (before t feed)
serve_feed (some v) n = []

is_before-IsBefore :
    (t : ℕ) (i : String) (o : Option ℕ)
    → is_before t o ≡ true
    → IsBefore t (record { id = i; block_time = o })
is_before-IsBefore t i none h = absurd (cc)
is_before-IsBefore t i (some u) h = (u, refl, ground arith)

before-IsBefore : (t : ℕ) (rs : List EventRow) → All (IsBefore t) (before t rs)
before-IsBefore t [] = tt
before-IsBefore t (r ∷ rs) = elim (Bool-cases (is_before t r.block_time)) [
  | inl h ↦ rw h (is_before-IsBefore t r.id r.block_time h, before-IsBefore t rs)
  | inr h ↦ rw h (before-IsBefore t rs)
]

take-IsBefore : (t n : ℕ) (rs : List EventRow) → All (IsBefore t) rs → All (IsBefore t) (take n rs)
take-IsBefore t zero rs h = tt
take-IsBefore t (suc n) [] h = tt
take-IsBefore t (suc n) (r ∷ rs) (p, h) = (p, take-IsBefore t n rs h)

not_empty : (s : String) → 1 ≤ size s → str_eq s "" ≡ false
unfolding size
not_empty s h = elim (Bool-cases (str_eq s "")) [
  | inr e ↦ e
  | inl e ↦
      let positive : 1 ≤ size "" = subst (λ u. 1 ≤ size u) ((str_eq_iff s "").0 e) h in
      absurd (omega (arith, positive))
]

plain_decodes :
    (u : ℕ) → truthy plain (decode_cursor plain (some (plain.encode (show u)))) ≡ some (show u)
unfolding decode_cursor
plain_decodes u = let text = not_empty (show u) (size-show-positive u) in rw (text, text) refl

abbrev one : Number
one = binary (pos 1) 0

-- The first page ends in "b"; the second event of its block is on none of the pages behind it.
later_pages-IsBefore_example : All (IsBefore 9) (event "old" 5 ∷ [])
unfolding decode_cursor clamp_limit list_events walk to_number show all_digits read
later_pages-IsBefore_example =
    later_pages-IsBefore plain serve_feed one 3 9 (event "old" 5 ∷ []) plain_decodes
      (λ u n. take-IsBefore u n (before u feed) (before-IsBefore u feed)) refl

first_page_test :
    walk (λ c. list_events plain serve_feed (record { cursor = c; limit = one })) 4 none
    ≡ some (event "b" 9 ∷ event "old" 5 ∷ [])
unfolding decode_cursor clamp_limit list_events walk to_number show all_digits read
first_page_test = refl
