-- ===== src/Web/Feed.antt =====
-- web/src/components/LiveFeed.tsx and ui.tsx: the feed of events, and what the page draws.
use router_pulse_depin_proto.Common.{
  ℕ, suc, ◌≤◌, min, String, Bool, false, List, [], ◌∷◌, ◌≡◌, ◌≢◌, ◌||◌, arith, All, length, take,
  length-take, leb, str_eq, str_eq_iff, if◌then◌else◌, Bool-cases, inl, inr,
}
use router_pulse_depin_proto.Common.Int.{ℤ, pos, negsuc}

module _ {E : Type 0} (id : E → String) where
  abbrev some_has : String → List E → Bool
  some_has i [] = false
  some_has i (e ∷ es) = let rest = some_has i es in str_eq (id e) i || rest

  -- The handler of an event of the socket.
  unfoldable pub on_event : E → List E → List E
  on_event ev prev = if some_has (id ev) prev then prev else take 50 (ev ∷ prev)

  unfoldable pub on_events : List E → List E → List E
  unfolding on_event
  on_events [] shown = shown
  on_events (ev ∷ evs) shown = on_events evs (on_event ev shown)

  abbrev pub DistinctIds : List E → Type 0
  DistinctIds [] = Unit
  DistinctIds (e ∷ es) = All (λ d. id d ≢ id e) es × DistinctIds es

  All-take : (P : E → Type 0) (n : ℕ) (es : List E) → All P es → All P (take n es)
  All-take P ℕ.zero es h = tt
  All-take P (suc n) [] h = tt
  All-take P (suc n) (e ∷ es) (p, h) = (p, All-take P n es h)

  take-DistinctIds : (n : ℕ) (es : List E) → DistinctIds es → DistinctIds (take n es)
  take-DistinctIds ℕ.zero es h = tt
  take-DistinctIds (suc n) [] h = tt
  take-DistinctIds (suc n) (e ∷ es) (p, h) = (All-take _ n es p, take-DistinctIds n es h)

  none_has : (i : String) (es : List E) → some_has i es ≡ false → All (λ d. id d ≢ i) es
  none_has i [] h = tt
  none_has i (e ∷ es) h = elim (Bool-cases (str_eq (id e) i)) [
    | inl same ↦ absurd (ground (arith, same, h))
    | inr other ↦ ((λ q. cc (other, (str_eq_iff (id e) i).1 q)), none_has i es (rw other at h))
  ]

  abbrev IsFeed : List E → Type 0
  IsFeed es = DistinctIds es × (length es ≤ 50)

  on_event-IsFeed : (ev : E) (shown : List E) → IsFeed shown → IsFeed (on_event ev shown)
  unfolding on_event
  on_event-IsFeed ev shown (h, n) = elim (Bool-cases (some_has (id ev) shown)) [
    | inl known ↦ rw known (h, n)
    | inr fresh ↦ rw fresh (
      take-DistinctIds 50 (ev ∷ shown) (none_has (id ev) shown fresh, h),
      omega (arith, length-take 50 (ev ∷ shown)),
    )
  ]

  -- A feed of at most 50 events with distinct ids stays one, whatever events arrive and however
  -- often one is repeated.
  pub on_events-IsFeed :
      (evs shown : List E)
      → DistinctIds shown
      → length shown ≤ 50
      → DistinctIds (on_events evs shown) × (length (on_events evs shown) ≤ 50)
  unfolding on_events
  on_events-IsFeed [] shown h n = (h, n)
  on_events-IsFeed (ev ∷ evs) shown h n =
      let (h', n') = on_event-IsFeed ev shown (h, n) in
      on_events-IsFeed evs (on_event ev shown) h' n'

-- `StatusBadge`: the class of the badge.
unfoldable pub badge_class : String → String
badge_class status =
    if str_eq status "active"
    then "badge-active"
    else if str_eq status "suspended"
    then "badge-suspended"
    else if str_eq status "decommissioned"
    then "badge-decommissioned"
    else "badge-inactive"

-- `ScoreMeter`: the width in percent and the colour, of a whole score.
abbrev pub width : ℤ → ℕ
width (pos n) = min 100 n
width (negsuc n) = 0

abbrev pub colour : ℤ → String
colour (pos n) =
    if leb 90 n then "var(--ok)" else if leb 70 n then "var(--warn)" else "var(--danger)"
colour (negsuc n) = "var(--danger)"

unfoldable pub score_meter : ℤ → ℕ × String
score_meter score = (width score, colour score)
