-- ===== src/Api/Explorer/Times.antt =====
-- The pages of the feed of events, whose cursor is a block time.
use Prim.Native.Char.{code}
use mathlib.Core.Path.{subst}
use router_pulse_depin_proto.Common.{
  ℕ, zero, suc, ◌-◌, ◌<◌, String, Option, none, some, List, [], ◌∷◌, ◌++◌, All, All-map, ◌==◌, ◌≡◌,
  refl, ap, sym, ◌∙◌, arith, length, take, ltb, true, false, Bool-cases, inl, inr, some_inj,
  Option-cases,
}
use router_pulse_depin_proto.Common.Int.{pos}
use router_pulse_depin_proto.Common.Decimal.{show, read, read-show, all_digits, digits_only}
use router_pulse_depin_proto.Common.Numerals.{all_digits-show}
use router_pulse_depin_proto.Js.{Value, str, num, to_number}
use router_pulse_depin_proto.Api.Pagination.{
  Number, CursorCodec, decode_cursor, truthy, Listed, listed, type_error, page_of, last_row,
  with_next,
}
use router_pulse_depin_proto.Api.Pagination.Walk.{
  walk, walk_on, walk_all, following, HasDistinctIds, Decodes, joined,
}
use router_pulse_depin_proto.Api.Routers.{page_limit}
use router_pulse_depin_proto.Api.Explorer.{EventRow, time_text, bound_time, list_events}

abbrev pub key_of : EventRow → String
key_of r = time_text r.block_time

-- MongoDB's answers for a fixed set of events in descending order of their block times.
pub record ServesEvents (find_before : Option Value → ℕ → List EventRow) (rows : List EventRow)
    : Type 0 where
  pub first : (n : ℕ) → find_before none n ≡ take n rows
  pub later :
      All
        (λ (r : EventRow).
          (n : ℕ)
          → find_before (some (to_number (str (key_of r)))) n
            ≡ take n (following key_of (key_of r) rows))
        rows

-- Where no two events have the same block time, the pages that the cursors lead through are, one
-- after the other, all events in order, each once. This is for a limit of at least 1 and cursors
-- that decode to the times they encode.
pub walk-list_events :
    (codec : CursorCodec) (find_before : Option Value → ℕ → List EventRow) (limit : Number)
    (rows : List EventRow) (fuel : ℕ)
    → 0 < page_limit limit
    → All (Decodes codec key_of) rows
    → ServesEvents find_before rows
    → HasDistinctIds key_of rows
    → length rows < fuel
    → walk (λ c. list_events codec find_before (record { cursor = c; limit = limit })) fuel none
      ≡ some rows
unfolding list_events
walk-list_events codec find_before limit rows fuel h coded served distinct lt =
    let size : page_limit limit ≡ suc (page_limit limit - 1) = omega arith in
    subst
      (λ (n : ℕ).
        walk
          (λ c. page_of codec key_of n (
            find_before (bound_time codec find_before (truthy codec (decode_cursor codec c)))
              (suc n)))
          fuel none
        ≡ some rows)
      (sym size)
      (walk_all codec key_of (λ o n. find_before (bound_time codec find_before o) n)
        (page_limit limit - 1) rows coded served.first served.later distinct fuel none [] rows refl
        served.first lt)

to_number-digits : (s : String) → all_digits s ≡ true → to_number (str s) ≡ num (pos (read s))
unfolding to_number all_digits digits_only
to_number-digits String.[] h = absurd (cc)
to_number-digits (String.◌∷◌ c s) h =
    let no_sign : (code c == b'-') ≡ false = ground arith in rw (no_sign, h) refl

pub to_number-show : (n : ℕ) → to_number (str (show n)) ≡ num (pos n)
to_number-show n =
    to_number-digits (show n) (all_digits-show n) ∙ ap (λ k. num (pos k)) (read-show n)

-- A row strictly before a time.
abbrev pub IsBefore : ℕ → EventRow → Type 0
IsBefore t r = (u : ℕ) × (r.block_time ≡ some u) × (u < t)

module _ (codec : CursorCodec) (find_before : Option Value → ℕ → List EventRow)
    (decodes : (t : ℕ)
      → truthy codec (decode_cursor codec (some (codec.encode (show t)))) ≡ some (show t))
    (less : (t n : ℕ) → All (IsBefore t) (find_before (some (num (pos t))) n)) where
  pub All-take :
      (t n : ℕ) (rows : List EventRow) → All (IsBefore t) rows → All (IsBefore t) (take n rows)
  All-take t zero rows h = tt
  All-take t (suc n) [] h = tt
  All-take t (suc n) (r ∷ rows) (p, h) = (p, All-take t n rows h)

  All-append :
      (t : ℕ) (xs ys : List EventRow)
      → All (IsBefore t) xs
      → All (IsBefore t) ys
      → All (IsBefore t) (xs ++ ys)
  All-append t [] ys h k = k
  All-append t (x ∷ xs) ys (p, h) k = (p, All-append t xs ys h k)

  last_row-IsBefore :
      (t : ℕ) (x : EventRow) (xs : List EventRow)
      → All (IsBefore t) (x ∷ xs)
      → IsBefore t (last_row x xs)
  last_row-IsBefore t x [] (p, h) = p
  last_row-IsBefore t x (y ∷ ys) (p, h) = last_row-IsBefore t y ys h

  -- What a page of rows before a time leads to.
  abbrev Leads : ℕ → Listed EventRow → Type 0
  Leads t type_error = Unit
  Leads t (listed p) =
      All (IsBefore t) p.items
      × ((c : String) → p.next_cursor ≡ some c → (u : ℕ) × (c ≡ codec.encode (show u)) × (u < t))

  with_next-Leads :
      (t : ℕ) (page : List EventRow) → All (IsBefore t) page → Leads t (with_next codec key_of page)
  with_next-Leads t [] h = tt
  with_next-Leads t (x ∷ xs) h =
      let (u, e, lt) = last_row-IsBefore t x xs h in
      (h, λ c next. (u, sym (some_inj next) ∙ ap (λ o. codec.encode (time_text o)) e, lt))

  page_of-Leads :
      (t limit : ℕ) (rows : List EventRow)
      → All (IsBefore t) rows
      → Leads t (page_of codec key_of limit rows)
  unfolding page_of
  page_of-Leads t limit rows h = elim (Bool-cases (ltb limit (length rows))) [
    | inl more ↦ rw more (with_next-Leads t (take limit rows) (All-take t limit rows h))
    | inr all ↦ rw all (h, λ c e. absurd (cc))
  ]

  IsBefore-trans : (t u : ℕ) (r : EventRow) → u < t → IsBefore u r → IsBefore t r
  IsBefore-trans t u r lt (w, e, h) = (w, e, omega arith)

  module _ (limit : Number) where
    abbrev page_at : Option String → Listed EventRow
    page_at c = list_events codec find_before (record { cursor = c; limit = limit })

    page_at-Leads : (t : ℕ) → Leads t (page_at (some (codec.encode (show t))))
    unfolding list_events
    page_at-Leads t = page_of-Leads t (page_limit limit) _ (
        subst
          (λ o.
            All (IsBefore t)
              (find_before (bound_time codec find_before o) (suc (page_limit limit))))
          (sym (decodes t))
          (subst (λ v. All (IsBefore t) (find_before (some v) (suc (page_limit limit))))
            (sym (to_number-show t)) (less t (suc (page_limit limit)))))

    joined-some :
        (t : ℕ) (xs : List EventRow) (o : Option (List EventRow)) (rows : List EventRow)
        → All (IsBefore t) xs
        → ((ys : List EventRow) → o ≡ some ys → All (IsBefore t) ys)
        → joined xs o ≡ some rows
        → All (IsBefore t) rows
    joined-some t xs none rows h k e = absurd (cc)
    joined-some t xs (some ys) rows h k e =
        subst (All (IsBefore t)) (some_inj e) (All-append t xs ys h (k ys refl))

    walk_on-IsBefore :
        (t fuel : ℕ) (l : Listed EventRow) (rows : List EventRow)
        → Leads t l
        → ((u : ℕ) (ys : List EventRow)
            → walk page_at fuel (some (codec.encode (show u))) ≡ some ys
            → All (IsBefore u) ys)
        → walk_on page_at l (walk page_at fuel) ≡ some rows
        → All (IsBefore t) rows
    walk_on-IsBefore t fuel type_error rows leads ih e = absurd (cc)
    walk_on-IsBefore t fuel (listed p) rows (h, next) ih e = elim (Option-cases p.next_cursor) [
      | inl last ↦ let e' = rw last at e in subst (All (IsBefore t)) (some_inj e') h
      | inr (c, more) ↦
          let (u, same, lt) = next c more in
          let e' = rw (more, same) at e in
          joined-some t p.items (walk page_at fuel (some (codec.encode (show u)))) rows h
            (λ ys f. All-map ys (λ r q. IsBefore-trans t u r lt q) (ih u ys f)) e'
    ]

    walk-IsBefore :
        (fuel t : ℕ) (rows : List EventRow)
        → walk page_at fuel (some (codec.encode (show t))) ≡ some rows
        → All (IsBefore t) rows
    unfolding walk
    walk-IsBefore zero t rows e = absurd (cc)
    walk-IsBefore (suc fuel) t rows e =
        walk_on-IsBefore t fuel (page_at (some (codec.encode (show t)))) rows (page_at-Leads t)
          (λ u ys f. walk-IsBefore fuel u ys f) e

-- Every event of every page behind a cursor is strictly older than the event the cursor stands for:
-- whatever the limit, an event with the same block time that did not fit on the page before is on
-- none of them. This is for a store that answers `$lt`, and cursors that decode to their times.
pub later_pages-IsBefore :
    (codec : CursorCodec) (find_before : Option Value → ℕ → List EventRow) (limit : Number)
    (fuel t : ℕ) (rows : List EventRow)
    → ((u : ℕ) → truthy codec (decode_cursor codec (some (codec.encode (show u)))) ≡ some (show u))
    → ((u n : ℕ) → All (IsBefore u) (find_before (some (num (pos u))) n))
    → walk
        (λ c. list_events codec find_before (record { cursor = c; limit = limit }))
        fuel
        (some (codec.encode (show t)))
      ≡ some rows
    → All (IsBefore t) rows
later_pages-IsBefore codec find_before limit fuel t rows decodes less e =
    walk-IsBefore codec find_before decodes less limit fuel t rows e
