-- ===== src/Api/Routers/RouterPages.antt =====
-- The pages of the router listing together, and a limit that breaks it.
use mathlib.Core.Path.{subst}
use router_pulse_depin_proto.Common.{
  ℕ, suc, ◌-◌, ◌<◌, String, Option, none, some, List, [], ◌∷◌, All, ◌≡◌, refl, ap, sym, ◌∙◌, arith,
  length, take, ltb, true,
}
use router_pulse_depin_proto.Js.{Value, str}
use router_pulse_depin_proto.Api.Pagination.{
  Number, CursorCodec, decode_cursor, truthy, type_error, page_of,
}
use router_pulse_depin_proto.Api.Pagination.Limits.{IsProperFraction, clamp_limit_range}
use router_pulse_depin_proto.Api.Pagination.Walk.{
  walk, walk_all, following, HasDistinctIds, Decodes,
}
use router_pulse_depin_proto.Api.Routers.{Row, ListQuery, page_limit, bound_text, list_routers}

-- MongoDB's answers for a fixed set of routers in ascending order of their `_id`s.
pub record ServesRows (find_after : Option Value → ℕ → List Row) (rows : List Row) : Type 0 where
  pub first : (n : ℕ) → find_after none n ≡ take n rows
  pub later :
      All
        (λ (r : Row).
          (n : ℕ)
          → find_after (some (str r.id)) n ≡ take n (following (λ (r : Row). r.id) r.id rows))
        rows

-- With a limit of at least 1 and cursors that decode to the keys they encode, the pages that the cursors lead through are, one after the other, all
-- routers in order, each once, whatever the limit.
pub walk-list_routers :
    (codec : CursorCodec) (find_after : Option Value → ℕ → List Row) (limit : Number)
    (rows : List Row) (fuel : ℕ)
    → 0 < page_limit limit
    → All (Decodes codec (λ (r : Row). r.id)) rows
    → ServesRows find_after rows
    → HasDistinctIds (λ (r : Row). r.id) rows
    → length rows < fuel
    → walk (λ c. list_routers codec find_after (record { cursor = c; limit = limit })) fuel none
      ≡ some rows
unfolding list_routers
walk-list_routers codec find_after limit rows fuel h coded served distinct lt =
    let size : page_limit limit ≡ suc (page_limit limit - 1) = omega arith in
    subst
      (λ (n : ℕ).
        walk
          (λ c.
            page_of codec (λ (r : Row). r.id) n
              (find_after (bound_text codec find_after (truthy codec (decode_cursor codec c)))
                (suc n)))
          fuel none
        ≡ some rows)
      (sym size)
      (walk_all codec (λ (r : Row). r.id) (λ o n. find_after (bound_text codec find_after o) n)
        (page_limit limit - 1) rows coded served.first served.later distinct fuel none [] rows refl
        served.first lt)

page_of-zero :
    (codec : CursorCodec) (cursor_of : Row → String) (r : Row) (more : List Row)
    → page_of codec cursor_of 0 (r ∷ more) ≡ type_error
unfolding page_of
page_of-zero codec cursor_of r more =
    let many : ltb 0 (length (r ∷ more)) ≡ true = ground arith in rw many refl

-- A limit strictly between 0 and 1 makes the listing fail with a TypeError wherever there is a
-- router to list.
pub fraction_limit_fails :
    (codec : CursorCodec) (find_after : Option Value → ℕ → List Row) (query : ListQuery) (r : Row)
    (more : List Row)
    → IsProperFraction query.limit
    → find_after (bound_text codec find_after (truthy codec (decode_cursor codec query.cursor))) 1
      ≡ r ∷ more
    → list_routers codec find_after query ≡ type_error
unfolding list_routers
fraction_limit_fails codec find_after query r more h found =
    let zero_limit : page_limit query.limit ≡ 0 =
      (clamp_limit_range 20 100 query.limit (omega arith) (omega arith) (omega arith)).0.1 h in
    subst
      (λ (n : ℕ).
        page_of codec (λ (r : Row). r.id) n
          (find_after
            (bound_text codec find_after (truthy codec (decode_cursor codec query.cursor))) (suc n))
        ≡ type_error)
      (sym zero_limit)
      (ap (page_of codec (λ (r : Row). r.id) 0) found
        ∙ page_of-zero codec (λ (r : Row). r.id) r more)
