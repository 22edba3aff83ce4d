-- ===== src/Api/Routers/EpochPages.antt =====
-- The epoch listing beyond its first page.
use Prim.Native.Char.{code}
use router_pulse_depin_proto.Common.Decimal.{all_digits}
use router_pulse_depin_proto.Common.{
  ◌==◌, ltb, ℕ, suc, String, Bool, true, false, Option, none, some, List, [], ◌∷◌, ◌≡◌, refl, ap,
  ◌∙◌, arith, All, take, if◌then◌else◌,
}
use router_pulse_depin_proto.Js.{Value, nan, num, str, to_number, key_text, from_decimal, negated}
use router_pulse_depin_proto.Api.Pagination.{CursorCodec, decode_cursor, truthy, listed, page_of}
use router_pulse_depin_proto.Api.Routers.{Row, ListQuery, list_epochs, page_limit, bound_number}

unfoldable pub select {ℓ} : {A : Type ℓ} → (A → Bool) → List A → List A
select p [] = []
select p (x ∷ xs) = let rest = select p xs in if p x then x ∷ rest else rest

abbrev IsNumber : Value → Type 0
IsNumber (num n) = Unit
IsNumber nan = Unit
IsNumber _ = ⊥

-- MongoDB's `$lt` compares within one type: no text is below a number.
abbrev pub IsBracketed : (Value → Value → Bool) → Type 0
IsBracketed lt = (s : String) (b : Value) → IsNumber b → lt (str s) b ≡ false

-- The epoch number of a row as the indexer stores it: a text.
pub record HasTextKey (r : Row) : Type 0 where
  pub text : String
  pub stored : r.sort_key ≡ str text

from_decimal-IsNumber : (b : Bool) (s : String) → IsNumber (from_decimal b s)
from_decimal-IsNumber true s = tt
from_decimal-IsNumber false s = tt

negated-IsNumber : (b : Bool) (s : String) → IsNumber (negated (from_decimal b s))
negated-IsNumber true s = tt
negated-IsNumber false s = tt

if-IsNumber : (b : Bool) (v w : Value) → IsNumber v → IsNumber w → IsNumber (if b then v else w)
if-IsNumber true v w hv hw = hv
if-IsNumber false v w hv hw = hw

to_number-IsNumber : (s : String) → IsNumber (to_number (str s))
unfolding to_number
to_number-IsNumber String.[] = tt
to_number-IsNumber (String.◌∷◌ c s) =
    if-IsNumber (code c == b'-') _ _ (negated-IsNumber (all_digits s) s)
      (from_decimal-IsNumber (all_digits (String.◌∷◌ c s)) (String.◌∷◌ c s))

-- Nothing is selected of rows with text keys.
select-text :
    (lt : Value → Value → Bool) (b : Value) (rows : List Row)
    → IsBracketed lt
    → IsNumber b
    → All HasTextKey rows
    → select (λ (r : Row). lt r.sort_key b) rows ≡ []
unfolding select
select-text lt b [] br nb tt = refl
select-text lt b (r ∷ rows) br nb (h, hs) =
    rw (h.stored, br h.text b nb) (select-text lt b rows br nb hs)

page_of-nil :
    (codec : CursorCodec) (cursor_of : Row → String) (n : ℕ)
    → page_of codec cursor_of n [] ≡ listed (record { items = []; next_cursor = none })
unfolding page_of
page_of-nil codec cursor_of n = let few : ltb n 0 ≡ false = ground arith in rw few refl

-- MongoDB's answers for a fixed set of epoch rows, in the order of the sort: `lt` is `$lt`.
pub record ServesEpochs (lt : Value → Value → Bool) (find_after : Option Value → ℕ → List Row)
    (rows : List Row) : Type 0 where
  pub later :
      (b : Value) (n : ℕ)
      → find_after (some b) n ≡ take n (select (λ (r : Row). lt r.sort_key b) rows)

-- Where every stored epoch number is a text, as the indexer writes it, a listing of epochs from any
-- cursor that decodes to a nonempty text is empty and ends the listing, whatever rows there are.
pub list_epochs-second_page :
    (codec : CursorCodec) (find_after : Option Value → ℕ → List Row) (query : ListQuery)
    (lt : Value → Value → Bool) (rows : List Row) (after : String)
    → IsBracketed lt
    → ServesEpochs lt find_after rows
    → All HasTextKey rows
    → truthy codec (decode_cursor codec query.cursor) ≡ some after
    → list_epochs codec find_after query ≡ listed (record { items = []; next_cursor = none })
unfolding list_epochs
list_epochs-second_page codec find_after query lt rows after br served texts e =
    let nothing : find_after (some (to_number (str after))) (suc (page_limit query.limit)) ≡ [] =
      served.later _ _
      ∙ ap (take (suc (page_limit query.limit)))
          (select-text lt (to_number (str after)) rows br (to_number-IsNumber after) texts) in
    ap
      (λ o.
        page_of codec (λ (r : Row). key_text r.sort_key) (page_limit query.limit)
          (find_after (bound_number codec find_after o) (suc (page_limit query.limit))))
      e
    ∙ ap (page_of codec (λ (r : Row). key_text r.sort_key) (page_limit query.limit)) nothing
    ∙ page_of-nil codec (λ (r : Row). key_text r.sort_key) (page_limit query.limit)
