-- ===== src/Api/Pagination.antt =====
-- api/src/common/pagination.ts, and the page that each listing cuts from what the store returns.
pub mod Limits
pub mod Walk
use router_pulse_depin_proto.Common.{
  ℕ, suc, ◌+◌, ◌/◌, ◌^◌, min, String, Bool, Option, none, some, List, [], ◌∷◌, length, take, ltb,
  leb, str_eq, if◌then◌else◌,
}
use router_pulse_depin_proto.Common.Int.{ℤ, pos, negsuc}

-- A double: `binary m e` is m / 2 ^ e.
pub data Number : Type 0 where
  nan : Number
  infinity : (negative : Bool) → Number
  binary : ℤ → ℕ → Number

-- `clampLimit`, from what `Number(limit)` gives.
unfoldable pub clamp_limit : ℕ → ℕ → Number → ℕ
clamp_limit fallback most nan = fallback
clamp_limit fallback most (infinity negative) = fallback
clamp_limit fallback most (binary (negsuc m) e) = fallback
clamp_limit fallback most (binary (pos m) e) = if leb m 0 then fallback else min (m / 2 ^ e) most

pub record Page {ℓ} (A : Type ℓ) : Type ℓ where
  pub items : List A
  pub next_cursor : Option String

-- `type_error` is the read of a field of `page[page.length - 1]` on an empty page.
pub data Listed {ℓ} (A : Type ℓ) : Type ℓ where
  listed : Page A → Listed A
  type_error : Listed A

abbrev pub last_row {ℓ} : {A : Type ℓ} → A → List A → A
last_row x [] = x
last_row x (y ∷ ys) = last_row y ys

-- `encodeCursor` and `decodeCursor` go through Node's base64url, which is no code of the repository.
pub record CursorCodec : Type 0 where
  pub encode : String → String
  pub decode : String → String

module _ (codec : CursorCodec) where
  -- `decodeCursor`: an absent or empty cursor is `undefined`.
  unfoldable pub decode_cursor : Option String → Option String
  decode_cursor none = none
  decode_cursor (some c) = if str_eq c "" then none else some (codec.decode c)

  -- `if (after)`: an empty text is falsy.
  abbrev pub truthy : Option String → Option String
  truthy none = none
  truthy (some s) = if str_eq s "" then none else some s

  module _ {ℓ} {A : Type ℓ} (cursor_of : A → String) where
    abbrev pub with_next : List A → Listed A
    with_next [] = type_error
    with_next (x ∷ xs) =
        listed
          (record { items = x ∷ xs; next_cursor = some (codec.encode (cursor_of (last_row x xs))) })

    -- The end of each listing: `items` holds at most one row more than the limit.
    unfoldable pub page_of : ℕ → List A → Listed A
    page_of limit items =
        if ltb limit (length items)
        then with_next (take limit items)
        else listed (record { items = items; next_cursor = none })
