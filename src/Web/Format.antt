-- ===== src/Web/Format.antt =====
-- Amounts as the web client prints and reads them: `formatTokens` of web/src/lib/api.ts and
-- `toBaseUnits` of web/src/components/RouterActions.tsx.
pub mod Texts
pub mod RoundTrip
use Prim.Native.Char.{Char, code}
use Prim.Native.String.{◌++◌}
use router_pulse_depin_proto.Common.{
  ℕ, zero, suc, ◌-◌, ◌*◌, ◌/◌, ◌%◌, ◌^◌, ◌==◌, ◌&&◌, ◌||◌, not, leb, String, Bool, true, false,
  Option, none, some, List, [], ◌∷◌, if◌then◌else◌,
}
use router_pulse_depin_proto.Common.Int.{ℤ, pos, negsuc, ◌+ℤ◌, ◌*ℤ◌}
use router_pulse_depin_proto.Common.Decimal.{show, read, all_digits}
use router_pulse_depin_proto.Common.Numerals.{size, zeros, prefix}
use router_pulse_depin_proto.Web.Fetch.{Outcome, returned, raised, and_then}

abbrev pub is_empty : String → Bool
is_empty String.[] = true
is_empty (String.◌∷◌ c s) = false

-- The white space of `trim`, by its code point.
abbrev pub is_space : ℕ → Bool
is_space n =
    (leb 9 n && leb n 13)
    || n == 32
    || n == 160
    || n == 0x1680
    || (leb 0x2000 n && leb n 0x200a)
    || n == 0x2028
    || n == 0x2029
    || n == 0x202f
    || n == 0x205f
    || n == 0x3000
    || n == 0xfeff

unfoldable pub trim_start : String → String
trim_start String.[] = String.[]
trim_start (String.◌∷◌ c s) =
    let rest = trim_start s in if is_space (code c) then rest else String.◌∷◌ c s

-- Without the characters at the end that pass a test.
unfoldable pub strip_end : (ℕ → Bool) → String → String
strip_end p String.[] = String.[]
strip_end p (String.◌∷◌ c s) =
    let rest = strip_end p s in if is_empty rest && p (code c) then String.[] else String.◌∷◌ c rest

abbrev pub onto_first : Char → List String → List String
onto_first c [] = String.◌∷◌ c String.[] ∷ []
onto_first c (part ∷ parts) = String.◌∷◌ c part ∷ parts

-- `split(".")`.
unfoldable pub split_dot : String → List String
split_dot String.[] = String.[] ∷ []
split_dot (String.◌∷◌ c s) =
    let rest = split_dot s in if code c == b'.' then String.[] ∷ rest else onto_first c rest

-- `s || "0"`.
abbrev pub or_zero : String → String
or_zero String.[] = "0"
or_zero (String.◌∷◌ c s) = String.◌∷◌ c s

-- `bn` is `new BN` of a text, which throws where the text is no numeral.
module _ (bn : String → Outcome ℤ) where
  abbrev pub base_units : String → String → Outcome ℤ
  base_units whole frac = and_then (bn (or_zero whole)) (λ w.
      and_then (bn (or_zero (prefix 9 (frac ++ zeros 9))))
        (λ f. returned (w *ℤ pos 1000000000 +ℤ f)))

  -- `[whole, frac = ""]` of the parts.
  abbrev pub of_parts : List String → Outcome ℤ
  of_parts [] = base_units String.[] String.[]
  of_parts (whole ∷ []) = base_units whole String.[]
  of_parts (whole ∷ frac ∷ rest) = base_units whole frac

  unfoldable pub to_base_units : String → Outcome ℤ
  unfolding trim_start strip_end split_dot prefix zeros
  to_base_units input = of_parts (split_dot (strip_end is_space (trim_start input)))

abbrev minus_unless_zero : ℕ → ℤ
minus_unless_zero zero = pos 0
minus_unless_zero (suc n) = negsuc n

-- `BigInt(raw)`, none where it throws; the amounts are in decimal.
abbrev pub big_int : String → Option ℤ
big_int String.[] = some (pos 0)
big_int (String.◌∷◌ c s) =
    if all_digits (String.◌∷◌ c s)
    then some (pos (read (String.◌∷◌ c s)))
    else if all_digits s && code c == b'-'
    then some (minus_unless_zero (read s))
    else if all_digits s && code c == b'+'
    then some (pos (read s))
    else none

-- Division and remainder of BigInts, which round towards zero.
abbrev quotient : ℤ → ℕ → ℤ
quotient (pos n) b = pos (n / b)
quotient (negsuc n) b = minus_unless_zero (suc n / b)

abbrev remainder : ℤ → ℕ → ℤ
remainder (pos n) b = pos (n % b)
remainder (negsuc n) b = minus_unless_zero (suc n % b)

abbrev is_zero : ℤ → Bool
is_zero (pos n) = n == 0
is_zero (negsuc n) = false

abbrev show_ℤ : ℤ → String
show_ℤ (pos n) = show n
show_ℤ (negsuc n) = "-" ++ show (suc n)

-- `s.padStart(n, "0")`.
abbrev pub pad_start : ℕ → String → String
pad_start n s = zeros (n - size s) ++ s

abbrev pub is_0 : ℕ → Bool
is_0 n = n == b'0'

-- `locale` is `toLocaleString` of a BigInt.
module _ (locale : ℤ → String) where
  abbrev pub with_fraction : ℤ → String → String
  with_fraction whole String.[] = locale whole
  with_fraction whole (String.◌∷◌ c s) = locale whole ++ "." ++ String.◌∷◌ c s

  abbrev pub split_value : ℕ → ℕ → ℤ → String
  split_value decimals precision value =
      let frac = remainder value (10 ^ decimals) in
      if is_zero frac
      then locale (quotient value (10 ^ decimals))
      else with_fraction (quotient value (10 ^ decimals))
          (strip_end is_0 (prefix precision (pad_start decimals (show_ℤ frac))))

  abbrev pub of_big_int : ℕ → ℕ → String → Option ℤ → String
  of_big_int decimals precision raw none = raw
  of_big_int decimals precision raw (some value) = split_value decimals precision value

  abbrev pub of_raw : ℕ → ℕ → String → String
  of_raw decimals precision String.[] = "0"
  of_raw decimals precision (String.◌∷◌ c s) =
      of_big_int decimals precision (String.◌∷◌ c s) (big_int (String.◌∷◌ c s))

  unfoldable pub format_tokens : ℕ → ℕ → Option String → String
  unfolding show read all_digits prefix zeros size strip_end
  format_tokens decimals precision none = "0"
  format_tokens decimals precision (some raw) = of_raw decimals precision raw
