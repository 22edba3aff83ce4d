-- ===== src/Web/Labels.antt =====
-- web/src/lib/api.ts: the short texts of the pages (formatBps, shortAddress, timeAgo).
use Prim.Native.String.{◌++◌}
use router_pulse_depin_proto.Common.{
  ℕ, suc, ◌+◌, ◌-◌, ◌*◌, ◌/◌, ◌%◌, ◌≤◌, ◌==◌, String, false, Option, none, some, ltb, leb,
  if◌then◌else◌, ◌≡◌, refl, arith, Bool-cases, inl, inr,
}
use router_pulse_depin_proto.Common.Int.{ℤ, pos, negsuc, ◌-ℤ◌}
use router_pulse_depin_proto.Common.Decimal.{show}
use router_pulse_depin_proto.Common.Numerals.{
  size, zeros, prefix, suffix, size-append, size-prefix, size-suffix,
}
use router_pulse_depin_proto.Web.Format.{pad_start}

abbrev percent : ℕ → String
percent n = show (n / 100) ++ "." ++ pad_start 2 (show (n % 100)) ++ "%"

-- `formatBps`, of a whole number of basis points, whose hundredth `toFixed(2)` prints exactly.
unfoldable pub format_bps : Option ℤ → String
unfolding show size
format_bps none = "—"
format_bps (some (pos n)) = percent n
format_bps (some (negsuc n)) = "-" ++ percent (suc n)

-- `addr.slice(-chars)`, which is all of the text for 0.
abbrev last_chars : ℕ → String → String
last_chars chars s = suffix (if chars == 0 then 0 else size s - chars) s

abbrev shortened : ℕ → String → String
shortened chars s =
    if leb (size s) (chars * 2 + 3) then s else prefix chars s ++ "…" ++ last_chars chars s

abbrev short_text : ℕ → String → String
short_text chars String.[] = "—"
short_text chars (String.◌∷◌ c s) = shortened chars (String.◌∷◌ c s)

unfoldable pub short_address : Option String → ℕ → String
unfolding size prefix suffix
short_address none chars = "—"
short_address (some s) chars = short_text chars s

abbrev ago : ℤ → String
ago (negsuc n) = "-" ++ show (suc n) ++ "s ago"
ago (pos n) =
    if ltb n 60
    then show n ++ "s ago"
    else if ltb n 3600
    then show (n / 60) ++ "m ago"
    else if ltb n 86400
    then show (n / 3600) ++ "h ago"
    else show (n / 86400) ++ "d ago"

-- `timeAgo`, with the time of the call in seconds.
unfoldable pub time_ago : ℤ → Option ℤ → String
unfolding ◌-ℤ◌ show
time_ago now none = "never"
time_ago now (some (pos ℕ.zero)) = "never"
time_ago now (some (pos (suc n))) = ago (now -ℤ pos (suc n))
time_ago now (some (negsuc n)) = ago (now -ℤ negsuc n)

shortened-fits : (chars : ℕ) (s : String) → 1 ≤ chars → size (shortened chars s) ≤ chars * 2 + 3
shortened-fits chars s h = elim (Bool-cases (leb (size s) (chars * 2 + 3))) [
  | inl short ↦ rw short (ground (arith, short))
  | inr long ↦
      let some_chars : (chars == 0) ≡ false = ground arith in
      let enough : chars ≤ size s = ground (arith, long) in
      rw (long, some_chars, size-append, size-append, size-prefix chars s enough, size-suffix)
        (unfold size in omega (arith, enough))
]

-- An address shown with at least one character at each end takes at most three more characters
-- than those.
pub short_address-fits :
    (address : Option String) (chars : ℕ)
    → 1 ≤ chars
    → size (short_address address chars) ≤ chars * 2 + 3
unfolding short_address
short_address-fits none chars h = unfold size in omega arith
short_address-fits (some String.[]) chars h = unfold size in omega arith
short_address-fits (some (String.◌∷◌ c s)) chars h = shortened-fits chars (String.◌∷◌ c s) h

bps_test : format_bps (some (pos 9505)) ≡ "95.05%"
unfolding format_bps zeros
bps_test = refl

address_test : short_address (some "4Nd1mYabcdefghijk") 4 ≡ "4Nd1…hijk"
unfolding short_address
address_test = refl

ago_test : time_ago (pos 10000) (some (pos 2700)) ≡ "2h ago"
unfolding time_ago
ago_test = refl
