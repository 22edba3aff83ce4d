-- ===== src/Js.antt =====
-- JavaScript values as the services meet them: decoded event fields before and after
-- serialisation, and the fields of stored documents.
use Prim.Native.Char.{code}
use mathlib.Core.Bool.{decide, decide_iff}
use router_pulse_depin_proto.Common.{
  ℕ, String, Bool, true, false, ◌==◌, ◌≡◌, ◌↔◌, inl, inr, str_eq, str_eq_iff, ℕ_discrete,
  Bool-cases, if◌then◌else◌,
}
use router_pulse_depin_proto.Common.Int.{ℤ, pos, negsuc, sub_ℕ}
use router_pulse_depin_proto.Common.Decimal.{read, all_digits}

-- `bn` is a bn.js integer, `public_key` a web3.js key (its 32 bytes read as a number) and `date` a
-- time in milliseconds. Numbers are whole: no field of an event or a document is fractional.
mutual
  pub data Value : Type 0 where
    undefined null nan : Value
    bool : Bool → Value
    num : ℤ → Value
    str : String → Value
    bn : ℤ → Value
    public_key : ℕ → Value
    date : ℕ → Value
    arr : Items → Value
    obj : Fields → Value

  pub data Fields : Type 0 where
    end : Fields
    field : String → Value → Fields → Fields

  pub data Items : Type 0 where
    nil : Items
    cons : Value → Items → Items

String-discrete : Discrete String
String-discrete s t = elim (Bool-cases (str_eq s t)) [
  | inl same ↦ yes ((str_eq_iff s t).0 same)
  | inr other ↦ no (λ e. cc (other, (str_eq_iff s t).1 e))
]

Value-discrete : Discrete Value
Value-discrete = hlevel (ℕ_discrete, String-discrete)

-- Identity of two document keys.
pub same_id : Value → Value → Bool
same_id a b = decide (Value-discrete a b)

pub same_id_iff : (a b : Value) → (same_id a b ≡ true) ↔ (a ≡ b)
unfolding same_id
same_id_iff a b = decide_iff (Value-discrete a b)

abbrev same_int : ℤ → ℤ → Bool
same_int (pos m) (pos n) = m == n
same_int (negsuc m) (negsuc n) = m == n
same_int _ _ = false

-- `a === b`. Objects are compared by reference, and no two that the services compare are one.
unfoldable pub strict_eq : Value → Value → Bool
strict_eq undefined undefined = true
strict_eq null null = true
strict_eq (bool true) (bool b) = b
strict_eq (bool false) (bool b) = if b then false else true
strict_eq (num m) (num n) = same_int m n
strict_eq (str s) (str t) = str_eq s t
strict_eq _ _ = false

unfoldable pub get_field : String → Fields → Value
get_field k end = undefined
get_field k (field j v fs) = let rest = get_field k fs in if str_eq j k then v else rest

-- `d.k`; a missing property is `undefined`.
unfoldable pub prop : String → Value → Value
unfolding get_field
prop k (obj fs) = get_field k fs
prop k _ = undefined

-- `Number(s)` of a decimal numeral, as a BN prints itself; no other spelling is met.
abbrev pub from_decimal : Bool → String → Value
from_decimal true s = num (pos (read s))
from_decimal false s = nan

abbrev pub negated : Value → Value
negated (num (pos n)) = num (sub_ℕ 0 n)
negated v = nan

unfoldable pub to_number : Value → Value
to_number (num n) = num n
to_number (bool b) = if b then num (pos 1) else num (pos 0)
to_number null = num (pos 0)
to_number (str String.[]) = num (pos 0)
to_number (str (String.◌∷◌ c s)) =
    if code c == b'-'
    then negated (from_decimal (all_digits s) s)
    else from_decimal (all_digits (String.◌∷◌ c s)) (String.◌∷◌ c s)
to_number _ = nan

-- `${v}` of a string; nothing else is put into a document key.
unfoldable pub key_text : Value → String
key_text (str s) = s
key_text undefined = "undefined"
key_text null = "null"
key_text (bool b) = if b then "true" else "false"
key_text _ = "[object Object]"
