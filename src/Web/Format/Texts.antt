-- ===== src/Web/Format/Texts.antt =====
-- The texts of amounts: trimming, splitting and padding them (web/src/lib/api.ts,
-- web/src/components/RouterActions.tsx).
use Prim.Native.Char.{Char, code}
use Prim.Native.String.{◌++◌}
use text.Mathlib.TextLemmas.{nil-append, cons-append}
use router_pulse_depin_proto.Common.{
  ℕ, zero, suc, ◌+◌, ◌-◌, ◌*◌, ◌/◌, ◌^◌, ◌≤◌, ◌==◌, ◌&&◌, not, leb, String, Bool, true, false, [],
  ◌∷◌, if◌then◌else◌, ◌≡◌, refl, ap, ◌∙◌, arith, Bool-cases, inl, inr,
}
use router_pulse_depin_proto.Common.Decimal.{read_from, read_from-append, read, digits_only}
use router_pulse_depin_proto.Common.Numerals.{
  size, zeros, prefix, size-prefix, prefix-append, prefix-zeros, read_from-zeros, read-prefix,
}
use router_pulse_depin_proto.Web.Format.{is_empty, is_space, is_0, trim_start, strip_end, split_dot}

unfoldable pub lacks : (ℕ → Bool) → String → Bool
lacks p String.[] = true
lacks p (String.◌∷◌ c s) = not (p (code c)) && lacks p s

pub lacks-append : (p : ℕ → Bool) (s t : String) → lacks p (s ++ t) ≡ (lacks p s && lacks p t)
unfolding lacks
lacks-append p String.[] t = rw nil-append refl
lacks-append p (String.◌∷◌ c s) t = rw (cons-append, lacks-append p s t) (ground arith)

pub trim_start-lacks : (s : String) → lacks is_space s ≡ true → trim_start s ≡ s
unfolding lacks trim_start
trim_start-lacks String.[] h = refl
trim_start-lacks (String.◌∷◌ c s) h = ground arith

pub strip_end-lacks : (p : ℕ → Bool) (s : String) → lacks p s ≡ true → strip_end p s ≡ s
unfolding lacks strip_end
strip_end-lacks p String.[] h = refl
strip_end-lacks p (String.◌∷◌ c s) h = ground (arith, strip_end-lacks p s)

abbrev pub is_dot : ℕ → Bool
is_dot n = n == b'.'

pub split_dot-lacks : (s : String) → lacks is_dot s ≡ true → split_dot s ≡ s ∷ []
unfolding lacks split_dot
split_dot-lacks String.[] h = refl
split_dot-lacks (String.◌∷◌ c s) h = ground (arith, split_dot-lacks s)

pub split_dot-append :
    (s t : String) → lacks is_dot s ≡ true → split_dot (s ++ "." ++ t) ≡ s ∷ split_dot t
unfolding lacks split_dot
split_dot-append String.[] t h = rw (nil-append, cons-append, nil-append) refl
split_dot-append (String.◌∷◌ c s) t h = rw cons-append (ground (arith, split_dot-append s t))

digits-lack :
    (p : ℕ → Bool) (s : String)
    → ((n : ℕ) → (leb b'0' n && leb n b'9') ≡ true → p n ≡ false)
    → digits_only s ≡ true
    → lacks p s ≡ true
unfolding lacks digits_only
digits-lack p String.[] f h = refl
digits-lack p (String.◌∷◌ c s) f h = let other = f (code c) in ground (arith, digits-lack p s f)

pub digits-no_space : (s : String) → digits_only s ≡ true → lacks is_space s ≡ true
digits-no_space s h = digits-lack is_space s (λ n e. ground arith) h

pub digits-no_dot : (s : String) → digits_only s ≡ true → lacks is_dot s ≡ true
digits-no_dot s h = digits-lack is_dot s (λ n e. ground arith) h

same_rest :
    (n m acc : ℕ) (c : Char) (s rest : String)
    → read_from (acc * 10 + (code c - 48)) (prefix n (rest ++ zeros m))
      ≡ read_from (acc * 10 + (code c - 48)) (prefix n (s ++ zeros m))
    → read_from acc (prefix (suc n) (String.◌∷◌ c rest ++ zeros m))
      ≡ read_from acc (prefix (suc n) (String.◌∷◌ c s ++ zeros m))
unfolding read_from prefix
same_rest n m acc c s rest h = rw (cons-append c rest (zeros m), cons-append c s (zeros m)) h

all_zeros :
    (n m acc : ℕ) (c : Char)
    → suc n ≤ m
    → code c ≡ 48
    → read_from acc (prefix (suc n) ("" ++ zeros m))
      ≡ read_from acc (prefix (suc n) (String.◌∷◌ c String.[] ++ zeros m))
unfolding read_from prefix
all_zeros n m acc c h e =
    rw
      (
        nil-append,
        cons-append,
        nil-append,
        prefix-zeros (suc n) m h,
        prefix-zeros n m (omega arith),
        e,
      )
      (unfold zeros in refl)

strip_step :
    (n m acc : ℕ) (c : Char) (s rest : String)
    → suc n ≤ m
    → read_from (acc * 10 + (code c - 48)) (prefix n (rest ++ zeros m))
      ≡ read_from (acc * 10 + (code c - 48)) (prefix n (s ++ zeros m))
    → read_from acc (
        prefix
          (suc n)
          ((if is_empty rest && is_0 (code c) then "" else String.◌∷◌ c rest) ++ zeros m))
      ≡ read_from acc (prefix (suc n) (String.◌∷◌ c s ++ zeros m))
strip_step n m acc c s String.[] h ih = elim (Bool-cases (is_0 (code c))) [
  | inl e ↦ rw e (all_zeros n m acc c h (ground arith) ∙ same_rest n m acc c s String.[] ih)
  | inr e ↦ rw e (same_rest n m acc c s String.[] ih)
]
strip_step n m acc c s (String.◌∷◌ d rest) h ih = same_rest n m acc c s (String.◌∷◌ d rest) ih

-- Zeros at the end of a fraction do not matter where it is padded.
read-strip_end :
    (n m acc : ℕ) (s : String)
    → n ≤ m
    → read_from acc (prefix n (strip_end is_0 s ++ zeros m))
      ≡ read_from acc (prefix n (s ++ zeros m))
unfolding strip_end
read-strip_end n m acc String.[] h = refl
read-strip_end zero m acc (String.◌∷◌ c s) h = unfold prefix in refl
read-strip_end (suc n) m acc (String.◌∷◌ c s) h =
    strip_step n m acc c s (strip_end is_0 s) h
      (read-strip_end n m (acc * 10 + (code c - 48)) s (omega arith))

pub padded-read :
    (p : ℕ) (s : String)
    → p ≤ 9
    → digits_only s ≡ true
    → size s ≡ 9
    → read (prefix 9 (strip_end is_0 (prefix p s) ++ zeros 9))
      ≡ read s / 10 ^ (9 - p) * 10 ^ (9 - p)
unfolding read
padded-read p s hp h e =
    let short = size-prefix p s (omega arith) in
    read-strip_end 9 9 0 (prefix p s) (omega arith)
    ∙ ap (read_from 0) (prefix-append 9 (prefix p s) (zeros 9) (omega arith))
    ∙ rw (short, prefix-zeros (9 - p) 9 (omega arith), read_from-append, read_from-zeros)
        (ap (λ q. q * 10 ^ (9 - p)) (read-prefix p (9 - p) s h (omega arith)))
