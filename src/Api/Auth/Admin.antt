-- ===== src/Api/Auth/Admin.antt =====
-- Who the two guards of the admin endpoints let in, after a pass of the reconciliation.
use Prim.Native.Char.{code}
use Prim.Native.String.{◌++◌}
use text.Mathlib.TextEquality.{Char-path}
use text.Mathlib.TextLemmas.{nil-append, cons-append}
use router_pulse_depin_proto.Common.{
  ℕ, ◌==◌, String, true, false, Option, none, some, ◌≡◌, ◌≢◌, ◌↔◌, refl, sym, ap, arith, str_eq,
  str_eq_iff, Bool-cases, Option-cases, inl, inr,
}
use router_pulse_depin_proto.Common.Int.{ℤ}
use router_pulse_depin_proto.Js.{Value, undefined, null, nan, str, strict_eq, prop}
use router_pulse_depin_proto.Mongo.{Mongo}
use router_pulse_depin_proto.Indexer.Reconcile.{Chain, ProtocolAccount, reconcile_once}
use router_pulse_depin_proto.Api.Auth.Guards.{
  strip_prefix, is_truthy, unauthorized, admitted, jwt_guard, authority_guard, admin_guard,
  reconciled-authority,
}

strip_prefix-append : (p t : String) → strip_prefix p (p ++ t) ≡ some t
unfolding strip_prefix
strip_prefix-append String.[] t = rw nil-append refl
strip_prefix-append (String.◌∷◌ c p) t = rw cons-append (ground (arith, strip_prefix-append p t))

strip_prefix-some : (p s t : String) → strip_prefix p s ≡ some t → s ≡ p ++ t
unfolding strip_prefix
strip_prefix-some String.[] s t h = rw nil-append cc
strip_prefix-some (String.◌∷◌ c p) String.[] t h = cc
strip_prefix-some (String.◌∷◌ c p) (String.◌∷◌ d s) t h = elim (Bool-cases (code c == code d)) [
  | inl same ↦
      let rest = rw same at h in
      let heads : code d ≡ code c = ground (arith, same) in
      let tails = strip_prefix-some p s t rest in
      rw (cons-append, sym tails) (ap (λ x. String.◌∷◌ x s) (Char-path d c heads))
  | inr other ↦ let bad = rw other at h in cc
]

-- The holder of a session: the header is "Bearer " and a token that the JWT service verifies.
abbrev pub IsSession : (String → Option Value) → Option String → Value → Type 0
IsSession verify_token header user =
    (token : String) × (header ≡ some ("Bearer " ++ token)) × (verify_token token ≡ some user)

module _ (verify_token : String → Option Value) where
  jwt_guard-IsSession :
      (header : Option String) (user : Value)
      → jwt_guard verify_token header ≡ some user
      → IsSession verify_token header user
  unfolding jwt_guard
  jwt_guard-IsSession none user h = absurd cc
  jwt_guard-IsSession (some text) user h = elim (Option-cases (strip_prefix "Bearer " text)) [
    | inl other ↦ let bad = rw other at h in absurd cc
    | inr (token, there) ↦
        let verified = rw there at h in
        (token, ap some (strip_prefix-some "Bearer " text token there), verified)
  ]

  IsSession-jwt_guard :
      (header : Option String) (user : Value)
      → IsSession verify_token header user
      → jwt_guard verify_token header ≡ some user
  unfolding jwt_guard
  IsSession-jwt_guard header user (token, e, verified) =
      rw (e, strip_prefix-append "Bearer " token) verified

strict_eq-str : (s : String) (v : Value) → strict_eq (str s) v ≡ true → v ≡ str s
unfolding strict_eq
strict_eq-str s (str t) h = ap str (sym ((str_eq_iff s t).0 h))
strict_eq-str s undefined h = cc
strict_eq-str s null h = cc
strict_eq-str s nan h = cc
strict_eq-str s _ h = cc

module _ (bn_to_string : ℤ → String) (to_base58 : ℕ → String) (m : Mongo) (now : ℕ) (chain : Chain)
    (a : ProtocolAccount) (db : m.Db) (ready : chain.protocol_account ≡ some a) where
  abbrev after : m.Db
  after = (reconcile_once bn_to_string to_base58 m now chain db).db

  of_authority :
      (verify_token : String → Option Value) (user : Value)
      → str_eq (to_base58 a.authority) "" ≡ false
      → prop "wallet" user ≡ str (to_base58 a.authority)
      → authority_guard verify_token m user after ≡ admitted
  unfolding authority_guard is_truthy strict_eq
  of_authority verify_token user long wallet =
      rw
        (
          wallet,
          long,
          reconciled-authority bn_to_string to_base58 m now chain a db ready,
          (str_eq_iff (to_base58 a.authority) (to_base58 a.authority)).1 refl,
        )
        refl

  is_authority :
      (verify_token : String → Option Value) (user : Value)
      → authority_guard verify_token m user after ≡ admitted
      → prop "wallet" user ≡ str (to_base58 a.authority)
  unfolding authority_guard
  is_authority verify_token user h = elim (Bool-cases (is_truthy (prop "wallet" user))) [
    | inr absent ↦ let bad = rw absent at h in absurd cc
    | inl present ↦
        let against_doc =
          rw (present, reconciled-authority bn_to_string to_base58 m now chain a db ready) at h in
        elim (Bool-cases (strict_eq (str (to_base58 a.authority)) (prop "wallet" user))) [
          | inl same ↦ strict_eq-str (to_base58 a.authority) (prop "wallet" user) same
          | inr other ↦ let bad = rw other at against_doc in absurd cc
        ]
  ]

  not_unauthorized :
      (verify_token : String → Option Value) (user : Value)
      → authority_guard verify_token m user after ≢ unauthorized
  unfolding authority_guard
  not_unauthorized verify_token user h = elim (Bool-cases (is_truthy (prop "wallet" user))) [
    | inr absent ↦ let bad = rw absent at h in cc
    | inl present ↦
        let against_doc =
          rw (present, reconciled-authority bn_to_string to_base58 m now chain a db ready) at h in
        elim (Bool-cases (strict_eq (str (to_base58 a.authority)) (prop "wallet" user))) [
          | inl same ↦ let bad = rw same at against_doc in cc
          | inr other ↦ let bad = rw other at against_doc in cc
        ]
  ]

same_wallet :
    (u v : Value) (o : Option Value) (wallet : Value)
    → o ≡ some v
    → o ≡ some u
    → prop "wallet" u ≡ wallet
    → prop "wallet" v ≡ wallet
same_wallet u v o wallet ev eu h = cc

-- After a pass over a chain with a protocol account, whose authority's address is not empty, and
-- whatever the database held before the pass: a request is let in to the admin endpoints exactly if
-- its header is "Bearer " and a token that the JWT service verifies and whose wallet is the
-- account's authority, and it is answered as unauthorized exactly if its header is not "Bearer " and
-- a token that the JWT service verifies. So the session of any other wallet is forbidden.
pub admin_guard-reconcile_once :
    (bn_to_string : ℤ → String) (to_base58 : ℕ → String) (m : Mongo) (now : ℕ) (chain : Chain)
    (a : ProtocolAccount) (db : m.Db) (verify_token : String → Option Value)
    (header : Option String)
    → chain.protocol_account ≡ some a
    → str_eq (to_base58 a.authority) "" ≡ false
    → let outcome =
        admin_guard verify_token m header
          (reconcile_once bn_to_string to_base58 m now chain db).db in
      (outcome ≡ admitted ↔ (
        (user : Value) × IsSession verify_token header user
        × (prop "wallet" user ≡ str (to_base58 a.authority))))
      × (outcome ≡ unauthorized ↔ ¬ ((user : Value) × IsSession verify_token header user))
unfolding admin_guard
admin_guard-reconcile_once b t m now chain a db verify_token header ready long =
    elim (Option-cases (jwt_guard verify_token header)) [
      | inl refused ↦
          let no_session : (u : Value) → IsSession verify_token header u → ⊥ =
            λ u s. cc (refused, IsSession-jwt_guard verify_token header u s) in
          rw refused (
            ((λ e. absurd cc), (λ s. absurd (no_session s.0 s.1))),
            ((λ e s. no_session s.0 s.1), (λ none_here. refl)),
          )
      | inr (user, known) ↦
          let session = jwt_guard-IsSession verify_token header user known in
          rw known (
            (
              (λ e. (user, session, is_authority b t m now chain a db ready verify_token user e)),
              (λ s. of_authority b t m now chain a db ready verify_token user long (
                  same_wallet s.0 user (jwt_guard verify_token header) (str (t a.authority)) known
                    (IsSession-jwt_guard verify_token header s.0 s.1) s.2)),
            ),
            (
              (λ e. absurd (not_unauthorized b t m now chain a db ready verify_token user e)),
              (λ none_here. absurd (none_here (user, session))),
            ),
          )
    ]
