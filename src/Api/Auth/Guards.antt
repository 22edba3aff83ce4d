-- ===== src/Api/Auth/Guards.antt =====
-- api/src/auth/guards/*.ts: who may read the admin endpoints, which stack the two guards.
use Prim.Native.Char.{code}
use router_pulse_depin_proto.Common.{
  ℕ, ◌==◌, String, Bool, true, false, not, Option, none, some, ◌≡◌, refl, ◌∙◌, str_eq,
  if◌then◌else◌, Bool-cases, Option-cases, inl, inr,
}
use router_pulse_depin_proto.Common.Int.{ℤ, pos}
use router_pulse_depin_proto.Js.{Value, undefined, null, nan, bool, num, str, strict_eq, prop}
use router_pulse_depin_proto.Mongo.{Mongo, Doc, applied, protocol, routers, epochs}
use router_pulse_depin_proto.Mongo.Laws.{hits_self}
use router_pulse_depin_proto.Indexer.Reconcile.{
  Chain, ProtocolAccount, reconcile_once, protocol_update, member, reconcile_routers,
  reconcile_epochs, router_key, router_fields, router_drifted, epoch_doc_key, epoch_fields,
  epoch_drifted,
}
use router_pulse_depin_proto.Indexer.Reconcile.Refresh.{refresh-elsewhere}

unfoldable pub strip_prefix : String → String → Option String
strip_prefix String.[] s = some s
strip_prefix (String.◌∷◌ c p) String.[] = none
strip_prefix (String.◌∷◌ c p) (String.◌∷◌ d s) =
    let rest = strip_prefix p s in if code c == code d then rest else none

-- The two exceptions of the guards, and the way to the handler.
pub data Guarded : Type 0 where
  unauthorized forbidden admitted : Guarded

unfoldable pub is_truthy : Value → Bool
is_truthy undefined = false
is_truthy null = false
is_truthy nan = false
is_truthy (bool b) = b
is_truthy (num (pos n)) = not (n == 0)
is_truthy (str s) = not (str_eq s "")
is_truthy _ = true

-- `verify_token` is the JWT service's `verifyAsync`: the payload, or `none` where it throws.
module _ (verify_token : String → Option Value) where
  abbrev from_bearer : Option String → Option Value
  from_bearer none = none
  from_bearer (some bearer) = verify_token bearer

  -- `JwtAuthGuard.canActivate`: the user that it attaches, or `none` where it throws.
  unfoldable pub jwt_guard : Option String → Option Value
  unfolding strip_prefix
  jwt_guard none = none
  jwt_guard (some header) = from_bearer (strip_prefix "Bearer " header)

  module _ (m : Mongo) where
    abbrev against : Option Doc → Value → Guarded
    against none wallet = forbidden
    against (some doc) wallet =
        if strict_eq (member "authority" doc) wallet then admitted else forbidden

    -- `ProtocolAuthorityGuard.canActivate`.
    unfoldable pub authority_guard : Value → m.Db → Guarded
    unfolding is_truthy
    authority_guard user db =
        let wallet = prop "wallet" user in
        if is_truthy wallet
        then against (m.find_one protocol (str "protocol") db) wallet
        else forbidden

    abbrev guarded : Option Value → m.Db → Guarded
    guarded none db = unauthorized
    guarded (some user) db = authority_guard user db

    -- `@UseGuards(JwtAuthGuard, ProtocolAuthorityGuard)`.
    unfoldable pub admin_guard : Option String → m.Db → Guarded
    admin_guard header db = guarded (jwt_guard header) db

-- The protocol's document after a pass over an initialised chain.
pub reconciled-authority :
    (bn_to_string : ℤ → String) (to_base58 : ℕ → String) (m : Mongo) (now : ℕ) (chain : Chain)
    (a : ProtocolAccount) (db : m.Db)
    → chain.protocol_account ≡ some a
    → m.find_one protocol (str "protocol") (reconcile_once bn_to_string to_base58 m now chain db).db
      ≡ some (
          applied
            (protocol_update bn_to_string to_base58 m now a)
            (m.find_one protocol (str "protocol") db))
unfolding reconcile_once reconcile_routers reconcile_epochs
reconciled-authority b t m now chain a db h =
    let db0 = m.update_one protocol (str "protocol") (protocol_update b t m now a) db in
    let db1 = (reconcile_routers b t m now chain.all_routers 0 db0).1 in
    rw h (
      refresh-elsewhere m epochs (epoch_doc_key b t) (epoch_fields b t) (epoch_drifted b t) now
        chain.all_epochs 0 protocol (str "protocol") db1 refl
      ∙ refresh-elsewhere m routers (router_key b t) (router_fields b t) (router_drifted b t) now
          chain.all_routers 0 protocol (str "protocol") db0 refl
      ∙ m.find_one-update_one protocol (str "protocol") (protocol_update b t m now a) db protocol
          (str "protocol")
      ∙ rw (hits_self protocol (str "protocol")) refl)

against-admitted :
    (verify_token : String → Option Value) (m : Mongo) (o : Option Doc) (wallet : Value)
    → against verify_token m o wallet ≡ admitted
    → (doc : Doc) × (o ≡ some doc) × (strict_eq (member "authority" doc) wallet ≡ true)
against-admitted verify_token m none wallet h = absurd cc
against-admitted verify_token m (some doc) wallet h =
    elim (Bool-cases (strict_eq (member "authority" doc) wallet)) [
      | inl same ↦ (doc, refl, same)
      | inr other ↦ let bad = rw other at h in absurd cc
    ]

-- The admin endpoints let a request in only if the protocol is in the database, the header is
-- "Bearer " and a token that the JWT service accepts, and the token's wallet is the authority that
-- the document names.
pub admin_guard-admitted :
    (verify_token : String → Option Value) (m : Mongo) (header : Option String) (db : m.Db)
    → admin_guard verify_token m header db ≡ admitted
    → (user : Value) × (doc : Doc) × (jwt_guard verify_token header ≡ some user)
      × (m.find_one protocol (str "protocol") db ≡ some doc)
      × (is_truthy (prop "wallet" user) ≡ true)
      × (strict_eq (member "authority" doc) (prop "wallet" user) ≡ true)
unfolding admin_guard authority_guard
admin_guard-admitted verify_token m header db h =
    elim (Option-cases (jwt_guard verify_token header)) [
      | inl refused ↦ let bad = rw refused at h in absurd cc
      | inr (user, known) ↦
          let h_user = rw known at h in
          elim (Bool-cases (is_truthy (prop "wallet" user))) [
            | inl present ↦
                let h_doc = rw present at h_user in
                let (doc, there, same) =
                  against-admitted verify_token m (m.find_one protocol (str "protocol") db)
                    (prop "wallet" user) h_doc in
                (user, doc, known, there, present, same)
            | inr absent ↦ let bad = rw absent at h_user in absurd cc
          ]
    ]
