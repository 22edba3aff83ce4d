-- ===== src/Api/Routers/Detail.antt =====
-- The page of one router, and what reconciliation makes of it.
use router_pulse_depin_proto.Common.{ℕ, String, Option, none, some, ◌≡◌, ◌≢◌, ap, All, All-map}
use router_pulse_depin_proto.Common.Int.{ℤ}
use router_pulse_depin_proto.Js.{Value, str}
use router_pulse_depin_proto.Mongo.{Mongo, Doc, routers}
use router_pulse_depin_proto.Indexer.Reconcile.{Chain, RouterAccount, reconcile_once}
use router_pulse_depin_proto.Indexer.Reconcile.Drift.{IsKeyed}
use router_pulse_depin_proto.Indexer.Reconcile.Dashboard.{IsRouterDoc, reconcile_once-IsOnDashboard}

-- The document, or the `NotFoundException`.
pub data Detail : Type 0 where
  found : Doc → Detail
  not_found : Detail

abbrev detail_of : Option Doc → Detail
detail_of none = not_found
detail_of (some doc) = found doc

-- `getOne`.
unfoldable pub get_one : (m : Mongo) → Value → m.Db → Detail
get_one m router_pda db = detail_of (m.find_one routers router_pda db)

-- A page that is found, and whose document has what the router's account has.
abbrev pub IsShown : (ℤ → String) → (ℕ → String) → (m : Mongo) → m.Db → RouterAccount → Type 0
IsShown bn_to_string to_base58 m db a =
    (doc : Doc) × (get_one m (str (to_base58 a.public_key)) db ≡ found doc)
    × IsRouterDoc bn_to_string to_base58 a doc

-- After a pass over an initialised chain whose accounts have distinct keys, the page of every router
-- of the chain is found at the router's address, and has the owner, the id, the device key and its
-- version, the status, the score, both counts of heartbeats, the totals of rewards and penalties,
-- the stake and both times of the router's account, each under its own name.
pub get_one-reconcile_once :
    (bn_to_string : ℤ → String) (to_base58 : ℕ → String) (m : Mongo) (now : ℕ) (chain : Chain)
    (db : m.Db)
    → IsKeyed bn_to_string to_base58 m chain
    → chain.protocol_account ≢ none
    → All
        (IsShown bn_to_string to_base58 m (reconcile_once bn_to_string to_base58 m now chain db).db)
        chain.all_routers
unfolding get_one
get_one-reconcile_once b t m now chain db keyed ready =
    All-map chain.all_routers (λ a there. (there.0, ap detail_of there.1, there.2))
      (reconcile_once-IsOnDashboard b t m now chain db keyed ready).routers_there
