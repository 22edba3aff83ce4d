-- ===== src/Web/Page.antt =====
-- web/src/app/operator/page.tsx: the operator's page, its effects and what it renders.
use router_pulse_depin_proto.Common.{
  ℕ, suc, ◌==◌, String, Bool, true, false, Option, none, some, List, [], ◌≡◌, refl, if◌then◌else◌,
  str_eq,
}
use router_pulse_depin_proto.Web.Fetch.{Outcome, returned, raised}
use router_pulse_depin_proto.Web.Operator.{Epoch}

-- An answer of the admin endpoint, as `authedFetch` gives it; no entries where `data` is no array.
pub record Answer (E : Type 0) : Type 0 where
  pub ok : Bool
  pub status : ℕ
  pub entries : Option (List E)

-- The state of the page, over the types of its routers and of the entries of the audit log.
pub record Page (R E : Type 0) : Type 0 where
  pub wallet : Option String
  pub routers : Option (List R)
  pub loading : Bool
  pub selected : Option String
  pub epochs : List Epoch
  pub authenticated : Bool
  pub audit : Option (List E)
  pub admin_status : Option ℕ
  pub refresh_key : ℕ

-- What is rendered of the admin access.
pub data Panel (E : Type 0) : Type 0 where
  signed_out checking refused : Panel E
  unlocked : Option (List E) → Panel E
  unreachable : ℕ → Panel E

-- `p.items ?? []`.
abbrev items : {A : Type 0} → Option (List A) → List A
items none = []
items (some xs) = xs

abbrev loaded : {A : Type 0} → Outcome (Option (List A)) → List A
loaded (returned o) = items o
loaded (raised e) = []

abbrev panel_of : {E : Type 0} → Option ℕ → Option (List E) → Panel E
panel_of none audit = checking
panel_of (some status) audit =
    if status == 200 then unlocked audit else if status == 403 then refused else unreachable status

module _ {R E : Type 0} where
  -- The effect on `[wallet, refreshKey]`; without a wallet nothing is requested.
  abbrev pub routers_effect : Page R E → Page R E
  routers_effect p = elim p.wallet [
    | none ↦ record p { routers = none }
    | some w ↦ record p { loading = true }
  ]

  -- What the effect does with its response, whenever that comes.
  unfoldable pub routers_came : Outcome (Option (List R)) → Page R E → Page R E
  routers_came o p = record p { routers = some (loaded o); loading = false }

  -- The effect on `[selected, refreshKey]`.
  abbrev pub epochs_effect : Page R E → Page R E
  epochs_effect p = elim p.selected [ none ↦ record p { epochs = [] } | some s ↦ p ]

  unfoldable pub epochs_came : Outcome (Option (List Epoch)) → Page R E → Page R E
  epochs_came o p = record p { epochs = loaded o }

  -- The effect on `[isAuthenticated, session]`.
  abbrev pub admin_effect : Page R E → Page R E
  admin_effect p = if p.authenticated then p else record p { audit = none; admin_status = none }

  abbrev answered_with : Outcome (Answer E) → Page R E → Page R E
  answered_with (returned a) p = record p {
    admin_status = some a.status;
    audit = if a.ok then a.entries else none;
  }
  answered_with (raised e) p = record p { admin_status = some 0 }

  unfoldable pub admin_came : Outcome (Answer E) → Page R E → Page R E
  admin_came o p = answered_with o p

  unfoldable pub set_wallet : Option String → Page R E → Page R E
  set_wallet w p = routers_effect (record p { wallet = w })

  unfoldable pub set_authenticated : Bool → Page R E → Page R E
  set_authenticated b p = admin_effect (record p { authenticated = b })

  -- The button of a router.
  unfoldable pub toggle : String → Page R E → Page R E
  toggle r p = elim p.selected [
    | none ↦ epochs_effect (record p { selected = some r })
    | some s ↦ epochs_effect (record p { selected = if str_eq s r then none else some r })
  ]

  -- The timer of `refresh`, which reruns two of the effects.
  unfoldable pub refreshed : Page R E → Page R E
  refreshed p = epochs_effect (routers_effect (record p { refresh_key = suc p.refresh_key }))

  unfoldable pub panel : Page R E → Panel E
  panel p = if p.authenticated then panel_of p.admin_status p.audit else signed_out

  -- An answer of the admin endpoint that comes after its session has ended is kept for the next
  -- one: when another wallet signs in, the page tells it that it is the protocol's authority and
  -- shows it the entries of the wallet before, until its own answer comes.
  pub panel_stale :
      (p : Page R E) (entries : List E)
      → let late =
          admin_came
            (returned (record { ok = true; status = 200; entries = some entries }))
            (set_authenticated false p) in
        (panel late ≡ signed_out) × (panel (set_authenticated true late) ≡ unlocked (some entries))
  unfolding panel admin_came set_authenticated
  panel_stale p entries = (refl, refl)

  -- An answer that comes within its session decides the panel, whatever was there before.
  pub panel-admin_came :
      (p : Page R E) (a : Answer E)
      → panel (admin_came (returned a) (set_authenticated true p)) ≡ (
          if a.status == 200
          then unlocked (if a.ok then a.entries else none)
          else if a.status == 403
          then refused
          else unreachable a.status)
  unfolding panel admin_came set_authenticated
  panel-admin_came p a = refl
