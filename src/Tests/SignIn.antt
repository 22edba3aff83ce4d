-- ===== src/Tests/SignIn.antt =====
-- Examples for the sign-in and the guards.
use router_pulse_depin_proto.Common.{
  ℕ, ◌-◌, ◌<◌, ◌≤◌, String, Bool, false, Option, none, some, List, [], ◌∷◌, ◌≡◌, ◌≢◌, ◌↔◌, refl,
  arith, ltb, str_eq, str_eq_iff, Bool-cases, inl, inr, if◌then◌else◌, ap,
}
use router_pulse_depin_proto.Common.Decimal.{show}
use router_pulse_depin_proto.Js.{Value, str, prop, obj, field, end}
use router_pulse_depin_proto.Mongo.Memory.{memory, empty}
use router_pulse_depin_proto.Indexer.Reconcile.{reconcile_once}
use router_pulse_depin_proto.Api.Auth.{
  Redis, challenge_message, unauthorized, token, issue_challenge, verify, examined,
}
use router_pulse_depin_proto.Api.Auth.SingleUse.{
  Request, issuing, verifying, waiting, sessions, challenges, sessions-le-challenges,
}
use router_pulse_depin_proto.Api.Auth.Overlap.{reads, concludes, run, idle, overlapping-open_each}
use router_pulse_depin_proto.Api.Auth.Guards.{Guarded, admin_guard, admitted}
use router_pulse_depin_proto.Api.Auth.Admin.{IsSession, admin_guard-reconcile_once}
use router_pulse_depin_proto.Tests.History.{chain, account}
use router_pulse_depin_proto.Tests.Fixtures.{print, base58}

-- A Redis in memory: each key with its value and the seconds that it has left.
abbrev Cells : Type 0
Cells = String → Option (String × ℕ)

abbrev shown : Option (String × ℕ) → Option String
shown none = none
shown (some (v, ttl)) = if ltb 0 ttl then some v else none

abbrev aged : ℕ → Option (String × ℕ) → Option (String × ℕ)
aged d none = none
aged d (some (v, ttl)) = some (v, ttl - d)

abbrev put_cell : String → Option (String × ℕ) → Cells → Cells
put_cell k c s j = if str_eq j k then c else s j

put_cell_own : (k : String) (c : Option (String × ℕ)) (s : Cells) → put_cell k c s k ≡ c
put_cell_own k c s = rw ((str_eq_iff k k).1 refl) refl

put_cell_other :
    (j k : String) (c : Option (String × ℕ)) (s : Cells) → j ≢ k → put_cell k c s j ≡ s j
put_cell_other j k c s h = elim (Bool-cases (str_eq j k)) [
  | inl same ↦ absurd (h ((str_eq_iff j k).0 same))
  | inr differs ↦ rw differs refl
]

shown-aged : (d : ℕ) (c : Option (String × ℕ)) → shown c ≡ none → shown (aged d c) ≡ none
shown-aged d none h = refl
shown-aged d (some (v, ttl)) h = ground (arith, h)

shown_live : (v : String) (ttl d : ℕ) → d < ttl → shown (aged d (some (v, ttl))) ≡ some v
shown_live v ttl d h = ground (arith, h)

shown_dead : (v : String) (ttl d : ℕ) → ttl ≤ d → shown (aged d (some (v, ttl))) ≡ none
shown_dead v ttl d h = ground (arith, h)

abbrev cells : Redis
cells = record {
  Store = Cells;
  get = λ k s. shown (s k);
  set = λ k v ttl s. put_cell k (some (v, ttl)) s;
  del = λ k s. put_cell k none s;
  elapse = λ d s k. aged d (s k);
  get-set = λ k v ttl d s h. rw (put_cell_own k (some (v, ttl)) s) (shown_live v ttl d h);
  get-set_expired = λ k v ttl d s h. rw (put_cell_own k (some (v, ttl)) s) (shown_dead v ttl d h);
  get-set_other = λ j k v ttl s h. ap shown (put_cell_other j k (some (v, ttl)) s h);
  get-del = λ k s. ap shown (put_cell_own k none s);
  get-del_other = λ j k s h. ap shown (put_cell_other j k none s h);
  get-elapse_none = λ k d s h. shown-aged d (s k) h;
}

-- A check that accepts the wallet's name as its signature, and tokens that are wallets.
abbrev check : String → String → String → Option Bool
check message signature wallet = some (str_eq signature wallet)

abbrev sign : String → String
sign wallet = wallet

abbrev requests : List Request
requests =
    issuing "w" "n1" "t1"
    ∷ verifying "w" "w"
    ∷ verifying "w" "w"
    ∷ waiting 10
    ∷ issuing "w" "n2" "t2"
    ∷ verifying "w" "x"
    ∷ verifying "w" "w"
    ∷ []

abbrev none_pending : Cells
none_pending k = none

sessions-le-challenges_example :
    sessions cells check sign "w" requests none_pending ≤ challenges cells check sign "w" requests
sessions-le-challenges_example =
    sessions-le-challenges cells check sign "w" requests none_pending refl

abbrev challenged : Cells
challenged = issue_challenge cells check sign "w" "n1" "t1" none_pending

overlapping-open_each_example :
    (run cells check sign
      (reads "w" "w" ∷ reads "w" "w" ∷ concludes ∷ concludes ∷ [])
      (idle cells check sign challenged)).answers
    ≡ token "w" ∷ token "w" ∷ []
unfolding issue_challenge verify examined challenge_message
overlapping-open_each_example = overlapping-open_each cells check sign "w" "w" "w" challenged 2 refl

-- A JWT service whose tokens are the wallets.
abbrev wallet_of : String → Option Value
wallet_of t = some (obj (field "wallet" (str t) end))

abbrev header : Option String
header = some "Bearer k1"

admin_guard-reconcile_once_example :
    let outcome =
      admin_guard wallet_of
        (memory false)
        header
        (reconcile_once print base58 (memory false) 1 chain empty).db in
    (outcome ≡ admitted ↔ (
      (user : Value) × IsSession wallet_of header user
      × (prop "wallet" user ≡ str (base58 account.authority))))
    × (outcome ≡ Guarded.unauthorized ↔ ¬ ((user : Value) × IsSession wallet_of header user))
unfolding show
admin_guard-reconcile_once_example =
    admin_guard-reconcile_once print base58 (memory false) 1 chain account empty wallet_of header
      refl refl
