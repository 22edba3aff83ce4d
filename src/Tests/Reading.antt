-- ===== src/Tests/Reading.antt =====
-- Examples for the listings and the epochs.
use router_pulse_depin_proto.Common.{
  ℕ, ◌<◌, ◌≤◌, String, Bool, false, Option, none, some, List, [], ◌∷◌, ◌≡◌, refl, arith, take, ltb,
}
use router_pulse_depin_proto.Common.Int.{pos}
use router_pulse_depin_proto.Js.{Value, str, num}
use router_pulse_depin_proto.Api.Pagination.{
  Number, binary, CursorCodec, clamp_limit, decode_cursor, listed, type_error,
}
use router_pulse_depin_proto.Api.Pagination.Walk.{walk, following}
use router_pulse_depin_proto.Api.Routers.{Row, list_routers, list_epochs}
use router_pulse_depin_proto.Mongo.{Doc}
use router_pulse_depin_proto.Mongo.Memory.{memory, empty}
use router_pulse_depin_proto.Api.Pagination.Limits.{IsProperFraction}
use router_pulse_depin_proto.Api.Routers.Detail.{get_one}
use router_pulse_depin_proto.Api.Routers.Heartbeats.{
  Heartbeat, rows, recent_heartbeats, with_id, limited, recent_heartbeats-limit,
}
use router_pulse_depin_proto.Api.Routers.RouterPages.{walk-list_routers, fraction_limit_fails}
use router_pulse_depin_proto.Api.Routers.EpochPages.{select, list_epochs-second_page}
use router_pulse_depin_proto.Indexer.Reconcile.{reconcile_once}
use router_pulse_depin_proto.Api.Protocol.{Epoch, current_epoch_number}
use router_pulse_depin_proto.Api.Protocol.Served.{served, served_epoch, served_epoch-reconcile_once}
use router_pulse_depin_proto.Tests.History.{chain, account}
use router_pulse_depin_proto.Api.Protocol.Epochs.{Covers}
use router_pulse_depin_proto.Tests.Fixtures.{differ, print, base58}

abbrev pub plain : CursorCodec
plain = record { encode = λ s. s; decode = λ s. s }

abbrev row : String → Row
row id = record { id = id; sort_key = str id }

abbrev three : List Row
three = row "1" ∷ row "2" ∷ row "3" ∷ []

abbrev after_id : Option Value → List Row
after_id none = three
after_id (some (str s)) = following (λ (r : Row). r.id) s three
after_id (some _) = []

abbrev serve_rows : Option Value → ℕ → List Row
serve_rows after n = take n (after_id after)

abbrev two : Number
two = binary (pos 2) 0

abbrev half : Number
half = binary (pos 1) 1

walk-list_routers_example :
    walk (λ c. list_routers plain serve_rows (record { cursor = c; limit = two })) 4 none
    ≡ some three
unfolding clamp_limit decode_cursor
walk-list_routers_example =
    walk-list_routers plain serve_rows two three 4 (ground arith) (refl, (refl, (refl, tt)))
      (record { first = λ n. refl; later = (λ n. refl, (λ n. refl, (λ n. refl, tt))) })
      ((differ "2" "1" refl, (differ "3" "1" refl, tt)), ((differ "3" "2" refl, tt), (tt, tt)))
      (omega arith)

fraction_limit_fails_example :
    list_routers plain serve_rows (record { cursor = none; limit = half }) ≡ type_error
unfolding decode_cursor
fraction_limit_fails_example =
    fraction_limit_fails plain serve_rows (record { cursor = none; limit = half }) (row "1") []
      (omega arith, omega arith) refl

-- `$lt` between texts and between whole numbers.
abbrev lt : Value → Value → Bool
lt (num (pos m)) (num (pos n)) = ltb m n
lt _ _ = false

abbrev serve_epochs : Option Value → ℕ → List Row
serve_epochs none n = take n three
serve_epochs (some b) n = take n (select (λ (r : Row). lt r.sort_key b) three)

list_epochs-second_page_example :
    list_epochs plain serve_epochs (record { cursor = some "3"; limit = two })
    ≡ listed (record { items = []; next_cursor = none })
unfolding decode_cursor
list_epochs-second_page_example =
    list_epochs-second_page plain serve_epochs (record { cursor = some "3"; limit = two }) lt three
      "3" (λ s b h. refl) (record { later = λ b n. refl })
      (
        record { text = "1"; stored = refl },
        (record { text = "2"; stored = refl }, (record { text = "3"; stored = refl }, tt)),
      )
      refl

served_epoch-reconcile_once_example :
    (e : Epoch) × (served_epoch
        (memory false)
        (pos 9000)
        (reconcile_once print base58 (memory false) 1 chain empty).db
      ≡ served e)
    × Covers e.start e.finish (pos 9000) e.remaining 3600
    × (e.number ≡ current_epoch_number (pos 1000) (pos 3600) (pos 9000))
served_epoch-reconcile_once_example =
    served_epoch-reconcile_once print base58 (memory false) 1 chain account empty 1000 3600
      (pos 9000) (λ n. refl) refl refl refl (omega arith) (omega arith)

-- A store in which every router has one id, with a heartbeat of it and one of another.
abbrev namesake : Doc
namesake f = some (str "home")

abbrev named : (memory false).Db
named c i = some namesake

abbrev beat_of : String → Heartbeat
beat_of id = record { router_id = str id; document = namesake }

abbrev history : List Heartbeat
history = beat_of "home" ∷ beat_of "away" ∷ beat_of "home" ∷ []

recent_heartbeats-limit_example :
    let answer =
      recent_heartbeats
        (λ id n. limited n (with_id id history))
        (memory false)
        (str "r1")
        (some half)
        named in
    (IsProperFraction half → answer ≡ rows (with_id (str "home") history))
    × (¬ IsProperFraction half
        → (n : ℕ) × (0 < n) × (n ≤ 100) × (answer ≡ rows (take n (with_id (str "home") history))))
unfolding get_one
recent_heartbeats-limit_example =
    recent_heartbeats-limit (λ id n. limited n (with_id id history)) history (λ id n. refl)
      (memory false) (str "r1") (some half) named namesake refl
