-- ===== src/Api/Protocol/Served.antt =====
-- ProtocolService of api/src/protocol/protocol.service.ts on the database that the indexer fills.
use router_pulse_depin_proto.Common.{ℕ, ◌<◌, ◌≡◌, refl, String, Option, none, some}
use router_pulse_depin_proto.Common.Decimal.{show}
use router_pulse_depin_proto.Common.Int.{ℤ, pos, ◌≤ℤ◌}
use router_pulse_depin_proto.Js.{Value, num, str, to_number}
use router_pulse_depin_proto.Mongo.{Mongo, Doc, protocol}
use router_pulse_depin_proto.Indexer.Reconcile.{Chain, ProtocolAccount, member, reconcile_once}
use router_pulse_depin_proto.Api.Auth.Guards.{reconciled-authority}
use router_pulse_depin_proto.Api.Explorer.Times.{to_number-show}
use router_pulse_depin_proto.Api.Protocol.{Epoch, current_epoch, current_epoch_number}
use router_pulse_depin_proto.Api.Protocol.Epochs.{Covers, current_epoch-Covers}

-- The answer, the `ServiceUnavailableException`, or numbers that are `NaN`.
pub data Asked (A : Type 0) : Type 0 where
  served : A → Asked A
  unavailable : Asked A
  not_numbers : Asked A

abbrev pub doc_or_unavailable : Option Doc → Asked Doc
doc_or_unavailable none = unavailable
doc_or_unavailable (some doc) = served doc

-- `get`.
unfoldable pub get_protocol : (m : Mongo) → m.Db → Asked Doc
get_protocol m db = doc_or_unavailable (m.find_one protocol (str "protocol") db)

abbrev pub of_numbers : ℤ → Value → Value → Asked Epoch
of_numbers now (num genesis) (num duration) = served (current_epoch genesis duration now)
of_numbers now _ _ = not_numbers

abbrev pub of_protocol : ℤ → Asked Doc → Asked Epoch
of_protocol now (served doc) =
    of_numbers now (to_number (member "genesisTime" doc)) (to_number (member "epochDuration" doc))
of_protocol now unavailable = unavailable
of_protocol now not_numbers = not_numbers

-- `currentEpoch`, at a second.
unfoldable pub served_epoch : (m : Mongo) → ℤ → m.Db → Asked Epoch
unfolding get_protocol current_epoch to_number
served_epoch m now db = of_protocol now (get_protocol m db)

-- After a pass over a chain with a protocol account of a positive duration, and from its genesis on,
-- the API answers with the epoch that the simulator computes from the account, whatever the database
-- held before: it has begun and is not over, and the seconds remaining, at least 1 and at most the
-- duration, lead up to its end exactly. This is for BNs that print in decimal.
pub served_epoch-reconcile_once :
    (bn_to_string : ℤ → String) (to_base58 : ℕ → String) (m : Mongo) (at : ℕ) (chain : Chain)
    (a : ProtocolAccount) (db : m.Db) (genesis duration : ℕ) (now : ℤ)
    → ((n : ℕ) → bn_to_string (pos n) ≡ show n)
    → chain.protocol_account ≡ some a
    → a.genesis_time ≡ pos genesis
    → a.epoch_duration ≡ pos duration
    → 0 < duration
    → pos genesis ≤ℤ now
    → (e : Epoch) × (served_epoch m now (reconcile_once bn_to_string to_base58 m at chain db).db
        ≡ served e)
      × Covers e.start e.finish now e.remaining duration
      × (e.number ≡ current_epoch_number (pos genesis) (pos duration) now)
unfolding served_epoch
served_epoch-reconcile_once b t m at chain a db genesis duration now prints h hg hd positive since =
    let covers = current_epoch-Covers (pos genesis) now duration positive since in
    (
      current_epoch (pos genesis) (pos duration) now,
      rw
          (
            reconciled-authority b t m at chain a db h,
            hg,
            hd,
            prints genesis,
            prints duration,
            to_number-show genesis,
            to_number-show duration,
          )
          refl,
      covers.0,
      covers.1,
    )
