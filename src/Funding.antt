-- ===== src/Funding.antt =====
-- The ledger of funding payments (backend/core/funding_ledger/assign.py).
-- How a payment is shared out among strategies is in Funding/Allocation.
--
-- An event comes normalised: its symbol, its side and its amount as text. The digest of the hash is a
-- parameter, of the business key. The rows that other workers commit between the look-up and the insert are an
-- argument of `upsert_funding_event`; the unique constraints are those of `FundingLedger`.
pub mod Ledger
pub mod Allocation
pub mod Ingest
pub mod Tests
use text.Mathlib.Text.{◌==◌ as text_eq}
use arbitrage_station.Base.{
  ℕ, ◌+◌, String, Bool, true, false, ◌&&◌, ◌||◌, Option, none, some, List, [], ◌∷◌, ◌++◌, ◌==◌,
  if◌then◌else◌,
}

pub data FundingSide : Type 0 where
  receive pay : FundingSide

-- The columns of the fallback constraint.
pub record EventKey : Type 0 where
  pub exchange_id : ℕ
  pub account_key : String
  pub symbol : String
  pub funding_time : ℕ
  pub side : FundingSide
  pub amount_norm : String

pub record FundingEvent : Type 0 where
  pub key : EventKey
  pub source : String
  pub source_ref : String
  pub raw : String

pub record LedgerRow : Type 0 where
  pub key : EventKey
  pub source : String
  pub source_ref : String
  pub normalized_hash : ℕ
  pub raw_payload : String
  pub ingested_at : ℕ

abbrev side_eq : FundingSide → FundingSide → Bool
side_eq receive receive = true
side_eq pay pay = true
side_eq _ _ = false

abbrev pub event_eq : EventKey → EventKey → Bool
event_eq a b =
    (a.exchange_id == b.exchange_id)
    && (text_eq a.account_key b.account_key
        && (text_eq a.symbol b.symbol
            && ((a.funding_time == b.funding_time)
                && (side_eq a.side b.side && text_eq a.amount_norm b.amount_norm))))

abbrev pub has_hash : ℕ → LedgerRow → Bool
has_hash h r = r.normalized_hash == h

abbrev pub has_event : EventKey → LedgerRow → Bool
has_event k r = event_eq r.key k

-- `source or "unknown"`; an empty reference is made of the event's own parts, which `make_ref` joins.
abbrev source_of : FundingEvent → String
source_of e = if text_eq e.source "" then "unknown" else e.source

abbrev ref_of : (EventKey → String) → FundingEvent → String
ref_of make_ref e = if text_eq e.source_ref "" then make_ref e.key else e.source_ref

-- What a row that is found again takes of the event.
abbrev pub refreshed : (EventKey → String) → ℕ → FundingEvent → LedgerRow → LedgerRow
refreshed make_ref now e r = record r {
  source = if text_eq r.source "" || text_eq r.source "unknown" then source_of e else r.source;
  source_ref = if text_eq r.source_ref "" then ref_of make_ref e else r.source_ref;
  raw_payload = e.raw;
  ingested_at = now;
}

abbrev pub created : (EventKey → ℕ) → (EventKey → String) → ℕ → FundingEvent → LedgerRow
created digest make_ref now e = record {
  key = e.key;
  source = source_of e;
  source_ref = ref_of make_ref e;
  normalized_hash = digest e.key;
  raw_payload = e.raw;
  ingested_at = now;
}

-- `.first()` of a query, with a write to the row that it finds
pub update_first :
    (LedgerRow → Bool) → (LedgerRow → LedgerRow) → List LedgerRow → Option (List LedgerRow)
update_first p f [] = none
update_first p f (r ∷ rs) =
    let rest = update_first p f rs in
    if p r then some (f r ∷ rs) else elim rest [ none ↦ none | some rs' ↦ some (r ∷ rs') ]

abbrev pub any_row : (LedgerRow → Bool) → List LedgerRow → Bool
any_row p [] = false
any_row p (r ∷ rs) = p r || any_row p rs

-- How an upsert ends: on a row that was there, on a new one, or with the `RuntimeError`.
pub data Upserted : Type 0 where
  found inserted failed : Upserted

-- The insert in its savepoint: a violated constraint undoes it, and the row is looked up again.
abbrev pub insert_row : LedgerRow → List LedgerRow → Upserted × List LedgerRow
insert_row r rs =
    if any_row (has_hash r.normalized_hash) rs || any_row (has_event r.key) rs
    then (if any_row (has_hash r.normalized_hash) rs
        then (found, rs)
        else (if any_row (has_event r.key) rs then (found, rs) else (failed, rs)))
    else (inserted, rs ++ r ∷ [])

module _ (digest : EventKey → ℕ) (make_ref : EventKey → String) where
  -- `others` are the rows that other workers commit before the insert.
  pub upsert_funding_event :
      ℕ → List LedgerRow → FundingEvent → List LedgerRow → Upserted × List LedgerRow
  unfolding update_first
  upsert_funding_event now others e rs =
      elim (update_first (has_hash (digest e.key)) (refreshed make_ref now e) rs) [
        | some rs' ↦ (found, rs')
        | none ↦ elim (update_first (has_event e.key) (refreshed make_ref now e) rs) [
          | some rs' ↦ (found, rs')
          | none ↦ insert_row (created digest make_ref now e) (rs ++ others)
        ]
      ]
