-- ===== src/Funding/Tests.antt =====
-- The funding ledger on concrete events.
use arbitrage_station.Base.{
  ℕ, Bool, false, true, ◌+◌, ◌≤◌, ◌⊎◌, ◌≡◌, ◌≢◌, refl, String, none, some, List, [], ◌∷◌, ◌++◌,
  length, ◌==◌, arith,
}
use arbitrage_station.Funding.{
  EventKey, FundingEvent, FundingSide, LedgerRow, found, inserted, failed, created,
  upsert_funding_event,
}
use arbitrage_station.Funding.Ledger.{IsLedger, upsert_again}
use arbitrage_station.Funding.Ingest.{
  ok, error, is_faulty, IsForeign, retries_of, success_of, cursor_of, since_of,
  ingest_exchange_funding_events, ingest_outcome,
}
use arbitrage_station.Funding.Allocation.{
  AttributionCandidate, resolve_assignment_allocations, held_by, share_of, any_strategy,
  shares_proportional,
}

abbrev key_at : ℕ → EventKey
key_at t = record {
  exchange_id = 1;
  account_key = "exchange:1";
  symbol = "BTCUSDT";
  funding_time = t;
  side = FundingSide.receive;
  amount_norm = "0.120000000000";
}

abbrev event_at : ℕ → FundingEvent
event_at t = record { key = key_at t; source = "binance"; source_ref = ""; raw = "{}" }

abbrev digest : EventKey → ℕ
digest k = k.funding_time

abbrev joined : EventKey → String
joined k = "ref"

abbrev rows : List LedgerRow
rows = created digest joined 10 (event_at 100) ∷ []

abbrev others : List LedgerRow
others = created digest joined 11 (event_at 200) ∷ []

-- Another worker has written the event first.
raced : (upsert_funding_event digest joined 12 others (event_at 200) rows).0 ≡ found
unfolding upsert_funding_event
raced = refl

fresh_event : (upsert_funding_event digest joined 12 others (event_at 300) rows).0 ≡ inserted
unfolding upsert_funding_event
fresh_event = refl

upsert_again_example :
    let (u, rs') = upsert_funding_event digest joined 12 others (event_at 300) rows in
    let (v, rs'') = upsert_funding_event digest joined 13 [] (event_at 300) rs' in
    (u ≢ failed) × (v ≡ found) × (length rs'' ≡ length rs')
upsert_again_example = upsert_again digest joined 12 13 others [] (event_at 300) rows

rows-IsLedger : IsLedger (rows ++ others)
rows-IsLedger = ground arith

abbrev holders : List AttributionCandidate
holders =
    record { strategy_id = 1; position_id = none; notional = 300; strategy_created_at = 5 }
    ∷ record { strategy_id = 2; position_id = some 8; notional = 500; strategy_created_at = 6 }
    ∷ record { strategy_id = 1; position_id = some 9; notional = 400; strategy_created_at = 7 }
    ∷ []

held_together : held_by any_strategy holders ≢ 0
held_together = ground arith

shares_proportional_example :
    let o = resolve_assignment_allocations holders in
    (o.whole ≡ held_by any_strategy holders)
    × (share_of any_strategy o.rows ≡ o.whole)
    × (share_of (λ j. j == 1) o.rows ≡ held_by (λ j. j == 1) holders)
shares_proportional_example = shares_proportional holders 1 held_together

abbrev fetched : ℕ → List FundingEvent
fetched since = event_at 100 ∷ event_at 300 ∷ []

abbrev no_others : ℕ → List LedgerRow
no_others _ = []

abbrev quiet : ℕ → Bool
quiet _ = false

-- The database raises at the assignment of the second event.
abbrev second_raises : ℕ → Bool
second_raises n = n == 1

ingest_outcome_example :
    let since = since_of 5000 1 none in
    let r =
      ingest_exchange_funding_events digest joined
        (λ _. holders)
        no_others
        quiet
        second_raises
        false
        5000
        false
        1
        fetched
        none
        rows in
    let faulty =
      is_faulty digest joined
        (λ _. holders)
        no_others
        quiet
        second_raises
        false
        5000
        (fetched since) in
    (0 ≤ cursor_of r.cursor)
    × (((faulty ≡ false)
          × (r.status ≡ ok)
          × (r.inserted_count + r.updated_count ≡ length (fetched since))
          × (retries_of r.cursor ≡ 0)
          × (success_of r.cursor ≡ some 5000))
        ⊎ ((faulty ≡ true)
            × (r.status ≡ error)
            × ((extra : List LedgerRow) × (r.rows ≡ rows ++ extra)
                × IsForeign digest joined
                    (λ _. holders)
                    no_others
                    quiet
                    second_raises
                    false
                    5000
                    extra)
            × (cursor_of r.cursor ≡ since)
            × (success_of r.cursor ≡ none)
            × (retries_of r.cursor ≡ 1)))
ingest_outcome_example =
    ingest_outcome digest joined (λ _. holders) no_others quiet second_raises false 5000 1 fetched
      none rows

-- The first event was found, the second one was inserted and then undone.
round_fails :
    let r =
      ingest_exchange_funding_events digest joined
        (λ _. holders)
        no_others
        quiet
        second_raises
        false
        5000
        false
        1
        fetched
        none
        rows in
    (r.status ≡ error) × (r.rows ≡ rows) × (r.inserted_count ≡ 1)
unfolding ingest_exchange_funding_events upsert_funding_event
round_fails = (refl, refl, refl)
