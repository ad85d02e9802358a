-- ===== src/Retry/Tests.antt =====
-- The retry queue on concrete entries.
use arbitrage_station.Base.{
  ℕ, zero, suc, ◌+◌, ◌*◌, ◌≤◌, ◌≡◌, ◌⊎◌, refl, false, none, some, List, [], ◌∷◌, length, All, arith,
  max,
}
use arbitrage_station.Retry.{
  Kind, Payload, RetryItem, Attempt, new_item, enqueue_retry_items, process_due_retries, due_items,
  max_items, key_eq,
}
use arbitrage_station.Retry.Keys.{IsSound, Distinct}
use arbitrage_station.Retry.Rounds.{IsWithin}
use arbitrage_station.Retry.Enqueue.{enqueue-IsSound}
use arbitrage_station.Retry.Settled.{process_settles}

abbrev payload : ℕ → Payload
payload n = record {
  strategy_id = n;
  row_id = "btc";
  symbol = "BTC/USDT:USDT";
  long_exchange_id = 1;
  short_exchange_id = 2;
  size_usd = 50000;
}

abbrev item : Kind → ℕ → RetryItem
item kind n = new_item kind 1000 2 8 (record { payload = payload n; error = some "timeout" })

abbrev waiting : List RetryItem
waiting = item Kind.close_kind 7 ∷ item Kind.close_kind 8 ∷ item Kind.open_kind 0 ∷ []

-- The first attempt succeeds, the others fail.
abbrev attempts : ℕ → RetryItem → Attempt
attempts n x = elim n [
  | zero ↦ record { done = 1; failed = []; skipped = [] }
  | suc _ ↦ record { done = 0; failed = some "rejected" ∷ []; skipped = [] }
]

enqueue_twice :
    (enqueue_retry_items Kind.close_kind
      (record { payload = payload 7; error = none }
        ∷ record { payload = payload 9; error = none }
        ∷ [])
      2000
      2
      8
      waiting).1
    ≡ 1
unfolding enqueue_retry_items
enqueue_twice = refl

first_sweep : length (process_due_retries attempts 9000 8 2 waiting).queue ≡ 2
unfolding process_due_retries new_item
first_sweep = refl

no_round_left : length (process_due_retries attempts 9000 8 0 waiting).queue ≡ 0
unfolding process_due_retries new_item
no_round_left = refl

waiting-IsWithin : All (IsWithin 2) waiting
unfolding new_item
waiting-IsWithin = ground arith

waiting-IsSound : IsSound waiting
unfolding new_item
waiting-IsSound = ground arith

waiting_fits : length waiting ≤ max_items
waiting_fits = ground arith

enqueue-IsSound_example :
    let q =
      (enqueue_retry_items Kind.open_kind
        (record { payload = payload 3; error = none } ∷ [])
        2000
        2
        8
        waiting).0 in
    IsSound q × (length q ≤ max_items)
enqueue-IsSound_example =
    enqueue-IsSound Kind.open_kind (record { payload = payload 3; error = none } ∷ []) 2000 2 8
      waiting waiting-IsSound waiting_fits

process_settles_example :
    let q = (process_due_retries attempts 9000 8 2 waiting).queue in
    Distinct q
    × All
        (λ x. All (λ y. (key_eq y.key x.key ≡ false) ⊎ (y.next_retry_ts ≡ 9000 + 1000 * max 1 8)) q)
        (due_items 9000 waiting)
process_settles_example = process_settles attempts 9000 8 2 waiting waiting-IsSound.distinct
