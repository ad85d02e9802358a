-- ===== src/Compaction/Tests.antt =====
-- Runs of the rollup with whole numbers, and its theorems at concrete inputs.
use arbitrage_station.Base.{
  ℕ, ◌+◌, ◌/◌, max, min, ◌<◌, ◌≡◌, ◌⊎◌, refl, false, some, List, [], ◌∷◌, arith, map, length, ◌++◌,
}
use arbitrage_station.Compaction.{
  Level, Series, Key, Raw, raw_bar, same_key, pick_oldest, rollup, rollup_l0_to_l1, run_step_loop,
  Tables,
}
use arbitrage_station.Compaction.Rollup.{held, counted, rollup_recounts}
use arbitrage_station.Compaction.Loop.{count_early, TimeUp, run_step_loop_ends}
use arbitrage_station.Compaction.Overwritten.{split_bucket_loses}

abbrev units : Level
units = record {
  Number = ℕ;
  highest = λ a b. max a b;
  lowest = λ a b. min a b;
  add = λ a b. a + b;
  over = λ a n. a / n;
}

abbrev btc : Series
btc = record { exchange = "okx"; market = "swap"; symbol = "BTC/USDT:USDT" }

abbrev tick : ℕ → ℕ → Raw ℕ
tick t p = record { ts_recv_ms = t; series = btc; mid = p; spread_bps = 2; payload_bytes = 10 }

abbrev ticks : List (Raw ℕ)
ticks = tick 1100 7 ∷ tick 1200 9 ∷ tick 1700 8 ∷ []

abbrev second_one : Key
second_one = record { bucket_ms = 1000; series = btc }

-- Two of the three rows are before 1500.
rolled_up : (rollup_l0_to_l1 units 1500 5000 (ticks, [])).1 ≡ 2
unfolding rollup
rolled_up = refl

two_samples : held second_one (rollup_l0_to_l1 units 1500 5000 (ticks, [])).0.1 ≡ (2, 20)
unfolding rollup same_key
two_samples = refl

rollup_recounts_example :
    held second_one (rollup units raw_bar 1000 1500 5000 (ticks, [])).0.1 ≡ (2, 20)
unfolding pick_oldest same_key
rollup_recounts_example =
    rollup_recounts units raw_bar 1000 1500 5000 ticks [] second_one (omega arith)

run_step_loop_ends_example :
    (t : Tables units (Raw ℕ)) × (total : ℕ) × (run_step_loop units 3
        (λ i. false)
        (rollup units raw_bar 1000 1500 5000)
        0
        0
        (ticks, [])
      ≡ some (t, total))
    × (length t.0 + total ≡ 3)
    × (count_early raw_bar 1500 t.0 + total ≡ 2)
    × ((count_early raw_bar 1500 t.0 ≡ 0) ⊎ TimeUp (λ i. false) 0)
run_step_loop_ends_example =
    run_step_loop_ends units raw_bar 1000 1500 5000 (λ i. false) 3 0 0 (ticks, []) (omega arith)

split_bucket_loses_example :
    let t = (rollup_l0_to_l1 units 1500 5000 (ticks, [])).0 in
    let first = map raw_bar (pick_oldest raw_bar 1500 (max 100 5000) ticks).0 in
    let second = map raw_bar (pick_oldest raw_bar 2500 (max 100 5000) t.0).0 in
    let last = (held second_one (rollup_l0_to_l1 units 2500 5000 t).0.1).0 in
    (last ≡ (counted 1000 second_one second).0)
    × (last < (counted 1000 second_one (first ++ second)).0)
unfolding pick_oldest same_key rollup
split_bucket_loses_example =
    split_bucket_loses units second_one 1500 2500 5000 ticks [] (omega arith) (omega arith) refl
      refl
