-- ===== src/Gate/Tests.antt =====
-- The health gate on concrete windows.
use arbitrage_station.Base.{ℕ, ◌≡◌, refl, true, false, List, [], ◌∷◌, arith}
use arbitrage_station.Gate.{
  HealthGate, Window, Limits, Knobs, run, adopt, normalize_order_book_limit, decide, screen, adapt,
  recover, degrade, settle,
}
use arbitrage_station.Gate.Bounds.{IsValid, run-IsValid}
use arbitrage_station.Gate.Recovery.{run_recovers}
use arbitrage_station.Gate.Binance.{binance_stays_degraded}

abbrev fresh : HealthGate
fresh = record {
  target_hz = 2000;
  rebalance_cooldown_sec = 30;
  adaptive_rebalance = true;
  recover_windows = 2;
  base_order_book_limit = 5;
  base_batch_delay_ms = 200;
  base_shard_count = 2;
  fail_windows = 0;
  healthy_windows = 0;
  degrade_stage = 0;
  degraded = false;
  last_rebalance_at = 0;
}

abbrev knobs : Knobs
knobs = record { shard_count = 2; order_book_limit = 5; batch_delay_ms = 200 }

abbrev limits : Limits
limits = record { symbol_count = 6; max_shards = 4 }

abbrev failing : ℕ → Window
failing t = record { now = t; min_p95_hz = 1000; max_p95_hz = 3000; error_rate = 0 }

abbrev healthy : ℕ → Window
healthy t = record { now = t; min_p95_hz = 2500; max_p95_hz = 3000; error_rate = 0 }

-- Three failing windows give up one book level, the next one past the cooldown adds a shard, and the
-- next slows the start down.
abbrev bad_times : List Window
bad_times =
    failing 100000
    ∷ failing 110000
    ∷ failing 120000
    ∷ failing 130000
    ∷ failing 150000
    ∷ failing 180000
    ∷ []

bad_times-run :
    (run false fresh limits knobs bad_times).1
    ≡ record { shard_count = 3; order_book_limit = 4; batch_delay_ms = 500 }
unfolding run adopt decide screen adapt recover degrade settle
bad_times-run = refl

abbrev most : Knobs
most = record { shard_count = 4; order_book_limit = 5; batch_delay_ms = 5000 }

run-IsValid_example : let (g, k) = run false fresh limits knobs bad_times in IsValid most g k
run-IsValid_example =
    run-IsValid false limits most bad_times fresh knobs (ground arith) (omega arith)

abbrev worn : HealthGate
worn = record fresh { degrade_stage = 1; degraded = true; last_rebalance_at = 100000 }

abbrev good_times : List Window
good_times =
    healthy 130000
    ∷ healthy 160000
    ∷ healthy 190000
    ∷ healthy 220000
    ∷ healthy 250000
    ∷ healthy 280000
    ∷ healthy 310000
    ∷ healthy 340000
    ∷ []

run_recovers_example :
    (run false worn limits (record knobs { order_book_limit = 4 }) good_times).0.degrade_stage ≡ 0
run_recovers_example =
    run_recovers limits good_times worn (record knobs { order_book_limit = 4 }) refl (omega arith)
      (omega arith) (omega arith)

-- A gate whose base is 20 levels, and whose first step down was rounded to 10.
abbrev rounded_down : HealthGate
rounded_down = record worn { base_order_book_limit = 20 }

binance_stays_degraded_example :
    let (g, k) = run true rounded_down limits (record knobs { order_book_limit = 10 }) good_times in
    (g.degrade_stage ≡ 1) × (k.order_book_limit ≡ 10)
unfolding normalize_order_book_limit
binance_stays_degraded_example =
    binance_stays_degraded 10 limits good_times rounded_down
      (record knobs { order_book_limit = 10 }) refl refl refl (omega arith) refl (omega arith)
