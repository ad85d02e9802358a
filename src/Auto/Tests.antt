-- ===== src/Auto/Tests.antt =====
-- Cycles of an engine with one close and one open to make.
use arbitrage_station.Base.{
  ℕ, ◌+◌, ◌≡◌, refl, Bool, true, false, none, some, List, [], ◌∷◌, ◌≤◌, ◌==◌, length, All, arith,
}
use arbitrage_station.Cycle.{LockResult}
use arbitrage_station.Auto.{
  Result, returned, threw, ClosePlan, OpenPlan, AutoConfig, Engine, execute_close_plan, opened,
  closed, portfolio_rebalance,
}
use arbitrage_station.Auto.Events.{
  RefreshMeta, collect_api_fail_events, push_scanned, push_refresh, push_event, strip,
}
use arbitrage_station.Auto.Run.{Status, Scan, Mismatch, Delta, Parts, ◌>>=◌}
use arbitrage_station.Cycle.{apply_rebalance_confirm_rounds}
use arbitrage_station.Auto.Run.Closing.{
  close_all, open_phase, enqueue, execute_rebalance, rebalance_stage, stale_stage,
  basis_shock_stage, drawdown_stage, profit_lock_stage,
}
use arbitrage_station.Auto.Run.Stages.{
  run_cycle, cycle_body, after_load, retry_stage, process_retries, scan_stage, breaker_stage,
  repair_stage, refresh_stage,
}
use arbitrage_station.Auto.Run.Calls.{run_cycles}
use arbitrage_station.Auto.Open.{
  AccountBalance, OpenDesk, execute_open_plan, open_step, open_plans, open_one, cap_open_size,
  cap_by_legs, estimate_ratio, perp_of, spot_of, perp_read, spot_read, consume_available,
  extract_available_usdt,
}
use arbitrage_station.Auto.Open.Sizes.{opens_accounted, IsSized}
use arbitrage_station.Auto.Open.Budget.{spot_within, spot_spent, IsCross}
use arbitrage_station.Auto.Phase.Steps.{IsOnePhase}
use arbitrage_station.Auto.Phase.{run_cycle-IsOnePhase}
use arbitrage_station.Auto.Breaker.{failing_scans_trip}
use arbitrage_station.Auto.Late.{late_failures_never_trip}

abbrev no_errors : RefreshMeta
no_errors = record { errors = []; error = []; error_count = 0; error_count_text = [] }

abbrev fresh_scan : Scan Unit
fresh_scan = record { rows = tt; nav_is_stale = false; refresh_meta = no_errors }

abbrev nothing_amiss : Mismatch Unit
nothing_amiss = record { repair_plan = []; fallback_close_plan = []; scanned = [] }

abbrev close_three : ClosePlan
close_three = record { strategy_id = 3; row_id = "a"; symbol = "BTC"; size_usd = 500 }

abbrev open_eth : OpenPlan
open_eth = record {
  row_id = "b";
  symbol = "ETH";
  long_exchange_id = 1;
  short_exchange_id = 2;
  size_usd = 700;
}

abbrev swap_them : Delta
swap_them = record {
  open_plan = open_eth ∷ [];
  close_plan = close_three ∷ [];
  has_delta = true;
  meets_absolute = true;
  meets_relative = true;
  raw_signal = true;
  fingerprint = "a|b";
}

-- 1000 USD
abbrev thousand : AccountBalance
thousand = record { usdt_free = 10_000_000; info = [] }

-- Each account has 1000 USD, and account 1 is a unified one; all prices are equal, and every open succeeds.
abbrev desk : OpenDesk ℕ
desk = record {
  exists = λ i. true;
  is_unified = λ i. i == 1;
  prices = λ i j s w. (returned (1, 1), w);
  perp_balance = λ i w. (returned (some thousand), w);
  spot_balance = λ i w. (returned thousand, w);
  open_hedged = λ p n w. (none, w + 1);
}

-- The world counts the closes. The scan and the profit lock are given.
abbrev parts_with : Result (Scan Unit) → Result (List ClosePlan) → Parts ℕ Unit Unit Unit Unit
parts_with scan lock = record {
  load_cfg = λ w. (returned tt, w);
  commit = λ w. (returned tt, w);
  reconcile = λ w. w;
  attempt = λ w n i. record { done = 1; failed = []; skipped = [] };
  after_retries = λ due w. w;
  open_scan = λ w. (scan, w);
  active_holds = λ w. (returned tt, w);
  current_state = λ h o w. (returned [], w);
  mismatch = λ h o w. (returned nothing_amiss, w);
  repair = λ rs w. (returned (record { repaired_pairs = 0; failed_pairs = 0; fallback = [] }), w);
  close = λ i why w. (none, w + 1);
  collect_equity = λ w. (returned tt, w);
  profit_lock = λ h rows w. (lock, w);
  drawdown = λ o w. (returned none, w);
  basis_shock = λ h o w. (returned [], w);
  target = λ o w. (returned tt, w);
  delta = λ rows t w. (returned swap_them, w);
  all_covered = λ plan w. (returned true, w);
  allow_rebalance = λ o h w. (returned true, w);
  execute_open = open_step desk 30_000_000;
}

abbrev settings : Bool → AutoConfig
settings dry = record {
  is_enabled = true;
  dry_run = dry;
  refresh_interval_secs = 10;
  hold_conf_min = 4500;
  switch_confirm_rounds = 1;
  execution_retry_max_rounds = 2;
  execution_retry_backoff_secs = 8;
  api_fail_circuit_count = 2;
  circuit_breaker_on_repair_fail = true;
  dd_soft_loss = 20_000;
  dd_hard_loss = 40_000;
}

abbrev engine : Bool → Engine ℕ
engine dry = record {
  world = 0;
  cfg = settings dry;
  last_cycle_ts = 0;
  api_fail_streak = 0;
  confirm = record { fingerprint = ""; count = 0; updated_at = 0 };
  queue = [];
  orders = [];
  cfg_loaded = false;
  streak_recorded = false;
}

abbrev calm_parts : Parts ℕ Unit Unit Unit Unit
calm_parts = parts_with (returned fresh_scan) (returned [])

-- A live cycle closes the one pair and then opens the other.
run_cycle-IsOnePhase_example :
    IsOnePhase false (run_cycle calm_parts 100 true LockResult.acquired (engine false)).1.orders
run_cycle-IsOnePhase_example =
    run_cycle-IsOnePhase calm_parts 100 true LockResult.acquired (engine false)

closes_then_opens :
    let r = run_cycle calm_parts 100 true LockResult.acquired (engine false) in
    (r.0 ≡ Status.executed) × (r.1.orders ≡ opened ∷ closed portfolio_rebalance 0 ∷ [])
unfolding run_cycle cycle_body after_load retry_stage process_retries scan_stage breaker_stage
    repair_stage refresh_stage profit_lock_stage drawdown_stage basis_shock_stage stale_stage
    rebalance_stage execute_rebalance close_all open_phase enqueue execute_close_plan
    apply_rebalance_confirm_rounds collect_api_fail_events push_scanned push_refresh push_event
    strip open_step ◌>>=◌
closes_then_opens = (refl, refl)

failing_scans_trip_example :
    (run_cycles (parts_with threw (returned [])) (100 ∷ 110 ∷ []) (engine true)).1.cfg.is_enabled
    ≡ false
failing_scans_trip_example =
    failing_scans_trip (parts_with threw (returned []))
      (record { cfg_loads = λ w. refl; commits = λ w. refl; scan_throws = λ w. refl })
      (100 ∷ 110 ∷ []) (engine true) refl refl refl

late_failures_never_trip_example :
    let r =
      run_cycles (parts_with (returned fresh_scan) threw) (100 ∷ 110 ∷ 120 ∷ []) (engine false) in
    All (λ status. status ≡ Status.error false) r.0 × (r.1.cfg.is_enabled ≡ true)
unfolding collect_api_fail_events push_scanned push_refresh push_event strip
late_failures_never_trip_example =
    late_failures_never_trip (parts_with (returned fresh_scan) threw) fresh_scan tt [] nothing_amiss
      (record {
        cfg_loads = λ w. refl;
        scans = λ w. refl;
        holds_read = λ w. refl;
        rows_built = λ w. refl;
        looked = λ w. refl;
        no_events = refl;
        no_repairs = refl;
        no_closes = refl;
        is_fresh = refl;
        lock_throws = λ w. refl;
      })
      (100 ∷ 110 ∷ 120 ∷ []) (engine false) refl refl

abbrev plan_of : ℕ → ℕ → ℕ → OpenPlan
plan_of i j n = record {
  row_id = "b";
  symbol = "ETH";
  long_exchange_id = i;
  short_exchange_id = j;
  size_usd = n;
}

-- 900 USD, then 98 % of the 100 USD that are left, then too little.
abbrev three_plans : List OpenPlan
three_plans = plan_of 2 3 9_000_000 ∷ plan_of 2 3 9_000_000 ∷ plan_of 2 3 9_000_000 ∷ []

opens_accounted_example :
    let l = (execute_open_plan desk 30_000_000 three_plans 0).0 in
    All (IsSized 30_000_000) l.done × (length l.done + length l.failed + length l.skipped ≡ 3)
opens_accounted_example = opens_accounted desk 30_000_000 three_plans 0

spot_within_example :
    spot_spent 2 (execute_open_plan desk 30_000_000 three_plans 0).0.done ≤ 10_000_000
unfolding extract_available_usdt
spot_within_example =
    let apart : IsCross (plan_of 2 3 9_000_000) = (ground arith, ground arith, ground arith) in
    spot_within desk 2 thousand (record { known = λ i. refl; perps = λ i w. cc; spot = λ w. refl })
      30_000_000 three_plans 0 (apart, (apart, (apart, tt)))

spends_the_rest : spot_spent 2 (execute_open_plan desk 30_000_000 three_plans 0).0.done ≡ 9_980_000
unfolding execute_open_plan open_plans open_one cap_open_size cap_by_legs estimate_ratio perp_of
    spot_of perp_read spot_read consume_available extract_available_usdt
spends_the_rest = refl

-- The unified account 1 is read once for a short leg and once for a spot leg: its 1000 USD pay for 900 USD and
-- then for more than 600 USD and their margin.
unified_twice :
    spot_spent 1
      (execute_open_plan desk 30_000_000
        (plan_of 2 1 100_000 ∷ plan_of 1 2 9_000_000 ∷ plan_of 1 1 9_000_000 ∷ [])
        0).0.done
    ≡ 15_500_666
unfolding execute_open_plan open_plans open_one cap_open_size cap_by_legs estimate_ratio perp_of
    spot_of perp_read spot_read consume_available extract_available_usdt
unified_twice = refl
