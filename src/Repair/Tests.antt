-- ===== src/Repair/Tests.antt =====
-- Runs of the repair of mismatches, and its theorems at concrete inputs.
use arbitrage_station.Base.{
  ℕ, ◌+◌, ◌≤◌, ◌≡◌, refl, true, false, none, some, List, [], ◌∷◌, arith, All, length, min, keep_if,
  map,
}
use arbitrage_station.Trading.Store.{
  Exchange, Side, long, short, PositionType, opened, closed, StrategyType, StrategyStatus, Position,
  Strategy, Session,
}
use arbitrage_station.Repair.{
  is_spot, estimate_spot_base, size_of_rows, apply_reduce, total_of, filled_base,
}
use arbitrage_station.Repair.Conserved.{apply_reduce_conserves}
use arbitrage_station.Repair.Live.{Market}
use arbitrage_station.Repair.Plan.{
  Hold, RepairConfig, States, Action, reduce_spot, RepairItem, build_mismatch_plan, read_hold,
  by_mismatch,
}
use arbitrage_station.Repair.Plan.Restored.{Restores, repairs_restore}
use arbitrage_station.Repair.Plan.Sightings.{Cycle, states_after}
use arbitrage_station.Repair.Plan.Overdue.{Overdue, Believed, plan_of, repairs-Overdue}
use arbitrage_station.Repair.Execute.{
  Desk, Floor, Repaired, repaired, execute_item, execute_mismatch_repair_plan,
}

abbrev leg : ℕ → PositionType → Side → ℕ → Position ℕ
leg i kind side size = record {
  id = i;
  strategy_id = 7;
  exchange_id = 1;
  symbol = "BTC/USDT";
  side = side;
  position_type = kind;
  size = size;
  entry_price = 100;
  current_price = 0;
  status = opened;
  stored = some opened;
  closed_at = none;
}

abbrev pub hedge : Strategy ℕ
hedge = record {
  id = 7;
  strategy_type = StrategyType.spot_hedge;
  symbol = "BTC/USDT:USDT";
  long_exchange_id = 1;
  short_exchange_id = 1;
  initial_margin_usd = 0;
  entry_e24_net_pct = 0;
  entry_open_fee_pct = 0;
  entry_spot_base_qty = 0;
  entry_perp_base_qty = 0;
  entry_delta_base_qty = 0;
  status = StrategyStatus.active;
  close_reason = none;
  closed_at = none;
}

abbrev pub exchange : Exchange
exchange = record { id = 1; name = "okx" }

abbrev session : List (Position ℕ) → Session ℕ
session ps = record {
  autoflush = false;
  exchanges = exchange ∷ [];
  strategies = hedge ∷ [];
  positions = ps;
  trades = [];
  next_id = 20;
}

-- Two spot rows, and a perpetual.
abbrev three_legs : List (Position ℕ)
three_legs =
    leg 1 PositionType.spot long 40
    ∷ leg 2 PositionType.spot long 60
    ∷ leg 3 PositionType.swap short 100
    ∷ []

-- 70 are taken off the larger row first; the rest of one unit is closed with it.
reduce_order :
    (apply_reduce 5 (keep_if is_spot three_legs) 70 three_legs).0 ≡ (2, 60) ∷ (1, 10) ∷ []
unfolding apply_reduce
reduce_order = refl

reduce_dust : size_of_rows (apply_reduce 5 (keep_if is_spot three_legs) 99 three_legs).1 ≡ 100
unfolding apply_reduce size_of_rows
reduce_dust = refl

-- The exchange has a perpetual of some contracts.
abbrev market_of : ℕ → Market
market_of n = record {
  fetch_positions = λ e symbol.
      some (record { symbol = symbol; is_short = true; negative = false; contracts = n } ∷ []);
  worth = λ e symbol contracts. contracts;
  ticker_price = λ e symbol. 100;
}

abbrev config : RepairConfig
config = record {
  delta_epsilon_abs_usd = 500;
  delta_epsilon_nav_pct = 0;
  repair_timeout_secs = 20;
  repair_retry_rounds = 2;
}

abbrev holds : List Hold
holds = record { strategy_id = 7; row_id = "r"; symbol = ""; pair_notional_usd = 9 } ∷ []

abbrev cycle_at : ℕ → ℕ → Cycle
cycle_at now perp = record {
  config = config;
  market = market_of perp;
  db = session three_legs;
  nav_total = 0;
  now = now;
  holds = holds;
}

abbrev seen_once : States
seen_once = (7, record { first_seen_ts = 1000; rounds = 1; abnormal_first_seen_ts = 0 }) ∷ []

-- 100 of spot against 30 of the perpetual: 70 are to go, in the second round.
plan_seventy :
    map
      (λ (x : RepairItem). x.reduce_base)
      (build_mismatch_plan config
        (market_of 30)
        (session three_legs)
        0
        9000
        holds
        seen_once).0.repair_plan
    ≡ 70 ∷ []
unfolding build_mismatch_plan read_hold estimate_spot_base
plan_seventy = refl

-- A perpetual that reads as 0 does not close the spot leg in the second round.
plan_guarded : length (plan_of (cycle_at 2000 0) (cycle_at 1000 0 ∷ [])).repair_plan ≡ 0
unfolding build_mismatch_plan states_after read_hold estimate_spot_base
plan_guarded = refl

plan_unguarded : length (plan_of (cycle_at 4000 0) (cycle_at 1000 0 ∷ [])).repair_plan ≡ 1
unfolding build_mismatch_plan states_after read_hold estimate_spot_base
plan_unguarded = refl

abbrev pub item_of : Action → ℕ → RepairItem
item_of action base = record {
  strategy_id = 7;
  row_id = "r";
  symbol = "";
  action = action;
  reduce_base = base;
  reduce_notional_usd = 0;
  reason_codes = by_mismatch ∷ [];
}

-- An exchange that fills every order.
abbrev pub filling : Desk
filling = record {
  answer = λ sent c.
      some (record {
        already_closed = false;
        filled = 100;
        amount = 0;
        average = none;
        price = some 3;
      });
  in_base = λ e symbol n. none;
}

abbrev refusing : Desk
refusing = record { answer = λ sent c. none; in_base = λ e symbol n. none }

abbrev pub spot_only : List (Position ℕ)
spot_only = leg 1 PositionType.spot long 40 ∷ leg 2 PositionType.spot long 60 ∷ []

abbrev pub floor : List (Position ℕ) → Floor
floor ps = record { db = session ps; sent = [] }

abbrev pub sold : Repaired
sold = record {
  strategy_id = 7;
  action = reduce_spot;
  reduced_base = 100;
  reduced_notional_usd_est = 300;
}

pub execute_sold :
    (execute_item filling 5 (item_of reduce_spot 100) (floor spot_only)).0 ≡ repaired sold
unfolding execute_item apply_reduce filled_base
execute_sold = refl

-- All positions are closed, and the strategy is active.
execute_leaves :
    map
      (λ (p : Position ℕ). p.status)
      (execute_item filling 5 (item_of reduce_spot 100) (floor spot_only)).1.db.positions
    ≡ closed ∷ closed ∷ []
unfolding execute_item apply_reduce filled_base
execute_leaves = refl

execute_asks_once :
    length
      (execute_mismatch_repair_plan refusing 5
        (item_of reduce_spot 9 ∷ item_of reduce_spot 9 ∷ [])
        (floor three_legs)).0.fallback_close_plan
    ≡ 1
unfolding execute_mismatch_repair_plan
execute_asks_once = refl

apply_reduce_conserves_example :
    let r = apply_reduce 5 (keep_if is_spot three_legs) 70 three_legs in
    (total_of r.0 ≡ min 70 (size_of_rows (keep_if is_spot three_legs)))
    × (size_of_rows r.1 + total_of r.0 ≤ size_of_rows three_legs)
    × (size_of_rows three_legs ≤ size_of_rows r.1 + total_of r.0 + length r.0)
apply_reduce_conserves_example = apply_reduce_conserves 5 70 is_spot three_legs (omega arith)

repairs_restore_example :
    All
      (Restores (market_of 30) (session three_legs))
      (build_mismatch_plan config
        (market_of 30)
        (session three_legs)
        0
        9000
        holds
        seen_once).0.repair_plan
repairs_restore_example =
    repairs_restore config (market_of 30) (session three_legs) 0 9000 holds seen_once

repairs-Overdue_example :
    let cy = cycle_at 4000 0 in
    let older : List Cycle = cycle_at 1000 0 ∷ [] in
    All (λ x. Overdue cy older x.strategy_id × Believed cy older x) (plan_of cy older).repair_plan
    × All (λ x. Overdue cy older x.strategy_id) (plan_of cy older).fallback_close_plan
repairs-Overdue_example = repairs-Overdue (cycle_at 4000 0) (cycle_at 1000 0 ∷ []) (omega arith)
