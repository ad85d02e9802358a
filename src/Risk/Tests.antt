-- ===== src/Risk/Tests.antt =====
-- Runs of the risk manager with whole numbers, and its theorems at concrete inputs.
use arbitrage_station.Base.{
  ℕ, ◌+◌, ◌-◌, ◌*◌, ◌/◌, ◌≡◌, refl, true, false, ◌&&◌, none, some, List, [], ◌∷◌, ltb, leb, ◌==◌,
  map, keep_if, length,
}
use arbitrage_station.Trading.Store.{
  Strategy, StrategyType, StrategyStatus, Position, PositionStatus, PositionType, long, Gateway,
  World, find_strategy, is_open_row,
}
use arbitrage_station.Risk.{risk_outcome, risk_close_strategy}
use arbitrage_station.Risk.Close.{has_exchange, open_rows, refused, risk_close_accounts}
use arbitrage_station.Risk.Checks.{
  Measures, RiskRule, RuleType, RuleAction, Figures, triggered, check_rules, run_risk_checks,
}
use arbitrage_station.Risk.Checks.Order.{
  is_close, is_alert, first_of, before_first, closed_by, check_rules_in_order,
}

abbrev units : Measures
units = record {
  Number = ℕ;
  nothing = 0;
  hundred = 100;
  add = λ a b. a + b;
  sub = λ a b. a - b;
  mul = λ a b. a * b;
  div = λ a b. a / b;
  minus_abs = λ a. a;
  is_zero = λ a. a == 0;
  positive = λ a. ltb 0 a;
  at_most = λ a b. leb a b;
}

abbrev filling : Gateway ℕ
filling = record {
  fetch_spot_ticker = λ e s. none;
  fetch_ticker = λ e s. none;
  answer = λ sent c. some (record { average = some 10; price = none });
}

abbrev plan : Strategy ℕ
plan = record {
  id = 1;
  strategy_type = StrategyType.cross_exchange;
  symbol = "BTC/USDT:USDT";
  long_exchange_id = 1;
  short_exchange_id = 2;
  initial_margin_usd = 100;
  entry_e24_net_pct = 0;
  entry_open_fee_pct = 0;
  entry_spot_base_qty = 0;
  entry_perp_base_qty = 0;
  entry_delta_base_qty = 0;
  status = StrategyStatus.active;
  close_reason = none;
  closed_at = none;
}

-- A long position on an exchange that is in the table, or not.
abbrev leg : ℕ → ℕ → Position ℕ
leg i exchange = record {
  id = i;
  strategy_id = 1;
  exchange_id = exchange;
  symbol = "BTC/USDT:USDT";
  side = long;
  position_type = PositionType.swap;
  size = 5;
  entry_price = 10;
  current_price = 10;
  status = PositionStatus.opened;
  stored = some PositionStatus.opened;
  closed_at = none;
}

abbrev world : World ℕ
world = record {
  db = record {
    autoflush = false;
    exchanges = record { id = 1; name = "okx" } ∷ [];
    strategies = plan ∷ [];
    positions = leg 2 1 ∷ leg 3 7 ∷ [];
    trades = [];
    next_id = 4;
  };
  sent = [];
}

abbrev rule : RuleType → ℕ → RuleAction → RiskRule ℕ
rule type threshold action = record {
  name = "limit";
  rule_type = type;
  threshold = threshold;
  action = action;
  is_enabled = true;
}

abbrev rules : List (RiskRule ℕ)
rules =
    rule RuleType.max_position_usd 50 RuleAction.alert_only
    ∷ rule RuleType.max_exposure_usd 60 RuleAction.close_position
    ∷ rule RuleType.max_leverage 1 RuleAction.alert_only
    ∷ []

abbrev figures : Figures ℕ
figures = record {
  unrealized_pnl = λ i. 0;
  funding_rate = λ e s. 0;
  trade_reason = λ r x. "risk, loss";
  reason = λ r. "risk";
}

-- The pass alerts of the first rule, and closes by the second: one order, for the exchange that is known.
checked :
    let (alerts, w') = run_risk_checks units filling 9 figures rules world in
    (length alerts ≡ 1) × (length w'.sent ≡ 1) × (length (open_rows 1 w'.db) ≡ 1)
unfolding run_risk_checks triggered risk_close_strategy
checked = (refl, refl, refl)

risk_close_accounts_example :
    let w' = risk_close_strategy filling 9 "risk, loss" "risk" 1 world in
    let n = length (keep_if (has_exchange world.db.exchanges) (open_rows 1 world.db)) in
    (length w'.sent ≡ length world.sent + n)
    × (length w'.db.trades ≡ length world.db.trades + n)
    × ((t : Strategy ℕ) × (find_strategy 1 w'.db.strategies ≡ some t)
        × (t.status ≡ risk_outcome (refused w'.sent == refused world.sent)))
risk_close_accounts_example = risk_close_accounts filling 9 "risk, loss" "risk" 1 world plan refl

check_rules_in_order_example :
    let fires = triggered units figures plan (keep_if (is_open_row 1) world.db.positions) 0 in
    let closes = λ (r : RiskRule ℕ). fires r && is_close r.action in
    let alerts = λ (r : RiskRule ℕ). fires r && is_alert r.action in
    check_rules units filling 9 figures plan 0 rules world ≡ (
      map (λ r. (1, r)) (keep_if alerts (before_first units closes rules)),
      closed_by units filling 9 figures plan 0 (first_of units closes rules) world,
    )
check_rules_in_order_example = check_rules_in_order units filling 9 figures plan 0 rules world
