-- ===== src/Risk/Checks.antt =====
-- The rules of the risk manager, and the pass over all active strategies (`run_risk_checks`).
pub mod Order
use arbitrage_station.Base.{
  ℕ, ◌+◌, String, Bool, true, false, ◌&&◌, ◌||◌, not, Option, none, some, List, [], ◌∷◌, ◌++◌, map,
  ◌==◌, if◌then◌else◌, keep_if,
}
use arbitrage_station.Trading.Store.{
  Strategy, StrategyStatus, Position, Session, Gateway, World, is_open_row,
}
use arbitrage_station.Risk.{risk_close_strategy}

-- Python's floats, with the operations that the rules apply to them.
pub record Measures : Type 1 where
  pub Number : Type 0
  pub nothing : Number
  pub hundred : Number
  pub add : Number → Number → Number
  pub sub : Number → Number → Number
  pub mul : Number → Number → Number
  pub div : Number → Number → Number
  pub minus_abs : Number → Number
  pub is_zero : Number → Bool
  pub positive : Number → Bool
  pub at_most : Number → Number → Bool

pub data RuleType : Type 0 where
  loss_pct max_position_usd max_exposure_usd min_rate_diff max_leverage other_type : RuleType

pub data RuleAction : Type 0 where
  close_position alert_only other_action : RuleAction

pub record RiskRule (A : Type 0) : Type 0 where
  pub name : String
  pub rule_type : RuleType
  pub threshold : A
  pub action : RuleAction
  pub is_enabled : Bool

-- What the rules read besides the session: the column `unrealized_pnl` of a position, and the latest
-- funding rate on an exchange. The two texts of a close name the rule, that of the trades the loss too.
pub record Figures (A : Type 0) : Type 0 where
  pub unrealized_pnl : ℕ → A
  pub funding_rate : ℕ → String → A
  pub trade_reason : RiskRule A → A → String
  pub reason : RiskRule A → String

module _ (M : Measures) where
  abbrev total_from :
      M.Number → (Position M.Number → M.Number) → List (Position M.Number) → M.Number
  total_from acc f [] = acc
  total_from acc f (p ∷ ps) = total_from (M.add acc (f p)) f ps

  abbrev total : (Position M.Number → M.Number) → List (Position M.Number) → M.Number
  total f ps = total_from M.nothing f ps

  abbrev position_value : Position M.Number → M.Number
  position_value p =
      M.mul (if M.is_zero p.current_price then p.entry_price else p.current_price) p.size

  abbrev entered : Position M.Number → Bool
  entered p = not (M.is_zero p.entry_price) && not (M.is_zero p.size)

  -- `_calc_strategy_pnl_pct`
  pub calc_strategy_pnl_pct : Figures M.Number → List (Position M.Number) → M.Number
  calc_strategy_pnl_pct fig [] = M.nothing
  calc_strategy_pnl_pct fig (p ∷ rest) =
      let ps = p ∷ rest in
      let total_pnl = total (λ p. fig.unrealized_pnl p.id) ps in
      let total_entry_value = total (λ p. M.mul p.entry_price p.size) (keep_if entered ps) in
      if M.is_zero total_entry_value
      then M.nothing
      else M.mul (M.div total_pnl total_entry_value) M.hundred

  abbrev some_large : M.Number → List (Position M.Number) → Bool
  some_large limit [] = false
  some_large limit (p ∷ ps) = M.at_most limit (position_value p) || some_large limit ps

  -- Whether a rule is triggered for a strategy with these open positions.
  unfoldable pub triggered :
      Figures M.Number
      → Strategy M.Number
      → List (Position M.Number)
      → M.Number
      → RiskRule M.Number
      → Bool
  triggered fig s ps pnl_pct rule = elim rule.rule_type [
    | loss_pct ↦ M.at_most pnl_pct (M.minus_abs rule.threshold)
    | max_position_usd ↦ some_large rule.threshold ps
    | max_exposure_usd ↦ M.at_most rule.threshold (total position_value ps)
    | min_rate_diff ↦ not (
        M.at_most rule.threshold (
          M.mul
            (M.sub (fig.funding_rate s.short_exchange_id s.symbol)
              (fig.funding_rate s.long_exchange_id s.symbol))
            M.hundred))
    | max_leverage ↦
        M.positive s.initial_margin_usd
        && M.at_most rule.threshold (M.div (total position_value ps) s.initial_margin_usd)
    | other_type ↦ false
  ]

  -- An alert names the strategy and the rule.
  abbrev pub Alerts : Type 0
  Alerts = List (ℕ × RiskRule M.Number)

  -- The rules for one strategy, in their order; a close ends them.
  pub check_rules :
      Gateway M.Number
      → ℕ
      → Figures M.Number
      → Strategy M.Number
      → M.Number
      → List (RiskRule M.Number)
      → World M.Number
      → Alerts × World M.Number
  check_rules g now fig s pnl_pct [] w = ([], w)
  check_rules g now fig s pnl_pct (r ∷ rs) w =
      let (alerts, w') = check_rules g now fig s pnl_pct rs w in
      let on_trigger : Alerts × World M.Number = elim r.action [
        | close_position ↦
            ([], risk_close_strategy g now (fig.trade_reason r pnl_pct) (fig.reason r) s.id w)
        | alert_only ↦ ((s.id, r) ∷ alerts, w')
        | other_action ↦ (alerts, w')
      ] in
      if triggered fig s (keep_if (is_open_row s.id) w.db.positions) pnl_pct r
      then on_trigger
      else (alerts, w')

  abbrev is_active : Strategy M.Number → Bool
  is_active s = elim s.status [ StrategyStatus.active ↦ true | _ ↦ false ]

  pub check_strategies :
      Gateway M.Number
      → ℕ
      → Figures M.Number
      → List (RiskRule M.Number)
      → List (Strategy M.Number)
      → World M.Number
      → Alerts × World M.Number
  unfolding check_rules calc_strategy_pnl_pct
  check_strategies g now fig rules [] w = ([], w)
  check_strategies g now fig rules (s ∷ ss) w =
      let pnl_pct = calc_strategy_pnl_pct fig (keep_if (is_open_row s.id) w.db.positions) in
      let (alerts, w') = check_rules g now fig s pnl_pct rules w in
      let (more, w'') = check_strategies g now fig rules ss w' in (alerts ++ more, w'')

  -- `run_risk_checks`
  unfoldable pub run_risk_checks :
      Gateway M.Number
      → ℕ
      → Figures M.Number
      → List (RiskRule M.Number)
      → World M.Number
      → Alerts × World M.Number
  unfolding check_strategies
  run_risk_checks g now fig rules w =
      check_strategies g now fig (keep_if (λ r. r.is_enabled) rules)
        (keep_if is_active w.db.strategies) w
