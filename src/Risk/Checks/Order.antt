-- ===== src/Risk/Checks/Order.antt =====
-- The order of the rules: what comes before a close, and what comes after.
use arbitrage_station.Base.{
  ℕ, ◌≡◌, refl, Bool, true, false, ◌&&◌, Option, none, some, List, [], ◌∷◌, arith, map,
  if◌then◌else◌, keep_if,
}
use arbitrage_station.Trading.Store.{Strategy, Gateway, World, is_open_row}
use arbitrage_station.Risk.{risk_close_strategy}
use arbitrage_station.Risk.Checks.{
  Measures, RiskRule, RuleAction, close_position, alert_only, Figures, triggered, check_rules,
}

abbrev pub is_close : RuleAction → Bool
is_close close_position = true
is_close _ = false

abbrev pub is_alert : RuleAction → Bool
is_alert alert_only = true
is_alert _ = false

module _ (M : Measures) where
  -- The first rule that passes a test, and the rules before it
  abbrev pub first_of :
      (RiskRule M.Number → Bool) → List (RiskRule M.Number) → Option (RiskRule M.Number)
  first_of p [] = none
  first_of p (r ∷ rs) = let rest = first_of p rs in if p r then some r else rest

  abbrev pub before_first :
      (RiskRule M.Number → Bool) → List (RiskRule M.Number) → List (RiskRule M.Number)
  before_first p [] = []
  before_first p (r ∷ rs) = let rest = before_first p rs in if p r then [] else r ∷ rest

  abbrev pub closed_by :
      Gateway M.Number
      → ℕ
      → Figures M.Number
      → Strategy M.Number
      → M.Number
      → Option (RiskRule M.Number)
      → World M.Number
      → World M.Number
  closed_by g now fig s pnl_pct none w = w
  closed_by g now fig s pnl_pct (some r) w =
      risk_close_strategy g now (fig.trade_reason r pnl_pct) (fig.reason r) s.id w

-- For one strategy, the rules close it once, by the first triggered rule whose action is a close, and
-- otherwise leave session and orders as they were; the alerts are the triggered rules whose action is an
-- alert, in their order, up to that one, or all of them if there is none.
pub check_rules_in_order :
    (M : Measures) (g : Gateway M.Number) (now : ℕ) (fig : Figures M.Number) (s : Strategy M.Number)
    (pnl_pct : M.Number) (rules : List (RiskRule M.Number)) (w : World M.Number)
    → let fires = triggered M fig s (keep_if (is_open_row s.id) w.db.positions) pnl_pct in
      let closes = λ (r : RiskRule M.Number). fires r && is_close r.action in
      let alerts = λ (r : RiskRule M.Number). fires r && is_alert r.action in
      check_rules M g now fig s pnl_pct rules w ≡ (
        map (λ r. (s.id, r)) (keep_if alerts (before_first M closes rules)),
        closed_by M g now fig s pnl_pct (first_of M closes rules) w,
      )
unfolding check_rules
check_rules_in_order M g now fig s pnl_pct [] w = refl
check_rules_in_order M g now fig s pnl_pct (r ∷ rs) w =
    ground (arith, check_rules_in_order M g now fig s pnl_pct rs w)
