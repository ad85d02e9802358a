-- ===== src/Auto.antt =====
-- What a cycle of the spot-basis engine works on (backend/core/spot_basis_auto_engine: cycle_context.py,
-- risk_reduce.py, close_plan.py and the execution of close plans in orchestrator.py).
--
-- A world holds the database, the exchanges and the memory of the steps that are not the cycle's own.
-- A step may raise; what it did to the world until then stays done. Times are in whole seconds, shares and
-- notionals in units of 0.0001. A loss in percent stands for a drawdown, which is never positive; the limits of
-- the drawdown are not positive either.
pub mod Events
pub mod Open
pub mod Run
pub mod Phase
pub mod Breaker
pub mod Late
pub mod Tests
use arbitrage_station.Base.{
  ℕ, ◌+◌, String, Bool, true, false, ◌&&◌, ◌||◌, not, Option, none, some, List, [], ◌∷◌, ltb, ◌==◌,
  if◌then◌else◌,
}
use arbitrage_station.Cycle.{ConfirmState}
use arbitrage_station.Retry.{RetryItem, Payload, Failure}
use arbitrage_station.Symbols.{Text}

pub data Result (A : Type 0) : Type 0 where
  returned : A → Result A
  threw : Result A

pub record ClosePlan : Type 0 where
  pub strategy_id : ℕ
  pub row_id : String
  pub symbol : String
  pub size_usd : ℕ

pub record OpenPlan : Type 0 where
  pub row_id : String
  pub symbol : String
  pub long_exchange_id : ℕ
  pub short_exchange_id : ℕ
  pub size_usd : ℕ

-- One row of the current state. A net expectation below zero is 0.
pub record CurrentRow : Type 0 where
  pub strategy_id : ℕ
  pub row_id : String
  pub symbol : String
  pub pair_notional : ℕ
  pub is_matched : Bool
  pub e24_net_pct_strict : ℕ
  pub confidence_strict : ℕ

abbrev close_plan_of : CurrentRow → ClosePlan
close_plan_of r = record {
  strategy_id = r.strategy_id;
  row_id = r.row_id;
  symbol = r.symbol;
  size_usd = r.pair_notional;
}

-- `should_close`
abbrev pub is_weak : ℕ → CurrentRow → Bool
is_weak hold_conf_min r =
    not r.is_matched || ((r.e24_net_pct_strict == 0) && ltb r.confidence_strict hold_conf_min)

-- `_build_risk_reduce_close_plan`
pub risk_reduce_close_plan : ℕ → List CurrentRow → List ClosePlan
risk_reduce_close_plan hold_conf_min [] = []
risk_reduce_close_plan hold_conf_min (r ∷ rs) =
    let rest = risk_reduce_close_plan hold_conf_min rs in
    if is_weak hold_conf_min r then close_plan_of r ∷ rest else rest

abbrev pub member : ℕ → List ℕ → Bool
member i [] = false
member i (j ∷ js) = (i == j) || member i js

-- The loop of `_build_force_close_all_plan`
pub force_close_from : List ℕ → List CurrentRow → List ClosePlan
force_close_from seen [] = []
force_close_from seen (r ∷ rs) =
    let skipped = force_close_from seen rs in
    let rest = force_close_from (r.strategy_id ∷ seen) rs in
    if (r.strategy_id == 0) || member r.strategy_id seen
    then skipped
    else if r.pair_notional == 0
    then rest
    else close_plan_of r ∷ rest

-- `_build_force_close_all_plan`
abbrev pub force_close_all_plan : List CurrentRow → List ClosePlan
force_close_all_plan = force_close_from []

-- The row of the engine's settings.
pub record AutoConfig : Type 0 where
  pub is_enabled : Bool
  pub dry_run : Bool
  pub refresh_interval_secs : ℕ
  pub hold_conf_min : ℕ
  pub switch_confirm_rounds : ℕ
  pub execution_retry_max_rounds : ℕ
  pub execution_retry_backoff_secs : ℕ
  pub api_fail_circuit_count : ℕ
  pub circuit_breaker_on_repair_fail : Bool
  pub dd_soft_loss : ℕ
  pub dd_hard_loss : ℕ

pub data CloseReason : Type 0 where
  delta_repair_fallback_close lock_spread_excess risk_hard_drawdown : CloseReason
  risk_soft_drawdown basis_shock_exit risk_reduce_stale_data portfolio_rebalance : CloseReason

-- What a cycle has the exchanges do. The execution of a close plan tells how many failed.
pub data Order : Type 0 where
  retried repaired opened : Order
  closed : CloseReason → ℕ → Order

-- What is left of a cycle for the next one, the orders of the cycle, the latest first, and two of its
-- local variables: `cfg is not None` and `api_fail_streak_recorded`.
pub record Engine (D : Type 0) : Type 0 where
  pub world : D
  pub cfg : AutoConfig
  pub last_cycle_ts : ℕ
  pub api_fail_streak : ℕ
  pub confirm : ConfirmState
  pub queue : List RetryItem
  pub orders : List Order
  pub cfg_loaded : Bool
  pub streak_recorded : Bool

abbrev pub Run : Type 0 → Type 0 → Type 0
Run D A = Engine D → Result A × Engine D

-- `_execute_close_plan`: an id that is 0 fails at once; `close` is the strategy's own, `none` for success.
module _ {D : Type 0} (close : ℕ → CloseReason → D → Option String × D) where
  close_planned : CloseReason → ClosePlan → D → Option String × D
  close_planned reason p w =
      if p.strategy_id == 0 then (some "invalid_strategy_id", w) else close p.strategy_id reason w

  abbrev close_failure : ClosePlan → String → Failure
  close_failure p error = record {
    payload = record {
      strategy_id = p.strategy_id;
      row_id = p.row_id;
      symbol = p.symbol;
      long_exchange_id = 0;
      short_exchange_id = 0;
      size_usd = p.size_usd;
    };
    error = some error;
  }

  pub execute_close_plan : CloseReason → List ClosePlan → D → (List ClosePlan × List Failure) × D
  unfolding close_planned
  execute_close_plan reason [] w = (([], []), w)
  execute_close_plan reason (p ∷ ps) w =
      let (e, w1) = close_planned reason p w in
      let ((done, failed), w2) = execute_close_plan reason ps w1 in
      elim e [
        | none ↦ ((p ∷ done, failed), w2)
        | some error ↦ ((done, close_failure p error ∷ failed), w2)
      ]
