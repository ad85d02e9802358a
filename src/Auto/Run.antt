-- ===== src/Auto/Run.antt =====
-- One cycle of the spot-basis engine (`run_spot_basis_auto_open_cycle` of
-- backend/core/spot_basis_auto_engine/open_cycle.py), stage by stage: a stage either ends the cycle or goes
-- on with the next one.
--
-- The steps that other files model, or that read the market, are the fields of `Parts`; what they leave
-- behind is the world. The sweep over the retries and the execution of a close plan catch what the exchanges raise,
-- and do not raise. A summary is its status.
mod Monad
pub mod Closing
pub mod Stages
pub mod Calls
unfoldable pub use Monad.*
use arbitrage_station.Base.{
  ℕ, ◌+◌, ◌-◌, ◌*◌, String, Bool, true, false, ◌&&◌, ◌||◌, not, Option, none, some, List, [], ◌∷◌,
  ◌++◌, ltb, leb, ◌==◌, if◌then◌else◌, length, max, min,
}
use arbitrage_station.Retry.{RetryItem, Failure, Attempt}
use arbitrage_station.Auto.{
  Result, returned, threw, ClosePlan, OpenPlan, CurrentRow, risk_reduce_close_plan,
  force_close_all_plan, member, AutoConfig, CloseReason, delta_repair_fallback_close,
  lock_spread_excess, risk_hard_drawdown, risk_soft_drawdown, basis_shock_exit,
  risk_reduce_stale_data, portfolio_rebalance, Order, retried, repaired, opened, closed, Engine,
  Run, execute_close_plan,
}
use arbitrage_station.Auto.Events.{RefreshMeta, ScannedLegs, collect_api_fail_events}

pub data Status : Type 0 where
  lock_held_by_other_worker throttled disabled retry_executed : Status
  api_fail_circuit_breaker : Status
  hedge_repair_dry_run hedge_repair_circuit_breaker hedge_repair_executed : Status
  profit_lock_dry_run profit_lock_executed : Status
  risk_guard_hard_dry_run risk_guard_hard_no_positions risk_guard_hard_executed : Status
  risk_guard_soft_blocked_no_close risk_guard_soft_dry_run risk_guard_soft_executed : Status
  basis_shock_dry_run basis_shock_executed : Status
  risk_reduce_no_action risk_reduce_dry_run risk_reduce_executed : Status
  no_delta_to_rebalance rebalance_deadband_blocked rebalance_wait_confirm : Status
  rebalance_fee_coverage_blocked rebalance_capacity_not_exhausted_blocked : Status
  dry_run_plan executed : Status
  error : (circuit_breaker_triggered : Bool) → Status

-- What the scan of the market gives; `rows` keeps the rest of it.
pub record Scan (O : Type 0) : Type 0 where
  pub rows : O
  pub nav_is_stale : Bool
  pub refresh_meta : RefreshMeta

pub record Mismatch (R : Type 0) : Type 0 where
  pub repair_plan : List R
  pub fallback_close_plan : List ClosePlan
  pub scanned : List ScannedLegs

pub record RepairDone : Type 0 where
  pub repaired_pairs : ℕ
  pub failed_pairs : ℕ
  pub fallback : List ClosePlan

pub record Delta : Type 0 where
  pub open_plan : List OpenPlan
  pub close_plan : List ClosePlan
  pub has_delta : Bool
  pub meets_absolute : Bool
  pub meets_relative : Bool
  pub raw_signal : Bool
  pub fingerprint : String

pub record Opens : Type 0 where
  pub opened_pairs : ℕ
  pub open_failed : List Failure
  pub open_skipped : List OpenPlan

-- `H` are the holds, `O` what the scan found, `R` the repairs, and `T` the target.
pub record Parts (D H O R T : Type 0) : Type 0 where
  pub load_cfg : D → Result Unit × D
  pub commit : D → Result Unit × D
  pub reconcile : D → D
  pub attempt : D → ℕ → RetryItem → Attempt
  pub after_retries : List RetryItem → D → D
  pub open_scan : D → Result (Scan O) × D
  pub active_holds : D → Result H × D
  pub current_state : H → Scan O → D → Result (List CurrentRow) × D
  pub mismatch : H → Scan O → D → Result (Mismatch R) × D
  pub repair : List R → D → Result RepairDone × D
  pub close : ℕ → CloseReason → D → Option String × D
  pub collect_equity : D → Result Unit × D
  pub profit_lock : H → List CurrentRow → D → Result (List ClosePlan) × D
  pub drawdown : Scan O → D → Result (Option ℕ) × D
  pub basis_shock : H → Scan O → D → Result (List ClosePlan) × D
  pub target : Scan O → D → Result T × D
  pub delta : List CurrentRow → T → D → Result Delta × D
  pub all_covered : List ClosePlan → D → Result Bool × D
  pub allow_rebalance : Scan O → H → D → Result Bool × D
  pub execute_open : List OpenPlan → D → Result Opens × D

-- `x or y`
abbrev pub or_number : ℕ → ℕ → ℕ
or_number x y = if x == 0 then y else x

-- The first plan of each strategy, without those of no strategy.
pub once_each : List ℕ → List ClosePlan → List ClosePlan
once_each seen [] = []
once_each seen (p ∷ ps) =
    let skipped = once_each seen ps in
    let rest = once_each (p.strategy_id ∷ seen) ps in
    if (p.strategy_id == 0) || member p.strategy_id seen then skipped else p ∷ rest

-- `cfg.is_enabled = False; db.commit()`: a commit that raises leaves the row as it was.
abbrev pub switch_off : {D H O R T : Type 0} → Parts D H O R T → Run D Unit
switch_off parts s =
    let (r, w) = parts.commit s.world in
    elim r [
      | returned _ ↦
          (returned tt, record s { world = w; cfg = record s.cfg { is_enabled = false } })
      | threw ↦ (threw, record s { world = w })
    ]

-- `_record_api_fail_streak`
abbrev pub record_api_fail_streak : {D : Type 0} → Bool → Engine D → Engine D
record_api_fail_streak failed s = record s {
  api_fail_streak = if failed then s.api_fail_streak + 1 else 0;
  streak_recorded = true;
}
