-- ===== src/Auto/Run/Closing.antt =====
-- The stages of a cycle that close and open, the last one first.
use arbitrage_station.Base.{
  ℕ, ◌*◌, Bool, true, false, ◌&&◌, ◌||◌, not, Option, none, some, List, [], ◌∷◌, leb, if◌then◌else◌,
  length, max, min,
}
use arbitrage_station.Cycle.{Signal, apply_rebalance_confirm_rounds}
use arbitrage_station.Retry.{Kind, open_kind, close_kind, Failure, enqueue_retry_items}
use arbitrage_station.Auto.{
  returned, ClosePlan, OpenPlan, CurrentRow, risk_reduce_close_plan, force_close_all_plan,
  CloseReason, lock_spread_excess, risk_hard_drawdown, risk_soft_drawdown, risk_reduce_stale_data,
  portfolio_rebalance, opened, closed, Run, execute_close_plan,
}
use arbitrage_station.Auto.Run.{
  ◌>>=◌, ◌>>◌, pure, gets, call, modify, log, Status, Scan, Delta, Parts, or_number,
}

abbrev pub is_empty {ℓ} : {A : Type ℓ} → List A → Bool
is_empty [] = true
is_empty (_ ∷ _) = false

module _ {D H O R T : Type 0} (parts : Parts D H O R T) (now : ℕ) where
  -- `_enqueue_retry_items`, with the settings of the engine; the queue counts in milliseconds.
  unfoldable pub enqueue : Kind → List Failure → Run D Unit
  enqueue kind failed = modify λ s.
      let rounds = s.cfg.execution_retry_max_rounds in
      let backoff = max 1 s.cfg.execution_retry_backoff_secs in
      record s { queue = (enqueue_retry_items kind failed (1000 * now) rounds backoff s.queue).0 }

  -- `_execute_close_plan`; what failed is returned.
  unfoldable pub close_all : CloseReason → List ClosePlan → Run D (List Failure)
  close_all reason plan = do
    ret ← call (λ w. let (r, w') = execute_close_plan parts.close reason plan w in (returned r, w'))
    log (closed reason (length ret.1))
    pure ret.1

  -- `_exec_close_with_retry`
  unfoldable pub exec_close_with_retry : CloseReason → List ClosePlan → Run D (List Failure)
  unfolding enqueue close_all
  exec_close_with_retry reason plan = do
    failed ← close_all reason plan
    enqueue close_kind failed
    pure failed

  -- `_execute_open_plan`, unless a close failed; what failed is returned.
  unfoldable pub open_phase : List Failure → List OpenPlan → Run D (List Failure)
  open_phase close_failed plan =
      if is_empty close_failed
      then (do log opened; ret ← call (parts.execute_open plan); pure ret.open_failed)
      else pure []

  unfoldable pub execute_rebalance : Delta → Run D Status
  unfolding enqueue close_all open_phase
  execute_rebalance d = do
    close_failed ← close_all portfolio_rebalance d.close_plan
    open_failed ← open_phase close_failed d.open_plan
    enqueue close_kind close_failed
    enqueue open_kind open_failed
    pure Status.executed

  abbrev pub signal_of : Delta → Signal
  signal_of d = record { now = now; raw_signal = d.raw_signal; fingerprint = d.fingerprint }

  abbrev pub confirm_signal : Delta → Run D (Bool × ℕ)
  confirm_signal d s =
      let (r, c) =
        apply_rebalance_confirm_rounds (max 1 (or_number s.cfg.switch_confirm_rounds 1))
          (signal_of d) s.confirm in
      (returned r, record s { confirm = c })

  -- The status of a rebalance that is not allowed
  abbrev pub blocked : Delta → (confirmed covered capacity : Bool) → Status
  blocked d confirmed covered capacity =
      if not d.meets_absolute || (not d.meets_relative || not d.raw_signal)
      then Status.rebalance_deadband_blocked
      else if not confirmed
      then Status.rebalance_wait_confirm
      else if not covered
      then Status.rebalance_fee_coverage_blocked
      else if not capacity
      then Status.rebalance_capacity_not_exhausted_blocked
      else Status.rebalance_deadband_blocked

  unfoldable pub rebalance_stage : Bool → H → Scan O → List CurrentRow → Run D Status
  unfolding execute_rebalance
  rebalance_stage dry_run holds scan rows = do
    target ← call (parts.target scan)
    d ← call (parts.delta rows target)
    (confirmed, _) ← confirm_signal d
    covered ← call (parts.all_covered d.close_plan)
    capacity ←
        (if d.raw_signal && not (is_empty d.close_plan)
          then call (parts.allow_rebalance scan holds)
          else pure true)
    if not d.has_delta
        then pure Status.no_delta_to_rebalance
        else if not (d.raw_signal && (confirmed && (covered && capacity)))
        then pure (blocked d confirmed covered capacity)
        else if dry_run
        then pure Status.dry_run_plan
        else execute_rebalance d

  -- A plan that is carried out, or only shown in a dry run
  unfoldable pub close_or_show :
      Bool → CloseReason → List ClosePlan → (shown done : Status) → Run D Status
  unfolding exec_close_with_retry
  close_or_show dry_run reason plan shown done =
      if dry_run then pure shown else exec_close_with_retry reason plan >> pure done

  unfoldable pub stale_stage : Bool → H → Scan O → List CurrentRow → Run D Status
  unfolding rebalance_stage close_or_show
  stale_stage dry_run holds scan rows = do
    conf_min ← gets (λ s. s.cfg.hold_conf_min)
    let plan = risk_reduce_close_plan conf_min rows
    if not scan.nav_is_stale
        then rebalance_stage dry_run holds scan rows
        else if is_empty plan
        then pure Status.risk_reduce_no_action
        else close_or_show dry_run risk_reduce_stale_data plan Status.risk_reduce_dry_run
            Status.risk_reduce_executed

  unfoldable pub basis_shock_stage : Bool → H → Scan O → List CurrentRow → Run D Status
  unfolding stale_stage close_or_show
  basis_shock_stage dry_run holds scan rows = do
    plan ← call (parts.basis_shock holds scan)
    if is_empty plan
        then stale_stage dry_run holds scan rows
        else close_or_show dry_run CloseReason.basis_shock_exit plan Status.basis_shock_dry_run
            Status.basis_shock_executed

  unfoldable pub soft_stop : Bool → List ClosePlan → Run D Status
  unfolding close_or_show
  soft_stop dry_run plan =
      if is_empty plan
      then pure Status.risk_guard_soft_blocked_no_close
      else close_or_show dry_run risk_soft_drawdown plan Status.risk_guard_soft_dry_run
          Status.risk_guard_soft_executed

  unfoldable pub hard_stop : Bool → List ClosePlan → Run D Status
  unfolding exec_close_with_retry
  hard_stop dry_run plan =
      if dry_run
      then pure Status.risk_guard_hard_dry_run
      else if is_empty plan
      then pure Status.risk_guard_hard_no_positions
      else exec_close_with_retry risk_hard_drawdown plan >> pure Status.risk_guard_hard_executed

  abbrev pub reaches : ℕ → Option ℕ → Bool
  reaches limit none = false
  reaches limit (some loss) = leb limit loss

  -- A soft limit beyond the hard one is the hard one.
  unfoldable pub drawdown_stage : Bool → H → Scan O → List CurrentRow → Run D Status
  unfolding basis_shock_stage soft_stop hard_stop
  drawdown_stage dry_run holds scan rows = do
    loss ← call (parts.drawdown scan)
    cfg ← gets (λ s. s.cfg)
    if reaches cfg.dd_hard_loss loss
        then hard_stop dry_run (force_close_all_plan rows)
        else if reaches (min cfg.dd_soft_loss cfg.dd_hard_loss) loss
        then soft_stop dry_run (risk_reduce_close_plan cfg.hold_conf_min rows)
        else basis_shock_stage dry_run holds scan rows

  unfoldable pub profit_lock_stage : Bool → H → Scan O → List CurrentRow → Run D Status
  unfolding drawdown_stage close_or_show
  profit_lock_stage dry_run holds scan rows = do
    plan ← call (parts.profit_lock holds rows)
    if is_empty plan
        then drawdown_stage dry_run holds scan rows
        else close_or_show dry_run lock_spread_excess plan Status.profit_lock_dry_run
            Status.profit_lock_executed
