-- ===== src/Auto/Run/Stages.antt =====
-- The first stages of a cycle, the last one first, and the cycle.
use arbitrage_station.Base.{
  ℕ, ◌-◌, ◌*◌, Bool, true, false, ◌&&◌, ◌||◌, not, Option, none, some, List, [], ◌∷◌, ◌++◌, ltb,
  leb, if◌then◌else◌, max,
}
use arbitrage_station.Cycle.{LockResult}
use arbitrage_station.Retry.{Failure, process_due_retries, due_items}
use arbitrage_station.Auto.{
  Result, returned, threw, ClosePlan, CurrentRow, delta_repair_fallback_close, retried, repaired,
  Engine, Run,
}
use arbitrage_station.Auto.Events.{collect_api_fail_events}
use arbitrage_station.Auto.Run.{
  ◌>>=◌, ◌>>◌, pure, gets, call, modify, log, caught, Status, Scan, Mismatch, Parts, or_number,
  once_each, switch_off, record_api_fail_streak,
}
use arbitrage_station.Auto.Run.Closing.{is_empty, exec_close_with_retry, profit_lock_stage}

module _ {D H O R T : Type 0} (parts : Parts D H O R T) (now : ℕ) where
  abbrev pub scan_again : Option {0} Unit → Run D (Option (Scan O))
  scan_again none = pure none
  scan_again (some _) = caught (call parts.open_scan)

  -- `open_scan` is assigned before the current state is built, which may raise.
  unfoldable pub take_over :
      H → Scan O → List CurrentRow → Option (Scan O) → Run D (Scan O × List CurrentRow)
  take_over holds scan rows none = pure (scan, rows)
  take_over holds scan rows (some new) = do
    state ← caught (call (parts.current_state holds new))
    pure (new, elim state [ none ↦ rows | some new_rows ↦ new_rows ])

  -- The look at the market again when the equity is stale: what raises ends it, and what was read before stays.
  unfoldable pub refresh_nav : H → Scan O → List CurrentRow → Run D (Scan O × List CurrentRow)
  unfolding take_over
  refresh_nav holds scan rows = do
    collected ← caught (call parts.collect_equity)
    new ← scan_again collected
    take_over holds scan rows new

  unfoldable pub refresh_stage : Bool → H → Scan O → List CurrentRow → Run D Status
  unfolding refresh_nav profit_lock_stage
  refresh_stage dry_run holds scan rows = do
    (scan', rows') ← (if scan.nav_is_stale then refresh_nav holds scan rows else pure (scan, rows))
    profit_lock_stage parts now dry_run holds scan' rows'

  unfoldable pub repair_closes : List ClosePlan → Run D (List Failure)
  unfolding exec_close_with_retry
  repair_closes plan =
      if is_empty plan
      then pure []
      else exec_close_with_retry parts now delta_repair_fallback_close plan

  -- The repairs, then the closes of what they could not repair, one for each strategy
  unfoldable pub execute_repairs : Mismatch R → Run D Status
  unfolding repair_closes
  execute_repairs m = do
    log repaired
    ret ← call (parts.repair m.repair_plan)
    failed ← repair_closes (once_each [] (m.fallback_close_plan ++ ret.fallback))
    breaks ← gets (λ s. s.cfg.circuit_breaker_on_repair_fail)
    if breaks && (ltb 0 ret.failed_pairs || not (is_empty failed))
        then switch_off parts >> pure Status.hedge_repair_circuit_breaker
        else pure Status.hedge_repair_executed

  unfoldable pub repair_stage : Bool → H → Scan O → List CurrentRow → Mismatch R → Run D Status
  unfolding refresh_stage execute_repairs
  repair_stage dry_run holds scan rows m =
      if is_empty m.repair_plan && is_empty m.fallback_close_plan
      then refresh_stage dry_run holds scan rows
      else if dry_run
      then pure Status.hedge_repair_dry_run
      else execute_repairs m

  unfoldable pub breaker_stage : Bool → H → Scan O → List CurrentRow → Mismatch R → Run D Status
  unfolding repair_stage
  breaker_stage dry_run holds scan rows m = do
    let failed = not (is_empty (collect_api_fail_events scan.refresh_meta m.scanned))
    modify (record_api_fail_streak failed)
    s ← gets (λ s. s)
    if failed && leb (max 1 s.cfg.api_fail_circuit_count) s.api_fail_streak
        then switch_off parts >> pure Status.api_fail_circuit_breaker
        else repair_stage dry_run holds scan rows m

  unfoldable pub scan_stage : Bool → Run D Status
  unfolding breaker_stage
  scan_stage dry_run = do
    scan ← call parts.open_scan
    holds ← call parts.active_holds
    rows ← call (parts.current_state holds scan)
    m ← call (parts.mismatch holds scan)
    breaker_stage dry_run holds scan rows m

  -- `_process_due_retries`, and whether any were due
  unfoldable pub process_retries : Run D Bool
  process_retries s =
      let due = due_items (1000 * now) s.queue in
      let sweep =
        process_due_retries (parts.attempt s.world) (1000 * now) s.cfg.execution_retry_backoff_secs
          s.cfg.execution_retry_max_rounds s.queue in
      if is_empty due then (returned false, s) else (
        returned true,
        record s {
          world = parts.after_retries due s.world;
          queue = sweep.queue;
          orders = retried ∷ s.orders;
        },
      )

  unfoldable pub retry_stage : Bool → Run D Status
  unfolding process_retries scan_stage
  retry_stage dry_run = if dry_run then scan_stage dry_run else (do
    any ← process_retries
    if any then pure Status.retry_executed else scan_stage dry_run)

  -- The body of the `try` once the settings are loaded
  unfoldable pub after_load : Bool → Run D Status
  unfolding retry_stage
  after_load force = do
    modify (λ s. record s { cfg_loaded = true })
    s ← gets (λ s. s)
    if not force && ltb (now - s.last_cycle_ts) (max 3 (or_number s.cfg.refresh_interval_secs 10))
        then pure Status.throttled
        else (do
          modify (λ s. record s { last_cycle_ts = now })
          if not s.cfg.is_enabled then pure Status.disabled else (do
            modify (λ s. record s { world = parts.reconcile s.world })
            retry_stage s.cfg.dry_run))

  unfoldable pub cycle_body : Bool → Run D Status
  unfolding after_load
  cycle_body force = call parts.load_cfg >> after_load force

  -- The body of the `except`; a second commit that raises is caught.
  abbrev pub on_error : Engine D → Status × Engine D
  on_error s0 =
      let s = if s0.streak_recorded then s0 else record_api_fail_streak true s0 in
      let limit = if s.cfg_loaded then max 1 s.cfg.api_fail_circuit_count else 5 in
      if s.cfg_loaded && leb limit s.api_fail_streak
      then (let (r, s') = switch_off parts s in
          (Status.error (elim r [ returned _ ↦ true | threw ↦ false ]), s'))
      else (Status.error false, s)

  abbrev pub begin_cycle : Engine D → Engine D
  begin_cycle s = record s { orders = []; cfg_loaded = false; streak_recorded = false }

  abbrev pub end_cycle : Result Status × Engine D → Status × Engine D
  end_cycle (returned status, s) = (status, s)
  end_cycle (threw, s) = on_error s

  -- `run_spot_basis_auto_open_cycle`
  unfoldable pub run_cycle : Bool → LockResult → Engine D → Status × Engine D
  unfolding cycle_body
  run_cycle force LockResult.acquired s = end_cycle (cycle_body force (begin_cycle s))
  run_cycle force _ s = (Status.lock_held_by_other_worker, begin_cycle s)
