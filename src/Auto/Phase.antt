-- ===== src/Auto/Phase.antt =====
-- What one cycle of the engine may have the exchanges do.
pub mod Steps
pub mod Closing
use arbitrage_station.Base.{
  ◌∙◌, ap, ℕ, ◌≡◌, ◌*◌, ◌-◌, refl, Bool, true, false, ◌&&◌, ◌||◌, not, Option, none, some, List, [],
  ◌∷◌, ◌++◌, ltb, leb, if◌then◌else◌, length, if-both, max, min,
}
use arbitrage_station.Cycle.{LockResult}
use arbitrage_station.Retry.{Kind, Failure, open_kind, close_kind, due_items}
use arbitrage_station.Auto.{
  Result, returned, threw, ClosePlan, CurrentRow, CloseReason, delta_repair_fallback_close,
  portfolio_rebalance, Order, execute_close_plan, OpenPlan, retried, repaired, opened, closed,
  Engine, Run, risk_reduce_close_plan, force_close_all_plan,
}
use arbitrage_station.Auto.Events.{collect_api_fail_events}
use arbitrage_station.Auto.Run.{
  ◌>>=◌, ◌>>◌, pure, gets, call, modify, log, caught, Status, Scan, Mismatch, Delta, Parts,
  or_number, switch_off, record_api_fail_streak, once_each,
}
use arbitrage_station.Auto.Run.Closing.{
  is_empty, enqueue, close_all, exec_close_with_retry, execute_rebalance, open_phase,
  rebalance_stage, close_or_show, stale_stage, basis_shock_stage, soft_stop, hard_stop,
  drawdown_stage, profit_lock_stage, reaches, confirm_signal,
}
use arbitrage_station.Auto.Run.Stages.{
  refresh_nav, take_over, scan_again, repair_closes, refresh_stage, execute_repairs, repair_stage,
  breaker_stage, scan_stage, process_retries, retry_stage, cycle_body, after_load, begin_cycle,
  end_cycle, run_cycle,
}
use arbitrage_station.Auto.Phase.Steps.{
  IsOnePhase, no_order, retries, repairs, fallback_closes_after, closes, opens, Leads, Quiet,
  Leads-bind, Leads-then, Leads-log, Quiet-bind, Quiet-caught,
}
use arbitrage_station.Auto.Phase.Closing.{
  Ends, Ends-bind, Ends-shown, Leads-close, enqueue-Quiet, profit_lock_stage-Ends,
}

module _ {D H O R T : Type 0} (parts : Parts D H O R T) (now : ℕ) where
  scan_again-Quiet : (o : Option {0} Unit) → Quiet (scan_again parts now o)
  scan_again-Quiet none s = refl
  scan_again-Quiet (some _) s = Quiet-caught (call parts.open_scan) (λ s. refl) s

  take_over-Quiet :
      (holds : H) (scan : Scan O) (rows : List CurrentRow) (new : Option (Scan O))
      → Quiet (take_over parts now holds scan rows new)
  unfolding take_over
  take_over-Quiet holds scan rows none s = refl
  take_over-Quiet holds scan rows (some new) s =
      Quiet-bind _ _ (Quiet-caught (call (parts.current_state holds new)) λ s. refl) (λ _ s. refl) s

  refresh_nav-Quiet :
      (holds : H) (scan : Scan O) (rows : List CurrentRow)
      → Quiet (refresh_nav parts now holds scan rows)
  unfolding refresh_nav
  refresh_nav-Quiet holds scan rows =
      Quiet-bind _ _ (Quiet-caught (call parts.collect_equity) λ s. refl) λ collected.
        Quiet-bind _ _ (scan_again-Quiet collected) λ new. take_over-Quiet holds scan rows new

  refresh_stage-Ends :
      (dry : Bool) (holds : H) (scan : Scan O) (rows : List CurrentRow)
      → Ends parts now dry (refresh_stage parts now dry holds scan rows)
  unfolding refresh_stage
  refresh_stage-Ends dry holds scan rows =
      Ends-bind parts now dry _ _
        (if-both Quiet scan.nav_is_stale (λ _. refresh_nav-Quiet holds scan rows) λ _ s. refl)
        λ (scan', rows'). profit_lock_stage-Ends parts now dry holds scan' rows'

  Quiet-off : Quiet (switch_off parts)
  Quiet-off s = off_result (parts.commit s.world).0
    where
      off_result :
          (r : Result Unit)
          → let out : Result Unit × Engine D = elim r [
            | returned _ ↦ (
              returned tt,
              record s {
                world = (parts.commit s.world).1;
                cfg = record s.cfg { is_enabled = false };
              },
            )
            | threw ↦ (threw, record s { world = (parts.commit s.world).1 })
          ] in
            out.1.orders ≡ s.orders
      off_result (returned _) = refl
      off_result threw = refl

  -- After the repairs, with or without closes
  closes_ends :
      (plan : List ClosePlan)
      → Leads (repaired ∷ []) (IsOnePhase false) (repair_closes parts now plan)
  unfolding repair_closes exec_close_with_retry
  closes_ends [] s e = rw e repairs
  closes_ends (p ∷ ps) s e =
      Leads-close parts now (repaired ∷ []) (IsOnePhase false) delta_repair_fallback_close (p ∷ ps)
        _
        (λ failed.
          Leads-then (closed delta_repair_fallback_close (length failed) ∷ repaired ∷ [])
            (IsOnePhase false) (enqueue parts now close_kind failed) (λ _. pure failed)
            (λ s e. rw (enqueue-Quiet parts now close_kind failed s, e) fallback_closes_after)
            λ a s. refl)
        s e

  repairs_end : (m : Mismatch R) → Ends parts now false (execute_repairs parts now m)
  unfolding execute_repairs
  repairs_end m = Leads-log [] (IsOnePhase false) repaired _ (
      Leads-bind (repaired ∷ []) (IsOnePhase false) (call (parts.repair m.repair_plan)) _
        (λ s. refl) repairs
        λ ret.
          Leads-then (repaired ∷ []) (IsOnePhase false) _ _
            (closes_ends (once_each [] (m.fallback_close_plan ++ ret.fallback)))
            λ failed.
              Quiet-bind (gets (λ s. s.cfg.circuit_breaker_on_repair_fail)) _ (λ s. refl)
                λ breaks.
                  if-both Quiet (breaks && (ltb 0 ret.failed_pairs || not (is_empty failed)))
                    (λ _. Quiet-bind _ _ Quiet-off λ _ s. refl) λ _ s. refl)

  repair_stage-Ends :
      (dry : Bool) (holds : H) (scan : Scan O) (rows : List CurrentRow) (m : Mismatch R)
      → Ends parts now dry (repair_stage parts now dry holds scan rows m)
  unfolding repair_stage
  repair_stage-Ends dry holds scan rows m =
      if-both (Ends parts now dry) (is_empty m.repair_plan && is_empty m.fallback_close_plan)
        (λ _. refresh_stage-Ends dry holds scan rows)
        λ _. Ends-shown parts now dry _ _ (repairs_end m)

  breaker_stage-Ends :
      (dry : Bool) (holds : H) (scan : Scan O) (rows : List CurrentRow) (m : Mismatch R)
      → Ends parts now dry (breaker_stage parts now dry holds scan rows m)
  unfolding breaker_stage
  breaker_stage-Ends dry holds scan rows m =
      let failed = not (is_empty (collect_api_fail_events scan.refresh_meta m.scanned)) in
      Ends-bind parts now dry (modify (record_api_fail_streak failed)) _ (λ s. refl)
        λ _.
          Ends-bind parts now dry (gets (λ s. s)) _ (λ s. refl)
            λ s.
              if-both (Ends parts now dry)
                (failed && leb (max 1 s.cfg.api_fail_circuit_count) s.api_fail_streak)
                (λ _. Ends-bind parts now dry (switch_off parts) _ Quiet-off λ _ s e. rw e no_order)
                λ _. repair_stage-Ends dry holds scan rows m

  scan_stage-Ends : (dry : Bool) → Ends parts now dry (scan_stage parts now dry)
  unfolding scan_stage
  scan_stage-Ends dry =
      Ends-bind parts now dry (call parts.open_scan) _ (λ s. refl)
        λ scan.
          Ends-bind parts now dry (call parts.active_holds) _ (λ s. refl)
            λ holds.
              Ends-bind parts now dry (call (parts.current_state holds scan)) _ (λ s. refl)
                λ rows.
                  Ends-bind parts now dry (call (parts.mismatch holds scan)) _ (λ s. refl)
                    λ m. breaker_stage-Ends dry holds scan rows m

  retry_stage-Ends : (dry : Bool) → Ends parts now dry (retry_stage parts now dry)
  unfolding retry_stage process_retries ◌>>=◌
  retry_stage-Ends true s e = scan_stage-Ends true s e
  retry_stage-Ends false s e =
      let P : Result Bool × Engine D → Type 0 = λ (r, s').
        let out : Result Status × Engine D = elim r [
          | returned any ↦
              (if any then pure Status.retry_executed else scan_stage parts now false) s'
          | threw ↦ (threw, s')
        ] in
        IsOnePhase false out.1.orders in
      if-both P (is_empty (due_items (1000 * now) s.queue)) (λ _. scan_stage-Ends false s e)
        λ _. rw e retries

  or_false : (a b : Bool) → b ≡ false → (a || b) ≡ a
  or_false true b e = refl
  or_false false b e = e

  -- What a dry run and an engine that is switched off have in common.
  abbrev pub is_passive : Engine D → Bool
  is_passive s = s.cfg.dry_run || not s.cfg.is_enabled

  after_load_lem :
      (force : Bool) (s : Engine D)
      → s.orders ≡ []
      → IsOnePhase (is_passive s) (after_load parts now force s).1.orders
  unfolding after_load ◌>>=◌
  after_load_lem force s e =
      let started : Engine D = record s { cfg_loaded = true; last_cycle_ts = now } in
      let P : Run D Status → Type 0 =
        λ m. IsOnePhase (is_passive s) (m (record s { cfg_loaded = true })).1.orders in
      let P' : Run D Status → Type 0 = λ m. IsOnePhase (is_passive s) (m started).1.orders in
      let early =
        not force
        && ltb (now - s.last_cycle_ts) (max 3 (or_number s.cfg.refresh_interval_secs 10)) in
      if-both P early {x = pure Status.throttled} (λ _. rw e no_order)
        λ _.
          if-both P' (not s.cfg.is_enabled) {x = pure Status.disabled} (λ _. rw e no_order)
            λ on.
              let q : is_passive s ≡ s.cfg.dry_run = or_false s.cfg.dry_run _ on in
              rw q (
                retry_stage-Ends s.cfg.dry_run (record started { world = parts.reconcile s.world })
                  e)

  body_ends :
      (force : Bool) (s : Engine D)
      → s.orders ≡ []
      → IsOnePhase (is_passive s) (cycle_body parts now force s).1.orders
  unfolding cycle_body ◌>>=◌
  body_ends force s e = loaded (parts.load_cfg s.world).0
    where
      loaded :
          (r : Result Unit)
          → let out : Result Status × Engine D = elim r [
            | returned _ ↦
                after_load parts now force (record s { world = (parts.load_cfg s.world).1 })
            | threw ↦ (threw, record s { world = (parts.load_cfg s.world).1 })
          ] in
            IsOnePhase (is_passive s) out.1.orders
      loaded (returned _) = after_load_lem force (record s { world = (parts.load_cfg s.world).1 }) e
      loaded threw = rw e no_order

  end_cycle-Quiet :
      (r : Result Status) (s : Engine D) → (end_cycle parts now (r, s)).1.orders ≡ s.orders
  end_cycle-Quiet (returned status) s = refl
  end_cycle-Quiet threw s =
      let s1 = if s.streak_recorded then s else record_api_fail_streak true s in
      let same : s1.orders ≡ s.orders =
        if-both (λ (t : Engine D). t.orders ≡ s.orders) s.streak_recorded (λ _. refl) λ _. refl in
      let P : Status × Engine D → Type 0 = λ r. r.1.orders ≡ s.orders in
      if-both P _ (λ _. Quiet-off s1 ∙ same) λ _. same

  -- Whatever the steps do, one cycle has the exchanges do one kind of thing: the retries that are due, or the
  -- repairs and then the closes of what they could not repair, or the closes for one reason, or a
  -- rebalance, which opens only after closes none of which failed. In a dry run, or switched off,
  -- the exchanges do nothing. This holds of cycles that raise as well.
  pub run_cycle-IsOnePhase :
      (force : Bool) (lock : LockResult) (s : Engine D)
      → IsOnePhase (is_passive s) (run_cycle parts now force lock s).1.orders
  unfolding run_cycle
  run_cycle-IsOnePhase force LockResult.acquired s =
      let (r, s') = cycle_body parts now force (begin_cycle parts now s) in
      let same : (end_cycle parts now (r, s')).1.orders ≡ s'.orders = end_cycle-Quiet r s' in
      rw same (body_ends force (begin_cycle parts now s) refl)
  run_cycle-IsOnePhase force LockResult.lock_stale_remove_failed s = no_order
  run_cycle-IsOnePhase force LockResult.lock_busy s = no_order
