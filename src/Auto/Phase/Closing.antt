-- ===== src/Auto/Phase/Closing.antt =====
-- The orders of the stages that close and open.
use arbitrage_station.Base.{
  ap, ℕ, refl, Bool, true, false, ◌&&◌, not, List, [], ◌∷◌, if◌then◌else◌, length, if-both, min,
}
use arbitrage_station.Retry.{Kind, Failure, open_kind, close_kind}
use arbitrage_station.Auto.{
  ClosePlan, CurrentRow, CloseReason, portfolio_rebalance, Order, execute_close_plan, OpenPlan,
  opened, closed, Run, risk_reduce_close_plan, force_close_all_plan,
}
use arbitrage_station.Auto.Run.{◌>>=◌, ◌>>◌, pure, gets, call, Status, Scan, Delta, Parts}
use arbitrage_station.Auto.Run.Closing.{
  is_empty, enqueue, close_all, exec_close_with_retry, execute_rebalance, open_phase,
  rebalance_stage, close_or_show, stale_stage, basis_shock_stage, soft_stop, hard_stop,
  drawdown_stage, profit_lock_stage, reaches, confirm_signal,
}
use arbitrage_station.Auto.Phase.Steps.{
  IsOnePhase, no_order, closes, opens, Leads, Quiet, Leads-bind, Leads-then, Quiet-bind,
}

module _ {D H O R T : Type 0} (parts : Parts D H O R T) (now : ℕ) where
  abbrev pub Ends : Bool → Run D Status → Type 0
  Ends dry m = Leads [] (IsOnePhase dry) m

  -- A step that orders nothing goes before.
  pub Ends-bind :
      {A : Type 0} (dry : Bool) (m : Run D A) (k : A → Run D Status)
      → Quiet m
      → ((a : A) → Ends dry (k a))
      → Ends dry (m >>= k)
  Ends-bind dry m k quiet h = Leads-bind [] (IsOnePhase dry) m k quiet no_order h

  -- After closes
  pub Leads-close :
      {A : Type 0} (l : List Order) (Q : List Order → Type 0) (reason : CloseReason)
      (plan : List ClosePlan) (k : List Failure → Run D A)
      → ((failed : List Failure) → Leads (closed reason (length failed) ∷ l) Q (k failed))
      → Leads l Q (close_all parts now reason plan >>= k)
  unfolding close_all ◌>>=◌
  Leads-close l Q reason plan k h s e =
      h _ _ (
        ap (◌∷◌ (closed reason (length (execute_close_plan parts.close reason plan s.world).0.1)))
          e)

  Ends-close :
      (reason : CloseReason) (plan : List ClosePlan) (status : Status)
      → Ends false (exec_close_with_retry parts now reason plan >> pure status)
  unfolding exec_close_with_retry close_all enqueue ◌>>=◌
  Ends-close reason plan status s e = rw e closes

  open_phase_ends :
      (failed : List Failure) (plan : List OpenPlan)
      → Leads
          (closed portfolio_rebalance (length failed) ∷ [])
          (IsOnePhase false)
          (open_phase parts now failed plan)
  unfolding open_phase ◌>>=◌
  open_phase_ends [] plan s e =
      Leads-bind (opened ∷ closed portfolio_rebalance 0 ∷ []) (IsOnePhase false)
        (call (parts.execute_open plan)) (λ ret. pure ret.open_failed) (λ s. refl) opens
        (λ a s e. rw e opens) (record s { orders = opened ∷ s.orders }) (ap (◌∷◌ opened) e)
  open_phase_ends (f ∷ fs) plan s e = rw e closes

  pub enqueue-Quiet : (kind : Kind) (failed : List Failure) → Quiet (enqueue parts now kind failed)
  unfolding enqueue
  enqueue-Quiet kind failed s = refl

  rebalance-Ends : (d : Delta) → Ends false (execute_rebalance parts now d)
  unfolding execute_rebalance
  rebalance-Ends d = Leads-close [] (IsOnePhase false) portfolio_rebalance d.close_plan _ λ failed.
      Leads-then (closed portfolio_rebalance (length failed) ∷ []) (IsOnePhase false)
        (open_phase parts now failed d.open_plan) _ (open_phase_ends failed d.open_plan)
        λ a.
          Quiet-bind _ _ (enqueue-Quiet close_kind failed)
            λ _. Quiet-bind _ _ (enqueue-Quiet open_kind a) λ _ s. refl

  Ends-pure : (dry : Bool) (status : Status) → Ends dry (pure status)
  Ends-pure dry status s e = rw e no_order

  -- A dry run only shows what it would do.
  pub Ends-shown :
      (dry : Bool) (status : Status) (m : Run D Status)
      → Ends false m
      → Ends dry (if dry then pure status else m)
  Ends-shown true status m h = Ends-pure true status
  Ends-shown false status m h = h

  rebalance_stage-Ends :
      (dry : Bool) (holds : H) (scan : Scan O) (rows : List CurrentRow)
      → Ends dry (rebalance_stage parts now dry holds scan rows)
  unfolding rebalance_stage
  rebalance_stage-Ends dry holds scan rows =
      Ends-bind dry (call (parts.target scan)) _ (λ s. refl)
        λ target.
          Ends-bind dry (call (parts.delta rows target)) _ (λ s. refl)
            λ d.
              Ends-bind dry (confirm_signal parts now d) _ (λ s. refl)
                λ c.
                  Ends-bind dry (call (parts.all_covered d.close_plan)) _ (λ s. refl)
                    λ covered.
                      Ends-bind dry _ _
                        (if-both Quiet (d.raw_signal && not (is_empty d.close_plan)) (λ _ s. refl)
                          λ _ s. refl)
                        λ capacity.
                          if-both (Ends dry) (not d.has_delta) (λ _ s e. rw e no_order)
                            λ _.
                              if-both (Ends dry)
                                (not (d.raw_signal && (c.0 && (covered && capacity))))
                                (λ _ s e. rw e no_order) λ _. Ends-shown dry _ _ (rebalance-Ends d)

  close_or_show-Ends :
      (dry : Bool) (reason : CloseReason) (plan : List ClosePlan) (shown done : Status)
      → Ends dry (close_or_show parts now dry reason plan shown done)
  unfolding close_or_show
  close_or_show-Ends dry reason plan shown done =
      Ends-shown dry shown _ (Ends-close reason plan done)

  stale_stage-Ends :
      (dry : Bool) (holds : H) (scan : Scan O) (rows : List CurrentRow)
      → Ends dry (stale_stage parts now dry holds scan rows)
  unfolding stale_stage
  stale_stage-Ends dry holds scan rows =
      Ends-bind dry (gets (λ s. s.cfg.hold_conf_min)) _ (λ s. refl)
        λ conf_min.
          if-both (Ends dry) (not scan.nav_is_stale) (λ _. rebalance_stage-Ends dry holds scan rows)
            λ _.
              if-both (Ends dry) (is_empty (risk_reduce_close_plan conf_min rows))
                (λ _ s e. rw e no_order) λ _. close_or_show-Ends dry _ _ _ _

  basis_shock_stage-Ends :
      (dry : Bool) (holds : H) (scan : Scan O) (rows : List CurrentRow)
      → Ends dry (basis_shock_stage parts now dry holds scan rows)
  unfolding basis_shock_stage
  basis_shock_stage-Ends dry holds scan rows =
      Ends-bind dry (call (parts.basis_shock holds scan)) _ (λ s. refl)
        λ plan.
          if-both (Ends dry) (is_empty plan) (λ _. stale_stage-Ends dry holds scan rows)
            λ _. close_or_show-Ends dry _ _ _ _

  soft_stop-Ends : (dry : Bool) (plan : List ClosePlan) → Ends dry (soft_stop parts now dry plan)
  unfolding soft_stop
  soft_stop-Ends dry plan =
      if-both (Ends dry) (is_empty plan) (λ _ s e. rw e no_order)
        λ _. close_or_show-Ends dry _ _ _ _

  hard_stop-Ends : (dry : Bool) (plan : List ClosePlan) → Ends dry (hard_stop parts now dry plan)
  unfolding hard_stop
  hard_stop-Ends dry plan =
      Ends-shown dry _ _
        (if-both (Ends false) (is_empty plan) (λ _ s e. rw e no_order) λ _. Ends-close _ _ _)

  drawdown_stage-Ends :
      (dry : Bool) (holds : H) (scan : Scan O) (rows : List CurrentRow)
      → Ends dry (drawdown_stage parts now dry holds scan rows)
  unfolding drawdown_stage
  drawdown_stage-Ends dry holds scan rows =
      Ends-bind dry (call (parts.drawdown scan)) _ (λ s. refl)
        λ loss.
          Ends-bind dry (gets (λ s. s.cfg)) _ (λ s. refl)
            λ cfg.
              if-both (Ends dry) (reaches parts now cfg.dd_hard_loss loss)
                (λ _. hard_stop-Ends dry (force_close_all_plan rows))
                λ _.
                  if-both (Ends dry)
                    (reaches parts now (min cfg.dd_soft_loss cfg.dd_hard_loss) loss)
                    (λ _. soft_stop-Ends dry (risk_reduce_close_plan cfg.hold_conf_min rows))
                    λ _. basis_shock_stage-Ends dry holds scan rows

  pub profit_lock_stage-Ends :
      (dry : Bool) (holds : H) (scan : Scan O) (rows : List CurrentRow)
      → Ends dry (profit_lock_stage parts now dry holds scan rows)
  unfolding profit_lock_stage
  profit_lock_stage-Ends dry holds scan rows =
      Ends-bind dry (call (parts.profit_lock holds rows)) _ (λ s. refl)
        λ plan.
          if-both (Ends dry) (is_empty plan) (λ _. drawdown_stage-Ends dry holds scan rows)
            λ _. close_or_show-Ends dry _ _ _ _
