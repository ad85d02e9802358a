-- ===== src/Auto/Late.antt =====
-- A cycle that raises after its scan is not counted as a failure.
use arbitrage_station.Base.{
  ℕ, ◌≡◌, refl, Bool, true, false, List, [], ◌∷◌, leb, if◌then◌else◌, max, All, arith,
}
use arbitrage_station.Cycle.{LockResult}
use arbitrage_station.Auto.{Result, returned, threw, CurrentRow, Engine, Run}
use arbitrage_station.Auto.Events.{collect_api_fail_events}
use arbitrage_station.Auto.Run.{
  ◌>>=◌, pure, call, Status, Scan, Mismatch, Parts, record_api_fail_streak,
}
use arbitrage_station.Auto.Run.Calls.{
  bind_returned, bind_threw, bind_to, run_cycles, Idle, at_scan, cycle_scans,
}
use arbitrage_station.Auto.Run.Closing.{profit_lock_stage}
use arbitrage_station.Auto.Run.Stages.{
  scan_stage, breaker_stage, repair_stage, refresh_stage, refresh_nav, end_cycle, run_cycle,
}

limit_positive : (n : ℕ) → leb (max 1 n) 0 ≡ false
limit_positive n = ground arith

module _ {D H O R T : Type 0} (parts : Parts D H O R T) where
  -- The scan and the look at the hedges find no error and nothing to repair; what comes next raises.
  pub record FailsLate (scan : Scan O) (holds : H) (rows : List CurrentRow) (m : Mismatch R)
      : Type 0 where
    pub cfg_loads : (w : D) → (parts.load_cfg w).0 ≡ returned tt
    pub scans : (w : D) → (parts.open_scan w).0 ≡ returned scan
    pub holds_read : (w : D) → (parts.active_holds w).0 ≡ returned holds
    pub rows_built : (w : D) → (parts.current_state holds scan w).0 ≡ returned rows
    pub looked : (w : D) → (parts.mismatch holds scan w).0 ≡ returned m
    pub no_events : collect_api_fail_events scan.refresh_meta m.scanned ≡ []
    pub no_repairs : m.repair_plan ≡ []
    pub no_closes : m.fallback_close_plan ≡ []
    pub is_fresh : scan.nav_is_stale ≡ false
    pub lock_throws : (w : D) → (parts.profit_lock holds rows w).0 ≡ threw

  -- The cycle raises after it has counted no failure; the engine is on as before.
  abbrev Late : Result Status × Engine D → Type 0
  Late (r, t) =
      (r ≡ threw)
      × (t.streak_recorded ≡ true)
      × (t.cfg_loaded ≡ true)
      × (t.api_fail_streak ≡ 0)
      × (t.cfg.is_enabled ≡ true)
      × Idle parts t

  module _ (scan : Scan O) (holds : H) (rows : List CurrentRow) (m : Mismatch R)
      (h : FailsLate scan holds rows m) (now : ℕ) where
    abbrev Ready : Engine D → Type 0
    Ready s = (s.cfg_loaded ≡ true) × (s.cfg.is_enabled ≡ true) × Idle parts s

    lock-Late :
        (dry : Bool) (s : Engine D)
        → Ready s
        → s.streak_recorded ≡ true
        → s.api_fail_streak ≡ 0
        → Late (profit_lock_stage parts now dry holds scan rows s)
    unfolding profit_lock_stage
    lock-Late dry s ready counted zero =
        rw (bind_threw (call (parts.profit_lock holds rows)) _ s (h.lock_throws s.world))
          (refl, counted, ready.0, zero, ready.1, ready.2)

    abbrev if_stale : Run D (Scan O × List CurrentRow)
    if_stale =
        if scan.nav_is_stale then refresh_nav parts now holds scan rows else pure (scan, rows)

    not_stale : (s : Engine D) → if_stale s ≡ (returned (scan, rows), s)
    not_stale s = rw h.is_fresh refl

    refresh-Late :
        (dry : Bool) (s : Engine D)
        → Ready s
        → s.streak_recorded ≡ true
        → s.api_fail_streak ≡ 0
        → Late (refresh_stage parts now dry holds scan rows s)
    unfolding refresh_stage
    refresh-Late dry s ready counted zero =
        rw (bind_to if_stale _ s (scan, rows) s (not_stale s)) (lock-Late dry s ready counted zero)

    repair-Late :
        (dry : Bool) (s : Engine D)
        → Ready s
        → s.streak_recorded ≡ true
        → s.api_fail_streak ≡ 0
        → Late (repair_stage parts now dry holds scan rows m s)
    unfolding repair_stage
    repair-Late dry s ready counted zero =
        rw (h.no_repairs, h.no_closes) (refresh-Late dry s ready counted zero)

    breaker-Late :
        (dry : Bool) (s : Engine D)
        → Ready s
        → Late (breaker_stage parts now dry holds scan rows m s)
    unfolding breaker_stage ◌>>=◌
    breaker-Late dry s ready =
        rw h.no_events (repair-Late dry (record_api_fail_streak false s) ready refl refl)

    scan-Late : (dry : Bool) (s : Engine D) → Ready s → Late (scan_stage parts now dry s)
    unfolding scan_stage
    scan-Late dry s ready =
        let s1 : Engine D = record s { world = (parts.open_scan s.world).1 } in
        let s2 : Engine D = record s1 { world = (parts.active_holds s1.world).1 } in
        let s3 : Engine D = record s2 { world = (parts.current_state holds scan s2.world).1 } in
        rw
          (
            bind_returned (call parts.open_scan) _ s scan (h.scans s.world),
            bind_returned (call parts.active_holds) _ s1 holds (h.holds_read s1.world),
            bind_returned (call (parts.current_state holds scan)) _ s2 rows (h.rows_built s2.world),
            bind_returned (call (parts.mismatch holds scan)) _ s3 m (h.looked s3.world),
          )
          (breaker-Late dry (record s3 { world = (parts.mismatch holds scan s3.world).1 }) ready)

    -- A raise that was counted as none, with a streak of 0, does not reach the limit.
    end_cycle-Late :
        (r : Result Status) (t : Engine D)
        → Late (r, t)
        → let (status, u) = end_cycle parts now (r, t) in
          (status ≡ Status.error false) × (u.cfg.is_enabled ≡ true) × Idle parts u
    end_cycle-Late r t l =
        rw (l.0, l.1, l.2, l.3) (rw (limit_positive t.cfg.api_fail_circuit_count) (refl, l.4, l.5))

    cycle_late :
        (s : Engine D)
        → s.cfg.is_enabled ≡ true
        → Idle parts s
        → let (status, u) = run_cycle parts now true LockResult.acquired s in
          (status ≡ Status.error false) × (u.cfg.is_enabled ≡ true) × Idle parts u
    cycle_late s on idle =
        let (r, t) = scan_stage parts now s.cfg.dry_run (at_scan parts h.cfg_loads now s) in
        rw (cycle_scans parts h.cfg_loads now s on idle) (
          end_cycle-Late r t
            (scan-Late s.cfg.dry_run (at_scan parts h.cfg_loads now s) (refl, on, idle)))

  -- In every cycle the settings can be read, the scan is the same, without an error and with a fresh equity, there is
  -- nothing to repair, and then the plan of the profit lock raises; no retry waits and the engine is on. Then each of
  -- any number of forced cycles ends in an error, and the engine is never switched off, whatever the limit of failures
  -- is.
  pub late_failures_never_trip :
      (scan : Scan O) (holds : H) (rows : List CurrentRow) (m : Mismatch R)
      → FailsLate scan holds rows m
      → (ts : List ℕ) (s : Engine D) → s.cfg.is_enabled ≡ true
      → s.queue ≡ []
      → All (λ status. status ≡ Status.error false) (run_cycles parts ts s).0
        × ((run_cycles parts ts s).1.cfg.is_enabled ≡ true)
  unfolding run_cycles
  late_failures_never_trip scan holds rows m h [] s on idle = (tt, on)
  late_failures_never_trip scan holds rows m h (t ∷ ts) s on idle =
      let c = cycle_late scan holds rows m h t s on idle in
      let more =
        late_failures_never_trip scan holds rows m h ts
          (run_cycle parts t true LockResult.acquired s).1 c.1 c.2 in
      ((c.0, more.0), more.1)
