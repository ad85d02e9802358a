-- ===== src/Auto/Breaker.antt =====
-- How many failing cycles switch the engine off, and which failures never do.
use arbitrage_station.Base.{
  ℕ, ◌+◌, ◌<◌, ◌≡◌, refl, ◌∙◌, ap, Bool, true, false, not, List, [], ◌∷◌, ltb, leb, length, if-both,
  max, arith, Bool-cases, inl, inr,
}
use arbitrage_station.Cycle.{LockResult}
use arbitrage_station.Auto.{returned, threw, Engine}
use arbitrage_station.Auto.Run.{call, Status, Parts, switch_off}
use arbitrage_station.Auto.Run.Calls.{bind_threw, run_cycles, Idle, stays_off, at_scan, cycle_scans}
use arbitrage_station.Auto.Run.Stages.{scan_stage, on_error, run_cycle}

module _ {D H O R T : Type 0} (parts : Parts D H O R T) where
  -- The scan of the market raises always; the settings can be read and written.
  pub record FailsEarly : Type 0 where
    pub cfg_loads : (w : D) → (parts.load_cfg w).0 ≡ returned tt
    pub commits : (w : D) → (parts.commit w).0 ≡ returned tt
    pub scan_throws : (w : D) → (parts.open_scan w).0 ≡ threw

  module _ (h : FailsEarly) (now : ℕ) where
    scan_fails :
        (dry : Bool) (s : Engine D)
        → scan_stage parts now dry s ≡ (threw, record s { world = (parts.open_scan s.world).1 })
    unfolding scan_stage
    scan_fails dry s = bind_threw (call parts.open_scan) _ s (h.scan_throws s.world)

    -- What a failing cycle leaves
    abbrev Counted : Engine D → Engine D → Type 0
    Counted s t =
        (t.api_fail_streak ≡ s.api_fail_streak + 1)
        × (t.cfg.is_enabled
            ≡ not (leb (max 1 s.cfg.api_fail_circuit_count) (s.api_fail_streak + 1)))
        × (t.cfg.api_fail_circuit_count ≡ s.cfg.api_fail_circuit_count)
        × Idle parts t

    error_counts :
        (s : Engine D)
        → s.cfg.is_enabled ≡ true
        → Idle parts s
        → s.streak_recorded ≡ false
        → s.cfg_loaded ≡ true
        → Counted s (on_error parts now s).1
    error_counts s on idle fresh loads =
        rw (fresh, loads)
          (let P : Status × Engine D → Type 0 = λ r. Counted s r.1 in
            if-both P (leb (max 1 s.cfg.api_fail_circuit_count) (s.api_fail_streak + 1))
              (λ yes. rw (switch_off, h.commits s.world) (refl, rw yes refl, refl, idle))
              λ no. (refl, rw no on, refl, idle))

    cycle_counts :
        (s : Engine D)
        → s.cfg.is_enabled ≡ true
        → Idle parts s
        → Counted s (run_cycle parts now true LockResult.acquired s).1
    cycle_counts s on idle =
        let failed = record (at_scan parts h.cfg_loads now s) {
          world = (parts.open_scan (at_scan parts h.cfg_loads now s).world).1;
        } in
        rw
          (
            cycle_scans parts h.cfg_loads now s on idle,
            scan_fails s.cfg.dry_run (at_scan parts h.cfg_loads now s),
          )
          (error_counts failed on idle refl refl)

  all_off :
      (h : FailsEarly) (ts : List ℕ) (s : Engine D)
      → s.cfg.is_enabled ≡ false
      → (run_cycles parts ts s).1.cfg.is_enabled ≡ false
  unfolding run_cycles
  all_off h [] s off = off
  all_off h (t ∷ ts) s off = all_off h ts _ (stays_off parts h.cfg_loads t s off)

  count_down :
      (h : FailsEarly) (ts : List ℕ) (s : Engine D)
      → s.cfg.is_enabled ≡ true
      → Idle parts s
      → s.api_fail_streak < max 1 s.cfg.api_fail_circuit_count
      → (run_cycles parts ts s).1.cfg.is_enabled
        ≡ ltb (s.api_fail_streak + length ts) (max 1 s.cfg.api_fail_circuit_count)
  unfolding run_cycles
  count_down h [] s on idle lt = ground arith
  count_down h (t ∷ ts) s on idle lt =
      let c = cycle_counts h t s on idle in
      elim (Bool-cases (leb (max 1 s.cfg.api_fail_circuit_count) (s.api_fail_streak + 1))) [
        | inl last ↦ all_off h ts _ (c.1 ∙ ap not last) ∙ ground (arith, last)
        | inr more ↦
            count_down h ts _ (c.1 ∙ ap not more) c.3 (rw (c.0, c.2) (ground (arith, more)))
            ∙ rw (c.0, c.2) (ground arith)
      ]

  -- The engine is on, the scan raises in every cycle, the settings can be read and written, no retry waits, and no
  -- failure was counted before. Then the engine is still on after some forced cycles exactly if they are
  -- fewer than the limit of failures, which is at least 1.
  pub failing_scans_trip :
      (h : FailsEarly) (ts : List ℕ) (s : Engine D)
      → s.cfg.is_enabled ≡ true
      → s.queue ≡ []
      → s.api_fail_streak ≡ 0
      → (run_cycles parts ts s).1.cfg.is_enabled
        ≡ ltb (length ts) (max 1 s.cfg.api_fail_circuit_count)
  failing_scans_trip h ts s on idle zero =
      count_down h ts s on idle (omega (arith, zero)) ∙ ground (arith, zero)
