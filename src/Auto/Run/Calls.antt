-- ===== src/Auto/Run/Calls.antt =====
-- How a cycle of an engine that is on comes to its scan.
use arbitrage_station.Base.{
  ℕ, ◌≡◌, refl, ◌∙◌, ap, Bool, true, false, not, List, [], ◌∷◌, if◌then◌else◌,
}
use arbitrage_station.Cycle.{LockResult}
use arbitrage_station.Auto.{Result, returned, threw, Engine, Run}
use arbitrage_station.Auto.Run.{◌>>=◌, ◌>>◌, pure, call, modify, Status, Parts}
use arbitrage_station.Auto.Run.Stages.{
  scan_stage, process_retries, retry_stage, cycle_body, after_load, begin_cycle, end_cycle,
  run_cycle,
}

module _ {D A B : Type 0} (m : Run D A) (k : A → Run D B) (s : Engine D) where
  threw_case :
      (r : Result A) (s' : Engine D)
      → r ≡ threw
      → let out : Result B × Engine D = elim r [ returned a ↦ k a s' | threw ↦ (threw, s') ] in
        out ≡ (threw, s')
  threw_case r s' e = rw e refl

  pub bind_threw : (m s).0 ≡ threw → (m >>= k) s ≡ (threw, (m s).1)
  unfolding ◌>>=◌
  bind_threw e = threw_case (m s).0 (m s).1 e

  returned_case :
      (r : Result A) (s' : Engine D) (a : A)
      → r ≡ returned a
      → let out : Result B × Engine D = elim r [ returned a ↦ k a s' | threw ↦ (threw, s') ] in
        out ≡ k a s'
  returned_case r s' a e = rw e refl

  pub bind_to : (a : A) (s' : Engine D) → m s ≡ (returned a, s') → (m >>= k) s ≡ k a s'
  unfolding ◌>>=◌
  bind_to a s' e =
      let rest : Result A × Engine D → Result B × Engine D =
        λ (r, t). elim r [ returned b ↦ k b t | threw ↦ (threw, t) ] in
      ap rest e

  pub bind_returned : (a : A) → (m s).0 ≡ returned a → (m >>= k) s ≡ k a (m s).1
  unfolding ◌>>=◌
  bind_returned a e = returned_case (m s).0 (m s).1 a e

not_taken : {A : Type 0} (b : Bool) (x y : A) → b ≡ true → (if not b then x else y) ≡ y
not_taken true x y e = refl
not_taken false x y e = cc

module _ {D H O R T : Type 0} (parts : Parts D H O R T) where
  -- Forced cycles at some times, one after the other, which all get the lock.
  unfoldable pub run_cycles : List ℕ → Engine D → List Status × Engine D
  unfolding run_cycle
  run_cycles [] s = ([], s)
  run_cycles (t ∷ ts) s =
      let (status, s1) = run_cycle parts t true LockResult.acquired s in
      let (more, s2) = run_cycles ts s1 in (status ∷ more, s2)

  -- No retry waits.
  abbrev pub Idle : Engine D → Type 0
  Idle s = s.queue ≡ []

  -- The settings can be read.
  abbrev pub Loads : Type 0
  Loads = (w : D) → (parts.load_cfg w).0 ≡ returned tt

  module _ (h : Loads) (now : ℕ) where
    none_due : (s : Engine D) → Idle s → process_retries parts now s ≡ (returned false, s)
    unfolding process_retries
    none_due s idle = rw idle refl

    retry_skips :
        (dry : Bool) (s : Engine D)
        → Idle s
        → retry_stage parts now dry s ≡ scan_stage parts now dry s
    unfolding retry_stage
    retry_skips true s idle = refl
    retry_skips false s idle = bind_to (process_retries parts now) _ s false s (none_due s idle)

    abbrev loaded : Engine D → Engine D
    loaded s = record s { world = (parts.load_cfg s.world).1 }

    body_loads : (s : Engine D) → cycle_body parts now true s ≡ after_load parts now true (loaded s)
    unfolding cycle_body
    body_loads s = bind_returned (call parts.load_cfg) _ s tt (h s.world)

    load_off :
        (s : Engine D)
        → s.cfg.is_enabled ≡ false
        → after_load parts now true s
          ≡ (returned Status.disabled, record s { cfg_loaded = true; last_cycle_ts = now })
    unfolding after_load ◌>>=◌
    load_off s e = rw e refl

    -- A cycle of an engine that is off leaves it off.
    pub stays_off :
        (s : Engine D)
        → s.cfg.is_enabled ≡ false
        → (run_cycle parts now true LockResult.acquired s).1.cfg.is_enabled ≡ false
    unfolding run_cycle
    stays_off s e = let b = begin_cycle parts now s in rw (body_loads b, load_off (loaded b) e) e

    abbrev started : Engine D → Engine D
    started s = record s { cfg_loaded = true; last_cycle_ts = now; world = parts.reconcile s.world }

    load_on :
        (s : Engine D)
        → s.cfg.is_enabled ≡ true
        → Idle s
        → after_load parts now true s ≡ scan_stage parts now s.cfg.dry_run (started s)
    unfolding after_load ◌>>=◌
    load_on s e idle =
        let on_stage =
          modify (λ t. record t { world = parts.reconcile t.world })
          >> retry_stage parts now s.cfg.dry_run in
        ap (λ (m : Run D Status). m (record s { cfg_loaded = true; last_cycle_ts = now }))
          (not_taken s.cfg.is_enabled (pure Status.disabled) on_stage e)
        ∙ retry_skips s.cfg.dry_run (started s) idle

    abbrev pub at_scan : Engine D → Engine D
    at_scan s = started (loaded (begin_cycle parts now s))

    pub cycle_scans :
        (s : Engine D)
        → s.cfg.is_enabled ≡ true
        → Idle s
        → run_cycle parts now true LockResult.acquired s
          ≡ end_cycle parts now (scan_stage parts now s.cfg.dry_run (at_scan s))
    unfolding run_cycle
    cycle_scans s on idle =
        let b = begin_cycle parts now s in
        ap (end_cycle parts now) (body_loads b ∙ load_on (loaded b) on idle)
