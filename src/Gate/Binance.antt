-- ===== src/Gate/Binance.antt =====
-- The recovery chain of the health gate against the book levels of Binance.
use arbitrage_station.Base.{ℕ, ◌+◌, ◌≤◌, ◌<◌, ◌≡◌, ◌⊎◌, refl, true, List, [], ◌∷◌, arith, le→ltb}
use arbitrage_station.Gate.{
  HealthGate, Window, Limits, Knobs, Outcome, recover, settle, adapt, screen, decide, adopt,
  normalize_order_book_limit, run,
}

-- Each window reaches the target.
abbrev pub IsHealthy : ℕ → List Window → Type 0
IsHealthy target [] = Unit
IsHealthy target (w ∷ ws) = (target ≤ w.min_p95_hz) × IsHealthy target ws

-- A gate at stage 1 below the base level.
record IsStuck (level target : ℕ) (g : HealthGate) (k : Knobs) : Type 0 where
  stage : g.degrade_stage ≡ 1
  above : level + 1 < g.base_order_book_limit
  has_target : g.target_hz ≡ target
  has_level : k.order_book_limit ≡ level

-- One step leaves the gate there, with the level or the next number, which is no level.
abbrev Stays : ℕ → ℕ → Outcome → Type 0
Stays level target o =
    (o.gate.degrade_stage ≡ 1)
    × (level + 1 < o.gate.base_order_book_limit)
    × (o.gate.target_hz ≡ target)
    × ((o.knobs.order_book_limit ≡ level) ⊎ (o.knobs.order_book_limit ≡ level + 1))

module _ (level target : ℕ) (g : HealthGate) (w : Window) (l : Limits) (k : Knobs)
    (s : IsStuck level target g k) where
  recover_stuck : Stays level target (recover g w.now k)
  unfolding recover
  recover_stuck = rw s.stage (ground arith)

  settle_stuck : Stays level target (settle g w k)
  unfolding settle
  settle_stuck = rw s.stage (ground arith)

  screen_stuck : g.fail_windows ≡ 0 → Stays level target (screen g w l k)
  unfolding screen adapt
  screen_stuck f = ground (arith, recover_stuck, settle_stuck)

module _ (level target : ℕ) (rounded : normalize_order_book_limit true (level + 1) ≡ level)
    (offered : normalize_order_book_limit true level ≡ level) where
  decide-IsStuck :
      (g : HealthGate) (w : Window) (l : Limits) (k : Knobs)
      → target ≤ w.min_p95_hz
      → IsStuck level target g k
      → let o = decide g w l k in IsStuck level target o.gate (adopt true l o.knobs)
  unfolding decide adopt
  decide-IsStuck g w l k h s =
      let counted = record g { fail_windows = 0; healthy_windows = g.healthy_windows + 1 } in
      let same : IsStuck level target counted k = record {
        stage = s.stage;
        above = s.above;
        has_target = s.has_target;
        has_level = s.has_level;
      } in
      rw (le→ltb w.min_p95_hz g.target_hz (rw s.has_target h))
        (ground (arith, screen_stuck level target counted w l k same refl, rounded, offered))

  run_stuck :
      (l : Limits) (ws : List Window) (g : HealthGate) (k : Knobs)
      → IsHealthy target ws
      → IsStuck level target g k
      → let (g', k') = run true g l k ws in (g'.degrade_stage ≡ 1) × (k'.order_book_limit ≡ level)
  unfolding run
  run_stuck l [] g k h s = (s.stage, s.has_level)
  run_stuck l (w ∷ ws) g k h s =
      let o = decide g w l k in
      run_stuck l ws o.gate (adopt true l o.knobs) h.1 (decide-IsStuck g w l k h.0 s)

-- On Binance the recovery chain can be stuck: at stage 1, with an offered level two or more below the
-- base whose successor is rounded back to it, the gate stays at stage 1 and at that level for ever,
-- however many healthy windows come.
pub binance_stays_degraded :
    (level : ℕ) (l : Limits) (ws : List Window) (g : HealthGate) (k : Knobs)
    → normalize_order_book_limit true (level + 1) ≡ level
    → normalize_order_book_limit true level ≡ level
    → g.degrade_stage ≡ 1
    → level + 1 < g.base_order_book_limit
    → k.order_book_limit ≡ level
    → IsHealthy g.target_hz ws
    → let (g', k') = run true g l k ws in (g'.degrade_stage ≡ 1) × (k'.order_book_limit ≡ level)
binance_stays_degraded level l ws g k r f st ab lv h =
    run_stuck level g.target_hz r f l ws g k h
      (record { stage = st; above = ab; has_target = refl; has_level = lv })
