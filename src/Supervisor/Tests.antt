-- ===== src/Supervisor/Tests.antt =====
-- Looks at a worker that stays dead, and the theorem on its restarts at a concrete input.
use arbitrage_station.Base.{ℕ, ◌≡◌, refl, String, false, List, [], ◌∷◌, arith}
use arbitrage_station.Supervisor.{Probe, SupervisorArgs, supervise}
use arbitrage_station.Supervisor.Restarts.{Limited, restarts-Limited}

abbrev same : String → String
same s = s

abbrev no_jitter : ℕ → ℕ
no_jitter n = 0

-- Two restarts in ten seconds.
abbrev limits : SupervisorArgs
limits = record { restart_window_sec = 10; restart_budget = 2 }

abbrev dead_at : ℕ → Probe
dead_at now = record {
  now = now;
  alive = false;
  stop_requested = false;
  latest = record { status = "running"; terminal_reason = ""; last_error_code = "WS_FAIL" };
}

abbrev looks : List Probe
looks = dead_at 9000 ∷ dead_at 3000 ∷ dead_at 1500 ∷ dead_at 1000 ∷ []

-- The look after half a second is too soon, and the last one finds the budget spent.
supervise-looks : (supervise same no_jitter limits looks).0 ≡ 3000 ∷ 1000 ∷ []
unfolding supervise
supervise-looks = refl

restarts-Limited_example : Limited same no_jitter limits (supervise same no_jitter limits looks).0
restarts-Limited_example = restarts-Limited same no_jitter limits looks (omega arith)
