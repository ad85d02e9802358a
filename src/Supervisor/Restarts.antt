-- ===== src/Supervisor/Restarts.antt =====
-- How often and how soon a worker is restarted.
use arbitrage_station.Base.{
  ℕ, suc, ◌+◌, ◌*◌, ◌≤◌, ◌<◌, ◌≡◌, refl, ap, String, Bool, false, not, ◌||◌, List, [], ◌∷◌, ◌++◌,
  arith, ltb, leb, if◌then◌else◌, if-both, length,
}
use arbitrage_station.Supervisor.{
  Worker, Probe, SupervisorArgs, trim_window, cutoff_at, base_backoff, restarted, give_up,
  try_restart, check_worker, supervise, is_terminal_status, is_restartable_error, error_code,
}

-- How many of the times are at `c` or later.
abbrev pub count_since : ℕ → List ℕ → ℕ
count_since c [] = 0
count_since c (t ∷ ts) = (if leb c t then 1 else 0) + count_since c ts

count-trim :
    (c cutoff : ℕ) (ts : List ℕ)
    → cutoff ≤ c
    → count_since c (trim_window cutoff ts) ≡ count_since c ts
unfolding trim_window
count-trim c cutoff [] le = refl
count-trim c cutoff (t ∷ ts) le = ground (arith, count-trim c cutoff ts le)

count-append :
    (c t : ℕ) (ts : List ℕ)
    → count_since c (ts ++ t ∷ []) ≡ count_since c ts + (if leb c t then 1 else 0)
count-append c t [] = omega arith
count-append c t (u ∷ us) = omega (arith, count-append c t us)

count-length : (c : ℕ) (ts : List ℕ) → count_since c ts ≤ length ts
count-length c [] = omega arith
count-length c (t ∷ ts) = ground (arith, count-length c ts)

-- Each look is at the time of the one before it or later; the latest stands first.
abbrev pub Ordered : List Probe → Type 0
Ordered [] = Unit
Ordered (p ∷ []) = Unit
Ordered (p ∷ q ∷ ps) = (q.now ≤ p.now) × Ordered (q ∷ ps)

-- A restart comes no sooner than the backoff of the one before it.
abbrev Gap : ℕ → List ℕ → Type 0
Gap t [] = Unit
Gap t (u ∷ us) = u + 1000 * base_backoff (length (u ∷ us)) ≤ t

Gap-later : (t t' : ℕ) (ts : List ℕ) → t ≤ t' → Gap t ts → Gap t' ts
Gap-later t t' [] le g = tt
Gap-later t t' (u ∷ us) le g = omega (arith, le, g)

module _ (upper : String → String) (jitter : ℕ → ℕ) (args : SupervisorArgs) where
  -- Every restart was within the budget of its window, and after the backoff.
  abbrev pub Limited : List ℕ → Type 0
  Limited [] = Unit
  Limited (t ∷ ts) =
      (count_since (cutoff_at args t) (t ∷ ts) ≤ args.restart_budget) × Gap t ts × Limited ts

  -- What the state knows of the restarts, at the time `now`.
  abbrev Knows : ℕ → List ℕ → Worker → Type 0
  Knows now ts w =
      ((c : ℕ) → cutoff_at args now ≤ c → count_since c ts ≤ count_since c w.restart_events)
      × (w.restart_count ≡ length ts)
      × Gap w.restart_next_at ts
      × Limited ts

  abbrev add : ℕ → List ℕ → Bool → List ℕ
  add now ts done = if done then now ∷ ts else ts

  restarted-Knows :
      (now : ℕ) (reason : String) (ts : List ℕ) (w : Worker)
      → Knows now ts w
      → length w.restart_events < args.restart_budget
      → w.restart_next_at ≤ now
      → Knows now (now ∷ ts) (restarted upper jitter args now reason w)
  restarted-Knows now reason ts w k room due =
      let since = cutoff_at args now in
      let seen = k.0 since (omega arith) in
      let number : base_backoff (w.restart_count + 1) ≡ base_backoff (suc (length ts)) =
        ap base_backoff (omega (arith, k.1)) in
      (
        λ c h. omega (arith, k.0 c h, count-append c now w.restart_events),
        omega (arith, k.1),
        omega (arith, number),
        (
          ground (arith, seen, count-length since w.restart_events),
          Gap-later w.restart_next_at now ts due k.2,
          k.3,
        ),
      )

  try_restart-Knows :
      (now : ℕ) (reason : String) (ts : List ℕ) (w : Worker)
      → Knows now ts w
      → let r = try_restart upper jitter args now reason w in Knows now (add now ts r.0) r.1
  unfolding try_restart
  try_restart-Knows now reason ts w k =
      let P : Bool × Worker → Type 0 = λ r. Knows now (add now ts r.0) r.1 in
      if-both P (leb args.restart_budget (length w.restart_events)) (λ _. k)
        λ room.
          if-both P (ltb now w.restart_next_at) (λ _. k)
            λ due. restarted-Knows now reason ts w k (ground arith) (ground arith)

  check_worker-Knows :
      (before : ℕ) (p : Probe) (ts : List ℕ) (w : Worker)
      → before ≤ p.now
      → Knows before ts w
      → let r = check_worker upper jitter args p w in Knows p.now (add p.now ts r.0) r.1
  unfolding check_worker
  check_worker-Knows before p ts w le k =
      let P : Bool × Worker → Type 0 = λ r. Knows p.now (add p.now ts r.0) r.1 in
      let still : Knows p.now ts w = (λ c h. k.0 c (omega (arith, le, h)), k.1, k.2, k.3) in
      let events = trim_window (cutoff_at args p.now) w.restart_events in
      let trimmed : Knows p.now ts (record w { restart_events = events }) = (
        λ c h. omega (arith, still.0 c h, count-trim c (cutoff_at args p.now) w.restart_events h),
        k.1,
        k.2,
        k.3,
      ) in
      if-both P (p.alive || (p.stop_requested || w.exhausted)) {x = (false, w)} (λ _. still)
        λ _.
          if-both P (is_terminal_status p.latest.status) {x = (false, w)} (λ _. still)
            λ _.
              if-both P (not (is_restartable_error (error_code upper p.latest)))
                {x = (false, give_up w)} (λ _. still)
                λ _.
                  try_restart-Knows p.now (error_code upper p.latest) ts
                    (record w { restart_events = events }) trimmed

  last_time : List Probe → ℕ
  last_time [] = 0
  last_time (p ∷ ps) = p.now

  supervise-Knows :
      (ps : List Probe)
      → Ordered ps
      → let r = supervise upper jitter args ps in Knows (last_time ps) r.0 r.1
  unfolding supervise last_time
  supervise-Knows [] o = (λ c h. omega arith, refl, tt, tt)
  supervise-Knows (p ∷ []) o =
      check_worker-Knows 0 p [] (supervise upper jitter args []).1 (omega arith)
        (supervise-Knows [] tt)
  supervise-Knows (p ∷ q ∷ ps) o =
      let r = supervise upper jitter args (q ∷ ps) in
      check_worker-Knows q.now p r.0 r.1 o.0 (supervise-Knows (q ∷ ps) o.1)

-- The clock never goes back. Then, whatever a worker does, each of its restarts is one of at most the budgeted
-- number since the window before it began, and comes no sooner than the backoff of the restart before it, without
-- its random part.
pub restarts-Limited :
    (upper : String → String) (jitter : ℕ → ℕ) (args : SupervisorArgs) (ps : List Probe)
    → Ordered ps
    → Limited upper jitter args (supervise upper jitter args ps).0
restarts-Limited upper jitter args ps o = (supervise-Knows upper jitter args ps o).3
