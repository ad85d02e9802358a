-- ===== src/Supervisor.antt =====
-- The restarts of dead workers (`run_supervisor` of scripts/sandbox_ccxt_pro/lib/marketdata/load_balance/
-- supervisor.py, with supervisor_utils.py).
--
-- Times are in milliseconds. A text that is missing is empty. What `upper()` does, and the random part of the
-- backoff, are parameters. The processes themselves, the metrics' way through the queue, the snapshots and the
-- progress line are not modelled: a probe says what the loop sees of a worker.
pub mod Restarts
pub mod Tests
use text.Mathlib.Text.{◌==◌ as text_eq}
use arbitrage_station.Base.{
  ℕ, ◌+◌, ◌-◌, ◌*◌, ◌^◌, String, Bool, true, false, ◌&&◌, ◌||◌, not, List, [], ◌∷◌, ◌++◌, ltb, leb,
  if◌then◌else◌, min, max, length,
}

-- What is read of the latest metric of a worker.
pub record Metric : Type 0 where
  pub status : String
  pub terminal_reason : String
  pub last_error_code : String

-- The entries of one worker in the dicts of the loop; the oldest restart stands first.
pub record Worker : Type 0 where
  pub restart_count : ℕ
  pub restart_events : List ℕ
  pub restart_next_at : ℕ
  pub last_restart_reason : String
  pub exhausted : Bool

-- One look at a worker.
pub record Probe : Type 0 where
  pub now : ℕ
  pub alive : Bool
  pub stop_requested : Bool
  pub latest : Metric

pub record SupervisorArgs : Type 0 where
  pub restart_window_sec : ℕ
  pub restart_budget : ℕ

abbrev is_terminal_status : String → Bool
is_terminal_status s =
    text_eq s "done" || (text_eq s "timeout" || (text_eq s "closed" || text_eq s "error"))

abbrev text_or : String → String → String
text_or s t = if text_eq s "" then t else s

pub error_code : (String → String) → Metric → String
error_code upper m =
    text_or (upper (text_or (text_or m.terminal_reason m.last_error_code) "UNKNOWN")) "UNKNOWN"

abbrev is_restartable_error : String → Bool
is_restartable_error code = not (text_eq code "AUTH_FAIL" || text_eq code "SYMBOL_FAIL")

-- `trim_window`
pub trim_window : ℕ → List ℕ → List ℕ
trim_window cutoff [] = []
trim_window cutoff (t ∷ ts) =
    let rest = trim_window cutoff ts in if ltb t cutoff then rest else t ∷ ts

abbrev pub cutoff_at : SupervisorArgs → ℕ → ℕ
cutoff_at args now = now - 1000 * max 1 args.restart_window_sec

-- The part of `restart_backoff` that is not random, in seconds.
pub base_backoff : ℕ → ℕ
base_backoff restart_idx = min 30 (2 ^ min 6 (restart_idx - 1))

abbrev fresh_worker : Worker
fresh_worker = record {
  restart_count = 0;
  restart_events = [];
  restart_next_at = 0;
  last_restart_reason = "";
  exhausted = false;
}

abbrev pub give_up : Worker → Worker
give_up w = record w { exhausted = true }

module _ (upper : String → String) (jitter : ℕ → ℕ) (args : SupervisorArgs) where
  -- `restart_backoff`, in milliseconds
  abbrev restart_backoff : ℕ → ℕ
  restart_backoff idx = 1000 * base_backoff idx + jitter idx

  abbrev pub restarted : ℕ → String → Worker → Worker
  restarted now reason w = record {
    restart_count = w.restart_count + 1;
    restart_events = w.restart_events ++ now ∷ [];
    restart_next_at = now + restart_backoff (w.restart_count + 1);
    last_restart_reason = reason;
    exhausted = w.exhausted;
  }

  -- The end of the turn of a dead worker, after the window has been trimmed; `true` if it was restarted.
  pub try_restart : ℕ → String → Worker → Bool × Worker
  unfolding base_backoff
  try_restart now reason w =
      if leb args.restart_budget (length w.restart_events)
      then (false, give_up w)
      else if ltb now w.restart_next_at
      then (false, w)
      else (true, restarted now reason w)

  -- One turn of the loop over the workers.
  pub check_worker : Probe → Worker → Bool × Worker
  unfolding try_restart trim_window error_code
  check_worker p w =
      let reason = error_code upper p.latest in
      let events = trim_window (cutoff_at args p.now) w.restart_events in
      if p.alive || (p.stop_requested || w.exhausted)
      then (false, w)
      else if is_terminal_status p.latest.status
      then (false, w)
      else if not (is_restartable_error reason)
      then (false, give_up w)
      else try_restart p.now reason (record w { restart_events = events })

  -- The times of the restarts, the latest first, and the worker, after some looks, the latest first.
  unfoldable pub supervise : List Probe → List ℕ × Worker
  unfolding check_worker
  supervise [] = ([], fresh_worker)
  supervise (p ∷ ps) =
      let (ts, w) = supervise ps in
      let (done, w') = check_worker p w in (if done then p.now ∷ ts else ts, w')
