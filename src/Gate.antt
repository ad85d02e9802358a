-- ===== src/Gate.antt =====
-- The health gate of a market-data worker (scripts/sandbox_ccxt_pro/lib/marketdata/load_balance:
-- health_gate.py, `RebalanceDecision` of types.py, and the call of `decide` in worker.py).
--
-- Frequencies are in thousandths of a hertz, error rates in parts per million and times in
-- milliseconds; the cooldown is in seconds, as in the source. `time.time()` is the argument `now`.
-- A subtraction of times that stops at 0 passes the cooldown test exactly as a negative one does.
pub mod Bounds
pub mod Recovery
pub mod Binance
pub mod Tests
use arbitrage_station.Base.{
  ℕ, ◌+◌, ◌-◌, ◌*◌, String, Bool, true, false, ◌&&◌, not, List, [], ◌∷◌, ltb, leb, ◌==◌,
  if◌then◌else◌, min, max,
}

pub data DecisionAction : Type 0 where
  split merge hold : DecisionAction

pub record RebalanceDecision : Type 0 where
  pub action : DecisionAction
  pub reason : String
  pub from_shards : ℕ
  pub to_shards : ℕ

pub record HealthGate : Type 0 where
  pub target_hz : ℕ
  pub rebalance_cooldown_sec : ℕ
  pub adaptive_rebalance : Bool
  pub recover_windows : ℕ
  pub base_order_book_limit : ℕ
  pub base_batch_delay_ms : ℕ
  pub base_shard_count : ℕ
  pub fail_windows : ℕ
  pub healthy_windows : ℕ
  pub degrade_stage : ℕ
  pub degraded : Bool
  pub last_rebalance_at : ℕ

-- What one window measured.
pub record Window : Type 0 where
  pub now : ℕ
  pub min_p95_hz : ℕ
  pub max_p95_hz : ℕ
  pub error_rate : ℕ

-- The worker's own settings, which a decision changes.
pub record Knobs : Type 0 where
  pub shard_count : ℕ
  pub order_book_limit : ℕ
  pub batch_delay_ms : ℕ

-- The number of symbols and `max_shards`.
pub record Limits : Type 0 where
  pub symbol_count : ℕ
  pub max_shards : ℕ

pub record Outcome : Type 0 where
  pub gate : HealthGate
  pub decision : RebalanceDecision
  pub knobs : Knobs

-- A decision that leaves the shards alone.
abbrev pub held : String → HealthGate → Knobs → Knobs → Outcome
held why g k k' = record {
  gate = g;
  decision = record {
    action = hold;
    reason = why;
    from_shards = k.shard_count;
    to_shards = k.shard_count;
  };
  knobs = k';
}

abbrev pub resharded : DecisionAction → String → HealthGate → Knobs → ℕ → Outcome
resharded act why g k n = record {
  gate = g;
  decision = record { action = act; reason = why; from_shards = k.shard_count; to_shards = n };
  knobs = record k { shard_count = n };
}

-- The streaks of failing and of healthy windows.
abbrev pub count_window : HealthGate → Window → HealthGate
count_window g w =
    if ltb w.min_p95_hz g.target_hz
    then record g { fail_windows = g.fail_windows + 1; healthy_windows = 0 }
    else record g { fail_windows = 0; healthy_windows = g.healthy_windows + 1 }

abbrev pub cooling : HealthGate → ℕ → Bool
cooling g now = ltb (now - g.last_rebalance_at) (1000 * max 1 g.rebalance_cooldown_sec)

-- Enters a stage, or stays in one, with `degraded` following the stage.
abbrev to_stage : ℕ → HealthGate → HealthGate
to_stage n g = record g { degrade_stage = n; degraded = ltb 0 n }

-- "recovery chain (reversible degradation)": one step back, of the latest stage first.
pub recover : HealthGate → ℕ → Knobs → Outcome
recover g0 now k =
    let g = record g0 { healthy_windows = 0; last_rebalance_at = now } in
    let stage = g.degrade_stage in
    let new_delay = max g.base_batch_delay_ms (k.batch_delay_ms - 300) in
    let new_shards = max g.base_shard_count (k.shard_count - 1) in
    let new_limit = min g.base_order_book_limit (k.order_book_limit + 1) in
    if leb 3 stage && ltb g.base_batch_delay_ms k.batch_delay_ms
    then held "recover-step-delay"
        (to_stage (if new_delay == g.base_batch_delay_ms then 2 else stage) g) k
        (record k { batch_delay_ms = new_delay })
    else if leb 2 stage && ltb g.base_shard_count k.shard_count
    then resharded merge "recover-step-shards"
        (to_stage (if new_shards == g.base_shard_count then 1 else stage) g) k new_shards
    else if leb 1 stage && ltb k.order_book_limit g.base_order_book_limit
    then held "recover-step-limit"
        (to_stage (if new_limit == g.base_order_book_limit then 0 else stage) g) k
        (record k { order_book_limit = new_limit })
    else held "recover-clear" (record g { degrade_stage = 0; degraded = false }) k k

-- "degradation chain": one more stage, if the stage's own change is possible.
pub degrade : HealthGate → ℕ → Limits → Knobs → Outcome
degrade g now l k =
    let room = min l.symbol_count l.max_shards in
    if (g.degrade_stage == 0) && ltb 1 k.order_book_limit
    then held "degrade-step1-limit"
        (record g { degrade_stage = 1; last_rebalance_at = now; degraded = true }) k
        (record k { order_book_limit = max 1 (k.order_book_limit - 1) })
    else if (g.degrade_stage == 1) && ltb k.shard_count room
    then resharded split "degrade-step2-more-shards"
        (record g { degrade_stage = 2; last_rebalance_at = now; degraded = true }) k
        (min room (k.shard_count + 1))
    else if g.degrade_stage == 2
    then held "degrade-step3-slower-start"
        (record g { degrade_stage = 3; last_rebalance_at = now; degraded = true }) k
        (record k { batch_delay_ms = min 5000 (k.batch_delay_ms + 300) })
    else held "degrade-step4-marked" (record g { degraded = true }) k k

-- Neither chain applies: drop a shard that is not needed, or leave all as it is.
pub settle : HealthGate → Window → Knobs → Outcome
settle g w k =
    if (ltb 3500 w.max_p95_hz && ltb w.error_rate 20000) && ltb 1 k.shard_count
    then resharded merge "healthy-merge" (record g { last_rebalance_at = w.now }) k
        (k.shard_count - 1)
    else held "stable" (if g.degrade_stage == 0 then record g { degraded = false } else g) k k

-- `HealthGate.decide` is `decide`: the count of the windows, the two early returns in `screen`, and
-- what follows them in `adapt`.
pub adapt : HealthGate → Window → Limits → Knobs → Outcome
unfolding recover degrade settle
adapt g w l k =
    if ltb 0 g.degrade_stage && leb (max 1 g.recover_windows) g.healthy_windows
    then recover g w.now k
    else if leb 3 g.fail_windows
    then degrade g w.now l k
    else settle g w k

-- The early returns, and what follows them.
pub screen : HealthGate → Window → Limits → Knobs → Outcome
unfolding adapt
screen g w l k =
    if cooling g w.now
    then held "rebalance-cooldown" g k k
    else if not g.adaptive_rebalance
    then held "adaptive-disabled" g k k
    else adapt g w l k

pub decide : HealthGate → Window → Limits → Knobs → Outcome
unfolding screen
decide g w l k = screen (count_window g w) w l k

-- The book levels that Binance offers.
abbrev pub binance_limits : List ℕ
binance_limits = 5 ∷ 10 ∷ 20 ∷ 50 ∷ 100 ∷ 500 ∷ 1000 ∷ []

-- The last entry that is at most `limit`, or else `found`.
abbrev last_at_most : ℕ → List ℕ → ℕ → ℕ
last_at_most limit [] found = found
last_at_most limit (x ∷ xs) found = last_at_most limit xs (if leb x limit then x else found)

-- `_normalize_order_book_limit`: on Binance a level that is offered, at least the first.
pub normalize_order_book_limit : Bool → ℕ → ℕ
normalize_order_book_limit binance value =
    let limit = max 1 value in
    if binance then max 5 (last_at_most limit binance_limits 5) else limit

-- What the worker makes of the new settings.
pub adopt : Bool → Limits → Knobs → Knobs
unfolding normalize_order_book_limit
adopt binance l k = record {
  shard_count = max 1 (min l.symbol_count k.shard_count);
  order_book_limit = normalize_order_book_limit binance k.order_book_limit;
  batch_delay_ms = k.batch_delay_ms;
}

-- The worker keeps the gate and the settings that it adopts from one window to the next.
pub run : Bool → HealthGate → Limits → Knobs → List Window → HealthGate × Knobs
run binance g l k [] = (g, k)
run binance g l k (w ∷ ws) =
    let o = decide g w l k in run binance o.gate l (adopt binance l o.knobs) ws
