-- ===== src/Repair/Plan.antt =====
-- `_build_hedge_mismatch_close_plan` of backend/core/spot_basis_auto_engine/mismatch_guard.py.
--
-- Times are in milliseconds, `time.time()` is read once, as `now`. Prices are in cents, values in units of
-- 1e-12 dollars (cents times quantities) and not rounded to cents, percentages whole. The configuration
-- holds what is left after its defaults. The list `scanned` is the list of verdicts; what it prints beside
-- them, and the two fields of a state that no code reads, are left out.
mod Readings
pub mod Restored
pub mod Sightings
pub mod History
pub mod Waited
pub mod Overdue
unfoldable pub use Readings.*
use text.Mathlib.Text.{◌==◌ as text_eq}
use arbitrage_station.Base.{
  ℕ, ◌+◌, ◌-◌, ◌*◌, ◌/◌, ◌≤◌, String, Bool, true, false, ◌&&◌, ◌||◌, not, Option, none, some, List,
  [], ◌∷◌, ◌++◌, ltb, leb, ◌==◌, if◌then◌else◌, keep_if, min, max, map,
}
use arbitrage_station.Trading.Store.{
  Exchange, StrategyStatus, Strategy, Session, find_exchange, find_strategy,
}
use arbitrage_station.Repair.Live.{Market, fetch_live_perp_short_base}
use arbitrage_station.Repair.{LegSnapshot, leg_snapshot, estimate_spot_base, distance}

-- The spot leg is reduced, unless nearly all of it would go on the word of a fresh reading of 0.
unfoldable pub plan_spot : ℕ → Hold → String → Reading → MismatchState → Verdict
plan_spot now h symbol r s =
    let size = r.leg.spot_size_base in
    let base = min size (r.spot_base - r.perp_base) in
    let full = leb (999 * size) (1000 * base) in
    if size == 0
    then close_item h symbol (delta_mismatch_breach_epsilon ∷ spot_leg_snapshot_missing ∷ [])
    else if base == 0
    then close_item h symbol (delta_mismatch_breach_epsilon ∷ [])
    else if full && (is_abnormal r && ltb (now - s.abnormal_first_seen_ts) guard_ms)
    then guarded
    else repair_item h symbol reduce_spot base (price_or r.leg.spot_price r.ref_price)

unfoldable pub plan_perp : Hold → String → Reading → Verdict
plan_perp h symbol r =
    let size = r.leg.perp_size_base in
    let base = min size (r.perp_base - r.spot_base) in
    if size == 0
    then close_item h symbol (delta_mismatch_breach_epsilon ∷ perp_leg_snapshot_missing ∷ [])
    else if base == 0
    then close_item h symbol (delta_mismatch_breach_epsilon ∷ [])
    else repair_item h symbol reduce_perp base (price_or r.leg.perp_price r.ref_price)

-- One turn of the loop after the quantities have been read.
unfoldable pub judge : RepairConfig → ℕ → ℕ → Hold → String → Reading → States → Verdict × States
unfolding plan_spot plan_perp
judge c epsilon now h symbol r states =
    let s = next_state now r (state_of h.strategy_id states) in
    if is_within epsilon r then (within_epsilon, drop_state h.strategy_id states) else (
      if not (should_repair c now s)
          then pending
          else if ltb r.perp_base r.spot_base
          then plan_spot now h symbol r s
          else plan_perp h symbol r,
      put_state h.strategy_id s states,
    )

abbrev pub is_live : StrategyStatus → Bool
is_live StrategyStatus.closed = false
is_live _ = true

abbrev judge_read :
    RepairConfig → ℕ → ℕ → Hold → String → Option Reading → States → Verdict × States
judge_read c epsilon now h symbol none states = (data_unavailable, states)
judge_read c epsilon now h symbol (some r) states = judge c epsilon now h symbol r states

abbrev scan_found :
    RepairConfig
    → Market
    → Session ℕ
    → ℕ
    → ℕ
    → Hold
    → Option (Strategy ℕ)
    → States
    → Verdict × States
scan_found c m db epsilon now h none states = (unknown, states)
scan_found c m db epsilon now h (some s) states =
    if is_live s.status
    then judge_read c epsilon now h (symbol_or s.symbol h.symbol) (read_hold m db s h) states
    else (unknown, states)

-- One turn of the loop over the holds.
unfoldable pub scan_hold :
    RepairConfig → Market → Session ℕ → ℕ → ℕ → Hold → States → Verdict × States
unfolding judge
scan_hold c m db epsilon now h states =
    if h.strategy_id == 0
    then (unknown, states)
    else scan_found c m db epsilon now h (find_strategy h.strategy_id db.strategies) states

unfoldable pub scan_holds :
    RepairConfig → Market → Session ℕ → ℕ → ℕ → List Hold → States → List Verdict × States
unfolding scan_hold
scan_holds c m db epsilon now [] states = ([], states)
scan_holds c m db epsilon now (h ∷ hs) states =
    let (v, states') = scan_hold c m db epsilon now h states in
    let (vs, states'') = scan_holds c m db epsilon now hs states' in (v ∷ vs, states'')

-- `sid in active_ids`
abbrev pub is_active_id : ℕ → List Hold → Bool
is_active_id i [] = false
is_active_id i (h ∷ hs) = ((h.strategy_id == i) && ltb 0 i) || is_active_id i hs

abbrev pub repairs_of : List Verdict → List RepairItem
repairs_of [] = []
repairs_of (repair x ∷ vs) = x ∷ repairs_of vs
repairs_of (_ ∷ vs) = repairs_of vs

abbrev pub fallbacks_of : List Verdict → List FallbackItem
fallbacks_of [] = []
fallbacks_of (fallback x ∷ vs) = x ∷ fallbacks_of vs
fallbacks_of (_ ∷ vs) = fallbacks_of vs

pub record MismatchPlan : Type 0 where
  pub repair_plan : List RepairItem
  pub fallback_close_plan : List FallbackItem
  pub scanned : List Verdict

-- `_build_hedge_mismatch_close_plan`
unfoldable pub build_mismatch_plan :
    RepairConfig → Market → Session ℕ → ℕ → ℕ → List Hold → States → MismatchPlan × States
unfolding scan_holds
build_mismatch_plan c m db nav_total now hs states =
    let (vs, states') = scan_holds c m db (epsilon_usd c nav_total) now hs states in
    (
      record { repair_plan = repairs_of vs; fallback_close_plan = fallbacks_of vs; scanned = vs },
      keep_if (λ (i, _). is_active_id i hs) states',
    )
