-- ===== src/Quality.antt =====
-- How well funding was captured, and whether two daily totals agree (backend/core/pnl_v2_logic.py).
--
-- Times are in seconds from the anchor, which no window begins before; totals are in units of 1e-8 USD
-- and may be negative, so each is two numbers whose difference it is. The rounding of the report is left out.
pub mod Counted
pub mod Tests
use arbitrage_station.Base.{
  ℕ, zero, suc, ◌+◌, ◌-◌, ◌*◌, ◌/◌, ◌%◌, Bool, true, false, ◌&&◌, ◌||◌, Option, none, some, List,
  [], ◌∷◌, ◌==◌, ltb, leb, if◌then◌else◌, max,
}

pub data Quality : Type 0 where
  ok partial stale missing na : Quality

-- The first settlement at or after a time, and the loop over those up to the end. The fuel is a number of
-- steps that the end is reached in, since each step is a second at the least.
abbrev pub first_settlement : ℕ → ℕ → ℕ
first_settlement period start = (start + (period - 1)) / period * period

pub count_from : (fuel : ℕ) → ℕ → ℕ → ℕ → ℕ
count_from zero period current stop = 0
count_from (suc fuel) period current stop =
    let rest = count_from fuel period (current + period) stop in
    if leb current stop then suc rest else 0

-- `count_expected_funding_events`
pub count_expected_funding_events : ℕ → ℕ → ℕ → ℕ
unfolding count_from
count_expected_funding_events start stop settle_interval_hours =
    let period = 3600 * settle_interval_hours in
    if settle_interval_hours == 0 || leb stop start
    then 0
    else count_from (suc stop) period (first_settlement period start) stop

abbrev is_late : ℕ → ℕ → Option ℕ → Bool
is_late now stale_after none = false
is_late now stale_after (some t) = ltb 0 stale_after && ltb stale_after (now - t)

-- `classify_quality`
pub classify_quality : ℕ → ℕ → Option ℕ → ℕ → ℕ → Quality
classify_quality expected captured last_success now stale_after =
    if expected == 0
    then na
    else if captured == 0
    then missing
    else if is_late now stale_after last_success
    then stale
    else if ltb captured expected
    then partial
    else ok

abbrev pub rank : Quality → ℕ
rank ok = 0
rank na = 0
rank partial = 1
rank stale = 2
rank missing = 3

abbrev is_na : Quality → Bool
is_na na = true
is_na _ = false

abbrev pub all_na : List Quality → Bool
all_na [] = true
all_na (q ∷ qs) = is_na q && all_na qs

pub worst_of : Quality → List Quality → Quality
worst_of best [] = best
worst_of best (q ∷ qs) = worst_of (if ltb (rank best) (rank q) then q else best) qs

-- `combine_quality`
pub combine_quality : List Quality → Quality
unfolding worst_of
combine_quality [] = ok
combine_quality (q ∷ qs) = if all_na (q ∷ qs) then na else worst_of ok (q ∷ qs)

abbrev pub distance : ℕ → ℕ → ℕ
distance a b = (a - b) + (b - a)

-- `reconcile_daily_totals`: the difference is within an amount, or within a part of the dashboard's total,
-- in 1e-8 of it, which counts as 1 USD at least.
pub reconcile_daily_totals : ℕ × ℕ → ℕ × ℕ → ℕ → ℕ → Bool
reconcile_daily_totals (a, b) (c, d) tolerance_part tolerance_abs =
    let diff = distance (a + d) (c + b) in
    leb diff tolerance_abs || leb (diff * 100000000) (tolerance_part * max (distance c d) 100000000)
