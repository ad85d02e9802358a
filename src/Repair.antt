-- ===== src/Repair.antt =====
-- The repair of hedges whose legs do not match: the legs as the database has them (profit_metrics.py),
-- the fill of an order and the write-down of positions (risk_reduce.py), all of
-- backend/core/spot_basis_auto_engine.
--
-- Quantities are counted in units of 1e-10, at which `round(x, 10)` changes nothing, a rest of at most
-- 1e-12 is no rest, and a size of at most 1e-10 is at most one unit. A price is a whole number for each
-- unit, and a mean price is rounded down; dollar amounts are not rounded. `utc_now()` enters as `now`.
pub mod Rows
pub mod Conserved
pub mod Live
pub mod Plan
pub mod Execute
pub mod Tests
use arbitrage_station.Base.{
  ℕ, ◌+◌, ◌-◌, ◌*◌, ◌/◌, String, Bool, true, false, ◌&&◌, ◌||◌, not, Option, none, some, List, [],
  ◌∷◌, ltb, leb, ◌==◌, if◌then◌else◌, keep_if, min,
}
use arbitrage_station.Trading.Store.{
  Side, long, short, PositionType, PositionStatus, StrategyStatus, Position, Strategy, Session,
  set_strategy, set_position, before_query, is_open_row,
}

-- The result of `_get_open_leg_snapshot`.
pub record LegSnapshot : Type 0 where
  pub spot_rows : List (Position ℕ)
  pub perp_rows : List (Position ℕ)
  pub spot_size_base : ℕ
  pub perp_size_base : ℕ
  pub spot_price : ℕ
  pub perp_price : ℕ

abbrev pub is_spot : Position ℕ → Bool
is_spot p = elim p.position_type [ PositionType.spot ↦ true | PositionType.swap ↦ false ]

abbrev pub is_short : Position ℕ → Bool
is_short p = elim p.side [ short ↦ true | long ↦ false ]

-- `p.current_price or p.entry_price`
abbrev pub price_of : Position ℕ → ℕ
price_of p = if p.current_price == 0 then p.entry_price else p.current_price

-- `_agg`; a size of 0 adds nothing.
pub size_of_rows : List (Position ℕ) → ℕ
size_of_rows [] = 0
size_of_rows (p ∷ ps) = p.size + size_of_rows ps

pub notional_of_rows : List (Position ℕ) → ℕ
notional_of_rows [] = 0
notional_of_rows (p ∷ ps) = p.size * price_of p + notional_of_rows ps

mean_price : List (Position ℕ) → ℕ
unfolding size_of_rows notional_of_rows
mean_price ps = let size = size_of_rows ps in if ltb 0 size then notional_of_rows ps / size else 0

-- `Position.strategy_id == i, Position.status == "open"`
abbrev pub open_legs : Session ℕ → ℕ → List (Position ℕ)
open_legs db i = keep_if (is_open_row i) (before_query db).positions

-- `_get_open_leg_snapshot`
unfoldable pub leg_snapshot : Session ℕ → ℕ → LegSnapshot
unfolding mean_price size_of_rows
leg_snapshot db i =
    let rows = open_legs db i in
    let spots = keep_if is_spot rows in
    let perps = keep_if (λ p. not (is_spot p) && is_short p) rows in
    record {
      spot_rows = spots;
      perp_rows = perps;
      spot_size_base = size_of_rows spots;
      perp_size_base = size_of_rows perps;
      spot_price = mean_price spots;
      perp_price = mean_price perps;
    }

-- `_estimate_spot_base_from_db`
unfoldable pub estimate_spot_base : Session ℕ → ℕ → Option ℕ
unfolding size_of_rows
estimate_spot_base db i = if i == 0 then none else elim (keep_if is_spot (open_legs db i)) [
  | [] ↦ none
  | p ∷ ps ↦ some (size_of_rows (p ∷ ps))
]

abbrev pub is_nil : List (Position ℕ) → Bool
is_nil [] = true
is_nil _ = false

-- The writes of `_sync_strategy_after_leg_adjust` to the strategy.
abbrev pub adjusted : ℕ → ℕ → Bool → Strategy ℕ → Strategy ℕ
adjusted now margin gone s = record s {
  initial_margin_usd = margin;
  status = if gone then StrategyStatus.closed else StrategyStatus.active;
  closed_at = if gone then some now else none;
}

-- `_sync_strategy_after_leg_adjust`
unfoldable pub sync_strategy : ℕ → ℕ → Session ℕ → Session ℕ
unfolding leg_snapshot
sync_strategy now i db =
    let leg = leg_snapshot db i in
    let margin = min (leg.spot_price * leg.spot_size_base) (leg.perp_price * leg.perp_size_base) in
    let gone = is_nil leg.spot_rows && is_nil leg.perp_rows in
    let db' = before_query db in
    record db' { strategies = set_strategy i (adjusted now margin gone) db'.strategies }

-- `sorted(positions, key=size, reverse=True)`, which keeps the order of equal elements
insert_largest : Position ℕ → List (Position ℕ) → List (Position ℕ)
insert_largest x [] = x ∷ []
insert_largest x (y ∷ ys) =
    let rest = insert_largest x ys in if leb y.size x.size then x ∷ y ∷ ys else y ∷ rest

pub sort_largest : List (Position ℕ) → List (Position ℕ)
unfolding insert_largest
sort_largest [] = []
sort_largest (x ∷ xs) = insert_largest x (sort_largest xs)

-- A position after `dec` is taken off it.
abbrev cut : ℕ → ℕ → Position ℕ → Position ℕ
cut now dec p =
    if leb (p.size - dec) 1
    then record p { size = 0; status = PositionStatus.closed; closed_at = some now }
    else record p { size = p.size - dec }

-- The loop of `_apply_reduce_on_positions`: what was taken off which position, and the positions.
pub reduce_ordered :
    ℕ → ℕ → List (Position ℕ) → List (Position ℕ) → List (ℕ × ℕ) × List (Position ℕ)
reduce_ordered now left [] ps = ([], ps)
reduce_ordered now left (p ∷ more) ps =
    let skip = p.size == 0 in
    let dec = if skip then 0 else min p.size left in
    let (touched, ps') =
      reduce_ordered now (left - dec) more
        (if skip then ps else set_position p.id (cut now dec) ps) in
    if left == 0 then ([], ps) else (if skip then touched else (p.id, dec) ∷ touched, ps')

-- `_apply_reduce_on_positions`: `rows` are objects of the session, so the writes are seen in it.
unfoldable pub apply_reduce :
    ℕ → List (Position ℕ) → ℕ → List (Position ℕ) → List (ℕ × ℕ) × List (Position ℕ)
unfolding reduce_ordered sort_largest
apply_reduce now rows base ps = reduce_ordered now base (sort_largest rows) ps

-- `sum(x[1] for x in touched)`
abbrev pub total_of : List (ℕ × ℕ) → ℕ
total_of [] = 0
total_of ((_, dec) ∷ more) = dec + total_of more

-- The fields of an order that are read: whether it says that there was nothing to close, how much was
-- filled and asked for, and the price.
pub record ReduceOrder : Type 0 where
  pub already_closed : Bool
  pub filled : ℕ
  pub amount : ℕ
  pub average : Option ℕ
  pub price : Option ℕ

abbrev pub distance : ℕ → ℕ → ℕ
distance a b = (a - b) + (b - a)

-- The filled amount as a number of contracts, for an exchange whose market says what one is worth.
abbrev nearest : ℕ → ℕ → Option ℕ → ℕ
nearest req raw none = raw
nearest req raw (some base) = if leb (distance raw req) (distance base req) then raw else base

-- `_extract_order_filled_base` of an order that is there. `in_base` is what `raw` contracts are worth,
-- if the market can be read; a spot order has none.
unfoldable pub filled_base : (in_base : ℕ → Option ℕ) → (spot : Bool) → ℕ → ReduceOrder → ℕ
filled_base in_base spot req o =
    let raw = if ltb 0 o.filled then o.filled else o.amount in
    if req == 0
    then 0
    else if o.already_closed
    then req
    else if raw == 0
    then 0
    else if spot
    then min req raw
    else min req (nearest req raw (in_base raw))
