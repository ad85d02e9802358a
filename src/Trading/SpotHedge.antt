-- ===== src/Trading/SpotHedge.antt =====
-- `SpotHedgeStrategy` (backend/strategies/spot_hedge: base.py, open_ops.py, close_ops.py, strategy.py):
-- a spot position against a short perpetual. A method takes the world and returns it with the result.
-- `utc_now()` is read once in a call, as `now`; the display name of a strategy, the log lines and the
-- alert mail are left out, since no code reads them back. `":"` never begins the part of a symbol that is kept.
pub mod Open
pub mod Close
pub mod Tests
pub mod Books
pub mod Rows
pub mod Hedged
use Prim.Native.Char.{code}
use arbitrage_station.Base.{
  ℕ, ◌+◌, String, Bool, true, false, ◌&&◌, not, Option, none, some, List, [], ◌∷◌, ◌++◌, ltb, ◌==◌,
  if◌then◌else◌, keep_if, max,
}
use arbitrage_station.Trading.Store.{
  Real, Exchange, Side, OrderSide, long, short, buy, sell, PositionType, PositionStatus,
  StrategyStatus, StrategyType, LegError, CloseReason, Position, Strategy, TradeLog, Session, Call,
  Order, Ticker, Gateway, World, place_hedge, place_spot, close_hedge, close_spot, is_some, send,
  find_exchange, find_strategy, set_strategy, set_position, with_status, flush, before_query,
  is_open_row, remaining_open_positions, add_strategy, add_position, add_trade, or_else, or_number,
}

-- `symbol.split(":")[0] if ":" in symbol else symbol`
pub spot_symbol_of : String → String
spot_symbol_of String.[] = String.[]
spot_symbol_of (String.◌∷◌ c s) =
    let rest = spot_symbol_of s in if code c == b':' then String.[] else String.◌∷◌ c rest

-- What `open` has worked out when it begins to place orders.
pub record Legs (A : Type 0) : Type 0 where
  pub strategy_id : ℕ
  pub symbol : String
  pub spot_symbol : String
  pub spot_ex : Exchange
  pub perp_ex : Exchange
  pub spot_size : A
  pub perp_size : A
  pub spot_price : A
  pub perp_price : A
  pub leverage : ℕ

pub record OpenArgs (A : Type 0) : Type 0 where
  pub symbol : String
  pub long_exchange_id : ℕ
  pub short_exchange_id : ℕ
  pub size_usd : A
  pub leverage : Option A
  pub entry_e24_net_pct : Option A
  pub entry_open_fee_pct : Option A
  pub hedge_base_ratio : Option A

-- The early returns of `open`, by their messages, and the result at its end.
pub data OpenResult : Type 0 where
  exchange_not_found no_spot_ticker no_perp_ticker invalid_price : OpenResult
  placed : ℕ → List LegError → OpenResult

abbrev pub success : OpenResult → Bool
success (placed _ []) = true
success _ = false

-- The price that an answered order reports, before the given one.
abbrev pub fill_of : (R : Real) → Option (Order R.Number) → R.Number → R.Number
fill_of R none p = p
fill_of R (some o) p = or_number R o.average p

abbrev pub unwind_fill_of : (R : Real) → Option (Order R.Number) → R.Number → R.Number
unwind_fill_of R none p = p
unwind_fill_of R (some o) p = or_number R (or_else R o.average o.price) p

abbrev pub opened_if : Bool → PositionStatus
opened_if ok = if ok then PositionStatus.opened else PositionStatus.error

module _ (R : Real) where
  abbrev perp_position : Legs R.Number → ℕ → R.Number → Bool → Position R.Number
  perp_position l i fill ok = record {
    id = i;
    strategy_id = l.strategy_id;
    exchange_id = l.perp_ex.id;
    symbol = l.symbol;
    side = short;
    position_type = PositionType.swap;
    size = l.perp_size;
    entry_price = fill;
    current_price = fill;
    status = opened_if ok;
    stored = none;
    closed_at = none;
  }

  abbrev spot_position : Legs R.Number → ℕ → R.Number → Bool → Position R.Number
  spot_position l i fill ok = record {
    id = i;
    strategy_id = l.strategy_id;
    exchange_id = l.spot_ex.id;
    symbol = l.spot_symbol;
    side = long;
    position_type = PositionType.spot;
    size = l.spot_size;
    entry_price = fill;
    current_price = fill;
    status = opened_if ok;
    stored = none;
    closed_at = none;
  }

  abbrev perp_trade : Legs R.Number → String → OrderSide → R.Number → String → TradeLog R.Number
  perp_trade l act side fill why = record {
    strategy_id = l.strategy_id;
    position_id = none;
    action = act;
    exchange = l.perp_ex.name;
    symbol = l.symbol;
    side = side;
    price = fill;
    size = l.perp_size;
    reason = why;
  }

  abbrev spot_trade : Legs R.Number → String → OrderSide → R.Number → String → TradeLog R.Number
  spot_trade l act side fill why = record {
    strategy_id = l.strategy_id;
    position_id = none;
    action = act;
    exchange = l.spot_ex.name;
    symbol = l.spot_symbol;
    side = side;
    price = fill;
    size = l.spot_size;
    reason = why;
  }

  -- The end of `_handle_open_error`: the status by the positions that SQL still finds open.
  abbrev settle_open_error :
      Legs R.Number → List LegError → List LegError → ℕ → Session R.Number → Session R.Number
  settle_open_error l errors failures now db =
      let db' = before_query db in
      let why : CloseReason = record {
        reason = "open failed";
        errors = errors;
        unwind_failures = failures;
      } in
      flush (record db' {
        strategies =
            set_strategy l.strategy_id
              (λ s.
                if ltb 0 (remaining_open_positions db l.strategy_id)
                then record s {
                  status = StrategyStatus.active;
                  close_reason = some why;
                  closed_at = none;
                }
                else record s {
                  status = StrategyStatus.closed;
                  close_reason = some why;
                  closed_at = some now;
                })
              db'.strategies;
      })

  abbrev mark_error_unless : Bool → ℕ → List (Position R.Number) → List (Position R.Number)
  mark_error_unless ok i ps =
      if ok then ps else set_position i (λ p. record p { status = PositionStatus.error }) ps

  -- What an emergency close leaves: the leg closed with a trade, or open again.
  abbrev unwound : Bool → ℕ → TradeLog R.Number → ℕ → Session R.Number → Session R.Number
  unwound ok i trade now db =
      if ok
      then add_trade trade (record db {
        positions = set_position i (with_status PositionStatus.closed (some now)) db.positions;
      })
      else record db {
        positions = set_position i (with_status PositionStatus.opened none) db.positions;
      }

  abbrev failure_unless : Bool → LegError → List LegError
  failure_unless ok e = if ok then [] else e ∷ []

  -- `_handle_open_error`: marks the failed legs, closes the leg that was placed, and sets the status.
  pub handle_open_error :
      Gateway R.Number
      → ℕ
      → Legs R.Number
      → List LegError
      → (perp_id spot_id : ℕ) → (perp_order spot_order : Option (Order R.Number))
      → (perp_fill spot_fill : R.Number) → World R.Number
      → World R.Number
  handle_open_error g now l errors perp_id spot_id perp_order spot_order perp_fill spot_fill w =
      let perp_ok = is_some perp_order in
      let spot_ok = is_some spot_order in
      let db = flush w.db in
      let failed_db = flush (record db {
        strategies =
            set_strategy l.strategy_id (λ s. record s { status = StrategyStatus.error })
              db.strategies;
        positions =
            mark_error_unless perp_ok perp_id (mark_error_unless spot_ok spot_id db.positions);
      }) in
      let w' : World R.Number = record { db = failed_db; sent = w.sent } in
      let sold = send g (close_spot l.spot_ex.id l.spot_symbol l.spot_size) w' in
      let bought = send g (close_hedge l.perp_ex.id l.symbol short l.perp_size) w' in
      let spot_unwind_trade =
        spot_trade l "emergency_close" sell (unwind_fill_of R sold.0 spot_fill)
          "emergency unwind: perp leg failed" in
      let perp_unwind_trade =
        perp_trade l "emergency_close" buy (unwind_fill_of R bought.0 perp_fill)
          "emergency unwind: spot leg failed" in
      if spot_ok && not perp_ok
      then record {
        db =
            settle_open_error l errors (failure_unless (is_some sold.0) LegError.spot_unwind_failed)
              now (unwound (is_some sold.0) spot_id spot_unwind_trade now sold.1.db);
        sent = sold.1.sent;
      }
      else if perp_ok && not spot_ok
      then record {
        db =
            settle_open_error l errors
              (failure_unless (is_some bought.0) LegError.perp_unwind_failed) now
              (unwound (is_some bought.0) perp_id perp_unwind_trade now bought.1.db);
        sent = bought.1.sent;
      }
      else record { db = settle_open_error l errors [] now failed_db; sent = w.sent }

  abbrev trade_if : Bool → TradeLog R.Number → Session R.Number → Session R.Number
  trade_if ok t db = if ok then add_trade t db else db

  -- The short leg: the order, the position, and the trade if the order was answered.
  pub place_perp :
      Gateway R.Number → Legs R.Number → World R.Number → Option (Order R.Number) × World R.Number
  place_perp g l w =
      let (order, w') = send g (place_hedge l.perp_ex.id l.symbol sell l.perp_size l.leverage) w in
      let ok = is_some order in
      let fill = fill_of R order l.perp_price in
      let db = add_position (perp_position l w.db.next_id fill ok) w'.db in
      (
        order,
        record {
          db = trade_if ok (perp_trade l "open" sell fill "spot_hedge open perp short") db;
          sent = w'.sent;
        },
      )

  -- The spot leg, whose order is placed only after the short one.
  pub place_spot_leg :
      Gateway R.Number
      → Legs R.Number
      → Bool
      → World R.Number
      → Option (Order R.Number) × World R.Number
  place_spot_leg g l perp_ok w =
      let (order, w') =
        if perp_ok
        then send g (place_spot l.spot_ex.id l.spot_symbol buy l.spot_size) w
        else (none, w) in
      let ok = is_some order in
      let fill = fill_of R order l.spot_price in
      let db = add_position (spot_position l w.db.next_id fill ok) w'.db in
      (
        order,
        record {
          db = trade_if ok (spot_trade l "open" buy fill "spot_hedge open spot") db;
          sent = w'.sent;
        },
      )

  abbrev open_errors : Bool → Bool → List LegError
  open_errors perp_ok spot_ok =
      if perp_ok
      then (if spot_ok then [] else LegError.spot_buy_failed ∷ [])
      else LegError.perp_short_failed ∷ []

  abbrev keep_active : ℕ → Session R.Number → Session R.Number
  keep_active i db = flush (record db {
    strategies =
        set_strategy i
          (λ s. record s { status = StrategyStatus.active; close_reason = none; closed_at = none })
          db.strategies;
  })

  -- From the first order on: both legs, and the handling of errors.
  pub place_legs :
      Gateway R.Number → ℕ → Legs R.Number → World R.Number → List LegError × World R.Number
  place_legs g now l w =
      let (perp_order, w1) = place_perp g l w in
      let (spot_order, w2) = place_spot_leg g l (is_some perp_order) w1 in
      let errors = open_errors (is_some perp_order) (is_some spot_order) in
      if is_some perp_order && is_some spot_order
      then (errors, record { db = keep_active l.strategy_id w2.db; sent = w2.sent })
      else (
        errors,
        handle_open_error g now l errors w.db.next_id w1.db.next_id perp_order spot_order
            (fill_of R perp_order l.perp_price) (fill_of R spot_order l.spot_price) w2,
      )
