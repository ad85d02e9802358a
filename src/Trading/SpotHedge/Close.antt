-- ===== src/Trading/SpotHedge/Close.antt =====
-- `SpotHedgeCloseMixin.close` (backend/strategies/spot_hedge/close_ops.py).
pub mod Results
pub mod Flushed
use arbitrage_station.Base.{
  ℕ, String, Bool, true, false, ◌&&◌, not, Option, none, some, List, [], ◌∷◌, ◌++◌, ltb, ◌==◌,
  if◌then◌else◌, keep_if,
}
use arbitrage_station.Trading.Store.{
  Real, Exchange, Side, OrderSide, long, short, buy, sell, PositionType, PositionStatus,
  StrategyStatus, LegError, CloseReason, Position, Strategy, TradeLog, Session, Call, Order,
  Gateway, World, close_hedge, close_spot, is_some, send, find_exchange, find_strategy,
  set_strategy, set_position, with_status, flush, before_query, is_open_row,
  remaining_open_positions, add_trade, exchange_missing, close_failed,
}
use arbitrage_station.Trading.SpotHedge.{unwind_fill_of}

-- `strategy_not_found` is the early return; otherwise the result at the end.
pub data CloseResult : Type 0 where
  strategy_not_found : CloseResult
  finished : (success : Bool) → List LegError → (remaining : ℕ) → StrategyStatus → CloseResult

module _ (R : Real) where
  -- A position is closed by an order of its own kind.
  abbrev pub closing_call : Position R.Number → Exchange → Call R.Number
  closing_call p e = elim p.position_type [
    | PositionType.spot ↦ close_spot e.id p.symbol p.size
    | PositionType.swap ↦ close_hedge e.id p.symbol p.side p.size
  ]

  abbrev closing_side : Side → OrderSide
  closing_side long = sell
  closing_side short = buy

  abbrev closing_trade :
      Position R.Number → Exchange → Option (Order R.Number) → String → TradeLog R.Number
  closing_trade p e r why = record {
    strategy_id = p.strategy_id;
    position_id = some p.id;
    action = "close";
    exchange = e.name;
    symbol = p.symbol;
    side = closing_side p.side;
    price = unwind_fill_of R r p.current_price;
    size = p.size;
    reason = why;
  }

  -- An answered order closes the position and logs a trade; a refused one leaves it open.
  abbrev after_close :
      ℕ
      → String
      → Position R.Number
      → Exchange
      → Option (Order R.Number)
      → Session R.Number
      → List LegError × Session R.Number
  after_close now why p e none db = (close_failed e.name ∷ [], db)
  after_close now why p e (some o) db = (
    [],
    add_trade (closing_trade p e (some o) why) (record db {
      positions = set_position p.id (with_status PositionStatus.closed (some now)) db.positions;
    }),
  )

  abbrev close_on :
      Gateway R.Number
      → ℕ
      → String
      → Position R.Number
      → Option Exchange
      → World R.Number
      → List LegError × World R.Number
  close_on g now why p none w = (exchange_missing p.exchange_id ∷ [], w)
  close_on g now why p (some e) w =
      let (r, w') = send g (closing_call p e) w in
      let (errors, db) = after_close now why p e r w'.db in
      (errors, record { db = db; sent = w'.sent })

  -- One turn of the loop.
  pub close_one :
      Gateway R.Number
      → ℕ
      → String
      → Position R.Number
      → World R.Number
      → List LegError × World R.Number
  close_one g now why p w = close_on g now why p (find_exchange p.exchange_id w.db.exchanges) w

  pub close_each :
      Gateway R.Number
      → ℕ
      → String
      → List (Position R.Number)
      → World R.Number
      → List LegError × World R.Number
  close_each g now why [] w = ([], w)
  close_each g now why (p ∷ ps) w =
      let (errors, w') = close_one g now why p w in
      let (more, w'') = close_each g now why ps w' in (errors ++ more, w'')

  abbrev pub no_errors : List LegError → Bool
  no_errors [] = true
  no_errors _ = false

  -- The end of `close`: the status by the positions that SQL still finds open.
  pub conclude : ℕ → ℕ → String → List LegError → Session R.Number → CloseResult × Session R.Number
  conclude i now why errors db =
      let remaining = remaining_open_positions db i in
      let some_open = ltb 0 remaining in
      let status = if some_open then StrategyStatus.active else StrategyStatus.closed in
      let db' = before_query db in
      let cr : CloseReason = record { reason = why; errors = errors; unwind_failures = [] } in
      (
        finished (not some_open && no_errors errors) errors remaining status,
        flush (record db' {
          strategies =
              set_strategy i
                (λ s. record s {
                  status = status;
                  close_reason = some cr;
                  closed_at = if some_open then none else some now;
                })
                db'.strategies;
        }),
      )

  abbrev pub mark_closing : ℕ → Session R.Number → Session R.Number
  mark_closing i db = flush (record db {
    strategies = set_strategy i (λ s. record s { status = StrategyStatus.closing }) db.strategies;
  })

  abbrev close_found :
      Gateway R.Number → ℕ → ℕ → String → World R.Number → CloseResult × World R.Number
  close_found g now i why w =
      let db = mark_closing i w.db in
      let (errors, w') =
        close_each g now why (keep_if (is_open_row i) db.positions)
          (record { db = db; sent = w.sent }) in
      let (result, db') = conclude i now why errors w'.db in
      (result, record { db = db'; sent = w'.sent })

  unfoldable pub close_hedge_strategy :
      Gateway R.Number → ℕ → ℕ → String → World R.Number → CloseResult × World R.Number
  unfolding close_each close_one conclude remaining_open_positions
  close_hedge_strategy g now i why w = elim (find_strategy i w.db.strategies) [
    | none ↦ (strategy_not_found, w)
    | some s ↦ close_found g now i why w
  ]
