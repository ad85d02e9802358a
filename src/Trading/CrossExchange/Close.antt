-- ===== src/Trading/CrossExchange/Close.antt =====
-- `CrossExchangeStrategy.close`.
pub mod Accounts
use arbitrage_station.Base.{
  ℕ, String, Bool, true, false, Option, none, some, List, [], ◌∷◌, ◌++◌, ◌==◌, if◌then◌else◌,
  keep_if,
}
use arbitrage_station.Trading.Store.{
  Real, Exchange, PositionStatus, StrategyStatus, LegError, CloseReason, Position, Strategy,
  TradeLog, Session, Order, Gateway, World, close_hedge, send, find_exchange, find_strategy,
  set_strategy, set_position, with_status, flush, is_open_row, add_trade, close_failed,
}
use arbitrage_station.Trading.SpotHedge.{unwind_fill_of}
use arbitrage_station.Trading.CrossExchange.{closing_side}

-- `crashed`: a position whose exchange is not there; otherwise the early return and the end.
pub data PairCloseResult : Type 0 where
  strategy_not_found crashed : PairCloseResult
  finished : List LegError → PairCloseResult

module _ (R : Real) where
  abbrev pair_trade :
      Position R.Number → Exchange → Option (Order R.Number) → String → TradeLog R.Number
  pair_trade p e r why = record {
    strategy_id = p.strategy_id;
    position_id = some p.id;
    action = "close";
    exchange = e.name;
    symbol = p.symbol;
    side = closing_side p.side;
    price = unwind_fill_of R r p.current_price;
    size = p.size;
    reason = why;
  }

  abbrev after_leg :
      ℕ
      → String
      → Position R.Number
      → Exchange
      → Option (Order R.Number)
      → Session R.Number
      → List LegError × Session R.Number
  after_leg now why p e none db = (close_failed e.name ∷ [], db)
  after_leg now why p e (some o) db = (
    [],
    add_trade (pair_trade p e (some o) why) (record db {
      positions = set_position p.id (with_status PositionStatus.closed (some now)) db.positions;
    }),
  )

  -- One turn of the loop; `none` if the exchange is not there.
  pub close_leg :
      Gateway R.Number
      → ℕ
      → String
      → Position R.Number
      → World R.Number
      → Option (List LegError) × World R.Number
  close_leg g now why p w = elim (find_exchange p.exchange_id w.db.exchanges) [
    | none ↦ (none, w)
    | some e ↦
        let (r, w') = send g (close_hedge e.id p.symbol p.side p.size) w in
        let (errors, db) = after_leg now why p e r w'.db in
        (some errors, record { db = db; sent = w'.sent })
  ]

  pub close_legs :
      Gateway R.Number
      → ℕ
      → String
      → List (Position R.Number)
      → World R.Number
      → Option (List LegError) × World R.Number
  close_legs g now why [] w = (some [], w)
  close_legs g now why (p ∷ ps) w =
      let (errors, w') = close_leg g now why p w in
      let (more, w'') = close_legs g now why ps w' in
      elim errors [
        | none ↦ (none, w')
        | some es ↦ elim more [ none ↦ (none, w'') | some es' ↦ (some (es ++ es'), w'') ]
      ]

  abbrev pub status_of : List LegError → StrategyStatus
  status_of [] = StrategyStatus.closed
  status_of _ = StrategyStatus.error

  abbrev mark_closing : ℕ → Session R.Number → Session R.Number
  mark_closing i db = flush (record db {
    strategies = set_strategy i (λ s. record s { status = StrategyStatus.closing }) db.strategies;
  })

  abbrev commit_close : ℕ → ℕ → String → List LegError → Session R.Number → Session R.Number
  commit_close i now why errors db =
      let cr : CloseReason = record { reason = why; errors = []; unwind_failures = [] } in
      flush (record db {
        strategies =
            set_strategy i
              (λ s. record s {
                status = status_of errors;
                close_reason = some cr;
                closed_at = some now;
              })
              db.strategies;
      })

  -- `CrossExchangeStrategy.close`
  unfoldable pub close_pair :
      Gateway R.Number → ℕ → ℕ → String → World R.Number → PairCloseResult × World R.Number
  unfolding close_legs close_leg
  close_pair g now i why w =
      let db = mark_closing i w.db in
      let (r, w') =
        close_legs g now why (keep_if (is_open_row i) db.positions)
          (record { db = db; sent = w.sent }) in
      elim (find_strategy i w.db.strategies) [
        | none ↦ (strategy_not_found, w)
        | some _ ↦ elim r [
          | none ↦ (crashed, record { db = db; sent = w'.sent })
          | some errors ↦
              (finished errors, record { db = commit_close i now why errors w'.db; sent = w'.sent })
        ]
      ]
