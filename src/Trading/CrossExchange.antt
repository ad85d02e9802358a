-- ===== src/Trading/CrossExchange.antt =====
-- `CrossExchangeStrategy` (backend/strategies/cross_exchange.py): a long perpetual on one exchange
-- against a short one on another. Alert mails, log lines and the display name are left out, and
-- `utc_now()` is read once in a call, as `now`. A position whose exchange has no row makes `close`
-- raise; its session is dropped, with what it has not committed.
pub mod Close
pub mod Hedged
pub mod Unsaved
pub mod Tests
use arbitrage_station.Base.{
  ℕ, ◌+◌, String, Bool, true, false, ◌&&◌, not, Option, none, some, List, [], ◌∷◌, ◌++◌,
  if◌then◌else◌,
}
use arbitrage_station.Trading.Store.{
  Real, Exchange, Side, OrderSide, long, short, buy, sell, PositionType, PositionStatus,
  StrategyStatus, StrategyType, LegError, CloseReason, Position, Strategy, TradeLog, Session, Order,
  Ticker, Gateway, World, place_hedge, close_hedge, is_some, send, find_exchange, set_strategy,
  set_position, with_status, flush, add_strategy, add_position, add_trade, or_else, or_number,
}
use arbitrage_station.Trading.SpotHedge.{fill_of, unwind_fill_of, opened_if}

-- What `open` has worked out when it begins to place orders.
pub record Pair (A : Type 0) : Type 0 where
  pub strategy_id : ℕ
  pub symbol : String
  pub long_ex : Exchange
  pub short_ex : Exchange
  pub contract_size : A
  pub price : A
  pub leverage : ℕ

pub record PairArgs (A : Type 0) : Type 0 where
  pub symbol : String
  pub long_exchange_id : ℕ
  pub short_exchange_id : ℕ
  pub size_usd : A
  pub leverage : A

-- The early returns of `open`, by their messages, and the result at its end.
pub data PairResult : Type 0 where
  exchange_not_found no_ticker invalid_price : PairResult
  placed : ℕ → List LegError → PairResult

abbrev pub exchange_of : {A : Type 0} → Side → Pair A → Exchange
exchange_of long p = p.long_ex
exchange_of short p = p.short_ex

abbrev pub opening_side : Side → OrderSide
opening_side long = buy
opening_side short = sell

abbrev pub closing_side : Side → OrderSide
closing_side long = sell
closing_side short = buy

abbrev open_reason : Side → String
open_reason long = "cross_exchange open long"
open_reason short = "cross_exchange open short"

abbrev unwind_reason : Side → String
unwind_reason long = "emergency unwind: short leg failed"
unwind_reason short = "emergency unwind: long leg failed"

module _ (R : Real) where
  abbrev leg_position : Pair R.Number → Side → ℕ → R.Number → Bool → Position R.Number
  leg_position p side i fill ok = record {
    id = i;
    strategy_id = p.strategy_id;
    exchange_id = (exchange_of side p).id;
    symbol = p.symbol;
    side = side;
    position_type = PositionType.swap;
    size = p.contract_size;
    entry_price = fill;
    current_price = fill;
    status = opened_if ok;
    stored = none;
    closed_at = none;
  }

  abbrev leg_trade :
      Pair R.Number → Side → String → OrderSide → R.Number → String → TradeLog R.Number
  leg_trade p side act way fill why = record {
    strategy_id = p.strategy_id;
    position_id = none;
    action = act;
    exchange = (exchange_of side p).name;
    symbol = p.symbol;
    side = way;
    price = fill;
    size = p.contract_size;
    reason = why;
  }

  -- One leg: the order, the position, and the trade if the order was answered.
  pub place_leg :
      Gateway R.Number
      → Pair R.Number
      → Side
      → World R.Number
      → Option (Order R.Number) × World R.Number
  place_leg g p side w =
      let (order, w') =
        send g
          (place_hedge (exchange_of side p).id p.symbol (opening_side side) p.contract_size
            p.leverage)
          w in
      let ok = is_some order in
      let fill = fill_of R order p.price in
      let db = add_position (leg_position p side w.db.next_id fill ok) w'.db in
      (
        order,
        record {
          db =
              if ok
              then add_trade (leg_trade p side "open" (opening_side side) fill (open_reason side))
                  db
              else db;
          sent = w'.sent;
        },
      )

  abbrev pair_errors : Bool → Bool → List LegError
  pair_errors long_ok short_ok =
      (if long_ok then [] else LegError.long_order_failed ∷ [])
      ++ (if short_ok then [] else LegError.short_order_failed ∷ [])

  abbrev mark_error_unless : Bool → ℕ → List (Position R.Number) → List (Position R.Number)
  mark_error_unless ok i ps =
      if ok then ps else set_position i (λ x. record x { status = PositionStatus.error }) ps

  -- The emergency close of the leg that was placed, as the position `i`.
  pub unwind_leg :
      Gateway R.Number → ℕ → Pair R.Number → Side → ℕ → R.Number → World R.Number → World R.Number
  unwind_leg g now p side i fill w =
      let (order, w') =
        send g (close_hedge (exchange_of side p).id p.symbol side p.contract_size) w in
      let trade =
        leg_trade p side "emergency_close" (closing_side side) (unwind_fill_of R order fill)
          (unwind_reason side) in
      let db = w'.db in
      record {
        db =
            if is_some order
            then add_trade trade (record db {
              positions =
                  set_position i (with_status PositionStatus.closed (some now)) db.positions;
            })
            else db;
        sent = w'.sent;
      }

  abbrev commit_error : ℕ → ℕ → List LegError → Session R.Number → Session R.Number
  commit_error i now errors db =
      let why : CloseReason = record {
        reason = "open failed";
        errors = errors;
        unwind_failures = [];
      } in
      flush (record db {
        strategies =
            set_strategy i (λ s. record s { close_reason = some why; closed_at = some now })
              db.strategies;
      })

  abbrev mark_failed : ℕ → Bool → ℕ → Bool → ℕ → Session R.Number → Session R.Number
  mark_failed i long_ok long_id short_ok short_id db = flush (record db {
    strategies = set_strategy i (λ s. record s { status = StrategyStatus.error }) db.strategies;
    positions =
        mark_error_unless short_ok short_id (mark_error_unless long_ok long_id db.positions);
  })

  -- From the first order on: both legs, and the handling of errors.
  pub place_pair :
      Gateway R.Number → ℕ → Pair R.Number → World R.Number → List LegError × World R.Number
  unfolding place_leg unwind_leg
  place_pair g now p w =
      let (long_order, w1) = place_leg g p long w in
      let (short_order, w2) = place_leg g p short w1 in
      let long_ok = is_some long_order in
      let short_ok = is_some short_order in
      let errors = pair_errors long_ok short_ok in
      let failed : World R.Number = record {
        db = mark_failed p.strategy_id long_ok w.db.next_id short_ok w1.db.next_id w2.db;
        sent = w2.sent;
      } in
      let unwound =
        if long_ok
        then unwind_leg g now p long w.db.next_id (fill_of R long_order p.price) failed
        else if short_ok
        then unwind_leg g now p short w1.db.next_id (fill_of R short_order p.price) failed
        else failed in
      if long_ok && short_ok then (errors, w2) else (
        errors,
        record { db = commit_error p.strategy_id now errors unwound.db; sent = unwound.sent },
      )

  abbrev new_pair_strategy : PairArgs R.Number → ℕ → Strategy R.Number
  new_pair_strategy a i = record {
    id = i;
    strategy_type = StrategyType.cross_exchange;
    symbol = a.symbol;
    long_exchange_id = a.long_exchange_id;
    short_exchange_id = a.short_exchange_id;
    initial_margin_usd = a.size_usd;
    entry_e24_net_pct = R.zero;
    entry_open_fee_pct = R.zero;
    entry_spot_base_qty = R.zero;
    entry_perp_base_qty = R.zero;
    entry_delta_base_qty = R.zero;
    status = StrategyStatus.active;
    close_reason = none;
    closed_at = none;
  }

  abbrev pair_of : PairArgs R.Number → ℕ → Exchange → Exchange → R.Number → Pair R.Number
  pair_of a i long_ex short_ex price = record {
    strategy_id = i;
    symbol = a.symbol;
    long_ex = long_ex;
    short_ex = short_ex;
    contract_size = R.div (R.mul a.size_usd a.leverage) price;
    price = price;
    leverage = R.to_int a.leverage;
  }

  abbrev open_at :
      Gateway R.Number
      → ℕ
      → PairArgs R.Number
      → Exchange
      → Exchange
      → R.Number
      → World R.Number
      → PairResult × World R.Number
  open_at g now a long_ex short_ex price w =
      let i = w.db.next_id in
      let db = flush (add_strategy (new_pair_strategy a i) w.db) in
      let (errors, w') =
        place_pair g now (pair_of a i long_ex short_ex price) (record { db = db; sent = w.sent }) in
      (placed i errors, w')

  -- `ticker.get("last") or ticker.get("close")`; a price of 0 is as good as none
  abbrev quoted :
      Gateway R.Number
      → ℕ
      → PairArgs R.Number
      → Exchange
      → Exchange
      → Option R.Number
      → World R.Number
      → PairResult × World R.Number
  quoted g now a long_ex short_ex none w = (invalid_price, w)
  quoted g now a long_ex short_ex (some price) w =
      if R.is_zero price then (invalid_price, w) else open_at g now a long_ex short_ex price w

  abbrev with_ticker :
      Gateway R.Number
      → ℕ
      → PairArgs R.Number
      → Exchange
      → Exchange
      → Option (Ticker R.Number)
      → World R.Number
      → PairResult × World R.Number
  with_ticker g now a long_ex short_ex none w = (no_ticker, w)
  with_ticker g now a long_ex short_ex (some t) w =
      quoted g now a long_ex short_ex (or_else R t.last t.close) w

  abbrev with_both :
      Gateway R.Number
      → ℕ
      → PairArgs R.Number
      → Option Exchange
      → Option Exchange
      → World R.Number
      → PairResult × World R.Number
  with_both g now a (some long_ex) (some short_ex) w =
      with_ticker g now a long_ex short_ex (g.fetch_ticker long_ex.id a.symbol) w
  with_both g now a _ _ w = (exchange_not_found, w)

  -- `CrossExchangeStrategy.open`
  pub open_pair :
      Gateway R.Number → ℕ → PairArgs R.Number → World R.Number → PairResult × World R.Number
  unfolding place_pair
  open_pair g now a w =
      with_both g now a (find_exchange a.long_exchange_id w.db.exchanges)
        (find_exchange a.short_exchange_id w.db.exchanges) w
