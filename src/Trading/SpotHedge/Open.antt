-- ===== src/Trading/SpotHedge/Open.antt =====
-- `SpotHedgeOpenMixin.open` (backend/strategies/spot_hedge/open_ops.py): what it looks up before it places
-- the orders.
use arbitrage_station.Base.{ℕ, Option, none, some, if◌then◌else◌, max}
use arbitrage_station.Trading.Store.{
  Real, Exchange, StrategyStatus, StrategyType, Strategy, Ticker, Gateway, World, find_exchange,
  flush, add_strategy, or_else, or_number,
}
use arbitrage_station.Trading.SpotHedge.{
  Legs, OpenArgs, OpenResult, exchange_not_found, no_spot_ticker, no_perp_ticker, invalid_price,
  placed, place_legs, spot_symbol_of,
}

module _ (R : Real) where
  abbrev new_strategy : OpenArgs R.Number → Legs R.Number → Strategy R.Number
  new_strategy a l = record {
    id = l.strategy_id;
    strategy_type = StrategyType.spot_hedge;
    symbol = a.symbol;
    long_exchange_id = a.long_exchange_id;
    short_exchange_id = a.short_exchange_id;
    initial_margin_usd = a.size_usd;
    entry_e24_net_pct = or_number R a.entry_e24_net_pct R.zero;
    entry_open_fee_pct = R.max_of R.zero (or_number R a.entry_open_fee_pct R.zero);
    entry_spot_base_qty = R.max_of R.zero l.spot_size;
    entry_perp_base_qty = R.max_of R.zero l.perp_size;
    entry_delta_base_qty =
        R.round12 (R.sub (R.max_of R.zero l.spot_size) (R.max_of R.zero l.perp_size));
    status = StrategyStatus.active;
    close_reason = none;
    closed_at = none;
  }

  -- `last`, or else `close`; a price of 0 is as good as none
  abbrev usable_price : Ticker R.Number → Option R.Number
  usable_price t = elim (or_else R t.last t.close) [
    | none ↦ none
    | some p ↦ if R.is_zero p then none else some p
  ]

  abbrev legs_of : OpenArgs R.Number → ℕ → Exchange → Exchange → R.Number → R.Number → Legs R.Number
  legs_of a i spot_ex perp_ex spot_price perp_price =
      let spot_size = R.div a.size_usd spot_price in
      record {
        strategy_id = i;
        symbol = a.symbol;
        spot_symbol = spot_symbol_of a.symbol;
        spot_ex = spot_ex;
        perp_ex = perp_ex;
        spot_size = spot_size;
        perp_size = R.mul spot_size (R.max_of R.zero (or_number R a.hedge_base_ratio R.one));
        spot_price = spot_price;
        perp_price = perp_price;
        leverage = max 1 (R.to_int (or_number R a.leverage R.one));
      }

  -- The strategy is added and flushed before any order is placed.
  unfoldable pub start :
      Gateway R.Number
      → ℕ
      → OpenArgs R.Number
      → Legs R.Number
      → World R.Number
      → OpenResult × World R.Number
  start g now a l w =
      let db = flush (add_strategy (new_strategy a l) w.db) in
      let (errors, w') = place_legs R g now l (record { db = db; sent = w.sent }) in
      (placed l.strategy_id errors, w')

  abbrev with_prices :
      Gateway R.Number
      → ℕ
      → OpenArgs R.Number
      → Exchange
      → Exchange
      → Option R.Number
      → Option R.Number
      → World R.Number
      → OpenResult × World R.Number
  with_prices g now a spot_ex perp_ex (some spot_price) (some perp_price) w =
      start g now a (legs_of a w.db.next_id spot_ex perp_ex spot_price perp_price) w
  with_prices g now a spot_ex perp_ex _ _ w = (invalid_price, w)

  abbrev with_tickers :
      Gateway R.Number
      → ℕ
      → OpenArgs R.Number
      → Exchange
      → Exchange
      → Option (Ticker R.Number)
      → Option (Ticker R.Number)
      → World R.Number
      → OpenResult × World R.Number
  with_tickers g now a spot_ex perp_ex none _ w = (no_spot_ticker, w)
  with_tickers g now a spot_ex perp_ex (some s) none w = (no_perp_ticker, w)
  with_tickers g now a spot_ex perp_ex (some s) (some p) w =
      with_prices g now a spot_ex perp_ex (usable_price s) (usable_price p) w

  abbrev with_exchanges :
      Gateway R.Number
      → ℕ
      → OpenArgs R.Number
      → Option Exchange
      → Option Exchange
      → World R.Number
      → OpenResult × World R.Number
  with_exchanges g now a (some spot_ex) (some perp_ex) w =
      with_tickers g now a spot_ex perp_ex
        (g.fetch_spot_ticker spot_ex.id (spot_symbol_of a.symbol))
        (g.fetch_ticker perp_ex.id a.symbol) w
  with_exchanges g now a _ _ w = (exchange_not_found, w)

  -- `SpotHedgeOpenMixin.open`
  unfoldable pub open_hedge :
      Gateway R.Number → ℕ → OpenArgs R.Number → World R.Number → OpenResult × World R.Number
  open_hedge g now a w =
      with_exchanges g now a (find_exchange a.long_exchange_id w.db.exchanges)
        (find_exchange a.short_exchange_id w.db.exchanges) w
