-- ===== src/Trading/SpotHedge/Tests.antt =====
-- A hedge on concrete exchanges, with whole numbers as prices and sizes.
use Prim.Native.Nat.{ℕ}
use arbitrage_station.Base.{
  ◌≡◌, refl, true, false, Option, none, some, List, [], ◌∷◌, ◌++◌, map, arith, if◌then◌else◌,
  length,
}
use arbitrage_station.Trading.Store.{
  Position, PositionStatus, PositionType, StrategyStatus, StrategyType, Strategy, Session, Call,
  Order, Gateway, World, LegError, place_hedge, place_spot, short, OrderSide,
}
use arbitrage_station.Trading.Samples.{whole, filled}
use arbitrage_station.Trading.SpotHedge.{
  Legs, OpenArgs, place_legs, place_perp, place_spot_leg, spot_symbol_of,
}
use arbitrage_station.Trading.SpotHedge.Open.{start, open_hedge}
use arbitrage_station.Trading.SpotHedge.Rows.{leg_of, new_legs}
use arbitrage_station.Trading.SpotHedge.Hedged.{BooksMatch, open_books}
use arbitrage_station.Trading.SpotHedge.Close.{close_hedge_strategy, finished, no_errors}
use arbitrage_station.Trading.SpotHedge.Close.Results.{close_reports_failure, looped}
use arbitrage_station.Trading.SpotHedge.Close.Flushed.{close_flushed}

-- Every order but a spot order is answered.
abbrev no_spot_answer : List (Call ℕ × Option (Order ℕ)) → Call ℕ → Option (Order ℕ)
no_spot_answer _ (place_spot _ _ _ _) = none
no_spot_answer _ _ = some filled

abbrev venue : Gateway ℕ
venue = record {
  fetch_spot_ticker = λ _ _. some (record { last = some 10; close = none });
  fetch_ticker = λ _ _. some (record { last = none; close = some 11 });
  answer = no_spot_answer;
}

abbrev all_answer : Gateway ℕ
all_answer = record venue { answer = λ _ _. some filled }

abbrev empty_db : Session ℕ
empty_db = record {
  autoflush = false;
  exchanges = record { id = 1; name = "okx" } ∷ record { id = 2; name = "gate" } ∷ [];
  strategies = [];
  positions = [];
  trades = [];
  next_id = 1;
}

abbrev fresh_world : World ℕ
fresh_world = record { db = empty_db; sent = [] }

abbrev args : OpenArgs ℕ
args = record {
  symbol = "BTC/USDT:USDT";
  long_exchange_id = 1;
  short_exchange_id = 2;
  size_usd = 1000;
  leverage = some 2;
  entry_e24_net_pct = none;
  entry_open_fee_pct = none;
  hedge_base_ratio = none;
}

-- With every order answered the strategy is open, by two orders, the short leg's first.
open-sent :
    (open_hedge whole all_answer 5 args fresh_world).1.sent
    ≡ (place_spot 1 "BTC/USDT" OrderSide.buy 100, some filled)
      ∷ (place_hedge 2 "BTC/USDT:USDT" OrderSide.sell 100 2, some filled)
      ∷ []
unfolding open_hedge start place_legs place_perp place_spot_leg spot_symbol_of
open-sent = refl

abbrev legs : Legs ℕ
legs = record {
  strategy_id = 1;
  symbol = "BTC/USDT:USDT";
  spot_symbol = "BTC/USDT";
  spot_ex = record { id = 1; name = "okx" };
  perp_ex = record { id = 2; name = "gate" };
  spot_size = 100;
  perp_size = 100;
  spot_price = 10;
  perp_price = 11;
  leverage = 2;
}

open_books_example :
    let w' = (place_legs whole venue 5 legs fresh_world).1 in
    (map leg_of w'.db.positions ≡ map leg_of fresh_world.db.positions ++ new_legs legs 1)
    × BooksMatch whole venue 5 legs fresh_world w'
open_books_example = open_books whole venue 5 legs fresh_world tt (λ h. h) (λ h. h)

abbrev held : Position ℕ
held = record {
  id = 2;
  strategy_id = 1;
  exchange_id = 2;
  symbol = "BTC/USDT:USDT";
  side = short;
  position_type = PositionType.swap;
  size = 100;
  entry_price = 11;
  current_price = 11;
  status = PositionStatus.opened;
  stored = some PositionStatus.opened;
  closed_at = none;
}

abbrev running : Strategy ℕ
running = record {
  id = 1;
  strategy_type = StrategyType.spot_hedge;
  symbol = "BTC/USDT:USDT";
  long_exchange_id = 1;
  short_exchange_id = 2;
  initial_margin_usd = 1000;
  entry_e24_net_pct = 0;
  entry_open_fee_pct = 0;
  entry_spot_base_qty = 100;
  entry_perp_base_qty = 100;
  entry_delta_base_qty = 0;
  status = StrategyStatus.active;
  close_reason = none;
  closed_at = none;
}

abbrev holding : World ℕ
holding = record {
  db = record empty_db { strategies = running ∷ []; positions = held ∷ []; next_id = 3 };
  sent = [];
}

close_reports_failure_example :
    (errors : List LegError) × ((close_hedge_strategy whole all_answer 9 1 "manual" holding).0
      ≡ finished false errors 1 StrategyStatus.active)
close_reports_failure_example =
    close_reports_failure whole all_answer 9 1 "manual" holding running refl refl (omega arith)

-- The exchange closed the leg, and the program reports failure.
close-stale :
    (close_hedge_strategy whole all_answer 9 1 "manual" holding).0
    ≡ finished false [] 1 StrategyStatus.active
unfolding close_hedge_strategy
close-stale = refl

abbrev flushing : World ℕ
flushing = record holding { db = record holding.db { autoflush = true } }

close_flushed_example :
    let errors = (looped whole all_answer 9 1 "manual" flushing).0 in
    (close_hedge_strategy whole all_answer 9 1 "manual" flushing).0
    ≡ finished
        (no_errors whole errors)
        errors
        (length errors)
        (if no_errors whole errors then StrategyStatus.closed else StrategyStatus.active)
close_flushed_example =
    close_flushed whole all_answer 9 1 "manual" flushing running refl refl (tt, tt)
