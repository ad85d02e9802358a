-- ===== src/Trading/CrossExchange/Tests.antt =====
-- A pair on two concrete exchanges, with whole numbers as prices and sizes.
use arbitrage_station.Base.{ℕ, ◌+◌, ◌≡◌, refl, true, false, Option, none, some, List, [], ◌∷◌}
use arbitrage_station.Trading.Store.{
  long, Call, Order, Gateway, World, place_hedge, close_hedge, OrderSide,
}
use arbitrage_station.Trading.Samples.{whole, filled}
use arbitrage_station.Trading.Store.Laws.{open_rows}
use arbitrage_station.Trading.CrossExchange.{
  Pair, PairArgs, place_pair, place_leg, unwind_leg, open_pair,
}
use arbitrage_station.Trading.CrossExchange.Hedged.{IsPairHedged, place_pair_hedged}
use arbitrage_station.Trading.CrossExchange.Unsaved.{no_failures, open_objects, place_pair_unsaved}
use arbitrage_station.Trading.CrossExchange.Close.{close_pair, finished}

abbrev pair : Pair ℕ
pair = record {
  strategy_id = 1;
  symbol = "BTC/USDT:USDT";
  long_ex = record { id = 1; name = "okx" };
  short_ex = record { id = 2; name = "gate" };
  contract_size = 100;
  price = 10;
  leverage = 1;
}

abbrev start_world : World ℕ
start_world = record {
  db = record {
    autoflush = false;
    exchanges = record { id = 1; name = "okx" } ∷ record { id = 2; name = "gate" } ∷ [];
    strategies = [];
    positions = [];
    trades = [];
    next_id = 1;
  };
  sent = [];
}

-- Short orders are refused.
abbrev long_only : List (Call ℕ × Option (Order ℕ)) → Call ℕ → Option (Order ℕ)
long_only _ (place_hedge _ _ OrderSide.sell _ _) = none
long_only _ _ = some filled

abbrev one_sided : Gateway ℕ
one_sided = record {
  fetch_spot_ticker = λ _ _. none;
  fetch_ticker = λ _ _. some (record { last = some 10; close = none });
  answer = long_only;
}

abbrev both_sided : Gateway ℕ
both_sided = record one_sided { answer = λ _ _. some filled }

abbrev pair_args : PairArgs ℕ
pair_args = record {
  symbol = "BTC/USDT:USDT";
  long_exchange_id = 1;
  short_exchange_id = 2;
  size_usd = 1000;
  leverage = 1;
}

-- A refused short order has the long leg closed again.
unwinds :
    (open_pair whole one_sided 5 pair_args start_world).1.sent
    ≡ (close_hedge 1 "BTC/USDT:USDT" long 100, some filled)
      ∷ (place_hedge 2 "BTC/USDT:USDT" OrderSide.sell 100 1, none)
      ∷ (place_hedge 1 "BTC/USDT:USDT" OrderSide.buy 100 1, some filled)
      ∷ []
unfolding open_pair place_pair place_leg unwind_leg
unwinds = refl

-- What a later request would close, if the rows had been committed.
abbrev opened_world : World ℕ
opened_world = (open_pair whole both_sided 5 pair_args start_world).1

closed_pair : (close_pair whole both_sided 9 1 "manual" opened_world).0 ≡ finished []
unfolding open_pair place_pair place_leg close_pair
closed_pair = refl

place_pair_hedged_example :
    let (errors, w') = place_pair whole one_sided 5 pair start_world in
    IsPairHedged pair errors w'.sent
place_pair_hedged_example = place_pair_hedged whole one_sided 5 pair start_world (λ h. h) (λ h. h)

no_error : no_failures (place_pair whole both_sided 5 pair start_world).0 ≡ true
unfolding place_pair place_leg unwind_leg
no_error = refl

place_pair_unsaved_example :
    let w' = (place_pair whole both_sided 5 pair start_world).1 in
    (open_objects 1 w'.db.positions ≡ open_objects 1 start_world.db.positions + 2)
    × (open_rows 1 w'.db.positions ≡ open_rows 1 start_world.db.positions)
place_pair_unsaved_example = place_pair_unsaved whole both_sided 5 pair start_world no_error
