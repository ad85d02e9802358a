-- ===== src/Reconcile/Tests.antt =====
-- Runs of the reconciler, and its theorems at concrete inputs.
use arbitrage_station.Base.{ℕ, ◌≤◌, ◌≡◌, refl, String, false, some, List, [], ◌∷◌, ◌++◌, map, arith}
use arbitrage_station.Trading.Store.{Session, StrategyStatus, find_strategy}
use arbitrage_station.Repair.{apply_reduce, filled_base}
use arbitrage_station.Repair.Plan.{reduce_spot}
use arbitrage_station.Repair.Execute.{execute_item}
use arbitrage_station.Repair.Execute.Left.{status_of}
use arbitrage_station.Repair.Tests.{
  hedge, exchange, filling, item_of, spot_only, floor, sold, execute_sold,
}
use arbitrage_station.Reconcile.{close_empty_strategies, has_open_row, tracked_spot, tracked_perp}
use arbitrage_station.Reconcile.Settled.{reopened, repaired_then_closed}
use arbitrage_station.Reconcile.Recover.{
  LivePerp, LiveSpot, recover_untracked, RecoverResult, recovered,
}
use arbitrage_station.Reconcile.Recover.Within.{booked, beyond, recovers_within}
use arbitrage_station.Reconcile.Recover.Balanced.{Leg, Pairs, recovers_hedged}
use arbitrage_station.Trading.SpotHedge.Rows.{leg_of}

-- A session without strategies.
abbrev empty : Session ℕ
empty = record {
  autoflush = false;
  exchanges = exchange ∷ [];
  strategies = [];
  positions = [];
  trades = [];
  next_id = 3;
}

abbrev perp : LivePerp
perp = record {
  exchange_id = 1;
  symbol = "BTC/USDT:USDT";
  base_asset = "BTC";
  base_size = 20000000000;
  notional_usd = 0;
  mark_price = 3000;
  entry_price = 0;
}

abbrev coins : List LiveSpot
coins =
    record {
      exchange_id = 1;
      asset = "BTC";
      spot_symbol = "BTC/USDT";
      qty = 16000000000;
      price_usdt = 3000;
    }
    ∷ []

abbrev unchanged : String → String
unchanged s = s

abbrev pairing : RecoverResult
pairing = recovered (record {
  strategy_id = 3;
  symbol = "BTC/USDT:USDT";
  asset = "BTC";
  long_exchange_id = 1;
  short_exchange_id = 1;
  matched_base = 16000000000;
})

recover_pair : (recover_untracked unchanged (perp ∷ []) coins empty).0 ≡ pairing ∷ []
unfolding recover_untracked tracked_spot tracked_perp
recover_pair = refl

recovers_within_example :
    booked 1 "BTC" (recover_untracked unchanged (perp ∷ []) coins empty).0
    ≤ beyond unchanged empty 1 "BTC" coins
recovers_within_example = recovers_within unchanged (perp ∷ []) coins empty 1 "BTC" (tt, tt)

recovers_hedged_example :
    let (rs, b) = recover_untracked unchanged (perp ∷ []) coins empty in
    (legs : List Leg) × (map leg_of b.db.positions ≡ map leg_of empty.positions ++ legs)
    × Pairs (perp ∷ []) coins rs legs
recovers_hedged_example = recovers_hedged unchanged (perp ∷ []) coins empty

sold_found :
    find_strategy 7
      (execute_item filling 5 (item_of reduce_spot 100) (floor spot_only)).1.db.strategies
    ≡ some hedge
unfolding execute_item apply_reduce filled_base
sold_found = refl

sold_gone :
    has_open_row 7
      (execute_item filling 5 (item_of reduce_spot 100) (floor spot_only)).1.db.positions
    ≡ false
unfolding execute_item apply_reduce filled_base
sold_gone = refl

repaired_then_closed_example :
    let db = (execute_item filling 5 (item_of reduce_spot 100) (floor spot_only)).1.db in
    (status_of 7 db ≡ some StrategyStatus.active)
    × (status_of 7 (close_empty_strategies 9 (reopened db)).1 ≡ some StrategyStatus.closed)
repaired_then_closed_example =
    repaired_then_closed filling 5 9 (item_of reduce_spot 100) (floor spot_only) sold hedge refl
      (omega arith) execute_sold sold_found refl sold_gone
