-- ===== src/Rebalance/Tests.antt =====
-- The plan on concrete rows. A notional of 1000000 is 100 USD.
use arbitrage_station.Base.{◌+◌, ◌≡◌, refl, true, false, List, [], ◌∷◌}
use arbitrage_station.Rebalance.Keep.{PairRow, total_of, best_mask}
use arbitrage_station.Rebalance.Keep.Optimal.{IsNoWorse, best_mask_optimal}
use arbitrage_station.Rebalance.Plan.{TargetRow, build_rebalance_delta_plan}
use arbitrage_station.Rebalance.Plan.Conserved.{
  closed_notional, kept_notional_of, delta_plan_conserves,
}

abbrev open_rows : List PairRow
open_rows =
    record { strategy_id = 1; row_id = "btc"; pair_notional = 3000000 }
    ∷ record { strategy_id = 2; row_id = "btc"; pair_notional = 2000000 }
    ∷ record { strategy_id = 3; row_id = "eth"; pair_notional = 1000000 }
    ∷ []

abbrev target_rows : List TargetRow
target_rows = record { row_id = "btc"; pair_notional = 3100000 } ∷ []

best_mask_optimal_example :
    IsNoWorse 3100000 open_rows (best_mask 3100000 open_rows) (false ∷ true ∷ true ∷ [])
best_mask_optimal_example = best_mask_optimal 3100000 open_rows (false ∷ true ∷ true ∷ []) refl

delta_plan_conserves_example :
    let d = build_rebalance_delta_plan 3000000 open_rows target_rows in
    kept_notional_of d.keep_rows + closed_notional d.close_plan ≡ total_of open_rows
delta_plan_conserves_example = delta_plan_conserves 3000000 open_rows target_rows
