-- ===== src/Repair/Execute.antt =====
-- `_execute_mismatch_repair_plan` of backend/core/spot_basis_auto_engine/orchestrator.py.
--
-- A refused order is `none`; an exchange that raises counts as a refusal. Nothing is written before an
-- order is answered, so the rollback after an error undoes nothing of the session.
mod Reduce
pub mod Accounts
pub mod Kept
pub mod Left
unfoldable pub use Reduce.*
use arbitrage_station.Base.{
  ℕ, ◌+◌, ◌*◌, String, Bool, true, false, ◌&&◌, ◌||◌, not, Option, none, some, List, [], ◌∷◌, ◌++◌,
  ltb, leb, ◌==◌, if◌then◌else◌, min,
}
use arbitrage_station.Trading.Store.{
  Exchange, Side, short, OrderSide, buy, sell, StrategyStatus, Position, Strategy, TradeLog,
  Session, Call, close_hedge, close_spot, find_exchange, find_strategy, flush, before_query,
  add_trade,
}
use arbitrage_station.Trading.SpotHedge.{spot_symbol_of}
use arbitrage_station.Repair.{
  LegSnapshot, leg_snapshot, ReduceOrder, filled_base, apply_reduce, sync_strategy, price_of,
  total_of,
}
use arbitrage_station.Repair.Plan.{
  Action, reduce_spot, reduce_perp, other_action, Reason, fallback_close_invalid_repair_item,
  fallback_close_after_reduce_failed, RepairItem, FallbackItem, is_live, symbol_or,
}

pub record Repaired : Type 0 where
  pub strategy_id : ℕ
  pub action : Action
  pub reduced_base : ℕ
  pub reduced_notional_usd_est : ℕ

pub record FailedItem : Type 0 where
  pub item : RepairItem
  pub error : RepairError

-- What became of one item.
pub data Outcome : Type 0 where
  repaired : Repaired → Outcome
  failed : RepairError → Outcome

abbrev outcome_of : RepairItem → LegResult → Outcome
outcome_of x (raised error) = failed error
outcome_of x (reduced total price) = repaired (record {
  strategy_id = x.strategy_id;
  action = x.action;
  reduced_base = total;
  reduced_notional_usd_est = total * price;
})

abbrev execute_on : Desk → ℕ → RepairItem → Option (Strategy ℕ) → Floor → Outcome × Floor
execute_on d now x none f = (failed strategy_not_active, f)
execute_on d now x (some s) f =
    let db = before_query f.db in
    let (res, f') =
      reduce_leg d now x.strategy_id (leg_of db s x) x.reduce_base
        (record { db = db; sent = f.sent }) in
    if is_live s.status then (outcome_of x res, f') else (failed strategy_not_active, f)

-- One turn of the loop, but for the lists.
unfoldable pub execute_item : Desk → ℕ → RepairItem → Floor → Outcome × Floor
unfolding reduce_leg leg_snapshot
execute_item d now x f =
    if is_valid_item x
    then execute_on d now x (find_strategy x.strategy_id f.db.strategies) f
    else (failed invalid_repair_item, f)

abbrev pub seen_in : ℕ → List ℕ → Bool
seen_in i [] = false
seen_in i (j ∷ js) = (j == i) || seen_in i js

abbrev fallback_for : RepairItem → String → Reason → FallbackItem
fallback_for x symbol why = record {
  strategy_id = x.strategy_id;
  row_id = x.row_id;
  symbol = symbol;
  size_usd = x.reduce_notional_usd;
  reason_codes = x.reason_codes ++ why ∷ [];
}

-- `symbol` in the `except` branch.
abbrev symbol_at : RepairItem → Option (Strategy ℕ) → String
symbol_at x none = x.symbol
symbol_at x (some s) = symbol_or s.symbol x.symbol

-- The close that a failure asks for: none for a strategy that is not active, or has no number, or has
-- been asked for already.
abbrev pub fallback_closes : RepairItem → String → List ℕ → Outcome → List FallbackItem
fallback_closes x symbol seen (repaired r) = []
fallback_closes x symbol seen (failed strategy_not_active) = []
fallback_closes x symbol seen (failed invalid_repair_item) =
    if x.strategy_id == 0 || seen_in x.strategy_id seen
    then []
    else fallback_for x x.symbol fallback_close_invalid_repair_item ∷ []
fallback_closes x symbol seen (failed _) =
    if seen_in x.strategy_id seen
    then []
    else fallback_for x symbol fallback_close_after_reduce_failed ∷ []

abbrev pub ids_of : List FallbackItem → List ℕ
ids_of [] = []
ids_of (c ∷ cs) = c.strategy_id ∷ ids_of cs

-- The three results.
pub record Execution : Type 0 where
  pub repaired_items : List Repaired
  pub failed_items : List FailedItem
  pub fallback_close_plan : List FallbackItem

abbrev add_outcome : RepairItem → Outcome → List FallbackItem → Execution → Execution
add_outcome x (repaired r) cs ex = record ex {
  repaired_items = r ∷ ex.repaired_items;
  fallback_close_plan = cs ++ ex.fallback_close_plan;
}
add_outcome x (failed error) cs ex = record ex {
  failed_items = record { item = x; error = error } ∷ ex.failed_items;
  fallback_close_plan = cs ++ ex.fallback_close_plan;
}

unfoldable pub execute_items : Desk → ℕ → List RepairItem → List ℕ → Floor → Execution × Floor
unfolding execute_item
execute_items d now [] seen f =
    (record { repaired_items = []; failed_items = []; fallback_close_plan = [] }, f)
execute_items d now (x ∷ xs) seen f =
    let (out, f') = execute_item d now x f in
    let symbol = symbol_at x (find_strategy x.strategy_id f.db.strategies) in
    let cs = fallback_closes x symbol seen out in
    let (ex, f'') = execute_items d now xs (ids_of cs ++ seen) f' in (add_outcome x out cs ex, f'')

-- `_execute_mismatch_repair_plan`
unfoldable pub execute_mismatch_repair_plan : Desk → ℕ → List RepairItem → Floor → Execution × Floor
unfolding execute_items
execute_mismatch_repair_plan d now xs f = execute_items d now xs [] f
