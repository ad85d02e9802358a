-- ===== src/Risk.antt =====
-- The risk manager (backend/core/risk_manager.py): the rules against each active strategy, and the forced
-- close. The session and the exchanges are those of Trading/Store.
--
-- Left out are the emails and log lines, and the rollback after an exception. The texts that are formatted
-- from a rule and a loss are a parameter.
pub mod Close
pub mod Checks
pub mod Tests
use arbitrage_station.Base.{
  ℕ, ◌+◌, String, Bool, true, false, ◌&&◌, ◌||◌, not, Option, none, some, List, [], ◌∷◌, ◌++◌, map,
  ◌==◌, if◌then◌else◌, keep_if, length,
}
use arbitrage_station.Trading.Store.{
  Real, Exchange, Side, long, short, OrderSide, buy, sell, PositionType, spot, swap, PositionStatus,
  StrategyStatus, Strategy, Position, TradeLog, Session, Call, close_spot, close_swap, Gateway,
  World, CloseReason, is_some, find_exchange, find_strategy, send, set_strategy, set_position,
  with_status, flush, is_open_row, add_trade,
}

abbrev outcome : Bool → PositionStatus
outcome b = if b then PositionStatus.closed else PositionStatus.error

abbrev pub risk_outcome : Bool → StrategyStatus
risk_outcome b = if b then StrategyStatus.closed else StrategyStatus.error

module _ {A : Type 0} where
  abbrev pub risk_call : Position A → Call A
  risk_call p = elim p.position_type [
    | spot ↦ close_spot p.exchange_id p.symbol p.size
    | swap ↦ close_swap p.exchange_id p.symbol p.side p.size
  ]

  abbrev risk_trade : String → Exchange → Position A → TradeLog A
  risk_trade why ex p = record {
    strategy_id = p.strategy_id;
    position_id = some p.id;
    action = "emergency_close";
    exchange = ex.name;
    symbol = p.symbol;
    side = elim p.side [ long ↦ sell | short ↦ buy ];
    price = p.current_price;
    size = p.size;
    reason = why;
  }

  -- One position: a missing exchange row skips it. False if the exchange refused.
  pub risk_close_on :
      Gateway A → ℕ → String → Position A → Option Exchange → World A → Bool × World A
  risk_close_on g now why p none w = (true, w)
  risk_close_on g now why p (some ex) w =
      let (r, w') = send g (risk_call p) w in
      (
        is_some r,
        record w' {
          db = add_trade (risk_trade why ex p) (record w'.db {
            positions =
                set_position p.id (with_status (outcome (is_some r)) (some now)) w'.db.positions;
          });
        },
      )

  pub risk_close_each : Gateway A → ℕ → String → List (Position A) → World A → Bool × World A
  unfolding risk_close_on
  risk_close_each g now why [] w = (true, w)
  risk_close_each g now why (p ∷ ps) w =
      let (ok, w') = risk_close_on g now why p (find_exchange p.exchange_id w.db.exchanges) w in
      let (oks, w'') = risk_close_each g now why ps w' in (ok && oks, w'')

  abbrev pub set_closing : Strategy A → Strategy A
  set_closing s = record s { status = StrategyStatus.closing }

  abbrev pub set_concluded : ℕ → String → Bool → Strategy A → Strategy A
  set_concluded now why ok s = record s {
    status = risk_outcome ok;
    close_reason = some (record { reason = why; errors = []; unwind_failures = [] });
    closed_at = some now;
  }

  abbrev pub mark_risk_closing : ℕ → Session A → Session A
  mark_risk_closing i db =
      flush (record db { strategies = set_strategy i set_closing db.strategies })

  abbrev conclude_risk : ℕ → String → ℕ → Bool → Session A → Session A
  conclude_risk now why i ok db =
      flush (record db { strategies = set_strategy i (set_concluded now why ok) db.strategies })

  -- `_close_strategy`, with the reason that the trades carry and the one that the strategy carries
  unfoldable pub risk_close_strategy : Gateway A → ℕ → String → String → ℕ → World A → World A
  unfolding risk_close_each
  risk_close_strategy g now trade_why why i w =
      let db = mark_risk_closing i w.db in
      let (ok, w') =
        risk_close_each g now trade_why (keep_if (is_open_row i) db.positions)
          (record w { db = db }) in
      record w' { db = conclude_risk now why i ok w'.db }
