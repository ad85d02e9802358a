-- ===== src/Repair/Execute/Reduce.antt =====
-- The reduction of one leg of a strategy (`_execute_mismatch_repair_plan` of
-- backend/core/spot_basis_auto_engine/orchestrator.py).
use arbitrage_station.Base.{
  ℕ, String, Bool, true, false, ◌&&◌, not, Option, none, some, List, [], ◌∷◌, ◌==◌, if◌then◌else◌,
  min,
}
use arbitrage_station.Trading.Store.{
  Exchange, short, buy, sell, Position, Strategy, TradeLog, Session, Call, close_hedge, close_spot,
  find_exchange, flush, add_trade,
}
use arbitrage_station.Trading.SpotHedge.{spot_symbol_of}
use arbitrage_station.Repair.{
  leg_snapshot, ReduceOrder, filled_base, apply_reduce, sync_strategy, price_of, total_of,
}
use arbitrage_station.Repair.Plan.{reduce_spot, other_action, RepairItem, symbol_or}

pub data RepairError : Type 0 where
  invalid_repair_item strategy_not_active : RepairError
  leg_unavailable leg_size_zero reduce_order_failed reduce_filled_zero : RepairError

-- What the exchanges answer; an answer to an order may depend on all orders before it.
pub record Desk : Type 0 where
  pub answer : List (Call ℕ) → Call ℕ → Option ReduceOrder
  pub in_base : ℕ → String → ℕ → Option ℕ

-- The session, and the orders sent, the latest first.
pub record Floor : Type 0 where
  pub db : Session ℕ
  pub sent : List (Call ℕ)

-- One leg of a strategy: its rows and size, the exchange, and how it is reduced.
pub record Leg : Type 0 where
  pub rows : List (Position ℕ)
  pub size : ℕ
  pub exchange : Option Exchange
  pub symbol : String
  pub spot : Bool

abbrev pub call_of : Leg → Exchange → ℕ → Call ℕ
call_of l e base =
    if l.spot then close_spot e.id l.symbol base else close_hedge e.id l.symbol short base

-- `_to_float(ret.get("average") or ret.get("price"), rows[0].current_price or rows[0].entry_price)`
abbrev pub first_price : List (Position ℕ) → ℕ
first_price [] = 0
first_price (p ∷ ps) = price_of p

abbrev pub or_default : Option ℕ → ℕ → ℕ
or_default none d = d
or_default (some n) d = n

-- `average or price`
abbrev pub average_or : ReduceOrder → Option ℕ
average_or o = elim o.average [ none ↦ o.price | some a ↦ if a == 0 then o.price else some a ]

abbrev pub fill_price : ReduceOrder → List (Position ℕ) → ℕ
fill_price o rows = or_default (average_or o) (first_price rows)

pub data LegResult : Type 0 where
  raised : RepairError → LegResult
  reduced : (total price : ℕ) → LegResult

abbrev pub repair_trade : ℕ → Leg → Exchange → ℕ → ℕ → TradeLog ℕ
repair_trade i l e price total = record {
  strategy_id = i;
  position_id = none;
  action = "repair_reduce";
  exchange = e.name;
  symbol = l.symbol;
  side = if l.spot then sell else buy;
  price = price;
  size = total;
  reason =
      if l.spot
      then "spot_basis_auto delta mismatch proportional reduce spot"
      else "spot_basis_auto delta mismatch proportional reduce perp";
}

-- A filled order is written down, and committed.
unfoldable pub write_reduce :
    ℕ → ℕ → Leg → Exchange → ReduceOrder → ℕ → Session ℕ → LegResult × Session ℕ
unfolding apply_reduce sync_strategy
write_reduce now i l e o filled db =
    let (touched, ps) = apply_reduce now l.rows filled db.positions in
    let total = total_of touched in
    let price = fill_price o l.rows in
    (
      reduced total price,
      flush (
          sync_strategy now i
            (add_trade (repair_trade i l e price total) (record db { positions = ps }))),
    )

abbrev pub answered :
    Desk → ℕ → ℕ → Leg → Exchange → ℕ → Option ReduceOrder → Floor → LegResult × Floor
answered d now i l e base none f = (raised reduce_order_failed, f)
answered d now i l e base (some o) f =
    let filled = filled_base (d.in_base e.id l.symbol) l.spot base o in
    let (res, db) = write_reduce now i l e o filled f.db in
    if filled == 0 then (raised reduce_filled_zero, f) else (res, record { db = db; sent = f.sent })

abbrev pub order_on : Desk → ℕ → ℕ → Leg → Option Exchange → ℕ → Floor → LegResult × Floor
order_on d now i l none base f = (raised leg_unavailable, f)
order_on d now i l (some e) base f =
    let c = call_of l e base in
    if base == 0
    then (raised leg_size_zero, f)
    else answered d now i l e base (d.answer f.sent c) (record { db = f.db; sent = c ∷ f.sent })

-- The body of the `try`, for one of the two legs.
unfoldable pub reduce_leg : Desk → ℕ → ℕ → Leg → ℕ → Floor → LegResult × Floor
unfolding write_reduce filled_base
reduce_leg d now i l requested f = elim l.rows [
  | [] ↦ (raised leg_unavailable, f)
  | _ ∷ _ ↦ order_on d now i l l.exchange (min requested l.size) f
]

abbrev pub leg_of : Session ℕ → Strategy ℕ → RepairItem → Leg
leg_of db s x =
    let leg = leg_snapshot db x.strategy_id in
    let symbol = symbol_or s.symbol x.symbol in
    elim x.action [
      | reduce_spot ↦ record {
        rows = leg.spot_rows;
        size = leg.spot_size_base;
        exchange = find_exchange s.long_exchange_id db.exchanges;
        symbol = spot_symbol_of symbol;
        spot = true;
      }
      | _ ↦ record {
        rows = leg.perp_rows;
        size = leg.perp_size_base;
        exchange = find_exchange s.short_exchange_id db.exchanges;
        symbol = symbol;
        spot = false;
      }
    ]

abbrev pub is_valid_item : RepairItem → Bool
is_valid_item x =
    not (x.strategy_id == 0)
    && (elim x.action [ other_action ↦ false | _ ↦ true ] && not (x.reduce_base == 0))
