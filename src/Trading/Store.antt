-- ===== src/Trading/Store.antt =====
-- The session and the exchanges, as the strategies use them: `Exchange`, `Strategy`, `Position` and
-- `TradeLog` of backend/models/database/base.py, the session that its `SessionLocal` makes, and the
-- order functions of backend/core/exchange_manager.
--
-- The type of prices and sizes is a parameter with the operations that the code uses. An object of the
-- session keeps what the program last wrote in `status`, and what SQL queries see of it in `stored`:
-- `none` before the first flush. Only the status of positions is queried here, so only it is doubled.
pub mod Laws
use arbitrage_station.Base.{
  ℕ, ◌+◌, String, Bool, true, false, ◌&&◌, Option, none, some, List, [], ◌∷◌, ◌++◌, map, ◌==◌,
  if◌then◌else◌, keep_if, length,
}

-- Python's floats, with the operations that the strategies apply to them.
pub record Real : Type 1 where
  pub Number : Type 0
  pub zero : Number
  pub one : Number
  pub mul : Number → Number → Number
  pub div : Number → Number → Number
  pub sub : Number → Number → Number
  pub max_of : Number → Number → Number
  pub to_int : Number → ℕ
  pub is_zero : Number → Bool
  pub round12 : Number → Number

pub record Exchange : Type 0 where
  pub id : ℕ
  pub name : String

pub data Side : Type 0 where
  long short : Side

pub data OrderSide : Type 0 where
  buy sell : OrderSide

pub data PositionType : Type 0 where
  spot swap : PositionType

pub data PositionStatus : Type 0 where
  opened closed error : PositionStatus

pub data StrategyStatus : Type 0 where
  active closing closed error : StrategyStatus

pub data StrategyType : Type 0 where
  spot_hedge cross_exchange : StrategyType

-- The errors that the strategies collect, in place of their messages.
pub data LegError : Type 0 where
  perp_short_failed spot_buy_failed long_order_failed short_order_failed : LegError
  spot_unwind_failed perp_unwind_failed : LegError
  exchange_missing : ℕ → LegError
  close_failed : String → LegError

-- `close_reason`: the reason that was given, with the lists of errors that are printed after it.
pub record CloseReason : Type 0 where
  pub reason : String
  pub errors : List LegError
  pub unwind_failures : List LegError

pub record Position (A : Type 0) : Type 0 where
  pub id : ℕ
  pub strategy_id : ℕ
  pub exchange_id : ℕ
  pub symbol : String
  pub side : Side
  pub position_type : PositionType
  pub size : A
  pub entry_price : A
  pub current_price : A
  pub status : PositionStatus
  pub stored : Option PositionStatus
  pub closed_at : Option ℕ

pub record Strategy (A : Type 0) : Type 0 where
  pub id : ℕ
  pub strategy_type : StrategyType
  pub symbol : String
  pub long_exchange_id : ℕ
  pub short_exchange_id : ℕ
  pub initial_margin_usd : A
  pub entry_e24_net_pct : A
  pub entry_open_fee_pct : A
  pub entry_spot_base_qty : A
  pub entry_perp_base_qty : A
  pub entry_delta_base_qty : A
  pub status : StrategyStatus
  pub close_reason : Option CloseReason
  pub closed_at : Option ℕ

pub record TradeLog (A : Type 0) : Type 0 where
  pub strategy_id : ℕ
  pub position_id : Option ℕ
  pub action : String
  pub exchange : String
  pub symbol : String
  pub side : OrderSide
  pub price : A
  pub size : A
  pub reason : String

-- The session: `autoflush` is the option of `sessionmaker`. Lists are in the order of insertion.
pub record Session (A : Type 0) : Type 0 where
  pub autoflush : Bool
  pub exchanges : List Exchange
  pub strategies : List (Strategy A)
  pub positions : List (Position A)
  pub trades : List (TradeLog A)
  pub next_id : ℕ

-- One request to an exchange; `close_hedge` and `close_swap` are `close_hedge_position` and
-- `close_position`.
pub data Call (A : Type 0) : Type 0 where
  place_hedge : ℕ → String → OrderSide → A → ℕ → Call A
  place_spot : ℕ → String → OrderSide → A → Call A
  close_hedge : ℕ → String → Side → A → Call A
  close_spot : ℕ → String → A → Call A
  close_swap : ℕ → String → Side → A → Call A

-- The fields of an order that are read. A refused order is `none`.
pub record Order (A : Type 0) : Type 0 where
  pub average : Option A
  pub price : Option A

pub record Ticker (A : Type 0) : Type 0 where
  pub last : Option A
  pub close : Option A

-- What the exchanges answer. An answer to an order may depend on all orders before it.
pub record Gateway (A : Type 0) : Type 0 where
  pub fetch_spot_ticker : ℕ → String → Option (Ticker A)
  pub fetch_ticker : ℕ → String → Option (Ticker A)
  pub answer : List (Call A × Option (Order A)) → Call A → Option (Order A)

-- The session, and the orders sent so far, the latest first.
pub record World (A : Type 0) : Type 0 where
  pub db : Session A
  pub sent : List (Call A × Option (Order A))

-- A Python test of an optional object: an answered order, a row that was found.
abbrev pub is_some {ℓ} : {A : Type ℓ} → Option A → Bool
is_some none = false
is_some (some _) = true

-- `db.query(Exchange).filter(Exchange.id == i).first()`
abbrev pub find_exchange : ℕ → List Exchange → Option Exchange
find_exchange i [] = none
find_exchange i (e ∷ es) = if e.id == i then some e else find_exchange i es

abbrev pub is_open_status : Option PositionStatus → Bool
is_open_status (some PositionStatus.opened) = true
is_open_status _ = false

module _ {A : Type 0} where
  abbrev pub send : Gateway A → Call A → World A → Option (Order A) × World A
  send g c w = let r = g.answer w.sent c in (r, record { db = w.db; sent = (c, r) ∷ w.sent })

  abbrev pub find_strategy : ℕ → List (Strategy A) → Option (Strategy A)
  find_strategy i [] = none
  find_strategy i (s ∷ ss) = if s.id == i then some s else find_strategy i ss

  -- A write to the strategy `i`.
  abbrev pub set_strategy : ℕ → (Strategy A → Strategy A) → List (Strategy A) → List (Strategy A)
  set_strategy i f [] = []
  set_strategy i f (s ∷ ss) = (if s.id == i then f s else s) ∷ set_strategy i f ss

  -- A write to the position `i`.
  abbrev pub set_position : ℕ → (Position A → Position A) → List (Position A) → List (Position A)
  set_position i f [] = []
  set_position i f (p ∷ ps) = (if p.id == i then f p else p) ∷ set_position i f ps

  abbrev pub with_status : PositionStatus → Option ℕ → Position A → Position A
  with_status st t p = record p { status = st; closed_at = t }

  -- `db.flush()`, and `db.commit()`, which flushes too.
  abbrev pub store : Position A → Position A
  store p = record p { stored = some p.status }

  abbrev pub flush : Session A → Session A
  flush db = record db { positions = map store db.positions }

  -- A query flushes first if the session does so by itself.
  abbrev pub before_query : Session A → Session A
  before_query db = if db.autoflush then flush db else db

  -- `Position.strategy_id == i, Position.status == "open"`, as the database sees it
  abbrev pub is_open_row : ℕ → Position A → Bool
  is_open_row i p = (p.strategy_id == i) && is_open_status p.stored

  -- `_remaining_open_positions` of strategies/spot_hedge/base.py
  unfoldable pub remaining_open_positions : Session A → ℕ → ℕ
  remaining_open_positions db i = length (keep_if (is_open_row i) (before_query db).positions)

  abbrev pub add_strategy : Strategy A → Session A → Session A
  add_strategy s db = record db { strategies = db.strategies ++ s ∷ []; next_id = db.next_id + 1 }

  abbrev pub add_position : Position A → Session A → Session A
  add_position p db = record db { positions = db.positions ++ p ∷ []; next_id = db.next_id + 1 }

  abbrev pub add_trade : TradeLog A → Session A → Session A
  add_trade t db = record db { trades = db.trades ++ t ∷ [] }

-- `a or b` of two optional numbers: a missing number and 0 are false.
abbrev pub or_else : (R : Real) → Option R.Number → Option R.Number → Option R.Number
or_else R none b = b
or_else R (some a) b = if R.is_zero a then b else some a

abbrev pub or_number : (R : Real) → Option R.Number → R.Number → R.Number
or_number R none b = b
or_number R (some a) b = if R.is_zero a then b else a
