-- ===== src/Spread/Entry.antt =====
-- What `_try_open_position` (order_flow.py) decides before it places orders.
--
-- A setting is the one in force: where the code writes `cfg.x or d`, the `d` is filled in before.
pub mod Orders
pub mod Caps
pub mod Legs
pub mod Naked
use text.Mathlib.Text.{◌==◌ as text_eq}
use arbitrage_station.Base.{
  ℕ, ◌+◌, String, Bool, true, false, ◌&&◌, ◌||◌, not, Option, none, some, List, [], ◌∷◌, ◌++◌, ltb,
  leb, ◌==◌, if◌then◌else◌, length, keep_if,
}
use arbitrage_station.Trading.Store.{
  Exchange, Side, OrderSide, Session, Strategy, Position, PositionStatus, long, short, buy, sell,
  find_exchange, is_some,
}
use arbitrage_station.Spread.{
  Market, SpreadPosition, SpreadStatus, SpreadWorld, Sent, Venue, LegCall, Fill, place_leg,
  close_leg, request, is_open_spread, same_side, is_active, count_open, count_active,
  place_with_retry, in_cooldown,
}

pub record SpreadConfig (A : Type 0) : Type 0 where
  pub entry_z : A
  pub min_volume_usd : A
  pub cooldown_secs : ℕ
  pub use_hedge_mode : Bool
  pub max_open_strategies : ℕ
  pub max_positions : ℕ
  pub position_pct : A
  pub tp_z_delta : A

pub record Opportunity (A : Type 0) : Type 0 where
  pub symbol : String
  pub high_exchange_id : ℕ
  pub low_exchange_id : ℕ
  pub z_score : Option A
  pub current_spread_pct : A
  pub net_profit_pct : A
  pub min_volume_usd : A

-- How a try ends: with a reason to leave it, or with the orders placed.
pub data EntryResult : Type 0 where
  low_z no_profit low_volume cooling_down direction_conflict already_open at_cap at_spread_cap :
      EntryResult
  exchange_not_found too_small no_price short_failed long_failed entered : EntryResult

abbrev is_opened : PositionStatus → Bool
is_opened PositionStatus.opened = true
is_opened _ = false

module _ {A : Type 0} where
  -- A position of an active strategy on the exchange, in the symbol and on the side given
  abbrev strategy_active : ℕ → List (Strategy A) → Bool
  strategy_active i [] = false
  strategy_active i (s ∷ ss) = (s.id == i && is_active s) || strategy_active i ss

  abbrev holds_side : Session A → ℕ → String → Side → List (Position A) → Bool
  holds_side db e sym side [] = false
  holds_side db e sym side (p ∷ ps) =
      (strategy_active p.strategy_id db.strategies
        && ((p.exchange_id == e && text_eq p.symbol sym)
            && (same_side p.side side && is_opened p.status)))
      || holds_side db e sym side ps

  -- Spread positions hold the short leg where the price is high, so a long one there is against it.
  abbrev pub conflicts : SpreadWorld A → Opportunity A → Bool
  conflicts w o =
      holds_side w.db o.high_exchange_id o.symbol long w.db.positions
      || holds_side w.db o.low_exchange_id o.symbol short w.db.positions

  abbrev pub has_open : String → List (SpreadPosition A) → Bool
  has_open sym [] = false
  has_open sym (p ∷ ps) = (text_eq p.symbol sym && is_open_spread p) || has_open sym ps

  abbrev pub at_caps : SpreadConfig A → SpreadWorld A → Option EntryResult
  at_caps cfg w =
      let (funding, spread) = count_active w in
      if leb cfg.max_open_strategies (funding + spread)
      then some at_cap
      else if leb cfg.max_positions spread
      then some at_spread_cap
      else none

-- An early return, or a `break`, at the first reason for it.
abbrev pub unless_stopped {ℓ} : {B : Type ℓ} → Option EntryResult → (EntryResult → B) → B → B
unless_stopped (some r) stop go = stop r
unless_stopped none stop go = go

module _ (M : Market) where
  -- `a or b`, where 0 and a missing number are false
  abbrev or_number : Option M.Number → M.Number → M.Number
  or_number none d = d
  or_number (some a) d = if M.is_zero a then d else a

  abbrev positive_or : M.Number → M.Number → M.Number
  positive_or a d = if M.positive a then a else d

  -- `_extract_fill`: a missing or empty number falls back to what was asked for.
  abbrev pub extract_fill : Fill M.Number → M.Number → M.Number → M.Number × M.Number
  extract_fill f price base = (
    positive_or (or_number f.average (or_number f.price price)) price,
    positive_or (or_number f.filled (or_number f.amount M.nothing)) base,
  )

  abbrev z_below : Option M.Number → M.Number → Bool
  z_below none entry = true
  z_below (some z) entry = not (M.at_most entry z)

  -- The guards before the exchanges are looked up, in their order.
  unfoldable pub refusal :
      ℕ → SpreadConfig M.Number → Opportunity M.Number → SpreadWorld M.Number → Option EntryResult
  refusal now cfg o w =
      if z_below o.z_score cfg.entry_z
      then some low_z
      else if not (M.positive o.net_profit_pct)
      then some no_profit
      else if M.positive cfg.min_volume_usd && not (M.at_most cfg.min_volume_usd o.min_volume_usd)
      then some low_volume
      else if in_cooldown now w.spreads o.symbol o.high_exchange_id o.low_exchange_id
          cfg.cooldown_secs
      then some cooling_down
      else if not cfg.use_hedge_mode && conflicts w o
      then some direction_conflict
      else if has_open o.symbol w.spreads
      then some already_open
      else at_caps cfg w
