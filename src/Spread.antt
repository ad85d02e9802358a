-- ===== src/Spread.antt =====
-- The spread arbitrage engine (backend/core/spread_arb_engine: signals.py, order_flow.py, lifecycle.py): a
-- short perpetual where the price is high against a long one where it is low.
--
-- Numbers are of any type with the operations that the code uses. Each write to a spread position is
-- committed before the next query, so a query finds what was written. What the exchanges answer may
-- depend on all orders before; pauses between attempts and log lines are left out.
pub mod Entry
pub mod Exit
pub mod Cooldown
pub mod Round
pub mod Tests
use Prim.Native.Char.{code}
use text.Mathlib.Text.{◌==◌ as text_eq}
use arbitrage_station.Base.{
  ℕ, zero, suc, ◌+◌, ◌-◌, String, Bool, true, false, ◌&&◌, ◌||◌, not, Option, none, some, List, [],
  ◌∷◌, ltb, leb, ◌==◌, if◌then◌else◌, keep_if, length,
}
use arbitrage_station.Trading.Store.{
  Exchange, Side, OrderSide, Session, Strategy, StrategyStatus, Position, PositionStatus, long,
  short, buy, sell, is_some,
}

-- Python's floats, with the operations that this engine applies to them.
pub record Market : Type 1 where
  pub Number : Type 0
  pub nothing : Number
  pub is_zero : Number → Bool
  pub positive : Number → Bool
  pub at_most : Number → Number → Bool
  pub add : Number → Number → Number
  pub sub : Number → Number → Number
  pub mul : Number → Number → Number
  pub div : Number → Number → Number
  pub percent : Number → Number → Number
  pub abs : Number → Number
  pub round4 : Number → Number
  pub round6 : Number → Number
  pub hundred : Number
  pub fee_rate : Number
  pub min_notional : Number

pub data SpreadStatus : Type 0 where
  opened closing closed error : SpreadStatus

-- `SpreadPosition`
pub record SpreadPosition (A : Type 0) : Type 0 where
  pub id : ℕ
  pub symbol : String
  pub high_exchange_id : ℕ
  pub low_exchange_id : ℕ
  pub entry_spread_pct : A
  pub entry_z_score : A
  pub take_profit_z : A
  pub position_size_usd : A
  pub short_size_base : A
  pub long_size_base : A
  pub short_entry_price : A
  pub long_entry_price : A
  pub short_current_price : A
  pub long_current_price : A
  pub unrealized_pnl_usd : A
  pub realized_pnl_usd : A
  pub status : SpreadStatus
  pub close_reason : String
  pub short_closed : Bool
  pub long_closed : Bool
  pub closed_at : Option ℕ

-- A request to an exchange: a hedge-mode order, or the close of a leg.
pub data LegCall (A : Type 0) : Type 0 where
  place_leg : ℕ → String → OrderSide → A → LegCall A
  close_leg : ℕ → String → Side → A → LegCall A

-- The fields of an order that are read.
pub record Fill (A : Type 0) : Type 0 where
  pub average : Option A
  pub price : Option A
  pub filled : Option A
  pub amount : Option A

-- The requests so far with their answers, the latest first.
abbrev pub Sent : Type 0 → Type 0
Sent A = List (LegCall A × Option (Fill A))

-- An entry of `fetch_positions`
pub record HeldLeg (A : Type 0) : Type 0 where
  pub symbol : String
  pub side : Side
  pub contracts : A

-- An entry of the cache of spread statistics
pub record Stats (A : Type 0) : Type 0 where
  pub mean : Option A
  pub std : A

-- What the exchanges answer, and what the caches hold by then.
pub record Venue (A : Type 0) : Type 0 where
  pub answer : Sent A → LegCall A → Option (Fill A)
  pub fetch_positions : Sent A → ℕ → String → Option (List (HeldLeg A))
  pub free_usdt : Sent A → ℕ → A
  pub get_price : Sent A → ℕ → String → A
  pub spread_stats : Sent A → String → ℕ → ℕ → Option (Stats A)
  pub secs_to_funding : Sent A → String → ℕ → Option A

pub record SpreadWorld (A : Type 0) : Type 0 where
  pub db : Session A
  pub spreads : List (SpreadPosition A)
  pub next_spread_id : ℕ
  pub sent : Sent A
  pub last_recover_attempt : List (ℕ × ℕ)

module _ {A : Type 0} where
  abbrev pub request : Venue A → LegCall A → Sent A → Option (Fill A) × Sent A
  request v c s = let r = v.answer s c in (r, (c, r) ∷ s)

  abbrev pub is_open_spread : SpreadPosition A → Bool
  is_open_spread p = elim p.status [ SpreadStatus.opened ↦ true | _ ↦ false ]

  abbrev pub is_active : Strategy A → Bool
  is_active s = elim s.status [ StrategyStatus.active ↦ true | _ ↦ false ]

  abbrev pub count_open : List (SpreadPosition A) → ℕ
  count_open ps = length (keep_if is_open_spread ps)

  -- `_count_active`
  abbrev pub count_active : SpreadWorld A → ℕ × ℕ
  count_active w = (length (keep_if is_active w.db.strategies), count_open w.spreads)

  -- `_place_with_retry`, with the attempts that are left
  unfoldable pub place_with_retry : ℕ → Venue A → LegCall A → Sent A → Option (Fill A) × Sent A
  place_with_retry zero v c s = (none, s)
  place_with_retry (suc n) v c s =
      let (r, s') = request v c s in
      let rest = place_with_retry n v c s' in if is_some r then (r, s') else rest

abbrev pub same_side : Side → Side → Bool
same_side long long = true
same_side short short = true
same_side _ _ = false

module _ (M : Market) where
  abbrev still_open : List (HeldLeg M.Number) → String → Side → Bool
  still_open [] sym side = false
  still_open (p ∷ ps) sym side =
      (text_eq p.symbol sym && (same_side p.side side && M.positive p.contracts))
      || still_open ps sym side

  -- `_verify_leg_closed`: a leg that cannot be looked up counts as held.
  abbrev pub verify_leg_closed : Venue M.Number → Sent M.Number → ℕ → String → Side → Bool
  verify_leg_closed v s e sym side = elim (v.fetch_positions s e sym) [
    | none ↦ false
    | some ps ↦ not (still_open ps sym side)
  ]

  -- `_close_leg_with_retry`, with the attempts that are left: one counts only if the leg is gone after it.
  pub close_leg_with_retry :
      ℕ → Venue M.Number → ℕ → String → Side → M.Number → Sent M.Number → Bool × Sent M.Number
  close_leg_with_retry zero v e sym side size s = (false, s)
  close_leg_with_retry (suc n) v e sym side size s =
      let (r, s') = request v (close_leg e sym side size) s in
      let rest = close_leg_with_retry n v e sym side size s' in
      if is_some r && verify_leg_closed v s' e sym side then (true, s') else rest

-- `close_reason LIKE '%止损%'`
abbrev starts_with_stop : String → Bool
starts_with_stop (String.◌∷◌ c s) = code c == 25439
starts_with_stop _ = false

unfoldable pub mentions_stop_loss : String → Bool
mentions_stop_loss String.[] = false
mentions_stop_loss (String.◌∷◌ c s) =
    let rest = mentions_stop_loss s in (code c == 27490 && starts_with_stop s) || rest

abbrev closed_since : ℕ → Option ℕ → Bool
closed_since cutoff none = false
closed_since cutoff (some t) = leb cutoff t

module _ {A : Type 0} where
  abbrev ended : SpreadPosition A → Bool
  ended p = elim p.status [ SpreadStatus.closed ↦ true | SpreadStatus.error ↦ true | _ ↦ false ]

  -- `_in_cooldown`, at the time `now`, in seconds
  pub in_cooldown : ℕ → List (SpreadPosition A) → String → ℕ → ℕ → ℕ → Bool
  unfolding mentions_stop_loss
  in_cooldown now [] sym high low secs = false
  in_cooldown now (p ∷ ps) sym high low secs =
      let rest = in_cooldown now ps sym high low secs in
      if secs == 0
      then false
      else ((text_eq p.symbol sym && (p.high_exchange_id == high && p.low_exchange_id == low))
          && (ended p
              && (mentions_stop_loss p.close_reason && closed_since (now - secs) p.closed_at)))
        || rest
