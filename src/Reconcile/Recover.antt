-- ===== src/Reconcile/Recover.antt =====
-- The matching of perpetuals and spot assets that no strategy tracks, and the strategies that are made of
-- them (`run_spot_basis_reconcile_cycle` of backend/core/spot_basis_reconciler/runner.py).
--
-- What the exchanges hold is given, as `_collect_live_perp_shorts` and `_collect_live_spot_assets` collect it,
-- and the new price of a strategy's entries is synchronised before. The least quantity to recover is 1e-9, the
-- least value eight dollars.
mod Pool
pub mod Keys
pub mod Within
pub mod Balanced
unfoldable pub use Pool.*
use text.Mathlib.Text.{◌==◌ as text_eq}
use arbitrage_station.Base.{
  ℕ, ◌+◌, ◌-◌, ◌*◌, String, Bool, true, false, ◌&&◌, ◌||◌, not, Option, none, some, List, [], ◌∷◌,
  ◌++◌, ltb, leb, ◌==◌, if◌then◌else◌, keep_if, min,
}
use arbitrage_station.Trading.Store.{
  Exchange, Side, long, short, PositionType, PositionStatus, opened, StrategyStatus, StrategyType,
  CloseReason, Position, Strategy, Session, find_exchange, flush, add_strategy, add_position,
  is_some,
}
use arbitrage_station.Reconcile.{
  is_hedge, is_tracked_status, has_open_row, tracked_spot, tracked_perp,
}

pub data SkipReason : Type 0 where
  invalid_perp_row no_spot_candidate invalid_spot_candidate already_tracked : SkipReason
  matched_size_zero missing_price exchange_not_found : SkipReason

pub record Recovered : Type 0 where
  pub strategy_id : ℕ
  pub symbol : String
  pub asset : String
  pub long_exchange_id : ℕ
  pub short_exchange_id : ℕ
  pub matched_base : ℕ

pub data RecoverResult : Type 0 where
  skipped : SkipReason → RecoverResult
  recovered : Recovered → RecoverResult

-- A hedge of this symbol on these exchanges with an open position is there.
abbrev is_same_hedge : Session ℕ → String → ℕ → ℕ → Strategy ℕ → Bool
is_same_hedge db symbol long_ex short_ex s =
    is_hedge s
    && (text_eq s.symbol symbol
        && ((s.long_exchange_id == long_ex)
            && ((s.short_exchange_id == short_ex)
                && (is_tracked_status s.status && has_open_row s.id db.positions))))

exists_hedge : Session ℕ → String → ℕ → ℕ → List (Strategy ℕ) → Bool
exists_hedge db symbol long_ex short_ex [] = false
exists_hedge db symbol long_ex short_ex (s ∷ ss) =
    is_same_hedge db symbol long_ex short_ex s || exists_hedge db symbol long_ex short_ex ss

abbrev positive_or : ℕ → ℕ → ℕ
positive_or a b = if ltb 0 a then a else b

abbrev recovered_reason : CloseReason
recovered_reason = record {
  reason = "recovered_untracked_open_from_exchange_auto";
  errors = [];
  unwind_failures = [];
}

abbrev recovered_strategy : ℕ → Untracked → PoolEntry → ℕ → ℕ → Strategy ℕ
recovered_strategy i u x matched entry = record {
  id = i;
  strategy_type = StrategyType.spot_hedge;
  symbol = u.perp.symbol;
  long_exchange_id = x.spot.exchange_id;
  short_exchange_id = u.perp.exchange_id;
  initial_margin_usd = matched * entry;
  entry_e24_net_pct = 0;
  entry_open_fee_pct = 0;
  entry_spot_base_qty = 0;
  entry_perp_base_qty = 0;
  entry_delta_base_qty = 0;
  status = StrategyStatus.active;
  close_reason = some recovered_reason;
  closed_at = none;
}

abbrev new_leg : ℕ → ℕ → ℕ → String → Side → PositionType → ℕ → ℕ → ℕ → Position ℕ
new_leg j i e symbol side kind size entry current = record {
  id = j;
  strategy_id = i;
  exchange_id = e;
  symbol = symbol;
  side = side;
  position_type = kind;
  size = size;
  entry_price = entry;
  current_price = current;
  status = opened;
  stored = none;
  closed_at = none;
}

-- The strategy and its two legs, committed. `px` is the price of the spot.
pub book_pair : Untracked → PoolEntry → ℕ → ℕ → Session ℕ → Session ℕ
book_pair u x matched px db =
    let i = db.next_id in
    let perp_px = positive_or u.perp.mark_price px in
    let entry = positive_or u.perp.entry_price px in
    let perp_entry = positive_or u.perp.entry_price perp_px in
    let spot_leg =
      new_leg (i + 1) i x.spot.exchange_id x.spot.spot_symbol long PositionType.spot matched entry
        px in
    let perp_leg =
      new_leg (i + 2) i u.perp.exchange_id u.perp.symbol short PositionType.swap matched perp_entry
        perp_px in
    flush (
      add_position perp_leg
        (add_position spot_leg (add_strategy (recovered_strategy i u x matched entry) db)))

-- The matched quantity leaves the pool.
pub consume : ℕ → String → ℕ → List PoolEntry → List PoolEntry
consume e asset matched [] = []
consume e asset matched (x ∷ xs) =
    let left = x.residual_qty - matched in
    let rest = consume e asset matched xs in
    if (x.spot.exchange_id == e) && text_eq x.spot.asset asset
    then record {
      spot = x.spot;
      residual_qty = left;
      residual_notional_usd = left * x.spot.price_usdt;
    }
      ∷ xs
    else x ∷ rest

pub record Books : Type 0 where
  pub pool : List PoolEntry
  pub db : Session ℕ

-- The guards of one turn of the loop after a candidate was found.
abbrev pair_refusal : Untracked → PoolEntry → Session ℕ → Option SkipReason
pair_refusal u x db =
    let px = positive_or x.spot.price_usdt u.perp.mark_price in
    if x.spot.exchange_id == 0
    then some invalid_spot_candidate
    else if exists_hedge db u.perp.symbol x.spot.exchange_id u.perp.exchange_id db.strategies
    then some already_tracked
    else if leb (min u.untracked_base x.residual_qty) min_recover_base
    then some matched_size_zero
    else if px == 0
    then some missing_price
    else if is_some (find_exchange x.spot.exchange_id db.exchanges)
        && is_some (find_exchange u.perp.exchange_id db.exchanges)
    then none
    else some exchange_not_found

abbrev pub pair_up : Untracked → PoolEntry → Books → RecoverResult × Books
pair_up u x b =
    let matched = min u.untracked_base x.residual_qty in
    let px = positive_or x.spot.price_usdt u.perp.mark_price in
    (
      recovered (record {
        strategy_id = b.db.next_id;
        symbol = u.perp.symbol;
        asset = u.perp.base_asset;
        long_exchange_id = x.spot.exchange_id;
        short_exchange_id = u.perp.exchange_id;
        matched_base = matched;
      }),
      record {
        pool = consume x.spot.exchange_id u.perp.base_asset matched b.pool;
        db = book_pair u x matched px b.db;
      },
    )

abbrev settle_pair : Untracked → PoolEntry → Books → Option SkipReason → RecoverResult × Books
settle_pair u x b (some why) = (skipped why, b)
settle_pair u x b none = pair_up u x b

abbrev match_with : Untracked → Option PoolEntry → Books → RecoverResult × Books
match_with u none b = (skipped no_spot_candidate, b)
match_with u (some x) b = settle_pair u x b (pair_refusal u x b.db)

-- One turn of the loop over the perpetuals.
pub recover_perp : Untracked → Books → RecoverResult × Books
unfolding best_candidate exists_hedge
recover_perp u b =
    if (u.perp.exchange_id == 0)
      || (text_eq u.perp.symbol ""
          || (text_eq u.perp.base_asset "" || leb u.untracked_base min_recover_base))
    then (skipped invalid_perp_row, b)
    else match_with u (best_candidate u.untracked_base (keep_if (is_candidate u) b.pool)) b

pub recover_each : List Untracked → Books → List RecoverResult × Books
unfolding recover_perp
recover_each [] b = ([], b)
recover_each (u ∷ us) b =
    let (r, b') = recover_perp u b in let (rs, b'') = recover_each us b' in (r ∷ rs, b'')

-- The matching of a cycle, once the exchanges have been read.
unfoldable pub recover_untracked :
    (String → String) → List LivePerp → List LiveSpot → Session ℕ → List RecoverResult × Books
unfolding recover_each spot_pool perp_untracked sort_untracked
recover_untracked upper perps spots db =
    recover_each (sort_untracked (perp_untracked upper db perps))
      (record { pool = spot_pool upper db spots; db = db })
