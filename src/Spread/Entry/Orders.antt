-- ===== src/Spread/Entry/Orders.antt =====
-- The orders of `_try_open_position` (order_flow.py), and the loop that calls it for one opportunity after
-- another (lifecycle.py).
use arbitrage_station.Base.{
  ℕ, ◌+◌, false, ◌&&◌, not, Option, none, some, List, [], ◌∷◌, ◌++◌, if◌then◌else◌,
}
use arbitrage_station.Trading.Store.{Exchange, short, buy, sell, find_exchange}
use arbitrage_station.Spread.{
  Market, SpreadPosition, SpreadStatus, SpreadWorld, Sent, Venue, Fill, place_leg, close_leg,
  request, place_with_retry,
}
use arbitrage_station.Spread.Entry.{
  SpreadConfig, Opportunity, EntryResult, low_z, exchange_not_found, too_small, no_price,
  short_failed, long_failed, entered, at_caps, unless_stopped, extract_fill, refusal,
}

module _ (M : Market) where
  abbrev pub new_position :
      ℕ
      → SpreadConfig M.Number
      → Opportunity M.Number
      → M.Number
      → M.Number
      → M.Number × M.Number
      → M.Number × M.Number
      → SpreadPosition M.Number
  new_position i cfg o z size (sp, sb) (lp, lb) = record {
    id = i;
    symbol = o.symbol;
    high_exchange_id = o.high_exchange_id;
    low_exchange_id = o.low_exchange_id;
    entry_spread_pct = o.current_spread_pct;
    entry_z_score = z;
    take_profit_z = M.round4 (M.sub z cfg.tp_z_delta);
    position_size_usd = size;
    short_size_base = sb;
    long_size_base = lb;
    short_entry_price = sp;
    long_entry_price = lp;
    short_current_price = sp;
    long_current_price = lp;
    unrealized_pnl_usd = M.nothing;
    realized_pnl_usd = M.nothing;
    status = SpreadStatus.opened;
    close_reason = "";
    short_closed = false;
    long_closed = false;
    closed_at = none;
  }

  abbrev pub with_sent : SpreadWorld M.Number → Sent M.Number → SpreadWorld M.Number
  with_sent w s = record w { sent = s }

  abbrev pub persisted :
      SpreadWorld M.Number → SpreadPosition M.Number → Sent M.Number → SpreadWorld M.Number
  persisted w p s = record w {
    spreads = w.spreads ++ p ∷ [];
    next_spread_id = w.next_spread_id + 1;
    sent = s;
  }

  -- What follows the two orders. If the long one fails, the short one is cancelled by one request, whose
  -- answer is not read.
  abbrev pub after_orders :
      Venue M.Number
      → SpreadConfig M.Number
      → Opportunity M.Number
      → M.Number
      → M.Number
      → M.Number
      → M.Number
      → Option (Fill M.Number) × Sent M.Number
      → Option (Fill M.Number) × Sent M.Number
      → SpreadWorld M.Number
      → EntryResult × SpreadWorld M.Number
  after_orders v cfg o z size short_price long_price (none, s1) _ w = (short_failed, with_sent w s1)
  after_orders v cfg o z size short_price long_price (some f, s1) (none, s2) w =
      let fill = extract_fill M f short_price (M.div size short_price) in
      let (_, s3) = request v (close_leg o.high_exchange_id o.symbol short fill.1) s2 in
      (long_failed, with_sent w s3)
  after_orders v cfg o z size short_price long_price (some f, s1) (some h, s2) w =
      let fill = extract_fill M f short_price (M.div size short_price) in
      (
        entered,
        persisted w
            (new_position w.next_spread_id cfg o z size fill
              (extract_fill M h long_price (M.div size long_price)))
            s2,
      )

  unfoldable pub short_leg :
      Venue M.Number
      → Opportunity M.Number
      → M.Number
      → M.Number
      → Sent M.Number
      → Option (Fill M.Number) × Sent M.Number
  unfolding place_with_retry
  short_leg v o size price s =
      place_with_retry 3 v (place_leg o.high_exchange_id o.symbol sell (M.div size price)) s

  unfoldable pub long_leg :
      Venue M.Number
      → Opportunity M.Number
      → M.Number
      → M.Number
      → Sent M.Number
      → Option (Fill M.Number) × Sent M.Number
  unfolding place_with_retry
  long_leg v o size price s =
      place_with_retry 3 v (place_leg o.low_exchange_id o.symbol buy (M.div size price)) s

  -- The two legs, the short one first.
  unfoldable pub place_spread :
      Venue M.Number
      → SpreadConfig M.Number
      → Opportunity M.Number
      → M.Number
      → M.Number
      → M.Number
      → M.Number
      → SpreadWorld M.Number
      → EntryResult × SpreadWorld M.Number
  unfolding short_leg long_leg
  place_spread v cfg o z size short_price long_price w =
      let first = short_leg v o size short_price w.sent in
      let second = long_leg v o size long_price first.1 in
      after_orders v cfg o z size short_price long_price first second w

  -- The share of the smaller of the two free balances.
  abbrev pub size_for :
      Venue M.Number
      → SpreadConfig M.Number
      → Opportunity M.Number
      → SpreadWorld M.Number
      → M.Number
  size_for v cfg o w =
      let high_free = v.free_usdt w.sent o.high_exchange_id in
      let low_free = v.free_usdt w.sent o.low_exchange_id in
      M.round4
        (M.percent (if M.at_most high_free low_free then high_free else low_free) cfg.position_pct)

  abbrev pub place_sized :
      Venue M.Number
      → SpreadConfig M.Number
      → Opportunity M.Number
      → M.Number
      → SpreadWorld M.Number
      → EntryResult × SpreadWorld M.Number
  place_sized v cfg o z w =
      let size = size_for v cfg o w in
      let short_price = v.get_price w.sent o.high_exchange_id o.symbol in
      let long_price = v.get_price w.sent o.low_exchange_id o.symbol in
      if not (M.at_most M.min_notional size)
      then (too_small, w)
      else if M.positive short_price && M.positive long_price
      then place_spread v cfg o z size short_price long_price w
      else (no_price, w)

  abbrev pub place_on :
      Venue M.Number
      → SpreadConfig M.Number
      → Opportunity M.Number
      → Option M.Number
      → Option Exchange
      → Option Exchange
      → SpreadWorld M.Number
      → EntryResult × SpreadWorld M.Number
  place_on v cfg o (some z) (some high) (some low) w = place_sized v cfg o z w
  place_on v cfg o none _ _ w = (low_z, w)
  place_on v cfg o _ _ _ w = (exchange_not_found, w)

  -- `_try_open_position`
  unfoldable pub try_open_position :
      Venue M.Number
      → ℕ
      → SpreadConfig M.Number
      → Opportunity M.Number
      → SpreadWorld M.Number
      → EntryResult × SpreadWorld M.Number
  unfolding refusal place_spread
  try_open_position v now cfg o w =
      let placed =
        place_on v cfg o o.z_score (find_exchange o.high_exchange_id w.db.exchanges)
          (find_exchange o.low_exchange_id w.db.exchanges) w in
      unless_stopped (refusal M now cfg o w) (λ r. (r, w)) placed

  -- The loop over opportunities, which ends at the caps.
  unfoldable pub open_each :
      Venue M.Number
      → ℕ
      → SpreadConfig M.Number
      → List (Opportunity M.Number)
      → SpreadWorld M.Number
      → SpreadWorld M.Number
  unfolding try_open_position
  open_each v now cfg [] w = w
  open_each v now cfg (o ∷ os) w =
      let rest = open_each v now cfg os (try_open_position v now cfg o w).1 in
      unless_stopped (at_caps cfg w) (λ _. w) rest
