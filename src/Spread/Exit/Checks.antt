-- ===== src/Spread/Exit/Checks.antt =====
-- `_check_exits` (lifecycle.py): first the recovery, then each open position against the four exits, in
-- their order.
--
-- `ExitConfig` holds the settings in force: where the code writes `cfg.x or d`, the `d` is filled in
-- before. Every row has a `take_profit_z`, as the entries write it.
-- `pre_settle_secs` is `cfg.spread_pre_settle_mins * 60`.
pub mod Backed
use Prim.Native.String.{◌++◌ as text_append}
use arbitrage_station.Base.{
  ℕ, ◌+◌, min, max, String, Bool, true, false, ◌&&◌, ◌||◌, not, Option, none, some, List, [], ◌∷◌,
  ltb, if◌then◌else◌,
}
use arbitrage_station.Trading.Store.{Session}
use arbitrage_station.Spread.{
  Market, SpreadPosition, SpreadStatus, SpreadWorld, Sent, Stats, Venue, is_open_spread,
}
use arbitrage_station.Spread.Exit.{Attempts, close_spread_position, recover_half_closed_positions}

-- The exits, in the order in which they are tried
pub data ExitKind : Type 0 where
  floating_take_profit mean_reversion stop_loss pre_settlement_close : ExitKind

-- The text of a reason up to its numbers. `details` stands for what the format strings print after it.
unfoldable pub reason_head : ExitKind → String
reason_head floating_take_profit = "floating_take_profit: |z|="
reason_head mean_reversion = "mean_reversion: |z|="
reason_head stop_loss = "stop_loss: signed_z="
reason_head pre_settlement_close = "pre_settlement_close: within "

pub record ExitConfig (A : Type 0) : Type 0 where
  pub exit_z : A
  pub stop_z_delta : A
  pub stop_z : A
  pub pre_settle_secs : A
  pub details : ExitKind → SpreadPosition A → A → A → String

module _ (M : Market) where
  -- `_get_stats`
  abbrev pub get_stats : Venue M.Number → Sent M.Number → String → ℕ → ℕ → Option (Stats M.Number)
  get_stats v s sym a b = v.spread_stats s sym (min a b) (max a b)

  abbrev over_std : M.Number → M.Number → Option M.Number → Option M.Number
  over_std x std none = none
  over_std x std (some mean) = if M.positive std then some (M.div (M.sub x mean) std) else none

  -- `_compute_z`, and nothing where there are no statistics
  abbrev pub compute_z : M.Number → Option (Stats M.Number) → Option M.Number
  compute_z x none = none
  compute_z x (some st) = over_std x st.std st.mean

  abbrev abs_spread : M.Number → M.Number → M.Number
  abs_spread a b = M.mul (M.div (M.abs (M.sub a b)) (if M.at_most a b then a else b)) M.hundred

  abbrev signed_spread : M.Number → M.Number → M.Number
  signed_spread a b = M.mul (M.div (M.sub a b) b) M.hundred

  abbrev within : M.Number → Option M.Number → Bool
  within limit none = false
  within limit (some x) = M.positive x && M.at_most x limit

  abbrev some_at_most : Option M.Number → M.Number → Bool
  some_at_most none limit = false
  some_at_most (some z) limit = M.at_most z limit

  abbrev some_at_least : Option M.Number → M.Number → Bool
  some_at_least none limit = false
  some_at_least (some z) limit = M.at_most limit z

  -- Further than `stop_z_delta` above the score at entry, or than `stop_z` where that was not positive
  abbrev stop_at : ExitConfig M.Number → SpreadPosition M.Number → M.Number
  stop_at cfg p =
      if M.positive p.entry_z_score then M.add p.entry_z_score cfg.stop_z_delta else cfg.stop_z

  -- The first exit that applies at these prices
  abbrev pub exit_kind :
      Venue M.Number
      → ExitConfig M.Number
      → SpreadPosition M.Number
      → M.Number
      → M.Number
      → Sent M.Number
      → Option ExitKind
  exit_kind v cfg p sp lp s =
      let stats = get_stats v s p.symbol p.high_exchange_id p.low_exchange_id in
      let abs_z = compute_z (abs_spread sp lp) stats in
      let signed_z = compute_z (signed_spread sp lp) stats in
      let soon = λ (e : ℕ). within cfg.pre_settle_secs (v.secs_to_funding s p.symbol e) in
      if some_at_most abs_z p.take_profit_z
      then some floating_take_profit
      else if some_at_most abs_z cfg.exit_z
      then some mean_reversion
      else if some_at_least signed_z (stop_at cfg p)
      then some stop_loss
      else if soon p.high_exchange_id || soon p.low_exchange_id
      then some pre_settlement_close
      else none

  abbrev pub close_reason :
      ExitConfig M.Number → ExitKind → SpreadPosition M.Number → M.Number → M.Number → String
  close_reason cfg k p sp lp = text_append (reason_head k) (cfg.details k p sp lp)

  abbrev unrealized_pnl : SpreadPosition M.Number → M.Number → M.Number → M.Number
  unrealized_pnl p sp lp =
      let short_pnl =
        if M.positive p.short_entry_price
        then M.mul (M.sub p.short_entry_price sp) p.short_size_base
        else M.nothing in
      let long_pnl =
        if M.positive p.long_entry_price
        then M.mul (M.sub lp p.long_entry_price) p.long_size_base
        else M.nothing in
      M.round6 (M.add short_pnl long_pnl)

  abbrev pub marked : SpreadPosition M.Number → M.Number → M.Number → SpreadPosition M.Number
  marked p sp lp = record p {
    short_current_price = sp;
    long_current_price = lp;
    unrealized_pnl_usd = unrealized_pnl p sp lp;
  }

  unfoldable pub close_for :
      Venue M.Number
      → ℕ
      → Session M.Number
      → ExitConfig M.Number
      → Option ExitKind
      → SpreadPosition M.Number
      → M.Number
      → M.Number
      → Sent M.Number
      → SpreadPosition M.Number × Sent M.Number
  unfolding close_spread_position
  close_for v now db cfg none p sp lp s = (p, s)
  close_for v now db cfg (some k) p sp lp s =
      close_spread_position M v now db p (close_reason cfg k p sp lp) s

  -- One open position
  unfoldable pub check_exit :
      Venue M.Number
      → ℕ
      → Session M.Number
      → ExitConfig M.Number
      → SpreadPosition M.Number
      → Sent M.Number
      → SpreadPosition M.Number × Sent M.Number
  unfolding close_for
  check_exit v now db cfg p s =
      let sp = v.get_price s p.high_exchange_id p.symbol in
      let lp = v.get_price s p.low_exchange_id p.symbol in
      if M.positive sp && M.positive lp
      then close_for v now db cfg (exit_kind v cfg p sp lp s) (marked p sp lp) sp lp s
      else (p, s)

  unfoldable pub check_each :
      Venue M.Number
      → ℕ
      → Session M.Number
      → ExitConfig M.Number
      → List (SpreadPosition M.Number)
      → Sent M.Number
      → List (SpreadPosition M.Number) × Sent M.Number
  unfolding check_exit
  check_each v now db cfg [] s = ([], s)
  check_each v now db cfg (p ∷ ps) s =
      let (q, s') = if is_open_spread p then check_exit v now db cfg p s else (p, s) in
      let (qs, s'') = check_each v now db cfg ps s' in (q ∷ qs, s'')

  -- `_check_exits`
  unfoldable pub check_exits :
      Venue M.Number → ℕ → ExitConfig M.Number → SpreadWorld M.Number → SpreadWorld M.Number
  unfolding recover_half_closed_positions check_each
  check_exits v now cfg w =
      let (ps, seen, s) =
        recover_half_closed_positions M v now w.db w.spreads w.last_recover_attempt w.sent in
      let (qs, s') = check_each v now w.db cfg ps s in
      record w { spreads = qs; sent = s'; last_recover_attempt = seen }
