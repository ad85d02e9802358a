-- ===== src/Repair/Plan/Readings.antt =====
-- What is read of a hold, the state between cycles, and the items of a plan (mismatch_guard.py of
-- backend/core/spot_basis_auto_engine).
use text.Mathlib.Text.{◌==◌ as text_eq}
use arbitrage_station.Base.{
  ℕ, ◌+◌, ◌-◌, ◌*◌, ◌/◌, String, Bool, ◌&&◌, ◌||◌, not, Option, none, some, List, [], ◌∷◌, ◌++◌,
  ltb, leb, ◌==◌, if◌then◌else◌, keep_if, max,
}
use arbitrage_station.Trading.Store.{Exchange, Strategy, Session, find_exchange}
use arbitrage_station.Repair.Live.{Market, fetch_live_perp_short_base}
use arbitrage_station.Repair.{LegSnapshot, leg_snapshot, estimate_spot_base, distance}

-- One of the holds of `_active_spot_hedge_holds`.
pub record Hold : Type 0 where
  pub strategy_id : ℕ
  pub row_id : String
  pub symbol : String
  pub pair_notional_usd : ℕ

pub record RepairConfig : Type 0 where
  pub delta_epsilon_abs_usd : ℕ
  pub delta_epsilon_nav_pct : ℕ
  pub repair_timeout_secs : ℕ
  pub repair_retry_rounds : ℕ

-- An entry of `_HEDGE_MISMATCH_STATE`
pub record MismatchState : Type 0 where
  pub first_seen_ts : ℕ
  pub rounds : ℕ
  pub abnormal_first_seen_ts : ℕ

abbrev pub States : Type 0
States = List (ℕ × MismatchState)

abbrev pub no_state : MismatchState
no_state = record { first_seen_ts = 0; rounds = 0; abnormal_first_seen_ts = 0 }

-- `_HEDGE_MISMATCH_STATE.get(sid) or {}`
abbrev pub state_of : ℕ → States → MismatchState
state_of i [] = no_state
state_of i ((j, s) ∷ more) = if j == i then s else state_of i more

-- `_HEDGE_MISMATCH_STATE.pop(sid, None)`
abbrev pub drop_state : ℕ → States → States
drop_state i states = keep_if (λ (j, _). not (j == i)) states

-- `_HEDGE_MISMATCH_STATE[sid] = state`; no code reads the order of the entries.
abbrev pub put_state : ℕ → MismatchState → States → States
put_state i s states = (i, s) ∷ drop_state i states

pub data Action : Type 0 where
  reduce_spot reduce_perp other_action : Action

pub data Reason : Type 0 where
  delta_mismatch_breach_epsilon spot_leg_snapshot_missing perp_leg_snapshot_missing : Reason
  fallback_close_due_missing_leg_snapshot by_mismatch : Reason
  fallback_close_invalid_repair_item fallback_close_after_reduce_failed : Reason

pub record RepairItem : Type 0 where
  pub strategy_id : ℕ
  pub row_id : String
  pub symbol : String
  pub action : Action
  pub reduce_base : ℕ
  pub reduce_notional_usd : ℕ
  pub reason_codes : List Reason

pub record FallbackItem : Type 0 where
  pub strategy_id : ℕ
  pub row_id : String
  pub symbol : String
  pub size_usd : ℕ
  pub reason_codes : List Reason

-- What is found of a hold. `unknown` is a hold that is passed over.
pub data Verdict : Type 0 where
  unknown data_unavailable within_epsilon pending guarded : Verdict
  fallback : FallbackItem → Verdict
  repair : RepairItem → Verdict

-- The legs in the database, both quantities, and the price.
pub record Reading : Type 0 where
  pub leg : LegSnapshot
  pub spot_base : ℕ
  pub perp_base : ℕ
  pub ref_price : ℕ

abbrev pub guard_ms : ℕ
guard_ms = 3000

-- `strategy.symbol or hold.symbol`
abbrev pub symbol_or : String → String → String
symbol_or s t = if text_eq s "" then t else s

abbrev pub ticker_of : Market → Option Exchange → String → ℕ
ticker_of m none symbol = 0
ticker_of m (some e) symbol = if text_eq symbol "" then 0 else m.ticker_price e.id symbol

abbrev pub reading_of : LegSnapshot → Option ℕ → Option ℕ → ℕ → Option Reading
reading_of leg none perp ref = none
reading_of leg (some s) none ref = none
reading_of leg (some s) (some p) ref =
    some (record { leg = leg; spot_base = s; perp_base = p; ref_price = ref })

unfoldable pub read_hold : Market → Session ℕ → Strategy ℕ → Hold → Option Reading
unfolding leg_snapshot fetch_live_perp_short_base
read_hold m db s h =
    let ex = find_exchange s.short_exchange_id db.exchanges in
    let symbol = symbol_or s.symbol h.symbol in
    let leg = leg_snapshot db h.strategy_id in
    let best = max leg.spot_price leg.perp_price in
    let ref = if best == 0 then ticker_of m ex symbol else best in
    reading_of leg (estimate_spot_base db h.strategy_id) (fetch_live_perp_short_base m ex symbol)
      ref

-- `epsilon_usd`
abbrev pub epsilon_usd : RepairConfig → ℕ → ℕ
epsilon_usd c nav_total = max c.delta_epsilon_abs_usd (nav_total * c.delta_epsilon_nav_pct / 100)

-- `mismatch_base <= epsilon_base`, with both sides multiplied by the price, one dollar at the least.
abbrev pub is_within : ℕ → Reading → Bool
is_within epsilon r = leb (distance r.spot_base r.perp_base * max 100 r.ref_price) epsilon

-- The perpetual reads as 0 while the database has one.
abbrev pub is_abnormal : Reading → Bool
is_abnormal r = (r.perp_base == 0) && ltb 0 r.leg.perp_size_base

abbrev pub or_now : ℕ → ℕ → ℕ
or_now t now = if ltb 0 t then t else now

abbrev pub next_state : ℕ → Reading → MismatchState → MismatchState
next_state now r s = record {
  first_seen_ts = or_now s.first_seen_ts now;
  rounds = s.rounds + 1;
  abnormal_first_seen_ts = if is_abnormal r then or_now s.abnormal_first_seen_ts now else 0;
}

abbrev pub should_repair : RepairConfig → ℕ → MismatchState → Bool
should_repair c now s =
    leb (max 1 c.repair_retry_rounds) s.rounds
    || leb (1000 * max 1 c.repair_timeout_secs) (now - s.first_seen_ts)

abbrev pub price_or : ℕ → ℕ → ℕ
price_or px ref = if ltb 0 px then px else ref

abbrev pub close_item : Hold → String → List Reason → Verdict
close_item h symbol reasons = fallback (record {
  strategy_id = h.strategy_id;
  row_id = h.row_id;
  symbol = symbol;
  size_usd = h.pair_notional_usd;
  reason_codes = reasons ++ fallback_close_due_missing_leg_snapshot ∷ [];
})

abbrev pub repair_item : Hold → String → Action → ℕ → ℕ → Verdict
repair_item h symbol action base price = repair (record {
  strategy_id = h.strategy_id;
  row_id = h.row_id;
  symbol = symbol;
  action = action;
  reduce_base = base;
  reduce_notional_usd = base * price;
  reason_codes = delta_mismatch_breach_epsilon ∷ by_mismatch ∷ [];
})
