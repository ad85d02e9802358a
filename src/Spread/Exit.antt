-- ===== src/Spread/Exit.antt =====
-- The close of a spread position and the retry of half-closed ones: `_close_spread_position` and
-- `_recover_half_closed_positions` (lifecycle.py). `now` is the time of the pass, in seconds.
-- While its legs are being closed a row is marked as `closing`, which no other step here sees; a crash in
-- between is left out.
pub mod Checks
pub mod Legs
pub mod Retries
use arbitrage_station.Base.{
  ℕ, ◌+◌, String, Bool, true, false, ◌&&◌, ◌||◌, not, Option, none, some, List, [], ◌∷◌, ltb, ◌==◌,
  if◌then◌else◌,
}
use arbitrage_station.Trading.Store.{Exchange, Side, Session, long, short, find_exchange, is_some}
use arbitrage_station.Spread.{
  Market, SpreadPosition, SpreadStatus, Sent, Venue, close_leg_with_retry,
}

-- The recent attempts at recovery, by position, the latest first.
abbrev pub Attempts : Type 0
Attempts = List (ℕ × ℕ)

-- `_last_recover_attempt.get(pos.id, 0)`
abbrev pub last_attempt : ℕ → Attempts → ℕ
last_attempt i [] = 0
last_attempt i ((j, t) ∷ r) = let rest = last_attempt i r in if i == j then t else rest

abbrev pub recover_cooldown_secs : ℕ
recover_cooldown_secs = 300

-- `if not pos.closed_at: pos.closed_at = utc_now()`
abbrev or_now : ℕ → Option ℕ → Option ℕ
or_now now none = some now
or_now now (some t) = some t

abbrev close_status : Bool → SpreadStatus
close_status b = if b then SpreadStatus.closed else SpreadStatus.error

module _ {A : Type 0} where
  abbrev pub is_stuck : SpreadPosition A → Bool
  is_stuck p = elim p.status [ SpreadStatus.error ↦ true | SpreadStatus.closing ↦ true | _ ↦ false ]

  -- What a recovery writes when both legs are confirmed.
  abbrev pub fix_status : ℕ → SpreadPosition A → SpreadPosition A
  fix_status now p = record p { status = SpreadStatus.closed; closed_at = or_now now p.closed_at }

module _ (M : Market) where
  -- One leg: skipped if it is confirmed; without an exchange or a size, it becomes `untouched`.
  unfoldable pub leg_step :
      Venue M.Number
      → Bool
      → Option Exchange
      → ℕ
      → String
      → Side
      → M.Number
      → Bool
      → Sent M.Number
      → Bool × Sent M.Number
  unfolding close_leg_with_retry
  leg_step v untouched ex e sym side size flag s =
      if flag
      then (true, s)
      else if is_some ex && M.positive size
      then close_leg_with_retry M 3 v e sym side size s
      else (untouched, s)

  -- Both legs, the short one first
  unfoldable pub both_legs :
      Venue M.Number
      → Session M.Number
      → Bool
      → SpreadPosition M.Number
      → Sent M.Number
      → Bool × Bool × Sent M.Number
  unfolding leg_step
  both_legs v db untouched p s =
      let (a, s1) =
        leg_step v untouched (find_exchange p.high_exchange_id db.exchanges) p.high_exchange_id
          p.symbol short p.short_size_base p.short_closed s in
      let (b, s2) =
        leg_step v untouched (find_exchange p.low_exchange_id db.exchanges) p.low_exchange_id
          p.symbol long p.long_size_base p.long_closed s1 in
      (a, b, s2)

  abbrev or_price : M.Number → M.Number → M.Number
  or_price a b = if M.is_zero a then b else a

  -- The profit of both legs at the latest prices, less the fees of the four orders
  abbrev realized_pnl : SpreadPosition M.Number → M.Number → M.Number → M.Number
  realized_pnl p sp lp =
      let short_pnl =
        if M.positive sp
        then M.mul (M.sub p.short_entry_price sp) p.short_size_base
        else M.nothing in
      let long_pnl =
        if M.positive lp then M.mul (M.sub lp p.long_entry_price) p.long_size_base else M.nothing in
      let fee = λ (price size : M.Number). M.mul (M.mul price size) M.fee_rate in
      let fee_cost =
        M.add
          (M.add
            (M.add (fee p.short_entry_price p.short_size_base)
              (fee p.long_entry_price p.long_size_base))
            (fee (or_price sp p.short_entry_price) p.short_size_base))
          (fee (or_price lp p.long_entry_price) p.long_size_base) in
      M.round6 (M.sub (M.add short_pnl long_pnl) fee_cost)

  -- `_close_spread_position`
  unfoldable pub close_spread_position :
      Venue M.Number
      → ℕ
      → Session M.Number
      → SpreadPosition M.Number
      → String
      → Sent M.Number
      → SpreadPosition M.Number × Sent M.Number
  unfolding both_legs
  close_spread_position v now db p reason s =
      let (a, b, s') = both_legs v db true p s in
      let sp = or_price (v.get_price s' p.high_exchange_id p.symbol) p.short_current_price in
      let lp = or_price (v.get_price s' p.low_exchange_id p.symbol) p.long_current_price in
      (
        record p {
          short_closed = a;
          long_closed = b;
          realized_pnl_usd = realized_pnl p sp lp;
          status = close_status (a && b);
          close_reason = reason;
          closed_at = some now;
        },
        s',
      )

  -- One stuck position, with the attempts so far.
  unfoldable pub recover_one :
      Venue M.Number
      → ℕ
      → Session M.Number
      → SpreadPosition M.Number
      → Attempts
      → Sent M.Number
      → SpreadPosition M.Number × Attempts × Sent M.Number
  unfolding both_legs
  recover_one v now db p seen s =
      let (a, b, s') = both_legs v db false p s in
      let q = record p { short_closed = a; long_closed = b } in
      if p.short_closed && p.long_closed
      then (fix_status now p, seen, s)
      else if ltb now (last_attempt p.id seen + recover_cooldown_secs)
      then (p, seen, s)
      else (if a && b then fix_status now q else q, (p.id, now) ∷ seen, s')

  -- `_recover_half_closed_positions`, over all rows: those that are not stuck stay as they are.
  unfoldable pub recover_half_closed_positions :
      Venue M.Number
      → ℕ
      → Session M.Number
      → List (SpreadPosition M.Number)
      → Attempts
      → Sent M.Number
      → List (SpreadPosition M.Number) × Attempts × Sent M.Number
  unfolding recover_one
  recover_half_closed_positions v now db [] seen s = ([], seen, s)
  recover_half_closed_positions v now db (p ∷ ps) seen s =
      let (q, seen', s') = if is_stuck p then recover_one v now db p seen s else (p, seen, s) in
      let (qs, seen'', s'') = recover_half_closed_positions v now db ps seen' s' in
      (q ∷ qs, seen'', s'')
