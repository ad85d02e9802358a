-- ===== src/Spread/Exit/Checks/Backed.antt =====
-- A pass of `_check_exits` over all rows keeps them true to what was seen of the legs.
use arbitrage_station.Base.{
  ℕ, ◌≡◌, refl, Bool, true, false, ◌&&◌, Option, none, some, List, [], ◌∷◌, arith, ltb, ◌+◌,
  if◌then◌else◌, if-both,
}
use arbitrage_station.Trading.Store.{Session}
use arbitrage_station.Spread.{Market, SpreadPosition, SpreadWorld, Sent, Venue, is_open_spread}
use arbitrage_station.Spread.Exit.{
  Attempts, is_stuck, both_legs, last_attempt, recover_cooldown_secs, fix_status, recover_one,
  recover_half_closed_positions,
}
use arbitrage_station.Spread.Exit.Checks.{
  ExitConfig, ExitKind, check_exits, check_each, check_exit, close_for, close_reason, exit_kind,
  marked,
}
use arbitrage_station.Spread.Exit.Legs.{
  Later, Backed, IsBacked, LegsOk, IsBacked-Later, both_legs_ok, both_legs-Later, close-IsBacked,
  close-Later,
}

module _ (M : Market) (v : Venue M.Number) (db : Session M.Number) where
  retried-IsBacked :
      (now : ℕ) (p : SpreadPosition M.Number) (a b : Bool) (s : Sent M.Number)
      → is_stuck p ≡ true
      → LegsOk M v db s p a b
      → let q = record p { short_closed = a; long_closed = b } in
        IsBacked M v db s (if a && b then fix_status now q else q)
  retried-IsBacked now p true true s stuck h = record { marked = refl; legs = h }
  retried-IsBacked now p true false s stuck h = record { marked = ground arith; legs = h }
  retried-IsBacked now p false b s stuck h = record { marked = ground arith; legs = h }

  recover_one-IsBacked :
      (now : ℕ) (p : SpreadPosition M.Number) (seen : Attempts) (s : Sent M.Number)
      → is_stuck p ≡ true
      → IsBacked M v db s p
      → let (q, _, s') = recover_one M v now db p seen s in IsBacked M v db s' q
  unfolding recover_one
  recover_one-IsBacked now p seen s stuck h =
      let (a, b, s') = both_legs M v db false p s in
      let Fits =
        λ (r : SpreadPosition M.Number × Attempts × Sent M.Number). IsBacked M v db r.2 r.0 in
      if-both Fits (p.short_closed && p.long_closed)
        (λ both. record { marked = both; legs = h.legs })
        λ _.
          if-both Fits (ltb now (last_attempt p.id seen + recover_cooldown_secs)) (λ _. h)
            λ _. retried-IsBacked now p a b s' stuck (both_legs_ok M v db false p s h.legs)

  recover_one-Later :
      (now : ℕ) (p : SpreadPosition M.Number) (seen : Attempts) (s : Sent M.Number)
      → Later M v s (recover_one M v now db p seen s).2
  unfolding recover_one
  recover_one-Later now p seen s =
      let Fits = λ (r : SpreadPosition M.Number × Attempts × Sent M.Number). Later M v s r.2 in
      if-both Fits (p.short_closed && p.long_closed) (λ _ e sym side h. h)
        λ _.
          if-both Fits (ltb now (last_attempt p.id seen + recover_cooldown_secs))
            (λ _ e sym side h. h) λ _. both_legs-Later M v db false p s

  all-Later :
      (s s' : Sent M.Number) (ps : List (SpreadPosition M.Number))
      → Later M v s s'
      → Backed M v db ps s
      → Backed M v db ps s'
  all-Later s s' [] later h = tt
  all-Later s s' (p ∷ ps) later (h, hs) =
      (IsBacked-Later M v db s s' p later h, all-Later s s' ps later hs)

  -- A row that is backed after its step, and the rest of the pass.
  cons-Backed :
      (s s1 s2 : Sent M.Number) (q : SpreadPosition M.Number) (qs : List (SpreadPosition M.Number))
      → IsBacked M v db s1 q × Later M v s s1
      → Backed M v db qs s2 × Later M v s1 s2
      → Backed M v db (q ∷ qs) s2 × Later M v s s2
  cons-Backed s s1 s2 q qs (h, first) (hs, second) = (
    (IsBacked-Later M v db s1 s2 q second h, hs),
    λ e sym side k. second e sym side (first e sym side k),
  )

  recover_row :
      (now : ℕ) (p : SpreadPosition M.Number) (seen : Attempts) (s : Sent M.Number)
      → IsBacked M v db s p
      → let (q, _, s') = if is_stuck p then recover_one M v now db p seen s else (p, seen, s) in
        IsBacked M v db s' q × Later M v s s'
  recover_row now p seen s h =
      if-both
        (λ (r : SpreadPosition M.Number × Attempts × Sent M.Number).
          IsBacked M v db r.2 r.0 × Later M v s r.2)
        (is_stuck p)
        (λ stuck. (recover_one-IsBacked now p seen s stuck h, recover_one-Later now p seen s))
        λ _. (h, λ e sym side k. k)

  recover-Backed :
      (now : ℕ) (ps : List (SpreadPosition M.Number)) (seen : Attempts) (s : Sent M.Number)
      → Backed M v db ps s
      → let (qs, _, s') = recover_half_closed_positions M v now db ps seen s in
        Backed M v db qs s' × Later M v s s'
  unfolding recover_half_closed_positions
  recover-Backed now [] seen s h = (tt, λ e sym side k. k)
  recover-Backed now (p ∷ ps) seen s (h, hs) =
      let (q, seen', s1) = if is_stuck p then recover_one M v now db p seen s else (p, seen, s) in
      let (qs, _, s2) = recover_half_closed_positions M v now db ps seen' s1 in
      let row = recover_row now p seen s h in
      cons-Backed s s1 s2 q qs row (recover-Backed now ps seen' s1 (all-Later s s1 ps row.1 hs))

  close_for-IsBacked :
      (now : ℕ) (cfg : ExitConfig M.Number) (k : Option ExitKind) (p : SpreadPosition M.Number)
      (sp lp : M.Number) (s : Sent M.Number)
      → IsBacked M v db s p
      → let (q, s') = close_for M v now db cfg k p sp lp s in IsBacked M v db s' q × Later M v s s'
  unfolding close_for
  close_for-IsBacked now cfg none p sp lp s h = (h, λ e sym side k. k)
  close_for-IsBacked now cfg (some k) p sp lp s h =
      let reason = close_reason M cfg k p sp lp in
      (close-IsBacked M v db now p reason s h, close-Later M v db now p reason s)

  check_exit-IsBacked :
      (now : ℕ) (cfg : ExitConfig M.Number) (p : SpreadPosition M.Number) (s : Sent M.Number)
      → IsBacked M v db s p
      → let (q, s') = check_exit M v now db cfg p s in IsBacked M v db s' q × Later M v s s'
  unfolding check_exit
  check_exit-IsBacked now cfg p s h =
      let sp = v.get_price s p.high_exchange_id p.symbol in
      let lp = v.get_price s p.low_exchange_id p.symbol in
      if-both
        (λ (r : SpreadPosition M.Number × Sent M.Number). IsBacked M v db r.1 r.0 × Later M v s r.1)
        (M.positive sp && M.positive lp)
        (λ _.
          close_for-IsBacked now cfg (exit_kind M v cfg p sp lp s) (marked M p sp lp) sp lp s
            (record { marked = h.marked; legs = h.legs }))
        λ _. (h, λ e sym side k. k)

  check_row :
      (now : ℕ) (cfg : ExitConfig M.Number) (p : SpreadPosition M.Number) (s : Sent M.Number)
      → IsBacked M v db s p
      → let (q, s') = if is_open_spread p then check_exit M v now db cfg p s else (p, s) in
        IsBacked M v db s' q × Later M v s s'
  check_row now cfg p s h =
      if-both
        (λ (r : SpreadPosition M.Number × Sent M.Number). IsBacked M v db r.1 r.0 × Later M v s r.1)
        (is_open_spread p) (λ _. check_exit-IsBacked now cfg p s h) λ _. (h, λ e sym side k. k)

  check-Backed :
      (now : ℕ) (cfg : ExitConfig M.Number) (ps : List (SpreadPosition M.Number))
      (s : Sent M.Number)
      → Backed M v db ps s
      → let (qs, s') = check_each M v now db cfg ps s in Backed M v db qs s' × Later M v s s'
  unfolding check_each
  check-Backed now cfg [] s h = (tt, λ e sym side k. k)
  check-Backed now cfg (p ∷ ps) s (h, hs) =
      let (q, s1) = if is_open_spread p then check_exit M v now db cfg p s else (p, s) in
      let (qs, s2) = check_each M v now db cfg ps s1 in
      let row = check_row now cfg p s h in
      cons-Backed s s1 s2 q qs row (check-Backed now cfg ps s1 (all-Later s s1 ps row.1 hs))

-- If before a pass of the exits every row is backed by what was seen on the exchanges, so is every row
-- after it: a closed position has both legs closed, an open one none, one with an error not both; and a
-- leg counts as closed only if right after an answered request to close it the exchange did not list it,
-- or its exchange has no row, or its size is not positive.
pub check_exits-IsBacked :
    (M : Market) (v : Venue M.Number) (now : ℕ) (cfg : ExitConfig M.Number)
    (w : SpreadWorld M.Number)
    → Backed M v w.db w.spreads w.sent
    → let w' = check_exits M v now cfg w in Backed M v w.db w'.spreads w'.sent
unfolding check_exits
check_exits-IsBacked M v now cfg w h =
    let (ps, _, s) =
      recover_half_closed_positions M v now w.db w.spreads w.last_recover_attempt w.sent in
    let (hs, _) = recover-Backed M v w.db now w.spreads w.last_recover_attempt w.sent h in
    (check-Backed M v w.db now cfg ps s hs).0
