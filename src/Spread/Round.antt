-- ===== src/Spread/Round.antt =====
-- The jobs of the engine one after another: `run_spread_arb` for the exits, and a trigger of entries.
use arbitrage_station.Base.{
  ℕ, ◌+◌, ◌≤◌, ◌≡◌, ◌⊎◌, inl, inr, refl, String, true, false, ◌&&◌, List, [], ◌∷◌, arith, ltb,
  if◌then◌else◌, if-both, length, Option, none, some,
}
use arbitrage_station.Trading.Store.{Session}
use arbitrage_station.Spread.{
  Market, SpreadPosition, SpreadWorld, Sent, Venue, is_open_spread, count_open,
}
use arbitrage_station.Spread.Entry.{SpreadConfig, Opportunity}
use arbitrage_station.Spread.Entry.Orders.{open_each}
use arbitrage_station.Spread.Entry.Caps.{IsCapped, count_symbol, open_each-IsCapped}
use arbitrage_station.Spread.Exit.{
  Attempts, is_stuck, both_legs, last_attempt, recover_cooldown_secs, fix_status, recover_one,
  recover_half_closed_positions, close_spread_position,
}
use arbitrage_station.Spread.Exit.Checks.{
  ExitConfig, ExitKind, check_exit, check_each, check_exits, close_for, exit_kind, marked,
}

module _ {A : Type 0} where
  -- A row after a step: in the same symbol, and open only if it was.
  abbrev Stays : SpreadPosition A → SpreadPosition A → Type 0
  Stays p q = (q.symbol ≡ p.symbol) × ((is_open_spread q ≡ false) ⊎ (is_open_spread p ≡ true))

  abbrev AllStay : List (SpreadPosition A) → List (SpreadPosition A) → Type 0
  AllStay [] [] = Unit
  AllStay (p ∷ ps) (q ∷ qs) = Stays p q × AllStay ps qs
  AllStay _ _ = Unit

  fewer_open :
      (sym : String) (ps qs : List (SpreadPosition A))
      → length ps ≡ length qs
      → AllStay ps qs
      → (count_open qs ≤ count_open ps) × (count_symbol sym qs ≤ count_symbol sym ps)
  fewer_open sym [] [] e h = omega arith
  fewer_open sym [] (q ∷ qs) e h = absurd (omega arith)
  fewer_open sym (p ∷ ps) [] e h = absurd (omega arith)
  fewer_open sym (p ∷ ps) (q ∷ qs) e (h, hs) = ground (arith, fewer_open sym ps qs)

  Stays-self : (p : SpreadPosition A) → Stays p p
  Stays-self p = ground arith

module _ (M : Market) (v : Venue M.Number) (db : Session M.Number) (now : ℕ) where
  not_open : (p : SpreadPosition M.Number) → is_stuck p ≡ true → is_open_spread p ≡ false
  not_open p h = ground arith

  recovered-Stays :
      (p : SpreadPosition M.Number) (seen : Attempts) (s : Sent M.Number)
      → Stays p (if is_stuck p then recover_one M v now db p seen s else (p, seen, s)).0
  unfolding recover_one
  recovered-Stays p seen s =
      let P = λ (r : SpreadPosition M.Number × Attempts × Sent M.Number). Stays p r.0 in
      let (a, b, _) = both_legs M v db false p s in
      let q = record p { short_closed = a; long_closed = b } in
      if-both P (is_stuck p)
        (λ stuck.
          if-both P (p.short_closed && p.long_closed) (λ _. (refl, inl refl))
            λ _.
              if-both P (ltb now (last_attempt p.id seen + recover_cooldown_secs))
                (λ _. (refl, inl (not_open p stuck)))
                λ _.
                  if-both (Stays p) (a && b) {x = fix_status now q} {y = q} (λ _. (refl, inl refl))
                    λ _. (refl, inl (not_open p stuck)))
        λ _. Stays-self p

  closed_for-Stays :
      (cfg : ExitConfig M.Number) (k : Option ExitKind) (p q : SpreadPosition M.Number)
      (sp lp : M.Number) (s : Sent M.Number)
      → is_open_spread p ≡ true
      → q.symbol ≡ p.symbol
      → Stays p (close_for M v now db cfg k q sp lp s).0
  unfolding close_for close_spread_position
  closed_for-Stays cfg none p q sp lp s h e = (e, inr h)
  closed_for-Stays cfg (some k) p q sp lp s h e = (e, inr h)

  checked-Stays :
      (cfg : ExitConfig M.Number) (p : SpreadPosition M.Number) (s : Sent M.Number)
      → Stays p (if is_open_spread p then check_exit M v now db cfg p s else (p, s)).0
  unfolding check_exit
  checked-Stays cfg p s =
      let P = λ (r : SpreadPosition M.Number × Sent M.Number). Stays p r.0 in
      let sp = v.get_price s p.high_exchange_id p.symbol in
      let lp = v.get_price s p.low_exchange_id p.symbol in
      if-both P (is_open_spread p)
        (λ is_open.
          if-both P (M.positive sp && M.positive lp)
            (λ _.
              closed_for-Stays cfg (exit_kind M v cfg p sp lp s) p (marked M p sp lp) sp lp s
                is_open refl)
            λ _. Stays-self p)
        λ _. Stays-self p

  recover-Stays :
      (ps : List (SpreadPosition M.Number)) (seen : Attempts) (s : Sent M.Number)
      → let qs = (recover_half_closed_positions M v now db ps seen s).0 in
        (length ps ≡ length qs) × AllStay ps qs
  unfolding recover_half_closed_positions
  recover-Stays [] seen s = (refl, tt)
  recover-Stays (p ∷ ps) seen s =
      let (_, seen', s') = if is_stuck p then recover_one M v now db p seen s else (p, seen, s) in
      let (e, h) = recover-Stays ps seen' s' in (omega (arith, e), (recovered-Stays p seen s, h))

  check-Stays :
      (cfg : ExitConfig M.Number) (ps : List (SpreadPosition M.Number)) (s : Sent M.Number)
      → let qs = (check_each M v now db cfg ps s).0 in (length ps ≡ length qs) × AllStay ps qs
  unfolding check_each
  check-Stays cfg [] s = (refl, tt)
  check-Stays cfg (p ∷ ps) s =
      let (_, s') = if is_open_spread p then check_exit M v now db cfg p s else (p, s) in
      let (e, h) = check-Stays cfg ps s' in (omega (arith, e), (checked-Stays cfg p s, h))

module _ (M : Market) (v : Venue M.Number) (now : ℕ) (exits : ExitConfig M.Number)
    (entries : SpreadConfig M.Number) where
  check_exits-IsCapped :
      (cap : ℕ) (w : SpreadWorld M.Number)
      → IsCapped cap w.spreads
      → IsCapped cap (check_exits M v now exits w).spreads
  unfolding check_exits
  check_exits-IsCapped cap w c =
      let (ps, _, s) =
        recover_half_closed_positions M v now w.db w.spreads w.last_recover_attempt w.sent in
      let (e, h) = recover-Stays M v w.db now w.spreads w.last_recover_attempt w.sent in
      let qs = (check_each M v now w.db exits ps s).0 in
      let (e2, h2) = check-Stays M v w.db now exits ps s in
      record {
        few =
            omega (arith, c.few, (fewer_open "" w.spreads ps e h).0, (fewer_open "" ps qs e2 h2).0);
        single = λ sym. omega (
          arith,
          c.single sym,
          (fewer_open sym w.spreads ps e h).1,
          (fewer_open sym ps qs e2 h2).1,
        );
      }

  -- If at most `max_positions` spread positions were open before and no two in one symbol, it is so after
  -- a round of exits and entries, however many opportunities there are and whatever the exchanges answer.
  pub round-IsCapped :
      (os : List (Opportunity M.Number)) (w : SpreadWorld M.Number)
      → IsCapped entries.max_positions w.spreads
      → IsCapped entries.max_positions
          (open_each M v now entries os (check_exits M v now exits w)).spreads
  round-IsCapped os w c =
      open_each-IsCapped M v now entries os (check_exits M v now exits w)
        (check_exits-IsCapped entries.max_positions w c)
