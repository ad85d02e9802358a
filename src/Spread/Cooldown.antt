-- ===== src/Spread/Cooldown.antt =====
-- The cooldown after a stop loss (`_in_cooldown`), against the reasons that the exits write.
use Prim.Native.Char.{code}
use text.Mathlib.TextLemmas.{nil-append, cons-append}
use Prim.Native.String.{◌++◌ as text_append}
use arbitrage_station.Base.{
  ℕ, ◌+◌, ltb, ◌∙◌, ◌≡◌, refl, String, Bool, true, false, ◌&&◌, Option, none, some, List, [], ◌∷◌,
  arith, if◌then◌else◌, if-both, All, not, ◌==◌,
}
use arbitrage_station.Trading.Store.{Session}
use arbitrage_station.Spread.{
  Market, SpreadPosition, SpreadWorld, Sent, Venue, in_cooldown, is_open_spread, mentions_stop_loss,
}
use arbitrage_station.Spread.Exit.{
  Attempts, last_attempt, recover_cooldown_secs, fix_status, both_legs, is_stuck, recover_one,
  recover_half_closed_positions,
}
use arbitrage_station.Spread.Exit.Checks.{
  ExitConfig, ExitKind, floating_take_profit, mean_reversion, stop_loss, pre_settlement_close,
  reason_head, check_exit, check_each, check_exits, close_for, exit_kind, marked,
}

-- No character of the text is the first one of the word that the cooldown looks for.
abbrev no_first : String → Bool
no_first String.[] = true
no_first (String.◌∷◌ c s) = not (code c == 27490) && no_first s

mentions-append :
    (a d : String) → no_first a ≡ true → mentions_stop_loss (text_append a d) ≡ mentions_stop_loss d
unfolding mentions_stop_loss
mentions-append String.[] d h = rw (nil-append d) refl
mentions-append (String.◌∷◌ c a) d h = rw (cons-append c a d) (ground (arith, mentions-append a d))

-- So no reason that the exits write has the word, unless its numbers do.
head_free : (k : ExitKind) → no_first (reason_head k) ≡ true
unfolding reason_head
head_free floating_take_profit = refl
head_free mean_reversion = refl
head_free stop_loss = refl
head_free pre_settlement_close = refl

module _ {A : Type 0} where
  abbrev pub Unmentioned : List (SpreadPosition A) → Type 0
  Unmentioned ps = All (λ p. mentions_stop_loss p.close_reason ≡ false) ps

  never_cooling :
      (now : ℕ) (ps : List (SpreadPosition A)) (sym : String) (high low secs : ℕ)
      → Unmentioned ps
      → in_cooldown now ps sym high low secs ≡ false
  unfolding in_cooldown
  never_cooling now [] sym high low secs h = refl
  never_cooling now (p ∷ ps) sym high low secs (h, hs) =
      ground (arith, never_cooling now ps sym high low secs hs)

module _ (M : Market) (v : Venue M.Number) (db : Session M.Number) (now : ℕ) where
  abbrev Free : SpreadPosition M.Number → Type 0
  Free p = mentions_stop_loss p.close_reason ≡ false

  recovered-Free :
      (p : SpreadPosition M.Number) (seen : Attempts) (s : Sent M.Number)
      → Free p
      → Free (if is_stuck p then recover_one M v now db p seen s else (p, seen, s)).0
  unfolding recover_one
  recovered-Free p seen s h =
      let P = λ (r : SpreadPosition M.Number × Attempts × Sent M.Number). Free r.0 in
      let (a, b, _) = both_legs M v db false p s in
      let q = record p { short_closed = a; long_closed = b } in
      if-both P (is_stuck p)
        (λ _.
          if-both P (p.short_closed && p.long_closed) (λ _. h)
            λ _.
              if-both P (ltb now (last_attempt p.id seen + recover_cooldown_secs)) (λ _. h)
                λ _. if-both Free (a && b) {x = fix_status now q} {y = q} (λ _. h) λ _. h)
        λ _. h

  recover_free :
      (ps : List (SpreadPosition M.Number)) (seen : Attempts) (s : Sent M.Number)
      → Unmentioned ps
      → Unmentioned (recover_half_closed_positions M v now db ps seen s).0
  unfolding recover_half_closed_positions
  recover_free [] seen s h = tt
  recover_free (p ∷ ps) seen s (h, hs) =
      let (_, seen', s') = if is_stuck p then recover_one M v now db p seen s else (p, seen, s) in
      (recovered-Free p seen s h, recover_free ps seen' s' hs)

  module _ (cfg : ExitConfig M.Number)
      (plain : (k : ExitKind) (p : SpreadPosition M.Number) (a b : M.Number)
        → mentions_stop_loss (cfg.details k p a b) ≡ false) where
    closed-Free :
        (k : Option ExitKind) (p : SpreadPosition M.Number) (sp lp : M.Number) (s : Sent M.Number)
        → Free p
        → Free (close_for M v now db cfg k p sp lp s).0
    unfolding close_for
    closed-Free none p sp lp s h = h
    closed-Free (some k) p sp lp s h =
        mentions-append (reason_head k) (cfg.details k p sp lp) (head_free k) ∙ plain k p sp lp

    checked-Free :
        (p : SpreadPosition M.Number) (s : Sent M.Number)
        → Free p
        → Free (if is_open_spread p then check_exit M v now db cfg p s else (p, s)).0
    unfolding check_exit
    checked-Free p s h =
        let P = λ (r : SpreadPosition M.Number × Sent M.Number). Free r.0 in
        let sp = v.get_price s p.high_exchange_id p.symbol in
        let lp = v.get_price s p.low_exchange_id p.symbol in
        if-both P (is_open_spread p)
          (λ _.
            if-both P (M.positive sp && M.positive lp)
              (λ _. closed-Free (exit_kind M v cfg p sp lp s) (marked M p sp lp) sp lp s h) λ _. h)
          λ _. h

    check_free :
        (ps : List (SpreadPosition M.Number)) (s : Sent M.Number)
        → Unmentioned ps
        → Unmentioned (check_each M v now db cfg ps s).0
    unfolding check_each
    check_free [] s h = tt
    check_free (p ∷ ps) s (h, hs) =
        let (_, s') = if is_open_spread p then check_exit M v now db cfg p s else (p, s) in
        (checked-Free p s h, check_free ps s' hs)

-- If no row's reason has the word for a stop loss that the cooldown looks for, and no number that a
-- reason prints has it, then after a pass of the exits, stop losses included, no row has it, and no pair
-- of exchanges is cooling down in any symbol, however long the cooldown is.
pub never_cools_down :
    (M : Market) (v : Venue M.Number) (now : ℕ) (cfg : ExitConfig M.Number)
    (w : SpreadWorld M.Number) (later : ℕ) (sym : String) (high low secs : ℕ)
    → ((k : ExitKind) (p : SpreadPosition M.Number) (a b : M.Number)
        → mentions_stop_loss (cfg.details k p a b) ≡ false)
    → Unmentioned w.spreads
    → let w' = check_exits M v now cfg w in
      (in_cooldown later w'.spreads sym high low secs ≡ false) × Unmentioned w'.spreads
unfolding check_exits
never_cools_down M v now cfg w later sym high low secs plain h =
    let (ps, _, s) =
      recover_half_closed_positions M v now w.db w.spreads w.last_recover_attempt w.sent in
    let free = recover_free M v w.db now w.spreads w.last_recover_attempt w.sent h in
    let kept = check_free M v w.db now cfg plain ps s free in
    (never_cooling later (check_each M v now w.db cfg ps s).0 sym high low secs kept, kept)
