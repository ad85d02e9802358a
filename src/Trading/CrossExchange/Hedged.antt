-- ===== src/Trading/CrossExchange/Hedged.antt =====
-- Which legs are held on the two exchanges after a pair has been opened. A leg is given by the exchange,
-- the symbol, the side and the size of the order that opens it.
use arbitrage_station.Base.{
  ℕ, ◌≡◌, ◌≢◌, ◌⊎◌, inl, inr, refl, Option, none, some, List, [], ◌∷◌, Option-cases,
}
use arbitrage_station.Trading.Held.{Held, not-Held-closed, not-Held-other}
use arbitrage_station.Trading.Store.{
  Real, Side, long, short, LegError, Call, Order, Gateway, World, place_hedge, close_hedge,
}
use arbitrage_station.Trading.CrossExchange.{
  Pair, exchange_of, opening_side, place_leg, unwind_leg, place_pair,
}

module _ {A : Type 0} (p : Pair A) where
  -- The order that opens the leg of a side, and the one that closes it whole.
  abbrev pub open_call : Side → Call A
  open_call s =
      place_hedge (exchange_of s p).id p.symbol (opening_side s) p.contract_size p.leverage

  abbrev pub close_call : Side → Call A
  close_call s = close_hedge (exchange_of s p).id p.symbol s p.contract_size

  abbrev pub IsLegHeld : Side → List (Call A × Option (Order A)) → Type 0
  IsLegHeld s = Held (λ c _. c ≡ open_call s) (λ c. c ≡ close_call s)

  abbrev other_side : Side → Side
  other_side long = short
  other_side short = long

  -- Both legs and no error; or neither leg and an error; or one leg alone, with an error, after the
  -- order that closes it was refused.
  abbrev pub IsPairHedged : List LegError → List (Call A × Option (Order A)) → Type 0
  IsPairHedged errors sent =
      ((errors ≡ []) × IsLegHeld long sent × IsLegHeld short sent)
      ⊎ ((errors ≢ []) × (¬ IsLegHeld long sent) × (¬ IsLegHeld short sent))
      ⊎ ((errors ≢ [])
          × ((s : Side) × (before : List (Call A × Option (Order A))) × (sent
                ≡ (close_call s, none) ∷ before)
              × IsLegHeld s sent
              × (¬ IsLegHeld (other_side s) sent)))

module _ (R : Real) (g : Gateway R.Number) (now : ℕ) (p : Pair R.Number) (w : World R.Number)
    (no_long : ¬ IsLegHeld p long w.sent) (no_short : ¬ IsLegHeld p short w.sent) where
  abbrev Goal : Type 0
  Goal = IsPairHedged p (place_pair R g now p w).0 (place_pair R g now p w).1.sent

  both_answered :
      (a b : Order R.Number)
      → g.answer w.sent (open_call p long) ≡ some a
      → g.answer ((open_call p long, some a) ∷ w.sent) (open_call p short) ≡ some b
      → Goal
  unfolding place_pair place_leg
  both_answered a b ea eb =
      rw (ea, place_pair, place_leg) (rw eb (inl (refl, inr ((λ e. cc), inl refl), inl refl)))

  neither_answered :
      g.answer w.sent (open_call p long) ≡ none
      → g.answer ((open_call p long, none) ∷ w.sent) (open_call p short) ≡ none
      → Goal
  unfolding place_pair place_leg
  neither_answered ea eb =
      rw (ea, place_pair, place_leg) (rw eb (inr (inl ((λ e. cc), no_long, no_short))))

  -- The orders after one leg alone was answered.
  abbrev long_alone : Order R.Number → List (Call R.Number × Option (Order R.Number))
  long_alone a = (open_call p short, none) ∷ (open_call p long, some a) ∷ w.sent

  abbrev short_alone : Order R.Number → List (Call R.Number × Option (Order R.Number))
  short_alone b = (open_call p short, some b) ∷ (open_call p long, none) ∷ w.sent

  no_short_held : (a : Order R.Number) → ¬ IsLegHeld p short (long_alone a)
  no_short_held a = not-Held-other _ _ (open_call p long) a w.sent (λ e. cc) no_short

  no_long_held : (b : Order R.Number) → ¬ IsLegHeld p long (short_alone b)
  no_long_held b =
      not-Held-other _ _ (open_call p short) b ((open_call p long, none) ∷ w.sent) (λ e. cc) no_long

  long_answered :
      (a : Order R.Number)
      → g.answer w.sent (open_call p long) ≡ some a
      → g.answer ((open_call p long, some a) ∷ w.sent) (open_call p short) ≡ none
      → Goal
  unfolding place_pair place_leg unwind_leg
  long_answered a ea eb = elim (Option-cases (g.answer (long_alone a) (close_call p long))) [
    | inl ec ↦
        rw (ea, place_pair, place_leg)
          (rw eb (
            rw (ec, unwind_leg)
              (inr (inr ((λ e. cc), (long, long_alone a, refl, inl refl, no_short_held a))))))
    | inr (c, ec) ↦
        rw (ea, place_pair, place_leg)
          (rw eb (
            rw (ec, unwind_leg)
              (inr (
                inl (
                  (λ e. cc),
                  not-Held-closed _ _ (close_call p long) c (long_alone a) (λ e. cc) refl,
                  not-Held-other _ _ (close_call p long) c (long_alone a) (λ e. cc)
                      (no_short_held a),
                )))))
  ]

  short_answered :
      (b : Order R.Number)
      → g.answer w.sent (open_call p long) ≡ none
      → g.answer ((open_call p long, none) ∷ w.sent) (open_call p short) ≡ some b
      → Goal
  unfolding place_pair place_leg unwind_leg
  short_answered b ea eb = elim (Option-cases (g.answer (short_alone b) (close_call p short))) [
    | inl ec ↦
        rw (ea, place_pair, place_leg)
          (rw eb (
            rw (ec, unwind_leg)
              (inr (inr ((λ e. cc), (short, short_alone b, refl, inl refl, no_long_held b))))))
    | inr (c, ec) ↦
        rw (ea, place_pair, place_leg)
          (rw eb (
            rw (ec, unwind_leg)
              (inr (
                inl (
                  (λ e. cc),
                  not-Held-other _ _ (close_call p short) c (short_alone b) (λ e. cc)
                      (no_long_held b),
                  not-Held-closed _ _ (close_call p short) c (short_alone b) (λ e. cc) refl,
                )))))
  ]

  hedged : Goal
  hedged = elim (Option-cases (g.answer w.sent (open_call p long))) [
    | inl ea ↦
        elim (Option-cases (g.answer ((open_call p long, none) ∷ w.sent) (open_call p short))) [
          | inl eb ↦ neither_answered ea eb
          | inr (b, eb) ↦ short_answered b ea eb
        ]
    | inr (a, ea) ↦
        elim (Option-cases (g.answer ((open_call p long, some a) ∷ w.sent) (open_call p short))) [
          | inl eb ↦ long_answered a ea eb
          | inr (b, eb) ↦ both_answered a b ea eb
        ]
  ]

-- A leg is held if the latest answered order that opens or closes exactly that leg, on its exchange and
-- with its symbol, side and size, opened it. From neither leg held, opening a pair ends with both legs
-- held and no error; or with an error and neither leg held; or with an error and one leg held alone,
-- and then the latest order is the emergency close of that very leg, which its exchange refused.
pub place_pair_hedged :
    (R : Real) (g : Gateway R.Number) (now : ℕ) (p : Pair R.Number) (w : World R.Number)
    → ¬ IsLegHeld p long w.sent
    → ¬ IsLegHeld p short w.sent
    → let (errors, w') = place_pair R g now p w in IsPairHedged p errors w'.sent
place_pair_hedged R g now p w no_long no_short = hedged R g now p w no_long no_short
