-- ===== src/Trading/SpotHedge/Hedged.antt =====
-- After `open` has placed its orders, the rows tell which legs the exchanges hold, and a leg without
-- the other is held only if its emergency close was refused.
use arbitrage_station.Base.{
  ℕ, ◌+◌, ◌≡◌, ◌≢◌, ◌⊎◌, inl, inr, refl, true, false, Option, none, some, List, [], ◌∷◌, ◌++◌, map,
  Option-cases,
}
use arbitrage_station.Trading.Held.{not-Held-closed, not-Held-other}
use arbitrage_station.Trading.Store.{
  Real, PositionStatus, Order, LegError, Gateway, World, Call, opened, closed, error,
}
use arbitrage_station.Trading.SpotHedge.{Legs, place_legs, place_perp, place_spot_leg}
use arbitrage_station.Trading.SpotHedge.Rows.{leg_of, new_legs, place_legs-legs}
use arbitrage_station.Trading.SpotHedge.Books.{
  IsOlder, IsPerpHeld, IsSpotHeld, status_at, is_opened, perp_call, spot_call, unwind_call, Ends,
  both_placed, perp_refused, unwound_leg, stuck_leg,
}

module _ (R : Real) (g : Gateway R.Number) (now : ℕ) (l : Legs R.Number) (w : World R.Number) where
  abbrev after : World R.Number
  after = (place_legs R g now l w).1

  abbrev first : Option (Order R.Number)
  first = g.answer w.sent (perp_call l)

  abbrev second : Option (Order R.Number) → Option (Order R.Number)
  second r = g.answer ((perp_call l, r) ∷ w.sent) (spot_call l)

  abbrev third : Option (Order R.Number) → Option (Order R.Number)
  third r = g.answer ((spot_call l, none) ∷ (perp_call l, r) ∷ w.sent) (unwind_call l)

  -- The four ways in which `open` can end.
  data Ending : Type 0 where
    both :
        (a b : Order R.Number)
        → Ends R g now l w opened opened
            ((spot_call l, some b) ∷ (perp_call l, some a) ∷ w.sent)
            after
        → (place_legs R g now l w).0 ≡ []
        → Ending
    neither :
        Ends R g now l w error error ((perp_call l, none) ∷ w.sent) after
        → (place_legs R g now l w).0 ≡ LegError.perp_short_failed ∷ []
        → Ending
    unwound :
        (a c : Order R.Number)
        → Ends R g now l w closed error
            ((unwind_call l, some c) ∷ (spot_call l, none) ∷ (perp_call l, some a) ∷ w.sent)
            after
        → (place_legs R g now l w).0 ≡ LegError.spot_buy_failed ∷ []
        → Ending
    stuck :
        (a : Order R.Number)
        → Ends R g now l w opened error
            ((unwind_call l, none) ∷ (spot_call l, none) ∷ (perp_call l, some a) ∷ w.sent)
            after
        → (place_legs R g now l w).0 ≡ LegError.spot_buy_failed ∷ []
        → Ending

  errors_both :
      (a b : Order R.Number)
      → first ≡ some a
      → second (some a) ≡ some b
      → (place_legs R g now l w).0 ≡ []
  unfolding place_legs place_perp place_spot_leg
  errors_both a b ea eb = rw (ea, place_legs, place_perp) (rw eb refl)

  errors_spot :
      (a : Order R.Number)
      → first ≡ some a
      → second (some a) ≡ none
      → (place_legs R g now l w).0 ≡ LegError.spot_buy_failed ∷ []
  unfolding place_legs place_perp place_spot_leg
  errors_spot a ea eb = rw (ea, place_legs, place_perp) (rw eb refl)

  errors_perp : first ≡ none → (place_legs R g now l w).0 ≡ LegError.perp_short_failed ∷ []
  unfolding place_legs place_perp place_spot_leg
  errors_perp ea = rw (ea, place_legs, place_perp) refl

  module _ (o : IsOlder w.db.next_id l.strategy_id w.db.positions) where
    ending_third : (a : Order R.Number) → first ≡ some a → second (some a) ≡ none → Ending
    ending_third a ea eb = elim (Option-cases (third (some a))) [
      | inl ec ↦ stuck a (stuck_leg R g now l w o a ea eb ec) (errors_spot a ea eb)
      | inr (c, ec) ↦ unwound a c (unwound_leg R g now l w o a c ea eb ec) (errors_spot a ea eb)
    ]

    ending_second : (a : Order R.Number) → first ≡ some a → Ending
    ending_second a ea = elim (Option-cases (second (some a))) [
      | inl eb ↦ ending_third a ea eb
      | inr (b, eb) ↦ both a b (both_placed R g now l w o a b ea eb) (errors_both a b ea eb)
    ]

    ending : Ending
    ending = elim (Option-cases first) [
      | inl ea ↦ neither (perp_refused R g now l w o ea) (errors_perp ea)
      | inr (a, ea) ↦ ending_second a ea
    ]

  -- The row of a leg is open if the exchange holds that leg, and only then.
  abbrev pub Agrees : Option PositionStatus → Type 0 → Type 0
  Agrees st Leg = ((is_opened st ≡ true) × Leg) ⊎ ((is_opened st ≡ false) × (¬ Leg))

  -- The rows agree with the exchanges.
  abbrev pub BooksMatch : World R.Number → Type 0
  BooksMatch w' =
      Agrees (status_at w.db.next_id w'.db.positions) (IsPerpHeld l w'.sent)
      × Agrees (status_at (w.db.next_id + 1) w'.db.positions) (IsSpotHeld l w'.sent)

  -- Both legs and no error; or no leg and an error; or the short leg alone, with an error, after an
  -- emergency close of that leg that was refused.
  abbrev pub IsHedged : List LegError → World R.Number → Type 0
  IsHedged errors w' =
      ((errors ≡ []) × IsPerpHeld l w'.sent × IsSpotHeld l w'.sent)
      ⊎ ((errors ≢ []) × (¬ IsPerpHeld l w'.sent) × (¬ IsSpotHeld l w'.sent))
      ⊎ ((errors ≢ [])
          × IsPerpHeld l w'.sent
          × (¬ IsSpotHeld l w'.sent)
          × ((sent : List (Call R.Number × Option (Order R.Number))) × (w'.sent
                ≡ (unwind_call l, none) ∷ sent)))

  module _ (no_perp : ¬ IsPerpHeld l w.sent) (no_spot : ¬ IsSpotHeld l w.sent) where
    -- The orders when the spot order has been refused.
    abbrev half : Order R.Number → List (Call R.Number × Option (Order R.Number))
    half a = (spot_call l, none) ∷ (perp_call l, some a) ∷ w.sent

    no_spot_half : (a : Order R.Number) → ¬ IsSpotHeld l (half a)
    no_spot_half a = not-Held-other _ _ (perp_call l) a w.sent (λ e. cc) no_spot

    no_spot_unwound : (a c : Order R.Number) → ¬ IsSpotHeld l ((unwind_call l, some c) ∷ half a)
    no_spot_unwound a c = not-Held-other _ _ (unwind_call l) c (half a) (λ e. cc) (no_spot_half a)

    no_perp_unwound : (a c : Order R.Number) → ¬ IsPerpHeld l ((unwind_call l, some c) ∷ half a)
    no_perp_unwound a c = not-Held-closed _ _ (unwind_call l) c (half a) (λ e. cc) refl

    books_of : Ending → BooksMatch after
    books_of (both a b e _) =
        rw (e.0, e.1, e.2) (inl (refl, inr ((λ x. cc), inl refl)), inl (refl, inl refl))
    books_of (neither e _) = rw (e.0, e.1, e.2) (inr (refl, no_perp), inr (refl, no_spot))
    books_of (unwound a c e _) =
        rw (e.0, e.1, e.2) (inr (refl, no_perp_unwound a c), inr (refl, no_spot_unwound a c))
    books_of (stuck a e _) = rw (e.0, e.1, e.2) (inl (refl, inl refl), inr (refl, no_spot_half a))

    IsHedged-of : Ending → IsHedged (place_legs R g now l w).0 after
    IsHedged-of (both a b e x) = rw (e.2, x) (inl (refl, inr ((λ y. cc), inl refl), inl refl))
    IsHedged-of (neither e x) = rw (e.2, x) (inr (inl ((λ p. cc), no_perp, no_spot)))
    IsHedged-of (unwound a c e x) =
        rw (e.2, x) (inr (inl ((λ p. cc), no_perp_unwound a c, no_spot_unwound a c)))
    IsHedged-of (stuck a e x) =
        rw (e.2, x) (inr (inr ((λ p. cc), inl refl, no_spot_half a, (_, refl))))

-- A leg is held if the latest answered order that opens or closes exactly that leg, on its exchange and
-- with its symbol, side and size, opened it. When `open` has placed its orders, whatever the exchanges
-- answered, it has added two rows, with the exchange, symbol, side, market and size of the two legs, and
-- the row of each leg is open if the exchange holds that leg and is not open if it does not, provided
-- that neither leg was held before and that the older rows have smaller numbers and belong to other
-- strategies.
pub open_books :
    (R : Real) (g : Gateway R.Number) (now : ℕ) (l : Legs R.Number) (w : World R.Number)
    → IsOlder w.db.next_id l.strategy_id w.db.positions
    → ¬ IsPerpHeld l w.sent
    → ¬ IsSpotHeld l w.sent
    → let w' = (place_legs R g now l w).1 in
      (map leg_of w'.db.positions ≡ map leg_of w.db.positions ++ new_legs l w.db.next_id)
      × BooksMatch R g now l w w'
open_books R g now l w o a b =
    (place_legs-legs R g now l w, books_of R g now l w a b (ending R g now l w o))

-- Under the same conditions `open` ends with both legs held and no error, or with no leg held and an
-- error, or with an error and the short leg alone; the last only if the last order was the emergency
-- close of that leg, and was refused.
open-IsHedged :
    (R : Real) (g : Gateway R.Number) (now : ℕ) (l : Legs R.Number) (w : World R.Number)
    → IsOlder w.db.next_id l.strategy_id w.db.positions
    → ¬ IsPerpHeld l w.sent
    → ¬ IsSpotHeld l w.sent
    → let (errors, w') = place_legs R g now l w in IsHedged R g now l w errors w'
open-IsHedged R g now l w o a b = IsHedged-of R g now l w a b (ending R g now l w o)
