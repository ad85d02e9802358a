-- ===== src/Trading/SpotHedge/Rows.antt =====
-- What the rows of `open` say of the legs, apart from their status and prices.
use arbitrage_station.Base.{ℕ, ◌+◌, ◌≡◌, refl, String, Option, List, [], ◌∷◌, ◌++◌, map, arith}
use arbitrage_station.Trading.Store.{
  Real, Side, Position, PositionType, PositionStatus, Order, LegError, Gateway, World, set_position,
  with_status, store, short, long, error,
}
use arbitrage_station.Trading.SpotHedge.{
  Legs, place_legs, place_perp, place_spot_leg, handle_open_error,
}

module _ {A : Type 0} where
  -- The number, the strategy, the exchange, the symbol, the side, the market and the size.
  abbrev pub leg_of : Position A → ℕ × ℕ × ℕ × String × Side × PositionType × A
  leg_of p = (p.id, p.strategy_id, p.exchange_id, p.symbol, p.side, p.position_type, p.size)

  -- The legs of `open`, as rows from the number `n` on.
  abbrev pub new_legs : Legs A → ℕ → List (ℕ × ℕ × ℕ × String × Side × PositionType × A)
  new_legs l n =
      (n, l.strategy_id, l.perp_ex.id, l.symbol, short, PositionType.swap, l.perp_size)
      ∷ (n + 1, l.strategy_id, l.spot_ex.id, l.spot_symbol, long, PositionType.spot, l.spot_size)
      ∷ []

  pub legs-store : (ps : List (Position A)) → map leg_of (map store ps) ≡ map leg_of ps
  legs-store [] = refl
  legs-store (p ∷ ps) = ground (arith, legs-store ps)

  legs-set :
      (k : ℕ) (st : PositionStatus) (t : Option ℕ) (ps : List (Position A))
      → map leg_of (set_position k (with_status st t) ps) ≡ map leg_of ps
  legs-set k st t [] = refl
  legs-set k st t (p ∷ ps) = ground (arith, legs-set k st t ps)

  legs-mark :
      (k : ℕ) (ps : List (Position A))
      → map leg_of (set_position k (λ p. record p { status = error }) ps) ≡ map leg_of ps
  legs-mark k [] = refl
  legs-mark k (p ∷ ps) = ground (arith, legs-mark k ps)

  pub legs-append :
      (ps : List (Position A)) (p q : Position A)
      → map leg_of ((ps ++ p ∷ []) ++ q ∷ []) ≡ map leg_of ps ++ leg_of p ∷ leg_of q ∷ []
  legs-append [] p q = refl
  legs-append (x ∷ ps) p q = ground (arith, legs-append ps p q)

ruleset leg_laws = (legs-store, legs-set, legs-mark, legs-append)

module _ (R : Real) (g : Gateway R.Number) (now : ℕ) (l : Legs R.Number) where
  handle_open_error-legs :
      (errors : List LegError) (m n : ℕ) (a b : Option (Order R.Number)) (f h : R.Number)
      (w : World R.Number)
      → map leg_of (handle_open_error R g now l errors m n a b f h w).db.positions
        ≡ map leg_of w.db.positions
  unfolding handle_open_error
  handle_open_error-legs errors m n a b f h w = grind (arith, legs-store, legs-set, legs-mark)

  pub place_legs-legs :
      (w : World R.Number)
      → map leg_of (place_legs R g now l w).1.db.positions
        ≡ map leg_of w.db.positions ++ new_legs l w.db.next_id
  unfolding place_legs place_perp place_spot_leg
  place_legs-legs w = grind (arith, legs-store, legs-append, handle_open_error-legs)
