-- ===== src/Trading/CrossExchange/Unsaved.antt =====
-- What the database knows of a pair that `open` has opened.
use arbitrage_station.Base.{
  ℕ, ◌+◌, ◌≡◌, ◌&&◌, Bool, true, false, some, List, [], ◌∷◌, ◌++◌, arith, if◌then◌else◌, length,
  keep_if, ◌==◌,
}
use arbitrage_station.Trading.Store.{
  Real, LegError, Side, long, short, Position, Gateway, World, is_open_row, is_open_status, is_some,
  place_hedge,
}
use arbitrage_station.Trading.Store.Laws.{open_rows}
use arbitrage_station.Trading.CrossExchange.{
  exchange_of, opening_side, leg_position, Pair, place_leg, place_pair,
}
use arbitrage_station.Trading.SpotHedge.{fill_of}

abbrev pub no_failures : List LegError → Bool
no_failures [] = true
no_failures _ = false

module _ {A : Type 0} where
  -- The positions of the strategy `i` that are open in the session.
  abbrev is_open_object : ℕ → Position A → Bool
  is_open_object i p = (p.strategy_id == i) && is_open_status (some p.status)

  abbrev pub open_objects : ℕ → List (Position A) → ℕ
  open_objects i ps = length (keep_if (is_open_object i) ps)

  keep_if-append :
      (f : Position A → Bool) (ps : List (Position A)) (q : Position A)
      → length (keep_if f (ps ++ q ∷ [])) ≡ length (keep_if f ps) + (if f q then 1 else 0)
  keep_if-append f [] q = ground arith
  keep_if-append f (p ∷ ps) q = ground (arith, keep_if-append f ps q)

module _ (R : Real) (g : Gateway R.Number) (p : Pair R.Number) where
  placed_leg :
      (s : Side) (w : World R.Number)
      → let (o, w') = place_leg R g p s w in
        (open_rows p.strategy_id w'.db.positions ≡ open_rows p.strategy_id w.db.positions)
        × (open_objects p.strategy_id w'.db.positions
            ≡ open_objects p.strategy_id w.db.positions + (if is_some o then 1 else 0))
  unfolding place_leg
  placed_leg s w =
      let o =
        g.answer w.sent
          (place_hedge (exchange_of s p).id p.symbol (opening_side s) p.contract_size p.leverage) in
      let q = leg_position R p s w.db.next_id (fill_of R o p.price) (is_some o) in
      ground (
        arith,
        keep_if-append (is_open_row p.strategy_id) w.db.positions q,
        keep_if-append (is_open_object p.strategy_id) w.db.positions q,
      )

-- When opening a pair reports no error, the session holds two more open positions of the strategy, and
-- a query of the database still finds only those that it found before.
pub place_pair_unsaved :
    (R : Real) (g : Gateway R.Number) (now : ℕ) (p : Pair R.Number) (w : World R.Number)
    → let (errors, w') = place_pair R g now p w in
      no_failures errors ≡ true
      → (open_objects p.strategy_id w'.db.positions ≡ open_objects p.strategy_id w.db.positions + 2)
        × (open_rows p.strategy_id w'.db.positions ≡ open_rows p.strategy_id w.db.positions)
unfolding place_pair
place_pair_unsaved R g now p w e =
    let (o, w1) = place_leg R g p long w in
    ground (arith, placed_leg R g p long w, placed_leg R g p short w1)
