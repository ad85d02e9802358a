-- ===== src/Trading/CrossExchange/Close/Accounts.antt =====
-- What closing a pair leaves of orders, trades and errors.
use arbitrage_station.Base.{
  ℕ, ◌+◌, ◌≡◌, ◌≤◌, arith, length, length-append, String, Option, none, some, List, [], ◌∷◌,
  keep_if, map,
}
use arbitrage_station.Trading.Store.{Real, LegError, Position, Gateway, World, is_open_row, store}
use arbitrage_station.Trading.CrossExchange.Close.{
  finished, close_leg, close_legs, close_pair, mark_closing,
}

module _ (R : Real) (g : Gateway R.Number) (now : ℕ) (why : String) where
  -- How a loop over `n` positions accounts for them, if it comes to its end with these errors.
  abbrev Accounted : ℕ → World R.Number → Option (List LegError) → World R.Number → Type 0
  Accounted n w none w' = length w'.sent ≤ length w.sent + n
  Accounted n w (some es) w' =
      (length w'.sent ≡ length w.sent + n)
      × (length w'.db.trades + length es ≡ length w.db.trades + n)

  close_leg-Accounted :
      (p : Position R.Number) (w : World R.Number)
      → let (errors, w') = close_leg R g now why p w in Accounted 1 w errors w'
  unfolding close_leg
  close_leg-Accounted p w = grind (arith, length-append)

  close_legs-Accounted :
      (ps : List (Position R.Number)) (w : World R.Number)
      → let (errors, w') = close_legs R g now why ps w in Accounted (length ps) w errors w'
  unfolding close_legs
  close_legs-Accounted [] w = ground arith
  close_legs-Accounted (p ∷ ps) w =
      let (errors, w') = close_leg R g now why p w in
      let (more, w'') = close_legs R g now why ps w' in
      grind (arith, close_leg-Accounted p w, close_legs-Accounted ps w', length-append)

-- Closing a pair that comes to its end sends one order for each open position
-- that the database has after the first commit, and each of them gives a trade or an error.
close_pair_accounts :
    (R : Real) (g : Gateway R.Number) (now i : ℕ) (why : String) (w : World R.Number)
    (es : List LegError)
    → (close_pair R g now i why w).0 ≡ finished es
    → let w' = (close_pair R g now i why w).1 in
      let n = length (keep_if (is_open_row i) (map store w.db.positions)) in
      (length w'.sent ≡ length w.sent + n)
      × (length w'.db.trades + length es ≡ length w.db.trades + n)
unfolding close_pair
close_pair_accounts R g now i why w es e =
    let db = mark_closing R i w.db in
    ground (
      arith,
      close_legs-Accounted R g now why (keep_if (is_open_row i) db.positions)
          (record { db = db; sent = w.sent }),
    )
