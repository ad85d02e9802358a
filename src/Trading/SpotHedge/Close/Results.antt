-- ===== src/Trading/SpotHedge/Close/Results.antt =====
-- What `close` reports, by the session's `autoflush`.
use arbitrage_station.Base.{
  ℕ, ◌<◌, ◌≡◌, ap, ◌∙◌, refl, String, false, some, List, [], ◌∷◌, map, arith, keep_if, lt→ltb,
}
use arbitrage_station.Trading.Store.{
  Real, Position, StrategyStatus, Strategy, Session, LegError, Gateway, World, closed,
  find_strategy, store, is_open_row, remaining_open_positions,
}
use arbitrage_station.Trading.Store.Laws.{open_rows, open_rows-set_status}
use arbitrage_station.Trading.SpotHedge.Close.{
  finished, mark_closing, close_one, close_each, conclude, close_hedge_strategy,
}

module _ (R : Real) (g : Gateway R.Number) (now i : ℕ) (why : String) where
  -- One turn leaves the stored statuses alone.
  close_one_unseen :
      (p : Position R.Number) (w : World R.Number)
      → let w' = (close_one R g now why p w).1 in
        (open_rows i w'.db.positions ≡ open_rows i w.db.positions)
        × (w'.db.autoflush ≡ w.db.autoflush)
  unfolding close_one
  close_one_unseen p w =
      ground (arith, open_rows-set_status i p.id closed (some now) w.db.positions)

  pub close_each_unseen :
      (ps : List (Position R.Number)) (w : World R.Number)
      → let w' = (close_each R g now why ps w).1 in
        (open_rows i w'.db.positions ≡ open_rows i w.db.positions)
        × (w'.db.autoflush ≡ w.db.autoflush)
  unfolding close_each
  close_each_unseen [] w = (refl, refl)
  close_each_unseen (p ∷ ps) w =
      let one = close_one_unseen p w in
      let rest = close_each_unseen ps (close_one R g now why p w).1 in
      (rest.0 ∙ one.0, rest.1 ∙ one.1)

  -- The world in which the loop begins.
  abbrev pub begun : World R.Number → World R.Number
  begun w = record { db = mark_closing R i w.db; sent = w.sent }

  -- The rows that the loop goes through.
  abbrev pub to_close : World R.Number → List (Position R.Number)
  to_close w = keep_if (is_open_row i) (map store w.db.positions)

  unfoldable pub looped : World R.Number → List LegError × World R.Number
  looped w = close_each R g now why (to_close w) (begun w)

  -- A session that does not flush by itself counts the rows that were open at the beginning.
  conclude_stale :
      (errors : List LegError) (db : Session R.Number)
      → db.autoflush ≡ false
      → 0 < open_rows i db.positions
      → (conclude R i now why errors db).0
        ≡ finished false errors (open_rows i db.positions) StrategyStatus.active
  unfolding conclude remaining_open_positions
  conclude_stale errors db off some_open =
      rw off (rw (lt→ltb 0 (open_rows i db.positions) some_open) refl)

  pub close_result :
      (w : World R.Number) (s : Strategy R.Number)
      → find_strategy i w.db.strategies ≡ some s
      → (close_hedge_strategy R g now i why w).0
        ≡ (conclude R i now why (looped w).0 (looped w).1.db).0
  unfolding close_hedge_strategy looped
  close_result w s found = rw (found, close_hedge_strategy) refl

  -- With `autoflush=False`, which `SessionLocal` sets, a close of a strategy that has open positions
  -- reports failure and leaves the strategy active, whatever the exchanges answer: the count of the
  -- remaining open positions is that of the positions that were open at the beginning.
  pub close_reports_failure :
      (w : World R.Number) (s : Strategy R.Number)
      → w.db.autoflush ≡ false
      → find_strategy i w.db.strategies ≡ some s
      → 0 < open_rows i (map store w.db.positions)
      → (errors : List LegError) × ((close_hedge_strategy R g now i why w).0
          ≡ finished false errors (open_rows i (map store w.db.positions)) StrategyStatus.active)
  unfolding looped
  close_reports_failure w s off found some_open =
      let unseen = close_each_unseen (to_close w) (begun w) in
      let db = (looped w).1.db in
      (
        (looped w).0,
        close_result w s found
            ∙ (conclude_stale (looped w).0 db (unseen.1 ∙ off) (rw unseen.0 some_open)
                ∙ ap (λ n. finished false (looped w).0 n StrategyStatus.active) unseen.0),
      )
