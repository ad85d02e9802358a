-- ===== src/Trading/SpotHedge/Close/Flushed.antt =====
-- What `close` reports in a session that flushes before a query.
use arbitrage_station.Base.{
  ℕ, suc, ◌+◌, ◌≡◌, ap, ◌∙◌, ◌⊎◌, inl, inr, refl, String, true, some, List, [], ◌∷◌, map, arith,
  if◌then◌else◌, All, length, length-append,
}
use arbitrage_station.Trading.Store.{
  Real, Position, StrategyStatus, Strategy, Session, LegError, Gateway, World, closed,
  find_strategy, set_position, with_status, store, is_open_row, remaining_open_positions,
}
use arbitrage_station.Trading.Store.Laws.{
  open_rows, open_rows-close, Distinct-store, Distinct-keep_if, open_rows-HasOpen, map-store-store,
  Distinct, Absent, HasOpen, Distinct-set_position, HasOpen-set_ne,
}
use arbitrage_station.Trading.SpotHedge.Close.{
  finished, no_errors, close_one, close_each, conclude, close_hedge_strategy,
}
use arbitrage_station.Trading.SpotHedge.Close.Results.{
  begun, to_close, looped, close_result, close_each_unseen,
}

module _ (R : Real) (g : Gateway R.Number) (now i : ℕ) (why : String) where
  abbrev closing_of : ℕ → List (Position R.Number) → List (Position R.Number)
  closing_of j ps = set_position j (with_status closed (some now)) ps

  -- One turn reports an error and changes no position, or closes its position and reports none.
  close_one_effect :
      (p : Position R.Number) (w : World R.Number)
      → let (errors, w') = close_one R g now why p w in
        ((length errors ≡ 1) × (w'.db.positions ≡ w.db.positions))
        ⊎ ((length errors ≡ 0) × (w'.db.positions ≡ closing_of p.id w.db.positions))
  unfolding close_one
  close_one_effect p w = ground arith

  All-HasOpen-set :
      (j : ℕ) (ps qs : List (Position R.Number))
      → Absent j ps
      → All (λ p. HasOpen i p.id qs) ps
      → All (λ p. HasOpen i p.id (closing_of j qs)) ps
  All-HasOpen-set j [] qs a h = tt
  All-HasOpen-set j (p ∷ ps) qs a h =
      (HasOpen-set_ne i p.id j closed (some now) qs a.0 h.0, All-HasOpen-set j ps qs a.1 h.1)

  -- What the loop needs of the rows that are left.
  record Ready (ps qs : List (Position R.Number)) : Type 0 where
    rows : Distinct qs
    left : Distinct ps
    all_open : All (λ p. HasOpen i p.id qs) ps

  Ready-next :
      (p : Position R.Number) (ps : List (Position R.Number)) (w : World R.Number)
      → Ready (p ∷ ps) w.db.positions
      → Ready ps (close_one R g now why p w).1.db.positions
  Ready-next p ps w r = elim (close_one_effect p w) [
    | inl (_, same) ↦ rw same (record { rows = r.rows; left = r.left.1; all_open = r.all_open.1 })
    | inr (_, changed) ↦ rw changed (record {
      rows = Distinct-set_position p.id closed (some now) w.db.positions r.rows;
      left = r.left.1;
      all_open = All-HasOpen-set p.id ps w.db.positions r.left.0 r.all_open.1;
    })
  ]

  seen_open : List (Position R.Number) → ℕ
  seen_open qs = open_rows i (map store qs)

  close_one_counts :
      (p : Position R.Number) (ps : List (Position R.Number)) (w : World R.Number)
      → Ready (p ∷ ps) w.db.positions
      → let (errors, w') = close_one R g now why p w in
        suc (seen_open w'.db.positions) ≡ seen_open w.db.positions + length errors
  unfolding seen_open
  close_one_counts p ps w r = elim (close_one_effect p w) [
    | inl (one, same) ↦ rw same (omega (arith, one))
    | inr (zero_, changed) ↦
        rw changed (
          omega
            (arith, zero_, open_rows-close i p.id (some now) w.db.positions r.rows r.all_open.0))
  ]

  close_each_counts :
      (ps : List (Position R.Number)) (w : World R.Number)
      → Ready ps w.db.positions
      → let (errors, w') = close_each R g now why ps w in
        seen_open w'.db.positions + length ps ≡ seen_open w.db.positions + length errors
  unfolding close_each
  close_each_counts [] w r = refl
  close_each_counts (p ∷ ps) w r =
      let (errors, w') = close_one R g now why p w in
      let (more, w'') = close_each R g now why ps w' in
      omega (
        arith,
        close_one_counts p ps w r,
        close_each_counts ps w' (Ready-next p ps w r),
        length-append errors more,
      )

  started_Ready :
      (w : World R.Number)
      → Distinct w.db.positions
      → Ready (to_close R g now i why w) (map store w.db.positions)
  started_Ready w d = record {
    rows = Distinct-store w.db.positions d;
    left =
        Distinct-keep_if (is_open_row i) (map store w.db.positions)
          (Distinct-store w.db.positions d);
    all_open = open_rows-HasOpen i w.db.positions;
  }

  loop_counts :
      (w : World R.Number)
      → Distinct w.db.positions
      → seen_open (looped R g now i why w).1.db.positions ≡ length (looped R g now i why w).0
  unfolding looped seen_open
  loop_counts w d =
      let counts =
        close_each_counts (to_close R g now i why w) (begun R g now i why w) (started_Ready w d) in
      omega (arith, counts, ap (open_rows i) (map-store-store w.db.positions))

  looped_autoflush : (w : World R.Number) → (looped R g now i why w).1.db.autoflush ≡ w.db.autoflush
  unfolding looped
  looped_autoflush w =
      (close_each_unseen R g now i why (to_close R g now i why w) (begun R g now i why w)).1

  conclude_counted :
      (errors : List LegError) (db : Session R.Number)
      → db.autoflush ≡ true
      → seen_open db.positions ≡ length errors
      → (conclude R i now why errors db).0
        ≡ finished
            (no_errors R errors)
            errors
            (length errors)
            (if no_errors R errors then StrategyStatus.closed else StrategyStatus.active)
  unfolding conclude remaining_open_positions seen_open
  conclude_counted [] db on counted = rw on (rw counted refl)
  conclude_counted (e ∷ es) db on counted = rw on (rw counted (ground arith))

  -- In a session that flushes before its queries, with distinct position numbers, a close of a strategy
  -- succeeds and closes it exactly when the loop over its open positions meets no error; otherwise it
  -- stays active with as many open positions as there are errors.
  pub close_flushed :
      (w : World R.Number) (s : Strategy R.Number)
      → w.db.autoflush ≡ true
      → find_strategy i w.db.strategies ≡ some s
      → Distinct w.db.positions
      → let errors = (looped R g now i why w).0 in
        (close_hedge_strategy R g now i why w).0
        ≡ finished
            (no_errors R errors)
            errors
            (length errors)
            (if no_errors R errors then StrategyStatus.closed else StrategyStatus.active)
  close_flushed w s on found d =
      close_result R g now i why w s found
      ∙ conclude_counted (looped R g now i why w).0 (looped R g now i why w).1.db
          (looped_autoflush w ∙ on) (loop_counts w d)
