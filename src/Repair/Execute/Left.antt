-- ===== src/Repair/Execute/Left.antt =====
-- What a repair leaves of its strategy when the session does not flush by itself.
use arbitrage_station.Base.{
  ℕ, ◌≡◌, ◌⊎◌, inl, inr, refl, ap, ap₂, ◌∙◌, Bool, true, false, not, ◌&&◌, Option, none, some, List,
  [], ◌∷◌, arith, min, ◌==◌, Bool-cases, Option-cases, keep_if, if-both,
}
use arbitrage_station.Trading.Store.{
  Exchange, Position, Strategy, StrategyStatus, Session, find_strategy, set_strategy, is_open_row,
  before_query,
}
use arbitrage_station.Repair.{
  is_spot, is_short, is_nil, sort_largest, apply_reduce, leg_snapshot, sync_strategy, adjusted,
  ReduceOrder, filled_base,
}
use arbitrage_station.Repair.Plan.{RepairItem, is_live}
use arbitrage_station.Repair.Execute.{
  Desk, Floor, Leg, LegResult, raised, reduced, Repaired, repaired, write_reduce, reduce_leg,
  leg_of, call_of, leg_unavailable, is_valid_item, execute_item, execute_on, outcome_of, order_on,
  answered,
}
use arbitrage_station.Repair.Execute.Kept.{count-reduce, Untouched, nil-length}

abbrev pub status_in : Option (Strategy ℕ) → Option StrategyStatus
status_in none = none
status_in (some s) = some s.status

abbrev pub status_of : ℕ → Session ℕ → Option StrategyStatus
status_of i db = status_in (find_strategy i db.strategies)

adjusted-active :
    (now i margin : ℕ) (ss : List (Strategy ℕ)) (s : Strategy ℕ)
    → find_strategy i ss ≡ some s
    → status_in (find_strategy i (set_strategy i (adjusted now margin false) ss))
      ≡ some StrategyStatus.active
adjusted-active now i margin [] s found = cc
adjusted-active now i margin (t ∷ ss) s found = ground (arith, adjusted-active now i margin ss s)

abbrev is_perp : Position ℕ → Bool
is_perp p = not (is_spot p) && is_short p

-- No leg is open, as a query sees it.
abbrev legs_gone : ℕ → List (Position ℕ) → Bool
legs_gone i ps =
    is_nil (keep_if is_spot (keep_if (is_open_row i) ps))
    && is_nil (keep_if is_perp (keep_if (is_open_row i) ps))

spot-Untouched : Untouched is_spot
spot-Untouched now dec p = ground arith

perp-Untouched : Untouched is_perp
perp-Untouched now dec p = ground arith

open-Untouched : (i : ℕ) → Untouched (is_open_row i)
open-Untouched i now dec p = ground arith

reduce-legs_gone :
    (now i left : ℕ) (rows ps : List (Position ℕ))
    → legs_gone i (apply_reduce now rows left ps).1 ≡ legs_gone i ps
unfolding apply_reduce
reduce-legs_gone now i left rows ps =
    let open_row = is_open_row i in
    let spots =
      count-reduce is_spot open_row spot-Untouched (open-Untouched i) now left (sort_largest rows)
        ps in
    let perps =
      count-reduce is_perp open_row perp-Untouched (open-Untouched i) now left (sort_largest rows)
        ps in
    ap₂ (λ m n. m && n) (nil-length _ _ spots) (nil-length _ _ perps)

sync-active :
    (now i : ℕ) (db : Session ℕ) (s : Strategy ℕ)
    → db.autoflush ≡ false
    → legs_gone i db.positions ≡ false
    → find_strategy i db.strategies ≡ some s
    → status_of i (sync_strategy now i db) ≡ some StrategyStatus.active
unfolding sync_strategy leg_snapshot
sync-active now i db s shut here found =
    rw shut (rw here (adjusted-active now i _ db.strategies s found))

-- What the proofs below carry through one item: an outcome, and the session after it.
abbrev IsActiveIf : ℕ → LegResult × Floor → Type 0
IsActiveIf i (raised error, f) = Unit
IsActiveIf i (reduced total price, f) = status_of i f.db ≡ some StrategyStatus.active

module _ (d : Desk) (now i : ℕ) (l : Leg) (f : Floor) (s : Strategy ℕ) where
  write-active :
      (e : Exchange) (o : ReduceOrder) (filled : ℕ)
      → f.db.autoflush ≡ false
      → legs_gone i f.db.positions ≡ false
      → find_strategy i f.db.strategies ≡ some s
      → status_of i (write_reduce now i l e o filled f.db).1 ≡ some StrategyStatus.active
  unfolding write_reduce
  write-active e o filled shut here found =
      sync-active now i _ s shut (reduce-legs_gone now i filled l.rows f.db.positions ∙ here) found

  answered-active :
      (e : Exchange) (base : ℕ) (o : Option ReduceOrder)
      → f.db.autoflush ≡ false
      → legs_gone i f.db.positions ≡ false
      → find_strategy i f.db.strategies ≡ some s
      → IsActiveIf i (answered d now i l e base o f)
  unfolding write_reduce
  answered-active e base none shut here found = tt
  answered-active e base (some o) shut here found =
      if-both (IsActiveIf i) (filled_base (d.in_base e.id l.symbol) l.spot base o == 0) (λ _. tt)
        λ _. write-active e o (filled_base (d.in_base e.id l.symbol) l.spot base o) shut here found

module _ (d : Desk) (now i base : ℕ) (l : Leg) (f : Floor) (s : Strategy ℕ) where
  order_on-active :
      (o : Option Exchange)
      → f.db.autoflush ≡ false
      → legs_gone i f.db.positions ≡ false
      → find_strategy i f.db.strategies ≡ some s
      → IsActiveIf i (order_on d now i l o base f)
  order_on-active none shut here found = tt
  order_on-active (some e) shut here found =
      let c = call_of l e base in
      if-both (IsActiveIf i) (base == 0) (λ _. tt)
        λ _.
          answered-active d now i l (record { db = f.db; sent = c ∷ f.sent }) s e base
            (d.answer f.sent c) shut here found

  reduce_rows-active :
      (rows : List (Position ℕ))
      → f.db.autoflush ≡ false
      → (is_nil rows ≡ true) ⊎ (legs_gone i f.db.positions ≡ false)
      → find_strategy i f.db.strategies ≡ some s
      → IsActiveIf i (elim rows [
        | [] ↦ (raised leg_unavailable, f)
        | _ ∷ _ ↦ order_on d now i l l.exchange base f
      ])
  reduce_rows-active [] shut here found = tt
  reduce_rows-active (p ∷ ps) shut (inl h) found = cc
  reduce_rows-active (p ∷ ps) shut (inr here) found = order_on-active l.exchange shut here found

reduce_leg-active :
    (d : Desk) (now i requested : ℕ) (l : Leg) (f : Floor) (s : Strategy ℕ)
    → f.db.autoflush ≡ false
    → (is_nil l.rows ≡ true) ⊎ (legs_gone i f.db.positions ≡ false)
    → find_strategy i f.db.strategies ≡ some s
    → IsActiveIf i (reduce_leg d now i l requested f)
unfolding reduce_leg
reduce_leg-active d now i requested l f s shut here found =
    reduce_rows-active d now i (min requested l.size) l f s l.rows shut here found

or-else : (a b : Bool) → (a ≡ true) ⊎ ((a && b) ≡ false)
or-else true b = inl refl
or-else false b = inr refl

or-else-right : (a b : Bool) → (b ≡ true) ⊎ ((a && b) ≡ false)
or-else-right a true = inl refl
or-else-right a false = inr (ground arith)

leg_of-rows :
    (db : Session ℕ) (s : Strategy ℕ) (x : RepairItem)
    → db.autoflush ≡ false
    → (is_nil (leg_of db s x).rows ≡ true) ⊎ (legs_gone x.strategy_id db.positions ≡ false)
unfolding leg_snapshot
leg_of-rows db s x shut =
    let spots = keep_if is_spot (keep_if (is_open_row x.strategy_id) db.positions) in
    let perps = keep_if is_perp (keep_if (is_open_row x.strategy_id) db.positions) in
    ground (
      arith,
      shut,
      or-else (is_nil spots) (is_nil perps),
      or-else-right (is_nil spots) (is_nil perps),
    )

outcome-active :
    (x : RepairItem) (i : ℕ) (res : LegResult × Floor) (r : Repaired)
    → IsActiveIf i res
    → outcome_of x res.0 ≡ repaired r
    → status_of i res.1.db ≡ some StrategyStatus.active
outcome-active x i (raised error, f) r h e = cc
outcome-active x i (reduced total price, f) r h e = h

execute_on-active :
    (d : Desk) (now : ℕ) (x : RepairItem) (s : Strategy ℕ) (f : Floor) (r : Repaired)
    → f.db.autoflush ≡ false
    → find_strategy x.strategy_id f.db.strategies ≡ some s
    → (execute_on d now x (some s) f).0 ≡ repaired r
    → status_of x.strategy_id (execute_on d now x (some s) f).1.db ≡ some StrategyStatus.active
execute_on-active d now x s f r shut found done =
    let db = before_query f.db in
    let same : before_query f.db ≡ f.db = rw shut refl in
    let shut' = ap (λ (b : Session ℕ). b.autoflush) same ∙ shut in
    let found' = ap (λ (b : Session ℕ). find_strategy x.strategy_id b.strategies) same ∙ found in
    let f' : Floor = record { db = db; sent = f.sent } in
    let active =
      reduce_leg-active d now x.strategy_id x.reduce_base (leg_of db s x) f' s shut'
        (leg_of-rows db s x shut') found' in
    let res = reduce_leg d now x.strategy_id (leg_of db s x) x.reduce_base f' in
    elim (Bool-cases (is_live s.status)) [
      | inl live ↦ rw live (outcome-active x x.strategy_id res r active (rw live at done))
      | inr gone ↦ ground arith
    ]

-- A repair that succeeds in a session that does not flush by itself leaves its strategy marked active, even
-- if it has closed the last open position of the strategy.
pub repaired_stays_active :
    (d : Desk) (now : ℕ) (x : RepairItem) (f : Floor) (r : Repaired)
    → f.db.autoflush ≡ false
    → (execute_item d now x f).0 ≡ repaired r
    → status_of x.strategy_id (execute_item d now x f).1.db ≡ some StrategyStatus.active
unfolding execute_item
repaired_stays_active d now x f r shut done =
    elim (Option-cases (find_strategy x.strategy_id f.db.strategies)) [
      | inl missing ↦ ground arith
      | inr (s, found) ↦ elim (Bool-cases (is_valid_item x)) [
        | inl valid ↦
            rw (valid, found)
              (execute_on-active d now x s f r shut found (rw (valid, found) at done))
        | inr wrong ↦ ground arith
      ]
    ]
