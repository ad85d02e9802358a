-- ===== src/Reconcile/Settled.antt =====
-- Strategies without open legs, among them those that a repair leaves behind.
use arbitrage_station.Base.{
  ℕ, ◌≡◌, ◌<◌, refl, ap, ◌∙◌, true, false, some, List, [], ◌∷◌, arith, ◌==◌, if-both, sym, ==→eq,
  Bool-cases, inl, inr,
}
use arbitrage_station.Trading.Store.{Position, Strategy, StrategyStatus, Session, find_strategy}
use arbitrage_station.Repair.Plan.{RepairItem}
use arbitrage_station.Repair.Execute.{Desk, Floor, Repaired, repaired, execute_item}
use arbitrage_station.Repair.Execute.Left.{status_in, status_of, repaired_stays_active}
use arbitrage_station.Reconcile.{
  is_hedge, is_empty_strategy, has_open_row, close_each_empty, close_empty_strategies, commit_if,
}

some-injective : (s t : Strategy ℕ) → some s ≡ some t → s ≡ t
some-injective s t h = cc

module _ (now : ℕ) (ps : List (Position ℕ)) where
  close_each_empty-closes :
      (i : ℕ) (ss : List (Strategy ℕ)) (s : Strategy ℕ)
      → find_strategy i ss ≡ some s
      → is_empty_strategy ps s ≡ true
      → status_in (find_strategy i (close_each_empty now ps ss).1) ≡ some StrategyStatus.closed
  unfolding close_each_empty
  close_each_empty-closes i [] s found e = cc
  close_each_empty-closes i (t ∷ ss) s found e = elim (Bool-cases (t.id == i)) [
    | inl same ↦
        let here : some t ≡ some s = rw same at found in
        let empty : is_empty_strategy ps t ≡ true = rw (some-injective t s here) e in
        rw empty (rw same refl)
    | inr other ↦
        let rest = close_each_empty-closes i ss s (rw other at found) e in
        if-both
          (λ (v : List ℕ × List (Strategy ℕ)).
            status_in (find_strategy i v.1) ≡ some StrategyStatus.closed)
          (is_empty_strategy ps t) (λ _. rw other rest) λ _. rw other rest
  ]

commit_if-strategies :
    (touched : List ℕ) (db : Session ℕ) → (commit_if touched db).strategies ≡ db.strategies
commit_if-strategies [] db = refl
commit_if-strategies (i ∷ is) db = refl

found-id :
    (i : ℕ) (ss : List (Strategy ℕ)) (s : Strategy ℕ) → find_strategy i ss ≡ some s → s.id ≡ i
found-id i [] s h = cc
found-id i (t ∷ ss) s h = elim (Bool-cases (t.id == i)) [
  | inl e ↦
      let same = some-injective t s (rw e at h) in
      ap (λ (u : Strategy ℕ). u.id) (sym same) ∙ ==→eq t.id i e
  | inr e ↦ found-id i ss s (rw e at h)
]

status-injective : (a b : StrategyStatus) → some a ≡ some b → a ≡ b
status-injective a b h = cc

-- The reconciler has a session of its own, over what is committed.
abbrev pub reopened : Session ℕ → Session ℕ
reopened db = record db { autoflush = false }

-- A hedge whose repair closed its last open position is marked active by the repair, and closed by the next
-- pass of the reconciler.
pub repaired_then_closed :
    (d : Desk) (now later : ℕ) (x : RepairItem) (f : Floor) (r : Repaired) (s : Strategy ℕ)
    → f.db.autoflush ≡ false
    → 0 < x.strategy_id
    → (execute_item d now x f).0 ≡ repaired r
    → find_strategy x.strategy_id (execute_item d now x f).1.db.strategies ≡ some s
    → is_hedge s ≡ true
    → has_open_row x.strategy_id (execute_item d now x f).1.db.positions ≡ false
    → (status_of x.strategy_id (execute_item d now x f).1.db ≡ some StrategyStatus.active)
      × (status_of x.strategy_id
            (close_empty_strategies later (reopened (execute_item d now x f).1.db)).1
          ≡ some StrategyStatus.closed)
unfolding close_empty_strategies
repaired_then_closed d now later x f r s shut positive done found hedge gone =
    let db = (execute_item d now x f).1.db in
    let active = repaired_stays_active d now x f r shut done in
    let status : s.status ≡ StrategyStatus.active =
      status-injective s.status StrategyStatus.active (ap status_in (sym found) ∙ active) in
    let id = found-id x.strategy_id db.strategies s found in
    let empty : is_empty_strategy db.positions s ≡ true =
      rw (hedge, status, id, gone) (ground arith) in
    (
      active,
      rw (commit_if-strategies _ _)
          (close_each_empty-closes later db.positions x.strategy_id db.strategies s found empty),
    )
