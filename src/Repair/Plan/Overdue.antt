-- ===== src/Repair/Plan/Overdue.antt =====
-- How long a mismatch lasts before it is acted on, over the cycles before.
use arbitrage_station.Base.{
  ℕ, ◌<◌, ◌≡◌, sym, true, List, [], ◌∷◌, arith, All, length, keep_if, lt→ltb,
}
use mathlib.Core.Path.{subst}
use arbitrage_station.Repair.{leg_snapshot}
use arbitrage_station.Repair.Plan.{
  RepairItem, FallbackItem, Verdict, unknown, data_unavailable, within_epsilon, pending, guarded,
  fallback, repair, scan_holds, build_mismatch_plan, state_of, is_active_id, repairs_of,
  fallbacks_of,
}
use arbitrage_station.Repair.Plan.Sightings.{
  Cycle, off_times, zero_times, oldest, states_after, IsTimely, state_of-prune,
}
use arbitrage_station.Repair.Plan.History.{epsilon, Knows, states_after-Knows}
use arbitrage_station.Repair.Plan.Waited.{Acts, Acts-map, Lasted, Trusted, scan_holds-acts}
use arbitrage_station.Repair.Plan.{MismatchPlan}

-- In the last of some cycles, the latest of which stands first, a strategy must have been off for long enough:
-- as many cycles in a row as the configuration says, or as long.
abbrev pub Overdue : Cycle → List Cycle → ℕ → Type 0
Overdue cy older i =
    let times = off_times i (cy ∷ older) in Lasted cy.config cy.now (length times) (oldest times)

abbrev pub Believed : Cycle → List Cycle → RepairItem → Type 0
Believed cy older x =
    Trusted cy.now (leg_snapshot cy.db x.strategy_id).spot_size_base
      (oldest (zero_times x.strategy_id (cy ∷ older))) x

abbrev pub plan_of : Cycle → List Cycle → MismatchPlan
plan_of cy older =
    (build_mismatch_plan cy.config cy.market cy.db cy.nav_total cy.now cy.holds
      (states_after older)).0

final-Knows :
    (cy : Cycle) (older : List Cycle) (i : ℕ)
    → All IsTimely (cy ∷ older)
    → 0 < i
    → is_active_id i cy.holds ≡ true
    → Knows
        (state_of i
          (scan_holds cy.config cy.market cy.db
            (epsilon cy)
            cy.now
            cy.holds
            (states_after older)).1)
        (off_times i (cy ∷ older))
        (zero_times i (cy ∷ older))
unfolding states_after build_mismatch_plan
final-Knows cy older i timely positive held =
    let states =
      (scan_holds cy.config cy.market cy.db (epsilon cy) cy.now cy.holds (states_after older)).1 in
    let knows = states_after-Knows i (cy ∷ older) (lt→ltb 0 i positive) timely in
    let prune : state_of i (keep_if (λ (j, _). is_active_id j cy.holds) states)
        ≡ state_of i states =
      ground (arith, state_of-prune i cy.holds states) in
    subst (λ s. Knows s (off_times i (cy ∷ older)) (zero_times i (cy ∷ older))) prune knows

All-Acts-map :
    (P P' : RepairItem → Type 0) (Q Q' : FallbackItem → Type 0) (vs : List Verdict)
    → ((x : RepairItem) → P x → P' x)
    → ((x : FallbackItem) → Q x → Q' x)
    → All (Acts P Q) vs
    → All (Acts P' Q') vs
All-Acts-map P P' Q Q' [] f g a = tt
All-Acts-map P P' Q Q' (v ∷ vs) f g a =
    (Acts-map P P' Q Q' v f g a.0, All-Acts-map P P' Q Q' vs f g a.1)

verdicts-Overdue :
    (cy : Cycle) (older : List Cycle)
    → All IsTimely (cy ∷ older)
    → All
        (Acts
          (λ x. Overdue cy older x.strategy_id × Believed cy older x)
          (λ x. Overdue cy older x.strategy_id))
        (plan_of cy older).scanned
unfolding build_mismatch_plan
verdicts-Overdue cy older timely =
    All-Acts-map _ _ _ _ _
      (λ x p.
        let k = final-Knows cy older x.strategy_id timely p.0 p.1 in
        (rw (sym k.0, sym k.1) p.2, rw (sym k.2) p.3))
      (λ x p.
        let k = final-Knows cy older x.strategy_id timely p.0 p.1 in rw (sym k.0, sym k.1) p.2)
      (scan_holds-acts cy cy.holds (states_after older) timely.0.0 timely.0.1)

plans-All :
    (P : RepairItem → Type 0) (Q : FallbackItem → Type 0) (vs : List Verdict)
    → All (Acts P Q) vs
    → All P (repairs_of vs) × All Q (fallbacks_of vs)
plans-All P Q [] h = (tt, tt)
plans-All P Q (v ∷ vs) h =
    let (ps, qs) = plans-All P Q vs h.1 in
    elim v as (λ w. Acts P Q w → All P (repairs_of (w ∷ vs)) × All Q (fallbacks_of (w ∷ vs))) [
      | repair x ↦ λ p. ((p, ps), qs)
      | fallback x ↦ λ q. (ps, (q, qs))
      | unknown ↦ λ _. (ps, qs)
      | data_unavailable ↦ λ _. (ps, qs)
      | within_epsilon ↦ λ _. (ps, qs)
      | pending ↦ λ _. (ps, qs)
      | guarded ↦ λ _. (ps, qs)
    ]
      h.0

-- The clock stands above 0, and no cycle holds a strategy twice. Then, in the last of some cycles, each
-- strategy that is to be reduced or closed has been off in as many cycles in a row as the configuration says, or
-- for as long; cycles that could not read it do not count and do not interrupt. And 99.9% of a spot leg or more
-- are planned to go only if the perpetual does not read as 0 while the database has one, or if it has read so
-- for three seconds, in a row likewise.
pub repairs-Overdue :
    (cy : Cycle) (older : List Cycle)
    → All IsTimely (cy ∷ older)
    → All (λ x. Overdue cy older x.strategy_id × Believed cy older x) (plan_of cy older).repair_plan
      × All (λ x. Overdue cy older x.strategy_id) (plan_of cy older).fallback_close_plan
unfolding build_mismatch_plan
repairs-Overdue cy older timely = plans-All _ _ _ (verdicts-Overdue cy older timely)
