-- ===== src/Repair/Plan/Waited.antt =====
-- How long a mismatch lasts before it is acted on.
use arbitrage_station.Base.{
  ℕ, ◌-◌, ◌*◌, ◌≤◌, ◌<◌, ◌≡◌, ◌⊎◌, inl, inr, ap, String, true, Option, none, some, List, [], ◌∷◌,
  arith, All, max, if◌then◌else◌, ltb, ◌==◌, if-both, Bool-cases, Option-cases,
}
use mathlib.Core.Path.{subst}
use arbitrage_station.Trading.Store.{Session, Strategy, find_strategy}
use arbitrage_station.Repair.{leg_snapshot}
use arbitrage_station.Repair.Live.{Market}
use arbitrage_station.Repair.Plan.{
  Hold, RepairConfig, MismatchState, States, reduce_spot, RepairItem, FallbackItem, Verdict,
  unknown, data_unavailable, within_epsilon, pending, guarded, fallback, repair, Reading, read_hold,
  judge, plan_spot, plan_perp, scan_found, scan_hold, scan_holds, state_of, put_state, next_state,
  is_within, is_abnormal, should_repair, is_live, is_active_id, symbol_or,
}
use arbitrage_station.Repair.Plan.Restored.{reading-cases}
use arbitrage_station.Repair.Plan.Sightings.{Cycle, OncePerStrategy, state_of-put}
use arbitrage_station.Repair.Plan.History.{epsilon, scan_holds-NoHold}

-- Both kinds of action in one verdict.
abbrev pub Acts : (RepairItem → Type 0) → (FallbackItem → Type 0) → Verdict → Type 0
Acts P Q (repair x) = P x
Acts P Q (fallback x) = Q x
Acts P Q _ = Unit

pub Acts-map :
    (P P' : RepairItem → Type 0) (Q Q' : FallbackItem → Type 0) (v : Verdict)
    → ((x : RepairItem) → P x → P' x)
    → ((x : FallbackItem) → Q x → Q' x)
    → Acts P Q v
    → Acts P' Q' v
Acts-map P P' Q Q' (repair x) f g a = f x a
Acts-map P P' Q Q' (fallback x) f g a = g x a
Acts-map P P' Q Q' unknown f g a = tt
Acts-map P P' Q Q' data_unavailable f g a = tt
Acts-map P P' Q Q' within_epsilon f g a = tt
Acts-map P P' Q Q' pending f g a = tt
Acts-map P P' Q Q' guarded f g a = tt

-- Enough cycles in a row, or enough milliseconds since the first of them.
abbrev pub Lasted : RepairConfig → ℕ → ℕ → ℕ → Type 0
Lasted c now rounds since =
    (max 1 c.repair_retry_rounds ≤ rounds) ⊎ (1000 * max 1 c.repair_timeout_secs ≤ now - since)

-- Not nearly all of a spot leg, or no perpetual that reads as 0, or it has read so for three seconds.
abbrev pub Trusted : ℕ → ℕ → ℕ → RepairItem → Type 0
Trusted now spot since x = elim x.action [
  | reduce_spot ↦ (1000 * x.reduce_base < 999 * spot) ⊎ (since ≡ 0) ⊎ (3000 ≤ now - since)
  | _ ↦ Unit
]

abbrev StateActs : RepairConfig → ℕ → ℕ → Hold → MismatchState → Verdict → Type 0
StateActs c now spot h s v =
    Acts
      (λ x.
        (x.strategy_id ≡ h.strategy_id)
        × Lasted c now s.rounds s.first_seen_ts
        × Trusted now spot s.abnormal_first_seen_ts x)
      (λ x. (x.strategy_id ≡ h.strategy_id) × Lasted c now s.rounds s.first_seen_ts) v

plan_spot-acts :
    (c : RepairConfig) (now : ℕ) (h : Hold) (symbol : String) (r : Reading) (s : MismatchState)
    → should_repair c now s ≡ true
    → (if is_abnormal r then 0 < s.abnormal_first_seen_ts else (s.abnormal_first_seen_ts ≡ 0))
    → StateActs c now r.leg.spot_size_base h s (plan_spot now h symbol r s)
unfolding plan_spot
plan_spot-acts c now h symbol r s should zero = ground arith

plan_perp-acts :
    (c : RepairConfig) (now spot : ℕ) (h : Hold) (symbol : String) (r : Reading) (s : MismatchState)
    → should_repair c now s ≡ true
    → StateActs c now spot h s (plan_perp h symbol r)
unfolding plan_perp
plan_perp-acts c now spot h symbol r s should = ground arith

judge-acts :
    (c : RepairConfig) (e now : ℕ) (h : Hold) (symbol : String) (r : Reading) (states : States)
    → 0 < now
    → let res = judge c e now h symbol r states in
      StateActs c now r.leg.spot_size_base h (state_of h.strategy_id res.1) res.0
unfolding judge
judge-acts c e now h symbol r states positive =
    let s = next_state now r (state_of h.strategy_id states) in
    let same : state_of h.strategy_id (put_state h.strategy_id s states) ≡ s =
      ground (arith, state_of-put h.strategy_id h.strategy_id s states) in
    if-both
      (λ (v : Verdict × States).
        StateActs c now r.leg.spot_size_base h (state_of h.strategy_id v.1) v.0)
      (is_within e r) (λ _. tt)
      λ _. rw same (elim (Bool-cases (should_repair c now s)) [
        | inl should ↦ rw should (
            if-both (StateActs c now r.leg.spot_size_base h s) (ltb r.perp_base r.spot_base)
              (λ _. plan_spot-acts c now h symbol r s should (ground arith))
              λ _. plan_perp-acts c now r.leg.spot_size_base h symbol r s should)
        | inr wait ↦ rw wait tt
      ])

read_hold-leg :
    (m : Market) (db : Session ℕ) (s : Strategy ℕ) (h : Hold) (r : Reading)
    → read_hold m db s h ≡ some r
    → r.leg ≡ leg_snapshot db h.strategy_id
unfolding read_hold
read_hold-leg m db s h r read = (reading-cases (leg_snapshot db h.strategy_id) _ _ _ r read).0

module _ (cy : Cycle) where
  found-acts :
      (h : Hold) (o : Option (Strategy ℕ)) (states : States)
      → 0 < cy.now
      → let res = scan_found cy.config cy.market cy.db (epsilon cy) cy.now h o states in
        StateActs cy.config cy.now
          (leg_snapshot cy.db h.strategy_id).spot_size_base
          h
          (state_of h.strategy_id res.1)
          res.0
  found-acts h none states positive = tt
  found-acts h (some s) states positive = elim (Bool-cases (is_live s.status)) [
    | inr closed ↦ rw closed tt
    | inl live ↦ rw live (elim (Option-cases (read_hold cy.market cy.db s h)) [
      | inl missing ↦ rw missing tt
      | inr (r, read) ↦
          let leg = read_hold-leg cy.market cy.db s h r read in
          rw read (
            subst
              (λ l.
                StateActs cy.config cy.now l.spot_size_base h
                  (state_of h.strategy_id
                    (judge cy.config (epsilon cy) cy.now h (symbol_or s.symbol h.symbol) r
                      states).1)
                  (judge cy.config (epsilon cy) cy.now h (symbol_or s.symbol h.symbol) r states).0)
              leg
              (judge-acts cy.config (epsilon cy) cy.now h (symbol_or s.symbol h.symbol) r states
                positive))
    ])
  ]

  scan_hold-Acts :
      (h : Hold) (states : States)
      → 0 < cy.now
      → let res = scan_hold cy.config cy.market cy.db (epsilon cy) cy.now h states in
        (StateActs cy.config cy.now
          (leg_snapshot cy.db h.strategy_id).spot_size_base
          h
          (state_of h.strategy_id res.1)
          res.0)
        × Acts (λ x. 0 < x.strategy_id) (λ x. 0 < x.strategy_id) res.0
  unfolding scan_hold
  scan_hold-Acts h states positive = elim (Bool-cases (h.strategy_id == 0)) [
    | inl zero ↦ rw zero (tt, tt)
    | inr there ↦
        let o = find_strategy h.strategy_id cy.db.strategies in
        let res = scan_found cy.config cy.market cy.db (epsilon cy) cy.now h o states in
        let a = found-acts h o states positive in
        rw there (a, Acts-map _ _ _ _ res.0 (λ x p. ground arith) (λ x p. ground arith) a)
  ]

  -- What is known of a verdict at the end of the loop, when the states are `final`.
  abbrev pub FinalActs : States → List Hold → Verdict → Type 0
  FinalActs final hs v =
      Acts
        (λ x.
          let s = state_of x.strategy_id final in
          (0 < x.strategy_id)
          × (is_active_id x.strategy_id hs ≡ true)
          × Lasted cy.config cy.now s.rounds s.first_seen_ts
          × Trusted cy.now (leg_snapshot cy.db x.strategy_id).spot_size_base
              s.abnormal_first_seen_ts x)
        (λ x.
          let s = state_of x.strategy_id final in
          (0 < x.strategy_id)
          × (is_active_id x.strategy_id hs ≡ true)
          × Lasted cy.config cy.now s.rounds s.first_seen_ts)
        v

  finally :
      (h : Hold) (hs : List Hold) (final : States) (s : MismatchState) (v : Verdict)
      → state_of h.strategy_id final ≡ s
      → StateActs cy.config cy.now (leg_snapshot cy.db h.strategy_id).spot_size_base h s v
      → Acts (λ x. 0 < x.strategy_id) (λ x. 0 < x.strategy_id) v
      → FinalActs final (h ∷ hs) v
  finally h hs final s (repair x) kept a pos =
      let leg = ap (λ i. (leg_snapshot cy.db i).spot_size_base) a.0 in
      let same = ap (λ i. state_of i final) a.0 in
      (pos, ground arith, rw (same, kept) (a.1), rw (same, kept, leg) (a.2))
  finally h hs final s (fallback x) kept a pos =
      let same = ap (λ i. state_of i final) a.0 in (pos, ground arith, rw (same, kept) (a.1))
  finally h hs final s unknown kept a pos = tt
  finally h hs final s data_unavailable kept a pos = tt
  finally h hs final s within_epsilon kept a pos = tt
  finally h hs final s pending kept a pos = tt
  finally h hs final s guarded kept a pos = tt

  weaken :
      (final : States) (h : Hold) (hs : List Hold) (vs : List Verdict)
      → All (FinalActs final hs) vs
      → All (FinalActs final (h ∷ hs)) vs
  weaken final h hs [] a = tt
  weaken final h hs (v ∷ vs) a = (
    Acts-map _ _ _ _ v (λ x p. (p.0, ground arith, p.2, p.3)) (λ x p. (p.0, ground arith, p.2)) a.0,
    weaken final h hs vs a.1,
  )

  pub scan_holds-acts :
      (hs : List Hold) (states : States)
      → 0 < cy.now
      → OncePerStrategy hs
      → let res = scan_holds cy.config cy.market cy.db (epsilon cy) cy.now hs states in
        All (FinalActs res.1 hs) res.0
  unfolding scan_holds
  scan_holds-acts [] states positive once = tt
  scan_holds-acts (h ∷ hs) states positive once =
      let one = scan_hold cy.config cy.market cy.db (epsilon cy) cy.now h states in
      let rest = scan_holds cy.config cy.market cy.db (epsilon cy) cy.now hs one.1 in
      let here = scan_hold-Acts h states positive in
      let kept = scan_holds-NoHold cy h.strategy_id hs one.1 once.0 in
      (
        finally h hs rest.1 (state_of h.strategy_id one.1) one.0 kept here.0 here.1,
        weaken rest.1 h hs rest.0 (scan_holds-acts hs one.1 positive once.1),
      )
