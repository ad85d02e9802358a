-- ===== src/Repair/Plan/Restored.antt =====
-- What a planned reduction does to the two legs.
use arbitrage_station.Base.{
  ℕ, ◌+◌, ◌-◌, String, ap, ◌<◌, ◌≡◌, inl, inr, sym, false, Option, none, some, List, [], ◌∷◌, arith,
  All, min, ltb, ◌==◌, if-both, Option-cases,
}
use mathlib.Core.Path.{subst, ◌∙◌}
use arbitrage_station.Trading.Store.{Session, Strategy, find_exchange, find_strategy}
use arbitrage_station.Repair.{LegSnapshot, leg_snapshot, estimate_spot_base}
use arbitrage_station.Repair.Live.{Market, fetch_live_perp_short_base}
use arbitrage_station.Repair.Plan.{
  Hold, RepairConfig, MismatchState, States, reduce_spot, reduce_perp, other_action, RepairItem,
  Verdict, unknown, data_unavailable, within_epsilon, pending, guarded, fallback, repair, Reading,
  reading_of, read_hold, plan_spot, plan_perp, judge, scan_found, scan_hold, scan_holds, repairs_of,
  build_mismatch_plan, symbol_or, is_live, next_state, state_of,
}

-- How a reduction must be sized for the legs of the database and the perpetual that is read.
abbrev pub Sized : RepairItem → LegSnapshot → ℕ → Type 0
Sized x leg perp = elim x.action [
  | reduce_spot ↦ (0 < x.reduce_base) × (leg.spot_size_base ≡ perp + x.reduce_base)
  | reduce_perp ↦
      (0 < x.reduce_base)
      × (leg.spot_size_base < perp)
      × (x.reduce_base ≡ min leg.perp_size_base (perp - leg.spot_size_base))
  | other_action ↦ ⊥
]

-- The strategy of the item is there, its perpetual can be read, and the reduction is sized by it.
abbrev pub Restores : Market → Session ℕ → RepairItem → Type 0
Restores m db x =
    (s : Strategy ℕ) × (perp : ℕ) × (find_strategy x.strategy_id db.strategies ≡ some s)
    × (fetch_live_perp_short_base m (find_exchange s.short_exchange_id db.exchanges) x.symbol
        ≡ some perp)
    × Sized x (leg_snapshot db x.strategy_id) perp

abbrev Fits : (RepairItem → Type 0) → Verdict → Type 0
Fits P (repair x) = P x
Fits P _ = Unit

-- What the two plans know of their item.
abbrev Planned : Hold → String → Reading → RepairItem → Type 0
Planned h symbol r x =
    (x.strategy_id ≡ h.strategy_id) × (x.symbol ≡ symbol) × Sized x r.leg r.perp_base

plan_spot-Fits :
    (now : ℕ) (h : Hold) (symbol : String) (r : Reading) (s : MismatchState)
    → r.perp_base < r.spot_base
    → r.leg.spot_size_base ≡ r.spot_base
    → Fits (Planned h symbol r) (plan_spot now h symbol r s)
unfolding plan_spot
plan_spot-Fits now h symbol r s lt e = ground arith

plan_perp-Fits :
    (h : Hold) (symbol : String) (r : Reading)
    → ltb r.perp_base r.spot_base ≡ false
    → r.leg.spot_size_base ≡ r.spot_base
    → Fits (Planned h symbol r) (plan_perp h symbol r)
unfolding plan_perp
plan_perp-Fits h symbol r ge e = ground arith

judge-Fits :
    (c : RepairConfig) (epsilon now : ℕ) (h : Hold) (symbol : String) (r : Reading)
    (states : States)
    → r.leg.spot_size_base ≡ r.spot_base
    → Fits (Planned h symbol r) (judge c epsilon now h symbol r states).0
unfolding judge
judge-Fits c epsilon now h symbol r states e =
    let s = next_state now r (state_of h.strategy_id states) in
    let spot = plan_spot-Fits now h symbol r s in
    let perp = plan_perp-Fits h symbol r in ground (arith, spot, perp)

estimate-leg :
    (db : Session ℕ) (i spot : ℕ)
    → estimate_spot_base db i ≡ some spot
    → (leg_snapshot db i).spot_size_base ≡ spot
unfolding estimate_spot_base leg_snapshot
estimate-leg db i spot h = ground arith

pub reading-cases :
    (leg : LegSnapshot) (spot perp : Option ℕ) (ref : ℕ) (r : Reading)
    → reading_of leg spot perp ref ≡ some r
    → (r.leg ≡ leg) × (spot ≡ some r.spot_base) × (perp ≡ some r.perp_base)
reading-cases leg none perp ref r h = ground arith
reading-cases leg (some s) none ref r h = ground arith
reading-cases leg (some s) (some p) ref r h = ground arith

Fits-map :
    (P Q : RepairItem → Type 0) (v : Verdict) → ((x : RepairItem) → P x → Q x) → Fits P v → Fits Q v
Fits-map P Q (repair x) f p = f x p
Fits-map P Q unknown f p = tt
Fits-map P Q data_unavailable f p = tt
Fits-map P Q within_epsilon f p = tt
Fits-map P Q pending f p = tt
Fits-map P Q guarded f p = tt
Fits-map P Q (fallback x) f p = tt

repairs_of-All :
    (P : RepairItem → Type 0) (vs : List Verdict) → All (Fits P) vs → All P (repairs_of vs)
repairs_of-All P [] h = tt
repairs_of-All P (repair x ∷ vs) h = (h.0, repairs_of-All P vs h.1)
repairs_of-All P (unknown ∷ vs) h = repairs_of-All P vs h.1
repairs_of-All P (data_unavailable ∷ vs) h = repairs_of-All P vs h.1
repairs_of-All P (within_epsilon ∷ vs) h = repairs_of-All P vs h.1
repairs_of-All P (pending ∷ vs) h = repairs_of-All P vs h.1
repairs_of-All P (guarded ∷ vs) h = repairs_of-All P vs h.1
repairs_of-All P (fallback x ∷ vs) h = repairs_of-All P vs h.1

module _ (m : Market) (db : Session ℕ) where
  read_hold-Restores :
      (s : Strategy ℕ) (h : Hold) (r : Reading) (x : RepairItem)
      → find_strategy h.strategy_id db.strategies ≡ some s
      → read_hold m db s h ≡ some r
      → Planned h (symbol_or s.symbol h.symbol) r x
      → Restores m db x
  unfolding read_hold
  read_hold-Restores s h r x found read p =
      let (e, spot, perp) = reading-cases (leg_snapshot db h.strategy_id) _ _ _ r read in
      let leg : r.leg ≡ leg_snapshot db x.strategy_id = e ∙ ap (leg_snapshot db) (sym p.0) in
      (
        s,
        r.perp_base,
        ap (λ i. find_strategy i db.strategies) p.0 ∙ found,
        ap (fetch_live_perp_short_base m (find_exchange s.short_exchange_id db.exchanges)) p.1
            ∙ perp,
        subst (λ l. Sized x l r.perp_base) leg p.2,
      )

  read_hold-leg :
      (s : Strategy ℕ) (h : Hold) (r : Reading)
      → read_hold m db s h ≡ some r
      → r.leg.spot_size_base ≡ r.spot_base
  unfolding read_hold
  read_hold-leg s h r read =
      let (e, spot, perp) = reading-cases (leg_snapshot db h.strategy_id) _ _ _ r read in
      ap (λ (l : LegSnapshot). l.spot_size_base) e ∙ estimate-leg db h.strategy_id r.spot_base spot

  scan_found-Fits :
      (c : RepairConfig) (epsilon now : ℕ) (h : Hold) (s : Strategy ℕ) (states : States)
      → find_strategy h.strategy_id db.strategies ≡ some s
      → Fits (Restores m db) (scan_found c m db epsilon now h (some s) states).0
  unfolding judge
  scan_found-Fits c epsilon now h s states found = elim (Option-cases (read_hold m db s h)) [
    | inl e ↦
        if-both (λ (v : Verdict × States). Fits (Restores m db) v.0) (is_live s.status)
          (λ _. rw e tt) λ _. tt
    | inr (r, e) ↦
        let symbol = symbol_or s.symbol h.symbol in
        let v = (judge c epsilon now h symbol r states).0 in
        let fits = judge-Fits c epsilon now h symbol r states (read_hold-leg s h r e) in
        if-both (λ (v : Verdict × States). Fits (Restores m db) v.0) (is_live s.status)
          (λ _. rw e (Fits-map _ _ v (λ x p. read_hold-Restores s h r x found e p) fits)) λ _. tt
  ]

  scan_hold-Fits :
      (c : RepairConfig) (epsilon now : ℕ) (h : Hold) (states : States)
      → Fits (Restores m db) (scan_hold c m db epsilon now h states).0
  unfolding scan_hold
  scan_hold-Fits c epsilon now h states =
      elim (Option-cases (find_strategy h.strategy_id db.strategies)) [
        | inl e ↦
            if-both (λ (v : Verdict × States). Fits (Restores m db) v.0) (h.strategy_id == 0)
              (λ _. tt) λ _. rw e tt
        | inr (s, e) ↦
            if-both (λ (v : Verdict × States). Fits (Restores m db) v.0) (h.strategy_id == 0)
              (λ _. tt) λ _. rw e (scan_found-Fits c epsilon now h s states e)
      ]

  scan_holds-Fits :
      (c : RepairConfig) (epsilon now : ℕ) (hs : List Hold) (states : States)
      → All (Fits (Restores m db)) (scan_holds c m db epsilon now hs states).0
  unfolding scan_holds
  scan_holds-Fits c epsilon now [] states = tt
  scan_holds-Fits c epsilon now (h ∷ hs) states =
      (scan_hold-Fits c epsilon now h states, scan_holds-Fits c epsilon now hs _)

-- Each reduction of the repair plan is of a strategy that is in the database and whose perpetual can be
-- read, and takes something off: either off a spot leg, which is left exactly as large as the perpetual;
-- or off a perpetual that is larger than the spot leg, namely the excess, but no more than the database
-- has of the perpetual.
pub repairs_restore :
    (c : RepairConfig) (m : Market) (db : Session ℕ) (nav_total now : ℕ) (hs : List Hold)
    (states : States)
    → All (Restores m db) (build_mismatch_plan c m db nav_total now hs states).0.repair_plan
unfolding build_mismatch_plan
repairs_restore c m db nav_total now hs states =
    repairs_of-All (Restores m db) _ (scan_holds-Fits m db c _ now hs states)
