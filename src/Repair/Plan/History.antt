-- ===== src/Repair/Plan/History.antt =====
-- What the states of the mismatches know of the cycles before.
use arbitrage_station.Base.{
  ℕ, String, ==→eq, ◌<◌, ◌≡◌, inl, inr, refl, sym, ap, true, Option, none, some, List, [], ◌∷◌,
  arith, All, length, if◌then◌else◌, ltb, ◌==◌, Bool-cases, Option-cases,
}
use mathlib.Core.Path.{subst}
use arbitrage_station.Trading.Store.{Strategy, find_strategy}
use arbitrage_station.Repair.Plan.{
  Hold, MismatchState, States, no_state, state_of, Reading, read_hold, judge, scan_found, scan_hold,
  scan_holds, build_mismatch_plan, epsilon_usd, is_abnormal, or_now, next_state, is_active_id,
  symbol_or,
}
use arbitrage_station.Repair.Plan.Sightings.{
  Cycle, Sighting, absent, unread, level, off, sight_read, sight_found, sight_hold, sight_in,
  sighting, add_off, off_times, add_zero, zero_times, oldest, states_after, NoHold, OncePerStrategy,
  IsTimely, state_of-drop, state_of-put, state_of-prune, after,
}

module _ (cy : Cycle) where
  abbrev pub epsilon : ℕ
  epsilon = epsilon_usd cy.config cy.nav_total

  -- The effect of one hold on the state of the strategy `i`.
  abbrev effect : Hold → Sighting → ℕ → States → MismatchState
  effect h seen i states =
      if h.strategy_id == i then after cy.now seen (state_of i states) else state_of i states

  judge-state :
      (h : Hold) (symbol : String) (i : ℕ) (r : Reading) (states : States)
      → state_of i (judge cy.config epsilon cy.now h symbol r states).1
        ≡ effect h (sight_read epsilon (some r)) i states
  unfolding judge
  judge-state h symbol i r states =
      let s = next_state cy.now r (state_of h.strategy_id states) in
      let drop = state_of-drop i h.strategy_id states in
      let put = state_of-put i h.strategy_id s states in
      elim (Bool-cases (h.strategy_id == i)) [
        | inl e ↦ let same = ap (λ j. state_of j states) (==→eq h.strategy_id i e) in ground arith
        | inr e ↦ ground arith
      ]

  same_effect : (h : Hold) (i : ℕ) (states : States) → state_of i states ≡ effect h unread i states
  same_effect h i states = ground arith

  found-state :
      (h : Hold) (o : Option (Strategy ℕ)) (i : ℕ) (states : States)
      → state_of i (scan_found cy.config cy.market cy.db epsilon cy.now h o states).1
        ≡ effect h (sight_found cy h o) i states
  found-state h none i states = same_effect h i states
  found-state h (some s) i states =
      let keep = same_effect h i states in
      let symbol = symbol_or s.symbol h.symbol in
      elim (Option-cases (read_hold cy.market cy.db s h)) [
        | inl e ↦ rw e (ground arith)
        | inr (r, e) ↦ rw e (ground (arith, judge-state h symbol i r states))
      ]

  scan_hold-state :
      (h : Hold) (i : ℕ) (states : States)
      → state_of i (scan_hold cy.config cy.market cy.db epsilon cy.now h states).1
        ≡ effect h (sight_hold cy h) i states
  unfolding scan_hold
  scan_hold-state h i states =
      let o = find_strategy h.strategy_id cy.db.strategies in
      ground (arith, found-state h o i states)

  pub scan_holds-NoHold :
      (i : ℕ) (hs : List Hold) (states : States)
      → NoHold i hs
      → state_of i (scan_holds cy.config cy.market cy.db epsilon cy.now hs states).1
        ≡ state_of i states
  unfolding scan_holds
  scan_holds-NoHold i [] states no_hold = refl
  scan_holds-NoHold i (h ∷ hs) states no_hold =
      let states' = (scan_hold cy.config cy.market cy.db epsilon cy.now h states).1 in
      let rest = scan_holds-NoHold i hs states' no_hold.1 in
      let here = scan_hold-state h i states in ground arith

  scan_holds-state :
      (i : ℕ) (hs : List Hold) (states : States)
      → OncePerStrategy hs
      → ltb 0 i ≡ true
      → (if is_active_id i hs
          then state_of i (scan_holds cy.config cy.market cy.db epsilon cy.now hs states).1
          else no_state)
        ≡ after cy.now (sight_in cy i hs) (state_of i states)
  unfolding scan_holds
  scan_holds-state i [] states once positive = refl
  scan_holds-state i (h ∷ hs) states once positive =
      let states' = (scan_hold cy.config cy.market cy.db epsilon cy.now h states).1 in
      let here = scan_hold-state h i states in
      elim (Bool-cases (h.strategy_id == i)) [
        | inl e ↦
            let none =
              scan_holds-NoHold i hs states'
                (subst (λ j. NoHold j hs) (==→eq h.strategy_id i e) once.0) in
            ground arith
        | inr e ↦ let rest = scan_holds-state i hs states' once.1 positive in ground arith
      ]

  cycle-state :
      (i : ℕ) (states : States)
      → OncePerStrategy cy.holds
      → ltb 0 i ≡ true
      → state_of i
          (build_mismatch_plan cy.config cy.market cy.db cy.nav_total cy.now cy.holds states).1
        ≡ after cy.now (sighting cy i) (state_of i states)
  unfolding build_mismatch_plan sighting
  cycle-state i states once positive =
      let states' = (scan_holds cy.config cy.market cy.db epsilon cy.now cy.holds states).1 in
      let prune = state_of-prune i cy.holds states' in
      let all = scan_holds-state i cy.holds states once positive in ground arith

oldest-positive : (t : ℕ) (ts : List ℕ) → 0 < t → All (λ u. 0 < u) ts → 0 < oldest (t ∷ ts)
oldest-positive t [] h hs = h
oldest-positive t (u ∷ us) h hs = oldest-positive u us hs.0 hs.1

oldest-cons : (t : ℕ) (ts : List ℕ) → All (λ u. 0 < u) ts → oldest (t ∷ ts) ≡ or_now (oldest ts) t
oldest-cons t [] hs = ground arith
oldest-cons t (u ∷ us) hs = ground (arith, oldest-positive u us hs.0 hs.1)

-- The state knows the number of the times, the oldest of them, and the oldest reading of 0.
abbrev pub Knows : MismatchState → List ℕ → List ℕ → Type 0
Knows s ts zs =
    (s.rounds ≡ length ts)
    × (s.first_seen_ts ≡ oldest ts)
    × (s.abnormal_first_seen_ts ≡ oldest zs)
    × All (λ t. 0 < t) ts
    × All (λ t. 0 < t) zs

after-Knows :
    (now : ℕ) (seen : Sighting) (s : MismatchState) (ts zs : List ℕ)
    → 0 < now
    → Knows s ts zs
    → Knows (after now seen s) (add_off now seen ts) (add_zero now seen zs)
after-Knows now absent s ts zs h k = (refl, refl, refl, tt, tt)
after-Knows now unread s ts zs h k = k
after-Knows now level s ts zs h k = (refl, refl, refl, tt, tt)
after-Knows now (off r) s ts zs h k = elim (Bool-cases (is_abnormal r)) [
  | inl e ↦
      let first = oldest-cons now ts k.3 in
      let zero = oldest-cons now zs k.4 in
      rw e (omega arith, rw (k.1) (sym first), rw (k.2) (sym zero), (h, k.3), (h, k.4))
  | inr e ↦
      let first = oldest-cons now ts k.3 in
      rw e (omega arith, rw (k.1) (sym first), refl, (h, k.3), tt)
]

-- The entry of a strategy tells how often in a row it was found off, since when, and since when its perpetual
-- has read as 0. The clock stands above 0, and no cycle holds a strategy twice.
pub states_after-Knows :
    (i : ℕ) (cycles : List Cycle)
    → ltb 0 i ≡ true
    → All IsTimely cycles
    → Knows (state_of i (states_after cycles)) (off_times i cycles) (zero_times i cycles)
unfolding states_after off_times zero_times
states_after-Knows i [] positive h = (refl, refl, refl, tt, tt)
states_after-Knows i (cy ∷ older) positive h =
    let step =
      after-Knows cy.now (sighting cy i) (state_of i (states_after older)) (off_times i older)
        (zero_times i older) h.0.0 (states_after-Knows i older positive h.1) in
    rw (cycle-state cy i (states_after older) h.0.1 positive) step
