-- ===== src/Repair/Plan/Sightings.antt =====
-- How the strategies look over some cycles of the plan, and how the states are read and written.
use arbitrage_station.Base.{
  ℕ, ◌<◌, ◌≡◌, ◌≢◌, Option, none, some, List, [], ◌∷◌, arith, if◌then◌else◌, ◌==◌, keep_if,
}
use arbitrage_station.Trading.Store.{Session, Strategy, find_strategy}
use arbitrage_station.Repair.Live.{Market}
use arbitrage_station.Repair.Plan.{
  Hold, RepairConfig, MismatchState, States, no_state, state_of, drop_state, put_state, Reading,
  read_hold, build_mismatch_plan, epsilon_usd, is_within, is_abnormal, next_state, is_live,
  is_active_id,
}

-- What one run of the planner is given.
pub record Cycle : Type 0 where
  pub config : RepairConfig
  pub market : Market
  pub db : Session ℕ
  pub nav_total : ℕ
  pub now : ℕ
  pub holds : List Hold

-- How a strategy looks in a cycle: it is not held, its quantities cannot be read, they match, or they do not.
pub data Sighting : Type 0 where
  absent unread level : Sighting
  off : Reading → Sighting

abbrev pub sight_read : ℕ → Option Reading → Sighting
sight_read epsilon none = unread
sight_read epsilon (some r) = if is_within epsilon r then level else off r

abbrev pub sight_found : Cycle → Hold → Option (Strategy ℕ) → Sighting
sight_found cy h none = unread
sight_found cy h (some s) =
    if is_live s.status
    then sight_read (epsilon_usd cy.config cy.nav_total) (read_hold cy.market cy.db s h)
    else unread

abbrev pub sight_hold : Cycle → Hold → Sighting
sight_hold cy h =
    if h.strategy_id == 0
    then unread
    else sight_found cy h (find_strategy h.strategy_id cy.db.strategies)

abbrev pub sight_in : Cycle → ℕ → List Hold → Sighting
sight_in cy i [] = absent
sight_in cy i (h ∷ hs) = if h.strategy_id == i then sight_hold cy h else sight_in cy i hs

unfoldable pub sighting : Cycle → ℕ → Sighting
sighting cy i = if i == 0 then absent else sight_in cy i cy.holds

-- The times of the cycles that found the strategy off, the latest first, since it was last in order or not held;
-- a cycle that could not read it does not count.
abbrev pub add_off : ℕ → Sighting → List ℕ → List ℕ
add_off now absent ts = []
add_off now unread ts = ts
add_off now level ts = []
add_off now (off r) ts = now ∷ ts

unfoldable pub off_times : ℕ → List Cycle → List ℕ
unfolding sighting
off_times i [] = []
off_times i (cy ∷ older) = add_off cy.now (sighting cy i) (off_times i older)

-- Those of them, as far back as they follow each other, at which the perpetual read as 0.
abbrev pub add_zero : ℕ → Sighting → List ℕ → List ℕ
add_zero now absent ts = []
add_zero now unread ts = ts
add_zero now level ts = []
add_zero now (off r) ts = if is_abnormal r then now ∷ ts else []

unfoldable pub zero_times : ℕ → List Cycle → List ℕ
unfolding sighting
zero_times i [] = []
zero_times i (cy ∷ older) = add_zero cy.now (sighting cy i) (zero_times i older)

-- The last of the times, 0 if there is none.
abbrev pub oldest : List ℕ → ℕ
oldest [] = 0
oldest (t ∷ []) = t
oldest (t ∷ u ∷ ts) = oldest (u ∷ ts)

-- The states after the cycles, the latest of which stands first.
unfoldable pub states_after : List Cycle → States
unfolding build_mismatch_plan
states_after [] = []
states_after (cy ∷ older) =
    (build_mismatch_plan cy.config cy.market cy.db cy.nav_total cy.now cy.holds
      (states_after older)).1

-- No hold is of the strategy `i`.
abbrev pub NoHold : ℕ → List Hold → Type 0
NoHold i [] = Unit
NoHold i (h ∷ hs) = (h.strategy_id ≢ i) × NoHold i hs

-- Each strategy is held once.
abbrev pub OncePerStrategy : List Hold → Type 0
OncePerStrategy [] = Unit
OncePerStrategy (h ∷ hs) = NoHold h.strategy_id hs × OncePerStrategy hs

abbrev pub IsTimely : Cycle → Type 0
IsTimely cy = (0 < cy.now) × OncePerStrategy cy.holds

pub state_of-drop :
    (i j : ℕ) (states : States)
    → state_of i (drop_state j states) ≡ (if j == i then no_state else state_of i states)
state_of-drop i j [] = ground arith
state_of-drop i j ((k, s) ∷ more) = ground (arith, state_of-drop i j more)

pub state_of-put :
    (i j : ℕ) (s : MismatchState) (states : States)
    → state_of i (put_state j s states) ≡ (if j == i then s else state_of i states)
state_of-put i j s states = ground (arith, state_of-drop i j states)

pub state_of-prune :
    (i : ℕ) (hs : List Hold) (states : States)
    → state_of i (keep_if (λ (j, _). is_active_id j hs) states)
      ≡ (if is_active_id i hs then state_of i states else no_state)
state_of-prune i hs [] = ground arith
state_of-prune i hs ((k, s) ∷ more) = ground (arith, state_of-prune i hs more)

-- A sighting's effect on the state.
abbrev pub after : ℕ → Sighting → MismatchState → MismatchState
after now absent s = no_state
after now unread s = s
after now level s = no_state
after now (off r) s = next_state now r s
