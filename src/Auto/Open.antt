-- ===== src/Auto/Open.antt =====
-- The execution of the opens (`_execute_open_plan` of backend/core/spot_basis_auto_engine/open_executor.py).
--
-- Notionals and balances are in units of 0.0001 USD and are not negative; so is the ratio of the prices, with
-- 10000 for equal ones. A quotient is rounded down. The fields of a balance's `info` are numbers, 0 for none.
-- `cap_info` only reports.
mod Caps
pub mod Sizes
pub mod Budget
unfoldable pub use Caps.*
use arbitrage_station.Base.{
  ℕ, ◌+◌, ◌-◌, ◌*◌, ◌/◌, String, Bool, true, false, ◌&&◌, ◌||◌, Option, none, some, List, [], ◌∷◌,
  ◌==◌, ltb, leb, if◌then◌else◌, max, min, length, map, not,
}
use text.Mathlib.Text.{◌==◌ as text_eq}
use arbitrage_station.Retry.{Failure}
use arbitrage_station.Auto.{Result, returned, threw, OpenPlan}
use arbitrage_station.Auto.Run.{Opens}

-- What a pair of the size `n` takes from the short leg
abbrev pub perp_used : ℕ → ℕ → ℕ
perp_used n ratio = n * ratio / (10_000 * leverage)

abbrev pub less : ℕ → Option ℕ → Option ℕ
less n none = none
less n (some a) = some (a - n)

abbrev pub or_zero : Option ℕ → ℕ
or_zero none = 0
or_zero (some a) = a

-- `_consume_available_after_open`
unfoldable pub consume_available : OpenPlan → ℕ → ℕ → OpenCaches → OpenCaches
consume_available p n ratio c =
    let i = p.long_exchange_id in
    let j = p.short_exchange_id in
    let remain = or_zero (c.perp_available j) - (n + perp_used n (max 100 ratio)) in
    if (n == 0) || ((i == 0) || (j == 0))
    then c
    else if (i == j) && c.unified j
    then record c {
      perp_available = put j (some remain) c.perp_available;
      spot_available = put i (some remain) c.spot_available;
    }
    else record c {
      perp_available =
          put j (less (perp_used n (max 100 ratio)) (c.perp_available j)) c.perp_available;
      spot_available = put i (less n (c.spot_available i)) c.spot_available;
    }

-- The opened pairs with their sizes, and the rest of the three lists
pub record OpenLists : Type 0 where
  pub done : List (OpenPlan × ℕ)
  pub failed : List (OpenPlan × ℕ × String)
  pub skipped : List OpenPlan

pub data Opening : Type 0 where
  skip : Opening
  did : ℕ → Opening
  refused : ℕ → String → Opening

abbrev pub add_opening : OpenPlan → Opening → OpenLists → OpenLists
add_opening p skip l = record l { skipped = p ∷ l.skipped }
add_opening p (did n) l = record l { done = (p, n) ∷ l.done }
add_opening p (refused n e) l = record l { failed = (p, n, e) ∷ l.failed }

unfoldable pub open_failure : OpenPlan × ℕ × String → Failure
open_failure (p, n, e) = record {
  payload = record {
    strategy_id = 0;
    row_id = p.row_id;
    symbol = p.symbol;
    long_exchange_id = p.long_exchange_id;
    short_exchange_id = p.short_exchange_id;
    size_usd = n;
  };
  error = some e;
}

module _ {D : Type 0} (desk : OpenDesk D) where
  -- One turn of the loop
  unfoldable pub open_one : ℕ → OpenPlan → OpenCaches × D → Opening × (OpenCaches × D)
  unfolding cap_open_size consume_available
  open_one max_pair p st =
      let ((size, ratio), (c, w)) = cap_open_size desk p (min p.size_usd max_pair) st in
      let (reply, w') = desk.open_hedged p size w in
      if min p.size_usd max_pair == 0
      then (skip, st)
      else if ltb size 50_000
      then (skip, (c, w))
      else elim reply [
        | none ↦ (did size, (consume_available p size ratio c, w'))
        | some error ↦ (refused size error, (c, w'))
      ]

  unfoldable pub open_plans : ℕ → List OpenPlan → OpenCaches × D → OpenLists × (OpenCaches × D)
  unfolding open_one
  open_plans max_pair [] st = (record { done = []; failed = []; skipped = [] }, st)
  open_plans max_pair (p ∷ ps) st =
      let (o, st1) = open_one max_pair p st in
      let (rest, st2) = open_plans max_pair ps st1 in (add_opening p o rest, st2)

  -- `_execute_open_plan`; `max_pair` is the setting, at least 1 USD.
  unfoldable pub execute_open_plan : ℕ → List OpenPlan → D → OpenLists × D
  unfolding open_plans
  execute_open_plan max_pair ps w =
      let (lists, (c, w')) = open_plans (max 10_000 max_pair) ps (no_caches, w) in (lists, w')

  -- The step as a cycle uses it
  unfoldable pub open_step : ℕ → List OpenPlan → D → Result Opens × D
  unfolding execute_open_plan open_failure
  open_step max_pair ps w =
      let (lists, w') = execute_open_plan max_pair ps w in
      (
        returned (record {
          opened_pairs = length lists.done;
          open_failed = map open_failure lists.failed;
          open_skipped = lists.skipped;
        }),
        w',
      )
