-- ===== src/Repair/Execute/Accounts.antt =====
-- The lists that the execution of a repair plan returns.
use arbitrage_station.Base.{
  ℕ, ◌+◌, ◌≤◌, ◌≡◌, ◌⊎◌, refl, ap, String, true, false, ◌||◌, List, [], ◌∷◌, ◌++◌, arith, All,
  length,
}
use arbitrage_station.Trading.Store.{find_strategy}
use arbitrage_station.Repair.Plan.{RepairItem, FallbackItem}
use arbitrage_station.Repair.Execute.{
  Desk, Floor, RepairError, invalid_repair_item, strategy_not_active, leg_unavailable,
  leg_size_zero, reduce_order_failed, reduce_filled_zero, Outcome, repaired, failed, FailedItem,
  Execution, symbol_at, add_outcome, fallback_closes, ids_of, seen_in, execute_item, execute_items,
  execute_mismatch_repair_plan,
}

-- No strategy is asked for twice, and none that is among the numbers.
abbrev Fresh : List ℕ → List FallbackItem → Type 0
Fresh seen [] = Unit
Fresh seen (c ∷ cs) = (seen_in c.strategy_id seen ≡ false) × Fresh (c.strategy_id ∷ seen) cs

-- A failure asks for a close, unless the strategy is not active or has no number.
abbrev Asks : List FallbackItem → List ℕ → ℕ → RepairError → Type 0
Asks cs seen i strategy_not_active = Unit
Asks cs seen i _ = (i ≡ 0) ⊎ (seen_in i (ids_of cs ++ seen) ≡ true)

abbrev Answered : List FallbackItem → List ℕ → FailedItem → Type 0
Answered cs seen f = Asks cs seen f.item.strategy_id f.error

fallback_closes-Fresh :
    (x : RepairItem) (symbol : String) (seen : List ℕ) (out : Outcome)
    → Fresh seen (fallback_closes x symbol seen out)
fallback_closes-Fresh x symbol seen (repaired r) = tt
fallback_closes-Fresh x symbol seen (failed strategy_not_active) = tt
fallback_closes-Fresh x symbol seen (failed invalid_repair_item) = ground arith
fallback_closes-Fresh x symbol seen (failed leg_unavailable) = ground arith
fallback_closes-Fresh x symbol seen (failed leg_size_zero) = ground arith
fallback_closes-Fresh x symbol seen (failed reduce_order_failed) = ground arith
fallback_closes-Fresh x symbol seen (failed reduce_filled_zero) = ground arith

fallback_closes-short :
    (x : RepairItem) (symbol : String) (seen : List ℕ) (out : Outcome)
    → length (fallback_closes x symbol seen out) ≤ 1
fallback_closes-short x symbol seen (repaired r) = omega arith
fallback_closes-short x symbol seen (failed strategy_not_active) = omega arith
fallback_closes-short x symbol seen (failed invalid_repair_item) = ground arith
fallback_closes-short x symbol seen (failed leg_unavailable) = ground arith
fallback_closes-short x symbol seen (failed leg_size_zero) = ground arith
fallback_closes-short x symbol seen (failed reduce_order_failed) = ground arith
fallback_closes-short x symbol seen (failed reduce_filled_zero) = ground arith

fallback_closes-answers :
    (x : RepairItem) (symbol : String) (seen : List ℕ) (e : RepairError)
    → Answered (fallback_closes x symbol seen (failed e)) seen (record { item = x; error = e })
fallback_closes-answers x symbol seen strategy_not_active = tt
fallback_closes-answers x symbol seen invalid_repair_item = ground arith
fallback_closes-answers x symbol seen leg_unavailable = ground arith
fallback_closes-answers x symbol seen leg_size_zero = ground arith
fallback_closes-answers x symbol seen reduce_order_failed = ground arith
fallback_closes-answers x symbol seen reduce_filled_zero = ground arith

seen_in-append : (i : ℕ) (js ks : List ℕ) → seen_in i (js ++ ks) ≡ (seen_in i js || seen_in i ks)
seen_in-append i [] ks = refl
seen_in-append i (j ∷ js) ks = ground (arith, seen_in-append i js ks)

Fresh-join :
    (seen : List ℕ) (cs ds : List FallbackItem)
    → length cs ≤ 1
    → Fresh seen cs
    → Fresh (ids_of cs ++ seen) ds
    → Fresh seen (cs ++ ds)
Fresh-join seen [] ds le f g = g
Fresh-join seen (c ∷ []) ds le f g = (f.0, g)
Fresh-join seen (c ∷ d ∷ cs) ds le f g = ground arith

ids_of-append : (cs ds : List FallbackItem) → ids_of (cs ++ ds) ≡ ids_of cs ++ ids_of ds
ids_of-append [] ds = refl
ids_of-append (c ∷ cs) ds = ap (λ ids. c.strategy_id ∷ ids) (ids_of-append cs ds)

later-seen :
    (i : ℕ) (seen : List ℕ) (cs ds : List FallbackItem)
    → seen_in i (ids_of ds ++ (ids_of cs ++ seen)) ≡ true
    → seen_in i (ids_of (cs ++ ds) ++ seen) ≡ true
later-seen i seen cs ds h = grind (arith, seen_in-append, ids_of-append cs ds)

here-seen :
    (i : ℕ) (seen : List ℕ) (cs ds : List FallbackItem)
    → seen_in i (ids_of cs ++ seen) ≡ true
    → seen_in i (ids_of (cs ++ ds) ++ seen) ≡ true
here-seen i seen cs ds h = grind (arith, seen_in-append, ids_of-append cs ds)

-- What holds of an execution that begins when the strategies `seen` have been asked for.
abbrev pub IsAccount : List RepairItem → List ℕ → Execution → Type 0
IsAccount xs seen ex =
    (length ex.repaired_items + length ex.failed_items ≡ length xs)
    × Fresh seen ex.fallback_close_plan
    × All (Answered ex.fallback_close_plan seen) ex.failed_items

module _ (cs ds : List FallbackItem) (seen : List ℕ) where
  Asks-later :
      (i : ℕ) (e : RepairError) → Asks ds (ids_of cs ++ seen) i e → Asks (cs ++ ds) seen i e
  Asks-later i strategy_not_active h = tt
  Asks-later i invalid_repair_item h = ground (arith, later-seen i seen cs ds)
  Asks-later i leg_unavailable h = ground (arith, later-seen i seen cs ds)
  Asks-later i leg_size_zero h = ground (arith, later-seen i seen cs ds)
  Asks-later i reduce_order_failed h = ground (arith, later-seen i seen cs ds)
  Asks-later i reduce_filled_zero h = ground (arith, later-seen i seen cs ds)

  Asks-here : (i : ℕ) (e : RepairError) → Asks cs seen i e → Asks (cs ++ ds) seen i e
  Asks-here i strategy_not_active h = tt
  Asks-here i invalid_repair_item h = ground (arith, here-seen i seen cs ds)
  Asks-here i leg_unavailable h = ground (arith, here-seen i seen cs ds)
  Asks-here i leg_size_zero h = ground (arith, here-seen i seen cs ds)
  Asks-here i reduce_order_failed h = ground (arith, here-seen i seen cs ds)
  Asks-here i reduce_filled_zero h = ground (arith, here-seen i seen cs ds)

Answered-later :
    (seen : List ℕ) (cs ds : List FallbackItem) (fs : List FailedItem)
    → All (Answered ds (ids_of cs ++ seen)) fs
    → All (Answered (cs ++ ds) seen) fs
Answered-later seen cs ds [] h = tt
Answered-later seen cs ds (f ∷ fs) h =
    (Asks-later cs ds seen f.item.strategy_id f.error h.0, Answered-later seen cs ds fs h.1)

add-IsAccount :
    (x : RepairItem) (xs : List RepairItem) (symbol : String) (seen : List ℕ) (out : Outcome)
    (ex : Execution)
    → let cs = fallback_closes x symbol seen out in
      IsAccount xs (ids_of cs ++ seen) ex → IsAccount (x ∷ xs) seen (add_outcome x out cs ex)
add-IsAccount x xs symbol seen (repaired r) ex h = (omega (arith, h.0), h.1, h.2)
add-IsAccount x xs symbol seen (failed e) ex h =
    let out = failed e in
    let cs = fallback_closes x symbol seen out in
    let ds = ex.fallback_close_plan in
    (
      omega (arith, h.0),
      Fresh-join seen cs ds (fallback_closes-short x symbol seen out)
          (fallback_closes-Fresh x symbol seen out) h.1,
      (
        Asks-here cs ds seen x.strategy_id e (fallback_closes-answers x symbol seen e),
        Answered-later seen cs ds ex.failed_items h.2,
      ),
    )

execute_items-IsAccount :
    (d : Desk) (now : ℕ) (xs : List RepairItem) (seen : List ℕ) (f : Floor)
    → IsAccount xs seen (execute_items d now xs seen f).0
unfolding execute_items
execute_items-IsAccount d now [] seen f = (refl, tt, tt)
execute_items-IsAccount d now (x ∷ xs) seen f =
    let (out, f') = execute_item d now x f in
    let symbol = symbol_at x (find_strategy x.strategy_id f.db.strategies) in
    let cs = fallback_closes x symbol seen out in
    add-IsAccount x xs symbol seen out (execute_items d now xs (ids_of cs ++ seen) f').0
      (execute_items-IsAccount d now xs (ids_of cs ++ seen) f')

-- Every item of the plan is repaired or has failed. No strategy is to be closed twice. And a failure asks for
-- the close of its strategy, unless the item has no strategy or the strategy is not active.
execution_accounts :
    (d : Desk) (now : ℕ) (xs : List RepairItem) (f : Floor)
    → IsAccount xs [] (execute_mismatch_repair_plan d now xs f).0
unfolding execute_mismatch_repair_plan
execution_accounts d now xs f = execute_items-IsAccount d now xs [] f
