-- ===== src/Rebalance/Keep.antt =====
-- Which pairs of one row stay open (`_pick_keep_subset_for_row` of target_state.py).
--
-- Notionals are in units of 0.0001 USD, where those in cents and 8% of them are whole numbers, and a missing or
-- negative one counts as 0 in the source. A cost is in units of 0.00001 USD, so that its factors 1.2 and 4
-- are whole; two costs that differ do so by more than the 1e-9 up to which the source takes them for equal.
pub mod Optimal
pub mod Partition
use arbitrage_station.Base.{
  ℕ, zero, suc, ◌+◌, ◌-◌, ◌*◌, ◌/◌, String, Bool, true, false, ◌&&◌, ◌||◌, not, Option, none, some,
  List, [], ◌∷◌, ◌++◌, ◌==◌, ltb, leb, if◌then◌else◌, length, min, max,
}

pub record PairRow : Type 0 where
  pub strategy_id : ℕ
  pub row_id : String
  pub pair_notional : ℕ

-- `keep_subset`, `close_subset` and `keep_sum`
pub record Picked : Type 0 where
  pub keep : List PairRow
  pub close : List PairRow
  pub keep_sum : ℕ

abbrev pub total_of : List PairRow → ℕ
total_of [] = 0
total_of (r ∷ rs) = r.pair_notional + total_of rs

-- 10 USD, 40 USD, and 8% of the target between them
abbrev pub tolerance : ℕ → ℕ
tolerance target = max 100000 (min 400000 (target * 8 / 100))

-- A mask has a bit for each row, that of the first row lowest; all of them in their order as numbers.
both_bits : List (List Bool) → List (List Bool)
both_bits [] = []
both_bits (m ∷ ms) = (false ∷ m) ∷ (true ∷ m) ∷ both_bits ms

masks : ℕ → List (List Bool)
unfolding both_bits
masks zero = [] ∷ []
masks (suc n) = both_bits (masks n)

abbrev pub kept_sum : List Bool → List PairRow → ℕ
kept_sum (true ∷ m) (r ∷ rs) = r.pair_notional + kept_sum m rs
kept_sum (false ∷ m) (_ ∷ rs) = kept_sum m rs
kept_sum _ _ = 0

-- What closing, opening and an overshoot cost when `keep` of `total` stays.
abbrev pub keep_cost : ℕ → ℕ → ℕ → ℕ
keep_cost total target keep =
    10 * ((total - keep) + (target - keep))
    + 12 * (keep - target)
    + 40 * ((keep - target) - tolerance target)

abbrev pub mask_cost : ℕ → List PairRow → List Bool → ℕ
mask_cost target rows m = keep_cost (total_of rows) target (kept_sum m rows)

-- `cost < best_cost or (cost == best_cost and keep_sum > best_keep_sum)`
abbrev improves : ℕ → List PairRow → List Bool → List Bool → Bool
improves target rows m best =
    ltb (mask_cost target rows m) (mask_cost target rows best)
    || (mask_cost target rows m == mask_cost target rows best
        && ltb (kept_sum best rows) (kept_sum m rows))

best_of : ℕ → List PairRow → List Bool → List (List Bool) → List Bool
best_of target rows best [] = best
best_of target rows best (m ∷ ms) =
    best_of target rows (if improves target rows m best then m else best) ms

-- The first mask, 0, is taken whatever it costs.
abbrev first_best : ℕ → List PairRow → List (List Bool) → List Bool
first_best target rows [] = []
first_best target rows (m ∷ ms) = best_of target rows m ms

pub best_mask : ℕ → List PairRow → List Bool
unfolding masks best_of
best_mask target rows = first_best target rows (masks (length rows))

abbrev pub split_mask : List Bool → List PairRow → Picked
split_mask _ [] = record { keep = []; close = []; keep_sum = 0 }
split_mask [] (r ∷ rs) = record { keep = []; close = r ∷ rs; keep_sum = 0 }
split_mask (b ∷ m) (r ∷ rs) =
    let rest = split_mask m rs in
    if b
    then record {
      keep = r ∷ rest.keep;
      close = rest.close;
      keep_sum = r.pair_notional + rest.keep_sum;
    }
    else record { keep = rest.keep; close = r ∷ rest.close; keep_sum = rest.keep_sum }

-- The greedy way: rows with their positions, by size, the largest first.
insert_large : ℕ × PairRow → List (ℕ × PairRow) → List (ℕ × PairRow)
insert_large x [] = x ∷ []
insert_large x (y ∷ ys) =
    let rest = insert_large x ys in
    if leb y.1.pair_notional x.1.pair_notional then x ∷ y ∷ ys else y ∷ rest

indexed : ℕ → List PairRow → List (ℕ × PairRow)
unfolding insert_large
indexed i [] = []
indexed i (r ∷ rs) = insert_large (i, r) (indexed (suc i) rs)

-- The kept positions and their sum
greedy : ℕ → ℕ → List (ℕ × PairRow) → List ℕ × ℕ
greedy room sum [] = ([], sum)
greedy room sum ((i, r) ∷ rs) =
    let taken = (ltb 0 r.pair_notional && leb (sum + r.pair_notional) room) in
    let rest = greedy room (if taken then sum + r.pair_notional else sum) rs in
    if taken then (i ∷ rest.0, rest.1) else rest

smallest : (ℕ × PairRow) → List (ℕ × PairRow) → ℕ × PairRow
smallest x [] = x
smallest x (y ∷ ys) = smallest (if ltb y.1.pair_notional x.1.pair_notional then y else x) ys

abbrev keep_smallest : ℕ → List (ℕ × PairRow) → List ℕ × ℕ
keep_smallest room [] = ([], 0)
keep_smallest room (x ∷ xs) =
    let s = smallest x xs in
    if leb s.1.pair_notional room then (s.0 ∷ [], s.1.pair_notional) else ([], 0)

abbrev greedy_or_smallest : ℕ → List (ℕ × PairRow) → List ℕ × ℕ
greedy_or_smallest room rs =
    let g = greedy room 0 rs in elim g.0 [ [] ↦ keep_smallest room rs | _ ∷ _ ↦ g ]

abbrev has_index : ℕ → List ℕ → Bool
has_index i [] = false
has_index i (j ∷ js) = (i == j) || has_index i js

abbrev split_index : ℕ → List ℕ → List PairRow → List PairRow × List PairRow
split_index i js [] = ([], [])
split_index i js (r ∷ rs) =
    let (keep, close) = split_index (suc i) js rs in
    if has_index i js then (r ∷ keep, close) else (keep, r ∷ close)

pub pick_greedy : ℕ → List PairRow → Picked
unfolding indexed greedy smallest
pick_greedy target rows =
    let (js, sum) = greedy_or_smallest (target + tolerance target) (indexed 0 rows) in
    let (keep, close) = split_index 0 js rows in
    record { keep = keep; close = close; keep_sum = sum }

-- `_pick_keep_subset_for_row`
pub pick_keep_subset_for_row : ℕ → List PairRow → Picked
unfolding best_mask pick_greedy
pick_keep_subset_for_row target rows =
    let closed : Picked = record { keep = []; close = rows; keep_sum = 0 } in
    if target == 0 || total_of rows == 0
    then closed
    else if leb (length rows) 14
    then split_mask (best_mask target rows) rows
    else pick_greedy target rows
