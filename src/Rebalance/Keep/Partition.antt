-- ===== src/Rebalance/Keep/Partition.antt =====
-- What is kept and what is closed of a bucket are its rows, none twice and none left out.
use arbitrage_station.Base.{ℕ, suc, ◌+◌, ◌≡◌, Bool, true, false, List, [], ◌∷◌, arith, length}
use arbitrage_station.Rebalance.Keep.{
  PairRow, Picked, total_of, split_mask, split_index, best_mask, pick_greedy,
  pick_keep_subset_for_row, indexed, greedy_or_smallest, tolerance,
}

-- The kept and the closed rows have together the notional and the number of all rows.
pub record IsPartition (rows : List PairRow) (p : Picked) : Type 0 where
  pub totals : total_of p.keep + total_of p.close ≡ total_of rows
  pub counts : length p.keep + length p.close ≡ length rows

split_mask-IsPartition :
    (m : List Bool) (rows : List PairRow)
    → IsPartition rows (split_mask m rows)
      × (total_of (split_mask m rows).keep ≡ (split_mask m rows).keep_sum)
split_mask-IsPartition m [] = ground arith
split_mask-IsPartition [] (r ∷ rs) = ground arith
split_mask-IsPartition (true ∷ m) (r ∷ rs) = ground (arith, split_mask-IsPartition m rs)
split_mask-IsPartition (false ∷ m) (r ∷ rs) = ground (arith, split_mask-IsPartition m rs)

split_index_parts :
    (i : ℕ) (js : List ℕ) (rows : List PairRow)
    → let (keep, close) = split_index i js rows in
      (total_of keep + total_of close ≡ total_of rows) × (length keep + length close ≡ length rows)
split_index_parts i js [] = ground arith
split_index_parts i js (r ∷ rs) = ground (arith, split_index_parts (suc i) js rs)

-- The pairs of a row are split into those kept and those closed, by their number and by their notional.
pub pick-IsPartition :
    (target : ℕ) (rows : List PairRow) → IsPartition rows (pick_keep_subset_for_row target rows)
unfolding pick_keep_subset_for_row pick_greedy
pick-IsPartition target rows = ground (
  arith,
  split_mask-IsPartition (best_mask target rows) rows,
  split_index_parts 0 (greedy_or_smallest (target + tolerance target) (indexed 0 rows)).0 rows,
)
