-- ===== src/Rebalance/Plan/Conserved.antt =====
-- No open pair is lost between the kept and the closed ones.
use arbitrage_station.Base.{ℕ, ◌+◌, ◌≡◌, ◌∙◌, refl, String, List, [], ◌∷◌, ◌++◌, arith}
use arbitrage_station.Rebalance.Keep.{PairRow, Picked, total_of, pick_keep_subset_for_row}
use arbitrage_station.Rebalance.Keep.Partition.{pick-IsPartition}
use arbitrage_station.Rebalance.Plan.{
  TargetRow, CloseCode, CloseItem, KeepRow, DeltaPlan, Buckets, add_to_bucket, bucket_all,
  insert_desc, sort_desc, sort_buckets, pop_bucket, close_items, extend, plan_row, plan_rows,
  close_rest, empty_plan, min_top_up_of, build_rebalance_delta_plan, excess_over_target_same_row,
}

abbrev bucketed : Buckets → ℕ
bucketed [] = 0
bucketed ((k, rs) ∷ bs) = total_of rs + bucketed bs

abbrev pub closed_notional : List CloseItem → ℕ
closed_notional [] = 0
closed_notional (c ∷ cs) = c.size + closed_notional cs

abbrev pub kept_notional_of : List KeepRow → ℕ
kept_notional_of [] = 0
kept_notional_of (k ∷ ks) = total_of k.kept + kept_notional_of ks

append-total :
    (rs : List PairRow) (r : PairRow) → total_of (rs ++ r ∷ []) ≡ total_of rs + r.pair_notional
append-total [] r = ground arith
append-total (x ∷ rs) r = ground (arith, append-total rs r)

append-closed :
    (cs ds : List CloseItem) → closed_notional (cs ++ ds) ≡ closed_notional cs + closed_notional ds
append-closed [] ds = omega arith
append-closed (c ∷ cs) ds = ground (arith, append-closed cs ds)

append-kept :
    (ks : List KeepRow) (k : KeepRow)
    → kept_notional_of (ks ++ k ∷ []) ≡ kept_notional_of ks + total_of k.kept
append-kept [] k = ground arith
append-kept (x ∷ ks) k = ground (arith, append-kept ks k)

add_to_bucket-total :
    (r : PairRow) (bs : Buckets) → bucketed (add_to_bucket r bs) ≡ r.pair_notional + bucketed bs
unfolding add_to_bucket
add_to_bucket-total r [] = ground arith
add_to_bucket-total r ((k, rs) ∷ bs) = ground (arith, add_to_bucket-total r bs, append-total rs r)

bucket_all-total :
    (rs : List PairRow) (bs : Buckets) → bucketed (bucket_all rs bs) ≡ total_of rs + bucketed bs
unfolding bucket_all
bucket_all-total [] bs = omega arith
bucket_all-total (r ∷ rs) bs =
    ground (arith, bucket_all-total rs (add_to_bucket r bs), add_to_bucket-total r bs)

insert_desc-total :
    (r : PairRow) (rs : List PairRow) → total_of (insert_desc r rs) ≡ r.pair_notional + total_of rs
unfolding insert_desc
insert_desc-total r [] = refl
insert_desc-total r (x ∷ rs) = ground (arith, insert_desc-total r rs)

sort_desc-total : (rs : List PairRow) → total_of (sort_desc rs) ≡ total_of rs
unfolding sort_desc
sort_desc-total [] = refl
sort_desc-total (r ∷ rs) = ground (arith, insert_desc-total r (sort_desc rs), sort_desc-total rs)

sort_buckets-total : (bs : Buckets) → bucketed (sort_buckets bs) ≡ bucketed bs
unfolding sort_buckets
sort_buckets-total [] = refl
sort_buckets-total ((k, rs) ∷ bs) = ground (arith, sort_desc-total rs, sort_buckets-total bs)

pop_bucket-total :
    (k : String) (bs : Buckets)
    → let (rs, rest) = pop_bucket k bs in total_of rs + bucketed rest ≡ bucketed bs
unfolding pop_bucket
pop_bucket-total k [] = refl
pop_bucket-total k ((j, rs) ∷ bs) = ground (arith, pop_bucket-total k bs)

close_items-total :
    (why : CloseCode) (rs : List PairRow) → closed_notional (close_items why rs) ≡ total_of rs
unfolding close_items
close_items-total why [] = refl
close_items-total why (r ∷ rs) = ground (arith, close_items-total why rs)

close_rest-total : (bs : Buckets) → closed_notional (close_rest bs) ≡ bucketed bs
unfolding close_rest
close_rest-total [] = refl
close_rest-total ((k, rs) ∷ bs) = ground (
  arith,
  append-closed (close_items CloseCode.not_in_target_portfolio rs) (close_rest bs),
  close_items-total CloseCode.not_in_target_portfolio rs,
  close_rest-total bs,
)

abbrev accounted : DeltaPlan × Buckets → ℕ
accounted (d, bs) = kept_notional_of d.keep_rows + closed_notional d.close_plan + bucketed bs

extend-accounted :
    (m : ℕ) (t : TargetRow) (p : Picked) (d : DeltaPlan)
    → kept_notional_of (extend m t p d).keep_rows + closed_notional (extend m t p d).close_plan
      ≡ kept_notional_of d.keep_rows
        + closed_notional d.close_plan
        + (total_of p.keep + total_of p.close)
extend-accounted m t p d = omega (
  arith,
  append-kept d.keep_rows (record {
    row_id = t.row_id;
    target_notional = t.pair_notional;
    kept_notional = p.keep_sum;
    kept = p.keep;
  }),
  append-closed d.close_plan (close_items excess_over_target_same_row p.close),
  close_items-total excess_over_target_same_row p.close,
)

plan_row-accounted :
    (m : ℕ) (t : TargetRow) (s : DeltaPlan × Buckets) → accounted (plan_row m t s) ≡ accounted s
unfolding plan_row
plan_row-accounted m t (d, bs) =
    let rows = (pop_bucket t.row_id bs).0 in
    let p = pick_keep_subset_for_row t.pair_notional rows in
    ground (
      arith,
      extend-accounted m t p d,
      pop_bucket-total t.row_id bs,
      (pick-IsPartition t.pair_notional rows).totals,
    )

plan_rows-accounted :
    (m : ℕ) (ts : List TargetRow) (s : DeltaPlan × Buckets)
    → accounted (plan_rows m ts s) ≡ accounted s
unfolding plan_rows
plan_rows-accounted m [] s = refl
plan_rows-accounted m (t ∷ ts) s =
    plan_rows-accounted m ts (plan_row m t s) ∙ plan_row-accounted m t s

-- The notional that the plan keeps and that which it closes are together that of the open pairs,
-- whatever the target is.
pub delta_plan_conserves :
    (min_pair : ℕ) (current : List PairRow) (targets : List TargetRow)
    → let d = build_rebalance_delta_plan min_pair current targets in
      kept_notional_of d.keep_rows + closed_notional d.close_plan ≡ total_of current
unfolding build_rebalance_delta_plan
delta_plan_conserves min_pair current targets =
    let bs = bucket_all current [] in
    let s = plan_rows (min_top_up_of min_pair) targets (empty_plan, sort_buckets bs) in
    omega (
      arith,
      plan_rows-accounted (min_top_up_of min_pair) targets (empty_plan, sort_buckets bs),
      append-closed s.0.close_plan (close_rest s.1),
      close_rest-total s.1,
      sort_buckets-total bs,
      bucket_all-total current [],
    )
