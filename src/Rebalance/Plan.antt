-- ===== src/Rebalance/Plan.antt =====
-- The plan of opens and closes (`_build_rebalance_delta_plan` of delta_plan.py), from the rows that are
-- open and those of the target.
--
-- An item has the fields that later steps act on; names, fees and scores are copied and left out. Notionals
-- are in units of 0.0001 USD, as in Rebalance/Keep, and not rounded to cents again.
pub mod Conserved
use text.Mathlib.Text.{◌==◌ as text_eq}
use arbitrage_station.Base.{
  ℕ, ◌+◌, ◌-◌, ◌*◌, ◌/◌, String, Bool, true, false, ◌||◌, Option, none, some, List, [], ◌∷◌, ◌++◌,
  ◌==◌, ltb, leb, if◌then◌else◌, max,
}
use arbitrage_station.Rebalance.Keep.{PairRow, Picked, pick_keep_subset_for_row}

pub record TargetRow : Type 0 where
  pub row_id : String
  pub pair_notional : ℕ

pub data CloseCode : Type 0 where
  excess_over_target_same_row not_in_target_portfolio : CloseCode

pub data OpenCode : Type 0 where
  top_up_to_target_same_row new_target_row : OpenCode

pub record CloseItem : Type 0 where
  pub strategy_id : ℕ
  pub row_id : String
  pub size : ℕ
  pub reason : CloseCode

pub record OpenItem : Type 0 where
  pub row_id : String
  pub size : ℕ
  pub reason : OpenCode

pub record KeepRow : Type 0 where
  pub row_id : String
  pub target_notional : ℕ
  pub kept_notional : ℕ
  pub kept : List PairRow

-- `gaps_below_min` counts the reason `gap_below_min_top_up_notional`.
pub record DeltaPlan : Type 0 where
  pub keep_rows : List KeepRow
  pub open_plan : List OpenItem
  pub close_plan : List CloseItem
  pub resize_gap : ℕ
  pub gaps_below_min : ℕ

abbrev pub Buckets : Type 0
Buckets = List (String × List PairRow)

-- `current_by_row.setdefault(row_id, []).append(row)`
pub add_to_bucket : PairRow → Buckets → Buckets
add_to_bucket r [] = (r.row_id, r ∷ []) ∷ []
add_to_bucket r ((k, rs) ∷ bs) =
    let rest = add_to_bucket r bs in
    if text_eq k r.row_id then (k, rs ++ r ∷ []) ∷ bs else (k, rs) ∷ rest

pub bucket_all : List PairRow → Buckets → Buckets
unfolding add_to_bucket
bucket_all [] bs = bs
bucket_all (r ∷ rs) bs = bucket_all rs (add_to_bucket r bs)

-- `lst.sort(key=pair_notional_usd, reverse=True)`
pub insert_desc : PairRow → List PairRow → List PairRow
insert_desc x [] = x ∷ []
insert_desc x (y ∷ ys) =
    let rest = insert_desc x ys in
    if leb y.pair_notional x.pair_notional then x ∷ y ∷ ys else y ∷ rest

pub sort_desc : List PairRow → List PairRow
unfolding insert_desc
sort_desc [] = []
sort_desc (x ∷ xs) = insert_desc x (sort_desc xs)

pub sort_buckets : Buckets → Buckets
unfolding sort_desc
sort_buckets [] = []
sort_buckets ((k, rs) ∷ bs) = (k, sort_desc rs) ∷ sort_buckets bs

-- `current_by_row.pop(row_id, [])`
pub pop_bucket : String → Buckets → List PairRow × Buckets
pop_bucket k [] = ([], [])
pop_bucket k ((j, rs) ∷ bs) =
    let rest = pop_bucket k bs in if text_eq j k then (rs, bs) else (rest.0, (j, rs) ∷ rest.1)

-- Rows without a notional are not closed.
pub close_items : CloseCode → List PairRow → List CloseItem
close_items why [] = []
close_items why (r ∷ rs) =
    let rest = close_items why rs in
    if r.pair_notional == 0
    then rest
    else record {
      strategy_id = r.strategy_id;
      row_id = r.row_id;
      size = r.pair_notional;
      reason = why;
    }
      ∷ rest

abbrev open_code : List PairRow → OpenCode
open_code [] = new_target_row
open_code (_ ∷ _) = top_up_to_target_same_row

abbrev open_items : ℕ → TargetRow → Picked → List OpenItem
open_items min_top_up t p =
    let gap = t.pair_notional - p.keep_sum in
    if ltb min_top_up gap
    then record { row_id = t.row_id; size = gap; reason = open_code p.keep } ∷ []
    else []

abbrev below_min : ℕ → TargetRow → Picked → ℕ
below_min min_top_up t p =
    let gap = t.pair_notional - p.keep_sum in
    if ltb 0 gap then (if ltb min_top_up gap then 0 else 1) else 0

-- What one target row adds, from its bucket.
abbrev extend : ℕ → TargetRow → Picked → DeltaPlan → DeltaPlan
extend min_top_up t p d = record {
  keep_rows =
      d.keep_rows
      ++ record {
        row_id = t.row_id;
        target_notional = t.pair_notional;
        kept_notional = p.keep_sum;
        kept = p.keep;
      }
        ∷ [];
  open_plan = d.open_plan ++ open_items min_top_up t p;
  close_plan = d.close_plan ++ close_items excess_over_target_same_row p.close;
  resize_gap = d.resize_gap + ((t.pair_notional - p.keep_sum) + (p.keep_sum - t.pair_notional));
  gaps_below_min = d.gaps_below_min + below_min min_top_up t p;
}

-- One target row; a blank or empty one is skipped.
pub plan_row : ℕ → TargetRow → DeltaPlan × Buckets → DeltaPlan × Buckets
unfolding pop_bucket close_items
plan_row min_top_up t (d, bs) =
    if text_eq t.row_id "" || t.pair_notional == 0
    then (d, bs)
    else (let (rows, rest) = pop_bucket t.row_id bs in
        (extend min_top_up t (pick_keep_subset_for_row t.pair_notional rows) d, rest))

pub plan_rows : ℕ → List TargetRow → DeltaPlan × Buckets → DeltaPlan × Buckets
unfolding plan_row
plan_rows min_top_up [] s = s
plan_rows min_top_up (t ∷ ts) s = plan_rows min_top_up ts (plan_row min_top_up t s)

-- What no target row has taken is closed.
pub close_rest : Buckets → List CloseItem
unfolding close_items
close_rest [] = []
close_rest ((k, rs) ∷ bs) = close_items not_in_target_portfolio rs ++ close_rest bs

abbrev pub empty_plan : DeltaPlan
empty_plan = record {
  keep_rows = [];
  open_plan = [];
  close_plan = [];
  resize_gap = 0;
  gaps_below_min = 0;
}

-- 10 USD, or 5% of the smallest pair, which is 1 USD at least
abbrev min_top_up_of : ℕ → ℕ
min_top_up_of min_pair = max 100000 (max 10000 min_pair * 5 / 100)

-- `_build_rebalance_delta_plan`, up to the expected profits that it reports
pub build_rebalance_delta_plan : ℕ → List PairRow → List TargetRow → DeltaPlan
unfolding plan_rows sort_buckets bucket_all close_rest
build_rebalance_delta_plan min_pair current targets =
    let (d, bs) =
      plan_rows (min_top_up_of min_pair) targets
        (empty_plan, sort_buckets (bucket_all current [])) in
    record d { close_plan = d.close_plan ++ close_rest bs }
