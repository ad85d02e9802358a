-- ===== src/Compaction/Overwritten.antt =====
-- A bucket whose rows come in two batches.
use arbitrage_station.Base.{ℕ, ◌+◌, max, ◌<◌, ◌≡◌, ap, true, List, [], ◌∷◌, ◌++◌, arith, map}
use arbitrage_station.Compaction.{
  Level, Key, Raw, Bar, raw_bar, pick_oldest, rollup, rollup_l0_to_l1,
}
use arbitrage_station.Compaction.Rollup.{held, counted, has_row, rollup_recounts}

module _ {A : Type 0} (width : ℕ) (k : Key) where
  counted-append :
      (bs cs : List (Bar A))
      → (counted width k (bs ++ cs)).0 ≡ (counted width k bs).0 + (counted width k cs).0
  counted-append [] cs = omega arith
  counted-append (b ∷ bs) cs = ground (arith, counted-append bs cs)

  counted_raw :
      (rs : List (Raw A))
      → has_row width k (map raw_bar rs) ≡ true
      → 0 < (counted width k (map raw_bar rs)).0
  counted_raw [] h = absurd (cc)
  counted_raw (r ∷ rs) h = ground (arith, counted_raw rs)

-- If two rollup steps from the raw table, one after the other, both pick rows of one bucket, the bucket
-- holds fewer samples afterwards than the rows that were picked for it: only those of the second step.
pub split_bucket_loses :
    (L : Level) (k : Key) (cutoff cutoff' batch_rows : ℕ) (src : List (Raw L.Number))
    (dst : List (Bar L.Number))
    → 0 < cutoff
    → 0 < cutoff'
    → let t = (rollup_l0_to_l1 L cutoff batch_rows (src, dst)).0 in
      let first = map raw_bar (pick_oldest raw_bar cutoff (max 100 batch_rows) src).0 in
      let second = map raw_bar (pick_oldest raw_bar cutoff' (max 100 batch_rows) t.0).0 in
      has_row 1000 k first ≡ true
      → has_row 1000 k second ≡ true
      → let held_at_last = (held k (rollup_l0_to_l1 L cutoff' batch_rows t).0.1).0 in
        (held_at_last ≡ (counted 1000 k second).0)
        × (held_at_last < (counted 1000 k (first ++ second)).0)
split_bucket_loses L k cutoff cutoff' batch_rows src dst pos pos' h h' =
    let t = (rollup L raw_bar 1000 cutoff batch_rows (src, dst)).0 in
    let picked = (pick_oldest raw_bar cutoff (max 100 batch_rows) src).0 in
    let first = map raw_bar picked in
    let second = map raw_bar (pick_oldest raw_bar cutoff' (max 100 batch_rows) t.0).0 in
    let e = rollup_recounts L raw_bar 1000 cutoff' batch_rows t.0 t.1 k pos' in
    let last = ap (λ (x : ℕ × ℕ). x.0) e in
    ground (arith, last, counted-append 1000 k first second, counted_raw 1000 k picked)
