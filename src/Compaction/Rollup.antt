-- ===== src/Compaction/Rollup.antt =====
-- What a rollup step writes, read by bucket, against a count over the rows that it picked.
use text.Mathlib.TextEquality.{eq_iff}
use arbitrage_station.Base.{
  ℕ, ◌+◌, max, ◌≡◌, refl, Bool, true, false, ◌||◌, Option, none, some, List, [], ◌∷◌, arith,
  if◌then◌else◌, map, ◌<◌, ◌<◌,
}
use arbitrage_station.Compaction.{
  Level, Key, same_key, Bar, Group, find_bar, find_group, upsert, upsert_all, pick_oldest,
  bucket_of, group_in, aggregate, bar_of, rollup,
}

-- Equal keys compare alike, on the left and on the right.
same_key_left : (a b k : Key) → same_key a b ≡ true → same_key k a ≡ same_key k b
unfolding same_key
same_key_left a b k h = ground (
  arith,
  eq_iff a.series.symbol b.series.symbol,
  eq_iff a.series.exchange b.series.exchange,
  eq_iff a.series.market b.series.market,
)

-- Two keys equal to a third are equal.
same_key_join : (a b k : Key) → same_key k a ≡ true → same_key k b ≡ true → same_key a b ≡ true
unfolding same_key
same_key_join a b k h h' = ground (
  arith,
  eq_iff a.series.symbol b.series.symbol,
  eq_iff a.series.exchange b.series.exchange,
  eq_iff a.series.market b.series.market,
  eq_iff k.series.symbol b.series.symbol,
  eq_iff k.series.exchange b.series.exchange,
  eq_iff k.series.market b.series.market,
  eq_iff k.series.symbol a.series.symbol,
  eq_iff k.series.exchange a.series.exchange,
  eq_iff k.series.market a.series.market,
)

module _ {A : Type 0} where
  find_bar-upsert :
      (k : Key) (b : Bar A) (cs : List (Bar A))
      → find_bar k (upsert b cs) ≡ (if same_key k b.key then some b else find_bar k cs)
  unfolding upsert
  find_bar-upsert k b [] = refl
  find_bar-upsert k b (c ∷ cs) =
      ground
        (arith, same_key_left b.key c.key k, same_key_join b.key c.key k, find_bar-upsert k b cs)

  find_bar-upsert_all :
      (k : Key) (bs t : List (Bar A))
      → find_bar k (upsert_all bs t)
        ≡ elim (find_bar k bs) [ none ↦ find_bar k t | some b ↦ some b ]
  unfolding upsert_all
  find_bar-upsert_all k [] t = refl
  find_bar-upsert_all k (b ∷ bs) t =
      ground (arith, find_bar-upsert k b (upsert_all bs t), find_bar-upsert_all k bs t)

  abbrev samples_of : Option (Bar A) → ℕ
  samples_of none = 0
  samples_of (some b) = b.samples

  abbrev bytes_of : Option (Bar A) → ℕ
  bytes_of none = 0
  bytes_of (some b) = b.bytes_sum

  -- What a table holds of a bucket: its samples and their bytes
  abbrev pub held : Key → List (Bar A) → ℕ × ℕ
  held k bs = (samples_of (find_bar k bs), bytes_of (find_bar k bs))

  abbrev pub in_bucket : ℕ → Key → Bar A → Bool
  in_bucket width k b = same_key k (bucket_of width b.key)

  abbrev pub has_row : ℕ → Key → List (Bar A) → Bool
  has_row width k [] = false
  has_row width k (b ∷ bs) = in_bucket width k b || has_row width k bs

  -- The samples and bytes of a bucket, added up row by row
  abbrev pub counted : ℕ → Key → List (Bar A) → ℕ × ℕ
  counted width k [] = (0, 0)
  counted width k (b ∷ bs) =
      let (n, m) = counted width k bs in
      if in_bucket width k b then (n + b.samples, m + b.bytes_sum) else (n, m)

module _ (L : Level) where
  find_group-group_in :
      (k j : Key) (b : Bar L.Number) (gs : List (Group L.Number))
      → same_key k j ≡ false
      → find_group k (group_in L j b gs) ≡ find_group k gs
  unfolding group_in
  find_group-group_in k j b [] h = ground arith
  find_group-group_in k j b (g ∷ gs) h =
      ground (arith, same_key_left j g.key k, find_group-group_in k j b gs)

  abbrev sums : Option (Group L.Number) → ℕ × ℕ
  sums none = (0, 0)
  sums (some g) = (g.samples, g.bytes_sum)

  abbrev is_group : Option (Group L.Number) → Bool
  is_group none = false
  is_group (some g) = true

  find_group-group_in_self :
      (k j : Key) (b : Bar L.Number) (gs : List (Group L.Number))
      → same_key k j ≡ true
      → (is_group (find_group k (group_in L j b gs)) ≡ true)
        × ((sums (find_group k (group_in L j b gs))).0 ≡ (sums (find_group k gs)).0 + b.samples)
        × ((sums (find_group k (group_in L j b gs))).1 ≡ (sums (find_group k gs)).1 + b.bytes_sum)
  unfolding group_in
  find_group-group_in_self k j b [] h = ground arith
  find_group-group_in_self k j b (g ∷ gs) h =
      ground
        (arith, same_key_left j g.key k, same_key_join j g.key k, find_group-group_in_self k j b gs)

  aggregate_counts :
      (width : ℕ) (k : Key) (bs : List (Bar L.Number))
      → (is_group (find_group k (aggregate L width bs)) ≡ has_row width k bs)
        × ((sums (find_group k (aggregate L width bs))).0 ≡ (counted width k bs).0)
        × ((sums (find_group k (aggregate L width bs))).1 ≡ (counted width k bs).1)
  unfolding aggregate
  aggregate_counts width k [] = (refl, refl, refl)
  aggregate_counts width k (b ∷ bs) =
      let j = bucket_of width b.key in
      let gs = aggregate L width bs in
      ground (
        arith,
        find_group-group_in k j b gs,
        find_group-group_in_self k j b gs,
        aggregate_counts width k bs,
      )

  abbrev bar_of_found : Option (Group L.Number) → Option (Bar L.Number)
  bar_of_found none = none
  bar_of_found (some g) = some (bar_of L g)

  find_bar-map :
      (k : Key) (gs : List (Group L.Number))
      → find_bar k (map (bar_of L) gs) ≡ bar_of_found (find_group k gs)
  find_bar-map k [] = refl
  find_bar-map k (g ∷ gs) = ground (arith, find_bar-map k gs)

  held_after :
      (width : ℕ) (k : Key) (bs dst : List (Bar L.Number))
      → held k (upsert_all (map (bar_of L) (aggregate L width bs)) dst)
        ≡ (if has_row width k bs then counted width k bs else held k dst)
  held_after width k bs dst =
      let gs = aggregate L width bs in
      ground (
        arith,
        find_bar-upsert_all k (map (bar_of L) gs) dst,
        find_bar-map k gs,
        aggregate_counts width k bs,
      )

-- After a rollup step with a positive cutoff, each bucket of the target that a picked row falls into
-- holds the number of samples and of bytes that the picked rows add up to, whatever it held before, and
-- each other bucket holds what it held.
pub rollup_recounts :
    (L : Level) {X : Type 0} (bar : X → Bar L.Number) (width cutoff batch_rows : ℕ) (src : List X)
    (dst : List (Bar L.Number)) (k : Key)
    → 0 < cutoff
    → let rows = map bar (pick_oldest bar cutoff (max 100 batch_rows) src).0 in
      held k (rollup L bar width cutoff batch_rows (src, dst)).0.1
      ≡ (if has_row width k rows then counted width k rows else held k dst)
unfolding rollup
rollup_recounts L bar width cutoff batch_rows src dst k pos =
    let picked = (pick_oldest bar cutoff (max 100 batch_rows) src).0 in
    ground (arith, held_after L width k (map bar picked) dst)
