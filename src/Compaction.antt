-- ===== src/Compaction.antt =====
-- The rollup of market samples into coarser tables
-- (scripts/sandbox_ccxt_pro/lib/marketdata/service: compaction_steps.py, compaction.py).
--
-- A table is a list of its rows in the order in which the queries' ORDER BY reads them. Floats are of any
-- type with the operations that the queries apply. Left out are `open_mid` and `close_mid`, which depend
-- on the order in which SQLite joins rows of the same time.
pub mod Rollup
pub mod Loop
pub mod Overwritten
pub mod Tests
use text.Mathlib.Text.{◌==◌ as text_eq}
use arbitrage_station.Base.{
  ℕ, zero, suc, ◌+◌, ◌*◌, ◌/◌, max, String, Bool, true, false, ◌&&◌, Option, none, some, List, [],
  ◌∷◌, ltb, ◌==◌, if◌then◌else◌, map, length,
}

pub record Level : Type 1 where
  pub Number : Type 0
  pub highest : Number → Number → Number
  pub lowest : Number → Number → Number
  pub add : Number → Number → Number
  pub over : Number → ℕ → Number

pub record Series : Type 0 where
  pub exchange : String
  pub market : String
  pub symbol : String

-- The columns of the UNIQUE key
pub record Key : Type 0 where
  pub bucket_ms : ℕ
  pub series : Series

unfoldable pub same_key : Key → Key → Bool
same_key a b =
    (a.bucket_ms == b.bucket_ms && text_eq a.series.symbol b.series.symbol)
    && (text_eq a.series.exchange b.series.exchange && text_eq a.series.market b.series.market)

-- A row of `l0_raw`
pub record Raw (A : Type 0) : Type 0 where
  pub ts_recv_ms : ℕ
  pub series : Series
  pub mid : A
  pub spread_bps : A
  pub payload_bytes : ℕ

-- A row of `l1_1s`, `l2_10s` or `l3_60s`
pub record Bar (A : Type 0) : Type 0 where
  pub key : Key
  pub high_mid : A
  pub low_mid : A
  pub avg_spread_bps : A
  pub samples : ℕ
  pub bytes_sum : ℕ

-- A group of `agg`: `spread_sum` and `rows` are what AVG keeps.
pub record Group (A : Type 0) : Type 0 where
  pub key : Key
  pub high_mid : A
  pub low_mid : A
  pub spread_sum : A
  pub rows : ℕ
  pub samples : ℕ
  pub bytes_sum : ℕ

module _ {A : Type 0} where
  -- A raw row as a bar of itself: COUNT(*) counts 1, and MAX and MIN read `mid`.
  abbrev pub raw_bar : Raw A → Bar A
  raw_bar r = record {
    key = record { bucket_ms = r.ts_recv_ms; series = r.series };
    high_mid = r.mid;
    low_mid = r.mid;
    avg_spread_bps = r.spread_bps;
    samples = 1;
    bytes_sum = r.payload_bytes;
  }

  abbrev pub find_bar : Key → List (Bar A) → Option (Bar A)
  find_bar k [] = none
  find_bar k (b ∷ bs) = let rest = find_bar k bs in if same_key k b.key then some b else rest

  abbrev pub find_group : Key → List (Group A) → Option (Group A)
  find_group k [] = none
  find_group k (g ∷ gs) = let rest = find_group k gs in if same_key k g.key then some g else rest

  -- INSERT … ON CONFLICT DO UPDATE SET … = excluded
  pub upsert : Bar A → List (Bar A) → List (Bar A)
  upsert b [] = b ∷ []
  upsert b (c ∷ cs) = let rest = upsert b cs in if same_key b.key c.key then b ∷ cs else c ∷ rest

  pub upsert_all : List (Bar A) → List (Bar A) → List (Bar A)
  unfolding upsert
  upsert_all [] t = t
  upsert_all (b ∷ bs) t = upsert b (upsert_all bs t)

  -- WHERE … < cutoff ORDER BY … LIMIT n: the rows picked, and the others.
  unfoldable pub pick_oldest {ℓ} : {X : Type ℓ} → (X → Bar A) → ℕ → ℕ → List X → List X × List X
  pick_oldest bar cutoff n [] = ([], [])
  pick_oldest bar cutoff zero (x ∷ xs) = ([], x ∷ xs)
  pick_oldest bar cutoff (suc n) (x ∷ xs) =
      let early = ltb (bar x).key.bucket_ms cutoff in
      let (picked, left) = pick_oldest bar cutoff (if early then n else suc n) xs in
      if early then (x ∷ picked, left) else (picked, x ∷ left)

-- (bucket_ms / width) * width
abbrev pub bucket_of : ℕ → Key → Key
bucket_of width k = record k { bucket_ms = k.bucket_ms / width * width }

module _ (L : Level) where
  abbrev of_bar : Key → Bar L.Number → Group L.Number
  of_bar k b = record {
    key = k;
    high_mid = b.high_mid;
    low_mid = b.low_mid;
    spread_sum = b.avg_spread_bps;
    rows = 1;
    samples = b.samples;
    bytes_sum = b.bytes_sum;
  }

  abbrev merge : Bar L.Number → Group L.Number → Group L.Number
  merge b g = record {
    key = g.key;
    high_mid = L.highest b.high_mid g.high_mid;
    low_mid = L.lowest b.low_mid g.low_mid;
    spread_sum = L.add b.avg_spread_bps g.spread_sum;
    rows = g.rows + 1;
    samples = g.samples + b.samples;
    bytes_sum = g.bytes_sum + b.bytes_sum;
  }

  pub group_in : Key → Bar L.Number → List (Group L.Number) → List (Group L.Number)
  group_in k b [] = of_bar k b ∷ []
  group_in k b (g ∷ gs) =
      let rest = group_in k b gs in if same_key k g.key then merge b g ∷ gs else g ∷ rest

  -- GROUP BY
  pub aggregate : ℕ → List (Bar L.Number) → List (Group L.Number)
  unfolding group_in
  aggregate width [] = []
  aggregate width (b ∷ bs) = group_in (bucket_of width b.key) b (aggregate width bs)

  abbrev pub bar_of : Group L.Number → Bar L.Number
  bar_of g = record {
    key = g.key;
    high_mid = g.high_mid;
    low_mid = g.low_mid;
    avg_spread_bps = L.over g.spread_sum g.rows;
    samples = g.samples;
    bytes_sum = g.bytes_sum;
  }

  -- The source table and the target table, of rows that are read as bars.
  abbrev pub Tables : Type 0 → Type 0
  Tables X = List X × List (Bar L.Number)

  module _ {X : Type 0} where
    -- A rollup step, with the number of rows that it deletes
    unfoldable pub rollup : (X → Bar L.Number) → ℕ → ℕ → ℕ → Tables X → Tables X × ℕ
    unfolding aggregate upsert_all pick_oldest
    rollup bar width cutoff batch_rows (src, dst) =
        let (picked, left) = pick_oldest bar cutoff (max 100 batch_rows) src in
        if cutoff == 0
        then ((src, dst), 0)
        else ((left, upsert_all (map bar_of (aggregate width (map bar picked))) dst), length picked)

    -- `run_step_loop`: `exceeded i` is `_budget_exceeded` before step i. `none` if the fuel runs out.
    unfoldable pub run_step_loop :
        ℕ → (ℕ → Bool) → (Tables X → Tables X × ℕ) → ℕ → ℕ → Tables X → Option (Tables X × ℕ)
    run_step_loop zero exceeded step i total t = none
    run_step_loop (suc fuel) exceeded step i total t =
        let (t', changed) = step t in
        let rest = run_step_loop fuel exceeded step (i + 1) (total + changed) t' in
        if exceeded i then some (t, total) else if changed == 0 then some (t', total) else rest

  abbrev pub rollup_l0_to_l1 : ℕ → ℕ → Tables (Raw L.Number) → Tables (Raw L.Number) × ℕ
  rollup_l0_to_l1 cutoff batch_rows t = rollup raw_bar 1000 cutoff batch_rows t

  abbrev pub rollup_level : ℕ → ℕ → ℕ → Tables (Bar L.Number) → Tables (Bar L.Number) × ℕ
  rollup_level width cutoff batch_rows t = rollup (λ b. b) width cutoff batch_rows t
