-- ===== src/Shards.antt =====
-- The planner that spreads symbols over worker shards
-- (scripts/sandbox_ccxt_pro/lib/marketdata/load_balance/shard_planner.py).
--
-- A shard's index that is out of range would be an IndexError; here such a write changes nothing.
pub mod Sharding
pub mod Balance
pub mod Tests
use arbitrage_station.Base.{
  ℕ, zero, suc, ◌+◌, ◌%◌, max, min, Bool, true, false, ◌||◌, Option, none, some, List, [], ◌∷◌,
  ◌++◌, leb, if◌then◌else◌, length, keep_if,
}

module _ {A : Type 0} where
  -- `out[i].append(x)`
  pub put_at : ℕ → A → List (List A) → List (List A)
  put_at i x [] = []
  put_at zero x (b ∷ bs) = (b ++ x ∷ []) ∷ bs
  put_at (suc i) x (b ∷ bs) = b ∷ put_at i x bs

  abbrev pub repeat : ℕ → List (List A)
  repeat zero = []
  repeat (suc n) = [] ∷ repeat n

  abbrev pub is_filled : List A → Bool
  is_filled [] = false
  is_filled (x ∷ xs) = true

  pub deal : ℕ → ℕ → List A → List (List A) → List (List A)
  unfolding put_at
  deal n i [] out = out
  deal n i (x ∷ xs) out = deal n (i + 1) xs (put_at (i % n) x out)

  abbrev pub used_count : ℕ → List A → ℕ
  used_count n symbols = max 1 (min n (length symbols))

  -- `ShardPlanner.even`
  unfoldable pub even : List A → ℕ → List (List A)
  unfolding deal
  even symbols n =
      let k = used_count n symbols in
      if leb n 1 || leb (length symbols) 1
      then symbols ∷ []
      else keep_if is_filled (deal k 0 symbols (repeat k))

-- Python's floats, with the operations that weights need.
pub record Weights : Type 1 where
  pub Number : Type 0
  pub nothing : Number
  pub add : Number → Number → Number
  pub ten_times : Number → Number
  pub tenths : ℕ → Number
  pub below : Number → Number → Bool

-- What a snapshot says of a symbol
pub record Snapshot (N : Type 0) : Type 0 where
  pub hz : N
  pub error_rate : N
  pub reconnects : ℕ

module _ (W : Weights) where
  -- Throughput, a penalty for errors and one for reconnects
  abbrev pub weight_of : Option (Snapshot W.Number) → W.Number
  weight_of none = W.add (W.add W.nothing (W.ten_times W.nothing)) (W.tenths 0)
  weight_of (some s) = W.add (W.add s.hz (W.ten_times s.error_rate)) (W.tenths s.reconnects)

  -- The first index of a least load: `best` is the one so far, `i` the next index.
  pub least_from : ℕ → W.Number → ℕ → List W.Number → ℕ
  least_from best load i [] = best
  least_from best load i (w ∷ ws) =
      let less = W.below w load in
      least_from (if less then i else best) (if less then w else load) (i + 1) ws

  pub least : List W.Number → ℕ
  unfolding least_from
  least [] = 0
  least (w ∷ ws) = least_from 0 w 1 ws

  pub add_at : ℕ → W.Number → List W.Number → List W.Number
  add_at i x [] = []
  add_at zero x (w ∷ ws) = W.add w x ∷ ws
  add_at (suc i) x (w ∷ ws) = w ∷ add_at i x ws

  abbrev pub idle : ℕ → List W.Number
  idle zero = []
  idle (suc n) = W.nothing ∷ idle n

  -- `ShardLoadState`, with the fields that are read
  abbrev pub State : Type 0 → Type 0
  State A = A × W.Number

  module _ {A : Type 0} where
    abbrev pub states : (A → Option (Snapshot W.Number)) → List A → List (State A)
    states snaps [] = []
    states snaps (x ∷ xs) = (x, weight_of (snaps x)) ∷ states snaps xs

    -- `states.sort(key=weight, reverse=True)`, which keeps the order of equal weights.
    pub insert_state : State A → List (State A) → List (State A)
    insert_state x [] = x ∷ []
    insert_state x (y ∷ ys) =
        let rest = insert_state x ys in if W.below x.1 y.1 then y ∷ rest else x ∷ y ∷ ys

    pub sort_states : List (State A) → List (State A)
    unfolding insert_state
    sort_states [] = []
    sort_states (x ∷ xs) = insert_state x (sort_states xs)

    pub deal_weighted : List (State A) → List (List A) → List W.Number → List (List A)
    unfolding least add_at put_at
    deal_weighted [] buckets loads = buckets
    deal_weighted (s ∷ ss) buckets loads =
        let i = least loads in deal_weighted ss (put_at i s.0 buckets) (add_at i s.1 loads)

    -- `ShardPlanner.weighted`
    unfoldable pub weighted : List A → ℕ → (A → Option (Snapshot W.Number)) → List (List A)
    unfolding sort_states deal_weighted
    weighted symbols n snaps =
        let k = used_count n symbols in
        if leb n 1 || leb (length symbols) 1
        then symbols ∷ []
        else keep_if is_filled
            (deal_weighted (sort_states (states snaps symbols)) (repeat k) (idle k))
