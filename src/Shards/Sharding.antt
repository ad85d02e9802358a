-- ===== src/Shards/Sharding.antt =====
-- What every plan of shards keeps to, and that both plans do.
use native.Mathlib.Nat.{mod-lt}
use arbitrage_station.Base.{
  ℕ, zero, suc, ◌+◌, ◌%◌, max, ◌≤◌, ◌<◌, ◌≡◌, ◌⊎◌, inl, inr, refl, Bool, true, ◌||◌, Option, List,
  [], ◌∷◌, arith, All, leb, if-both, Bool-cases, ap, if◌then◌else◌, length, keep_if,
  length-keep_if-append, length-keep_if-le,
}
use arbitrage_station.Shards.{
  put_at, repeat, is_filled, deal, used_count, even, Weights, Snapshot, State, states, insert_state,
  sort_states, least_from, least, add_at, deal_weighted, idle, weighted,
}

module _ {A : Type 0} where
  -- How many symbols in all shards satisfy a test
  abbrev pub count_all : (A → Bool) → List (List A) → ℕ
  count_all p [] = 0
  count_all p (b ∷ bs) = length (keep_if p b) + count_all p bs

  -- A plan of at most `n` shards: each symbol stands in the shards as often as in the list, whatever
  -- symbols a test selects, and no shard is empty if there are symbols.
  pub record IsSharding (n : ℕ) (symbols : List A) (shards : List (List A)) : Type 0 where
    pub same : (p : A → Bool) → count_all p shards ≡ length (keep_if p symbols)
    pub few : length shards ≤ max 1 n
    pub filled : (length symbols ≡ 0) ⊎ All (λ b. 0 < length b) shards

  count_all-put_at :
      (p : A → Bool) (i : ℕ) (x : A) (out : List (List A))
      → i < length out
      → count_all p (put_at i x out) ≡ count_all p out + (if p x then 1 else 0)
  unfolding put_at
  count_all-put_at p i x [] h = absurd (omega arith)
  count_all-put_at p zero x (b ∷ bs) h = ground (arith, length-keep_if-append p b x)
  count_all-put_at p (suc i) x (b ∷ bs) h = ground (arith, count_all-put_at p i x bs)

  pub length-put_at : (i : ℕ) (x : A) (out : List (List A)) → length (put_at i x out) ≡ length out
  unfolding put_at
  length-put_at i x [] = refl
  length-put_at zero x (b ∷ bs) = refl
  length-put_at (suc i) x (b ∷ bs) = omega (arith, length-put_at i x bs)

  count_all-deal :
      (p : A → Bool) (n i : ℕ) (xs : List A) (out : List (List A))
      → 0 < n
      → length out ≡ n
      → (count_all p (deal n i xs out) ≡ count_all p out + length (keep_if p xs))
        × (length (deal n i xs out) ≡ n)
  unfolding deal
  count_all-deal p n i [] out pos h = (omega arith, h)
  count_all-deal p n i (x ∷ xs) out pos h =
      let j = i % n in
      let small = mod-lt i pos in
      ground (
        arith,
        small,
        length-put_at j x out,
        count_all-put_at p j x out,
        count_all-deal p n (i + 1) xs (put_at j x out) pos,
      )

  count_all-filled :
      (p : A → Bool) (out : List (List A)) → count_all p (keep_if is_filled out) ≡ count_all p out
  count_all-filled p [] = refl
  count_all-filled p ([] ∷ bs) = omega (arith, count_all-filled p bs)
  count_all-filled p ((x ∷ b) ∷ bs) = omega (arith, count_all-filled p bs)

  all_filled : (out : List (List A)) → All (λ b. 0 < length b) (keep_if is_filled out)
  all_filled [] = tt
  all_filled ([] ∷ bs) = all_filled bs
  all_filled ((x ∷ b) ∷ bs) = (omega arith, all_filled bs)

  empty_shards :
      (p : A → Bool) (n : ℕ) → (count_all p (repeat n) ≡ 0) × (length (repeat {A = A} n) ≡ n)
  empty_shards p zero = (refl, refl)
  empty_shards p (suc n) = omega (arith, empty_shards p n)

  one_shard :
      (n : ℕ) (symbols : List A)
      → (leb n 1 || leb (length symbols) 1) ≡ true
      → IsSharding n symbols (symbols ∷ [])
  one_shard n [] h = record { same = λ p. omega arith; few = omega arith; filled = inl refl }
  one_shard n (x ∷ xs) h = record {
    same = λ p. omega arith;
    few = omega arith;
    filled = inr (omega arith, tt);
  }

  filled-IsSharding :
      (n : ℕ) (symbols : List A) (out : List (List A))
      → ((p : A → Bool) → count_all p out ≡ length (keep_if p symbols))
      → length out ≤ max 1 n
      → IsSharding n symbols (keep_if is_filled out)
  filled-IsSharding n symbols out same few = record {
    same = λ p. omega (arith, count_all-filled p out, same p);
    few = omega (arith, length-keep_if-le is_filled out);
    filled = inr (all_filled out);
  }

pub even-IsSharding :
    {A : Type 0} (symbols : List A) (n : ℕ) → IsSharding n symbols (even symbols n)
unfolding even
even-IsSharding symbols n =
    let k = used_count n symbols in
    if-both (IsSharding n symbols) (leb n 1 || leb (length symbols) 1) (one_shard n symbols) λ more.
      filled-IsSharding n symbols (deal k 0 symbols (repeat k))
        (λ p. omega (
          arith,
          empty_shards p k,
          (count_all-deal p k 0 symbols (repeat k) (omega arith) (empty_shards p k).1).0,
        ))
        (omega (
          arith,
          (count_all-deal (λ x. true) k 0 symbols (repeat k) (omega arith)
              (empty_shards (λ x. true) k).1).1,
        ))

module _ (W : Weights) where
  least_from-lt :
      (best : ℕ) (load : W.Number) (i : ℕ) (ws : List W.Number)
      → best < i
      → least_from W best load i ws < i + length ws
  unfolding least_from
  least_from-lt best load i [] h = omega arith
  least_from-lt best load i (w ∷ ws) h = elim (Bool-cases (W.below w load)) [
    | inl less ↦ rw less (omega (arith, least_from-lt i w (i + 1) ws))
    | inr more ↦ rw more (omega (arith, least_from-lt best load (i + 1) ws))
  ]

  least-lt : (ws : List W.Number) → 0 < length ws → least W ws < length ws
  unfolding least
  least-lt [] h = absurd (omega arith)
  least-lt (w ∷ ws) h = omega (arith, least_from-lt 0 w 1 ws)

  length-add_at : (i : ℕ) (x : W.Number) (ws : List W.Number) → length (add_at W i x ws) ≡ length ws
  unfolding add_at
  length-add_at i x [] = refl
  length-add_at zero x (w ∷ ws) = refl
  length-add_at (suc i) x (w ∷ ws) = omega (arith, length-add_at i x ws)

  length-idle : (n : ℕ) → length (idle W n) ≡ n
  length-idle zero = refl
  length-idle (suc n) = omega (arith, length-idle n)

  module _ {A : Type 0} where
    abbrev names : List (State W A) → List A
    names [] = []
    names (s ∷ ss) = s.0 ∷ names ss

    names-states :
        (snaps : A → Option (Snapshot W.Number)) (xs : List A) → names (states W snaps xs) ≡ xs
    names-states snaps [] = refl
    names-states snaps (x ∷ xs) = ap (λ r. x ∷ r) (names-states snaps xs)

    count-insert_state :
        (p : A → Bool) (s : State W A) (ss : List (State W A))
        → length (keep_if p (names (insert_state W s ss))) ≡ length (keep_if p (s.0 ∷ names ss))
    unfolding insert_state
    count-insert_state p s [] = refl
    count-insert_state p s (t ∷ ss) = ground (arith, count-insert_state p s ss)

    count-sort_states :
        (p : A → Bool) (ss : List (State W A))
        → length (keep_if p (names (sort_states W ss))) ≡ length (keep_if p (names ss))
    unfolding sort_states
    count-sort_states p [] = refl
    count-sort_states p (s ∷ ss) =
        ground (arith, count-insert_state p s (sort_states W ss), count-sort_states p ss)

    count_all-deal_weighted :
        (p : A → Bool) (ss : List (State W A)) (out : List (List A)) (loads : List W.Number)
        → 0 < length out
        → length loads ≡ length out
        → (count_all p (deal_weighted W ss out loads)
            ≡ count_all p out + length (keep_if p (names ss)))
          × (length (deal_weighted W ss out loads) ≡ length out)
    unfolding deal_weighted
    count_all-deal_weighted p [] out loads pos h = (omega arith, refl)
    count_all-deal_weighted p (s ∷ ss) out loads pos h =
        let i = least W loads in
        ground (
          arith,
          least-lt loads,
          length-put_at i s.0 out,
          length-add_at i s.1 loads,
          count_all-put_at p i s.0 out,
          count_all-deal_weighted p ss (put_at i s.0 out) (add_at W i s.1 loads),
        )

    dealt :
        (p : A → Bool) (ss : List (State W A)) (k : ℕ)
        → 0 < k
        → (count_all p (deal_weighted W ss (repeat k) (idle W k)) ≡ length (keep_if p (names ss)))
          × (length (deal_weighted W ss (repeat k) (idle W k)) ≡ k)
    dealt p ss k pos =
        let (none_yet, many) = empty_shards p k in
        omega (
          arith,
          none_yet,
          many,
          count_all-deal_weighted p ss (repeat k) (idle W k) (omega (arith, many))
              (omega (arith, many, length-idle k)),
        )

-- The plan that gives the heaviest symbols first to the least loaded shard, whatever the weights are and
-- however they compare, keeps each symbol as often as it stands in the list, has at most as many shards
-- as asked for, one at the least, and no empty one if there are symbols.
weighted-IsSharding :
    (W : Weights) {A : Type 0} (symbols : List A) (n : ℕ) (snaps : A → Option (Snapshot W.Number))
    → IsSharding n symbols (weighted W symbols n snaps)
unfolding weighted
weighted-IsSharding W symbols n snaps =
    let k = used_count n symbols in
    let ss = sort_states W (states W snaps symbols) in
    let out = deal_weighted W ss (repeat k) (idle W k) in
    if-both (IsSharding n symbols) (leb n 1 || leb (length symbols) 1) (one_shard n symbols) λ more.
      filled-IsSharding n symbols out
        (λ p. omega (
          arith,
          (dealt W p ss k (omega arith)).0,
          count-sort_states W p (states W snaps symbols),
          ap (λ xs. length (keep_if p xs)) (names-states W snaps symbols),
        ))
        (omega (arith, (dealt W (λ x. true) ss k (omega arith)).1))
