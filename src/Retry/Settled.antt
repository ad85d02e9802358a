-- ===== src/Retry/Settled.antt =====
-- What a sweep leaves of the items it has tried (`_process_due_retries`).
use arbitrage_station.Base.{
  ℕ, String, ◌+◌, ◌*◌, ◌≡◌, ◌⊎◌, inl, Bool, true, false, not, ◌&&◌, Option, List, [], ◌∷◌, arith,
  All, Bool-cases, max, keep_if,
}
use arbitrage_station.Retry.{
  RetryKey, RetryItem, Attempt, Sweep, key_eq, has_key, update_key, requeue, after_attempt,
  retry_one, retry_each, process_due_retries, due_items, sweep_of, attempt_error,
}
use arbitrage_station.Retry.Keys.{Distinct, IsOther, key_eq→eq, key_eq_refl}

-- Every entry of the key waits until `t`.
abbrev Waits : ℕ → RetryKey → RetryItem → Type 0
Waits t k y = (key_eq y.key k ≡ false) ⊎ (y.next_retry_ts ≡ t)

-- The key is to be removed, or its entry waits until `t`.
abbrev IsSettled : ℕ → RetryKey → Sweep → Type 0
IsSettled t k s =
    (has_key k s.success_keys ≡ true) ⊎ (has_key k s.dropped_keys ≡ true) ⊎ All (Waits t k) s.queue

module _ (now backoff : ℕ) (k : RetryKey) (n : ℕ) (e : Option String) where
  update_key-All :
      (P : RetryKey → Type 0) (q : List RetryItem)
      → All (λ y. P y.key) q
      → All (λ y. P y.key) (update_key k (requeue now backoff n e) q)
  unfolding update_key
  update_key-All P [] w = tt
  update_key-All P (x ∷ q) w = ground (arith, update_key-All P q)

  update_key-Distinct :
      (q : List RetryItem) → Distinct q → Distinct (update_key k (requeue now backoff n e) q)
  unfolding update_key
  update_key-Distinct [] d = tt
  update_key-Distinct (x ∷ q) d =
      ground (arith, update_key-Distinct q, update_key-All (λ m. key_eq m x.key ≡ false) q)

  update_key-keeps :
      (m : RetryKey) (q : List RetryItem)
      → All (Waits (now + 1000 * backoff) m) q
      → All (Waits (now + 1000 * backoff) m) (update_key k (requeue now backoff n e) q)
  unfolding update_key
  update_key-keeps m [] w = tt
  update_key-keeps m (x ∷ q) w = ground (arith, update_key-keeps m q)

  others_wait : (q : List RetryItem) → All (IsOther k) q → All (Waits (now + 1000 * backoff) k) q
  others_wait [] w = tt
  others_wait (x ∷ q) (h, w) = (inl h, others_wait q w)

  update_key-settles :
      (q : List RetryItem)
      → Distinct q
      → All (Waits (now + 1000 * backoff) k) (update_key k (requeue now backoff n e) q)
  unfolding update_key
  update_key-settles [] d = tt
  update_key-settles (x ∷ q) d =
      ground (arith, update_key-settles q, others_wait q, key_eq→eq x.key k)

module _ (run : ℕ → RetryItem → Attempt) (now backoff rounds : ℕ) where
  abbrev SettledIn : RetryKey → Sweep → Type 0
  SettledIn k s = IsSettled (now + 1000 * backoff) k s

  after_attempt-Distinct :
      (x : RetryItem) (a : Attempt) (s : Sweep)
      → Distinct s.queue
      → Distinct (after_attempt now backoff rounds x a s).queue
  unfolding after_attempt
  after_attempt-Distinct x a s d = ground (
    arith,
    update_key-Distinct now backoff x.key (x.retry_round + 1) (attempt_error x.kind a) s.queue d,
  )

  after_attempt_keeps :
      (x : RetryItem) (a : Attempt) (s : Sweep) (m : RetryKey)
      → SettledIn m s
      → SettledIn m (after_attempt now backoff rounds x a s)
  unfolding after_attempt
  after_attempt_keeps x a s m h = ground (
    arith,
    update_key-keeps now backoff x.key (x.retry_round + 1) (attempt_error x.kind a) m s.queue,
  )

  after_attempt_settles :
      (x : RetryItem) (a : Attempt) (s : Sweep)
      → Distinct s.queue
      → SettledIn x.key (after_attempt now backoff rounds x a s)
  unfolding after_attempt
  after_attempt_settles x a s d = ground (
    arith,
    key_eq_refl x.key,
    update_key-settles now backoff x.key (x.retry_round + 1) (attempt_error x.kind a) s.queue d,
  )

  retry_one-Distinct :
      (x : RetryItem) (s : Sweep)
      → Distinct s.queue
      → Distinct (retry_one run now backoff rounds x s).queue
  unfolding retry_one
  retry_one-Distinct x s d = ground (arith, after_attempt-Distinct x (run s.retried x) s d)

  retry_one_keeps :
      (x : RetryItem) (s : Sweep) (m : RetryKey)
      → SettledIn m s
      → SettledIn m (retry_one run now backoff rounds x s)
  unfolding retry_one
  retry_one_keeps x s m h = ground (arith, after_attempt_keeps x (run s.retried x) s m h)

  retry_one_settles :
      (x : RetryItem) (s : Sweep)
      → Distinct s.queue
      → SettledIn x.key (retry_one run now backoff rounds x s)
  unfolding retry_one
  retry_one_settles x s d =
      ground (arith, key_eq_refl x.key, after_attempt_settles x (run s.retried x) s d)

  retry_each_keeps :
      (xs : List RetryItem) (s : Sweep) (m : RetryKey)
      → SettledIn m s
      → SettledIn m (retry_each run now backoff rounds xs s)
  unfolding retry_each
  retry_each_keeps [] s m h = h
  retry_each_keeps (x ∷ xs) s m h =
      retry_each_keeps xs (retry_one run now backoff rounds x s) m (retry_one_keeps x s m h)

  retry_each_settles :
      (xs : List RetryItem) (s : Sweep)
      → Distinct s.queue
      → let t = retry_each run now backoff rounds xs s in
        Distinct t.queue × All (λ x. SettledIn x.key t) xs
  unfolding retry_each
  retry_each_settles [] s d = (d, tt)
  retry_each_settles (x ∷ xs) s d =
      let t = retry_one run now backoff rounds x s in
      let (d', w) = retry_each_settles xs t (retry_one-Distinct x s d) in
      (d', (retry_each_keeps xs t x.key (retry_one_settles x s d), w))

keep_if-All :
    (P : RetryItem → Type 0) (p : RetryItem → Bool) (q : List RetryItem)
    → All P q
    → All P (keep_if p q)
keep_if-All P p [] w = tt
keep_if-All P p (x ∷ q) w = ground (arith, keep_if-All P p q)

keep_if-Distinct : (p : RetryItem → Bool) (q : List RetryItem) → Distinct q → Distinct (keep_if p q)
keep_if-Distinct p [] d = tt
keep_if-Distinct p (x ∷ q) d = ground (arith, keep_if-Distinct p q, keep_if-All (IsOther x.key) p q)

-- An entry that stays has neither succeeded nor been dropped.
finish-Waits :
    (t : ℕ) (k : RetryKey) (ss ds : List RetryKey) (q : List RetryItem)
    → (has_key k ss ≡ true) ⊎ (has_key k ds ≡ true) ⊎ All (Waits t k) q
    → All (Waits t k) (keep_if (λ x. not (has_key x.key ss) && not (has_key x.key ds)) q)
finish-Waits t k ss ds [] h = tt
finish-Waits t k ss ds (x ∷ q) h =
    ground (arith, finish-Waits t k ss ds q, key_eq→eq x.key k, Bool-cases (key_eq x.key k))

All-Waits :
    (t : ℕ) (ss ds : List RetryKey) (q xs : List RetryItem)
    → All (λ x. (has_key x.key ss ≡ true) ⊎ (has_key x.key ds ≡ true) ⊎ All (Waits t x.key) q) xs
    → All
        (λ x.
          All (Waits t x.key) (keep_if (λ y. not (has_key y.key ss) && not (has_key y.key ds)) q))
        xs
All-Waits t ss ds q [] h = tt
All-Waits t ss ds q (x ∷ xs) (h, hs) = (finish-Waits t x.key ss ds q h, All-Waits t ss ds q xs hs)

-- After a sweep over a queue without a key twice, still no key is there twice, and no item that was
-- tried is due: its entry is gone or waits for the backoff, which is at least a second.
pub process_settles :
    (run : ℕ → RetryItem → Attempt) (now backoff rounds : ℕ) (q : List RetryItem)
    → Distinct q
    → let q' = (process_due_retries run now backoff rounds q).queue in
      Distinct q'
      × All
          (λ x.
            All
              (λ y. (key_eq y.key x.key ≡ false) ⊎ (y.next_retry_ts ≡ now + 1000 * max 1 backoff))
              q')
          (due_items now q)
unfolding process_due_retries
process_settles run now backoff rounds q d =
    let t = retry_each run now (max 1 backoff) rounds (due_items now q) (sweep_of q) in
    let (d', w) =
      retry_each_settles run now (max 1 backoff) rounds (due_items now q) (sweep_of q) d in
    (
      keep_if-Distinct _ t.queue d',
      All-Waits (now + 1000 * max 1 backoff) t.success_keys t.dropped_keys t.queue (due_items now q)
          w,
    )
