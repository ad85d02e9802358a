-- ===== src/Retry/Rounds.antt =====
-- What a sweep over the due retries counts, and the rounds that the entries it leaves have gone through.
use arbitrage_station.Base.{
  ℕ, String, ◌+◌, ◌≤◌, ◌≡◌, Bool, Option, List, [], ◌∷◌, arith, length, All, keep_if, max,
  if◌then◌else◌, length-take-le, leb,
}
use arbitrage_station.Retry.{
  RetryKey, RetryItem, Attempt, Sweep, update_key, after_attempt, retry_one, retry_each, due_items,
  sweep_of, process_due_retries, requeue, attempt_error, is_known,
}

abbrev pub count_unknown : List RetryItem → ℕ
count_unknown [] = 0
count_unknown (x ∷ xs) = (if is_known x.kind then 0 else 1) + count_unknown xs

-- From one sweep to a later one, over `n` items of which `u` are of no known kind.
record Counted (n u : ℕ) (s t : Sweep) : Type 0 where
  all : s.retried + n ≡ t.retried + u
  split : s.retried + t.succeeded + t.failed ≡ t.retried + s.succeeded + s.failed
  lost : s.dropped + u ≤ t.dropped
  lost_le : t.dropped + s.failed ≤ s.dropped + u + t.failed

abbrev pub IsWithin : ℕ → RetryItem → Type 0
IsWithin rounds x = x.retry_round ≤ rounds

module _ (run : ℕ → RetryItem → Attempt) (now backoff rounds : ℕ) where
  after_attempt-Counted :
      (x : RetryItem) (a : Attempt) (s : Sweep)
      → Counted 1 0 s (after_attempt now backoff rounds x a s)
  unfolding after_attempt
  after_attempt-Counted x a s = ground arith

  retry_one-Counted :
      (x : RetryItem) (s : Sweep)
      → Counted 1 (if is_known x.kind then 0 else 1) s (retry_one run now backoff rounds x s)
  unfolding retry_one
  retry_one-Counted x s = ground (arith, after_attempt-Counted x (run s.retried x) s)

  retry_each-Counted :
      (xs : List RetryItem) (s : Sweep)
      → Counted (length xs) (count_unknown xs) s (retry_each run now backoff rounds xs s)
  unfolding retry_each
  retry_each-Counted [] s = ground arith
  retry_each-Counted (x ∷ xs) s =
      let t = retry_one run now backoff rounds x s in
      ground (arith, retry_one-Counted x s, retry_each-Counted xs t)

  update_key-IsWithin :
      (k : RetryKey) (n : ℕ) (e : Option String) (q : List RetryItem)
      → n ≤ rounds
      → All (IsWithin rounds) q
      → All (IsWithin rounds) (update_key k (requeue now backoff n e) q)
  unfolding update_key
  update_key-IsWithin k n e [] h w = w
  update_key-IsWithin k n e (x ∷ q) h w = ground (arith, update_key-IsWithin k n e q h)

  after_attempt-IsWithin :
      (x : RetryItem) (a : Attempt) (s : Sweep)
      → All (IsWithin rounds) s.queue
      → All (IsWithin rounds) (after_attempt now backoff rounds x a s).queue
  unfolding after_attempt
  after_attempt-IsWithin x a s w =
      ground (arith, update_key-IsWithin x.key (x.retry_round + 1) (attempt_error x.kind a) s.queue)

  retry_one-IsWithin :
      (x : RetryItem) (s : Sweep)
      → All (IsWithin rounds) s.queue
      → All (IsWithin rounds) (retry_one run now backoff rounds x s).queue
  unfolding retry_one
  retry_one-IsWithin x s w = ground (arith, after_attempt-IsWithin x (run s.retried x) s w)

  retry_each-IsWithin :
      (xs : List RetryItem) (s : Sweep)
      → All (IsWithin rounds) s.queue
      → All (IsWithin rounds) (retry_each run now backoff rounds xs s).queue
  unfolding retry_each
  retry_each-IsWithin [] s w = w
  retry_each-IsWithin (x ∷ xs) s w =
      retry_each-IsWithin xs (retry_one run now backoff rounds x s) (retry_one-IsWithin x s w)

All-keep_if {ℓ κ} :
    {A : Type ℓ} (P : A → Type κ) (p : A → Bool) (xs : List A) → All P xs → All P (keep_if p xs)
All-keep_if P p [] h = h
All-keep_if P p (x ∷ xs) h = ground (arith, All-keep_if P p xs)

-- A sweep tries every due item of a known kind once, up to 30 of them; what it tried succeeded or
-- failed, and what it dropped is the items of no known kind and a part of the failed ones.
process_counts :
    (run : ℕ → RetryItem → Attempt) (now backoff rounds : ℕ) (q : List RetryItem)
    → let s = process_due_retries run now backoff rounds q in
      let due = due_items now q in
      (length due ≡ s.retried + count_unknown due)
      × (s.retried ≡ s.succeeded + s.failed)
      × (count_unknown due ≤ s.dropped)
      × (s.dropped ≤ count_unknown due + s.failed)
      × (s.retried ≤ 30)
unfolding process_due_retries
process_counts run now backoff rounds q = ground (
  arith,
  retry_each-Counted run now (max 1 backoff) rounds (due_items now q) (sweep_of q),
  length-take-le 30 (keep_if (λ x. leb x.next_retry_ts now) q),
)

-- If no entry of the queue is past the configured rounds, none is after a sweep, whatever the
-- attempts return.
process-IsWithin :
    (run : ℕ → RetryItem → Attempt) (now backoff rounds : ℕ) (q : List RetryItem)
    → All (IsWithin rounds) q
    → All (IsWithin rounds) (process_due_retries run now backoff rounds q).queue
unfolding process_due_retries
process-IsWithin run now backoff rounds q w =
    All-keep_if (IsWithin rounds) _ _
      (retry_each-IsWithin run now (max 1 backoff) rounds (due_items now q) (sweep_of q) w)
