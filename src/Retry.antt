-- ===== src/Retry.antt =====
-- The queue of failed opens and closes that the spot-basis engine tries again
-- (backend/core/spot_basis_auto_engine/retry_queue.py).
--
-- Times are in milliseconds, the backoff in seconds, sizes in cents. A key is its parts: the last two
-- parts of an open key are numbers, so the source's text determines them. The engine's execution of a
-- plan of one item enters as its three lists, `Attempt`; it may depend on how many went before.
-- `_queue_snapshot` only prints the queue, and the list of details only repeats the counts.
mod Queue
pub mod Keys
pub mod Enqueue
pub mod Settled
pub mod Rounds
pub mod Tests
unfoldable pub use Queue.*
use text.Mathlib.Text.{◌==◌ as text_eq}
use arbitrage_station.Base.{
  ℕ, ◌+◌, ◌*◌, String, Bool, true, false, ◌&&◌, ◌||◌, not, Option, none, some, List, [], ◌∷◌, ◌++◌,
  ltb, leb, ◌==◌, if◌then◌else◌, keep_if, take, length, max, min,
}

-- What the execution of a plan of one item returns: how many were done, the errors and the skips.
pub record Attempt : Type 0 where
  pub done : ℕ
  pub failed : List (Option String)
  pub skipped : List (Option String)

abbrev attempt_ok : Attempt → Bool
attempt_ok a = elim a.failed [ [] ↦ ltb 0 a.done | _ ∷ _ ↦ false ]

abbrev head_or : List (Option String) → Option String → Option String
head_or [] d = d
head_or (x ∷ _) _ = x

-- A close reads its failures only; an open reads the skips where nothing failed.
abbrev attempt_error : Kind → Attempt → Option String
attempt_error Kind.close_kind a = head_or a.failed none
attempt_error _ a = head_or a.failed (head_or a.skipped none)

pub record Sweep : Type 0 where
  pub queue : List RetryItem
  pub success_keys : List RetryKey
  pub dropped_keys : List RetryKey
  pub retried : ℕ
  pub succeeded : ℕ
  pub failed : ℕ
  pub dropped : ℕ

abbrev has_key : RetryKey → List RetryKey → Bool
has_key k [] = false
has_key k (x ∷ xs) = key_eq x k || has_key k xs

-- `for q in _RETRY_QUEUE: … break`: the first entry of the key
pub update_key : RetryKey → (RetryItem → RetryItem) → List RetryItem → List RetryItem
update_key k f [] = []
update_key k f (x ∷ q) = let rest = update_key k f q in if key_eq x.key k then f x ∷ q else x ∷ rest

abbrev requeue : ℕ → ℕ → ℕ → Option String → RetryItem → RetryItem
requeue now backoff round error x = record x {
  retry_round = round;
  next_retry_ts = now + 1000 * backoff;
  updated_at = now;
  last_error = error;
}

abbrev is_known : Kind → Bool
is_known Kind.other_kind = false
is_known _ = true

-- What follows an attempt: success, one more round, or the end of the rounds.
pub after_attempt : ℕ → ℕ → ℕ → RetryItem → Attempt → Sweep → Sweep
unfolding update_key
after_attempt now backoff rounds x a s =
    if attempt_ok a
    then record s {
      success_keys = x.key ∷ s.success_keys;
      retried = s.retried + 1;
      succeeded = s.succeeded + 1;
    }
    else if ltb rounds (x.retry_round + 1)
    then record s {
      dropped_keys = x.key ∷ s.dropped_keys;
      retried = s.retried + 1;
      failed = s.failed + 1;
      dropped = s.dropped + 1;
    }
    else record s {
      queue =
          update_key x.key (requeue now backoff (x.retry_round + 1) (attempt_error x.kind a))
            s.queue;
      retried = s.retried + 1;
      failed = s.failed + 1;
    }

pub retry_one : (ℕ → RetryItem → Attempt) → ℕ → ℕ → ℕ → RetryItem → Sweep → Sweep
unfolding after_attempt
retry_one run now backoff rounds x s =
    if is_known x.kind
    then after_attempt now backoff rounds x (run s.retried x) s
    else record s { dropped_keys = x.key ∷ s.dropped_keys; dropped = s.dropped + 1 }

pub retry_each : (ℕ → RetryItem → Attempt) → ℕ → ℕ → ℕ → List RetryItem → Sweep → Sweep
retry_each run now backoff rounds [] s = s
retry_each run now backoff rounds (x ∷ xs) s =
    retry_each run now backoff rounds xs (retry_one run now backoff rounds x s)

abbrev pub due_items : ℕ → List RetryItem → List RetryItem
due_items now q = take 30 (keep_if (λ x. leb x.next_retry_ts now) q)

abbrev pub sweep_of : List RetryItem → Sweep
sweep_of q = record {
  queue = q;
  success_keys = [];
  dropped_keys = [];
  retried = 0;
  succeeded = 0;
  failed = 0;
  dropped = 0;
}

abbrev finish : Sweep → Sweep
finish s = record s {
  queue =
      keep_if (λ x. not (has_key x.key s.success_keys) && not (has_key x.key s.dropped_keys))
        s.queue;
}

-- `_process_due_retries`
pub process_due_retries : (ℕ → RetryItem → Attempt) → ℕ → ℕ → ℕ → List RetryItem → Sweep
unfolding retry_each retry_one
process_due_retries run now backoff rounds q =
    finish (retry_each run now (max 1 backoff) rounds (due_items now q) (sweep_of q))
