-- ===== src/Retry/Queue.antt =====
-- The items of the queue, and how failures enter it (`_enqueue_retry_items` of
-- backend/core/spot_basis_auto_engine/retry_queue.py).
use text.Mathlib.Text.{◌==◌ as text_eq}
use arbitrage_station.Base.{
  ℕ, ◌+◌, ◌*◌, String, Bool, false, ◌&&◌, ◌||◌, Option, none, some, List, [], ◌∷◌, ◌++◌, leb, ◌==◌,
  if◌then◌else◌, take, length, max,
}

pub data Kind : Type 0 where
  open_kind close_kind other_kind : Kind

pub data RetryKey : Type 0 where
  close_key : ℕ → RetryKey
  open_key : String → ℕ → ℕ → RetryKey

pub record Payload : Type 0 where
  pub strategy_id : ℕ
  pub row_id : String
  pub symbol : String
  pub long_exchange_id : ℕ
  pub short_exchange_id : ℕ
  pub size_usd : ℕ

pub record RetryItem : Type 0 where
  pub key : RetryKey
  pub kind : Kind
  pub payload : Payload
  pub retry_round : ℕ
  pub max_rounds : ℕ
  pub next_retry_ts : ℕ
  pub last_error : Option String
  pub updated_at : ℕ
  pub created_at : ℕ

abbrev pub max_items : ℕ
max_items = 200

-- `_retry_key`
abbrev pub retry_key : Kind → Payload → RetryKey
retry_key Kind.close_kind p = close_key p.strategy_id
retry_key _ p = open_key p.row_id p.long_exchange_id p.short_exchange_id

-- `_compact_retry_payload`: a close keeps no exchanges, an open no strategy.
abbrev pub compact_retry_payload : Kind → Payload → Payload
compact_retry_payload Kind.close_kind p = record p { long_exchange_id = 0; short_exchange_id = 0 }
compact_retry_payload _ p = record p { strategy_id = 0 }

abbrev pub key_eq : RetryKey → RetryKey → Bool
key_eq (close_key a) (close_key b) = a == b
key_eq (open_key r a b) (open_key s c d) = text_eq r s && (a == c && b == d)
key_eq _ _ = false

-- `"close:0"` and `"open::0:0"`
abbrev pub is_blank_key : RetryKey → Bool
is_blank_key k = key_eq k (close_key 0) || key_eq k (open_key "" 0 0)

-- `sort(key=updated_at, reverse=True)`, which keeps the order of equal elements
unfoldable pub insert_newest : RetryItem → List RetryItem → List RetryItem
insert_newest x [] = x ∷ []
insert_newest x (y ∷ ys) =
    let rest = insert_newest x ys in if leb y.updated_at x.updated_at then x ∷ y ∷ ys else y ∷ rest

unfoldable pub sort_newest : List RetryItem → List RetryItem
unfolding insert_newest
sort_newest [] = []
sort_newest (x ∷ xs) = insert_newest x (sort_newest xs)

-- `_trim_retry_queue_if_needed`
unfoldable pub trim_retry_queue : List RetryItem → List RetryItem
unfolding sort_newest
trim_retry_queue q = if leb (length q) max_items then q else take max_items (sort_newest q)

-- `queue[key_to_idx[key]] = f(old)`: the last entry of the key; `none` if the key is not there
unfoldable pub replace_key :
    RetryKey → (RetryItem → RetryItem) → List RetryItem → Option (List RetryItem)
replace_key k f [] = none
replace_key k f (x ∷ q) = elim (replace_key k f q) [
  | some q' ↦ some (x ∷ q')
  | none ↦ if key_eq x.key k then some (f x ∷ q) else none
]

pub record Failure : Type 0 where
  pub payload : Payload
  pub error : Option String

unfoldable pub new_item : Kind → ℕ → ℕ → ℕ → Failure → RetryItem
new_item kind now rounds backoff f =
    let p = compact_retry_payload kind f.payload in
    record {
      key = retry_key kind p;
      kind = kind;
      payload = p;
      retry_round = 0;
      max_rounds = rounds;
      next_retry_ts = now + 1000 * max 1 backoff;
      last_error = f.error;
      updated_at = now;
      created_at = now;
    }

-- An entry of the same key keeps its round and its first time.
abbrev pub renew : RetryItem → RetryItem → RetryItem
renew new old = record new { created_at = old.created_at; retry_round = old.retry_round }

-- One item of `_enqueue_retry_items`, with the number of new entries.
unfoldable pub enqueue_item : RetryItem → List RetryItem → List RetryItem × ℕ
unfolding replace_key
enqueue_item new q =
    if is_blank_key new.key
    then (q, 0)
    else elim (replace_key new.key (renew new) q) [ some q' ↦ (q', 0) | none ↦ (q ++ new ∷ [], 1) ]

unfoldable pub enqueue_all : List RetryItem → List RetryItem → List RetryItem × ℕ
unfolding enqueue_item
enqueue_all [] q = (q, 0)
enqueue_all (new ∷ more) q =
    let (q', n) = enqueue_item new q in let (q'', m) = enqueue_all more q' in (q'', n + m)

unfoldable pub items_of : Kind → ℕ → ℕ → ℕ → List Failure → List RetryItem
unfolding new_item
items_of kind now rounds backoff [] = []
items_of kind now rounds backoff (f ∷ fs) =
    new_item kind now rounds backoff f ∷ items_of kind now rounds backoff fs

-- `_enqueue_retry_items`
unfoldable pub enqueue_retry_items :
    Kind → List Failure → ℕ → ℕ → ℕ → List RetryItem → List RetryItem × ℕ
unfolding enqueue_all items_of trim_retry_queue
enqueue_retry_items kind fs now rounds backoff q =
    if rounds == 0
    then (q, 0)
    else (let (q', added) = enqueue_all (items_of kind now rounds backoff fs) q in
        (trim_retry_queue q', added))
