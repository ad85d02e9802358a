-- ===== src/Retry/Enqueue.antt =====
-- What enqueueing keeps of the queue (`_enqueue_retry_items`).
use arbitrage_station.Base.{
  ℕ, ◌≤◌, ◌≡◌, refl, if◌then◌else◌, Bool, true, false, Option, none, some, List, [], ◌∷◌, ◌++◌,
  arith, length, All,
}
use arbitrage_station.Retry.{
  Kind, RetryItem, Failure, is_blank_key, replace_key, renew, enqueue_item, enqueue_all, items_of,
  enqueue_retry_items, max_items,
}
use arbitrage_station.Retry.Keys.{
  IsSound, Distinct, IsNamed, IsOther, Replaced, replace_key-All, replace_key-Distinct,
  trim-IsSound, trim-capped, key_eq_flip,
}

append-All :
    (P : RetryItem → Type 0) (q : List RetryItem) (x : RetryItem)
    → All P q
    → P x
    → All P (q ++ x ∷ [])
append-All P [] x w h = (h, tt)
append-All P (y ∷ q) x (v, w) h = (v, append-All P q x w h)

append-Distinct :
    (q : List RetryItem) (x : RetryItem)
    → All (IsOther x.key) q
    → Distinct q
    → Distinct (q ++ x ∷ [])
append-Distinct [] x o d = (tt, tt)
append-Distinct (y ∷ q) x (n, o) (v, d) =
    (append-All (IsOther y.key) q x v (key_eq_flip y.key x.key n), append-Distinct q x o d)

placed-IsSound :
    (x : RetryItem) (q : List RetryItem) (o : Option (List RetryItem))
    → is_blank_key x.key ≡ false
    → All IsNamed q
    → Distinct q
    → Replaced (All IsNamed) Unit o
    → Replaced Distinct (All (IsOther x.key) q) o
    → IsSound
        (elim o as (λ _. List RetryItem × ℕ) [ some q' ↦ (q', 0) | none ↦ (q ++ x ∷ [], 1) ]).0
placed-IsSound x q (some q') h n d n' d' = record { distinct = d'; named = n' }
placed-IsSound x q none h n d n' d' = record {
  distinct = append-Distinct q x d' d;
  named = append-All IsNamed q x n h;
}

pick-IsSound :
    (b : Bool) (u v : List RetryItem × ℕ)
    → IsSound u.0
    → (b ≡ false → IsSound v.0)
    → IsSound (if b then u else v).0
pick-IsSound true u v h k = h
pick-IsSound false u v h k = k refl

enqueue_item-IsSound :
    (x : RetryItem) (q : List RetryItem) → IsSound q → IsSound (enqueue_item x q).0
unfolding enqueue_item
enqueue_item-IsSound x q s =
    pick-IsSound (is_blank_key x.key) (q, 0) _ s
      (λ h.
        placed-IsSound x q (replace_key x.key (renew x) q) h s.named s.distinct
          (replace_key-All x (λ k. is_blank_key k ≡ false) q s.named)
          (replace_key-Distinct x q s.distinct))

enqueue_all-IsSound : (xs q : List RetryItem) → IsSound q → IsSound (enqueue_all xs q).0
unfolding enqueue_all
enqueue_all-IsSound [] q s = s
enqueue_all-IsSound (x ∷ xs) q s =
    enqueue_all-IsSound xs (enqueue_item x q).0 (enqueue_item-IsSound x q s)

-- A queue that has no blank key and no key twice has none after enqueueing, and if it had at most 200
-- entries, it still has.
pub enqueue-IsSound :
    (kind : Kind) (fs : List Failure) (now rounds backoff : ℕ) (q : List RetryItem)
    → IsSound q
    → length q ≤ max_items
    → let q' = (enqueue_retry_items kind fs now rounds backoff q).0 in
      IsSound q' × (length q' ≤ max_items)
unfolding enqueue_retry_items
enqueue-IsSound kind fs now rounds backoff q s h =
    let added = (enqueue_all (items_of kind now rounds backoff fs) q).0 in
    ground (
      arith,
      trim-IsSound added (enqueue_all-IsSound (items_of kind now rounds backoff fs) q s),
      trim-capped added,
    )
