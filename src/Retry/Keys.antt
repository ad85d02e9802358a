-- ===== src/Retry/Keys.antt =====
-- The keys of the retry queue: what enqueueing and a sweep keep of them.
use text.Mathlib.TextEquality.{eq_iff}
use arbitrage_station.Base.{
  ℕ, zero, suc, ◌≤◌, ◌≡◌, inl, inr, refl, ap, true, false, Option, none, some, List, [], ◌∷◌, arith,
  length, All, take, map, length-take-le, Bool-cases, ==→eq, ==-refl,
}
use arbitrage_station.Retry.{
  RetryKey, close_key, open_key, RetryItem, key_eq, is_blank_key, insert_newest, sort_newest,
  trim_retry_queue, replace_key, renew, max_items,
}

pub key_eq_refl : (k : RetryKey) → key_eq k k ≡ true
key_eq_refl (close_key a) = ==-refl a
key_eq_refl (open_key r a b) = grind (arith, (eq_iff r r).1 refl, ==-refl a, ==-refl b)

pub key_eq→eq : (k m : RetryKey) → key_eq k m ≡ true → k ≡ m
key_eq→eq (close_key a) (close_key b) h = ap close_key (==→eq a b h)
key_eq→eq (open_key r a b) (open_key s c d) h = grind (arith, (eq_iff r s).0, ==→eq a c, ==→eq b d)
key_eq→eq (close_key a) (open_key s c d) h = ground arith
key_eq→eq (open_key r a b) (close_key c) h = ground arith

pub key_eq_flip : (k m : RetryKey) → key_eq k m ≡ false → key_eq m k ≡ false
key_eq_flip k m h = elim (Bool-cases (key_eq m k)) [
  | inl e ↦ grind (arith, key_eq→eq m k, key_eq_refl k)
  | inr e ↦ e
]

abbrev keys : List RetryItem → List RetryKey
keys q = map (λ x. x.key) q

abbrev pub IsOther : RetryKey → RetryItem → Type 0
IsOther k y = key_eq y.key k ≡ false

-- No two entries have the same key.
abbrev pub Distinct : List RetryItem → Type 0
Distinct [] = Unit
Distinct (x ∷ q) = All (IsOther x.key) q × Distinct q

-- What the queue keeps: one entry for a key, and no blank key.
abbrev pub IsNamed : RetryItem → Type 0
IsNamed x = is_blank_key x.key ≡ false

pub record IsSound (q : List RetryItem) : Type 0 where
  pub distinct : Distinct q
  pub named : All IsNamed q

insert_newest-All {κ} :
    (P : RetryItem → Type κ) (x : RetryItem) (q : List RetryItem)
    → P x
    → All P q
    → All P (insert_newest x q)
unfolding insert_newest
insert_newest-All P x [] h w = (h, tt)
insert_newest-All P x (y ∷ q) h w = ground (arith, insert_newest-All P x q)

insert_newest-Distinct :
    (x : RetryItem) (q : List RetryItem)
    → All (IsOther x.key) q
    → Distinct q
    → Distinct (insert_newest x q)
unfolding insert_newest
insert_newest-Distinct x [] o d = (tt, tt)
insert_newest-Distinct x (y ∷ q) o d = ground (
  arith,
  insert_newest-Distinct x q,
  insert_newest-All (IsOther y.key) x q,
  key_eq_flip y.key x.key,
)

sort_newest-All {κ} :
    (P : RetryItem → Type κ) (q : List RetryItem) → All P q → All P (sort_newest q)
unfolding sort_newest
sort_newest-All P [] w = tt
sort_newest-All P (x ∷ q) (h, w) = insert_newest-All P x (sort_newest q) h (sort_newest-All P q w)

sort_newest-Distinct : (q : List RetryItem) → Distinct q → Distinct (sort_newest q)
unfolding sort_newest
sort_newest-Distinct [] d = tt
sort_newest-Distinct (x ∷ q) (o, d) =
    insert_newest-Distinct x (sort_newest q) (sort_newest-All (IsOther x.key) q o)
      (sort_newest-Distinct q d)

pub take-All {κ} :
    (P : RetryItem → Type κ) (n : ℕ) (q : List RetryItem) → All P q → All P (take n q)
take-All P zero q w = tt
take-All P (suc n) [] w = tt
take-All P (suc n) (x ∷ q) (h, w) = (h, take-All P n q w)

take-Distinct : (n : ℕ) (q : List RetryItem) → Distinct q → Distinct (take n q)
take-Distinct zero q d = tt
take-Distinct (suc n) [] d = tt
take-Distinct (suc n) (x ∷ q) (o, d) = (take-All (IsOther x.key) n q o, take-Distinct n q d)

pub trim-IsSound : (q : List RetryItem) → IsSound q → IsSound (trim_retry_queue q)
unfolding trim_retry_queue
trim-IsSound q s =
    let cut : IsSound (take max_items (sort_newest q)) = record {
      distinct = take-Distinct max_items (sort_newest q) (sort_newest-Distinct q s.distinct);
      named = take-All IsNamed max_items (sort_newest q) (sort_newest-All IsNamed q s.named);
    } in
    ground (arith, cut)

pub trim-capped : (q : List RetryItem) → length (trim_retry_queue q) ≤ max_items
unfolding trim_retry_queue
trim-capped q = ground (arith, length-take-le max_items (sort_newest q))

-- Replacing an entry by one of its key keeps what is said of keys alone.
abbrev pub Replaced : (List RetryItem → Type 0) → Type 0 → Option (List RetryItem) → Type 0
Replaced P Q none = Q
Replaced P Q (some q) = P q

module _ (new : RetryItem) where
  pub replace_key-All :
      (P : RetryKey → Type 0) (q : List RetryItem)
      → All (λ y. P y.key) q
      → Replaced (All (λ y. P y.key)) Unit (replace_key new.key (renew new) q)
  unfolding replace_key
  replace_key-All P [] w = tt
  replace_key-All P (x ∷ q) w = ground (arith, replace_key-All P q, key_eq→eq x.key new.key)

  pub replace_key-Distinct :
      (q : List RetryItem)
      → Distinct q
      → Replaced Distinct (All (IsOther new.key) q) (replace_key new.key (renew new) q)
  unfolding replace_key
  replace_key-Distinct [] d = tt
  replace_key-Distinct (x ∷ q) d = ground (
    arith,
    replace_key-Distinct q,
    replace_key-All (λ k. key_eq k x.key ≡ false) q,
    key_eq→eq x.key new.key,
  )
