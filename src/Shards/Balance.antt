-- ===== src/Shards/Balance.antt =====
-- The sizes of the shards that are dealt in turn.
use native.Mathlib.Nat.{suc-mod, mod-eq_of_lt, mod_self, zero-mod}
use native.Mathlib.Numerals.{add-one}
use mathlib.Core.Path.{subst}
use arbitrage_station.Base.{
  ℕ, zero, suc, ◌+◌, ◌%◌, ◌≤◌, ◌<◌, ◌≡◌, inl, inr, refl, sym, if-both, Bool, false, ◌||◌, List, [],
  ◌∷◌, arith, All, leb, ltb, Bool-cases, length, keep_if, length-append, ltb→lt,
}
use arbitrage_station.Shards.Sharding.{IsSharding, even-IsSharding, length-put_at}
use arbitrage_station.Shards.{put_at, repeat, is_filled, deal, used_count, even}

next_mod : (i n : ℕ) → (i + 1) % n ≡ suc (i % n) % n
next_mod i n = rw (add-one i) (suc-mod i n)

last_of : (r n : ℕ) → r < n → ltb (suc r) n ≡ false → n ≡ suc r
last_of r n h e = ground arith

module _ {A : Type 0} where
  -- The first `r` shards have `q + 1` symbols, the others `q`.
  abbrev Levels : ℕ → ℕ → List (List A) → Type 0
  Levels q r [] = Unit
  Levels q zero (b ∷ bs) = (length b ≡ q) × Levels q zero bs
  Levels q (suc r) (b ∷ bs) = (length b ≡ suc q) × Levels q r bs

  put_at-Levels :
      (q r : ℕ) (x : A) (out : List (List A))
      → Levels q r out
      → r < length out
      → Levels q (suc r) (put_at r x out)
  unfolding put_at
  put_at-Levels q r x [] l h = absurd (omega arith)
  put_at-Levels q zero x (b ∷ bs) l h = (omega (arith, l.0, length-append b (x ∷ [])), l.1)
  put_at-Levels q (suc r) x (b ∷ bs) l h = (l.0, put_at-Levels q r x bs l.1 (omega arith))

  full-Levels : (q : ℕ) (out : List (List A)) → Levels q (length out) out → Levels (suc q) zero out
  full-Levels q [] l = tt
  full-Levels q (b ∷ bs) l = (l.0, full-Levels q bs l.1)

  deal-Levels :
      (n i q r : ℕ) (xs : List A) (out : List (List A))
      → length out ≡ n
      → i % n ≡ r
      → r < n
      → Levels q r out
      → (q' : ℕ) × (r' : ℕ) × Levels q' r' (deal n i xs out)
  unfolding deal
  deal-Levels n i q r [] out many e h l = (q, r, l)
  deal-Levels n i q r (x ∷ xs) out many e h l =
      let out' = put_at r x out in
      let l' = put_at-Levels q r x out l (omega arith) in
      let many' : length out' ≡ n = omega (arith, length-put_at r x out) in
      rw e elim (Bool-cases (ltb (suc r) n)) [
        | inl lt ↦
            deal-Levels n (i + 1) q (suc r) xs out' many'
              (rw (next_mod i n, e, mod-eq_of_lt (ltb→lt (suc r) n lt))) (ltb→lt (suc r) n lt) l'
        | inr last ↦
            let full = last_of r n h last in
            deal-Levels n (i + 1) (suc q) 0 xs out' many'
              (rw (next_mod i n, e, sym full) (mod_self n)) (omega arith)
              (full-Levels q out' (subst (λ m. Levels q m out') (omega arith) l'))
      ]

  even-Levels :
      (q r : ℕ) (out : List (List A))
      → Levels q r out
      → All (λ b. (q ≤ length b) × (length b ≤ q + 1)) out
  even-Levels q r [] l = tt
  even-Levels q zero (b ∷ bs) (e, l) = ((omega arith, omega arith), even-Levels q 0 bs l)
  even-Levels q (suc r) (b ∷ bs) (e, l) = ((omega arith, omega arith), even-Levels q r bs l)

  All-keep_if :
      (P : List A → Type 0) (p : List A → Bool) (out : List (List A))
      → All P out
      → All P (keep_if p out)
  All-keep_if P p [] h = tt
  All-keep_if P p (b ∷ bs) (h, hs) =
      if-both (All P) (p b) (λ _. (h, All-keep_if P p bs hs)) λ _. All-keep_if P p bs hs

repeat-Levels : (A : Type 0) (k : ℕ) → Levels 0 0 (repeat {A = A} k)
repeat-Levels A zero = tt
repeat-Levels A (suc k) = (refl, repeat-Levels A k)

length-repeat : (A : Type 0) (k : ℕ) → length (repeat {A = A} k) ≡ k
length-repeat A zero = refl
length-repeat A (suc k) = omega (arith, length-repeat A k)

even_levelled :
    {A : Type 0} (symbols : List A) (n : ℕ)
    → (q : ℕ) × All (λ (b : List A). (q ≤ length b) × (length b ≤ q + 1)) (even symbols n)
unfolding even
even_levelled {A} symbols n =
    let k = used_count n symbols in
    let dealt = deal k 0 symbols (repeat k) in
    if-both
      (λ (out : List (List A)).
        (q : ℕ) × All (λ (b : List A). (q ≤ length b) × (length b ≤ q + 1)) out)
      (leb n 1 || leb (length symbols) 1) (λ _. (length symbols, ((omega arith, omega arith), tt)))
      λ _.
        let (q, r, l) =
          deal-Levels k 0 0 0 symbols (repeat k) (length-repeat A k) (zero-mod k) (omega arith)
            (repeat-Levels A k) in
        (
          q,
          All-keep_if (λ b. (q ≤ length b) × (length b ≤ q + 1)) is_filled dealt
              (even-Levels q r dealt l),
        )

-- The plan that deals symbols out in turn keeps each symbol as often as it stands in the list, has at
-- most as many shards as asked for, one at the least, and no empty one if there are symbols; and for
-- some size, every shard has that many symbols or one more.
pub even_balanced :
    {A : Type 0} (symbols : List A) (n : ℕ)
    → let shards = even symbols n in
      IsSharding n symbols shards
      × ((q : ℕ) × All (λ b. (q ≤ length b) × (length b ≤ q + 1)) shards)
even_balanced symbols n = (even-IsSharding symbols n, even_levelled symbols n)
