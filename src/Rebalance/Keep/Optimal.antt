-- ===== src/Rebalance/Keep/Optimal.antt =====
-- The subset that is kept of a small bucket is the best of all.
use arbitrage_station.Base.{
  ℕ, zero, suc, ◌≤◌, ◌<◌, ◌≡◌, ◌⊎◌, inl, inr, refl, Bool, true, false, List, [], ◌∷◌, arith, length,
  All, if◌then◌else◌, Bool-cases, ◌==◌, ◌&&◌, ◌||◌, ltb,
}
use arbitrage_station.Rebalance.Keep.{
  PairRow, mask_cost, kept_sum, improves, best_of, first_best, best_mask, masks, both_bits,
}

-- One mask costs less than another, or as much and keeps no less.
abbrev pub IsNoWorse : ℕ → List PairRow → List Bool → List Bool → Type 0
IsNoWorse target rows b m =
    (mask_cost target rows b < mask_cost target rows m)
    ⊎ ((mask_cost target rows b ≡ mask_cost target rows m) × (kept_sum m rows ≤ kept_sum b rows))

module _ (target : ℕ) (rows : List PairRow) where
  IsNoWorse-trans :
      (a b c : List Bool)
      → IsNoWorse target rows a b
      → IsNoWorse target rows b c
      → IsNoWorse target rows a c
  IsNoWorse-trans a b c (inl h) (inl k) = inl (omega (arith, h, k))
  IsNoWorse-trans a b c (inl h) (inr k) = inl (omega (arith, h, k.0))
  IsNoWorse-trans a b c (inr h) (inl k) = inl (omega (arith, h.0, k))
  IsNoWorse-trans a b c (inr h) (inr k) = inr (omega (arith, h.0, k.0), omega (arith, h.1, k.1))

  better_of : List Bool → List Bool → List Bool
  better_of m best = if improves target rows m best then m else best

  numbers :
      (a b c d : ℕ)
      → let hit = ltb a b || (a == b && ltb d c) in
        ((hit ≡ true) → (a < b) ⊎ ((a ≡ b) × (d ≤ c)))
        × ((hit ≡ false) → (b < a) ⊎ ((b ≡ a) × (c ≤ d)))
  numbers a b c d = ground arith

  better-IsNoWorse :
      (m best : List Bool)
      → IsNoWorse target rows (better_of m best) m × IsNoWorse target rows (better_of m best) best
  unfolding better_of
  better-IsNoWorse m best =
      let facts =
        numbers (mask_cost target rows m) (mask_cost target rows best) (kept_sum m rows)
          (kept_sum best rows) in
      elim (Bool-cases (improves target rows m best)) [
        | inl hit ↦ rw hit (inr (refl, omega arith), facts.0 hit)
        | inr miss ↦ rw miss (facts.1 miss, inr (refl, omega arith))
      ]

  best_of-IsNoWorse :
      (best : List Bool) (ms : List (List Bool))
      → IsNoWorse target rows (best_of target rows best ms) best
        × All (IsNoWorse target rows (best_of target rows best ms)) ms
  unfolding best_of better_of
  best_of-IsNoWorse best [] = (inr (refl, omega arith), tt)
  best_of-IsNoWorse best (m ∷ ms) =
      let b = better_of m best in
      let e = best_of target rows b ms in
      let (h, hs) = best_of-IsNoWorse b ms in
      let (of_m, of_best) = better-IsNoWorse m best in
      (IsNoWorse-trans e b best h of_best, (IsNoWorse-trans e b m h of_m, hs))

first_best-All :
    (target : ℕ) (rows : List PairRow) (ms : List (List Bool))
    → All (IsNoWorse target rows (first_best target rows ms)) ms
first_best-All target rows [] = tt
first_best-All target rows (m ∷ ms) = best_of-IsNoWorse target rows m ms

All-both_bits :
    (P : List Bool → Type 0) (b : Bool) (ms : List (List Bool))
    → All P (both_bits ms)
    → All (λ m. P (b ∷ m)) ms
unfolding both_bits
All-both_bits P b [] h = tt
All-both_bits P false (m ∷ ms) (h, (k, hs)) = (h, All-both_bits P false ms hs)
All-both_bits P true (m ∷ ms) (h, (k, hs)) = (k, All-both_bits P true ms hs)

-- Every mask of a length is among those of that length.
All-masks : (P : List Bool → Type 0) (n : ℕ) (m : List Bool) → length m ≡ n → All P (masks n) → P m
unfolding masks
All-masks P zero [] e h = h.0
All-masks P (suc n) (b ∷ m) e h =
    All-masks (λ k. P (b ∷ k)) n m (omega (arith, e)) (All-both_bits P b (masks n) h)
All-masks P zero (b ∷ m) e h = ground arith
All-masks P (suc n) [] e h = ground arith

-- The mask that is chosen costs no more than any other mask of the rows, and of those that cost as
-- much none keeps more.
pub best_mask_optimal :
    (target : ℕ) (rows : List PairRow) (m : List Bool)
    → length m ≡ length rows
    → IsNoWorse target rows (best_mask target rows) m
unfolding best_mask
best_mask_optimal target rows m e =
    All-masks (IsNoWorse target rows (first_best target rows (masks (length rows)))) (length rows) m
      e (first_best-All target rows (masks (length rows)))
