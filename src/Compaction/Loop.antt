-- ===== src/Compaction/Loop.antt =====
-- The loop of rollup steps: it ends, and with no limit on its time it empties the old part of the source.
use arbitrage_station.Base.{
  ℕ, zero, suc, ◌+◌, max, ◌≤◌, ◌<◌, ◌≡◌, ◌⊎◌, inl, inr, refl, Bool, true, some, List, [], ◌∷◌,
  arith, ◌==◌, ==→eq, Bool-cases, ltb, length, keep_if,
}
use arbitrage_station.Compaction.{Level, Bar, pick_oldest, Tables, rollup, run_step_loop}

module _ {A X : Type 0} (bar : X → Bar A) (cutoff : ℕ) where
  abbrev pub is_early : X → Bool
  is_early x = ltb (bar x).key.bucket_ms cutoff

  -- The rows before the cutoff
  abbrev pub count_early : List X → ℕ
  count_early xs = length (keep_if is_early xs)

  pick_oldest_lem :
      (n : ℕ) (xs : List X)
      → let (picked, left) = pick_oldest bar cutoff n xs in
        (count_early left + length picked ≡ count_early xs)
        × (length left + length picked ≡ length xs)
        × ((n ≡ length picked) ⊎ (count_early left ≡ 0))
  unfolding pick_oldest
  pick_oldest_lem zero [] = (omega arith, omega arith, inl refl)
  pick_oldest_lem (suc n) [] = (omega arith, omega arith, inr refl)
  pick_oldest_lem zero (x ∷ xs) = (omega arith, omega arith, inl refl)
  pick_oldest_lem (suc n) (x ∷ xs) =
      ground (arith, pick_oldest_lem n xs, pick_oldest_lem (suc n) xs)

none_early : {A X : Type 0} (bar : X → Bar A) (xs : List X) → count_early bar 0 xs ≡ 0
none_early bar [] = refl
none_early bar (x ∷ xs) = ground (arith, none_early bar xs)

-- The time was up before some step from the i-th on.
abbrev pub TimeUp : (ℕ → Bool) → ℕ → Type 0
TimeUp exceeded i = (j : ℕ) × (i ≤ j) × (exceeded j ≡ true)

module _ (L : Level) {X : Type 0} (bar : X → Bar L.Number) (width cutoff batch_rows : ℕ) where
  rollup_deletes :
      (t : Tables L X)
      → let (t', changed) = rollup L bar width cutoff batch_rows t in
        (count_early bar cutoff t'.0 + changed ≡ count_early bar cutoff t.0)
        × (length t'.0 + changed ≡ length t.0)
        × ((0 < changed) ⊎ (count_early bar cutoff t'.0 ≡ 0))
  unfolding rollup
  rollup_deletes (src, dst) =
      ground (arith, none_early bar src, pick_oldest_lem bar cutoff (max 100 batch_rows) src)

  later_up :
      {P : Type 0} (exceeded : ℕ → Bool) (i : ℕ)
      → P ⊎ TimeUp exceeded (i + 1)
      → P ⊎ TimeUp exceeded i
  later_up exceeded i (inl p) = inl p
  later_up exceeded i (inr (j, le, up)) = inr (j, omega arith, up)

  -- If the fuel is more than the rows before the cutoff, the loop returns. What it returns is what it
  -- was given plus the number of rows that have left the source, all of them from before the cutoff; and
  -- no row from before the cutoff is left, unless the time was up before some step.
  pub run_step_loop_ends :
      (exceeded : ℕ → Bool) (fuel i total : ℕ) (t : Tables L X)
      → count_early bar cutoff t.0 < fuel
      → (t' : Tables L X) × (total' : ℕ) × (run_step_loop L fuel exceeded
            (rollup L bar width cutoff batch_rows)
            i
            total
            t
          ≡ some (t', total'))
        × (length t'.0 + total' ≡ length t.0 + total)
        × (count_early bar cutoff t'.0 + total' ≡ count_early bar cutoff t.0 + total)
        × ((count_early bar cutoff t'.0 ≡ 0) ⊎ TimeUp exceeded i)
  unfolding run_step_loop
  run_step_loop_ends exceeded zero i total t h = absurd (omega arith)
  run_step_loop_ends exceeded (suc fuel) i total t h =
      let (t1, changed) = rollup L bar width cutoff batch_rows t in
      let (few, all, some_or_none) = rollup_deletes t in
      elim (Bool-cases (exceeded i)) [
        | inl up ↦ (t, total, rw up refl, refl, refl, inr (i, omega arith, up))
        | inr go ↦ elim (Bool-cases (changed == 0)) [
          | inl stop ↦
              let none_changed = ==→eq changed 0 stop in
              (t1, total, rw (go, stop) refl, omega arith, omega arith, inl (ground arith))
          | inr more ↦
              let (t2, total2, e, l, c, d) =
                run_step_loop_ends exceeded fuel (i + 1) (total + changed) t1 (ground arith) in
              (t2, total2, rw (go, more) e, omega arith, omega arith, later_up exceeded i d)
        ]
      ]
