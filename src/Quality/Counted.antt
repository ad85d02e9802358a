-- ===== src/Quality/Counted.antt =====
-- What the counts and the classes of quality come to.
use arbitrage_station.Base.{
  ℕ, zero, suc, ◌+◌, ◌*◌, ◌≤◌, ◌<◌, ◌≡◌, ◌⊎◌, inl, inr, refl, Bool, true, false, List, [], ◌∷◌,
  ◌==◌, leb, ltb, if◌then◌else◌, arith, All, Bool-cases, leb→le,
}
use arbitrage_station.Quality.{
  Quality, ok, na, rank, all_na, worst_of, combine_quality, first_settlement, count_from,
  count_expected_funding_events,
}

next_step :
    (n period current stop : ℕ)
    → (stop < (current + period) + n * period)
      × ((n ≡ 0) ⊎ ((current + period) + n * period ≤ stop + period))
    → current ≤ stop
    → (stop < current + suc n * period) × ((suc n ≡ 0) ⊎ (current + suc n * period ≤ stop + period))
next_step n period current stop (past, inl none_) h =
    (grind (arith, past), inr (grind (arith, none_, h)))
next_step n period current stop (past, inr last) h =
    (grind (arith, past), inr (grind (arith, last)))

positive : (n : ℕ) → 1 ≤ n → (n == 0) ≡ false
positive n h = ground arith

later : (a b : ℕ) → a < b → leb b a ≡ false
later a b h = ground arith

-- With enough fuel, the loop counts each step up to the end: the step after the last is past it.
count_from_all :
    (fuel period current stop : ℕ)
    → 1 ≤ period
    → stop < current + fuel
    → let n = count_from fuel period current stop in
      (stop < current + n * period) × ((n ≡ 0) ⊎ (current + n * period ≤ stop + period))
unfolding count_from
count_from_all zero period current stop h e = ground arith
count_from_all (suc fuel) period current stop h e =
    let n = count_from fuel period (current + period) stop in
    let rest = count_from_all fuel period (current + period) stop h (omega (arith, h, e)) in
    elim (Bool-cases (leb current stop)) [
      | inl inside ↦ rw inside (next_step n period current stop rest (leb→le current stop inside))
      | inr past ↦ rw past (ground arith)
    ]

worst_of-rank :
    (best : Quality) (qs : List Quality)
    → (rank best ≤ rank (worst_of best qs)) × All (λ q. rank q ≤ rank (worst_of best qs)) qs
unfolding worst_of
worst_of-rank best [] = ground arith
worst_of-rank best (q ∷ qs) =
    let worse = if ltb (rank best) (rank q) then q else best in
    let (h, hs) = worst_of-rank worse qs in (ground (arith, h), (ground (arith, h), hs))

unless :
    (P : Quality → Type 0) (b : Bool) (u v : Quality) → b ≡ false → P v → P (if b then u else v)
unless P true u v e h = ground arith
unless P false u v e h = h

-- Settlements are counted as long as they are not past the end: with the window's first one at `first`, the
-- one after the counted ones is past the end, and the last counted one is not.
settlements_counted :
    (start stop hours : ℕ)
    → 1 ≤ hours
    → start < stop
    → let n = count_expected_funding_events start stop hours in
      let first = first_settlement (3600 * hours) start in
      (stop < first + n * (3600 * hours))
      × ((n ≡ 0) ⊎ (first + n * (3600 * hours) ≤ stop + 3600 * hours))
unfolding count_expected_funding_events
settlements_counted start stop hours h e =
    let period = 3600 * hours in
    let first = first_settlement period start in
    let counted = count_from_all (suc stop) period first stop (omega (arith, h)) (omega arith) in
    rw (positive hours h, later start stop e) counted

-- Of several classes of quality, none ranks worse than their combination, unless all are `na`.
combined_worst :
    (qs : List Quality) → (all_na qs ≡ true) ⊎ All (λ q. rank q ≤ rank (combine_quality qs)) qs
unfolding combine_quality
combined_worst [] = inl refl
combined_worst (q ∷ qs) = elim (Bool-cases (all_na (q ∷ qs))) [
  | inl every ↦ inl every
  | inr mixed ↦ inr (
      unless (λ r. All (λ x. rank x ≤ rank r) (q ∷ qs)) (all_na (q ∷ qs)) na (worst_of ok (q ∷ qs))
        mixed (worst_of-rank ok (q ∷ qs)).1)
]
