-- ===== src/Repair/Rows.antt =====
-- Sorted rows, and the rows that a query picks out of the positions.
use arbitrage_station.Base.{
  ℕ, ◌+◌, ◌≡◌, ◌≢◌, ◌⊎◌, inl, inr, refl, List, [], ◌∷◌, arith, All, leb, Bool, sym, keep_if,
  if-both,
}
use arbitrage_station.Trading.Store.{Position}
use arbitrage_station.Trading.Store.Laws.{Absent, Distinct}
use arbitrage_station.Repair.{size_of_rows, insert_largest, sort_largest}

-- The list has a row of this number and size.
abbrev pub Holds : List (Position ℕ) → Position ℕ → Type 0
Holds [] p = ⊥
Holds (x ∷ xs) p = ((x.id ≡ p.id) × (x.size ≡ p.size)) ⊎ Holds xs p

insert-size :
    (x : Position ℕ) (ps : List (Position ℕ))
    → size_of_rows (insert_largest x ps) ≡ x.size + size_of_rows ps
unfolding insert_largest size_of_rows
insert-size x [] = refl
insert-size x (p ∷ ps) = ground (arith, insert-size x ps)

pub sort-size : (ps : List (Position ℕ)) → size_of_rows (sort_largest ps) ≡ size_of_rows ps
unfolding sort_largest size_of_rows
sort-size [] = refl
sort-size (p ∷ ps) = omega (arith, sort-size ps, insert-size p (sort_largest ps))

insert-All :
    (P : Position ℕ → Type 0) (x : Position ℕ) (ps : List (Position ℕ))
    → P x
    → All P ps
    → All P (insert_largest x ps)
unfolding insert_largest
insert-All P x [] h hs = (h, tt)
insert-All P x (p ∷ ps) h hs =
    if-both (All P) (leb p.size x.size) (λ _. (h, hs)) λ _. (hs.0, insert-All P x ps h hs.1)

pub sort-All :
    (P : Position ℕ → Type 0) (ps : List (Position ℕ)) → All P ps → All P (sort_largest ps)
unfolding sort_largest
sort-All P [] h = tt
sort-All P (p ∷ ps) h = insert-All P p (sort_largest ps) h.0 (sort-All P ps h.1)

insert-Absent :
    (j : ℕ) (x : Position ℕ) (ps : List (Position ℕ))
    → x.id ≢ j
    → Absent j ps
    → Absent j (insert_largest x ps)
unfolding insert_largest
insert-Absent j x [] ne a = (ne, tt)
insert-Absent j x (p ∷ ps) ne a = ground (arith, insert-Absent j x ps ne a.1)

insert-Distinct :
    (x : Position ℕ) (ps : List (Position ℕ))
    → Absent x.id ps
    → Distinct ps
    → Distinct (insert_largest x ps)
unfolding insert_largest
insert-Distinct x [] a d = (tt, tt)
insert-Distinct x (p ∷ ps) a d =
    let rest = insert-Distinct x ps a.1 d.1 in
    let here = insert-Absent p.id x ps (λ e. a.0 (sym e)) d.0 in
    if-both Distinct (leb p.size x.size) (λ _. (a, d)) λ _. (here, rest)

sort-Absent : (j : ℕ) (ps : List (Position ℕ)) → Absent j ps → Absent j (sort_largest ps)
unfolding sort_largest
sort-Absent j [] a = tt
sort-Absent j (p ∷ ps) a = insert-Absent j p (sort_largest ps) a.0 (sort-Absent j ps a.1)

pub sort-Distinct : (ps : List (Position ℕ)) → Distinct ps → Distinct (sort_largest ps)
unfolding sort_largest
sort-Distinct [] d = tt
sort-Distinct (p ∷ ps) d =
    insert-Distinct p (sort_largest ps) (sort-Absent p.id ps d.0) (sort-Distinct ps d.1)

module _ (q : Position ℕ → Bool) where
  keep-Absent : (j : ℕ) (ps : List (Position ℕ)) → Absent j ps → Absent j (keep_if q ps)
  keep-Absent j [] a = tt
  keep-Absent j (p ∷ ps) a = ground (arith, keep-Absent j ps a.1)

  pub keep-Distinct : (ps : List (Position ℕ)) → Distinct ps → Distinct (keep_if q ps)
  keep-Distinct [] d = tt
  keep-Distinct (p ∷ ps) d = ground (arith, keep-Absent p.id ps d.0, keep-Distinct ps d.1)

  weaken :
      (x : Position ℕ) (rows ps : List (Position ℕ))
      → All (Holds ps) rows
      → All (Holds (x ∷ ps)) rows
  weaken x [] ps h = tt
  weaken x (p ∷ rows) ps h = (inr h.0, weaken x rows ps h.1)

  pub keep-Holds : (ps : List (Position ℕ)) → All (Holds ps) (keep_if q ps)
  keep-Holds [] = tt
  keep-Holds (p ∷ ps) =
      let rest = weaken p (keep_if q ps) ps (keep-Holds ps) in
      if-both (All (Holds (p ∷ ps))) (q p) (λ _. (inl (refl, refl), rest)) λ _. rest
