-- ===== src/Repair/Conserved.antt =====
-- What `_apply_reduce_on_positions` takes off, and what is left.
use arbitrage_station.Base.{
  ℕ, ◌+◌, ◌-◌, ◌≤◌, ◌≡◌, ◌≢◌, inl, inr, refl, List, [], ◌∷◌, arith, All, length, min, if◌then◌else◌,
  leb, ◌==◌, Bool-cases, ==-refl, true, Bool, sym, keep_if,
}
use mathlib.Core.Path.{subst}
use arbitrage_station.Trading.Store.{Position, set_position}
use arbitrage_station.Trading.Store.Laws.{Absent, Distinct}
use arbitrage_station.Repair.Rows.{
  Holds, sort-size, sort-All, sort-Distinct, keep-Distinct, keep-Holds,
}
use arbitrage_station.Repair.{
  size_of_rows, cut, sort_largest, reduce_ordered, apply_reduce, total_of,
}

-- What a cut of `dec` removes: the last unit goes too.
abbrev removed : ℕ → Position ℕ → ℕ
removed dec p = if leb (p.size - dec) 1 then p.size else dec

cut-Absent :
    (now dec j : ℕ) (ps : List (Position ℕ))
    → Absent j ps
    → size_of_rows (set_position j (cut now dec) ps) ≡ size_of_rows ps
unfolding size_of_rows
cut-Absent now dec j [] a = refl
cut-Absent now dec j (p ∷ ps) a = ground (arith, cut-Absent now dec j ps a.1)

other : (j : ℕ) (p : Position ℕ) (ps : List (Position ℕ)) → Absent j ps → Holds ps p → j ≢ p.id
other j p [] a h = elim h [ ]
other j p (x ∷ xs) a (inl h) = ground arith
other j p (x ∷ xs) a (inr h) = other j p xs a.1 h

cut_size :
    (now dec : ℕ) (p : Position ℕ) (ps : List (Position ℕ))
    → dec ≤ p.size
    → Distinct ps
    → Holds ps p
    → size_of_rows (set_position p.id (cut now dec) ps) + removed dec p ≡ size_of_rows ps
unfolding size_of_rows
cut_size now dec p [] le d h = elim h [ ]
cut_size now dec p (x ∷ xs) le d (inl (e, s)) =
    let a : Absent p.id xs = subst (λ j. Absent j xs) e d.0 in
    let rest = cut-Absent now dec p.id xs a in
    let self : (x.id == p.id) ≡ true = rw e (==-refl p.id) in ground arith
cut_size now dec p (x ∷ xs) le d (inr h) =
    ground (arith, cut_size now dec p xs le d.1 h, other x.id p xs d.0 h)

Absent-cut :
    (now dec j k : ℕ) (ps : List (Position ℕ))
    → Absent j ps
    → Absent j (set_position k (cut now dec) ps)
Absent-cut now dec j k [] a = tt
Absent-cut now dec j k (p ∷ ps) a = ground (arith, Absent-cut now dec j k ps a.1)

Distinct-cut :
    (now dec k : ℕ) (ps : List (Position ℕ))
    → Distinct ps
    → Distinct (set_position k (cut now dec) ps)
Distinct-cut now dec k [] d = tt
Distinct-cut now dec k (p ∷ ps) d =
    ground (arith, Absent-cut now dec p.id k ps d.0, Distinct-cut now dec k ps d.1)

Holds-cut :
    (now dec k : ℕ) (p : Position ℕ) (ps : List (Position ℕ))
    → p.id ≢ k
    → Holds ps p
    → Holds (set_position k (cut now dec) ps) p
Holds-cut now dec k p [] ne h = h
Holds-cut now dec k p (x ∷ xs) ne (inl h) = inl (ground arith)
Holds-cut now dec k p (x ∷ xs) ne (inr h) = inr (Holds-cut now dec k p xs ne h)

All_Holds-cut :
    (now dec k : ℕ) (rows ps : List (Position ℕ))
    → Absent k rows
    → All (Holds ps) rows
    → All (Holds (set_position k (cut now dec) ps)) rows
All_Holds-cut now dec k [] ps a h = tt
All_Holds-cut now dec k (p ∷ rows) ps a h =
    (Holds-cut now dec k p ps a.0 h.0, All_Holds-cut now dec k rows ps a.1 h.1)

-- The sums before and after a list of cuts.
abbrev Accounts : ℕ → List (ℕ × ℕ) × List (Position ℕ) → Type 0
Accounts size (touched, ps') =
    (size_of_rows ps' + total_of touched ≤ size)
    × (size ≤ size_of_rows ps' + total_of touched + length touched)

reduce_taken :
    (now left : ℕ) (rows ps : List (Position ℕ))
    → total_of (reduce_ordered now left rows ps).0 ≡ min left (size_of_rows rows)
unfolding reduce_ordered size_of_rows
reduce_taken now left [] ps = ground arith
reduce_taken now left (p ∷ rows) ps =
    let skip = p.size == 0 in
    let dec = if skip then 0 else min p.size left in
    let rest =
      reduce_taken now (left - dec) rows
        (if skip then ps else set_position p.id (cut now dec) ps) in
    ground arith

reduce-Accounts :
    (now left : ℕ) (rows ps : List (Position ℕ))
    → Distinct rows
    → All (Holds ps) rows
    → Distinct ps
    → Accounts (size_of_rows ps) (reduce_ordered now left rows ps)
unfolding reduce_ordered
reduce-Accounts now left [] ps dr h d = ground arith
reduce-Accounts now left (p ∷ rows) ps dr h d = elim (Bool-cases (p.size == 0)) [
  | inl e ↦ ground (arith, reduce-Accounts now left rows ps dr.1 h.1 d)
  | inr e ↦
      let dec = min p.size left in
      let ps' = set_position p.id (cut now dec) ps in
      let rest =
        reduce-Accounts now (left - dec) rows ps' dr.1 (All_Holds-cut now dec p.id rows ps dr.0 h.1)
          (Distinct-cut now dec p.id ps d) in
      let step = cut_size now dec p ps (omega arith) d h.0 in ground arith
]

-- Whatever rows a query picks out of positions with distinct numbers: what the reduction takes off is the
-- smaller of what was asked for and what the rows hold; and the sizes of all positions together fall by
-- just that, and by at most one unit more for each position that was touched.
pub apply_reduce_conserves :
    (now base : ℕ) (q : Position ℕ → Bool) (ps : List (Position ℕ))
    → Distinct ps
    → let r = apply_reduce now (keep_if q ps) base ps in
      (total_of r.0 ≡ min base (size_of_rows (keep_if q ps)))
      × (size_of_rows r.1 + total_of r.0 ≤ size_of_rows ps)
      × (size_of_rows ps ≤ size_of_rows r.1 + total_of r.0 + length r.0)
unfolding apply_reduce
apply_reduce_conserves now base q ps d =
    let rows = keep_if q ps in
    let accounts =
      reduce-Accounts now base (sort_largest rows) ps (sort-Distinct rows (keep-Distinct q ps d))
        (sort-All (Holds ps) rows (keep-Holds q ps)) d in
    (
      rw (sym (sort-size rows)) (reduce_taken now base (sort_largest rows) ps),
      accounts.0,
      accounts.1,
    )
