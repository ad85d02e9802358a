-- ===== src/Repair/Execute/Kept.antt =====
-- What a reduction of positions keeps: how many rows a query finds.
use arbitrage_station.Base.{
  ℕ, ◌-◌, ◌≡◌, inl, inr, refl, ◌∙◌, Bool, List, [], ◌∷◌, arith, length, min, ◌==◌, Bool-cases,
  keep_if, if-both,
}
use arbitrage_station.Trading.Store.{Position, set_position}
use arbitrage_station.Repair.{cut, is_nil, reduce_ordered}

-- A property that a cut does not touch.
abbrev pub Untouched : (Position ℕ → Bool) → Type 0
Untouched q = (now dec : ℕ) (p : Position ℕ) → q (cut now dec p) ≡ q p

module _ (a b : Position ℕ → Bool) (ua : Untouched a) (ub : Untouched b) where
  abbrev count : List (Position ℕ) → ℕ
  count ps = length (keep_if a (keep_if b ps))

  count-cut :
      (now dec j : ℕ) (ps : List (Position ℕ)) → count (set_position j (cut now dec) ps) ≡ count ps
  count-cut now dec j [] = refl
  count-cut now dec j (p ∷ ps) = ground (arith, count-cut now dec j ps, ua now dec p, ub now dec p)

  pub count-reduce :
      (now left : ℕ) (rows ps : List (Position ℕ))
      → count (reduce_ordered now left rows ps).1 ≡ count ps
  unfolding reduce_ordered
  count-reduce now left [] ps = refl
  count-reduce now left (p ∷ rows) ps =
      if-both (λ (v : List (ℕ × ℕ) × List (Position ℕ)). count v.1 ≡ count ps) (left == 0)
        (λ _. refl)
        λ _. elim (Bool-cases (p.size == 0)) [
          | inl e ↦ rw e (count-reduce now (left - 0) rows ps)
          | inr e ↦
              let dec = min p.size left in
              rw e (
                count-reduce now (left - dec) rows (set_position p.id (cut now dec) ps)
                ∙ count-cut now dec p.id ps)
        ]

pub nil-length : (ps qs : List (Position ℕ)) → length ps ≡ length qs → is_nil ps ≡ is_nil qs
nil-length [] [] e = refl
nil-length [] (q ∷ qs) e = ground arith
nil-length (p ∷ ps) [] e = ground arith
nil-length (p ∷ ps) (q ∷ qs) e = refl
