-- ===== src/Trading/Store/Laws.antt =====
-- How writes to positions, flushes and counts of open rows go together.
use arbitrage_station.Base.{
  ℕ, suc, ◌≡◌, ◌≢◌, ap, ◌⊎◌, inl, inr, refl, Bool, true, Option, List, [], ◌∷◌, map, arith, All,
  keep_if, length, Bool-cases,
}
use arbitrage_station.Trading.Store.{
  Position, PositionStatus, opened, closed, set_position, with_status, store, is_open_row,
}

module _ {A : Type 0} where
  -- The number of rows of the strategy `i` that a query finds open.
  abbrev pub open_rows : ℕ → List (Position A) → ℕ
  open_rows i ps = length (keep_if (is_open_row i) ps)

  -- A write to a status is not seen by a query before the next flush.
  pub open_rows-set_status :
      (i j : ℕ) (st : PositionStatus) (t : Option ℕ) (ps : List (Position A))
      → open_rows i (set_position j (with_status st t) ps) ≡ open_rows i ps
  open_rows-set_status i j st t [] = refl
  open_rows-set_status i j st t (p ∷ ps) = ground (arith, open_rows-set_status i j st t ps)

  -- No row has the number `j`.
  abbrev pub Absent : ℕ → List (Position A) → Type 0
  Absent j [] = Unit
  Absent j (p ∷ ps) = (p.id ≢ j) × Absent j ps

  -- The primary key: no two rows have one number.
  abbrev pub Distinct : List (Position A) → Type 0
  Distinct [] = Unit
  Distinct (p ∷ ps) = Absent p.id ps × Distinct ps

  -- The row `j` is there, is of the strategy `i`, and is open in the session.
  abbrev pub HasOpen : ℕ → ℕ → List (Position A) → Type 0
  HasOpen i j [] = ⊥
  HasOpen i j (p ∷ ps) = ((p.id ≡ j) × (p.strategy_id ≡ i) × (p.status ≡ opened)) ⊎ HasOpen i j ps

  pub Absent-set_position :
      (j k : ℕ) (st : PositionStatus) (t : Option ℕ) (ps : List (Position A))
      → Absent j ps
      → Absent j (set_position k (with_status st t) ps)
  Absent-set_position j k st t [] a = tt
  Absent-set_position j k st t (p ∷ ps) a = ground (arith, Absent-set_position j k st t ps a.1)

  pub Distinct-set_position :
      (k : ℕ) (st : PositionStatus) (t : Option ℕ) (ps : List (Position A))
      → Distinct ps
      → Distinct (set_position k (with_status st t) ps)
  Distinct-set_position k st t [] d = tt
  Distinct-set_position k st t (p ∷ ps) d =
      ground (arith, Absent-set_position p.id k st t ps d.0, Distinct-set_position k st t ps d.1)

  pub HasOpen-set_ne :
      (i j k : ℕ) (st : PositionStatus) (t : Option ℕ) (ps : List (Position A))
      → j ≢ k
      → HasOpen i j ps
      → HasOpen i j (set_position k (with_status st t) ps)
  HasOpen-set_ne i j k st t [] ne h = h
  HasOpen-set_ne i j k st t (p ∷ ps) ne (inl h) = inl (ground arith)
  HasOpen-set_ne i j k st t (p ∷ ps) ne (inr h) = inr (HasOpen-set_ne i j k st t ps ne h)

  set_position-Absent :
      (k : ℕ) (st : PositionStatus) (t : Option ℕ) (ps : List (Position A))
      → Absent k ps
      → set_position k (with_status st t) ps ≡ ps
  set_position-Absent k st t [] a = refl
  set_position-Absent k st t (p ∷ ps) a = ground (arith, set_position-Absent k st t ps a.1)

  not-Absent : (i j : ℕ) (ps : List (Position A)) → Absent j ps → HasOpen i j ps → ⊥
  not-Absent i j (p ∷ ps) a (inl h) = a.0 h.0
  not-Absent i j (p ∷ ps) a (inr h) = not-Absent i j ps a.1 h
  not-Absent i j [] a h = h

  HasOpen-ne :
      (i j : ℕ) (p : Position A) (ps : List (Position A))
      → Distinct (p ∷ ps)
      → HasOpen i j ps
      → p.id ≢ j
  HasOpen-ne i j p ps d h e = not-Absent i j ps (rw (← e) d.0) h

  -- Closing an open row leaves one row less for the next query that flushes.
  pub open_rows-close :
      (i j : ℕ) (t : Option ℕ) (ps : List (Position A))
      → Distinct ps
      → HasOpen i j ps
      → suc (open_rows i (map store (set_position j (with_status closed t) ps)))
        ≡ open_rows i (map store ps)
  open_rows-close i j t (p ∷ ps) d (inl h) = ground (
    arith,
    ap (λ qs. open_rows i (map store qs)) (set_position-Absent j closed t ps (rw (← h.0) d.0)),
  )
  open_rows-close i j t (p ∷ ps) d (inr h) =
      ground (arith, open_rows-close i j t ps d.1 h, HasOpen-ne i j p ps d h)
  open_rows-close i j t [] d h = elim h [ ]

  Absent-store : (j : ℕ) (ps : List (Position A)) → Absent j ps → Absent j (map store ps)
  Absent-store j [] a = tt
  Absent-store j (p ∷ ps) a = (a.0, Absent-store j ps a.1)

  pub Distinct-store : (ps : List (Position A)) → Distinct ps → Distinct (map store ps)
  Distinct-store [] d = tt
  Distinct-store (p ∷ ps) d = (Absent-store p.id ps d.0, Distinct-store ps d.1)

  Absent-keep_if :
      (j : ℕ) (f : Position A → Bool) (ps : List (Position A))
      → Absent j ps
      → Absent j (keep_if f ps)
  Absent-keep_if j f [] a = tt
  Absent-keep_if j f (p ∷ ps) a = ground (arith, Absent-keep_if j f ps a.1)

  pub Distinct-keep_if :
      (f : Position A → Bool) (ps : List (Position A)) → Distinct ps → Distinct (keep_if f ps)
  Distinct-keep_if f [] d = tt
  Distinct-keep_if f (p ∷ ps) d =
      ground (arith, Distinct-keep_if f ps d.1, Absent-keep_if p.id f ps d.0)

  widen :
      (i : ℕ) (q : Position A) (qs ps : List (Position A))
      → All (λ p. HasOpen i p.id qs) ps
      → All (λ p. HasOpen i p.id (q ∷ qs)) ps
  widen i q qs [] h = tt
  widen i q qs (p ∷ ps) h = (inr h.0, widen i q qs ps h.1)

  open_row_facts :
      (i : ℕ) (p : Position A)
      → is_open_row i (store p) ≡ true
      → (p.strategy_id ≡ i) × (p.status ≡ opened)
  open_row_facts i p h = ground arith

  -- The rows that a query finds open after a flush are open in the session.
  pub open_rows-HasOpen :
      (i : ℕ) (ps : List (Position A))
      → All (λ p. HasOpen i p.id (map store ps)) (keep_if (is_open_row i) (map store ps))
  open_rows-HasOpen i [] = tt
  open_rows-HasOpen i (p ∷ ps) =
      let rest =
        widen i (store p) (map store ps) (keep_if (is_open_row i) (map store ps))
          (open_rows-HasOpen i ps) in
      elim (Bool-cases (is_open_row i (store p))) [
        | inl found ↦
            let facts = open_row_facts i p found in rw found ((inl (refl, facts.0, facts.1)), rest)
        | inr other ↦ rw other rest
      ]

  -- A second flush changes nothing.
  pub map-store-store : (ps : List (Position A)) → map store (map store ps) ≡ map store ps
  map-store-store [] = refl
  map-store-store (p ∷ ps) = ap (λ qs. store p ∷ qs) (map-store-store ps)
