-- ===== src/Spread/Entry/Legs.antt =====
-- The legs of an entry, read from the requests and their answers, and what `_place_with_retry`
-- (order_flow.py) makes of a leg.
use arbitrage_station.Base.{ℕ, zero, suc, ◌≡◌, inl, inr, refl, sym, none, some, ◌∷◌, Option-cases}
use arbitrage_station.Trading.Held.{Held}
use arbitrage_station.Trading.Store.{short, long, buy, sell}
use arbitrage_station.Spread.{
  Market, Sent, Venue, Fill, LegCall, place_leg, close_leg, place_with_retry,
}
use arbitrage_station.Spread.Entry.{Opportunity, extract_fill}

-- The two legs of the opportunity, for `size` dollars at a price. A leg of `b` units is opened by the
-- order of the entry that was filled with `b` units, and closed by a close of `b` units.
module _ (M : Market) (o : Opportunity M.Number) (size price b : M.Number) where
  abbrev pub short_order : LegCall M.Number
  short_order = place_leg o.high_exchange_id o.symbol sell (M.div size price)

  abbrev pub long_order : LegCall M.Number
  long_order = place_leg o.low_exchange_id o.symbol buy (M.div size price)

  abbrev pub cancel : LegCall M.Number
  cancel = close_leg o.high_exchange_id o.symbol short b

  abbrev pub IsFilledWith : Fill M.Number → Type 0
  IsFilledWith f = (extract_fill M f price (M.div size price)).1 ≡ b

  abbrev pub IsShortHeld : Sent M.Number → Type 0
  IsShortHeld = Held (λ c f. (c ≡ short_order) × IsFilledWith f) (λ c. c ≡ cancel)

  abbrev pub IsLongHeld : Sent M.Number → Type 0
  IsLongHeld =
      Held (λ c f. (c ≡ long_order) × IsFilledWith f)
        (λ c. c ≡ close_leg o.low_exchange_id o.symbol long b)

module _ {A : Type 0} (opens : LegCall A → Fill A → Type 0) (closes : LegCall A → Type 0)
    (v : Venue A) (c : LegCall A) where
  abbrev after : ℕ → Sent A → Sent A
  after n s = (place_with_retry n v c s).1

  same_fill : (f h : Fill A) → some f ≡ some h → f ≡ h
  same_fill f h e = cc

  refused_step :
      (n : ℕ) (s : Sent A)
      → v.answer s c ≡ none
      → place_with_retry (suc n) v c s ≡ place_with_retry n v c ((c, none) ∷ s)
  unfolding place_with_retry
  refused_step n s e = rw (e, place_with_retry) refl

  answered_step :
      (n : ℕ) (s : Sent A) (f : Fill A)
      → v.answer s c ≡ some f
      → place_with_retry (suc n) v c s ≡ (some f, (c, some f) ∷ s)
  unfolding place_with_retry
  answered_step n s f e = rw (e, place_with_retry) refl

  -- An order that does not open the leg leaves it held at most if it was.
  pub retry-other :
      (n : ℕ) (s : Sent A)
      → ((f : Fill A) → ¬ opens c f)
      → Held opens closes (after n s)
      → Held opens closes s
  unfolding place_with_retry
  retry-other zero s other = λ h. h
  retry-other (suc n) s other = elim (Option-cases (v.answer s c)) [
    | inl e ↦ rw (refused_step n s e) (retry-other n ((c, none) ∷ s) other)
    | inr (f, e) ↦
        rw (answered_step n s f e) (λ h. elim h [ inl o ↦ absurd (other f o) | inr (_, b) ↦ b ])
  ]

  -- An order that does not close the leg leaves it held.
  pub retry-keeps :
      (n : ℕ) (s : Sent A) → ¬ closes c → Held opens closes s → Held opens closes (after n s)
  unfolding place_with_retry
  retry-keeps zero s other h = h
  retry-keeps (suc n) s other h = elim (Option-cases (v.answer s c)) [
    | inl e ↦ rw (refused_step n s e) (retry-keeps n ((c, none) ∷ s) other h)
    | inr (f, e) ↦ rw (answered_step n s f e) (inr (other, h))
  ]

  -- An order that is refused each time changes nothing.
  pub retry-refused :
      (n : ℕ) (s : Sent A)
      → (place_with_retry n v c s).0 ≡ none
      → Held opens closes (after n s)
      → Held opens closes s
  unfolding place_with_retry
  retry-refused zero s = λ r h. h
  retry-refused (suc n) s = elim (Option-cases (v.answer s c)) [
    | inl e ↦ rw (refused_step n s e) (retry-refused n ((c, none) ∷ s))
    | inr (f, e) ↦ rw (answered_step n s f e) (λ r h. absurd (cc))
  ]

  -- An order that is answered opens the leg, if that is what its answer does.
  pub retry-opens :
      (n : ℕ) (s : Sent A) (f : Fill A)
      → (place_with_retry n v c s).0 ≡ some f
      → opens c f
      → Held opens closes (after n s)
  unfolding place_with_retry
  retry-opens zero s f = λ r o. absurd (cc)
  retry-opens (suc n) s f = elim (Option-cases (v.answer s c)) [
    | inl e ↦ rw (refused_step n s e) (retry-opens n ((c, none) ∷ s) f)
    | inr (h, e) ↦ rw (answered_step n s h e) (λ r o. rw (same_fill _ _ r) (inl o))
  ]

  -- A leg that is held after an answered order was held before, or the answer opened it.
  pub retry-opened :
      (n : ℕ) (s : Sent A) (f : Fill A)
      → (place_with_retry n v c s).0 ≡ some f
      → ¬ Held opens closes s
      → Held opens closes (after n s)
      → opens c f
  unfolding place_with_retry
  retry-opened zero s f = λ r before h. absurd (cc)
  retry-opened (suc n) s f = elim (Option-cases (v.answer s c)) [
    | inl e ↦ rw (refused_step n s e) (retry-opened n ((c, none) ∷ s) f)
    | inr (x, e) ↦ rw (answered_step n s x e) (λ r before h. elim h [
      | inl o ↦ rw (sym (same_fill _ _ r)) o
      | inr (_, b) ↦ absurd (before b)
    ])
  ]
