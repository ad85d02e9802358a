-- ===== src/Spread/Entry/Naked.antt =====
-- The legs that an entry leaves on the exchanges, against the row that it writes.
use arbitrage_station.Base.{
  ◌≡◌, ◌≢◌, ◌⊎◌, inl, inr, refl, Option, none, some, [], ◌∷◌, ◌++◌, Option-cases,
}
use arbitrage_station.Trading.Held.{not-Held-other}
use arbitrage_station.Spread.{Market, SpreadPosition, SpreadWorld, Sent, Venue, Fill}
use arbitrage_station.Spread.Entry.{SpreadConfig, Opportunity, EntryResult, entered, extract_fill}
use arbitrage_station.Spread.Entry.Orders.{
  place_spread, short_leg, long_leg, after_orders, new_position,
}
use arbitrage_station.Spread.Entry.Legs.{
  short_order, long_order, cancel, IsFilledWith, IsShortHeld, IsLongHeld, retry-other, retry-keeps,
  retry-refused, retry-opens, retry-opened,
}

module _ (M : Market) (o : Opportunity M.Number) (size sp lp : M.Number) where
  -- Neither leg is held, of whatever size.
  abbrev pub NoLeg : Sent M.Number → Type 0
  NoLeg s =
      ((b : M.Number) → ¬ IsShortHeld M o size sp b s)
      × ((b : M.Number) → ¬ IsLongHeld M o size lp b s)

  -- The row names the exchanges, the symbol and the sizes of two legs that are held.
  abbrev pub TellsOf : SpreadPosition M.Number → Sent M.Number → Type 0
  TellsOf r s =
      (r.symbol ≡ o.symbol)
      × (r.high_exchange_id ≡ o.high_exchange_id)
      × (r.low_exchange_id ≡ o.low_exchange_id)
      × IsShortHeld M o size sp r.short_size_base s
      × IsLongHeld M o size lp r.long_size_base s

  -- Entered, with one more row, which tells of both legs; or not entered, without a row and without a
  -- leg; or not entered, without a row, the short leg held, and the order that closes it refused.
  abbrev pub IsAccounted : SpreadWorld M.Number → EntryResult × SpreadWorld M.Number → Type 0
  IsAccounted w (r, w') =
      ((r ≡ entered)
        × ((row : SpreadPosition M.Number) × (w'.spreads ≡ w.spreads ++ row ∷ [])
            × TellsOf row w'.sent))
      ⊎ ((r ≢ entered) × (w'.spreads ≡ w.spreads) × NoLeg w'.sent)
      ⊎ ((r ≢ entered)
          × (w'.spreads ≡ w.spreads)
          × ((b : M.Number) × (before : Sent M.Number) × (w'.sent
                ≡ (cancel M o size sp b, none) ∷ before)
              × IsShortHeld M o size sp b w'.sent
              × ((c : M.Number) → ¬ IsLongHeld M o size lp c w'.sent)))

module _ (M : Market) (v : Venue M.Number) (cfg : SpreadConfig M.Number) (o : Opportunity M.Number)
    (z size sp lp : M.Number) (w : SpreadWorld M.Number) where
  abbrev first : Option (Fill M.Number) × Sent M.Number
  first = short_leg M v o size sp w.sent

  abbrev second : Option (Fill M.Number) × Sent M.Number
  second = long_leg M v o size lp first.1

  abbrev Goal : Type 0
  Goal = IsAccounted M o size sp lp w (place_spread M v cfg o z size sp lp w)

  placed-after_orders :
      place_spread M v cfg o z size sp lp w ≡ after_orders M v cfg o z size sp lp first second w
  unfolding place_spread
  placed-after_orders = refl

  module _ (no_leg : NoLeg M o size sp lp w.sent) where
    no_long_first : (b : M.Number) → ¬ IsLongHeld M o size lp b first.1
    unfolding short_leg
    no_long_first b h =
        no_leg.1 b (retry-other _ _ v (short_order M o size sp b) 3 w.sent (λ f x. cc) h)

    short_refused : first.0 ≡ none → (b : M.Number) → ¬ IsShortHeld M o size sp b first.1
    unfolding short_leg
    short_refused e b h = no_leg.0 b (retry-refused _ _ v (short_order M o size sp b) 3 w.sent e h)

    no_long_second : second.0 ≡ none → (b : M.Number) → ¬ IsLongHeld M o size lp b second.1
    unfolding long_leg
    no_long_second e b h =
        no_long_first b (retry-refused _ _ v (long_order M o size lp b) 3 first.1 e h)

    short_second :
        (f : Fill M.Number) (b : M.Number)
        → first.0 ≡ some f
        → IsFilledWith M o size sp b f
        → IsShortHeld M o size sp b second.1
    unfolding short_leg long_leg
    short_second f b e filled =
        retry-keeps _ _ v (long_order M o size lp b) 3 first.1 (λ x. cc)
          (retry-opens _ _ v (short_order M o size sp b) 3 w.sent f e (refl, filled))

    -- The short leg that is held is the one that was filled.
    short_filled :
        (f : Fill M.Number) (b : M.Number)
        → first.0 ≡ some f
        → IsShortHeld M o size sp b second.1
        → IsFilledWith M o size sp b f
    unfolding short_leg long_leg
    short_filled f b e h =
        (retry-opened _ _ v (short_order M o size sp b) 3 w.sent f e (no_leg.0 b)
          (retry-other _ _ v (long_order M o size lp b) 3 first.1 (λ x y. cc) h)).1

    long_second :
        (f : Fill M.Number) (b : M.Number)
        → second.0 ≡ some f
        → IsFilledWith M o size lp b f
        → IsLongHeld M o size lp b second.1
    unfolding long_leg
    long_second f b e filled =
        retry-opens _ _ v (long_order M o size lp b) 3 first.1 f e (refl, filled)

    with_neither : first.0 ≡ none → Goal
    with_neither e =
        rw (placed-after_orders, e) (inr (inl ((λ x. cc), refl, (short_refused e, no_long_first))))

    with_both : (f h : Fill M.Number) → first.0 ≡ some f → second.0 ≡ some h → Goal
    with_both f h e d =
        rw (placed-after_orders, e, d)
          (inl (
            refl,
            (
              new_position M w.next_spread_id cfg o z size (extract_fill M f sp (M.div size sp))
                  (extract_fill M h lp (M.div size lp)),
              refl,
              (refl, refl, refl, short_second f _ e refl, long_second h _ d refl),
            ),
          ))

    abbrev filled_base : Fill M.Number → M.Number
    filled_base f = (extract_fill M f sp (M.div size sp)).1

    -- The short leg alone was placed, and the order that closes it was answered.
    cancelled :
        (f c : Fill M.Number)
        → first.0 ≡ some f
        → second.0 ≡ none
        → v.answer second.1 (cancel M o size sp (filled_base f)) ≡ some c
        → Goal
    cancelled f c e d x =
        rw (placed-after_orders, e, d)
          (rw x (
            inr (
              inl (
                (λ y. cc),
                refl,
                (
                  (λ b. λ h. elim h [
                    | inl opened ↦ cc
                    | inr (still, before) ↦ still (rw (short_filled f b e before) refl)
                  ]),
                  λ b. not-Held-other _ _ _ c second.1 (λ y. cc) (no_long_second d b),
                ),
              ))))

    -- The short leg alone was placed, and the order that closes it was refused: it stays held.
    naked_short :
        (f : Fill M.Number)
        → first.0 ≡ some f
        → second.0 ≡ none
        → v.answer second.1 (cancel M o size sp (filled_base f)) ≡ none
        → Goal
    naked_short f e d x =
        rw (placed-after_orders, e, d)
          (rw x (
            inr (
              inr (
                (λ y. cc),
                refl,
                (filled_base f, second.1, refl, short_second f _ e refl, no_long_second d),
              ))))

    accounted : Goal
    accounted = elim (Option-cases first.0) [
      | inl e ↦ with_neither e
      | inr (f, e) ↦ elim (Option-cases second.0) [
        | inr (h, d) ↦ with_both f h e d
        | inl d ↦ elim (Option-cases (v.answer second.1 (cancel M o size sp (filled_base f)))) [
          | inl x ↦ naked_short f e d x
          | inr (c, x) ↦ cancelled f c e d x
        ]
      ]
    ]

-- A leg of a size is held if the latest answered request that opens or closes exactly that leg, on its
-- exchange and with its symbol, side and size, opened it. From neither leg held, an entry that places its
-- orders ends in one of three ways: it reports that it has entered and has written one row, whose
-- exchanges, symbol and sizes are those of two legs that are held; or it has not entered, has written no
-- row, and neither leg is held; or it has not entered, has written no row, and the short leg alone is
-- held, with the order that closes that leg as the latest request, which was refused.
pub place_spread_hedged :
    (M : Market) (v : Venue M.Number) (cfg : SpreadConfig M.Number) (o : Opportunity M.Number)
    (z size sp lp : M.Number) (w : SpreadWorld M.Number)
    → NoLeg M o size sp lp w.sent
    → IsAccounted M o size sp lp w (place_spread M v cfg o z size sp lp w)
place_spread_hedged M v cfg o z size sp lp w no_leg = accounted M v cfg o z size sp lp w no_leg
