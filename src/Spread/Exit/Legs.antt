-- ===== src/Spread/Exit/Legs.antt =====
-- When a row says that a leg is closed: the legs that were seen to be gone.
use text.Mathlib.Text.{◌==◌ as text_eq}
use text.Mathlib.TextEquality.{eq_iff}
use arbitrage_station.Base.{
  ℕ, zero, suc, ◌≡◌, refl, String, Bool, true, false, ◌&&◌, ◌||◌, not, Option, List, [], ◌∷◌, arith,
  ◌==◌, ==-refl, All,
}
use arbitrage_station.Trading.Store.{Exchange, Side, Session, long, short, find_exchange, is_some}
use arbitrage_station.Spread.{
  Market, SpreadPosition, SpreadStatus, Sent, Venue, LegCall, place_leg, close_leg,
  close_leg_with_retry, verify_leg_closed, same_side,
}
use arbitrage_station.Spread.Exit.{leg_step, both_legs, close_spread_position}

abbrev marks : SpreadStatus → Bool → Bool → Bool
marks SpreadStatus.opened a b = not a && not b
marks SpreadStatus.closing a b = true
marks SpreadStatus.closed a b = a && b
marks SpreadStatus.error a b = not (a && b)

same_side_refl : (d : Side) → same_side d d ≡ true
same_side_refl long = refl
same_side_refl short = refl

module _ (M : Market) (v : Venue M.Number) where
  abbrev closes : LegCall M.Number → ℕ → String → Side → Bool
  closes (place_leg _ _ _ _) e sym side = false
  closes (close_leg e' sym' side' _) e sym side =
      e' == e && (text_eq sym' sym && same_side side' side)

  -- Right after some answered request to close the leg, the exchange did not list it.
  abbrev pub gone_seen : Sent M.Number → ℕ → String → Side → Bool
  gone_seen [] e sym side = false
  gone_seen ((c, r) ∷ s) e sym side =
      (closes c e sym side && (is_some r && verify_leg_closed M v ((c, r) ∷ s) e sym side))
      || gone_seen s e sym side

  -- All legs that were seen to be gone before are so later.
  abbrev pub Later : Sent M.Number → Sent M.Number → Type 0
  Later s s' =
      (e : ℕ) (sym : String) (side : Side)
      → gone_seen s e sym side ≡ true
      → gone_seen s' e sym side ≡ true

  retry_gone :
      (n e : ℕ) (sym : String) (side : Side) (size : M.Number) (s : Sent M.Number)
      → (close_leg_with_retry M n v e sym side size s).0 ≡ true
      → gone_seen (close_leg_with_retry M n v e sym side size s).1 e sym side ≡ true
  unfolding close_leg_with_retry
  retry_gone zero e sym side size s h = ground arith
  retry_gone (suc n) e sym side size s h =
      let c = close_leg e sym side size in
      ground (
        arith,
        ==-refl e,
        (eq_iff sym sym).1 refl,
        same_side_refl side,
        retry_gone n e sym side size ((c, v.answer s c) ∷ s),
      )

  retry-Later :
      (n e : ℕ) (sym : String) (side : Side) (size : M.Number) (s : Sent M.Number)
      → Later s (close_leg_with_retry M n v e sym side size s).1
  unfolding close_leg_with_retry
  retry-Later zero e sym side size s e' sym' side' h = h
  retry-Later (suc n) e sym side size s e' sym' side' h =
      let c = close_leg e sym side size in
      ground (arith, retry-Later n e sym side size ((c, v.answer s c) ∷ s) e' sym' side')

  -- A leg that counts as closed was seen to be gone, or there was no exchange or nothing to close.
  abbrev pub leg_ok : Option Exchange → M.Number → Bool → Bool → Bool
  leg_ok ex size flag seen = not flag || (not (is_some ex && M.positive size) || seen)

  leg_step_ok :
      (untouched : Bool) (ex : Option Exchange) (e : ℕ) (sym : String) (side : Side)
      (size : M.Number) (flag : Bool) (s : Sent M.Number)
      → leg_ok ex size flag (gone_seen s e sym side) ≡ true
      → let (b, s') = leg_step M v untouched ex e sym side size flag s in
        leg_ok ex size b (gone_seen s' e sym side) ≡ true
  unfolding leg_step
  leg_step_ok untouched ex e sym side size flag s h = ground (arith, retry_gone 3 e sym side size s)

  leg_step-Later :
      (untouched : Bool) (ex : Option Exchange) (e : ℕ) (sym : String) (side : Side)
      (size : M.Number) (flag : Bool) (s : Sent M.Number)
      → Later s (leg_step M v untouched ex e sym side size flag s).1
  unfolding leg_step
  leg_step-Later untouched ex e sym side size flag s e' sym' side' h =
      ground (arith, retry-Later 3 e sym side size s e' sym' side')

  module _ (db : Session M.Number) where
    abbrev pub LegsOk : Sent M.Number → SpreadPosition M.Number → Bool → Bool → Type 0
    LegsOk s p a b =
        (leg_ok (find_exchange p.high_exchange_id db.exchanges) p.short_size_base a
            (gone_seen s p.high_exchange_id p.symbol short)
          ≡ true)
        × (leg_ok (find_exchange p.low_exchange_id db.exchanges) p.long_size_base b
              (gone_seen s p.low_exchange_id p.symbol long)
            ≡ true)

    -- The status tells which legs are closed: none of an open position, both of a closed one, not both of
    -- one with an error. And each leg that counts as closed is so.
    pub record IsBacked (s : Sent M.Number) (p : SpreadPosition M.Number) : Type 0 where
      pub marked : marks p.status p.short_closed p.long_closed ≡ true
      pub legs : LegsOk s p p.short_closed p.long_closed

    pub IsBacked-Later :
        (s s' : Sent M.Number) (p : SpreadPosition M.Number)
        → Later s s'
        → IsBacked s p
        → IsBacked s' p
    IsBacked-Later s s' p later b =
        ground
          (arith, later p.high_exchange_id p.symbol short, later p.low_exchange_id p.symbol long)

    abbrev pub Backed : List (SpreadPosition M.Number) → Sent M.Number → Type 0
    Backed ps s = All (IsBacked s) ps

    pub both_legs-Later :
        (untouched : Bool) (p : SpreadPosition M.Number) (s : Sent M.Number)
        → Later s (both_legs M v db untouched p s).2
    unfolding both_legs
    both_legs-Later untouched p s e sym side h =
        let ex = find_exchange p.high_exchange_id db.exchanges in
        let first =
          leg_step M v untouched ex p.high_exchange_id p.symbol short p.short_size_base
            p.short_closed s in
        leg_step-Later untouched (find_exchange p.low_exchange_id db.exchanges) p.low_exchange_id
          p.symbol long p.long_size_base p.long_closed first.1 e sym side
          (leg_step-Later untouched ex p.high_exchange_id p.symbol short p.short_size_base
            p.short_closed s e sym side h)

    pub both_legs_ok :
        (untouched : Bool) (p : SpreadPosition M.Number) (s : Sent M.Number)
        → LegsOk s p p.short_closed p.long_closed
        → let (a, b, s') = both_legs M v db untouched p s in LegsOk s' p a b
    unfolding both_legs
    both_legs_ok untouched p s (hs, hl) =
        let ex = find_exchange p.high_exchange_id db.exchanges in
        let ey = find_exchange p.low_exchange_id db.exchanges in
        let first =
          leg_step M v untouched ex p.high_exchange_id p.symbol short p.short_size_base
            p.short_closed s in
        let ok =
          leg_step_ok untouched ex p.high_exchange_id p.symbol short p.short_size_base
            p.short_closed s hs in
        let later =
          leg_step-Later untouched ey p.low_exchange_id p.symbol long p.long_size_base p.long_closed
            first.1 in
        let before =
          leg_step-Later untouched ex p.high_exchange_id p.symbol short p.short_size_base
            p.short_closed s in
        (
          ground (arith, later p.high_exchange_id p.symbol short),
          leg_step_ok untouched ey p.low_exchange_id p.symbol long p.long_size_base p.long_closed
              first.1 (ground (arith, before p.low_exchange_id p.symbol long)),
        )

    -- `_close_spread_position`
    pub close-IsBacked :
        (now : ℕ) (p : SpreadPosition M.Number) (reason : String) (s : Sent M.Number)
        → IsBacked s p
        → let (q, s') = close_spread_position M v now db p reason s in IsBacked s' q
    unfolding close_spread_position
    close-IsBacked now p reason s h = record {
      marked = ground arith;
      legs = both_legs_ok true p s h.legs;
    }

    pub close-Later :
        (now : ℕ) (p : SpreadPosition M.Number) (reason : String) (s : Sent M.Number)
        → Later s (close_spread_position M v now db p reason s).1
    unfolding close_spread_position
    close-Later now p reason s = both_legs-Later true p s
