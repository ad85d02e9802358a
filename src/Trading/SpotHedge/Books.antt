-- ===== src/Trading/SpotHedge/Books.antt =====
-- What `open` leaves behind: the rows of the two legs against the orders that the exchanges answered.
use arbitrage_station.Base.{
  ℕ, ◌+◌, ◌<◌, ◌≡◌, ◌≢◌, ◌∙◌, inl, inr, refl, Bool, true, false, Option, none, some, List, [], ◌∷◌,
  ◌++◌, map, arith, ◌==◌, if◌then◌else◌, keep_if, Bool-cases,
}
use arbitrage_station.Trading.Held.{Held}
use mathlib.Core.List.{map-append, append_assoc}
use arbitrage_station.Trading.Store.{
  Real, Position, PositionStatus, Order, LegError, Gateway, World, Call, opened, closed, error,
  place_hedge, place_spot, close_hedge, close_spot, set_position, with_status, store, is_open_row,
  buy, sell, short, add_position, add_trade,
}
use arbitrage_station.Trading.Store.Laws.{map-store-store}
use arbitrage_station.Trading.SpotHedge.{
  Legs, fill_of, opened_if, perp_position, spot_position, perp_trade, place_legs, place_perp,
  place_spot_leg, handle_open_error,
}

abbrev replaced : PositionStatus → Option PositionStatus → Option PositionStatus
replaced st none = none
replaced st (some _) = some st

-- The status after an error, at the number of the short leg and at the one after it.
abbrev after_error : ℕ → ℕ → PositionStatus → Option PositionStatus → Option PositionStatus
after_error n j st x =
    let marked = if (n + 1) == j then replaced error x else x in
    if n == j then replaced st marked else marked

perp_end :
    (n : ℕ) (st : PositionStatus) {x : Option PositionStatus}
    → x ≡ some opened
    → after_error n n st x ≡ some st
perp_end n st e = ground arith

spot_end :
    (n : ℕ) (st : PositionStatus) {x : Option PositionStatus}
    → x ≡ some error
    → after_error n (n + 1) st x ≡ some error
spot_end n st e = ground arith

module _ {A : Type 0} where
  -- The rows before are numbered below the new ones and belong to other strategies.
  abbrev pub IsOlder : ℕ → ℕ → List (Position A) → Type 0
  IsOlder n i [] = Unit
  IsOlder n i (p ∷ ps) = (p.id < n) × (p.strategy_id ≢ i) × IsOlder n i ps

  -- The status of the row `j`, as the program last wrote it.
  abbrev pub status_at : ℕ → List (Position A) → Option PositionStatus
  status_at j [] = none
  status_at j (p ∷ ps) = if p.id == j then some p.status else status_at j ps

  status_at-store : (j : ℕ) (ps : List (Position A)) → status_at j (map store ps) ≡ status_at j ps
  status_at-store j [] = refl
  status_at-store j (p ∷ ps) = ground (arith, status_at-store j ps)

  status_at-set :
      (j k : ℕ) (st : PositionStatus) (t : Option ℕ) (ps : List (Position A))
      → status_at j (set_position k (with_status st t) ps)
        ≡ (if k == j then replaced st (status_at j ps) else status_at j ps)
  status_at-set j k st t [] = ground arith
  status_at-set j k st t (p ∷ ps) = ground (arith, status_at-set j k st t ps)

  status_at-mark :
      (j k : ℕ) (ps : List (Position A))
      → status_at j (set_position k (λ p. record p { status = error }) ps)
        ≡ (if k == j then replaced error (status_at j ps) else status_at j ps)
  status_at-mark j k [] = ground arith
  status_at-mark j k (p ∷ ps) = ground (arith, status_at-mark j k ps)

  perp_row :
      (n i : ℕ) (ps : List (Position A)) (p : Position A) (qs : List (Position A))
      → IsOlder n i ps
      → p.id ≡ n
      → status_at n (ps ++ p ∷ qs) ≡ some p.status
  perp_row n i [] p qs o e = ground arith
  perp_row n i (x ∷ ps) p qs o e = ground (arith, perp_row n i ps p qs o.2 e)

  spot_row :
      (n i : ℕ) (ps : List (Position A)) (p q : Position A) (qs : List (Position A))
      → IsOlder n i ps
      → p.id ≡ n
      → q.id ≡ n + 1
      → status_at (n + 1) (ps ++ p ∷ q ∷ qs) ≡ some q.status
  spot_row n i [] p q qs o e d = ground arith
  spot_row n i (x ∷ ps) p q qs o e d = ground (arith, spot_row n i ps p q qs o.2 e d)

  open_rows_older :
      (n i : ℕ) (ps qs : List (Position A))
      → IsOlder n i ps
      → keep_if (is_open_row i) (map store ps ++ qs) ≡ keep_if (is_open_row i) qs
  open_rows_older n i [] qs o = refl
  open_rows_older n i (p ∷ ps) qs o = ground (arith, open_rows_older n i ps qs o.2)

  store_twice_append :
      (ps qs : List (Position A)) → map store (map store ps ++ qs) ≡ map store ps ++ map store qs
  store_twice_append ps qs = rw (map-append store (map store ps) qs, map-store-store ps) refl

-- The row of a leg is open exactly when the exchange holds the leg.
abbrev pub is_opened : Option PositionStatus → Bool
is_opened (some opened) = true
is_opened _ = false

ruleset status_laws = (status_at-store, status_at-set, status_at-mark, append_assoc)

-- The orders of `open`, and when the exchanges hold a leg: the latest answered order that opens or
-- closes exactly that leg opened it.
module _ {A : Type 0} (l : Legs A) where
  abbrev pub perp_call : Call A
  perp_call = place_hedge l.perp_ex.id l.symbol sell l.perp_size l.leverage

  abbrev pub spot_call : Call A
  spot_call = place_spot l.spot_ex.id l.spot_symbol buy l.spot_size

  abbrev pub unwind_call : Call A
  unwind_call = close_hedge l.perp_ex.id l.symbol short l.perp_size

  abbrev pub IsPerpHeld : List (Call A × Option (Order A)) → Type 0
  IsPerpHeld = Held (λ c _. c ≡ perp_call) (λ c. c ≡ unwind_call)

  abbrev pub IsSpotHeld : List (Call A × Option (Order A)) → Type 0
  IsSpotHeld =
      Held (λ c _. c ≡ spot_call) (λ c. c ≡ close_spot l.spot_ex.id l.spot_symbol l.spot_size)

-- What the handling of an error makes of the status of a row, when the short leg alone was placed.
module _ (R : Real) (g : Gateway R.Number) (now : ℕ) (l : Legs R.Number) (errors : List LegError)
    (m n j : ℕ) (a : Order R.Number) (f h : R.Number) (w : World R.Number) where
  abbrev handled : World R.Number
  handled = handle_open_error R g now l errors m n (some a) none f h w

  handle_answered :
      (c : Order R.Number)
      → g.answer w.sent (unwind_call l) ≡ some c
      → (status_at j handled.db.positions ≡ (
          let marked =
            if n == j
            then replaced error (status_at j w.db.positions)
            else status_at j w.db.positions in
          if m == j then replaced closed marked else marked))
        × (handled.sent ≡ ((unwind_call l), some c) ∷ w.sent)
  unfolding handle_open_error
  handle_answered c ec = elim (Bool-cases w.db.autoflush) [
    | inl on ↦ rw (ec, handle_open_error) (rw on (simp status_laws (refl, refl)))
    | inr off ↦ rw (ec, handle_open_error) (rw off (simp status_laws (refl, refl)))
  ]

  handle_refused :
      g.answer w.sent (unwind_call l) ≡ none
      → (status_at j handled.db.positions ≡ (
          let marked =
            if n == j
            then replaced error (status_at j w.db.positions)
            else status_at j w.db.positions in
          if m == j then replaced opened marked else marked))
        × (handled.sent ≡ ((unwind_call l), none) ∷ w.sent)
  unfolding handle_open_error
  handle_refused ec = elim (Bool-cases w.db.autoflush) [
    | inl on ↦ rw (ec, handle_open_error) (rw on (simp status_laws (refl, refl)))
    | inr off ↦ rw (ec, handle_open_error) (rw off (simp status_laws (refl, refl)))
  ]

module _ (R : Real) (g : Gateway R.Number) (now : ℕ) (l : Legs R.Number) (w : World R.Number) where
  -- How the two rows and the orders stand at the end.
  abbrev pub Ends :
      PositionStatus
      → PositionStatus
      → List (Call R.Number × Option (Order R.Number))
      → World R.Number
      → Type 0
  Ends perp spot sent w' =
      (status_at w.db.next_id w'.db.positions ≡ some perp)
      × (status_at (w.db.next_id + 1) w'.db.positions ≡ some spot)
      × (w'.sent ≡ sent)

  module _ (o : IsOlder w.db.next_id l.strategy_id w.db.positions) where
    -- The statuses of the new rows as they were added.
    added :
        (a b : R.Number) (c d : Bool)
        → let ps =
            w.db.positions
            ++ perp_position R l w.db.next_id a c ∷ spot_position R l (w.db.next_id + 1) b d ∷ [] in
          (status_at w.db.next_id ps ≡ some (opened_if c))
          × (status_at (w.db.next_id + 1) ps ≡ some (opened_if d))
    added a b c d = (
      perp_row w.db.next_id l.strategy_id w.db.positions (perp_position R l w.db.next_id a c)
          (spot_position R l (w.db.next_id + 1) b d ∷ []) o refl,
      spot_row w.db.next_id l.strategy_id w.db.positions (perp_position R l w.db.next_id a c)
          (spot_position R l (w.db.next_id + 1) b d) [] o refl refl,
    )

    pub both_placed :
        (a b : Order R.Number)
        → g.answer w.sent (perp_call l) ≡ some a
        → g.answer (((perp_call l), some a) ∷ w.sent) (spot_call l) ≡ some b
        → Ends opened opened
            (((spot_call l), some b) ∷ ((perp_call l), some a) ∷ w.sent)
            (place_legs R g now l w).1
    unfolding place_legs place_perp place_spot_leg
    both_placed a b ea eb =
        let rows =
          added (fill_of R (some a) l.perp_price) (fill_of R (some b) l.spot_price) true true in
        rw (ea, place_legs) (rw eb (simp status_laws (rows.0, rows.1, refl)))

    pub perp_refused :
        g.answer w.sent (perp_call l) ≡ none
        → Ends error error (((perp_call l), none) ∷ w.sent) (place_legs R g now l w).1
    unfolding place_legs place_perp place_spot_leg handle_open_error
    perp_refused ea =
        let rows = added l.perp_price l.spot_price false false in
        elim (Bool-cases w.db.autoflush) [
          | inl on ↦ rw (ea, place_legs) (rw on (simp status_laws (ground (arith, rows))))
          | inr off ↦ rw (ea, place_legs) (rw off (simp status_laws (ground (arith, rows))))
        ]

    abbrev half_open : Order R.Number → World R.Number
    half_open a =
        let fill = fill_of R (some a) l.perp_price in
        record {
          db = add_position (spot_position R l (w.db.next_id + 1) l.spot_price false) (
              add_trade (perp_trade R l "open" sell fill "spot_hedge open perp short")
                (add_position (perp_position R l w.db.next_id fill true) w.db));
          sent = ((spot_call l), none) ∷ ((perp_call l), some a) ∷ w.sent;
        }

    abbrev half_handled : Order R.Number → World R.Number
    half_handled a =
        handle_open_error R g now l (LegError.spot_buy_failed ∷ []) w.db.next_id (w.db.next_id + 1)
          (some a) none (fill_of R (some a) l.perp_price) l.spot_price (half_open a)

    spot_refused :
        (a : Order R.Number)
        → g.answer w.sent (perp_call l) ≡ some a
        → g.answer (((perp_call l), some a) ∷ w.sent) (spot_call l) ≡ none
        → place_legs R g now l w ≡ (LegError.spot_buy_failed ∷ [], half_handled a)
    unfolding place_legs place_perp place_spot_leg
    spot_refused a ea eb = rw (ea, place_legs, place_perp) (rw eb refl)

    half_rows :
        (a : Order R.Number)
        → let ps = (half_open a).db.positions in
          (status_at w.db.next_id ps ≡ some opened) × (status_at (w.db.next_id + 1) ps ≡ some error)
    half_rows a =
        simp append_assoc (added (fill_of R (some a) l.perp_price) l.spot_price true false)

    pub unwound_leg :
        (a c : Order R.Number)
        → g.answer w.sent (perp_call l) ≡ some a
        → g.answer (((perp_call l), some a) ∷ w.sent) (spot_call l) ≡ none
        → g.answer (((spot_call l), none) ∷ ((perp_call l), some a) ∷ w.sent) (unwind_call l)
          ≡ some c
        → Ends closed error
            (((unwind_call l), some c) ∷ ((spot_call l), none) ∷ ((perp_call l), some a) ∷ w.sent)
            (place_legs R g now l w).1
    unwound_leg a c ea eb ec =
        let end_of = λ (j : ℕ).
          handle_answered R g now l (LegError.spot_buy_failed ∷ []) w.db.next_id (w.db.next_id + 1)
            j a (fill_of R (some a) l.perp_price) l.spot_price (half_open a) c ec in
        rw (spot_refused a ea eb) (
          (end_of w.db.next_id).0 ∙ perp_end w.db.next_id closed (half_rows a).0,
          (end_of (w.db.next_id + 1)).0 ∙ spot_end w.db.next_id closed (half_rows a).1,
          (end_of w.db.next_id).1,
        )

    pub stuck_leg :
        (a : Order R.Number)
        → g.answer w.sent (perp_call l) ≡ some a
        → g.answer (((perp_call l), some a) ∷ w.sent) (spot_call l) ≡ none
        → g.answer (((spot_call l), none) ∷ ((perp_call l), some a) ∷ w.sent) (unwind_call l) ≡ none
        → Ends opened error
            (((unwind_call l), none) ∷ ((spot_call l), none) ∷ ((perp_call l), some a) ∷ w.sent)
            (place_legs R g now l w).1
    stuck_leg a ea eb ec =
        let end_of = λ (j : ℕ).
          handle_refused R g now l (LegError.spot_buy_failed ∷ []) w.db.next_id (w.db.next_id + 1) j
            a (fill_of R (some a) l.perp_price) l.spot_price (half_open a) ec in
        rw (spot_refused a ea eb) (
          (end_of w.db.next_id).0 ∙ perp_end w.db.next_id opened (half_rows a).0,
          (end_of (w.db.next_id + 1)).0 ∙ spot_end w.db.next_id opened (half_rows a).1,
          (end_of w.db.next_id).1,
        )
