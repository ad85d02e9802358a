-- ===== src/Spread/Exit/Retries.antt =====
-- How often a pass of the recovery asks the exchanges, and when it closes a position.
use arbitrage_station.Base.{
  ℕ, zero, suc, ◌+◌, ◌*◌, ◌≤◌, ◌≡◌, refl, if-both, Bool-cases, inl, inr, String, Bool, true, false,
  ◌&&◌, not, Option, List, [], ◌∷◌, arith, ltb, if◌then◌else◌, length, keep_if,
}
use arbitrage_station.Trading.Store.{Exchange, Side, Session, long, short, find_exchange, is_some}
use arbitrage_station.Spread.{
  Market, SpreadPosition, SpreadStatus, Sent, Venue, close_leg, close_leg_with_retry,
  verify_leg_closed,
}
use arbitrage_station.Spread.Exit.{
  Attempts, is_stuck, last_attempt, recover_cooldown_secs, leg_step, both_legs, recover_one,
  recover_half_closed_positions,
}

module _ {A : Type 0} where
  -- A stuck row that has a leg left and no attempt within the cooldown
  abbrev pub is_due : ℕ → Attempts → SpreadPosition A → Bool
  is_due now seen p =
      is_stuck p
      && (not (p.short_closed && p.long_closed)
          && not (ltb now (last_attempt p.id seen + recover_cooldown_secs)))

  abbrev pub count_due : ℕ → Attempts → List (SpreadPosition A) → ℕ
  count_due now seen ps = length (keep_if (is_due now seen) ps)

  six_each :
      (b : Bool) (p : SpreadPosition A) (ps : List (SpreadPosition A))
      → 6 * length (if b then p ∷ ps else ps) ≡ (if b then 6 else 0) + 6 * length ps
  six_each true p ps = omega arith
  six_each false p ps = omega arith

  -- An attempt now makes no other row due.
  count_due_later :
      (now i : ℕ) (seen : Attempts) (ps : List (SpreadPosition A))
      → count_due now ((i, now) ∷ seen) ps ≤ count_due now seen ps
  count_due_later now i seen [] = omega arith
  count_due_later now i seen (p ∷ ps) = ground (arith, count_due_later now i seen ps)

module _ (M : Market) (v : Venue M.Number) where
  retry_bounded :
      (n e : ℕ) (sym : String) (side : Side) (size : M.Number) (s : Sent M.Number)
      → length (close_leg_with_retry M n v e sym side size s).1 ≤ length s + n
  unfolding close_leg_with_retry
  retry_bounded zero e sym side size s = omega arith
  retry_bounded (suc n) e sym side size s =
      let c = close_leg e sym side size in
      ground (arith, retry_bounded n e sym side size ((c, v.answer s c) ∷ s))

  leg_step_bounded :
      (untouched : Bool) (ex : Option Exchange) (e : ℕ) (sym : String) (side : Side)
      (size : M.Number) (flag : Bool) (s : Sent M.Number)
      → length (leg_step M v untouched ex e sym side size flag s).1 ≤ length s + 3
  unfolding leg_step
  leg_step_bounded untouched ex e sym side size flag s =
      ground (arith, retry_bounded 3 e sym side size s)

  module _ (db : Session M.Number) where
    both_legs_bounded :
        (untouched : Bool) (p : SpreadPosition M.Number) (s : Sent M.Number)
        → length (both_legs M v db untouched p s).2 ≤ length s + 6
    unfolding both_legs
    both_legs_bounded untouched p s =
        let ex = find_exchange p.high_exchange_id db.exchanges in
        let ey = find_exchange p.low_exchange_id db.exchanges in
        let first =
          leg_step M v untouched ex p.high_exchange_id p.symbol short p.short_size_base
            p.short_closed s in
        omega (
          arith,
          leg_step_bounded untouched ex p.high_exchange_id p.symbol short p.short_size_base
              p.short_closed s,
          leg_step_bounded untouched ey p.low_exchange_id p.symbol long p.long_size_base
              p.long_closed first.1,
        )

    -- What one row adds to the requests and to the attempts
    abbrev RowBounded :
        ℕ
        → SpreadPosition M.Number
        → Attempts
        → Sent M.Number
        → SpreadPosition M.Number × Attempts × Sent M.Number
        → Type 0
    RowBounded now p seen s r =
        (length r.2 ≤ length s + (if is_due now seen p then 6 else 0))
        × ((ps : List (SpreadPosition M.Number)) → count_due now r.1 ps ≤ count_due now seen ps)

    row_bounded :
        (now : ℕ) (p : SpreadPosition M.Number) (seen : Attempts) (s : Sent M.Number)
        → RowBounded now p seen s
            (if is_stuck p then recover_one M v now db p seen s else (p, seen, s))
    unfolding recover_one
    row_bounded now p seen s =
        let P = RowBounded now p seen s in
        let asked = both_legs_bounded false p s in
        if-both P (is_stuck p)
          (λ stuck.
            if-both P (p.short_closed && p.long_closed) (λ _. (omega arith, λ ps. omega arith))
              λ left.
                if-both P (ltb now (last_attempt p.id seen + recover_cooldown_secs))
                  (λ _. (omega arith, λ ps. omega arith))
                  λ due. (rw (stuck, left, due) asked, count_due_later now p.id seen))
          λ _. (omega arith, λ ps. omega arith)

    -- A pass of the recovery makes at most six requests for each row that is due when it starts, and none
    -- for the others.
    recover_bounded :
        (now : ℕ) (ps : List (SpreadPosition M.Number)) (seen : Attempts) (s : Sent M.Number)
        → length (recover_half_closed_positions M v now db ps seen s).2
          ≤ length s + 6 * count_due now seen ps
    unfolding recover_half_closed_positions
    recover_bounded now [] seen s = omega arith
    recover_bounded now (p ∷ ps) seen s =
        let (q, seen', s') = if is_stuck p then recover_one M v now db p seen s else (p, seen, s) in
        let rest = recover_bounded now ps seen' s' in
        let (few, fewer) = row_bounded now p seen s in
        omega (
          arith,
          rest,
          few,
          fewer ps,
          six_each (is_due now seen p) p (keep_if (is_due now seen) ps),
        )

module _ (M : Market) (v : Venue M.Number) (db : Session M.Number) (now : ℕ)
    (p : SpreadPosition M.Number) (seen : Attempts) (s : Sent M.Number) where
  -- The exchange closes this leg on every request, and does not list it afterwards.
  abbrev pub Closes : ℕ → Side → M.Number → Type 0
  Closes e side size =
      (t : Sent M.Number)
      → (is_some (v.answer t (close_leg e p.symbol side size)) ≡ true)
        × (verify_leg_closed M v t e p.symbol side ≡ true)

  -- A leg that the exchange closes is confirmed, whatever its mark was.
  leg-Closes :
      (ex : Option Exchange) (e : ℕ) (side : Side) (size : M.Number) (flag : Bool)
      (t : Sent M.Number)
      → is_some ex ≡ true
      → M.positive size ≡ true
      → Closes e side size
      → (leg_step M v false ex e p.symbol side size flag t).0 ≡ true
  unfolding leg_step close_leg_with_retry
  leg-Closes ex e side size flag t known pos closes =
      let c = close_leg e p.symbol side size in
      let r = v.answer t c in
      let answered = (closes t).0 in
      let gone = (closes ((c, r) ∷ t)).1 in
      elim (Bool-cases flag) [
        | inl done ↦ rw done refl
        | inr left ↦ rw (left, known, pos, answered, gone) refl
      ]

  -- If a stuck row is due, both its exchanges have rows, both sizes are positive, and the exchanges close
  -- each leg that they are asked to close, one recovery leaves it closed with both legs confirmed, and
  -- the time of the attempt is noted.
  recover-Closes :
      is_due now seen p ≡ true
      → is_some (find_exchange p.high_exchange_id db.exchanges) ≡ true
      → is_some (find_exchange p.low_exchange_id db.exchanges) ≡ true
      → M.positive p.short_size_base ≡ true
      → M.positive p.long_size_base ≡ true
      → Closes p.high_exchange_id short p.short_size_base
      → Closes p.low_exchange_id long p.long_size_base
      → let (q, seen', _) = recover_one M v now db p seen s in
        (q.status ≡ SpreadStatus.closed)
        × (q.short_closed ≡ true)
        × (q.long_closed ≡ true)
        × (seen' ≡ (p.id, now) ∷ seen)
  unfolding recover_one both_legs
  recover-Closes due hx hy px py cx cy =
      let ex = find_exchange p.high_exchange_id db.exchanges in
      let ey = find_exchange p.low_exchange_id db.exchanges in
      let t =
        (leg_step M v false ex p.high_exchange_id p.symbol short p.short_size_base p.short_closed
          s).1 in
      ground (
        arith,
        leg-Closes ex p.high_exchange_id short p.short_size_base p.short_closed s hx px cx,
        leg-Closes ey p.low_exchange_id long p.long_size_base p.long_closed t hy py cy,
      )
