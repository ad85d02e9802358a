-- ===== src/Cycle/Confirm.antt =====
-- How long a rebalance signal must last.
use text.Mathlib.Text.{◌==◌ as text_eq}
use text.Mathlib.TextEquality.{eq_iff}
use arbitrage_station.Base.{
  ℕ, suc, ◌-◌, ◌<◌, ◌≡◌, refl, ap, String, false, ◌&&◌, not, List, [], ◌∷◌, arith, ltb, leb,
  if◌then◌else◌, max, All, Bool-cases, inl, inr,
}
use arbitrage_station.Cycle.{
  ConfirmState, Signal, confirm_ttl, cleanup_rebalance_confirm_cache, is_blank,
  apply_rebalance_confirm_rounds,
}

abbrev pub fresh_state : ConfirmState
fresh_state = record { fingerprint = ""; count = 0; updated_at = 0 }

-- The state after some signals, the latest first.
unfoldable pub confirm_all : ℕ → List Signal → ConfirmState
unfolding apply_rebalance_confirm_rounds
confirm_all rounds [] = fresh_state
confirm_all rounds (o ∷ os) = (apply_rebalance_confirm_rounds rounds o (confirm_all rounds os)).1

-- How many signals in a row, before the time `t`, want the rebalance `fp`, none later than the lifetime after
-- the one before it. The latest stands first.
abbrev pub streak : String → ℕ → List Signal → ℕ
streak fp t [] = 0
streak fp t (o ∷ os) =
    let before = streak fp o.now os in
    if not (is_blank o) && (text_eq o.fingerprint fp && not (ltb confirm_ttl (t - o.now)))
    then suc before
    else 0

-- What the state knows of a rebalance at the time `t`.
abbrev known : String → ℕ → ConfirmState → ℕ
known fp t s0 =
    let s = cleanup_rebalance_confirm_cache t s0 in if text_eq s.fingerprint fp then s.count else 0

abbrev IsTimed : Signal → Type 0
IsTimed o = 0 < o.now

blank_name : (s : String) → text_eq s "" ≡ false → text_eq "" s ≡ false
blank_name s h = elim (Bool-cases (text_eq "" s)) [
  | inl e ↦ grind (arith, (eq_iff "" s).0 e, (eq_iff s s).1 refl)
  | inr e ↦ e
]

not_blank : (o : Signal) → is_blank o ≡ false → text_eq "" o.fingerprint ≡ false
not_blank o h = blank_name o.fingerprint (ground arith)

known_step :
    (rounds t : ℕ) (fp : String) (o : Signal) (s : ConfirmState) (n : ℕ)
    → 0 < o.now
    → text_eq "" fp ≡ false
    → known o.fingerprint o.now s ≡ n
    → known fp t (apply_rebalance_confirm_rounds rounds o s).1 ≡ (
        if not (is_blank o) && (text_eq o.fingerprint fp && not (ltb confirm_ttl (t - o.now)))
        then suc n
        else 0)
unfolding apply_rebalance_confirm_rounds
known_step rounds t fp o s n h b e = ground arith

known-streak :
    (rounds : ℕ) (fp : String) (t : ℕ) (os : List Signal)
    → All IsTimed os
    → text_eq "" fp ≡ false
    → known fp t (confirm_all rounds os) ≡ streak fp t os
unfolding confirm_all
known-streak rounds fp t [] h b = ground arith
known-streak rounds fp t (o ∷ os) (h, hs) b =
    let s = confirm_all rounds os in
    let step = known_step rounds t fp o s (known o.fingerprint o.now s) h b refl in
    let before = known-streak rounds fp o.now os hs b in
    elim (Bool-cases (text_eq o.fingerprint fp)) [
      | inl same ↦
          let name = (eq_iff o.fingerprint fp).0 same in
          ground (arith, step, before, ap (λ f. known f o.now s) name)
      | inr other ↦ ground (arith, step)
    ]

-- A signal is confirmed exactly if it is not blank and it is at least the given number of rounds, one at the
-- least, that the same rebalance has been wanted in a row without a gap longer than the lifetime.
pub confirm_rounds :
    (rounds : ℕ) (o : Signal) (os : List Signal)
    → All IsTimed os
    → (apply_rebalance_confirm_rounds rounds o (confirm_all rounds os)).0.0
      ≡ (not (is_blank o) && leb (max 1 rounds) (suc (streak o.fingerprint o.now os)))
unfolding apply_rebalance_confirm_rounds
confirm_rounds rounds o os hs = elim (Bool-cases (is_blank o)) [
  | inl blank ↦ ground arith
  | inr wanted ↦ ground (arith, known-streak rounds o.fingerprint o.now os hs (not_blank o wanted))
]
