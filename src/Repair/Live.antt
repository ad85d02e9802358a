-- ===== src/Repair/Live.antt =====
-- The perpetual that an exchange reports (`_fetch_live_perp_short_base` of
-- backend/core/spot_basis_auto_engine/profit_metrics.py).
use text.Mathlib.Text.{◌==◌ as text_eq}
use arbitrage_station.Base.{
  ℕ, ◌+◌, String, Bool, Option, none, some, List, [], ◌∷◌, ◌&&◌, ◌==◌, if◌then◌else◌,
}
use arbitrage_station.Trading.Store.{Exchange}

-- A position as an exchange reports it: the number of contracts without its sign.
pub record LivePosition : Type 0 where
  pub symbol : String
  pub is_short : Bool
  pub negative : Bool
  pub contracts : ℕ

-- What the exchanges say: the positions, if they can be read, what contracts are worth, and a price.
pub record Market : Type 0 where
  pub fetch_positions : ℕ → String → Option (List LivePosition)
  pub worth : ℕ → String → ℕ → ℕ
  pub ticker_price : ℕ → String → ℕ

-- The loop of `_fetch_live_perp_short_base`
unfoldable pub short_base : (ℕ → ℕ) → String → List LivePosition → ℕ
short_base worth symbol [] = 0
short_base worth symbol (p ∷ ps) =
    let rest = short_base worth symbol ps in
    let value = if p.negative then 0 else worth p.contracts in
    let qty = if value == 0 then p.contracts else value in
    if text_eq p.symbol symbol && p.is_short then qty + rest else rest

-- `_fetch_live_perp_short_base`; an exchange that cannot be read is `none`.
unfoldable pub fetch_live_perp_short_base : Market → Option Exchange → String → Option ℕ
unfolding short_base
fetch_live_perp_short_base m none symbol = none
fetch_live_perp_short_base m (some e) symbol =
    if text_eq symbol "" then none else elim (m.fetch_positions e.id symbol) [
      | none ↦ none
      | some ps ↦ some (short_base (m.worth e.id symbol) symbol ps)
    ]
