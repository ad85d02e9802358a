-- ===== src/Auto/Open/Caps.antt =====
-- How an open is capped by what the accounts of its two legs have (`_cap_open_size_by_available_margin` and its
-- helpers in backend/core/spot_basis_auto_engine/open_executor.py).
use arbitrage_station.Base.{
  ℕ, ◌+◌, ◌*◌, ◌/◌, String, Bool, false, ◌&&◌, ◌||◌, Option, none, some, List, [], ◌∷◌, ◌==◌, ltb,
  if◌then◌else◌, max, min, not,
}
use text.Mathlib.Text.{◌==◌ as text_eq}
use arbitrage_station.Auto.{Result, returned, threw, OpenPlan}

-- One row of `info`: the fields that a balance may stand in
pub record BalanceRow : Type 0 where
  pub available : ℕ
  pub cross_available : ℕ
  pub cross_margin_available : ℕ
  pub available_balance : ℕ

pub record AccountBalance : Type 0 where
  pub usdt_free : ℕ
  pub info : List BalanceRow

abbrev or_next : ℕ → ℕ → ℕ
or_next x y = if x == 0 then y else x

abbrev candidate : BalanceRow → ℕ
candidate r =
    or_next r.available
      (or_next r.cross_available (or_next r.cross_margin_available r.available_balance))

abbrev best_row : List BalanceRow → ℕ
best_row [] = 0
best_row (r ∷ rs) = max (candidate r) (best_row rs)

-- `_extract_available_usdt`
unfoldable pub extract_available_usdt : AccountBalance → ℕ
extract_available_usdt b = if ltb 0 b.usdt_free then b.usdt_free else best_row b.info

-- What the exchanges and the database say; an exchange without an instance has no perpetual balance. `open_hedged` is the
-- strategy's own, with the size: `none` for success.
pub record OpenDesk (D : Type 0) : Type 0 where
  pub exists : ℕ → Bool
  pub is_unified : ℕ → Bool
  pub prices : ℕ → ℕ → String → D → Result (ℕ × ℕ) × D
  pub perp_balance : ℕ → D → Result (Option AccountBalance) × D
  pub spot_balance : ℕ → D → Result AccountBalance × D
  pub open_hedged : OpenPlan → ℕ → D → Option String × D

-- The caches of one execution
pub record OpenCaches : Type 0 where
  pub perp_available : ℕ → Option ℕ
  pub spot_available : ℕ → Option ℕ
  pub unified : ℕ → Bool
  pub ratios : List ((ℕ × ℕ × String) × ℕ)

abbrev pub no_caches : OpenCaches
no_caches = record {
  perp_available = λ i. none;
  spot_available = λ i. none;
  unified = λ i. false;
  ratios = [];
}

abbrev pub put : {A : Type 0} → ℕ → A → (ℕ → A) → ℕ → A
put k v m i = if k == i then v else m i

abbrev pub find_ratio : ℕ → ℕ → String → List ((ℕ × ℕ × String) × ℕ) → Option ℕ
find_ratio a b s [] = none
find_ratio a b s (((c, d, t), r) ∷ rs) =
    let rest = find_ratio a b s rs in if (a == c) && ((b == d) && text_eq s t) then some r else rest

abbrev pub ratio_of : Result (ℕ × ℕ) → ℕ
ratio_of threw = 10_000
ratio_of (returned (spot_px, perp_px)) =
    if ltb 0 spot_px && ltb 0 perp_px then max 100 (perp_px * 10_000 / spot_px) else 10_000

-- `_AUTO_SPOT_BASIS_PERP_LEVERAGE`
abbrev pub leverage : ℕ
leverage = 2

-- `max_by_perp`
abbrev pub max_by_perp : ℕ → ℕ → ℕ
max_by_perp perp ratio = perp * leverage * 9800 / max 100 ratio

-- `max_final` of a unified account
abbrev pub max_by_both : ℕ → ℕ → ℕ
max_by_both available ratio = available * (9800 * leverage) / (10_000 * leverage + ratio)

unfoldable pub perp_read : Result (Option AccountBalance) → Option ℕ
perp_read threw = none
perp_read (returned none) = some 0
perp_read (returned (some b)) = some (extract_available_usdt b)

unfoldable pub spot_read : Result AccountBalance → Option ℕ
spot_read threw = none
spot_read (returned b) = some (extract_available_usdt b)

abbrev pub keep_read : ℕ → Option ℕ → (ℕ → Option ℕ) → ℕ → Option ℕ
keep_read i none cache = cache
keep_read i (some a) cache = put i (some a) cache

-- `min(requested, max_final)` on two balances; a spot balance that cannot be read caps nothing.
abbrev pub capped_by : ℕ → ℕ → Option ℕ → ℕ
capped_by requested by_perp none = requested
capped_by requested by_perp (some s) = min requested (min by_perp (s * 98 / 100))

module _ {D : Type 0} (desk : OpenDesk D) where
  -- `_estimate_perp_to_spot_ratio`
  unfoldable pub estimate_ratio : OpenPlan → OpenCaches × D → ℕ × (OpenCaches × D)
  estimate_ratio p (c, w) =
      let (reply, w') = desk.prices p.long_exchange_id p.short_exchange_id p.symbol w in
      let ratio = ratio_of reply in
      let key : ℕ × ℕ × String = (p.long_exchange_id, p.short_exchange_id, p.symbol) in
      elim (find_ratio p.long_exchange_id p.short_exchange_id p.symbol c.ratios) [
        | some r ↦ (max 100 r, (c, w))
        | none ↦ (ratio, (record c { ratios = (key, ratio) ∷ c.ratios }, w'))
      ]

  -- The balance for the short leg: cached, or read and cached; `none` where the read raises.
  unfoldable pub perp_of : ℕ → OpenCaches × D → Option ℕ × (OpenCaches × D)
  unfolding perp_read
  perp_of i (c, w) =
      let (reply, w') = desk.perp_balance i w in
      elim (c.perp_available i) [
        | some a ↦ (some a, (c, w))
        | none ↦ (
          perp_read reply,
          (record c { perp_available = keep_read i (perp_read reply) c.perp_available }, w'),
        )
      ]

  -- The same for the spot leg
  unfoldable pub spot_of : ℕ → OpenCaches × D → Option ℕ × (OpenCaches × D)
  unfolding spot_read
  spot_of i (c, w) =
      let (reply, w') = desk.spot_balance i w in
      elim (c.spot_available i) [
        | some a ↦ (some a, (c, w))
        | none ↦ (
          spot_read reply,
          (record c { spot_available = keep_read i (spot_read reply) c.spot_available }, w'),
        )
      ]

  -- The last part of `_cap_open_size_by_available_margin`, for the perpetual's balance
  unfoldable pub cap_by_legs : OpenPlan → ℕ → ℕ → ℕ → OpenCaches × D → ℕ × (OpenCaches × D)
  unfolding spot_of
  cap_by_legs p requested ratio perp (c, w) =
      let asked : OpenCaches = record c {
        unified = put p.short_exchange_id (desk.is_unified p.short_exchange_id) c.unified;
      } in
      let (spot, st) = spot_of p.long_exchange_id (asked, w) in
      if perp == 0
      then (0, (c, w))
      else if (p.long_exchange_id == p.short_exchange_id) && desk.is_unified p.short_exchange_id
      then (min requested (max_by_both perp ratio), (asked, w))
      else (capped_by requested (max_by_perp perp ratio) spot, st)

  -- `_cap_open_size_by_available_margin`, with the ratio that it reports: 1 if it reports none
  unfoldable pub cap_open_size : OpenPlan → ℕ → OpenCaches × D → (ℕ × ℕ) × (OpenCaches × D)
  unfolding estimate_ratio perp_of cap_by_legs
  cap_open_size p requested st =
      let (ratio, st1) = estimate_ratio p st in
      let (perp, st2) = perp_of p.short_exchange_id st1 in
      if (p.long_exchange_id == 0) || (p.short_exchange_id == 0)
      then ((requested, 10_000), st)
      else if not (desk.exists p.long_exchange_id && desk.exists p.short_exchange_id)
      then ((requested, 10_000), st)
      else elim perp [
        | none ↦ ((requested, 10_000), st2)
        | some a ↦ (let (size, st3) = cap_by_legs p requested ratio a st2 in ((size, ratio), st3))
      ]
