-- ===== src/Reconcile/Recover/Pool.antt =====
-- What is left untracked on the exchanges, and the best match for a perpetual in the pool of spots (runner.py of
-- backend/core/spot_basis_reconciler).
use text.Mathlib.Text.{◌==◌ as text_eq}
use arbitrage_station.Base.{
  ℕ, ◌+◌, ◌-◌, ◌*◌, String, Bool, ◌&&◌, ◌||◌, Option, none, some, List, [], ◌∷◌, ltb, leb, ◌==◌,
  if◌then◌else◌,
}
use arbitrage_station.Trading.Store.{Session}
use arbitrage_station.Reconcile.{tracked_spot, tracked_perp}

pub record LivePerp : Type 0 where
  pub exchange_id : ℕ
  pub symbol : String
  pub base_asset : String
  pub base_size : ℕ
  pub notional_usd : ℕ
  pub mark_price : ℕ
  pub entry_price : ℕ

pub record LiveSpot : Type 0 where
  pub exchange_id : ℕ
  pub asset : String
  pub spot_symbol : String
  pub qty : ℕ
  pub price_usdt : ℕ

-- A perpetual with what of it is not tracked.
pub record Untracked : Type 0 where
  pub perp : LivePerp
  pub untracked_base : ℕ
  pub untracked_notional_usd : ℕ

-- An entry of `spot_pool`
pub record PoolEntry : Type 0 where
  pub spot : LiveSpot
  pub residual_qty : ℕ
  pub residual_notional_usd : ℕ

abbrev pub min_recover_base : ℕ
min_recover_base = 10

abbrev pub min_recover_notional_usd : ℕ
min_recover_notional_usd = 8000000000000

-- Too little of an asset, or worth too little.
abbrev pub is_small : PoolEntry → Bool
is_small x =
    leb x.residual_qty min_recover_base || ltb x.residual_notional_usd min_recover_notional_usd

module _ (upper : String → String) (db : Session ℕ) where
  abbrev pub untracked_perp : LivePerp → Untracked
  untracked_perp p =
      let residual = p.base_size - tracked_perp upper db p.exchange_id p.symbol db.positions in
      record {
        perp = p;
        untracked_base = residual;
        untracked_notional_usd =
            if ltb 0 p.mark_price then residual * p.mark_price else p.notional_usd;
      }

  unfoldable pub perp_untracked : List LivePerp → List Untracked
  perp_untracked [] = []
  perp_untracked (p ∷ ps) =
      let rest = perp_untracked ps in
      let u = untracked_perp p in
      if leb u.untracked_base min_recover_base
        || ltb u.untracked_notional_usd min_recover_notional_usd
      then rest
      else u ∷ rest

  abbrev pub pool_entry : LiveSpot → PoolEntry
  pool_entry r =
      let residual = r.qty - tracked_spot upper db r.exchange_id r.asset db.positions in
      record { spot = r; residual_qty = residual; residual_notional_usd = residual * r.price_usdt }

  unfoldable pub spot_pool : List LiveSpot → List PoolEntry
  spot_pool [] = []
  spot_pool (r ∷ rs) =
      let rest = spot_pool rs in let x = pool_entry r in if is_small x then rest else x ∷ rest

-- `perp_untracked.sort(key=notional, reverse=True)`, which keeps the order of equal elements
unfoldable pub insert_untracked : Untracked → List Untracked → List Untracked
insert_untracked x [] = x ∷ []
insert_untracked x (y ∷ ys) =
    let rest = insert_untracked x ys in
    if leb y.untracked_notional_usd x.untracked_notional_usd then x ∷ y ∷ ys else y ∷ rest

unfoldable pub sort_untracked : List Untracked → List Untracked
unfolding insert_untracked
sort_untracked [] = []
sort_untracked (x ∷ xs) = insert_untracked x (sort_untracked xs)

abbrev pub distance : ℕ → ℕ → ℕ
distance a b = (a - b) + (b - a)

-- The asset fits, and there is between 0.6 and 1.4 times as much of it.
abbrev pub is_candidate : Untracked → PoolEntry → Bool
is_candidate u x =
    text_eq x.spot.asset u.perp.base_asset
    && (ltb min_recover_base x.residual_qty
        && (leb (6 * u.untracked_base) (10 * x.residual_qty)
            && leb (10 * x.residual_qty) (14 * u.untracked_base)))

-- The order of the candidates: the ratio nearest to 1, then the larger value.
abbrev pub is_better : ℕ → PoolEntry → PoolEntry → Bool
is_better base x y =
    let dx = distance x.residual_qty base in
    let dy = distance y.residual_qty base in
    ltb dx dy || ((dx == dy) && ltb y.residual_notional_usd x.residual_notional_usd)

-- The first of the candidates that none is better than.
unfoldable pub best_candidate : ℕ → List PoolEntry → Option PoolEntry
best_candidate base [] = none
best_candidate base (x ∷ xs) = elim (best_candidate base xs) [
  | none ↦ some x
  | some y ↦ if is_better base y x then some y else some x
]
