-- ===== src/Reconcile/Recover/Within.antt =====
-- No more of an asset is booked than an exchange holds of it.
use text.Mathlib.TextEquality.{eq_iff}
use mathlib.Core.Path.{subst}
use arbitrage_station.Base.{
  ℕ, ◌+◌, ◌-◌, ◌≤◌, ◌≡◌, inl, inr, refl, sym, String, true, false, Option, none, some, List, [],
  ◌∷◌, arith, if◌then◌else◌, keep_if, min, if-both, Bool-cases,
}
use arbitrage_station.Trading.Store.{Session}
use arbitrage_station.Reconcile.{tracked_spot}
use arbitrage_station.Reconcile.Recover.{
  LivePerp, LiveSpot, Untracked, PoolEntry, RecoverResult, SkipReason, skipped, recovered, Books,
  is_candidate, best_candidate, consume, pair_up, match_with, settle_pair, is_small, pair_refusal,
  recover_perp, recover_each, recover_untracked, spot_pool, perp_untracked, sort_untracked,
  pool_entry,
}
use arbitrage_station.Reconcile.Recover.Keys.{
  key_eq, residual_of, Lacks, Once, key_refl, key-same, consume-same, consume-other, consume-Once,
  Member, best-Member, keep-Member, Member-residual, subst2,
}

-- What a result books of an asset on an exchange.
abbrev booked_one : ℕ → String → RecoverResult → ℕ
booked_one e a (skipped why) = 0
booked_one e a (recovered r) = if key_eq r.long_exchange_id r.asset e a then r.matched_base else 0

abbrev pub booked : ℕ → String → List RecoverResult → ℕ
booked e a [] = 0
booked e a (r ∷ rs) = booked_one e a r + booked e a rs

-- What one turn does to the dict.
abbrev Spends : ℕ → String → Books → RecoverResult × Books → Type 0
Spends e a b (r, b') =
    Once b'.pool × (booked_one e a r + residual_of e a b'.pool ≤ residual_of e a b.pool)

pair_up-Spends :
    (e : ℕ) (a : String) (u : Untracked) (x : PoolEntry) (b : Books)
    → Once b.pool
    → Member x b.pool
    → u.perp.base_asset ≡ x.spot.asset
    → Spends e a b (pair_up u x b)
pair_up-Spends e a u x b o m name =
    let i = x.spot.exchange_id in
    let k = u.perp.base_asset in
    let matched = min u.untracked_base x.residual_qty in
    let whole : residual_of i k b.pool ≡ x.residual_qty =
      subst (λ t. residual_of i t b.pool ≡ x.residual_qty) (sym name)
        (Member-residual b.pool x o m) in
    let left = consume-same i k matched b.pool in
    (
      consume-Once i k matched b.pool o,
      elim (Bool-cases (key_eq i k e a)) [
        | inl h ↦
            let (p, q) = key-same i e k a h in
            let here =
              subst2
                (λ n t.
                  key_eq i k n t ≡ true
                  → residual_of n t (consume i k matched b.pool) + matched ≡ residual_of n t b.pool)
                p q (λ _. omega (arith, left, whole)) h in
            ground (arith, here, h)
        | inr h ↦ ground (arith, h, consume-other i e k a matched b.pool h)
      ],
    )

-- The candidate that is chosen is in the pool, and is of the asset of the perpetual.
pub candidate-found :
    (u : Untracked) (b : Books) (x : PoolEntry)
    → best_candidate u.untracked_base (keep_if (is_candidate u) b.pool) ≡ some x
    → Member x b.pool × (u.perp.base_asset ≡ x.spot.asset)
candidate-found u b x h =
    let (m, ok) =
      keep-Member (is_candidate u) b.pool x
        (best-Member u.untracked_base (keep_if (is_candidate u) b.pool) x h) in
    (m, sym ((eq_iff x.spot.asset u.perp.base_asset).0 (ground arith)))

module _ (e : ℕ) (a : String) where
  settle_pair-Spends :
      (u : Untracked) (x : PoolEntry) (b : Books)
      → Once b.pool
      → Member x b.pool
      → u.perp.base_asset ≡ x.spot.asset
      → (o : Option SkipReason) → Spends e a b (settle_pair u x b o)
  settle_pair-Spends u x b once m name (some why) = (once, omega arith)
  settle_pair-Spends u x b once m name none = pair_up-Spends e a u x b once m name

  match_with-Spends :
      (u : Untracked) (o : Option PoolEntry) (b : Books)
      → Once b.pool
      → ((x : PoolEntry) → o ≡ some x → Member x b.pool × (u.perp.base_asset ≡ x.spot.asset))
      → Spends e a b (match_with u o b)
  match_with-Spends u none b once f = (once, omega arith)
  match_with-Spends u (some x) b once f =
      let (m, name) = f x refl in settle_pair-Spends u x b once m name (pair_refusal u x b.db)

  recover_perp-Spends : (u : Untracked) (b : Books) → Once b.pool → Spends e a b (recover_perp u b)
  unfolding recover_perp
  recover_perp-Spends u b once =
      if-both (Spends e a b) _ (λ _. (once, omega arith))
        λ _.
          match_with-Spends u (best_candidate u.untracked_base (keep_if (is_candidate u) b.pool)) b
            once (candidate-found u b)

  recover_each-Spends :
      (us : List Untracked) (b : Books)
      → Once b.pool
      → booked e a (recover_each us b).0 + residual_of e a (recover_each us b).1.pool
        ≤ residual_of e a b.pool
  unfolding recover_each
  recover_each-Spends [] b once = omega arith
  recover_each-Spends (u ∷ us) b once =
      let (once', here) = recover_perp-Spends u b once in
      omega (arith, here, recover_each-Spends us (recover_perp u b).1 once')

-- The live assets are a dict too.
abbrev LiveLacks : ℕ → String → List LiveSpot → Type 0
LiveLacks e a [] = Unit
LiveLacks e a (r ∷ rs) = (key_eq r.exchange_id r.asset e a ≡ false) × LiveLacks e a rs

abbrev pub LiveOnce : List LiveSpot → Type 0
LiveOnce [] = Unit
LiveOnce (r ∷ rs) = LiveLacks r.exchange_id r.asset rs × LiveOnce rs

module _ (upper : String → String) (db : Session ℕ) where
  -- How much of the asset the exchange holds beyond what is tracked.
  abbrev pub beyond : ℕ → String → List LiveSpot → ℕ
  beyond e a [] = 0
  beyond e a (r ∷ rs) =
      if key_eq r.exchange_id r.asset e a
      then r.qty - tracked_spot upper db e a db.positions
      else beyond e a rs

  pool-Lacks :
      (e : ℕ) (a : String) (rs : List LiveSpot)
      → LiveLacks e a rs
      → Lacks e a (spot_pool upper db rs)
  unfolding spot_pool
  pool-Lacks e a [] l = tt
  pool-Lacks e a (r ∷ rs) l =
      if-both (Lacks e a) (is_small (pool_entry upper db r))
        {y = pool_entry upper db r ∷ spot_pool upper db rs} (λ _. pool-Lacks e a rs l.1)
        λ _. (l.0, pool-Lacks e a rs l.1)

  pool-Once : (rs : List LiveSpot) → LiveOnce rs → Once (spot_pool upper db rs)
  unfolding spot_pool
  pool-Once [] o = tt
  pool-Once (r ∷ rs) o =
      if-both Once (is_small (pool_entry upper db r))
        {y = pool_entry upper db r ∷ spot_pool upper db rs} (λ _. pool-Once rs o.1)
        λ _. (pool-Lacks r.exchange_id r.asset rs o.0, pool-Once rs o.1)

  Lacks-residual :
      (e : ℕ) (a : String) (pool : List PoolEntry) → Lacks e a pool → residual_of e a pool ≡ 0
  Lacks-residual e a [] l = refl
  Lacks-residual e a (x ∷ xs) l = ground (arith, Lacks-residual e a xs)

  pool-beyond :
      (e : ℕ) (a : String) (rs : List LiveSpot)
      → LiveOnce rs
      → residual_of e a (spot_pool upper db rs) ≤ beyond e a rs
  unfolding spot_pool
  pool-beyond e a [] o = omega arith
  pool-beyond e a (r ∷ rs) o = elim (Bool-cases (key_eq r.exchange_id r.asset e a)) [
    | inl h ↦
        let (i, j) = key-same r.exchange_id e r.asset a h in
        let none =
          Lacks-residual r.exchange_id r.asset (spot_pool upper db rs)
            (pool-Lacks r.exchange_id r.asset rs o.0) in
        let self = key_refl r.exchange_id r.asset in
        subst2 (λ n t. residual_of n t (spot_pool upper db (r ∷ rs)) ≤ beyond n t (r ∷ rs)) i j
          (ground (arith, none, self))
    | inr h ↦ ground (arith, h, pool-beyond e a rs o.1)
  ]

-- If the exchanges list no asset twice, then of each asset on each exchange the new pairs together are booked
-- with no more than the exchange holds beyond what was tracked before.
pub recovers_within :
    (upper : String → String) (perps : List LivePerp) (spots : List LiveSpot) (db : Session ℕ)
    (e : ℕ) (a : String)
    → LiveOnce spots
    → booked e a (recover_untracked upper perps spots db).0 ≤ beyond upper db e a spots
unfolding recover_untracked
recovers_within upper perps spots db e a once =
    let spends =
      recover_each-Spends e a (sort_untracked (perp_untracked upper db perps))
        (record { pool = spot_pool upper db spots; db = db }) (pool-Once upper db spots once) in
    omega (arith, spends, pool-beyond upper db e a spots once)
