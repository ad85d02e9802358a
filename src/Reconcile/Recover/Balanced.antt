-- ===== src/Reconcile/Recover/Balanced.antt =====
-- The two legs of each pair that is booked.
use mathlib.Core.List.{Mem, append-nil, append_assoc}
use arbitrage_station.Base.{
  ℕ, ◌+◌, ◌≡◌, inl, inr, refl, sym, String, Option, none, some, List, [], ◌∷◌, ◌++◌, arith, map,
  if-both, keep_if, All, All-self,
}
use arbitrage_station.Trading.Store.{Side, long, short, PositionType, Session}
use arbitrage_station.Trading.SpotHedge.Rows.{leg_of, legs-store, legs-append}
use arbitrage_station.Reconcile.Recover.{
  LivePerp, LiveSpot, Untracked, PoolEntry, RecoverResult, SkipReason, skipped, recovered, Books,
  Recovered, consume, book_pair, settle_pair, match_with, pair_refusal, best_candidate,
  is_candidate, recover_perp, recover_each, recover_untracked, sort_untracked, insert_untracked,
  perp_untracked, spot_pool, pair_up,
}
use arbitrage_station.Reconcile.Recover.Keys.{Member}
use arbitrage_station.Reconcile.Recover.Within.{candidate-found}

-- A row: its number, strategy, exchange, symbol, side, market and size.
abbrev pub Leg : Type 0
Leg = ℕ × ℕ × ℕ × String × Side × PositionType × ℕ

-- The rows of a pair: a long spot and a short perpetual of the same strategy and of the same size.
abbrev pub pair_legs : Recovered → LivePerp → LiveSpot → List Leg
pair_legs r u x =
    (
      r.strategy_id + 1,
      r.strategy_id,
      x.exchange_id,
      x.spot_symbol,
      long,
      PositionType.spot,
      r.matched_base,
    )
    ∷ (
      r.strategy_id + 2,
      r.strategy_id,
      u.exchange_id,
      u.symbol,
      short,
      PositionType.swap,
      r.matched_base,
    )
    ∷ []

module _ (perps : List LivePerp) (spots : List LiveSpot) where
  -- The rows are those of the pairs that were recovered, one after another, each of a perpetual and a
  -- spot that the exchanges hold, of the same asset.
  abbrev pub Pairs : List RecoverResult → List Leg → Type 0
  Pairs [] legs = legs ≡ []
  Pairs (skipped _ ∷ rs) legs = Pairs rs legs
  Pairs (recovered r ∷ rs) legs =
      (u : LivePerp) × (x : LiveSpot) × (rest : List Leg) × Mem u perps
      × Mem x spots
      × (u.base_asset ≡ x.asset)
      × (r.asset ≡ x.asset)
      × (r.long_exchange_id ≡ x.exchange_id)
      × (r.short_exchange_id ≡ u.exchange_id)
      × (legs ≡ pair_legs r u x ++ rest)
      × Pairs rs rest

  Pairs-cons :
      (r : RecoverResult) (rs : List RecoverResult) (a b : List Leg)
      → Pairs (r ∷ []) a
      → Pairs rs b
      → Pairs (r ∷ rs) (a ++ b)
  Pairs-cons (skipped why) rs a b p q = rw p q
  Pairs-cons (recovered r) rs a b (u, x, rest, m, n, same, asset, at_long, at_short, e, d) q =
      (u, x, b, m, n, same, asset, at_long, at_short, rw (e, d) refl, q)

  -- What is left in the pool, and what was added, after a turn.
  abbrev Known : List PoolEntry → Type 0
  Known = All (λ x. Mem x.spot spots)

  abbrev Turn : Books → RecoverResult × Books → Type 0
  Turn b (r, b') =
      Known b'.pool
      × ((legs : List Leg) × (map leg_of b'.db.positions ≡ map leg_of b.db.positions ++ legs)
          × Pairs (r ∷ []) legs)

  consume-Known :
      (e : ℕ) (a : String) (n : ℕ) (pool : List PoolEntry) → Known pool → Known (consume e a n pool)
  unfolding consume
  consume-Known e a n [] k = tt
  consume-Known e a n (x ∷ xs) k = ground (arith, consume-Known e a n xs k.1)

  Known-Member :
      (pool : List PoolEntry) (x : PoolEntry) → Known pool → Member x pool → Mem x.spot spots
  Known-Member [] x k m = elim m [ ]
  Known-Member (y ∷ ys) x k (inl e) = rw e k.0
  Known-Member (y ∷ ys) x k (inr m) = Known-Member ys x k.1 m

  skip-Turn : (b : Books) (why : SkipReason) → Known b.pool → Turn b (skipped why, b)
  skip-Turn b why k = (k, ([], sym (append-nil (map leg_of b.db.positions)), refl))

  book_pair-legs :
      (u : Untracked) (x : PoolEntry) (n px : ℕ) (db : Session ℕ)
      → map leg_of (book_pair u x n px db).positions
        ≡ map leg_of db.positions
          ++ (
            db.next_id + 1,
            db.next_id,
            x.spot.exchange_id,
            x.spot.spot_symbol,
            long,
            PositionType.spot,
            n,
          )
            ∷ (
              db.next_id + 2,
              db.next_id,
              u.perp.exchange_id,
              u.perp.symbol,
              short,
              PositionType.swap,
              n,
            )
            ∷ []
  unfolding book_pair
  book_pair-legs u x n px db = grind (arith, legs-store, legs-append)

  module _ (u : Untracked) (known : Mem u.perp perps) where
    pair_up-Turn :
        (x : PoolEntry) (b : Books)
        → Known b.pool
        → Mem x.spot spots
        → u.perp.base_asset ≡ x.spot.asset
        → Turn b (pair_up u x b)
    pair_up-Turn x b k m same = (
      consume-Known x.spot.exchange_id u.perp.base_asset _ b.pool k,
      (
        _,
        book_pair-legs u x _ _ b.db,
        (u.perp, x.spot, [], known, m, same, same, refl, refl, refl, refl),
      ),
    )

    settle_pair-Turn :
        (x : PoolEntry) (b : Books)
        → Known b.pool
        → Mem x.spot spots
        → u.perp.base_asset ≡ x.spot.asset
        → (o : Option SkipReason) → Turn b (settle_pair u x b o)
    settle_pair-Turn x b k m same (some why) = skip-Turn b why k
    settle_pair-Turn x b k m same none = pair_up-Turn x b k m same

    match_with-Turn :
        (o : Option PoolEntry) (b : Books)
        → Known b.pool
        → ((x : PoolEntry) → o ≡ some x → Member x b.pool × (u.perp.base_asset ≡ x.spot.asset))
        → Turn b (match_with u o b)
    match_with-Turn none b k f = skip-Turn b SkipReason.no_spot_candidate k
    match_with-Turn (some x) b k f =
        let (m, same) = f x refl in
        settle_pair-Turn x b k (Known-Member b.pool x k m) same (pair_refusal u x b.db)

    recover_perp-Turn : (b : Books) → Known b.pool → Turn b (recover_perp u b)
    unfolding recover_perp
    recover_perp-Turn b k =
        if-both (Turn b) _ (λ _. skip-Turn b SkipReason.invalid_perp_row k)
          λ _.
            match_with-Turn (best_candidate u.untracked_base (keep_if (is_candidate u) b.pool)) b k
              (candidate-found u b)

  abbrev AllKnown : List Untracked → Type 0
  AllKnown = All (λ u. Mem u.perp perps)

  recover_each-legs :
      (us : List Untracked) (b : Books)
      → AllKnown us
      → Known b.pool
      → let (rs, b') = recover_each us b in
        (legs : List Leg) × (map leg_of b'.db.positions ≡ map leg_of b.db.positions ++ legs)
        × Pairs rs legs
  unfolding recover_each
  recover_each-legs [] b a k = ([], sym (append-nil (map leg_of b.db.positions)), refl)
  recover_each-legs (u ∷ us) b a k =
      let (k', (here, e, p)) = recover_perp-Turn u a.0 b k in
      let (there, d, q) = recover_each-legs us (recover_perp u b).1 a.1 k' in
      (
        here ++ there,
        rw (d, e) (append_assoc (map leg_of b.db.positions) here there),
        Pairs-cons (recover_perp u b).0 (recover_each us (recover_perp u b).1).0 here there p q,
      )

  insert-AllKnown :
      (x : Untracked) (us : List Untracked)
      → Mem x.perp perps
      → AllKnown us
      → AllKnown (insert_untracked x us)
  unfolding insert_untracked
  insert-AllKnown x [] m a = (m, tt)
  insert-AllKnown x (y ∷ ys) m a = ground (arith, insert-AllKnown x ys m a.1)

  sort-AllKnown : (us : List Untracked) → AllKnown us → AllKnown (sort_untracked us)
  unfolding sort_untracked
  sort-AllKnown [] a = tt
  sort-AllKnown (u ∷ us) a = insert-AllKnown u (sort_untracked us) a.0 (sort-AllKnown us a.1)

module _ (upper : String → String) (db : Session ℕ) where
  untracked-AllKnown :
      (perps us : List LivePerp)
      → All (λ u. Mem u perps) us
      → AllKnown perps [] (perp_untracked upper db us)
  unfolding perp_untracked
  untracked-AllKnown perps [] a = tt
  untracked-AllKnown perps (u ∷ us) a = ground (arith, untracked-AllKnown perps us a.1)

  pool-Known :
      (spots xs : List LiveSpot)
      → All (λ x. Mem x spots) xs
      → Known [] spots (spot_pool upper db xs)
  unfolding spot_pool
  pool-Known spots [] a = tt
  pool-Known spots (x ∷ xs) a = ground (arith, pool-Known spots xs a.1)

-- The rows that a cycle adds are those of the pairs that it reports as recovered, one after another; a
-- result that is skipped adds none. A pair is a long spot and a short perpetual of the new strategy, of the
-- size that was matched, on the exchanges and with the symbols of an asset and a perpetual that the exchanges
-- hold, whose assets are the same; the result names that asset and those exchanges.
pub recovers_hedged :
    (upper : String → String) (perps : List LivePerp) (spots : List LiveSpot) (db : Session ℕ)
    → let (rs, b) = recover_untracked upper perps spots db in
      (legs : List Leg) × (map leg_of b.db.positions ≡ map leg_of db.positions ++ legs)
      × Pairs perps spots rs legs
unfolding recover_untracked
recovers_hedged upper perps spots db =
    recover_each-legs perps spots (sort_untracked (perp_untracked upper db perps))
      (record { pool = spot_pool upper db spots; db = db })
      (sort-AllKnown perps spots (perp_untracked upper db perps)
        (untracked-AllKnown upper db perps perps (All-self perps)))
      (pool-Known upper db spots spots (All-self spots))
