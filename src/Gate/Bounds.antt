-- ===== src/Gate/Bounds.antt =====
-- What every decision of the health gate keeps, on all of its branches.
use arbitrage_station.Base.{
  ℕ, ◌+◌, ◌≤◌, ◌<◌, ◌≡◌, ◌⊎◌, Bool, true, false, List, [], ◌∷◌, arith, min, max,
}
use arbitrage_station.Gate.{
  DecisionAction, HealthGate, Window, Limits, Knobs, Outcome, hold, split, merge, count_window,
  cooling, recover, degrade, settle, adapt, screen, decide, run, adopt, normalize_order_book_limit,
}

-- What holds of a gate between two windows, with the settings it has made. `most` bounds them.
pub record IsValid (most : Knobs) (g : HealthGate) (k : Knobs) : Type 0 where
  pub stage_capped : g.degrade_stage ≤ 3
  pub stage_marked : 0 < g.degrade_stage → g.degraded ≡ true
  pub has_base : 1 ≤ g.base_shard_count
  pub limit_base : g.base_order_book_limit ≤ most.order_book_limit
  pub has_shard : 1 ≤ k.shard_count
  pub has_limit : 1 ≤ k.order_book_limit
  pub shards_capped : k.shard_count ≤ most.shard_count
  pub limit_capped : k.order_book_limit ≤ most.order_book_limit
  pub delay_capped : k.batch_delay_ms ≤ most.batch_delay_ms

-- The bound leaves room for what the two chains may set.
pub record Allows (most : Knobs) (l : Limits) : Type 0 where
  pub shards : min l.symbol_count l.max_shards ≤ most.shard_count
  pub delay : 5000 ≤ most.batch_delay_ms
  pub limit : 5 ≤ most.order_book_limit

-- How a decision's action goes with the number of shards before and after.
abbrev pub Resharded : DecisionAction → ℕ → ℕ → Type 0
Resharded hold a b = a ≡ b
Resharded split a b = b ≡ a + 1
Resharded merge a b = a ≡ b + 1

-- The decision tells how the shards change.
abbrev pub IsReported : Knobs → Outcome → Type 0
IsReported k o =
    (o.decision.from_shards ≡ k.shard_count)
    × (o.decision.to_shards ≡ o.knobs.shard_count)
    × Resharded o.decision.action k.shard_count o.knobs.shard_count

-- At most one of the settings differs.
abbrev pub OneChanged : Knobs → Knobs → Type 0
OneChanged a b =
    ((a.order_book_limit ≡ b.order_book_limit) × (a.batch_delay_ms ≡ b.batch_delay_ms))
    ⊎ ((a.shard_count ≡ b.shard_count) × (a.batch_delay_ms ≡ b.batch_delay_ms))
    ⊎ ((a.shard_count ≡ b.shard_count) × (a.order_book_limit ≡ b.order_book_limit))

-- Nothing changes, or one setting does and the cooldown starts anew.
abbrev pub IsPaced : HealthGate → Window → Knobs → Outcome → Type 0
IsPaced g w k o = (o.knobs ≡ k) ⊎ (OneChanged k o.knobs × (o.gate.last_rebalance_at ≡ w.now))

module _ (g : HealthGate) (w : Window) (l : Limits) (k : Knobs) where
  module _ (most : Knobs) (v : IsValid most g k) where
    recover-IsValid : 0 < g.degrade_stage → let o = recover g w.now k in IsValid most o.gate o.knobs
    unfolding recover
    recover-IsValid p = ground arith

    degrade-IsValid : Allows most l → let o = degrade g w.now l k in IsValid most o.gate o.knobs
    unfolding degrade
    degrade-IsValid a = ground arith

    settle-IsValid : let o = settle g w k in IsValid most o.gate o.knobs
    unfolding settle
    settle-IsValid = ground arith

  recover-IsReported : IsReported k (recover g w.now k)
  unfolding recover
  recover-IsReported = ground arith

  degrade-IsReported : IsReported k (degrade g w.now l k)
  unfolding degrade
  degrade-IsReported = ground arith

  settle-IsReported : IsReported k (settle g w k)
  unfolding settle
  settle-IsReported = ground arith

  recover-IsPaced : IsPaced g w k (recover g w.now k)
  unfolding recover
  recover-IsPaced = ground arith

  degrade-IsPaced : IsPaced g w k (degrade g w.now l k)
  unfolding degrade
  degrade-IsPaced = ground arith

  settle-IsPaced : IsPaced g w k (settle g w k)
  unfolding settle
  settle-IsPaced = ground arith

module _ (g : HealthGate) (w : Window) (l : Limits) (k : Knobs) where
  -- The windows are counted before any branch, which leaves the rest of the gate alone.
  adapt-IsValid :
      (most : Knobs)
      → IsValid most g k
      → Allows most l
      → let o = adapt g w l k in IsValid most o.gate o.knobs
  unfolding adapt
  adapt-IsValid most v a = ground (
    arith,
    recover-IsValid g w l k most v,
    degrade-IsValid g w l k most v a,
    settle-IsValid g w l k most v,
  )

  adapt-IsReported : IsReported k (adapt g w l k)
  unfolding adapt
  adapt-IsReported =
      ground
        (arith, recover-IsReported g w l k, degrade-IsReported g w l k, settle-IsReported g w l k)

  adapt-IsPaced : IsPaced g w k (adapt g w l k)
  unfolding adapt
  adapt-IsPaced =
      ground (arith, recover-IsPaced g w l k, degrade-IsPaced g w l k, settle-IsPaced g w l k)

count_window-IsValid :
    (g : HealthGate) (w : Window) (most k : Knobs)
    → IsValid most g k
    → IsValid most (count_window g w) k
count_window-IsValid g w most k v = ground arith

screen-IsValid :
    (g : HealthGate) (w : Window) (l : Limits) (k most : Knobs)
    → IsValid most g k
    → Allows most l
    → let o = screen g w l k in IsValid most o.gate o.knobs
unfolding screen
screen-IsValid g w l k most v a = ground (arith, adapt-IsValid g w l k most v a)

-- A decision keeps the invariant.
pub decide-IsValid :
    (g : HealthGate) (w : Window) (l : Limits) (k most : Knobs)
    → IsValid most g k
    → Allows most l
    → let o = decide g w l k in IsValid most o.gate o.knobs
unfolding decide
decide-IsValid g w l k most v =
    screen-IsValid (count_window g w) w l k most (count_window-IsValid g w most k v)

normalize_bounds :
    (b : Bool) (v : ℕ)
    → (1 ≤ normalize_order_book_limit b v) × (normalize_order_book_limit b v ≤ max 5 v)
unfolding normalize_order_book_limit
normalize_bounds false v = omega arith
normalize_bounds true v = ground arith

adopt-IsValid :
    (b : Bool) (l : Limits) (g : HealthGate) (k most : Knobs)
    → IsValid most g k
    → Allows most l
    → IsValid most g (adopt b l k)
unfolding adopt
adopt-IsValid b l g k most v a = record {
  stage_capped = v.stage_capped;
  stage_marked = v.stage_marked;
  has_base = v.has_base;
  limit_base = v.limit_base;
  has_shard = omega arith;
  has_limit = (normalize_bounds b k.order_book_limit).0;
  shards_capped = omega (arith, v.shards_capped, v.has_shard);
  limit_capped = omega (arith, (normalize_bounds b k.order_book_limit).1, v.limit_capped, a.limit);
  delay_capped = v.delay_capped;
}

-- After any windows on any exchange, from a valid gate whose bound leaves room for the limits, the
-- stage is at most 3 and marked as degraded when it is not 0, there is at least one shard and one
-- book level, and no setting exceeds the bound.
pub run-IsValid :
    (b : Bool) (l : Limits) (most : Knobs) (ws : List Window) (g : HealthGate) (k : Knobs)
    → IsValid most g k
    → Allows most l
    → let (g', k') = run b g l k ws in IsValid most g' k'
unfolding run
run-IsValid b l most [] g k v a = v
run-IsValid b l most (w ∷ ws) g k v a =
    let o = decide g w l k in
    run-IsValid b l most ws o.gate (adopt b l o.knobs)
      (adopt-IsValid b l o.gate o.knobs most (decide-IsValid g w l k most v a) a) a

-- Every decision names the number of shards before and after it, and its action is `split` for
-- one shard more, `merge` for one less, and `hold` for as many as before.
decide-IsReported :
    (g : HealthGate) (w : Window) (l : Limits) (k : Knobs) → IsReported k (decide g w l k)
unfolding decide
decide-IsReported g w l k = ground (arith, adapt-IsReported (count_window g w) w l k)

-- A decision changes nothing, or changes one setting alone; it does the latter only when the gate is
-- adaptive and the cooldown since the last change has passed, and then the cooldown starts anew.
decide_paced :
    (g : HealthGate) (w : Window) (l : Limits) (k : Knobs)
    → let o = decide g w l k in
      (o.knobs ≡ k)
      ⊎ (OneChanged k o.knobs
          × (cooling g w.now ≡ false)
          × (g.adaptive_rebalance ≡ true)
          × (o.gate.last_rebalance_at ≡ w.now))
unfolding decide
decide_paced g w l k = ground (arith, adapt-IsPaced (count_window g w) w l k)
