-- ===== src/Gate/Recovery.antt =====
-- The recovery chain of the health gate ends: enough healthy windows, each after the cooldown of the
-- one before, take a degraded gate back to stage 0.
use arbitrage_station.Base.{
  ℕ, suc, ◌+◌, ◌-◌, ◌*◌, ◌≤◌, ◌<◌, ◌≡◌, ◌⊎◌, inl, inr, refl, true, false, List, [], ◌∷◌, arith,
  length, ltb, leb, if◌then◌else◌, ◌&&◌, max, Bool-cases, le→ltb,
}
use arbitrage_station.Gate.{
  HealthGate, Window, Limits, Knobs, Outcome, cooling, recover, settle, adapt, screen, decide, run,
  adopt, normalize_order_book_limit,
}

-- The windows that a step of recovery waits for.
abbrev pub patience : HealthGate → ℕ
patience g = max 1 g.recover_windows

-- How far the stage and the settings are from where recovery leaves them.
abbrev pub distance : HealthGate → Knobs → ℕ
distance g k =
    g.degrade_stage
    + (k.batch_delay_ms - g.base_batch_delay_ms)
    + (k.shard_count - g.base_shard_count)
    + (g.base_order_book_limit - k.order_book_limit)

-- The number of healthy windows after which the gate has recovered.
abbrev pub windows_needed : HealthGate → Knobs → ℕ
windows_needed g k = distance g k * suc (patience g) + (patience g - g.healthy_windows)

-- Each window reaches the target, and comes a cooldown or more after the one before.
abbrev pub IsCalm : ℕ → ℕ → ℕ → List Window → Type 0
IsCalm target cooldown t [] = Unit
IsCalm target cooldown t (w ∷ ws) =
    (target ≤ w.min_p95_hz) × (t + 1000 * max 1 cooldown ≤ w.now) × IsCalm target cooldown w.now ws

-- The gate's own settings, which no decision changes.
record SameSettings (g h : HealthGate) : Type 0 where
  target : g.target_hz ≡ h.target_hz
  cooldown : g.rebalance_cooldown_sec ≡ h.rebalance_cooldown_sec
  adaptive : g.adaptive_rebalance ≡ h.adaptive_rebalance
  windows : g.recover_windows ≡ h.recover_windows
  shards : g.base_shard_count ≡ h.base_shard_count

-- What no decision changes: the gate's settings; the last change is not later than now.
abbrev Keeps : HealthGate → ℕ → Outcome → Type 0
Keeps g now o =
    SameSettings o.gate g
    × ((o.gate.last_rebalance_at ≡ g.last_rebalance_at) ⊎ (o.gate.last_rebalance_at ≡ now))

module _ (g : HealthGate) (w : Window) (l : Limits) (k : Knobs) where
  recover-Keeps : Keeps g w.now (recover g w.now k)
  unfolding recover
  recover-Keeps = ground arith

  settle-Keeps : Keeps g w.now (settle g w k)
  unfolding settle
  settle-Keeps = ground arith

  recover_nearer :
      0 < g.degrade_stage
      → let o = recover g w.now k in
        (o.gate.degrade_stage ≡ 0) ⊎ (distance o.gate o.knobs < distance g k)
  unfolding recover
  recover_nearer p =
      elim (Bool-cases (leb 3 g.degrade_stage && ltb g.base_batch_delay_ms k.batch_delay_ms)) [
        | inl delay ↦ rw delay (ground arith)
        | inr no_delay ↦
            rw no_delay
              (elim (Bool-cases (leb 2 g.degrade_stage && ltb g.base_shard_count k.shard_count)) [
                | inl shards ↦ rw shards (ground arith)
                | inr no_shards ↦ rw no_shards (ground arith)
              ])
      ]

  settle_no_further :
      let o = settle g w k in
      (distance o.gate o.knobs ≤ distance g k)
      × (o.gate.healthy_windows ≡ g.healthy_windows)
      × (o.gate.degrade_stage ≡ g.degrade_stage)
  unfolding settle
  settle_no_further = ground arith

abbrev healthier : HealthGate → HealthGate
healthier g = record g { fail_windows = 0; healthy_windows = g.healthy_windows + 1 }

module _ (g : HealthGate) (w : Window) (l : Limits) (k : Knobs) where
  -- A healthy window after the cooldown goes to the recovery chain, or to neither chain.
  decide_healthy :
      g.target_hz ≤ w.min_p95_hz
      → cooling g w.now ≡ false
      → g.adaptive_rebalance ≡ true
      → decide g w l k ≡ (
          if ltb 0 g.degrade_stage && leb (patience g) (g.healthy_windows + 1)
          then recover (healthier g) w.now k
          else settle (healthier g) w k)
  unfolding decide screen adapt
  decide_healthy h c a = rw (le→ltb w.min_p95_hz g.target_hz h) (rw c (rw a refl))

  decide-Keeps :
      g.target_hz ≤ w.min_p95_hz
      → cooling g w.now ≡ false
      → g.adaptive_rebalance ≡ true
      → Keeps g w.now (decide g w l k)
  decide-Keeps h c a =
      rw (decide_healthy h c a)
        (ground (arith, recover-Keeps (healthier g) w l k, settle-Keeps (healthier g) w l k))

  decide_progress :
      g.target_hz ≤ w.min_p95_hz
      → cooling g w.now ≡ false
      → g.adaptive_rebalance ≡ true
      → let o = decide g w l k in
        (o.gate.degrade_stage ≡ 0)
        ⊎ (distance o.gate o.knobs < distance g k)
        ⊎ ((0 < g.degrade_stage)
            × (g.healthy_windows + 1 < patience g)
            × (o.gate.healthy_windows ≡ g.healthy_windows + 1)
            × (distance o.gate o.knobs ≤ distance g k))
  decide_progress h c a =
      rw (decide_healthy h c a)
        (ground (arith, recover_nearer (healthier g) w l k, settle_no_further (healthier g) w l k))

-- Fewer parts, each weighing more than the windows that one step waits for.
fewer_needed : (d e r h h' : ℕ) → e < d → e * suc r + (r - h') < d * suc r + (r - h)
fewer_needed d e r h h' p = let m : suc e * suc r ≤ d * suc r = grind arith in omega (arith, m)

waits_less : (d e r h : ℕ) → e ≤ d → h + 1 < r → e * suc r + (r - (h + 1)) < d * suc r + (r - h)
waits_less d e r h p q = let m : e * suc r ≤ d * suc r = grind arith in omega (arith, m)

module _ (g : HealthGate) (w : Window) (l : Limits) (k : Knobs) where
  decide_stays :
      g.target_hz ≤ w.min_p95_hz
      → cooling g w.now ≡ false
      → g.adaptive_rebalance ≡ true
      → g.degrade_stage ≡ 0
      → (decide g w l k).gate.degrade_stage ≡ 0
  decide_stays h c a z =
      rw (decide_healthy g w l k h c a)
        (rw z (ground (arith, settle_no_further (healthier g) w l k)))

  -- One calm window: the gate is, or stays, at stage 0, or needs fewer windows than before.
  decide_calm :
      g.target_hz ≤ w.min_p95_hz
      → cooling g w.now ≡ false
      → g.adaptive_rebalance ≡ true
      → let o = decide g w l k in
        (o.gate.degrade_stage ≡ 0) ⊎ (windows_needed o.gate o.knobs < windows_needed g k)
  decide_calm h c a =
      let o = decide g w l k in
      ground (
        arith,
        decide_progress g w l k h c a,
        decide-Keeps g w l k h c a,
        fewer_needed (distance g k) (distance o.gate o.knobs) (patience g) g.healthy_windows
            o.gate.healthy_windows,
        waits_less (distance g k) (distance o.gate o.knobs) (patience g) g.healthy_windows,
      )

mul_le : (a b c : ℕ) → a ≤ b → a * c ≤ b * c
mul_le a b c h = grind arith

le-mul_suc : (d r : ℕ) → d ≤ d * suc r
le-mul_suc d r = grind arith

still_cooling :
    (g : HealthGate) (t now : ℕ)
    → g.last_rebalance_at ≤ t
    → t + 1000 * max 1 g.rebalance_cooldown_sec ≤ now
    → cooling g now ≡ false
still_cooling g t now h c =
    le→ltb (now - g.last_rebalance_at) (1000 * max 1 g.rebalance_cooldown_sec) (omega arith)

-- Off Binance, what the worker adopts is no further from the bases.
adopt_no_further :
    (l : Limits) (g : HealthGate) (k : Knobs)
    → 1 ≤ g.base_shard_count
    → distance g (adopt false l k) ≤ distance g k
unfolding adopt normalize_order_book_limit
adopt_no_further l g k b = omega arith

adopt_needs :
    (l : Limits) (g : HealthGate) (k : Knobs)
    → 1 ≤ g.base_shard_count
    → windows_needed g (adopt false l k) ≤ windows_needed g k
adopt_needs l g k b =
    let m : distance g (adopt false l k) * suc (patience g) ≤ distance g k * suc (patience g) =
      mul_le (distance g (adopt false l k)) (distance g k) (suc (patience g))
        (adopt_no_further l g k b) in
    omega (arith, m)

run_recovers_from :
    (target cooldown : ℕ) (l : Limits) (ws : List Window) (t : ℕ) (g : HealthGate) (k : Knobs)
    → g.target_hz ≡ target
    → g.rebalance_cooldown_sec ≡ cooldown
    → g.adaptive_rebalance ≡ true
    → 1 ≤ g.base_shard_count
    → g.last_rebalance_at ≤ t
    → IsCalm target cooldown t ws
    → (g.degrade_stage ≡ 0) ⊎ (windows_needed g k ≤ length ws)
    → (run false g l k ws).0.degrade_stage ≡ 0
unfolding run
run_recovers_from target cooldown l [] t g k et ec a b h calm (inl z) = z
run_recovers_from target cooldown l [] t g k et ec a b h calm (inr n) =
    omega (arith, le-mul_suc (distance g k) (patience g))
run_recovers_from target cooldown l (w ∷ ws) t g k et ec a b h calm n =
    let o = decide g w l k in
    let reached : g.target_hz ≤ w.min_p95_hz = rw et calm.0 in
    let past : t + 1000 * max 1 g.rebalance_cooldown_sec ≤ w.now = rw ec calm.1 in
    let off : cooling g w.now ≡ false = still_cooling g t w.now h past in
    let keeps = decide-Keeps g w l k reached off a in
    run_recovers_from target cooldown l ws w.now o.gate (adopt false l o.knobs)
      (ground (arith, keeps)) (ground (arith, keeps)) (ground (arith, keeps))
      (ground (arith, keeps)) (ground (arith, keeps)) calm.2
      (ground (
        arith,
        decide_stays g w l k reached off a,
        decide_calm g w l k reached off a,
        adopt_needs l o.gate o.knobs (ground (arith, keeps)),
      ))

-- On an adaptive gate with a base of one shard or more, on an exchange other than Binance, healthy
-- windows that come a cooldown or more apart end the recovery: after `windows_needed` of them, or
-- more, the stage is 0.
pub run_recovers :
    (l : Limits) (ws : List Window) (g : HealthGate) (k : Knobs)
    → g.adaptive_rebalance ≡ true
    → 1 ≤ g.base_shard_count
    → IsCalm g.target_hz g.rebalance_cooldown_sec g.last_rebalance_at ws
    → windows_needed g k ≤ length ws
    → (run false g l k ws).0.degrade_stage ≡ 0
run_recovers l ws g k a b calm n =
    run_recovers_from g.target_hz g.rebalance_cooldown_sec l ws g.last_rebalance_at g k refl refl a
      b (omega arith) calm (inr n)
