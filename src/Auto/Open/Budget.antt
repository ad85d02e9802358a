-- ===== src/Auto/Open/Budget.antt =====
-- What the opens take from the balance of an exchange.
use mathlib.Core.Option.{some-injective}
use arbitrage_station.Base.{
  ℕ, ◌+◌, ◌≤◌, ◌≡◌, ◌≢◌, refl, ◌∙◌, sym, ap, true, ◌&&◌, ◌||◌, not, Option, none, some, List, [],
  ◌∷◌, ◌==◌, ltb, if◌then◌else◌, max, min, All, arith, if-both, Option-cases, Bool-cases, inl, inr,
  ==→eq,
}
use arbitrage_station.Auto.{Result, returned, threw, OpenPlan}
use arbitrage_station.Auto.Open.{
  AccountBalance, OpenDesk, OpenCaches, extract_available_usdt, estimate_ratio, perp_of, spot_of,
  cap_by_legs, cap_open_size, consume_available, OpenLists, Opening, skip, did, refused, open_one,
  open_plans, execute_open_plan, put, find_ratio, max_by_perp, max_by_both, capped_by, add_opening,
  less, or_zero, spot_read, perp_read, keep_read, no_caches,
}

-- What the opened pairs take from the balance of the exchange `e` for their spot legs
abbrev pub spot_spent : ℕ → List (OpenPlan × ℕ) → ℕ
spot_spent e [] = 0
spot_spent e ((p, n) ∷ ps) = (if p.long_exchange_id == e then n else 0) + spot_spent e ps

-- A pair on two exchanges that are given
abbrev pub IsCross : OpenPlan → Type 0
IsCross p =
    (p.long_exchange_id ≢ 0)
    × (p.short_exchange_id ≢ 0)
    × (p.long_exchange_id ≢ p.short_exchange_id)

-- Every exchange is known, no balance of a perpetual account raises, and the spot balance of `e` is `b`.
pub record CanRead {D : Type 0} (desk : OpenDesk D) (e : ℕ) (b : AccountBalance) : Type 0 where
  pub known : (i : ℕ) → desk.exists i ≡ true
  pub perps : (i : ℕ) (w : D) → (desk.perp_balance i w).0 ≢ threw
  pub spot : (w : D) → (desk.spot_balance e w).0 ≡ returned b

module _ {D : Type 0} (desk : OpenDesk D) (e : ℕ) (b : AccountBalance) (h : CanRead desk e b) where
  abbrev left : Option ℕ → ℕ
  left none = extract_available_usdt b
  left (some a) = a

  -- What is left for spot legs on `e`
  abbrev room : OpenCaches → ℕ
  room c = left (c.spot_available e)

  abbrev Covers : OpenPlan → ℕ → OpenCaches → OpenCaches → Type 0
  Covers p n c c' =
      (room c' ≡ room c) × (p.long_exchange_id ≡ e → n ≤ or_zero (c'.spot_available e))

  kept :
      (i : ℕ) (r : Option ℕ) (cache : ℕ → Option ℕ)
      → cache i ≡ none
      → (i ≡ e → r ≡ some (extract_available_usdt b))
      → (left (keep_read i r cache e) ≡ left (cache e))
        × (i ≡ e → r ≡ some (or_zero (keep_read i r cache e)))
  kept i none cache n same = (refl, λ ie. let bad = same ie in cc)
  kept i (some a) cache n same = elim (Bool-cases (i == e)) [
    | inl at ↦
        let ie = ==→eq i e at in
        let none_at : cache e ≡ none = sym (ap cache ie) ∙ n in
        rw (at, none_at) (some-injective _ _ (same ie), λ _. refl)
    | inr away ↦ rw away (refl, λ ie. ground arith)
  ]

  read_same :
      (i : ℕ) (w : D)
      → i ≡ e
      → spot_read (desk.spot_balance i w).0 ≡ some (extract_available_usdt b)
  unfolding spot_read
  read_same i w ie = rw (ie, h.spot w) refl

  perp_read_some : (r : Result (Option AccountBalance)) → r ≢ threw → perp_read r ≢ none
  unfolding perp_read
  perp_read_some threw fine bad = fine refl
  perp_read_some (returned none) fine bad = cc
  perp_read_some (returned (some x)) fine bad = cc

  spot_of-room :
      (i : ℕ) (c : OpenCaches) (w : D)
      → let (r, (c', w')) = spot_of desk i (c, w) in
        (room c' ≡ room c) × (i ≡ e → r ≡ some (or_zero (c'.spot_available e)))
  unfolding spot_of
  spot_of-room i c w = elim (Option-cases (c.spot_available i)) [
    | inl n ↦
        rw (spot_of, n)
          (kept i (spot_read (desk.spot_balance i w).0) c.spot_available n (read_same i w))
    | inr (a, n) ↦
        rw (spot_of, n)
          (
            refl,
            λ ie.
                let q : c.spot_available e ≡ some a = sym (ap c.spot_available ie) ∙ n in rw q refl,
          )
  ]

  ratio_room :
      (p : OpenPlan) (st : OpenCaches × D)
      → (estimate_ratio desk p st).1.0.spot_available ≡ st.0.spot_available
  unfolding estimate_ratio
  ratio_room p (c, w) =
      elim (Option-cases (find_ratio p.long_exchange_id p.short_exchange_id p.symbol c.ratios)) [
        | inl n ↦ rw (estimate_ratio, n) refl
        | inr (r, n) ↦ rw (estimate_ratio, n) refl
      ]

  perp_room :
      (i : ℕ) (st : OpenCaches × D) → (perp_of desk i st).1.0.spot_available ≡ st.0.spot_available
  unfolding perp_of
  perp_room i (c, w) = elim (Option-cases (c.perp_available i)) [
    | inl n ↦ rw (perp_of, n) refl
    | inr (a, n) ↦ rw (perp_of, n) refl
  ]

  perp_reads : (i : ℕ) (st : OpenCaches × D) → (perp_of desk i st).0 ≢ none
  unfolding perp_of
  perp_reads i (c, w) = elim (Option-cases (c.perp_available i)) [
    | inl n ↦ rw (perp_of, n) (perp_read_some (desk.perp_balance i w).0 (h.perps i w))
    | inr (a, n) ↦ rw (perp_of, n) λ bad. cc
  ]

  within : (n m s : ℕ) → capped_by n m (some s) ≤ s
  within n m s = omega arith

  -- The cap keeps what is left, and for a pair on two exchanges it is within what is left.
  legs_cover :
      (p : OpenPlan) (n ratio perp : ℕ) (c : OpenCaches) (w : D)
      → IsCross p
      → let (size, (c', w')) = cap_by_legs desk p n ratio perp (c, w) in Covers p size c c'
  unfolding cap_by_legs
  legs_cover p n ratio perp c w cross =
      let i = p.long_exchange_id in
      let j = p.short_exchange_id in
      let asked : OpenCaches = record c { unified = put j (desk.is_unified j) c.unified } in
      let r = spot_of-room i asked w in
      let P : ℕ × (OpenCaches × D) → Type 0 = λ out. Covers p out.0 c out.1.0 in
      if-both P (perp == 0) {x = (0, (c, w))} (λ _. (refl, λ _. omega arith))
        λ _.
          if-both P ((i == j) && desk.is_unified j)
            {x = (min n (max_by_both perp ratio), (asked, w))} (λ same. ground (arith, cross.2))
            λ _. (r.0, λ ie. rw (r.1 ie) (within n (max_by_perp perp ratio) _))

  size-Covers :
      (p : OpenPlan) (n : ℕ) (c : OpenCaches) (w : D)
      → IsCross p
      → let ((size, ratio), (c', w')) = cap_open_size desk p n (c, w) in Covers p size c c'
  unfolding cap_open_size
  size-Covers p n c w cross =
      let st1 = (estimate_ratio desk p (c, w)).1 in
      let P : (ℕ × ℕ) × (OpenCaches × D) → Type 0 = λ out. Covers p out.0.0 c out.1.0 in
      let st2 = (perp_of desk p.short_exchange_id st1).1 in
      let same : st2.0.spot_available ≡ c.spot_available =
        perp_room p.short_exchange_id st1 ∙ ratio_room p (c, w) in
      elim (Option-cases (perp_of desk p.short_exchange_id st1).0) [
        | inl bad ↦ absurd (perp_reads p.short_exchange_id st1 bad)
        | inr (a, read) ↦
            rw (cap_open_size, read)
              (let i = p.long_exchange_id in
                let j = p.short_exchange_id in
                let ratio = (estimate_ratio desk p (c, w)).0 in
                let out = cap_by_legs desk p n ratio a st2 in
                let l = legs_cover p n ratio a st2.0 st2.1 cross in
                if-both P ((i == 0) || (j == 0)) {x = ((n, 10_000), (c, w))}
                  (λ bad. ground (arith, cross.0, cross.1, bad))
                  λ _.
                    if-both P (not (desk.exists i && desk.exists j)) {x = ((n, 10_000), (c, w))}
                      (λ bad. ground (arith, h.known i, h.known j, bad))
                      λ _. (l.0 ∙ ap (λ (m : ℕ → Option ℕ). left (m e)) same, l.1))
      ]

  take_le : (n : ℕ) (o : Option ℕ) → n ≤ or_zero o → n + left (less n o) ≤ left o
  take_le n none le = omega (arith, le)
  take_le n (some a) le = omega (arith, le)

  consume_keeps :
      (p : OpenPlan) (n ratio : ℕ) (c : OpenCaches)
      → IsCross p
      → (p.long_exchange_id ≡ e → n ≤ or_zero (c.spot_available e))
      → (if p.long_exchange_id == e then n else 0) + room (consume_available p n ratio c) ≤ room c
  unfolding consume_available
  consume_keeps p n ratio c cross fits =
      let P : OpenCaches → Type 0 =
        λ c'. (if p.long_exchange_id == e then n else 0) + room c' ≤ room c in
      let i = p.long_exchange_id in
      let j = p.short_exchange_id in
      if-both P ((n == 0) || ((i == 0) || (j == 0))) {x = c}
        (λ bad. ground (arith, cross.0, cross.1, bad))
        λ _.
          if-both P ((i == j) && c.unified j) (λ same. ground (arith, cross.2))
            λ _. elim (Bool-cases (i == e)) [
              | inl at ↦
                  let ie = ==→eq i e at in
                  rw (at, ap c.spot_available ie) (take_le n (c.spot_available e) (fits ie))
              | inr away ↦ rw away (omega arith)
            ]

  taken : OpenPlan → Opening → ℕ
  taken p (did n) = if p.long_exchange_id == e then n else 0
  taken p skip = 0
  taken p (refused n x) = 0

  one_keeps :
      (max_pair : ℕ) (p : OpenPlan) (c : OpenCaches) (w : D)
      → IsCross p
      → let (o, (c', w')) = open_one desk max_pair p (c, w) in taken p o + room c' ≤ room c
  unfolding open_one taken
  one_keeps max_pair p c w cross =
      let asked = min p.size_usd max_pair in
      let cap = cap_open_size desk p asked (c, w) in
      let l = size-Covers p asked c w cross in
      let P : Opening × (OpenCaches × D) → Type 0 = λ out. taken p out.0 + room out.1.0 ≤ room c in
      elim (Option-cases (desk.open_hedged p cap.0.0 cap.1.1).0) [
        | inl ok ↦
            rw (open_one, ok)
              (if-both P (asked == 0) {x = (skip, (c, w))} (λ _. omega arith)
                λ _.
                  if-both P (ltb cap.0.0 50_000) {x = (skip, cap.1)} (λ _. omega (arith, l.0))
                    λ _. omega (arith, l.0, consume_keeps p cap.0.0 cap.0.1 cap.1.0 cross l.1))
        | inr (x, denied) ↦
            rw (open_one, denied)
              (if-both P (asked == 0) {x = (skip, (c, w))} (λ _. omega arith)
                λ _.
                  if-both P (ltb cap.0.0 50_000) {x = (skip, cap.1)} (λ _. omega (arith, l.0))
                    λ _. omega (arith, l.0))
      ]

  spent_add :
      (p : OpenPlan) (o : Opening) (l : OpenLists)
      → spot_spent e (add_opening p o l).done ≡ taken p o + spot_spent e l.done
  unfolding taken
  spent_add p (did n) l = refl
  spent_add p skip l = omega arith
  spent_add p (refused n x) l = omega arith

  each_keeps :
      (max_pair : ℕ) (ps : List OpenPlan) (st : OpenCaches × D)
      → All IsCross ps
      → let (l, st') = open_plans desk max_pair ps st in
        spot_spent e l.done + room st'.0 ≤ room st.0
  unfolding open_plans
  each_keeps max_pair [] st cross = omega arith
  each_keeps max_pair (p ∷ ps) (c, w) cross =
      let (o, st1) = open_one desk max_pair p (c, w) in
      let (l, st2) = open_plans desk max_pair ps st1 in
      let total : spot_spent e (add_opening p o l).done ≡ taken p o + spot_spent e l.done =
        spent_add p o l in
      omega (arith, total, one_keeps max_pair p c w cross.0, each_keeps max_pair ps st1 cross.1)

  -- Every exchange is known, no balance of a perpetual account raises, the spot balance of an exchange reads the
  -- same whenever it is read, and the two legs of each plan are on different exchanges. Then the pairs
  -- opened with their spot legs on that exchange take together at most its balance.
  pub spot_within :
      (max_pair : ℕ) (ps : List OpenPlan) (w : D)
      → All IsCross ps
      → spot_spent e (execute_open_plan desk max_pair ps w).0.done ≤ extract_available_usdt b
  unfolding execute_open_plan
  spot_within max_pair ps w cross =
      omega (arith, each_keeps (max 10_000 max_pair) ps (no_caches, w) cross)
