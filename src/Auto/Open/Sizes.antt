-- ===== src/Auto/Open/Sizes.antt =====
-- The sizes of the opens.
use arbitrage_station.Base.{
  ℕ, ◌+◌, ◌≤◌, ◌≡◌, List, [], ◌∷◌, max, min, length, All, arith, Option-cases, inl, inr,
}
use arbitrage_station.Auto.{OpenPlan}
use arbitrage_station.Auto.Open.{
  OpenDesk, OpenCaches, estimate_ratio, perp_of, spot_of, cap_by_legs, cap_open_size, OpenLists,
  Opening, skip, did, refused, open_one, open_plans, execute_open_plan, put, add_opening, no_caches,
}

-- An opened pair has at least 5 USD, and at most what was asked and the limit of a pair.
abbrev pub IsSized : ℕ → OpenPlan × ℕ → Type 0
IsSized max_pair (p, n) = (50_000 ≤ n) × (n ≤ p.size_usd) × (n ≤ max_pair)

abbrev Sized : ℕ → OpenPlan → Opening → Type 0
Sized max_pair p skip = Unit
Sized max_pair p (did n) = IsSized max_pair (p, n)
Sized max_pair p (refused n e) = Unit

abbrev Accounted : ℕ → ℕ → OpenLists → Type 0
Accounted max_pair total l =
    All (IsSized max_pair) l.done × (length l.done + length l.failed + length l.skipped ≡ total)

add_accounts :
    (max_pair total : ℕ) (p : OpenPlan) (o : Opening) (l : OpenLists)
    → Sized max_pair p o
    → Accounted max_pair total l
    → Accounted max_pair (total + 1) (add_opening p o l)
add_accounts max_pair total p skip l z a = (a.0, omega (arith, a.1))
add_accounts max_pair total p (did n) l z a = ((z, a.0), omega (arith, a.1))
add_accounts max_pair total p (refused n e) l z a = (a.0, omega (arith, a.1))

module _ {D : Type 0} (desk : OpenDesk D) where
  cap_by_legs_le :
      (p : OpenPlan) (n ratio perp : ℕ) (st : OpenCaches × D)
      → (cap_by_legs desk p n ratio perp st).0 ≤ n
  unfolding cap_by_legs
  cap_by_legs_le p n ratio perp (c, w) =
      let asked : OpenCaches = record c {
        unified = put p.short_exchange_id (desk.is_unified p.short_exchange_id) c.unified;
      } in
      elim (Option-cases (spot_of desk p.long_exchange_id (asked, w)).0) [
        | inl e ↦ rw e (ground arith)
        | inr (a, e) ↦ rw e (ground arith)
      ]

  cap_open_size_le :
      (p : OpenPlan) (n : ℕ) (st : OpenCaches × D) → (cap_open_size desk p n st).0.0 ≤ n
  unfolding cap_open_size
  cap_open_size_le p n st =
      let st1 = (estimate_ratio desk p st).1 in
      elim (Option-cases (perp_of desk p.short_exchange_id st1).0) [
        | inl e ↦ rw e (ground arith)
        | inr (a, e) ↦ rw e (ground (arith, cap_by_legs_le p n))
      ]

  open_one-Sized :
      (max_pair : ℕ) (p : OpenPlan) (st : OpenCaches × D)
      → Sized max_pair p (open_one desk max_pair p st).0
  unfolding open_one
  open_one-Sized max_pair p st =
      let asked = min p.size_usd max_pair in
      let size = (cap_open_size desk p asked st).0.0 in
      let fits = cap_open_size_le p asked st in
      elim (Option-cases (desk.open_hedged p size (cap_open_size desk p asked st).1.1).0) [
        | inl e ↦ rw e (ground (arith, fits))
        | inr (x, e) ↦ rw e (ground arith)
      ]

  each_accounts :
      (max_pair : ℕ) (ps : List OpenPlan) (st : OpenCaches × D)
      → Accounted max_pair (length ps) (open_plans desk max_pair ps st).0
  unfolding open_plans
  each_accounts max_pair [] st = (tt, omega arith)
  each_accounts max_pair (p ∷ ps) st =
      let st1 = (open_one desk max_pair p st).1 in
      let total : length ps + 1 ≡ length (p ∷ ps) = omega arith in
      rw⁻¹ total (
        add_accounts max_pair (length ps) p (open_one desk max_pair p st).0
          (open_plans desk max_pair ps st1).0 (open_one-Sized max_pair p st)
          (each_accounts max_pair ps st1))

  -- Each plan ends in one of the three lists; each opened pair has at least 5 USD, and at most what its plan asks
  -- and the limit of a pair, which is at least 1 USD.
  pub opens_accounted :
      (max_pair : ℕ) (ps : List OpenPlan) (w : D)
      → let l = (execute_open_plan desk max_pair ps w).0 in
        All (IsSized (max 10_000 max_pair)) l.done
        × (length l.done + length l.failed + length l.skipped ≡ length ps)
  unfolding execute_open_plan
  opens_accounted max_pair ps w = each_accounts (max 10_000 max_pair) ps (no_caches, w)
