-- ===== src/Funding/Allocation.antt =====
-- How a funding payment is shared out among the strategies that held a position on its exchange
-- (`resolve_assignment_allocations` of backend/core/pnl_v2_logic.py).
--
-- Notionals are in cents; a negative or missing one counts as 0 in the source. A ratio is a share over
-- the whole.
use arbitrage_station.Base.{
  ℕ, ◌+◌, ◌≡◌, ◌≢◌, refl, Bool, true, ◌&&◌, ◌||◌, Option, none, some, List, [], ◌∷◌, ◌==◌, ltb, leb,
  arith, if◌then◌else◌,
}

pub record AttributionCandidate : Type 0 where
  pub strategy_id : ℕ
  pub position_id : Option ℕ
  pub notional : ℕ
  pub strategy_created_at : ℕ

pub record Merged : Type 0 where
  pub strategy_id : ℕ
  pub position_id : Option ℕ
  pub notional : ℕ
  pub created_at : ℕ

pub record Allocation : Type 0 where
  pub strategy_id : ℕ
  pub position_id : Option ℕ
  pub share : ℕ

-- The allocations with the whole that their shares are parts of.
pub record Allocations : Type 0 where
  pub rows : List Allocation
  pub whole : ℕ

abbrev position_or : Option ℕ → Option ℕ → Option ℕ
position_or none b = b
position_or (some a) _ = some a

abbrev absorb : AttributionCandidate → Merged → Merged
absorb c r = record {
  strategy_id = r.strategy_id;
  position_id = position_or r.position_id c.position_id;
  notional = r.notional + c.notional;
  created_at =
      if ltb c.strategy_created_at r.created_at then c.strategy_created_at else r.created_at;
}

abbrev first_of : AttributionCandidate → Merged
first_of c = record {
  strategy_id = c.strategy_id;
  position_id = c.position_id;
  notional = c.notional;
  created_at = c.strategy_created_at;
}

-- `merged.setdefault(c.strategy_id, …)` and what follows it; a dict keeps the order of insertion
merge_one : AttributionCandidate → List Merged → List Merged
merge_one c [] = first_of c ∷ []
merge_one c (r ∷ rs) =
    let rest = merge_one c rs in
    if r.strategy_id == c.strategy_id then absorb c r ∷ rs else r ∷ rest

merge_all : List AttributionCandidate → List Merged → List Merged
unfolding merge_one
merge_all [] rs = rs
merge_all (c ∷ cs) rs = merge_all cs (merge_one c rs)

-- `(-notional, created_at, strategy_id)` of one not after that of the other
abbrev not_after : Merged → Merged → Bool
not_after a b =
    ltb b.notional a.notional
    || (a.notional == b.notional
        && (ltb a.created_at b.created_at
            || (a.created_at == b.created_at && leb a.strategy_id b.strategy_id)))

insert_row : Merged → List Merged → List Merged
insert_row x [] = x ∷ []
insert_row x (y ∷ ys) = let rest = insert_row x ys in if not_after x y then x ∷ y ∷ ys else y ∷ rest

sort_rows : List Merged → List Merged
unfolding insert_row
sort_rows [] = []
sort_rows (x ∷ xs) = insert_row x (sort_rows xs)

-- The notional of the strategies that a test picks.
abbrev notional_if : (ℕ → Bool) → List Merged → ℕ
notional_if p [] = 0
notional_if p (r ∷ rs) = (if p r.strategy_id then r.notional else 0) + notional_if p rs

abbrev pub any_strategy : ℕ → Bool
any_strategy _ = true

abbrev shares : List Merged → List Allocation
shares [] = []
shares (r ∷ rs) =
    record { strategy_id = r.strategy_id; position_id = r.position_id; share = r.notional }
    ∷ shares rs

abbrev winner : List Merged → List Allocation
winner [] = []
winner (r ∷ _) = record { strategy_id = r.strategy_id; position_id = r.position_id; share = 1 } ∷ []

pub resolve_assignment_allocations : List AttributionCandidate → Allocations
unfolding merge_all sort_rows
resolve_assignment_allocations cs =
    let rows = sort_rows (merge_all cs []) in
    let total = notional_if any_strategy rows in
    if total == 0
    then record { rows = winner rows; whole = 1 }
    else record { rows = shares rows; whole = total }

-- The candidates' own notional, and the share that strategies get.
abbrev pub held_by : (ℕ → Bool) → List AttributionCandidate → ℕ
held_by p [] = 0
held_by p (c ∷ cs) = (if p c.strategy_id then c.notional else 0) + held_by p cs

abbrev pub share_of : (ℕ → Bool) → List Allocation → ℕ
share_of p [] = 0
share_of p (a ∷ more) = (if p a.strategy_id then a.share else 0) + share_of p more

module _ (i : ℕ) where
  merge_one-notional :
      (c : AttributionCandidate) (rs : List Merged)
      → notional_if (λ j. j == i) (merge_one c rs)
        ≡ (if c.strategy_id == i then c.notional else 0) + notional_if (λ j. j == i) rs
  unfolding merge_one
  merge_one-notional c [] = ground arith
  merge_one-notional c (r ∷ rs) = ground (arith, merge_one-notional c rs)

merge_one-total :
    (c : AttributionCandidate) (rs : List Merged)
    → notional_if any_strategy (merge_one c rs) ≡ c.notional + notional_if any_strategy rs
unfolding merge_one
merge_one-total c [] = ground arith
merge_one-total c (r ∷ rs) = ground (arith, merge_one-total c rs)

merge_all-notional :
    (i : ℕ) (cs : List AttributionCandidate) (rs : List Merged)
    → notional_if (λ j. j == i) (merge_all cs rs)
      ≡ held_by (λ j. j == i) cs + notional_if (λ j. j == i) rs
unfolding merge_all
merge_all-notional i [] rs = ground arith
merge_all-notional i (c ∷ cs) rs =
    ground (arith, merge_all-notional i cs (merge_one c rs), merge_one-notional i c rs)

merge_all-total :
    (cs : List AttributionCandidate) (rs : List Merged)
    → notional_if any_strategy (merge_all cs rs)
      ≡ held_by any_strategy cs + notional_if any_strategy rs
unfolding merge_all
merge_all-total [] rs = ground arith
merge_all-total (c ∷ cs) rs =
    ground (arith, merge_all-total cs (merge_one c rs), merge_one-total c rs)

module _ (p : ℕ → Bool) where
  insert_row-notional :
      (x : Merged) (rs : List Merged) → notional_if p (insert_row x rs) ≡ notional_if p (x ∷ rs)
  unfolding insert_row
  insert_row-notional x [] = refl
  insert_row-notional x (y ∷ ys) = ground (arith, insert_row-notional x ys)

  sort_rows-notional : (rs : List Merged) → notional_if p (sort_rows rs) ≡ notional_if p rs
  unfolding sort_rows
  sort_rows-notional [] = refl
  sort_rows-notional (x ∷ xs) =
      ground (arith, insert_row-notional x (sort_rows xs), sort_rows-notional xs)

  share_of-shares : (rs : List Merged) → share_of p (shares rs) ≡ notional_if p rs
  share_of-shares [] = refl
  share_of-shares (r ∷ rs) = ground (arith, share_of-shares rs)

-- If the candidates hold anything, the whole is what they hold together, the shares add up to it, and each
-- strategy's share is what its own candidates hold.
pub shares_proportional :
    (cs : List AttributionCandidate) (i : ℕ)
    → held_by any_strategy cs ≢ 0
    → let o = resolve_assignment_allocations cs in
      (o.whole ≡ held_by any_strategy cs)
      × (share_of any_strategy o.rows ≡ o.whole)
      × (share_of (λ j. j == i) o.rows ≡ held_by (λ j. j == i) cs)
unfolding resolve_assignment_allocations
shares_proportional cs i h =
    let merged = merge_all cs [] in
    let rows = sort_rows merged in
    ground (
      arith,
      merge_all-total cs [],
      merge_all-notional i cs [],
      sort_rows-notional any_strategy merged,
      sort_rows-notional (λ j. j == i) merged,
      share_of-shares any_strategy rows,
      share_of-shares (λ j. j == i) rows,
    )
