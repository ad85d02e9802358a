-- ===== src/Auto/Phase/Steps.antt =====
-- The orders of one cycle, and how a step adds to them.
use arbitrage_station.Base.{◌∙◌, ap, ℕ, ◌≡◌, Bool, false, Option, none, some, List, [], ◌∷◌}
use arbitrage_station.Auto.{
  Result, returned, threw, CloseReason, delta_repair_fallback_close, portfolio_rebalance, Order,
  retried, repaired, opened, closed, Engine, Run,
}
use arbitrage_station.Auto.Run.{◌>>=◌, ◌>>◌, log, caught}

-- The orders of a cycle, the latest first, in a dry run or not: nothing; retries; repairs, and then the
-- closes of what they could not repair; the closes for one reason; or a rebalance, which opens only after
-- closes none of which failed.
pub data IsOnePhase : Bool → List Order → Type 0 where
  no_order : {dry : Bool} → IsOnePhase dry []
  retries : IsOnePhase false (retried ∷ [])
  repairs : IsOnePhase false (repaired ∷ [])
  fallback_closes_after :
      {n : ℕ} → IsOnePhase false (closed delta_repair_fallback_close n ∷ repaired ∷ [])
  closes : {r : CloseReason} {n : ℕ} → IsOnePhase false (closed r n ∷ [])
  opens : IsOnePhase false (opened ∷ closed portfolio_rebalance 0 ∷ [])

module _ {D A : Type 0} where
  -- After the orders `l`, the step ends with orders of which `Q` holds.
  abbrev pub Leads : List Order → (List Order → Type 0) → Run D A → Type 0
  Leads l Q m = (s : Engine D) → s.orders ≡ l → Q (m s).1.orders

  abbrev pub Quiet : Run D A → Type 0
  Quiet m = (s : Engine D) → (m s).1.orders ≡ s.orders

module _ {D A B : Type 0} (l : List Order) (Q : List Order → Type 0) where
  after :
      (k : A → Run D B) (r : Result A) (s : Engine D)
      → s.orders ≡ l
      → Q l
      → ((a : A) → Leads l Q (k a))
      → let out : Result B × Engine D = elim r [ returned a ↦ k a s | threw ↦ (threw, s) ] in
        Q out.1.orders
  after k (returned a) s e q h = h a s e
  after k threw s e q h = rw e q

  pub Leads-bind :
      (m : Run D A) (k : A → Run D B)
      → Quiet m
      → Q l
      → ((a : A) → Leads l Q (k a))
      → Leads l Q (m >>= k)
  unfolding ◌>>=◌
  Leads-bind m k quiet q h s e = after k (m s).0 (m s).1 (quiet s ∙ e) q h

module _ {D A B : Type 0} (l : List Order) (Q : List Order → Type 0) where
  ends :
      (k : A → Run D B) (r : Result A) (s : Engine D)
      → Q s.orders
      → ((a : A) → Quiet (k a))
      → let out : Result B × Engine D = elim r [ returned a ↦ k a s | threw ↦ (threw, s) ] in
        Q out.1.orders
  ends k (returned a) s q h = let e : (k a s).1.orders ≡ s.orders = h a s in rw e q
  ends k threw s q h = q

  pub Leads-then :
      (m : Run D A) (k : A → Run D B) → Leads l Q m → ((a : A) → Quiet (k a)) → Leads l Q (m >>= k)
  unfolding ◌>>=◌
  Leads-then m k q h s e = ends k (m s).0 (m s).1 (q s e) h

pub Leads-log :
    {D A : Type 0} (l : List Order) (Q : List Order → Type 0) (o : Order) (k : Run D A)
    → Leads (o ∷ l) Q k
    → Leads l Q (log o >> k)
unfolding ◌>>=◌
Leads-log l Q o k h s e = h _ (ap (◌∷◌ o) e)

module _ {D A B : Type 0} where
  same_after :
      {l : List Order} (k : A → Run D B) (r : Result A) (s : Engine D)
      → s.orders ≡ l
      → ((a : A) → Quiet (k a))
      → let out : Result B × Engine D = elim r [ returned a ↦ k a s | threw ↦ (threw, s) ] in
        out.1.orders ≡ l
  same_after k (returned a) s e h = h a s ∙ e
  same_after k threw s e h = e

  pub Quiet-bind :
      (m : Run D A) (k : A → Run D B) → Quiet m → ((a : A) → Quiet (k a)) → Quiet (m >>= k)
  unfolding ◌>>=◌
  Quiet-bind m k q h s = same_after k (m s).0 (m s).1 (q s) h

pub Quiet-caught : {D A : Type 0} (m : Run D A) → Quiet m → Quiet (caught m)
Quiet-caught m quiet s = caught_result (m s).0 (m s).1 (quiet s)
  where
    caught_result :
        {D A : Type 0} {l : List Order} (r : Result A) (s : Engine D)
        → s.orders ≡ l
        → let out : Result (Option A) × Engine D = elim r [
          | returned a ↦ (returned (some a), s)
          | threw ↦ (returned none, s)
        ] in
          out.1.orders ≡ l
    caught_result (returned a) s e = e
    caught_result threw s e = e
