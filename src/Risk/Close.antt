-- ===== src/Risk/Close.antt =====
-- What the forced close of a strategy does to its orders, trades and status.
use mathlib.Core.Path.{subst}
use arbitrage_station.Base.{
  ℕ, ◌+◌, ◌≤◌, ◌≡◌, refl, ◌∙◌, ap, sym, String, Bool, true, false, ◌&&◌, Option, none, some, List,
  [], ◌∷◌, arith, map, ◌==◌, ==-refl, if◌then◌else◌, keep_if, length, length-append,
}
use arbitrage_station.Trading.Store.{
  Exchange, Position, Strategy, StrategyStatus, Session, Call, Order, Gateway, World, is_some,
  find_exchange, find_strategy, set_strategy, is_open_row, store,
}
use arbitrage_station.Risk.{
  risk_outcome, mark_risk_closing, set_closing, set_concluded, risk_close_on, risk_close_each,
  risk_close_strategy,
}

module _ {A : Type 0} where
  abbrev pub has_exchange : List Exchange → Position A → Bool
  has_exchange es p = is_some (find_exchange p.exchange_id es)

  -- How many requests were refused
  abbrev pub refused : List (Call A × Option (Order A)) → ℕ
  refused [] = 0
  refused ((c, none) ∷ s) = refused s + 1
  refused ((c, some r) ∷ s) = refused s

  -- How a loop over `n` positions with exchanges accounts for them.
  abbrev Accounted : ℕ → World A → Bool → World A → Type 0
  Accounted n w ok w' =
      (length w'.sent ≡ length w.sent + n)
      × (length w'.db.trades ≡ length w.db.trades + n)
      × (w'.db.exchanges ≡ w.db.exchanges)
      × (w'.db.strategies ≡ w.db.strategies)
      × (refused w.sent ≤ refused w'.sent)
      × ((refused w'.sent == refused w.sent) ≡ ok)

  risk_close_on-Accounted :
      (g : Gateway A) (now : ℕ) (why : String) (p : Position A) (ex : Option Exchange) (w : World A)
      → let (ok, w') = risk_close_on g now why p ex w in
        Accounted (if is_some ex then 1 else 0) w ok w'
  unfolding risk_close_on
  risk_close_on-Accounted g now why p none w = ground arith
  risk_close_on-Accounted g now why p (some ex) w = grind (arith, length-append)

  Accounted-trans :
      (m n : ℕ) (w w' w'' : World A) (ok oks : Bool)
      → Accounted m w ok w'
      → Accounted n w' oks w''
      → Accounted (m + n) w (ok && oks) w''
  Accounted-trans m n w w' w'' ok oks (a, b, c, d, e, f) (a', b', c', d', e', f') =
      (omega arith, omega arith, c' ∙ c, d' ∙ d, omega arith, ground arith)

  count_in :
      (b : Bool) (p : Position A) (ps : List (Position A)) (w : World A) (ok : Bool) (w' : World A)
      → Accounted ((if b then 1 else 0) + length ps) w ok w'
      → Accounted (length (if b then p ∷ ps else ps)) w ok w'
  count_in true p ps w ok w' (a, b, c, d, e, f) = (omega arith, omega arith, c, d, e, f)
  count_in false p ps w ok w' (a, b, c, d, e, f) = (omega arith, omega arith, c, d, e, f)

  risk_close_each-Accounted :
      (g : Gateway A) (now : ℕ) (why : String) (ps : List (Position A)) (w : World A)
      → let (ok, w') = risk_close_each g now why ps w in
        Accounted (length (keep_if (has_exchange w.db.exchanges) ps)) w ok w'
  unfolding risk_close_each
  risk_close_each-Accounted g now why [] w = ground arith
  risk_close_each-Accounted g now why (p ∷ ps) w =
      let ex = find_exchange p.exchange_id w.db.exchanges in
      let (ok, w') = risk_close_on g now why p ex w in
      let (oks, w'') = risk_close_each g now why ps w' in
      let first = risk_close_on-Accounted g now why p ex w in
      let rest = risk_close_each-Accounted g now why ps w' in
      let tail =
        subst (λ es. Accounted (length (keep_if (has_exchange es) ps)) w' oks w'') first.2 rest in
      count_in (has_exchange w.db.exchanges p) p (keep_if (has_exchange w.db.exchanges) ps) w
        (ok && oks) w''
        (Accounted-trans (if is_some ex then 1 else 0)
          (length (keep_if (has_exchange w.db.exchanges) ps)) w w' w'' ok oks first tail)

  find_strategy-set_strategy :
      (i : ℕ) (f : Strategy A → Strategy A) (ss : List (Strategy A)) (s : Strategy A)
      → ((t : Strategy A) → (f t).id ≡ t.id)
      → find_strategy i ss ≡ some s
      → find_strategy i (set_strategy i f ss) ≡ some (f s)
  find_strategy-set_strategy i f [] s same h = absurd (cc)
  find_strategy-set_strategy i f (t ∷ ss) s same h =
      ground (arith, same t, find_strategy-set_strategy i f ss s same)

  -- The open positions of a strategy, as a query finds them after a commit
  abbrev pub open_rows : ℕ → Session A → List (Position A)
  open_rows i db = keep_if (is_open_row i) (map store db.positions)

-- A forced close sends one order, and writes one trade, for each open position of the strategy whose
-- exchange has a row. The strategy ends as closed if none of these orders was refused, and with an error
-- otherwise.
pub risk_close_accounts :
    {A : Type 0} (g : Gateway A) (now : ℕ) (trade_why why : String) (i : ℕ) (w : World A)
    (s : Strategy A)
    → find_strategy i w.db.strategies ≡ some s
    → let w' = risk_close_strategy g now trade_why why i w in
      let n = length (keep_if (has_exchange w.db.exchanges) (open_rows i w.db)) in
      (length w'.sent ≡ length w.sent + n)
      × (length w'.db.trades ≡ length w.db.trades + n)
      × ((t : Strategy A) × (find_strategy i w'.db.strategies ≡ some t)
          × (t.status ≡ risk_outcome (refused w'.sent == refused w.sent)))
unfolding risk_close_strategy
risk_close_accounts g now trade_why why i w s h =
    let db = mark_risk_closing i w.db in
    let ps = keep_if (is_open_row i) db.positions in
    let (ok, w') = risk_close_each g now trade_why ps (record w { db = db }) in
    let (a, b, _, kept, _, right) =
      risk_close_each-Accounted g now trade_why ps (record w { db = db }) in
    let before = find_strategy-set_strategy i set_closing w.db.strategies s (λ t. refl) h in
    let after =
      find_strategy-set_strategy i (set_concluded now why ok) w'.db.strategies (set_closing s)
        (λ t. refl) (ap (find_strategy i) kept ∙ before) in
    (a, b, (set_concluded now why ok (set_closing s), after, ap risk_outcome (sym right)))

module _ {A : Type 0} where
  skipped :
      (g : Gateway A) (now : ℕ) (why : String) (ps : List (Position A)) (w : World A)
      → keep_if (has_exchange w.db.exchanges) ps ≡ []
      → risk_close_each g now why ps w ≡ (true, w)
  unfolding risk_close_each risk_close_on
  skipped g now why [] w h = refl
  skipped g now why (p ∷ ps) w h = ground (arith, skipped g now why ps w)

  store_twice : (ps : List (Position A)) → map store (map store ps) ≡ map store ps
  store_twice [] = refl
  store_twice (p ∷ ps) = ap (λ r. store p ∷ r) (store_twice ps)

-- If none of the strategy's open positions has an exchange row, a forced close sends nothing and leaves
-- them all open, and yet the strategy ends as closed.
risk_close_orphans :
    {A : Type 0} (g : Gateway A) (now : ℕ) (trade_why why : String) (i : ℕ) (w : World A)
    (s : Strategy A)
    → find_strategy i w.db.strategies ≡ some s
    → keep_if (has_exchange w.db.exchanges) (open_rows i w.db) ≡ []
    → let w' = risk_close_strategy g now trade_why why i w in
      (w'.sent ≡ w.sent)
      × (open_rows i w'.db ≡ open_rows i w.db)
      × ((t : Strategy A) × (find_strategy i w'.db.strategies ≡ some t)
          × (t.status ≡ StrategyStatus.closed))
unfolding risk_close_strategy
risk_close_orphans {A} g now trade_why why i w s h orphans =
    let db = mark_risk_closing i w.db in
    let none_closed =
      skipped g now trade_why (keep_if (is_open_row i) db.positions) (record w { db = db })
        orphans in
    let w' = risk_close_strategy g now trade_why why i w in
    let same_positions : w'.db.positions ≡ map store w.db.positions =
      ap (λ (r : Bool × World A). map store r.1.db.positions) none_closed
      ∙ store_twice w.db.positions in
    let (_, _, (t, found, status)) = risk_close_accounts g now trade_why why i w s h in
    let quiet : w'.sent ≡ w.sent = ap (λ (r : Bool × World A). r.1.sent) none_closed in
    (
      quiet,
      ap (λ ps. keep_if (is_open_row i) (map store ps)) same_positions
          ∙ ap (keep_if (is_open_row i)) (store_twice w.db.positions),
      (
        t,
        found,
        status
            ∙ ap (λ sent. risk_outcome (refused sent == refused w.sent)) quiet
            ∙ ap risk_outcome (==-refl (refused w.sent)),
      ),
    )
