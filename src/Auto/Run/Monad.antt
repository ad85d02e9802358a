-- ===== src/Auto/Run/Monad.antt =====
-- A step of a cycle: the state, and what it returns or that it raised.
use arbitrage_station.Base.{Option, none, some, ◌∷◌}
use arbitrage_station.Auto.{Result, returned, threw, Order, Engine, Run}

infixl 5 ◌>>=◌ ◌>>◌
unfoldable pub ◌>>=◌ : {D A B : Type 0} → Run D A → (A → Run D B) → Run D B
◌>>=◌ m f s = let (r, s') = m s in elim r [ returned a ↦ f a s' | threw ↦ (threw, s') ]

abbrev pub ◌>>◌ : {D A B : Type 0} → Run D A → Run D B → Run D B
m >> k = m >>= λ _. k

module _ {D A : Type 0} where
  abbrev pub pure : A → Run D A
  pure a s = (returned a, s)

  abbrev pub gets : (Engine D → A) → Run D A
  gets f s = (returned (f s), s)

  -- A step that knows only the world
  abbrev pub call : (D → Result A × D) → Run D A
  call f s = let (r, w) = f s.world in (r, record s { world = w })

abbrev pub modify : {D : Type 0} → (Engine D → Engine D) → Run D Unit
modify f s = (returned tt, f s)

abbrev pub log : {D : Type 0} → Order → Run D Unit
log o = modify λ s. record s { orders = o ∷ s.orders }

-- A step whose raise is caught
abbrev pub caught : {D A : Type 0} → Run D A → Run D (Option A)
caught m s =
    let (r, s') = m s in
    elim r [ returned a ↦ (returned (some a), s') | threw ↦ (returned none, s') ]
