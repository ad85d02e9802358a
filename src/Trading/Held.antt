-- ===== src/Trading/Held.antt =====
-- Which leg the exchanges hold, read from the requests and their answers. A leg is given by the requests
-- that open it and those that close it whole, with the exchange, the symbol, the side and the size.
use arbitrage_station.Base.{◌⊎◌, inl, inr, Option, none, some, List, [], ◌∷◌}

module _ {C X : Type 0} (opens : C → X → Type 0) (closes : C → Type 0) where
  -- The latest answered request that opens or closes the leg opened it. The latest stands first.
  abbrev pub Held : List (C × Option X) → Type 0
  Held [] = ⊥
  Held ((c, none) ∷ sent) = Held sent
  Held ((c, some x) ∷ sent) = opens c x ⊎ ((¬ closes c) × Held sent)

  pub not-Held-closed :
      (c : C) (x : X) (sent : List (C × Option X))
      → ¬ opens c x
      → closes c
      → ¬ Held ((c, some x) ∷ sent)
  not-Held-closed c x sent other closed h = elim h [
    | inl o ↦ other o
    | inr (still, _) ↦ still closed
  ]

  pub not-Held-other :
      (c : C) (x : X) (sent : List (C × Option X))
      → ¬ opens c x
      → ¬ Held sent
      → ¬ Held ((c, some x) ∷ sent)
  not-Held-other c x sent other before h = elim h [ inl o ↦ other o | inr (_, b) ↦ before b ]
