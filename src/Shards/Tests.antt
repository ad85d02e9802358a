-- ===== src/Shards/Tests.antt =====
-- Plans of shards for a few symbols.
use Prim.Native.Char.{code}
use arbitrage_station.Base.{
  ℕ, ◌+◌, ◌*◌, ◌≤◌, ◌≡◌, refl, String, Option, none, some, List, [], ◌∷◌, All, ltb, length,
}
use arbitrage_station.Shards.{even, weighted, Weights, Snapshot}
use arbitrage_station.Shards.Sharding.{IsSharding}
use arbitrage_station.Shards.Balance.{even_balanced}

-- Weights in tenths
abbrev tenths : Weights
tenths = record {
  Number = ℕ;
  nothing = 0;
  add = λ a b. a + b;
  ten_times = λ a. 10 * a;
  tenths = λ n. n;
  below = λ a b. ltb a b;
}

abbrev symbols : List String
symbols = "A" ∷ "B" ∷ "C" ∷ "D" ∷ "E" ∷ []

abbrev heavy_last : String → Option (Snapshot ℕ)
heavy_last (String.◌∷◌ c s) = some (record { hz = code c; error_rate = 0; reconnects = 0 })
heavy_last s = none

dealt : even symbols 2 ≡ ("A" ∷ "C" ∷ "E" ∷ []) ∷ ("B" ∷ "D" ∷ []) ∷ []
unfolding even
dealt = refl

weighed : weighted tenths symbols 2 heavy_last ≡ ("E" ∷ "B" ∷ "A" ∷ []) ∷ ("D" ∷ "C" ∷ []) ∷ []
unfolding weighted
weighed = refl

even_balanced_example :
    IsSharding 2 symbols (even symbols 2)
    × ((q : ℕ) × All (λ b. (q ≤ length b) × (length b ≤ q + 1)) (even symbols 2))
even_balanced_example = even_balanced symbols 2
