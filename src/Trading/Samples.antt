-- ===== src/Trading/Samples.antt =====
-- Whole numbers as the prices and sizes of concrete runs.
use Prim.Native.Nat.{ℕ, ◌-◌, ◌*◌, ◌/◌, max}
use arbitrage_station.Base.{none, some, ◌==◌}
use arbitrage_station.Trading.Store.{Real, Order}

abbrev pub whole : Real
whole = record {
  Number = ℕ;
  zero = 0;
  one = 1;
  mul = λ a b. a * b;
  div = λ a b. a / b;
  sub = λ a b. a - b;
  max_of = λ a b. max a b;
  to_int = λ a. a;
  is_zero = λ a. a == 0;
  round12 = λ a. a;
}

abbrev pub filled : Order ℕ
filled = record { average = some 10; price = none }
