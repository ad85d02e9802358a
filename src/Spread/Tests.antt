-- ===== src/Spread/Tests.antt =====
-- Runs of the spread arbitrage engine with whole numbers, and its theorems at concrete inputs.
use arbitrage_station.Base.{
  ℕ, ◌+◌, ◌-◌, ◌*◌, ◌/◌, ◌≡◌, refl, String, Bool, true, false, Option, none, some, List, [], ◌∷◌,
  arith, ltb, leb, ◌==◌, length,
}
use arbitrage_station.Trading.Store.{Session, buy, sell}
use arbitrage_station.Spread.{
  Market, SpreadPosition, SpreadStatus, SpreadWorld, Sent, LegCall, place_leg, Fill, Venue,
  in_cooldown, mentions_stop_loss,
}
use arbitrage_station.Spread.Entry.{SpreadConfig, Opportunity}
use arbitrage_station.Spread.Entry.Orders.{open_each, place_spread}
use arbitrage_station.Spread.Entry.Caps.{IsCapped}
use arbitrage_station.Spread.Round.{round-IsCapped}
use arbitrage_station.Spread.Entry.Naked.{IsAccounted, place_spread_hedged}
use arbitrage_station.Spread.Exit.Checks.{ExitConfig, check_exits}
use arbitrage_station.Spread.Exit.Legs.{Backed}
use arbitrage_station.Spread.Exit.Checks.Backed.{check_exits-IsBacked}
use arbitrage_station.Spread.Cooldown.{Unmentioned, never_cools_down}

abbrev units : Market
units = record {
  Number = ℕ;
  nothing = 0;
  is_zero = λ a. a == 0;
  positive = λ a. ltb 0 a;
  at_most = λ a b. leb a b;
  add = λ a b. a + b;
  sub = λ a b. a - b;
  mul = λ a b. a * b;
  div = λ a b. a / b;
  percent = λ a b. a * b / 100;
  abs = λ a. a;
  round4 = λ a. a;
  round6 = λ a. a;
  hundred = 100;
  fee_rate = 0;
  min_notional = 6;
}

abbrev deal : Fill ℕ
deal = record { average = some 10; price = none; filled = some 5; amount = none }

-- The long leg, on exchange 2, is refused, and so is every close of the short one.
abbrev one_sided : Sent ℕ → LegCall ℕ → Option (Fill ℕ)
one_sided s (place_leg _ _ sell _) = some deal
one_sided s _ = none

abbrev all_filled : Sent ℕ → LegCall ℕ → Option (Fill ℕ)
all_filled s c = some deal

abbrev venue : (Sent ℕ → LegCall ℕ → Option (Fill ℕ)) → Venue ℕ
venue answer = record {
  answer = answer;
  fetch_positions = λ s e sym. some [];
  free_usdt = λ s e. 1000;
  get_price = λ s e sym. 10;
  spread_stats = λ s sym a b. none;
  secs_to_funding = λ s sym e. some 60;
}

abbrev settings : SpreadConfig ℕ
settings = record {
  entry_z = 2;
  min_volume_usd = 0;
  cooldown_secs = 1800;
  use_hedge_mode = true;
  max_open_strategies = 5;
  max_positions = 1;
  position_pct = 5;
  tp_z_delta = 3;
}

abbrev exits : ExitConfig ℕ
exits = record {
  exit_z = 1;
  stop_z_delta = 2;
  stop_z = 3;
  pre_settle_secs = 600;
  details = λ k p a b. "10 min";
}

abbrev chance : String → Opportunity ℕ
chance sym = record {
  symbol = sym;
  high_exchange_id = 1;
  low_exchange_id = 2;
  z_score = some 4;
  current_spread_pct = 1;
  net_profit_pct = 1;
  min_volume_usd = 0;
}

abbrev two_exchanges : Session ℕ
two_exchanges = record {
  autoflush = false;
  exchanges = (record { id = 1; name = "okx" }) ∷ (record { id = 2; name = "gate" }) ∷ [];
  strategies = [];
  positions = [];
  trades = [];
  next_id = 1;
}

abbrev row : SpreadStatus → Bool → SpreadPosition ℕ
row st done = record {
  id = 1;
  symbol = "BTC/USDT:USDT";
  high_exchange_id = 1;
  low_exchange_id = 2;
  entry_spread_pct = 1;
  entry_z_score = 4;
  take_profit_z = 1;
  position_size_usd = 50;
  short_size_base = 5;
  long_size_base = 5;
  short_entry_price = 10;
  long_entry_price = 10;
  short_current_price = 10;
  long_current_price = 10;
  unrealized_pnl_usd = 0;
  realized_pnl_usd = 0;
  status = st;
  close_reason = "";
  short_closed = false;
  long_closed = done;
  closed_at = none;
}

abbrev world : List (SpreadPosition ℕ) → SpreadWorld ℕ
world ps = record {
  db = two_exchanges;
  spreads = ps;
  next_spread_id = 2;
  sent = [];
  last_recover_attempt = [];
}

-- An entry opens one position, and the cap of one keeps the second opportunity out.
opened_one :
    length
      (open_each units
        (venue all_filled)
        0
        settings
        (chance "A" ∷ chance "B" ∷ [])
        (world [])).spreads
    ≡ 1
unfolding open_each in_cooldown
opened_one = refl

round-IsCapped_example :
    IsCapped 1
      (open_each units (venue all_filled) 0 settings (chance "A" ∷ chance "B" ∷ []) (
        check_exits units
          (venue all_filled)
          0
          exits
          (world (row SpreadStatus.opened false ∷ [])))).spreads
round-IsCapped_example =
    round-IsCapped units (venue all_filled) 0 exits settings (chance "A" ∷ chance "B" ∷ [])
      (world (row SpreadStatus.opened false ∷ []))
      (record { few = omega arith; single = λ sym. ground arith })

-- The long order is refused three times, and the short leg is closed again.
abbrev no_long : Sent ℕ → LegCall ℕ → Option (Fill ℕ)
no_long _ (place_leg _ _ buy _) = none
no_long s c = all_filled s c

place_spread_hedged_example :
    IsAccounted units
      (chance "A")
      50
      10
      10
      (world [])
      (place_spread units (venue no_long) settings (chance "A") 4 50 10 10 (world []))
place_spread_hedged_example =
    place_spread_hedged units (venue no_long) settings (chance "A") 4 50 10 10 (world [])
      (λ b h. h, λ b h. h)

abbrev rows : List (SpreadPosition ℕ)
rows = row SpreadStatus.opened false ∷ row SpreadStatus.error false ∷ []

check_exits-IsBacked_example :
    Backed units
      (venue all_filled)
      two_exchanges
      (check_exits units (venue all_filled) 900 exits (world rows)).spreads
      (check_exits units (venue all_filled) 900 exits (world rows)).sent
check_exits-IsBacked_example =
    check_exits-IsBacked units (venue all_filled) 900 exits (world rows) (
      record { marked = refl; legs = (refl, refl) },
      (record { marked = refl; legs = (refl, refl) }, tt),
    )

never_cools_down_example :
    let w' = check_exits units (venue all_filled) 900 exits (world rows) in
    (in_cooldown 901 w'.spreads "BTC/USDT:USDT" 1 2 3600 ≡ false) × Unmentioned w'.spreads
unfolding mentions_stop_loss
never_cools_down_example =
    never_cools_down units (venue all_filled) 900 exits (world rows) 901 "BTC/USDT:USDT" 1 2 3600
      (λ k p a b. refl) (refl, (refl, tt))
