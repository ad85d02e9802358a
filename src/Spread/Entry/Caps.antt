-- ===== src/Spread/Entry/Caps.antt =====
-- How many spread positions the entries leave open.
use text.Mathlib.Text.{◌==◌ as text_eq}
use text.Mathlib.TextEquality.{eq_iff}
use arbitrage_station.Base.{
  ℕ, ◌≤◌, ◌<◌, ◌≡◌, inl, inr, refl, ap, String, Bool, true, false, ◌&&◌, not, Option, none, some,
  List, [], ◌∷◌, ◌++◌, arith, if◌then◌else◌, length, keep_if, length-keep_if-append, Bool-cases,
}
use arbitrage_station.Trading.Store.{Exchange, find_exchange}
use arbitrage_station.Spread.{
  Fill, Market, SpreadPosition, SpreadWorld, Sent, Venue, is_open_spread, count_open,
}
use arbitrage_station.Spread.Entry.{
  SpreadConfig, Opportunity, EntryResult, has_open, at_caps, refusal, unless_stopped,
}
use arbitrage_station.Spread.Entry.Orders.{
  place_spread, try_open_position, open_each, place_on, place_sized, short_leg, long_leg, size_for,
  after_orders,
}

module _ {A : Type 0} where
  abbrev pub open_in : String → SpreadPosition A → Bool
  open_in sym p = text_eq p.symbol sym && is_open_spread p

  -- The open positions in a symbol.
  abbrev pub count_symbol : String → List (SpreadPosition A) → ℕ
  count_symbol sym ps = length (keep_if (open_in sym) ps)

  -- No more open positions than the cap, and no two in one symbol.
  pub record IsCapped (cap : ℕ) (ps : List (SpreadPosition A)) : Type 0 where
    pub few : count_open ps ≤ cap
    pub single : (sym : String) → count_symbol sym ps ≤ 1

  none_open :
      (sym : String) (ps : List (SpreadPosition A))
      → has_open sym ps ≡ false
      → count_symbol sym ps ≡ 0
  none_open sym [] h = refl
  none_open sym (p ∷ ps) h = ground (arith, none_open sym ps)

  append-IsCapped :
      (cap : ℕ) (ps : List (SpreadPosition A)) (p : SpreadPosition A)
      → IsCapped cap ps
      → count_open ps < cap
      → has_open p.symbol ps ≡ false
      → IsCapped cap (ps ++ p ∷ [])
  append-IsCapped cap ps p c few free = record {
    few = ground (arith, length-keep_if-append is_open_spread ps p);
    single = λ sym. elim (Bool-cases (text_eq p.symbol sym)) [
      | inl same ↦
          let zero_ = none_open p.symbol ps free in
          let name = (eq_iff p.symbol sym).0 same in
          ground (
            arith,
            length-keep_if-append (open_in sym) ps p,
            zero_,
            ap (λ s. count_symbol s ps) name,
          )
      | inr other ↦ ground (arith, length-keep_if-append (open_in sym) ps p, c.single sym)
    ];
  }

module _ (M : Market) (v : Venue M.Number) (now : ℕ) (cfg : SpreadConfig M.Number) where
  not_refused :
      (o : Opportunity M.Number) (w : SpreadWorld M.Number)
      → refusal M now cfg o w ≡ none
      → (has_open o.symbol w.spreads ≡ false) × (count_open w.spreads < cfg.max_positions)
  unfolding refusal
  not_refused o w h = ground arith

  -- Placing leaves the rows as they were, or adds one in the opportunity's symbol.
  module _ (P : List (SpreadPosition M.Number) → Type 0) (o : Opportunity M.Number)
      (w : SpreadWorld M.Number) (old : P w.spreads)
      (grown : (p : SpreadPosition M.Number) → p.symbol ≡ o.symbol → P (w.spreads ++ p ∷ [])) where
    abbrev Keeps : EntryResult × SpreadWorld M.Number → Type 0
    Keeps r = P r.1.spreads

    after_orders_keeps :
        (z size sp lp : M.Number) (first second : Option (Fill M.Number) × Sent M.Number)
        → P (after_orders M v cfg o z size sp lp first second w).1.spreads
    after_orders_keeps z size sp lp (none, s1) second = old
    after_orders_keeps z size sp lp (some f, s1) (none, s2) = old
    after_orders_keeps z size sp lp (some f, s1) (some h, s2) = grown _ refl

    same : (r : EntryResult) → Keeps (r, w)
    same r = old

    place_spread-Keeps : (z size sp lp : M.Number) → Keeps (place_spread M v cfg o z size sp lp w)
    unfolding place_spread
    place_spread-Keeps z size sp lp =
        let first = short_leg M v o size sp w.sent in
        after_orders_keeps z size sp lp first (long_leg M v o size lp first.1)

    chosen :
        (b c : Bool) (r x y : EntryResult × SpreadWorld M.Number)
        → Keeps r
        → Keeps x
        → Keeps y
        → Keeps (if b then x else if c then r else y)
    chosen true c r x y h k m = k
    chosen false true r x y h k m = h
    chosen false false r x y h k m = m

    place_sized-Keeps : (z : M.Number) → Keeps (place_sized M v cfg o z w)
    place_sized-Keeps z =
        let size = size_for M v cfg o w in
        let sp = v.get_price w.sent o.high_exchange_id o.symbol in
        let lp = v.get_price w.sent o.low_exchange_id o.symbol in
        chosen (not (M.at_most M.min_notional size)) (M.positive sp && M.positive lp)
          (place_spread M v cfg o z size sp lp w) (EntryResult.too_small, w)
          (EntryResult.no_price, w) (place_spread-Keeps z size sp lp) (same EntryResult.too_small)
          (same EntryResult.no_price)

    place_on-Keeps :
        (z : Option M.Number) (high low : Option Exchange) → Keeps (place_on M v cfg o z high low w)
    place_on-Keeps none high low = same EntryResult.low_z
    place_on-Keeps (some z) none low = same EntryResult.exchange_not_found
    place_on-Keeps (some z) (some high) none = same EntryResult.exchange_not_found
    place_on-Keeps (some z) (some high) (some low) = place_sized-Keeps z

  stopped_keeps {ℓ κ} :
      {B : Type ℓ} (P : B → Type κ) (r : Option EntryResult) (stop : EntryResult → B) (go : B)
      → ((e : EntryResult) → P (stop e))
      → (r ≡ none → P go)
      → P (unless_stopped r stop go)
  stopped_keeps P none stop go hs hg = hg refl
  stopped_keeps P (some e) stop go hs hg = hs e

  -- A try leaves no more open positions than the cap and no two in one symbol, if it was so before.
  try_open-IsCapped :
      (o : Opportunity M.Number) (w : SpreadWorld M.Number)
      → IsCapped cfg.max_positions w.spreads
      → IsCapped cfg.max_positions (try_open_position M v now cfg o w).1.spreads
  unfolding try_open_position
  try_open-IsCapped o w c =
      stopped_keeps {B = EntryResult × SpreadWorld M.Number}
        (λ x. IsCapped cfg.max_positions x.1.spreads) (refusal M now cfg o w) (λ r. (r, w))
        (place_on M v cfg o o.z_score (find_exchange o.high_exchange_id w.db.exchanges)
          (find_exchange o.low_exchange_id w.db.exchanges) w)
        (λ r. c)
        λ free.
          let (single, few) = not_refused o w free in
          place_on-Keeps (IsCapped cfg.max_positions) o w c
            (λ p same. append-IsCapped cfg.max_positions w.spreads p c few (rw same single))
            o.z_score (find_exchange o.high_exchange_id w.db.exchanges)
            (find_exchange o.low_exchange_id w.db.exchanges)

  -- However many opportunities the entries go through and whatever the exchanges answer, if at most
  -- `max_positions` spread positions were open before and no two in one symbol, it is so afterwards.
  pub open_each-IsCapped :
      (os : List (Opportunity M.Number)) (w : SpreadWorld M.Number)
      → IsCapped cfg.max_positions w.spreads
      → IsCapped cfg.max_positions (open_each M v now cfg os w).spreads
  unfolding open_each
  open_each-IsCapped [] w c = c
  open_each-IsCapped (o ∷ os) w c =
      let rest =
        open_each-IsCapped os (try_open_position M v now cfg o w).1 (try_open-IsCapped o w c) in
      stopped_keeps (λ (x : SpreadWorld M.Number). IsCapped cfg.max_positions x.spreads)
        (at_caps cfg w) (λ _. w) (open_each M v now cfg os (try_open_position M v now cfg o w).1)
        (λ _. c) (λ _. rest)
