-- ===== src/Symbols/RoundTrip.antt =====
-- The ids of two exchanges name the symbol that they are made of.
use arbitrage_station.Base.{
  ◌-◌, ◌<◌, ◌≡◌, refl, true, false, [], ◌∷◌, ◌++◌, arith, All, ltb, length, length-append, take,
}
use mathlib.Core.List.{append_assoc}
use arbitrage_station.Symbols.{
  Text, is_nil, has, before, after, ends_with, swap_suffix, usdt, pair, normalize_symbol,
  okx_inst_id, binance_symbol,
}
use arbitrage_station.Symbols.Texts.{
  IsTidy, IsPlain, clean-tidy, All-append, has-append, before-append, after-append, before-all,
  ends_with-append, ends_with-has, take-append, Plain, IsTidy-join, has-join, is_nil-join,
  plain-IsTidy, plain-slash, plain-colon, plain-dash, plain-underscore,
}

-- A tidy text with both marks stays as it is.
normalize-marked :
    (s : Text) → All IsTidy s → has b'/' s ≡ true → has b':' s ≡ true → normalize_symbol s ≡ s
unfolding normalize_symbol
normalize-marked s t slash colon = rw (clean-tidy s t, slash, colon) refl

module _ (base quote : Text) (pb : Plain base) (pq : Plain quote) where
  pair-IsTidy : All IsTidy (pair base quote)
  pair-IsTidy =
      let tail =
        IsTidy-join b':' quote quote (refl, refl) (plain-IsTidy quote pq) (plain-IsTidy quote pq) in
      IsTidy-join b'/' base (quote ++ (b':' ∷ quote)) (refl, refl) (plain-IsTidy base pb) tail

  pair-slash : has b'/' (pair base quote) ≡ true
  pair-slash = ground (arith, has-join b'/' b'/' base (quote ++ (b':' ∷ quote)))

  pair-colon : has b':' (pair base quote) ≡ true
  pair-colon =
      ground
        (arith, has-join b':' b'/' base (quote ++ (b':' ∷ quote)), has-join b':' b':' quote quote)

  pair-dash : has b'-' (pair base quote) ≡ false
  pair-dash = ground (
    arith,
    has-join b'-' b'/' base (quote ++ (b':' ∷ quote)),
    has-join b'-' b':' quote quote,
    plain-dash base pb,
    plain-dash quote pq,
  )

  normalize-pair : normalize_symbol (pair base quote) ≡ pair base quote
  normalize-pair = normalize-marked (pair base quote) pair-IsTidy pair-slash pair-colon

  pair-base : before b'/' (pair base quote) ≡ base
  pair-base = before-append b'/' base (quote ++ (b':' ∷ quote)) (plain-slash base pb)

  pair-quote : before b':' (before b'/' (after b'/' (pair base quote))) ≡ quote
  pair-quote =
      let rest = after-append b'/' base (quote ++ (b':' ∷ quote)) (plain-slash base pb) in
      let none : has b'/' (quote ++ (b':' ∷ quote)) ≡ false =
        ground (arith, has-join b'/' b':' quote quote, plain-slash quote pq) in
      rw (rest, before-all b'/' (quote ++ (b':' ∷ quote)) none)
        (before-append b':' quote quote (plain-colon quote pq))

  -- The id of okx.
  okx-pair :
      is_nil base ≡ false
      → is_nil quote ≡ false
      → okx_inst_id (pair base quote) ≡ base ++ (b'-' ∷ (quote ++ swap_suffix))
  unfolding okx_inst_id
  okx-pair nb nq =
      let swap = ends_with-has b'-' swap_suffix (pair base quote) refl pair-dash in
      let nonempty = is_nil-join b'/' base (quote ++ (b':' ∷ quote)) in
      rw (normalize-pair, nonempty, swap, pair-slash, pair-base, pair-quote, nb, nq) refl

  okx-IsTidy : All IsTidy (base ++ (b'-' ∷ (quote ++ swap_suffix)))
  okx-IsTidy =
      IsTidy-join b'-' base (quote ++ swap_suffix) (refl, refl) (plain-IsTidy base pb)
        (All-append IsTidy quote swap_suffix (plain-IsTidy quote pq) (search))

  normalize-okx : normalize_symbol (base ++ (b'-' ∷ (quote ++ swap_suffix))) ≡ pair base quote
  unfolding normalize_symbol
  normalize-okx =
      let s = base ++ (b'-' ∷ (quote ++ swap_suffix)) in
      let slash : has b'/' s ≡ false = ground (
        arith,
        has-join b'/' b'-' base (quote ++ swap_suffix),
        has-append b'/' quote swap_suffix,
        plain-slash base pb,
        plain-slash quote pq,
      ) in
      let dash : has b'-' s ≡ true =
        ground (arith, has-join b'-' b'-' base (quote ++ swap_suffix)) in
      let swap : ends_with swap_suffix s ≡ true =
        rw⁻¹ (append_assoc base (b'-' ∷ quote) swap_suffix)
          (ends_with-append swap_suffix (base ++ (b'-' ∷ quote))) in
      let first = before-append b'-' base (quote ++ swap_suffix) (plain-dash base pb) in
      let rest = after-append b'-' base (quote ++ swap_suffix) (plain-dash base pb) in
      let second =
        before-append b'-' quote (b'S' ∷ b'W' ∷ b'A' ∷ b'P' ∷ []) (plain-dash quote pq) in
      rw (clean-tidy s okx-IsTidy, slash, swap, dash, first, rest, second) refl

nonempty-length : (s : Text) → is_nil s ≡ false → 0 < length s
nonempty-length [] h = cc
nonempty-length (c ∷ cs) h = omega arith

usdt-Plain : Plain usdt
usdt-Plain = search

module _ (base : Text) (pb : Plain base) where
  binance-pair : is_nil base ≡ false → binance_symbol (pair base usdt) ≡ base ++ usdt
  unfolding binance_symbol
  binance-pair nb =
      let nonempty = is_nil-join b'/' base (usdt ++ (b':' ∷ usdt)) in
      let slash = pair-slash base usdt pb usdt-Plain in
      let first = pair-base base usdt pb usdt-Plain in
      let second = pair-quote base usdt pb usdt-Plain in
      rw (normalize-pair base usdt pb usdt-Plain, nonempty, slash, first, second, nb) refl

  normalize-binance : is_nil base ≡ false → normalize_symbol (base ++ usdt) ≡ pair base usdt
  unfolding normalize_symbol
  normalize-binance nb =
      let s = base ++ usdt in
      let tidy =
        All-append IsTidy base usdt (plain-IsTidy base pb) (plain-IsTidy usdt usdt-Plain) in
      let slash : has b'/' s ≡ false =
        ground (arith, has-append b'/' base usdt, plain-slash base pb) in
      let under : has b'_' s ≡ false =
        ground (arith, has-append b'_' base usdt, plain-underscore base pb) in
      let dash : has b'-' s ≡ false =
        ground (arith, has-append b'-' base usdt, plain-dash base pb) in
      let swap = ends_with-has b'-' swap_suffix s refl dash in
      let ends = ends_with-append usdt base in
      let long : ltb 4 (length s) ≡ true =
        ground (arith, length-append base usdt, nonempty-length base nb) in
      let cut : take (length s - 4) s ≡ base =
        let four : length s - 4 ≡ length base = omega (arith, length-append base usdt) in
        rw four (take-append base usdt) in
      rw (clean-tidy s tidy, slash, swap, under, ends, long, cut) refl

-- For a base and a quote of plain characters, neither of them empty: the symbol made of the two is its own
-- normal form, and so is the form that the id of okx is normalised to; and if the quote is USDT, that of
-- binance is too.
pub spellings_agree :
    (base quote : Text)
    → All IsPlain base
    → All IsPlain quote
    → is_nil base ≡ false
    → is_nil quote ≡ false
    → (normalize_symbol (pair base quote) ≡ pair base quote)
      × (normalize_symbol (okx_inst_id (pair base quote)) ≡ pair base quote)
      × (normalize_symbol (binance_symbol (pair base usdt)) ≡ pair base usdt)
spellings_agree base quote pb pq nb nq = (
  normalize-pair base quote pb pq,
  rw (okx-pair base quote pb pq nb nq) (normalize-okx base quote pb pq),
  rw (binance-pair base pb nb) (normalize-binance base pb nb),
)
