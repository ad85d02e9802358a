-- ===== src/Symbols/Tests.antt =====
-- Spellings of a symbol, and the theorem on them at a concrete input.
use arbitrage_station.Base.{◌≡◌, refl, [], ◌∷◌}
use arbitrage_station.Symbols.{Text, usdt, pair, normalize_symbol, okx_inst_id, binance_symbol}
use arbitrage_station.Symbols.RoundTrip.{spellings_agree}

-- `BTC`
abbrev btc : Text
btc = b'B' ∷ b'T' ∷ b'C' ∷ []

-- ` btc_usdt `
abbrev spaced : Text
spaced = b' ' ∷ b'b' ∷ b't' ∷ b'c' ∷ b'_' ∷ b'u' ∷ b's' ∷ b'd' ∷ b't' ∷ b' ' ∷ []

normalize_spaced : normalize_symbol spaced ≡ pair btc usdt
unfolding normalize_symbol
normalize_spaced = refl

-- `BTC/USDT` without a settlement currency
normalize_spot : normalize_symbol (b'B' ∷ b'T' ∷ b'C' ∷ b'/' ∷ usdt) ≡ pair btc usdt
unfolding normalize_symbol
normalize_spot = refl

okx_btc :
    okx_inst_id (pair btc usdt)
    ≡ b'B' ∷ b'T' ∷ b'C' ∷ b'-' ∷ b'U' ∷ b'S' ∷ b'D' ∷ b'T' ∷ b'-' ∷ b'S' ∷ b'W' ∷ b'A' ∷ b'P' ∷ []
unfolding okx_inst_id
okx_btc = refl

spellings_agree_example :
    (normalize_symbol (pair btc usdt) ≡ pair btc usdt)
    × (normalize_symbol (okx_inst_id (pair btc usdt)) ≡ pair btc usdt)
    × (normalize_symbol (binance_symbol (pair btc usdt)) ≡ pair btc usdt)
spellings_agree_example = spellings_agree btc usdt (search) (search) refl refl
