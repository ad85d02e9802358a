-- ===== src/Symbols.antt =====
-- The spellings of a symbol (`normalize_symbol`, `_normalized_to_okx_inst_id` and
-- `_normalized_to_binance_symbol` of backend/core/funding_ledger/normalize.py).
--
-- A text is the list of the codes of its characters; `upper` changes the letters of ASCII. `split(c)` is used for
-- its first two parts: `before` is the first, `before` of `after` the second.
pub mod Texts
pub mod RoundTrip
pub mod Tests
use arbitrage_station.Base.{
  ℕ, ◌+◌, ◌-◌, Bool, true, false, ◌&&◌, ◌||◌, not, List, [], ◌∷◌, ◌++◌, ltb, leb, ◌==◌,
  if◌then◌else◌, map, length, take,
}

abbrev pub Text : Type 0
Text = List ℕ

abbrev pub upper_char : ℕ → ℕ
upper_char c = if leb 97 c && leb c 122 then c - 32 else c

-- The blanks that `strip()` takes off, as far as they are in ASCII.
abbrev pub is_blank : ℕ → Bool
is_blank c = (c == 32) || ((leb 9 c && leb c 13) || (leb 28 c && leb c 31))

abbrev pub is_nil : Text → Bool
is_nil [] = true
is_nil _ = false

unfoldable pub strip_left : Text → Text
strip_left [] = []
strip_left (c ∷ cs) = let rest = strip_left cs in if is_blank c then rest else c ∷ cs

unfoldable pub strip_right : Text → Text
strip_right [] = []
strip_right (c ∷ cs) =
    let rest = strip_right cs in if is_nil rest && is_blank c then [] else c ∷ rest

-- `str(symbol).upper().strip()`
pub clean : Text → Text
unfolding strip_left strip_right
clean s = strip_right (strip_left (map upper_char s))

-- `c in s`
abbrev pub has : ℕ → Text → Bool
has c [] = false
has c (x ∷ xs) = (x == c) || has c xs

pub before : ℕ → Text → Text
before c [] = []
before c (x ∷ xs) = let rest = before c xs in if x == c then [] else x ∷ rest

pub after : ℕ → Text → Text
after c [] = []
after c (x ∷ xs) = let rest = after c xs in if x == c then xs else rest

abbrev pub same : Text → Text → Bool
same [] [] = true
same (x ∷ xs) (y ∷ ys) = (x == y) && same xs ys
same _ _ = false

-- `s.endswith(suffix)`
pub ends_with : Text → Text → Bool
ends_with suffix [] = same suffix []
ends_with suffix (x ∷ xs) = same suffix (x ∷ xs) || ends_with suffix xs

-- `-SWAP` and `USDT`
abbrev pub swap_suffix : Text
swap_suffix = b'-' ∷ b'S' ∷ b'W' ∷ b'A' ∷ b'P' ∷ []

abbrev pub usdt : Text
usdt = b'U' ∷ b'S' ∷ b'D' ∷ b'T' ∷ []

-- `f"{base}/{quote}:{quote}"`
abbrev pub pair : Text → Text → Text
pair base quote = base ++ (b'/' ∷ (quote ++ (b':' ∷ quote)))

-- The last three branches of `normalize_symbol`.
abbrev normalize_plain : Text → Text
normalize_plain s =
    if ends_with usdt s && (not (has b'/' s) && ltb 4 (length s))
    then pair (take (length s - 4) s) usdt
    else if has b'/' s && not (has b':' s)
    then pair (before b'/' s) (before b':' (after b'/' s))
    else s

-- The branch of the underscore goes on if one of its two parts is empty.
abbrev normalize_underscore : Text → Text
normalize_underscore s =
    let base = before b'_' s in
    let quote = before b'_' (after b'_' s) in
    if has b'_' s && (not (has b'/' s) && (not (is_nil base) && not (is_nil quote)))
    then pair base quote
    else normalize_plain s

abbrev normalize_clean : Text → Text
normalize_clean s =
    if has b'/' s && has b':' s
    then s
    else if ends_with swap_suffix s && has b'-' s
    then pair (before b'-' s) (before b'-' (after b'-' s))
    else normalize_underscore s

-- `normalize_symbol`
unfoldable pub normalize_symbol : Text → Text
unfolding clean before after ends_with
normalize_symbol s = normalize_clean (clean s)

abbrev base_of : Text → Text
base_of sym = before b'/' sym

abbrev quote_of : Text → Text
quote_of sym = before b':' (before b'/' (after b'/' sym))

-- `_normalized_to_okx_inst_id`
unfoldable pub okx_inst_id : Text → Text
unfolding normalize_symbol
okx_inst_id s =
    let sym = normalize_symbol s in
    if is_nil sym || ends_with swap_suffix sym
    then sym
    else if has b'/' sym && (not (is_nil (base_of sym)) && not (is_nil (quote_of sym)))
    then base_of sym ++ (b'-' ∷ (quote_of sym ++ swap_suffix))
    else sym

-- `.replace(c, "")`
abbrev without : ℕ → Text → Text
without c [] = []
without c (x ∷ xs) = let rest = without c xs in if x == c then rest else x ∷ rest

-- `_normalized_to_binance_symbol`
unfoldable pub binance_symbol : Text → Text
unfolding normalize_symbol
binance_symbol s =
    let sym = normalize_symbol s in
    if is_nil sym
    then sym
    else if has b'/' sym && (not (is_nil (base_of sym)) && not (is_nil (quote_of sym)))
    then base_of sym ++ quote_of sym
    else without b'-' (without b':' (without b'/' sym))
