-- ===== src/Symbols/Texts.antt =====
-- Lemmas on texts: what cleaning, searching and cutting do to a text put together from parts.
use arbitrage_station.Base.{
  ℕ, ◌≡◌, refl, ap, ap₂, true, false, ◌||◌, [], ◌∷◌, ◌++◌, arith, All, ◌==◌, map, length, take,
}
use arbitrage_station.Symbols.{
  Text, upper_char, is_blank, is_nil, strip_left, strip_right, clean, has, before, after, same,
  ends_with,
}

-- Neither a blank nor a small letter.
abbrev pub IsTidy : ℕ → Type 0
IsTidy c = (is_blank c ≡ false) × (upper_char c ≡ c)

-- No character that a spelling puts between the parts, either.
abbrev pub IsPlain : ℕ → Type 0
IsPlain c =
    IsTidy c × (c == b'/' ≡ false) × (c == b':' ≡ false) × (c == b'-' ≡ false) × (c == b'_' ≡ false)

strip_left-tidy : (s : Text) → All IsTidy s → strip_left s ≡ s
unfolding strip_left
strip_left-tidy [] t = refl
strip_left-tidy (c ∷ cs) t = ground arith

strip_right-tidy : (s : Text) → All IsTidy s → strip_right s ≡ s
unfolding strip_right
strip_right-tidy [] t = refl
strip_right-tidy (c ∷ cs) t = ground (arith, strip_right-tidy cs t.1)

upper-tidy : (s : Text) → All IsTidy s → map upper_char s ≡ s
upper-tidy [] t = refl
upper-tidy (c ∷ cs) t = ap₂ (λ x xs. x ∷ xs) t.0.1 (upper-tidy cs t.1)

pub clean-tidy : (s : Text) → All IsTidy s → clean s ≡ s
unfolding clean
clean-tidy s t = rw (upper-tidy s t) (rw (strip_left-tidy s t) (strip_right-tidy s t))

pub All-append : (P : ℕ → Type 0) (xs ys : Text) → All P xs → All P ys → All P (xs ++ ys)
All-append P [] ys h k = k
All-append P (x ∷ xs) ys h k = (h.0, All-append P xs ys h.1 k)

pub has-append : (c : ℕ) (xs ys : Text) → has c (xs ++ ys) ≡ (has c xs || has c ys)
has-append c [] ys = refl
has-append c (x ∷ xs) ys = ground (arith, has-append c xs ys)

pub before-append : (c : ℕ) (xs ys : Text) → has c xs ≡ false → before c (xs ++ (c ∷ ys)) ≡ xs
unfolding before
before-append c [] ys h = ground arith
before-append c (x ∷ xs) ys h = ground (arith, before-append c xs ys)

pub after-append : (c : ℕ) (xs ys : Text) → has c xs ≡ false → after c (xs ++ (c ∷ ys)) ≡ ys
unfolding after
after-append c [] ys h = ground arith
after-append c (x ∷ xs) ys h = ground (arith, after-append c xs ys)

pub before-all : (c : ℕ) (xs : Text) → has c xs ≡ false → before c xs ≡ xs
unfolding before
before-all c [] h = refl
before-all c (x ∷ xs) h = ground (arith, before-all c xs)

same_refl : (s : Text) → same s s ≡ true
same_refl [] = refl
same_refl (c ∷ cs) = ground (arith, same_refl cs)

pub ends_with-append : (suffix xs : Text) → ends_with suffix (xs ++ suffix) ≡ true
unfolding ends_with
ends_with-append [] [] = refl
ends_with-append (c ∷ suffix) [] = ground (arith, same_refl suffix)
ends_with-append suffix (x ∷ xs) = ground (arith, ends_with-append suffix xs)

same-has : (c : ℕ) (s t : Text) → same s t ≡ true → has c s ≡ has c t
same-has c [] [] h = refl
same-has c [] (y ∷ ys) h = cc
same-has c (x ∷ xs) [] h = cc
same-has c (x ∷ xs) (y ∷ ys) h = ground (arith, same-has c xs ys)

pub ends_with-has :
    (c : ℕ) (suffix s : Text) → has c suffix ≡ true → has c s ≡ false → ends_with suffix s ≡ false
unfolding ends_with
ends_with-has c suffix [] h k = ground (arith, same-has c suffix [])
ends_with-has c suffix (x ∷ xs) h k =
    ground (arith, same-has c suffix (x ∷ xs), ends_with-has c suffix xs)

has-plain : (c : ℕ) (s : Text) → All (λ x. x == c ≡ false) s → has c s ≡ false
has-plain c [] p = refl
has-plain c (x ∷ xs) p = ground (arith, has-plain c xs p.1)

pub take-append : (xs ys : Text) → take (length xs) (xs ++ ys) ≡ xs
take-append [] ys = ground arith
take-append (x ∷ xs) ys = ap (λ zs. x ∷ zs) (take-append xs ys)

All-weaken : (P Q : ℕ → Type 0) (s : Text) → ((c : ℕ) → P c → Q c) → All P s → All Q s
All-weaken P Q [] f h = tt
All-weaken P Q (c ∷ cs) f h = (f c h.0, All-weaken P Q cs f h.1)

abbrev pub Plain : Text → Type 0
Plain s = All IsPlain s

module _ (s : Text) (p : Plain s) where
  pub plain-IsTidy : All IsTidy s
  plain-IsTidy = All-weaken IsPlain IsTidy s (λ c h. h.0) p

  pub plain-slash : has b'/' s ≡ false
  plain-slash = has-plain b'/' s (All-weaken IsPlain _ s (λ c h. h.1) p)

  pub plain-colon : has b':' s ≡ false
  plain-colon = has-plain b':' s (All-weaken IsPlain _ s (λ c h. h.2) p)

  pub plain-dash : has b'-' s ≡ false
  plain-dash = has-plain b'-' s (All-weaken IsPlain _ s (λ c h. h.3) p)

  pub plain-underscore : has b'_' s ≡ false
  plain-underscore = has-plain b'_' s (All-weaken IsPlain _ s (λ c h. h.4) p)

pub IsTidy-join :
    (c : ℕ) (xs ys : Text) → IsTidy c → All IsTidy xs → All IsTidy ys → All IsTidy (xs ++ (c ∷ ys))
IsTidy-join c xs ys h k l = All-append IsTidy xs (c ∷ ys) k (h, l)

pub has-join :
    (c d : ℕ) (xs ys : Text) → has c (xs ++ (d ∷ ys)) ≡ (has c xs || ((d == c) || has c ys))
has-join c d xs ys = has-append c xs (d ∷ ys)

pub is_nil-join : (c : ℕ) (xs ys : Text) → is_nil (xs ++ (c ∷ ys)) ≡ false
is_nil-join c [] ys = refl
is_nil-join c (x ∷ xs) ys = refl
