-- ===== src/Reconcile/Recover/Keys.antt =====
-- The pool of assets as a dict by exchange and asset.
use text.Mathlib.Text.{◌==◌ as text_eq}
use text.Mathlib.TextEquality.{eq_iff}
use mathlib.Core.Path.{subst}
use arbitrage_station.Base.{
  ℕ, ◌-◌, ◌≡◌, ◌⊎◌, inl, inr, refl, sym, String, Bool, true, false, ◌&&◌, some, List, [], ◌∷◌,
  arith, ◌==◌, if◌then◌else◌, keep_if, Bool-cases, Option-cases,
}
use arbitrage_station.Reconcile.Recover.{PoolEntry, is_better, best_candidate, consume}

abbrev pub key_eq : ℕ → String → ℕ → String → Bool
key_eq e a e' a' = (e == e') && text_eq a a'

abbrev has_key : ℕ → String → PoolEntry → Bool
has_key e a x = key_eq x.spot.exchange_id x.spot.asset e a

-- `spot_pool[(e, a)]["residual_qty"]`, 0 if the key is not there
abbrev pub residual_of : ℕ → String → List PoolEntry → ℕ
residual_of e a [] = 0
residual_of e a (x ∷ xs) = if has_key e a x then x.residual_qty else residual_of e a xs

-- No entry has the key.
abbrev pub Lacks : ℕ → String → List PoolEntry → Type 0
Lacks e a [] = Unit
Lacks e a (x ∷ xs) = (has_key e a x ≡ false) × Lacks e a xs

-- A dict: no key twice.
abbrev pub Once : List PoolEntry → Type 0
Once [] = Unit
Once (x ∷ xs) = Lacks x.spot.exchange_id x.spot.asset xs × Once xs

text_refl : (a : String) → text_eq a a ≡ true
text_refl a = (eq_iff a a).1 refl

pub key_refl : (e : ℕ) (a : String) → key_eq e a e a ≡ true
key_refl e a = ground (arith, text_refl a)

pub key-same : (e e' : ℕ) (a a' : String) → key_eq e a e' a' ≡ true → (e ≡ e') × (a ≡ a')
key-same e e' a a' h = (ground arith, (eq_iff a a').0 (ground arith))

-- A key is equal to both of two keys only if they are equal.
key-exclusive :
    (e e' e'' : ℕ) (a a' a'' : String)
    → key_eq e a e' a' ≡ true
    → key_eq e' a' e'' a'' ≡ false
    → key_eq e a e'' a'' ≡ false
key-exclusive e e' e'' a a' a'' h k =
    let (i, j) = key-same e e' a a' h in
    subst (λ (n : ℕ). key_eq n a e'' a'' ≡ false) (sym i)
      (subst (λ b. key_eq e' b e'' a'' ≡ false) (sym j) k)

pub consume-same :
    (e : ℕ) (a : String) (m : ℕ) (pool : List PoolEntry)
    → residual_of e a (consume e a m pool) ≡ residual_of e a pool - m
unfolding consume
consume-same e a m [] = ground arith
consume-same e a m (x ∷ xs) = ground (arith, consume-same e a m xs)

pub consume-other :
    (e e' : ℕ) (a a' : String) (m : ℕ) (pool : List PoolEntry)
    → key_eq e a e' a' ≡ false
    → residual_of e' a' (consume e a m pool) ≡ residual_of e' a' pool
unfolding consume
consume-other e e' a a' m [] k = refl
consume-other e e' a a' m (x ∷ xs) k =
    let apart = key-exclusive x.spot.exchange_id e e' x.spot.asset a a' in
    ground (arith, consume-other e e' a a' m xs k, apart)

consume-Lacks :
    (e e' : ℕ) (a a' : String) (m : ℕ) (pool : List PoolEntry)
    → Lacks e' a' pool
    → Lacks e' a' (consume e a m pool)
unfolding consume
consume-Lacks e e' a a' m [] l = tt
consume-Lacks e e' a a' m (x ∷ xs) l = ground (arith, consume-Lacks e e' a a' m xs l.1)

pub consume-Once :
    (e : ℕ) (a : String) (m : ℕ) (pool : List PoolEntry) → Once pool → Once (consume e a m pool)
unfolding consume
consume-Once e a m [] o = tt
consume-Once e a m (x ∷ xs) o =
    let lacks = consume-Lacks e x.spot.exchange_id a x.spot.asset m xs o.0 in
    ground (arith, consume-Once e a m xs o.1)

abbrev pub Member : PoolEntry → List PoolEntry → Type 0
Member x [] = ⊥
Member x (y ∷ ys) = (x ≡ y) ⊎ Member x ys

pub best-Member :
    (base : ℕ) (xs : List PoolEntry) (x : PoolEntry) → best_candidate base xs ≡ some x → Member x xs
unfolding best_candidate
best-Member base [] x h = cc
best-Member base (y ∷ ys) x h = elim (Option-cases (best_candidate base ys)) [
  | inl e ↦ ground arith
  | inr (z, e) ↦ elim (Bool-cases (is_better base z y)) [
    | inl b ↦ inr (best-Member base ys x (ground arith))
    | inr b ↦ ground arith
  ]
]

keep-cons :
    (p : PoolEntry → Bool) (y : PoolEntry) (xs ys : List PoolEntry) (x : PoolEntry)
    → p y ≡ true
    → Member x (y ∷ xs)
    → (Member x xs → Member x ys × (p x ≡ true))
    → Member x (y ∷ ys) × (p x ≡ true)
keep-cons p y xs ys x e (inl i) ih = (inl i, subst (λ z. p z ≡ true) (sym i) e)
keep-cons p y xs ys x e (inr m) ih = let (n, t) = ih m in (inr n, t)

pub keep-Member :
    (p : PoolEntry → Bool) (xs : List PoolEntry) (x : PoolEntry)
    → Member x (keep_if p xs)
    → Member x xs × (p x ≡ true)
keep-Member p [] x h = elim h [ ]
keep-Member p (y ∷ ys) x h = elim (Bool-cases (p y)) [
  | inl e ↦ keep-cons p y (keep_if p ys) ys x e (rw e at h) (keep-Member p ys x)
  | inr e ↦ let (n, t) = keep-Member p ys x (rw e at h) in (inr n, t)
]

Lacks-Member :
    (e : ℕ) (a : String) (xs : List PoolEntry) (x : PoolEntry)
    → Lacks e a xs
    → Member x xs
    → has_key e a x ≡ false
Lacks-Member e a [] x l m = elim m [ ]
Lacks-Member e a (y ∷ ys) x l (inl i) = subst (λ z. has_key e a z ≡ false) (sym i) l.0
Lacks-Member e a (y ∷ ys) x l (inr m) = Lacks-Member e a ys x l.1 m

key-sym : (e e' : ℕ) (a a' : String) → key_eq e a e' a' ≡ false → key_eq e' a' e a ≡ false
key-sym e e' a a' h = elim (Bool-cases (key_eq e' a' e a)) [
  | inl k ↦
      let (i, j) = key-same e' e a' a k in
      let self = key_refl e a in
      let bad = subst (λ (n : ℕ). key_eq e a n a' ≡ false) i h in
      ground (arith, self, subst (λ b. key_eq e a e b ≡ false) j bad)
  | inr k ↦ k
]

pub Member-residual :
    (pool : List PoolEntry) (x : PoolEntry)
    → Once pool
    → Member x pool
    → residual_of x.spot.exchange_id x.spot.asset pool ≡ x.residual_qty
Member-residual [] x o m = elim m [ ]
Member-residual (y ∷ ys) x o (inl i) =
    subst (λ z. residual_of x.spot.exchange_id x.spot.asset (z ∷ ys) ≡ x.residual_qty) i
      (rw (key_refl x.spot.exchange_id x.spot.asset) refl)
Member-residual (y ∷ ys) x o (inr m) =
    let far = Lacks-Member y.spot.exchange_id y.spot.asset ys x o.0 m in
    let near = key-sym x.spot.exchange_id y.spot.exchange_id x.spot.asset y.spot.asset far in
    rw near (Member-residual ys x o.1 m)

pub subst2 {ℓ} :
    {e e' : ℕ} {a a' : String} (P : ℕ → String → Type ℓ) → e ≡ e' → a ≡ a' → P e a → P e' a'
subst2 {e} {e'} {a} {a'} P p q t = subst (λ (n : ℕ). P n a') p (subst (P e) q t)
