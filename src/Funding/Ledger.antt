-- ===== src/Funding/Ledger.antt =====
-- What an upsert of a funding event keeps of the ledger, and what a second one of the same event does.
use text.Mathlib.Text.{◌==◌ as text_eq}
use text.Mathlib.TextEquality.{eq_iff}
use arbitrage_station.Base.{
  ℕ, ◌≡◌, ◌≢◌, inl, inr, refl, String, Bool, true, false, ◌||◌, Option, none, some, List, [], ◌∷◌,
  ◌++◌, arith, length, ==-refl, Bool-cases,
}
use arbitrage_station.Funding.{
  EventKey, FundingEvent, LedgerRow, found, failed, event_eq, has_hash, has_event, refreshed,
  created, update_first, any_row, insert_row, upsert_funding_event,
}

event_eq_refl : (k : EventKey) → event_eq k k ≡ true
event_eq_refl k = grind (
  arith,
  ==-refl k.exchange_id,
  ==-refl k.funding_time,
  (eq_iff k.account_key k.account_key).1 refl,
  (eq_iff k.symbol k.symbol).1 refl,
  (eq_iff k.amount_norm k.amount_norm).1 refl,
)

-- No two rows share a hash or a business key.
abbrev pub IsLedger : List LedgerRow → Type 0
IsLedger [] = Unit
IsLedger (r ∷ rs) =
    (any_row (has_hash r.normalized_hash) rs ≡ false)
    × (any_row (has_event r.key) rs ≡ false)
    × IsLedger rs

-- What a row that was found leaves as it is.
abbrev Updated :
    (Bool → List LedgerRow → Type 0) → Option (List LedgerRow) → List LedgerRow → Type 0
Updated P none rs = P false rs
Updated P (some rs') rs = P true rs'

module _ (p : LedgerRow → Bool) (make_ref : EventKey → String) (now : ℕ) (e : FundingEvent) where
  -- Whether a row is found, and that looking for a hash or a key gives afterwards what it gave.
  update_keeps :
      (h : ℕ) (k : EventKey) (rs : List LedgerRow)
      → Updated
          (λ hit rs'.
            (hit ≡ any_row p rs)
            × (any_row (has_hash h) rs' ≡ any_row (has_hash h) rs)
            × (any_row (has_event k) rs' ≡ any_row (has_event k) rs)
            × (length rs' ≡ length rs))
          (update_first p (refreshed make_ref now e) rs)
          rs
  unfolding update_first
  update_keeps h k [] = ground arith
  update_keeps h k (r ∷ rs) = ground (arith, update_keeps h k rs)

  update-IsLedger :
      (rs : List LedgerRow)
      → IsLedger rs
      → Updated (λ _ rs'. IsLedger rs') (update_first p (refreshed make_ref now e) rs) rs
  unfolding update_first
  update-IsLedger [] l = tt
  update-IsLedger (r ∷ rs) l =
      ground (arith, update-IsLedger rs, update_keeps r.normalized_hash r.key rs)

append-any_row :
    (p : LedgerRow → Bool) (rs : List LedgerRow) (r : LedgerRow)
    → any_row p (rs ++ r ∷ []) ≡ (any_row p rs || p r)
append-any_row p [] r = ground arith
append-any_row p (s ∷ rs) r = ground (arith, append-any_row p rs r)

text_flip : (s t : String) → text_eq s t ≡ false → text_eq t s ≡ false
text_flip s t h = elim (Bool-cases (text_eq t s)) [
  | inl e ↦ grind (arith, (eq_iff t s).0 e, (eq_iff s s).1 refl)
  | inr e ↦ e
]

event_eq_flip : (k m : EventKey) → event_eq k m ≡ false → event_eq m k ≡ false
event_eq_flip k m h = ground (
  arith,
  text_flip k.account_key m.account_key,
  text_flip k.symbol m.symbol,
  text_flip k.amount_norm m.amount_norm,
)

append-IsLedger :
    (rs : List LedgerRow) (r : LedgerRow)
    → any_row (has_hash r.normalized_hash) rs ≡ false
    → any_row (has_event r.key) rs ≡ false
    → IsLedger rs
    → IsLedger (rs ++ r ∷ [])
append-IsLedger [] r h k l = (refl, refl, tt)
append-IsLedger (s ∷ rs) r h k l = ground (
  arith,
  append-IsLedger rs r,
  append-any_row (has_hash s.normalized_hash) rs r,
  append-any_row (has_event s.key) rs r,
  event_eq_flip s.key r.key,
)

any_row_front :
    (p : LedgerRow → Bool) (rs others : List LedgerRow)
    → any_row p (rs ++ others) ≡ false
    → any_row p rs ≡ false
any_row_front p [] others h = refl
any_row_front p (r ∷ rs) others h = ground (arith, any_row_front p rs others)

front-IsLedger : (rs others : List LedgerRow) → IsLedger (rs ++ others) → IsLedger rs
front-IsLedger [] others l = tt
front-IsLedger (r ∷ rs) others l = ground (
  arith,
  front-IsLedger rs others,
  any_row_front (has_hash r.normalized_hash) rs others,
  any_row_front (has_event r.key) rs others,
)

insert_row-IsLedger :
    (r : LedgerRow) (rs : List LedgerRow) → IsLedger rs → IsLedger (insert_row r rs).1
insert_row-IsLedger r rs l = ground (arith, append-IsLedger rs r)

insert_row_known :
    (r : LedgerRow) (rs : List LedgerRow)
    → let (u, rs') = insert_row r rs in
      (u ≢ failed)
      × ((any_row (has_hash r.normalized_hash) rs' || any_row (has_event r.key) rs') ≡ true)
insert_row_known r rs = ground (
  arith,
  append-any_row (has_hash r.normalized_hash) rs r,
  append-any_row (has_event r.key) rs r,
  ==-refl r.normalized_hash,
)

module _ (digest : EventKey → ℕ) (make_ref : EventKey → String) (now : ℕ) (others : List LedgerRow)
    (e : FundingEvent) where
  abbrev pub known : List LedgerRow → Bool
  known rs = any_row (has_hash (digest e.key)) rs || any_row (has_event e.key) rs

  pub upsert_known :
      (rs : List LedgerRow)
      → let (u, rs') = upsert_funding_event digest make_ref now others e rs in
        (u ≢ failed)
        × (known rs' ≡ true)
        × (known rs ≡ true → (u ≡ found) × (length rs' ≡ length rs))
  unfolding upsert_funding_event
  upsert_known rs = ground (
    arith,
    update_keeps (has_hash (digest e.key)) make_ref now e (digest e.key) e.key rs,
    update_keeps (has_event e.key) make_ref now e (digest e.key) e.key rs,
    insert_row_known (created digest make_ref now e) (rs ++ others),
  )

  -- In a ledger whose rows, with those of the other workers, share no hash and no business key, an upsert
  -- leaves one of which this holds too.
  upsert-IsLedger :
      (rs : List LedgerRow)
      → IsLedger (rs ++ others)
      → IsLedger (upsert_funding_event digest make_ref now others e rs).1
  unfolding upsert_funding_event
  upsert-IsLedger rs l = ground (
    arith,
    update-IsLedger (has_hash (digest e.key)) make_ref now e rs (front-IsLedger rs others l),
    update-IsLedger (has_event e.key) make_ref now e rs (front-IsLedger rs others l),
    insert_row-IsLedger (created digest make_ref now e) (rs ++ others) l,
  )

-- An upsert never ends in the error after the fallback, whatever other workers commit; and when the
-- same event comes again, its row is found and no row is added.
pub upsert_again :
    (digest : EventKey → ℕ) (make_ref : EventKey → String) (now later : ℕ)
    (others more : List LedgerRow) (e : FundingEvent) (rs : List LedgerRow)
    → let (u, rs') = upsert_funding_event digest make_ref now others e rs in
      let (v, rs'') = upsert_funding_event digest make_ref later more e rs' in
      (u ≢ failed) × (v ≡ found) × (length rs'' ≡ length rs')
upsert_again digest make_ref now later others more e rs =
    let first = upsert_known digest make_ref now others e rs in
    let rs' = (upsert_funding_event digest make_ref now others e rs).1 in
    let again = upsert_known digest make_ref later more e rs' in
    let same = again.2 first.1 in (first.0, same.0, same.1)
