-- ===== src/Funding/Ingest.antt =====
-- One round of ingestion from an exchange (`ingest_exchange_funding_events` of
-- backend/core/funding_ledger/assign.py, `_get_cursor` and `_upsert_cursor` of cursor.py).
--
-- Times are in milliseconds. What the exchange returns is an argument, and so is what the database knows of
-- the positions behind a row; the table of assignments is left out, only its number of rows is counted.
-- Where the database raises inside the `try` is an argument too: at the upsert of the n-th event, at its
-- assignment, or at the write of the cursor and the commit. That it raises in the handler is not modelled.
use mathlib.Core.List.{Mem, append-nil, append_assoc}
use arbitrage_station.Base.{
  ℕ, suc, ◌+◌, ◌-◌, ◌*◌, ◌≤◌, ◌≡◌, ◌⊎◌, String, Bool, true, false, Option, none, some, List, [],
  ◌∷◌, if◌then◌else◌, ◌++◌, ◌&&◌, ◌||◌, not, ◌≢◌, inl, inr, refl, sym, All, All-self, if-both,
  Bool-cases, max, length, arith,
}
use arbitrage_station.Funding.{
  EventKey, FundingEvent, LedgerRow, Upserted, found, inserted, failed, has_hash, has_event,
  upsert_funding_event, any_row,
}
use arbitrage_station.Trading.Store.{is_some}
use arbitrage_station.Funding.Ledger.{known, upsert_known}
use arbitrage_station.Funding.Allocation.{AttributionCandidate, resolve_assignment_allocations}

-- `cursor_value` is `none` where it is not a number.
pub record FundingCursor : Type 0 where
  pub cursor_value : Option ℕ
  pub last_success_at : Option ℕ
  pub has_error : Bool
  pub retry_count : ℕ

pub data IngestStatus : Type 0 where
  skipped_banned ok error : IngestStatus

pub record IngestResult : Type 0 where
  pub status : IngestStatus
  pub rows : List LedgerRow
  pub cursor : Option FundingCursor
  pub inserted_count : ℕ
  pub updated_count : ℕ
  pub assigned_count : ℕ

-- What the loop has done so far. `committed` is what a roll-back leaves: the rows at the start, and those
-- that other workers have committed.
pub record Progress : Type 0 where
  pub rows : List LedgerRow
  pub inserted_count : ℕ
  pub updated_count : ℕ
  pub assigned_count : ℕ
  pub max_ms : ℕ
  pub committed : List LedgerRow

abbrev first_row : (LedgerRow → Bool) → List LedgerRow → Option LedgerRow
first_row p [] = none
first_row p (r ∷ rs) = if p r then some r else first_row p rs

abbrev row_or : Option LedgerRow → Option LedgerRow → Option LedgerRow
row_or none b = b
row_or (some a) _ = some a

abbrev pub since_of : ℕ → ℕ → Option FundingCursor → ℕ
since_of now lookback none = now - 3600000 * max 1 lookback
since_of now lookback (some c) = elim c.cursor_value [
  | none ↦ now - 3600000 * max 1 lookback
  | some v ↦ v
]

abbrev pub retries_of : Option FundingCursor → ℕ
retries_of none = 0
retries_of (some c) = c.retry_count

abbrev pub success_of : Option FundingCursor → Option ℕ
success_of none = none
success_of (some c) = c.last_success_at

-- The cursor's time, or 0 where there is none.
abbrev pub cursor_of : Option FundingCursor → ℕ
cursor_of none = 0
cursor_of (some c) = elim c.cursor_value [ none ↦ 0 | some v ↦ v ]

module _ (digest : EventKey → ℕ) (make_ref : EventKey → String)
    (candidates : LedgerRow → List AttributionCandidate) (others : ℕ → List LedgerRow)
    (upsert_raises assign_raises : ℕ → Bool) (commit_raises : Bool) (now : ℕ) where
  -- The row's assignments and its time, once it has been counted.
  abbrev assign_row : Bool → LedgerRow → Progress → Bool × Progress
  assign_row raises r s = if raises then (false, s) else (
    true,
    record s {
      assigned_count =
          s.assigned_count + length (resolve_assignment_allocations (candidates r)).rows;
      max_ms = max s.max_ms r.key.funding_time;
    },
  )

  -- The result is false where an exception ends the loop; the counts stay as they were.
  abbrev count_row : Bool → Upserted → Option LedgerRow → Progress → Bool × Progress
  count_row raises failed _ s = (false, s)
  count_row raises _ none s = (false, s)
  count_row raises found (some r) s =
      assign_row raises r (record s { updated_count = s.updated_count + 1 })
  count_row raises inserted (some r) s =
      assign_row raises r (record s { inserted_count = s.inserted_count + 1 })

  -- The rows of other workers that are there when the `n`-th event is inserted.
  abbrev arrived : ℕ → FundingEvent → List LedgerRow → List LedgerRow
  arrived n e rs = if known digest make_ref now (others n) e rs then [] else others n

  -- One fetched event, the `n`-th.
  pub ingest_one : ℕ → FundingEvent → Progress → Bool × Progress
  ingest_one n e s =
      let (u, rs) = upsert_funding_event digest make_ref now (others n) e s.rows in
      let committed = s.committed ++ arrived n e s.rows in
      let r = row_or (first_row (has_hash (digest e.key)) rs) (first_row (has_event e.key) rs) in
      if upsert_raises n
      then (false, record s { committed = committed })
      else count_row (assign_raises n) u r (record s { rows = rs; committed = committed })

  pub ingest_all : ℕ → List FundingEvent → Progress → Bool × Progress
  ingest_all n [] s = (true, s)
  ingest_all n (e ∷ es) s =
      let (fine, s') = ingest_one n e s in
      let rest = ingest_all (suc n) es s' in if fine then rest else (false, s')

  abbrev next_cursor : ℕ → List FundingEvent → ℕ → ℕ
  next_cursor since [] max_ms = since
  next_cursor since (_ ∷ _) max_ms = max_ms + 1

  -- The end: a commit with the cursor moved on, or a roll-back with the cursor where it was.
  abbrev conclude_ingest :
      ℕ → List FundingEvent → Option FundingCursor → Bool × Progress → IngestResult
  conclude_ingest since events cursor (looped, s) =
      let fine = looped && not commit_raises in
      record {
        status = if fine then ok else error;
        rows = if fine then s.rows else s.committed;
        cursor = some (
            if fine
            then record {
              cursor_value = some (next_cursor since events s.max_ms);
              last_success_at = some now;
              has_error = false;
              retry_count = 0;
            }
            else record {
              cursor_value = some since;
              last_success_at = success_of cursor;
              has_error = true;
              retry_count = retries_of cursor + 1;
            });
        inserted_count = s.inserted_count;
        updated_count = s.updated_count;
        assigned_count = s.assigned_count;
      }

  -- `fetch` is `_fetch_exchange_funding_rows`, of the time since which rows are wanted.
  unfoldable pub ingest_exchange_funding_events :
      Bool → ℕ → (ℕ → List FundingEvent) → Option FundingCursor → List LedgerRow → IngestResult
  unfolding ingest_all ingest_one
  ingest_exchange_funding_events banned lookback fetch cursor rs =
      let since = since_of now lookback cursor in
      let start : Progress = record {
        rows = rs;
        inserted_count = 0;
        updated_count = 0;
        assigned_count = 0;
        max_ms = since;
        committed = rs;
      } in
      if banned
      then record {
        status = skipped_banned;
        rows = rs;
        cursor = cursor;
        inserted_count = 0;
        updated_count = 0;
        assigned_count = 0;
      }
      else conclude_ingest since (fetch since) cursor (ingest_all 0 (fetch since) start)

  -- Whether the database raises in the loop, from the `n`-th event on.
  abbrev loop_raises : ℕ → List FundingEvent → Bool
  loop_raises n [] = false
  loop_raises n (_ ∷ es) = (upsert_raises n || assign_raises n) || loop_raises (suc n) es

  -- Whether it raises inside the `try`.
  abbrev pub is_faulty : List FundingEvent → Bool
  is_faulty es = loop_raises 0 es || commit_raises

  first_row-any_row :
      (p : LedgerRow → Bool) (rs : List LedgerRow) → is_some (first_row p rs) ≡ any_row p rs
  first_row-any_row p [] = refl
  first_row-any_row p (r ∷ rs) = ground (arith, first_row-any_row p rs)

  -- The rows that an upsert leaves hold the row that it returns.
  upsert_found :
      (n : ℕ) (e : FundingEvent) (rs : List LedgerRow)
      → let (u, rs') = upsert_funding_event digest make_ref now (others n) e rs in
        (u ≢ failed)
        × (is_some
              (row_or (first_row (has_hash (digest e.key)) rs') (first_row (has_event e.key) rs'))
            ≡ true)
  upsert_found n e rs =
      let rs' = (upsert_funding_event digest make_ref now (others n) e rs).1 in
      ground (
        arith,
        upsert_known digest make_ref now (others n) e rs,
        first_row-any_row (has_hash (digest e.key)) rs',
        first_row-any_row (has_event e.key) rs',
      )

  record Advanced (n : ℕ) (raises : Bool) (s : Progress) (fine : Bool) (t : Progress) : Type 0 where
    later : s.max_ms ≤ t.max_ms
    counted :
        fine ≡ true → t.inserted_count + t.updated_count ≡ s.inserted_count + s.updated_count + n
    ends : fine ≡ not raises

  ingest_one-Advanced :
      (n : ℕ) (e : FundingEvent) (s : Progress)
      → let (fine, t) = ingest_one n e s in Advanced 1 (upsert_raises n || assign_raises n) s fine t
  unfolding ingest_one
  ingest_one-Advanced n e s = ground (arith, upsert_found n e s.rows)

  ingest_all-Advanced :
      (n : ℕ) (es : List FundingEvent) (s : Progress)
      → let (fine, t) = ingest_all n es s in Advanced (length es) (loop_raises n es) s fine t
  unfolding ingest_all
  ingest_all-Advanced n [] s = ground arith
  ingest_all-Advanced n (e ∷ es) s =
      ground (arith, ingest_one-Advanced n e s, ingest_all-Advanced (suc n) es (ingest_one n e s).1)

  -- Rows that other workers have written.
  abbrev pub IsForeign : List LedgerRow → Type 0
  IsForeign = All (λ r. (n : ℕ) × Mem r (others n))

  IsForeign-append : (xs ys : List LedgerRow) → IsForeign xs → IsForeign ys → IsForeign (xs ++ ys)
  IsForeign-append [] ys f g = g
  IsForeign-append (x ∷ xs) ys f g = (f.0, IsForeign-append xs ys f.1 g)

  others-IsForeign : (n : ℕ) (xs : List LedgerRow) → All (λ r. Mem r (others n)) xs → IsForeign xs
  others-IsForeign n [] a = tt
  others-IsForeign n (x ∷ xs) a = ((n, a.0), others-IsForeign n xs a.1)

  arrived-IsForeign : (n : ℕ) (e : FundingEvent) (rs : List LedgerRow) → IsForeign (arrived n e rs)
  arrived-IsForeign n e rs =
      if-both IsForeign (known digest make_ref now (others n) e rs) (λ _. tt)
        λ _. others-IsForeign n (others n) (All-self (others n))

  ingest_one-committed :
      (n : ℕ) (e : FundingEvent) (s : Progress)
      → (ingest_one n e s).1.committed ≡ s.committed ++ arrived n e s.rows
  unfolding ingest_one
  ingest_one-committed n e s = ground arith

  -- Only rows of other workers are added to what a roll-back leaves.
  ingest_all-committed :
      (n : ℕ) (es : List FundingEvent) (s : Progress)
      → (extra : List LedgerRow) × ((ingest_all n es s).1.committed ≡ s.committed ++ extra)
        × IsForeign extra
  unfolding ingest_all
  ingest_all-committed n [] s = ([], sym (append-nil s.committed), tt)
  ingest_all-committed n (e ∷ es) s =
      let here = arrived n e s.rows in
      let same = ingest_one-committed n e s in
      let foreign = arrived-IsForeign n e s.rows in
      let (more, rest, f) = ingest_all-committed (suc n) es (ingest_one n e s).1 in
      elim (Bool-cases (ingest_one n e s).0) [
        | inl b ↦ rw b (
          here ++ more,
          rw (rest, same) (append_assoc s.committed here more),
          IsForeign-append here more foreign f,
        )
        | inr b ↦ rw b (here, same, foreign)
      ]

  -- A round that is not skipped never moves the cursor back. It succeeds exactly if the database does not
  -- raise inside the `try`: then each fetched event was inserted or found, the count of retries is 0 and
  -- the last success is now. If the database raises, the ledger is as before but for rows that other
  -- workers have committed, the cursor stands where the round began with the time of its last success, and
  -- its count of retries is one higher.
  pub ingest_outcome :
      (lookback : ℕ) (fetch : ℕ → List FundingEvent) (cursor : Option FundingCursor)
      (rs : List LedgerRow)
      → let since = since_of now lookback cursor in
        let r = ingest_exchange_funding_events false lookback fetch cursor rs in
        (cursor_of cursor ≤ cursor_of r.cursor)
        × (((is_faulty (fetch since) ≡ false)
              × (r.status ≡ ok)
              × (r.inserted_count + r.updated_count ≡ length (fetch since))
              × (retries_of r.cursor ≡ 0)
              × (success_of r.cursor ≡ some now))
            ⊎ ((is_faulty (fetch since) ≡ true)
                × (r.status ≡ error)
                × ((extra : List LedgerRow) × (r.rows ≡ rs ++ extra) × IsForeign extra)
                × (cursor_of r.cursor ≡ since)
                × (success_of r.cursor ≡ success_of cursor)
                × (retries_of r.cursor ≡ retries_of cursor + 1)))
  unfolding ingest_exchange_funding_events
  ingest_outcome lookback fetch cursor rs =
      let since = since_of now lookback cursor in
      let start : Progress = record {
        rows = rs;
        inserted_count = 0;
        updated_count = 0;
        assigned_count = 0;
        max_ms = since;
        committed = rs;
      } in
      let kept = ingest_all-committed 0 (fetch since) start in
      let moved = ingest_all-Advanced 0 (fetch since) start in ground (arith, moved, kept)
