-- ===== src/Reconcile.antt =====
-- The reconciliation of spot hedges with the exchanges (backend/core/spot_basis_reconciler).
-- Here are the strategies without open legs and the legs that are tracked (sync_ops.py); Reconcile/Recover is
-- the matching of what is not tracked (runner.py).
--
-- Quantities are in units of 1e-10, prices in cents, values in units of 1e-12 dollars. What `upper()` does is a
-- parameter. A close reason is blank if it is the empty text without errors.
pub mod Settled
pub mod Recover
pub mod Tests
use text.Mathlib.Text.{◌==◌ as text_eq}
use Prim.Native.Char.{code}
use arbitrage_station.Base.{
  ℕ, ◌+◌, String, Bool, true, false, ◌&&◌, ◌||◌, not, Option, none, some, List, [], ◌∷◌, ltb, ◌==◌,
  if◌then◌else◌,
}
use arbitrage_station.Trading.Store.{
  Side, long, short, PositionType, PositionStatus, StrategyStatus, StrategyType, CloseReason,
  Position, Strategy, Session, flush, before_query, is_open_row, is_open_status, find_strategy,
}

abbrev pub is_hedge : Strategy ℕ → Bool
is_hedge s = elim s.strategy_type [ StrategyType.spot_hedge ↦ true | _ ↦ false ]

-- `Strategy.status.in_(["active", "closing"])`
abbrev is_running : StrategyStatus → Bool
is_running StrategyStatus.active = true
is_running StrategyStatus.closing = true
is_running _ = false

-- `sid in has_open_row`
abbrev pub has_open_row : ℕ → List (Position ℕ) → Bool
has_open_row i [] = false
has_open_row i (p ∷ ps) = is_open_row i p || has_open_row i ps

-- A strategy that is to be closed.
abbrev pub is_empty_strategy : List (Position ℕ) → Strategy ℕ → Bool
is_empty_strategy ps s =
    is_hedge s && (is_running s.status && (not (s.id == 0) && not (has_open_row s.id ps)))

abbrev is_blank_reason : Option CloseReason → Bool
is_blank_reason none = true
is_blank_reason (some r) = elim r.errors [
  | [] ↦ elim r.unwind_failures [ [] ↦ text_eq r.reason "" | _ ↦ false ]
  | _ ↦ false
]

abbrev no_legs_reason : CloseReason
no_legs_reason = record {
  reason = "auto_closed_no_open_legs_reconcile";
  errors = [];
  unwind_failures = [];
}

abbrev pub closed_empty : ℕ → Strategy ℕ → Strategy ℕ
closed_empty now s = record s {
  status = StrategyStatus.closed;
  closed_at = elim s.closed_at [ none ↦ some now | some t ↦ some t ];
  close_reason = if is_blank_reason s.close_reason then some no_legs_reason else s.close_reason;
}

pub close_each_empty : ℕ → List (Position ℕ) → List (Strategy ℕ) → List ℕ × List (Strategy ℕ)
close_each_empty now ps [] = ([], [])
close_each_empty now ps (s ∷ ss) =
    let (touched, ss') = close_each_empty now ps ss in
    if is_empty_strategy ps s
    then (s.id ∷ touched, closed_empty now s ∷ ss')
    else (touched, s ∷ ss')

abbrev commit_if : List ℕ → Session ℕ → Session ℕ
commit_if [] db = db
commit_if (_ ∷ _) db = flush db

-- `_close_active_or_closing_without_open_legs`
unfoldable pub close_empty_strategies : ℕ → Session ℕ → List ℕ × Session ℕ
unfolding close_each_empty
close_empty_strategies now db =
    let db' = before_query db in
    let (touched, ss) = close_each_empty now db'.positions db'.strategies in
    (touched, commit_if touched (record db' { strategies = ss }))

-- `Strategy.status.in_(["active", "closing", "error"])`
abbrev pub is_tracked_status : StrategyStatus → Bool
is_tracked_status StrategyStatus.closed = false
is_tracked_status _ = true

-- An open position of a hedge: one row of the join in `_load_tracked_open_legs`.
abbrev of_tracked : Option (Strategy ℕ) → Bool
of_tracked none = false
of_tracked (some s) = is_hedge s && is_tracked_status s.status

abbrev pub is_tracked : Session ℕ → Position ℕ → Bool
is_tracked db p = is_open_status p.stored && of_tracked (find_strategy p.strategy_id db.strategies)

abbrev has_char : ℕ → String → Bool
has_char c String.[] = false
has_char c (String.◌∷◌ x s) = (code x == c) || has_char c s

abbrev before_char : ℕ → String → String
before_char c String.[] = String.[]
before_char c (String.◌∷◌ x s) =
    let rest = before_char c s in if code x == c then String.[] else String.◌∷◌ x rest

abbrev is_on : ℕ → Position ℕ → Bool
is_on e p = (p.exchange_id == e) && not (p.exchange_id == 0)

module _ (upper : String → String) where
  -- `_extract_base_asset_from_symbol`
  pub base_asset_of : String → String
  base_asset_of s = upper (if has_char b'/' s then before_char b'/' s else before_char b':' s)

  abbrev is_spot_leg : Position ℕ → Bool
  is_spot_leg p = elim p.position_type [ PositionType.spot ↦ true | PositionType.swap ↦ false ]

  abbrev is_short_leg : Position ℕ → Bool
  is_short_leg p = elim p.side [ short ↦ true | long ↦ false ]

  -- `tracked_spot.get((ex_id, asset), 0.0)` of `_load_tracked_open_legs`
  pub tracked_spot : Session ℕ → ℕ → String → List (Position ℕ) → ℕ
  unfolding base_asset_of
  tracked_spot db e asset [] = 0
  tracked_spot db e asset (p ∷ ps) =
      let rest = tracked_spot db e asset ps in
      let name = base_asset_of p.symbol in
      if is_tracked db p
        && (is_spot_leg p && (is_on e p && (not (text_eq name "") && text_eq name asset)))
      then p.size + rest
      else rest

  -- `tracked_perp.get((ex_id, symbol), 0.0)`
  pub tracked_perp : Session ℕ → ℕ → String → List (Position ℕ) → ℕ
  tracked_perp db e symbol [] = 0
  tracked_perp db e symbol (p ∷ ps) =
      let rest = tracked_perp db e symbol ps in
      if is_tracked db p
        && (not (is_spot_leg p) && (is_short_leg p && (is_on e p && text_eq p.symbol symbol)))
      then p.size + rest
      else rest
