-- ===== src/Auto/Events.antt =====
-- The errors that count as a failure of the exchanges' interfaces (`_collect_api_fail_events` and
-- `_record_api_fail_streak` of backend/core/spot_basis_auto_engine/cycle_context.py).
use arbitrage_station.Base.{
  ℕ, Bool, true, false, ◌&&◌, ◌||◌, List, [], ◌∷◌, ◌++◌, ltb, leb, if◌then◌else◌, take, length,
}
use arbitrage_station.Symbols.{Text, strip_left, strip_right, is_nil, same}

pub data Prefix : Type 0 where
  refresh refresh_error_count mismatch_spot mismatch_perp : Prefix

abbrev pub prefix_eq : Prefix → Prefix → Bool
prefix_eq refresh refresh = true
prefix_eq refresh_error_count refresh_error_count = true
prefix_eq mismatch_spot mismatch_spot = true
prefix_eq mismatch_perp mismatch_perp = true
prefix_eq _ _ = false

-- The text `f"{prefix}:{text}"`
abbrev pub Event : Type 0
Event = Prefix × Text

abbrev pub event_eq : Event → Event → Bool
event_eq (p, s) (q, t) = prefix_eq p q && same s t

abbrev pub seen : Event → List Event → Bool
seen e [] = false
seen e (x ∷ xs) = event_eq x e || seen e xs

unfoldable pub strip : Text → Text
unfolding strip_left strip_right
strip s = strip_right (strip_left s)

-- `_push`
unfoldable pub push_event : Prefix → Text → List Event → List Event
unfolding strip
push_event p raw events =
    let text = take 220 (strip raw) in
    if is_nil (strip raw)
    then events
    else if seen (p, text) events
    then events
    else events ++ (p, text) ∷ []

-- `refresh_meta`; the number of errors is also given as text.
pub record RefreshMeta : Type 0 where
  pub errors : List Text
  pub error : Text
  pub error_count : ℕ
  pub error_count_text : Text

pub record ScannedLegs : Type 0 where
  pub spot_error : Text
  pub perp_error : Text

unfoldable pub push_refresh : List Text → List Event → List Event
unfolding push_event
push_refresh [] events = events
push_refresh (e ∷ es) events = push_refresh es (push_event refresh e events)

-- The loop over the scanned pairs, which ends as soon as there are 12 events.
unfoldable pub push_scanned : List ScannedLegs → List Event → List Event
unfolding push_event
push_scanned [] events = events
push_scanned (x ∷ xs) events =
    let more =
      push_event mismatch_perp x.perp_error (push_event mismatch_spot x.spot_error events) in
    let rest = push_scanned xs more in if leb 12 (length more) then more else rest

-- `_collect_api_fail_events`
unfoldable pub collect_api_fail_events : RefreshMeta → List ScannedLegs → List Event
unfolding strip push_event push_refresh push_scanned
collect_api_fail_events m scanned =
    let first = push_refresh (take 8 m.errors) [] in
    let second = if is_nil (strip m.error) then first else push_event refresh m.error first in
    let third =
      if ltb 0 m.error_count && (elim m.errors [ [] ↦ true | _ ∷ _ ↦ false ])
      then push_event refresh_error_count m.error_count_text second
      else second in
    push_scanned (take 40 scanned) third
