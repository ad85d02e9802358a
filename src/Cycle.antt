-- ===== src/Cycle.antt =====
-- What the cycles of the spot-basis engine share (backend/core/spot_basis_auto_engine): the rounds that a
-- rebalance signal must last (mismatch_guard.py), and the lock file that keeps cycles apart
-- (cycle_context.py).
--
-- Times are in seconds. A fingerprint is text, blank for none. Processes are numbered.
pub mod Confirm
pub mod Lock
pub mod Tests
use text.Mathlib.Text.{◌==◌ as text_eq}
use arbitrage_station.Base.{
  ℕ, suc, ◌+◌, ◌-◌, String, Bool, true, false, ◌&&◌, ◌||◌, not, Option, none, some, List, [], ◌∷◌,
  ◌==◌, ltb, leb, if◌then◌else◌, max,
}

pub record ConfirmState : Type 0 where
  pub fingerprint : String
  pub count : ℕ
  pub updated_at : ℕ

abbrev pub confirm_ttl : ℕ
confirm_ttl = 1800

-- `_cleanup_rebalance_confirm_cache`
abbrev pub cleanup_rebalance_confirm_cache : ℕ → ConfirmState → ConfirmState
cleanup_rebalance_confirm_cache now s =
    if s.updated_at == 0
    then s
    else if ltb confirm_ttl (now - s.updated_at)
    then record { fingerprint = ""; count = 0; updated_at = 0 }
    else s

-- One look at the portfolio: when, whether a rebalance is wanted, and which.
pub record Signal : Type 0 where
  pub now : ℕ
  pub raw_signal : Bool
  pub fingerprint : String

abbrev pub is_blank : Signal → Bool
is_blank o = not o.raw_signal || text_eq o.fingerprint ""

-- `_apply_rebalance_confirm_rounds`
unfoldable pub apply_rebalance_confirm_rounds :
    ℕ → Signal → ConfirmState → (Bool × ℕ) × ConfirmState
apply_rebalance_confirm_rounds rounds o s0 =
    let s = cleanup_rebalance_confirm_cache o.now s0 in
    let count = if text_eq s.fingerprint o.fingerprint then s.count + 1 else 1 in
    if is_blank o
    then ((false, 0), record { fingerprint = ""; count = 0; updated_at = o.now })
    else (
      (leb (max 1 rounds) count, count),
      record { fingerprint = o.fingerprint; count = count; updated_at = o.now },
    )

-- The lock file: who wrote it, and when.
pub record CycleLock : Type 0 where
  pub owner : ℕ
  pub mtime : ℕ

pub data LockResult : Type 0 where
  acquired lock_stale_remove_failed lock_busy : LockResult

abbrev pub lock_stale_secs : ℕ
lock_stale_secs = 180

-- One process's try: the removal of a stale file works or not, and another process may have written the
-- file again before the second try.
pub record Race : Type 0 where
  pub removable : Bool
  pub rewritten : Option CycleLock

abbrev try_again : ℕ → ℕ → Race → Option CycleLock → LockResult × Option CycleLock
try_again me now race none = (acquired, some (record { owner = me; mtime = now }))
try_again me now race (some l) =
    if ltb lock_stale_secs (now - l.mtime)
    then (if race.removable then (lock_busy, none) else (lock_stale_remove_failed, some l))
    else (lock_busy, some l)

-- `_acquire_cycle_file_lock`
pub acquire_cycle_file_lock : ℕ → ℕ → Race → Option CycleLock → LockResult × Option CycleLock
acquire_cycle_file_lock me now race none = (acquired, some (record { owner = me; mtime = now }))
acquire_cycle_file_lock me now race (some l) =
    if ltb lock_stale_secs (now - l.mtime)
    then (if race.removable
        then try_again me now race race.rewritten
        else (lock_stale_remove_failed, some l))
    else (lock_busy, some l)

-- `_release_cycle_file_lock`, which removes the file if it can, whoever wrote it
abbrev pub release_cycle_file_lock : Bool → Option CycleLock → Option CycleLock
release_cycle_file_lock removable l = if removable then none else l
