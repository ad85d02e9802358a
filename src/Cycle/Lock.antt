-- ===== src/Cycle/Lock.antt =====
-- What the lock file of the cycles keeps apart, and what it does not.
use arbitrage_station.Base.{ℕ, ◌-◌, ◌<◌, ◌≡◌, true, Option, none, some, arith}
use arbitrage_station.Cycle.{
  CycleLock, Race, acquired, acquire_cycle_file_lock, release_cycle_file_lock, lock_stale_secs,
}

-- No file is there, or it is older than the limit.
abbrev pub IsFree : ℕ → Option CycleLock → Type 0
IsFree now none = Unit
IsFree now (some l) = lock_stale_secs < now - l.mtime

-- A process acquires the lock only if no file was there or the file was older than the limit, and then
-- the file is its own.
acquire_excludes :
    (me now : ℕ) (race : Race) (l : Option CycleLock)
    → (acquire_cycle_file_lock me now race l).0 ≡ acquired
    → IsFree now l
      × ((acquire_cycle_file_lock me now race l).1 ≡ some (record { owner = me; mtime = now }))
unfolding acquire_cycle_file_lock
acquire_excludes me now race none h = ground arith
acquire_excludes me now race (some l) h = ground arith

-- When a cycle has run for longer than the limit, a second process takes its lock over; as soon as the
-- first one releases, a third process acquires the lock at once, while the second still runs.
pub release_admits_another :
    (a b c start taken later : ℕ)
    → lock_stale_secs < taken - start
    → let race : Race = record { removable = true; rewritten = none } in
      let first = acquire_cycle_file_lock a start race none in
      let second = acquire_cycle_file_lock b taken race first.1 in
      let third = acquire_cycle_file_lock c later race (release_cycle_file_lock true second.1) in
      (first.0 ≡ acquired) × (second.0 ≡ acquired) × (third.0 ≡ acquired)
unfolding acquire_cycle_file_lock
release_admits_another a b c start taken later h = ground arith
