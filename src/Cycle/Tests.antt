-- ===== src/Cycle/Tests.antt =====
-- Signals and lock files at concrete times.
use arbitrage_station.Base.{
  ℕ, suc, ◌≡◌, refl, true, ◌&&◌, not, none, some, List, [], ◌∷◌, leb, max, arith,
}
use arbitrage_station.Cycle.{
  Signal, CycleLock, Race, acquired, acquire_cycle_file_lock, release_cycle_file_lock,
  apply_rebalance_confirm_rounds, is_blank,
}
use arbitrage_station.Cycle.Confirm.{confirm_all, streak, confirm_rounds}
use arbitrage_station.Cycle.Lock.{release_admits_another}

abbrev wanted_at : ℕ → Signal
wanted_at t = record { now = t; raw_signal = true; fingerprint = "a|b" }

abbrev earlier : List Signal
earlier = wanted_at 1060 ∷ wanted_at 1000 ∷ []

confirmed_third :
    (apply_rebalance_confirm_rounds 3 (wanted_at 1120) (confirm_all 3 earlier)).0 ≡ (true, 3)
unfolding apply_rebalance_confirm_rounds confirm_all
confirmed_third = refl

confirm_rounds_example :
    (apply_rebalance_confirm_rounds 3 (wanted_at 1120) (confirm_all 3 earlier)).0.0
    ≡ (not (is_blank (wanted_at 1120)) && leb (max 1 3) (suc (streak "a|b" 1120 earlier)))
confirm_rounds_example = confirm_rounds 3 (wanted_at 1120) earlier (ground arith)

abbrev calm : Race
calm = record { removable = true; rewritten = none }

abbrev old_lock : CycleLock
old_lock = record { owner = 4; mtime = 100 }

taken_over : (acquire_cycle_file_lock 5 400 calm (some old_lock)).0 ≡ acquired
unfolding acquire_cycle_file_lock
taken_over = refl

release_admits_another_example :
    let first = acquire_cycle_file_lock 1 100 calm none in
    let second = acquire_cycle_file_lock 2 400 calm first.1 in
    let third = acquire_cycle_file_lock 3 410 calm (release_cycle_file_lock true second.1) in
    (first.0 ≡ acquired) × (second.0 ≡ acquired) × (third.0 ≡ acquired)
release_admits_another_example = release_admits_another 1 2 3 100 400 410 (ground arith)
