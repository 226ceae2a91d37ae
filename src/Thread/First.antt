-- ===== src/Thread/First.antt =====
-- The first round of a thread of src/base/BaseThread.cpp: its clock starts at 0, so all ticks are due.
use ttserver.Base.{ℕ, ◌≤◌, ◌<◌, ◌≡◌, refl, true, [], ◌∷◌, map, ltb, arith}
use ttserver.Thread.{
  to_ms, Env, Clock, now_update, Tasks, Kind, every_interval, every_1s, every_5s, every_10s,
  every_20s, new_thread, elapsed, Checked, check_tick, run_round, new_now,
}
use ttserver.Thread.Ticks.{
  IsClock, IsTimed, IsTimely, AreTimely, now_update-IsTimely, now_update-millisecond, elapsed-le,
}

-- The thread's time is behind the first twenty seconds.
unfoldable IsLate : {S : Type 0} → Clock → Env S → Type 0
IsLate clock e = IsTimed clock e × (20000 < e.now.millisecond)

module _ {S : Type 0} (clock : Clock) where
  check_tick-IsLate :
      (kind : Kind) (limit : ℕ) (task : Env S → Env S) (e : Env S)
      → IsTimely clock task
      → limit ≤ 20000
      → IsLate clock e
      → ((check_tick kind limit 0 task e).ran ≡ (kind, e.now.millisecond) ∷ [])
        × IsLate clock (check_tick kind limit 0 task e).env
  unfolding check_tick IsLate IsTimely IsTimed
  check_tick-IsLate kind limit task e f h late =
      let passed = elapsed-le e.now.millisecond 0 (omega arith) late.0.1 in
      let due : ltb limit (elapsed e.now.millisecond 0) ≡ true = ground (arith, late.1) in
      let after = f e late.0 in rw due (refl, (after.0, omega (arith, late.1, after.1)))

  -- tbd
  pub run_round-new_thread :
      (tasks : Tasks S) (s : S)
      → IsClock clock
      → AreTimely clock tasks
      → 20000 < to_ms (clock.times 0)
      → map (λ (kind, at). kind) (run_round clock tasks (new_thread s)).1
        ≡ every_interval ∷ every_1s ∷ every_5s ∷ every_10s ∷ every_20s ∷ []
  unfolding run_round new_thread IsLate IsTimely IsTimed
  run_round-new_thread tasks s steady timely h =
      let e0 : Env S = record { now = new_now; reads = 0; state = s } in
      let start : IsTimed clock e0 = (omega arith, omega arith) in
      let updated = now_update-IsTimely S clock steady e0 start in
      let at = now_update-millisecond clock e0 in
      let done = timely.proc (now_update clock e0) updated.0 in
      let e1 : Env S = tasks.proc (now_update clock e0) in
      let late : IsLate clock e1 = (done.0, omega (arith, done.1)) in
      let c0 : Checked S = check_tick every_interval 100 0 tasks.tick e1 in
      let k0 = check_tick-IsLate every_interval 100 tasks.tick e1 timely.tick (omega arith) late in
      let c1 : Checked S = check_tick every_1s 1000 0 tasks.tick1s c0.env in
      let k1 =
        check_tick-IsLate every_1s 1000 tasks.tick1s c0.env timely.tick1s (omega arith) k0.1 in
      let c5 : Checked S = check_tick every_5s 5000 0 tasks.tick5s c1.env in
      let k5 =
        check_tick-IsLate every_5s 5000 tasks.tick5s c1.env timely.tick5s (omega arith) k1.1 in
      let c10 : Checked S = check_tick every_10s 10000 0 tasks.tick10s c5.env in
      let k10 =
        check_tick-IsLate every_10s 10000 tasks.tick10s c5.env timely.tick10s (omega arith) k5.1 in
      let k20 =
        check_tick-IsLate every_20s 20000 tasks.tick20s c10.env timely.tick20s (omega arith)
          k10.1 in
      rw (k0.0, k1.0, k5.0, k10.0, k20.0) refl
