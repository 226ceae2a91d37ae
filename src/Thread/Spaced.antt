-- ===== src/Thread/Spaced.antt =====
-- The runs of `Tick1S` by the loop of src/base/BaseThread.cpp are more than a second apart.
use ttserver.Base.{
  ℕ, zero, suc, ◌+◌, ◌≤◌, ◌<◌, ◌≡◌, refl, ◌⊎◌, inl, inr, Bool, true, false, List, [], ◌∷◌, ◌++◌,
  append-nil, subst, if◌then◌else◌, arith,
}
use ttserver.Thread.{
  Env, Clock, now_update, Tasks, Kind, every_interval, every_1s, every_5s, every_10s, every_20s,
  Thread, Ran, Checked, check_tick, run_round, run,
}
use ttserver.Thread.Ticks.{
  IsClock, IsTimed, IsTimely, AreTimely, IsCheck, check_tick-IsCheck, now_update-IsTimely,
}

unfoldable pub is_1s : Kind → Bool
is_1s every_1s = true
is_1s _ = false

-- The times at which `Tick1S` ran.
unfoldable pub times_1s : List Ran → List ℕ
times_1s [] = []
times_1s ((kind, at) ∷ ran) = let rest = times_1s ran in if is_1s kind then at ∷ rest else rest

unfoldable pub all_times_1s : List (List Ran) → List ℕ
all_times_1s [] = []
all_times_1s (ran ∷ rest) = times_1s ran ++ all_times_1s rest

-- Each time is more than 1000 milliseconds after the one before, the first one after `last`.
unfoldable pub IsSpaced : ℕ → List ℕ → Type 0
IsSpaced last [] = Unit
IsSpaced last (at ∷ ats) = (last + 1000 < at) × IsSpaced at ats

IsSpaced-le : (a b : ℕ) (ats : List ℕ) → a ≤ b → IsSpaced b ats → IsSpaced a ats
unfolding IsSpaced
IsSpaced-le a b [] h s = tt
IsSpaced-le a b (at ∷ ats) h s = (omega (arith, s.0), s.1)

times_1s-append : (xs ys : List Ran) → times_1s (xs ++ ys) ≡ times_1s xs ++ times_1s ys
unfolding times_1s
times_1s-append [] ys = refl
times_1s-append ((kind, at) ∷ xs) ys = ground (arith, times_1s-append xs ys)

-- A thread whose ticks ran last before its present time.
unfoldable pub IsThread : {S : Type 0} → Clock → Thread S → Type 0
IsThread clock t =
    IsTimed clock t.env
    × (t.last_tick_time ≤ t.env.now.millisecond)
    × (t.last_tick_time1s ≤ t.env.now.millisecond)
    × (t.last_tick_time5s ≤ t.env.now.millisecond)
    × (t.last_tick_time10s ≤ t.env.now.millisecond)
    × (t.last_tick_time20s ≤ t.env.now.millisecond)

module _ {S : Type 0} (clock : Clock) where
  check-times_1s :
      (kind : Kind) (limit last : ℕ) (e : Env S) (c : Checked S)
      → is_1s kind ≡ false
      → IsCheck clock kind limit last e c
      → times_1s c.ran ≡ []
  unfolding times_1s IsCheck
  check-times_1s kind limit last e c h (_, _, _, inl (none_ran, _)) = rw none_ran refl
  check-times_1s kind limit last e c h (_, _, _, inr (one_ran, _, _)) = rw (one_ran, h) refl

-- `Tick1S` did not run, or it ran at a time more than a second after the last time.
unfoldable pub IsStep1s : ℕ → ℕ → List ℕ → Type 0
IsStep1s last last1 ats =
    ((ats ≡ []) × (last1 ≡ last)) ⊎ ((at : ℕ) × (ats ≡ at ∷ []) × (last + 1000 < at) × (at ≤ last1))

step-IsSpaced :
    (last last1 : ℕ) (ats rest : List ℕ)
    → IsStep1s last last1 ats
    → IsSpaced last1 rest
    → IsSpaced last (ats ++ rest)
unfolding IsStep1s IsSpaced
step-IsSpaced last last1 ats rest (inl (e, same)) s = rw e (subst (λ l. IsSpaced l rest) same s)
step-IsSpaced last last1 ats rest (inr (at, e, far, before)) s =
    rw e (far, IsSpaced-le at last1 rest before s)

module _ {S : Type 0} (clock : Clock) (steady : IsClock clock) (tasks : Tasks S)
    (timely : AreTimely clock tasks) where
  check-IsStep1s :
      (last : ℕ) (e : Env S) (c : Checked S)
      → IsCheck clock every_1s 1000 last e c
      → IsStep1s last c.last (times_1s c.ran)
  unfolding times_1s IsCheck IsStep1s is_1s
  check-IsStep1s last e c (_, _, _, inl (none_ran, kept)) = inl (rw none_ran refl, kept)
  check-IsStep1s last e c (_, _, _, inr (one_ran, far, before)) =
      inr (e.now.millisecond, rw one_ran refl, far, before)

  -- The five checks in a row.
  checks-IsStep1s :
      (l0 l1 l5 l10 l20 n0 : ℕ) (e : Env S) (c0 c1 c5 c10 c20 : Checked S)
      → IsCheck clock every_interval n0 l0 e c0
      → IsCheck clock every_1s 1000 l1 c0.env c1
      → IsCheck clock every_5s 5000 l5 c1.env c5
      → IsCheck clock every_10s 10000 l10 c5.env c10
      → IsCheck clock every_20s 20000 l20 c10.env c20
      → IsStep1s l1 c1.last (times_1s (c0.ran ++ (c1.ran ++ (c5.ran ++ (c10.ran ++ c20.ran)))))
  unfolding is_1s
  checks-IsStep1s l0 l1 l5 l10 l20 n0 e c0 c1 c5 c10 c20 k0 k1 k5 k10 k20 =
      let only : times_1s (c0.ran ++ (c1.ran ++ (c5.ran ++ (c10.ran ++ c20.ran))))
          ≡ times_1s c1.ran =
        rw
          (
            times_1s-append c0.ran (c1.ran ++ (c5.ran ++ (c10.ran ++ c20.ran))),
            times_1s-append c1.ran (c5.ran ++ (c10.ran ++ c20.ran)),
            times_1s-append c5.ran (c10.ran ++ c20.ran),
            times_1s-append c10.ran c20.ran,
            check-times_1s clock every_interval n0 l0 e c0 refl k0,
            check-times_1s clock every_5s 5000 l5 c1.env c5 refl k5,
            check-times_1s clock every_10s 10000 l10 c5.env c10 refl k10,
            check-times_1s clock every_20s 20000 l20 c10.env c20 refl k20,
          )
          (append-nil (times_1s c1.ran)) in
      rw only (check-IsStep1s l1 c0.env c1 k1)

  run_round-IsThread :
      (t : Thread S)
      → IsThread clock t
      → IsThread clock (run_round clock tasks t).0
        × IsStep1s t.last_tick_time1s
            (run_round clock tasks t).0.last_tick_time1s
            (times_1s (run_round clock tasks t).1)
  unfolding run_round IsThread IsTimely IsCheck
  run_round-IsThread t (timed, h0, h1, h5, h10, h20) =
      let updated = now_update-IsTimely S clock steady t.env timed in
      let done = timely.proc (now_update clock t.env) updated.0 in
      let e1 : Env S = tasks.proc (now_update clock t.env) in
      let c0 : Checked S =
        check_tick every_interval t.tick_interval t.last_tick_time tasks.tick e1 in
      let k0 =
        check_tick-IsCheck clock every_interval t.tick_interval t.last_tick_time tasks.tick e1
          timely.tick done.0 (omega arith) in
      let c1 : Checked S = check_tick every_1s 1000 t.last_tick_time1s tasks.tick1s c0.env in
      let k1 =
        check_tick-IsCheck clock every_1s 1000 t.last_tick_time1s tasks.tick1s c0.env timely.tick1s
          k0.0 (omega (arith, k0.1)) in
      let c5 : Checked S = check_tick every_5s 5000 t.last_tick_time5s tasks.tick5s c1.env in
      let k5 =
        check_tick-IsCheck clock every_5s 5000 t.last_tick_time5s tasks.tick5s c1.env timely.tick5s
          k1.0 (omega (arith, k0.1, k1.1)) in
      let c10 : Checked S = check_tick every_10s 10000 t.last_tick_time10s tasks.tick10s c5.env in
      let k10 =
        check_tick-IsCheck clock every_10s 10000 t.last_tick_time10s tasks.tick10s c5.env
          timely.tick10s k5.0 (omega (arith, k0.1, k1.1, k5.1)) in
      let c20 : Checked S = check_tick every_20s 20000 t.last_tick_time20s tasks.tick20s c10.env in
      let k20 =
        check_tick-IsCheck clock every_20s 20000 t.last_tick_time20s tasks.tick20s c10.env
          timely.tick20s k10.0 (omega (arith, k0.1, k1.1, k5.1, k10.1)) in
      (
        (
          k20.0,
          omega (arith, k0.2, k1.1, k5.1, k10.1, k20.1),
          omega (arith, k1.2, k5.1, k10.1, k20.1),
          omega (arith, k5.2, k10.1, k20.1),
          omega (arith, k10.2, k20.1),
          k20.2,
        ),
        checks-IsStep1s t.last_tick_time t.last_tick_time1s t.last_tick_time5s t.last_tick_time10s
            t.last_tick_time20s t.tick_interval e1 c0 c1 c5 c10 c20 k0 k1 k5 k10 k20,
      )

  -- tbd
  pub run-IsSpaced :
      (n : ℕ) (t : Thread S)
      → IsThread clock t
      → IsSpaced t.last_tick_time1s (all_times_1s (run clock tasks n t).1)
  unfolding run all_times_1s IsSpaced
  run-IsSpaced zero t h = tt
  run-IsSpaced (suc n) t h =
      let (next, step) = run_round-IsThread t h in
      step-IsSpaced t.last_tick_time1s _ _ _ step (run-IsSpaced n (run_round clock tasks t).0 next)
