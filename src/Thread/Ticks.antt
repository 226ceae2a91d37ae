-- ===== src/Thread/Ticks.antt =====
-- When the ticks of src/base/BaseThread.cpp run: never twice within their interval.
use ttserver.Base.{
  ℕ, suc, ◌+◌, ◌-◌, ◌^◌, ◌≤◌, ◌<◌, ◌≡◌, refl, ◌⊎◌, inl, inr, [], ◌∷◌, ltb, ◌==◌, arith, Bool-cases,
}
use ttserver.Thread.{
  to_ms, update, Env, Clock, now_update, Tasks, Kind, elapsed, Checked, check_tick,
}

-- The clock does not go back, and its milliseconds fit 64 bits.
unfoldable pub IsClock : Clock → Type 0
IsClock clock =
    ((n : ℕ) → to_ms (clock.times n) ≤ to_ms (clock.times (suc n)))
    × ((n : ℕ) → to_ms (clock.times n) < 2 ^ 64)

-- The thread's time is not past what the next reading gives.
unfoldable pub IsTimed : {S : Type 0} → Clock → Env S → Type 0
IsTimed clock e = (e.now.millisecond ≤ to_ms (clock.times e.reads)) × (e.now.millisecond < 2 ^ 64)

-- A function that moves the thread's time forward only.
unfoldable pub IsTimely : {S : Type 0} → Clock → (Env S → Env S) → Type 0
IsTimely clock f =
    (e : Env _)
    → IsTimed clock e
    → IsTimed clock (f e) × (e.now.millisecond ≤ (f e).now.millisecond)

-- What the loop asks of the functions that it calls.
pub record AreTimely {S : Type 0} (clock : Clock) (tasks : Tasks S) : Type 0 where
  pub proc : IsTimely clock tasks.proc
  pub tick : IsTimely clock tasks.tick
  pub tick1s : IsTimely clock tasks.tick1s
  pub tick5s : IsTimely clock tasks.tick5s
  pub tick10s : IsTimely clock tasks.tick10s
  pub tick20s : IsTimely clock tasks.tick20s

pub now_update-millisecond :
    {S : Type 0} (clock : Clock) (e : Env S)
    → (now_update clock e).now.millisecond ≡ to_ms (clock.times e.reads)
unfolding now_update update
now_update-millisecond clock e = elim (Bool-cases (e.now.sec == (clock.times e.reads).sec)) [
  | inl h ↦ rw h refl
  | inr h ↦ rw h refl
]

pub now_update-IsTimely :
    (S : Type 0) (clock : Clock) → IsClock clock → IsTimely {S = S} clock (now_update clock)
unfolding IsClock IsTimed IsTimely now_update
now_update-IsTimely S clock h e timed =
    let at = now_update-millisecond clock e in
    let later = h.0 e.reads in let small = h.1 e.reads in ((omega arith, omega arith), omega arith)

pub elapsed-le : (now last : ℕ) → last ≤ now → now < 2 ^ 64 → elapsed now last ≡ now - last
unfolding elapsed
elapsed-le now last h small = omega arith

-- What a check does where its time is not past the thread's: it runs nothing and keeps its time, or it
-- runs the tick more than `limit` milliseconds after it.
unfoldable pub IsCheck : {S : Type 0} → Clock → Kind → ℕ → ℕ → Env S → Checked S → Type 0
IsCheck clock kind limit last e c =
    IsTimed clock c.env
    × (e.now.millisecond ≤ c.env.now.millisecond)
    × (c.last ≤ c.env.now.millisecond)
    × (((c.ran ≡ []) × (c.last ≡ last))
        ⊎ ((c.ran ≡ (kind, e.now.millisecond) ∷ [])
            × (last + limit < e.now.millisecond)
            × (e.now.millisecond ≤ c.last)))

module _ {S : Type 0} (clock : Clock) where
  pub check_tick-IsCheck :
      (kind : Kind) (limit last : ℕ) (task : Env S → Env S) (e : Env S)
      → IsTimely clock task
      → IsTimed clock e
      → last ≤ e.now.millisecond
      → IsCheck clock kind limit last e (check_tick kind limit last task e)
  unfolding check_tick IsCheck IsTimely IsTimed
  check_tick-IsCheck kind limit last task e f timed h =
      let passed = elapsed-le e.now.millisecond last h timed.1 in
      let after = f e timed in
      elim (Bool-cases (ltb limit (elapsed e.now.millisecond last))) [
        | inl g ↦
            let far : last + limit < e.now.millisecond = ground arith in
            rw g (after.0, after.1, omega arith, inr (refl, far, after.1))
        | inr g ↦ rw g (timed, omega arith, h, inl (refl, refl))
      ]
