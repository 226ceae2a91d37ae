-- ===== src/Thread.antt =====
-- src/time/Now.cpp and src/base/BaseThread.cpp: the thread's clock, its main loop and its ticks.
-- `Thread.Ticks` says when the ticks run, `Thread.Net` is the network thread of src/net/NetThread.cpp.
pub mod Ticks
pub mod Spaced
pub mod Net
pub mod First
pub mod Client
use ttserver.Base.{
  ℕ, zero, suc, ◌+◌, ◌-◌, ◌*◌, ◌/◌, ◌%◌, ◌^◌, Bool, true, false, List, [], ◌∷◌, ◌++◌, Option, none,
  some, ltb, ◌==◌, if◌then◌else◌, ℤ,
}

-- `timeval`.
pub record Timeval : Type 0 where
  pub sec : ℕ
  pub usec : ℕ

-- The milliseconds of a time.
abbrev pub to_ms : Timeval → ℕ
to_ms t = t.sec * 1000 + t.usec / 1000

-- `Now`'s variables, of which every thread has its own: `TimeStamp` is `sec`.
pub record Now : Type 0 where
  pub sec : ℕ
  pub usec : ℕ
  pub millisecond : ℕ
  pub time_str : List ℕ

-- How they start in a thread.
abbrev pub new_now : Now
new_now = record { sec = 0; usec = 0; millisecond = 0; time_str = [] }

abbrev pub text_or_nothing : Option (List ℕ) → List ℕ
text_or_nothing none = []
text_or_nothing (some text) = text

-- `Update`, where `gettimeofday` gives `t`; `local_text` stands for `localtime_r` and `strftime`. The
-- text is made again in another second only.
unfoldable pub update : (ℕ → Option (List ℕ)) → Now → Timeval → Now
update local_text n t =
    let timed : Now = record n { sec = t.sec; usec = t.usec; millisecond = to_ms t } in
    if n.sec == t.sec then timed else record timed { time_str = text_or_nothing (local_text t.sec) }

-- What a thread's functions work on: its clock, how often it was read, and the program's state.
pub record Env (S : Type 0) : Type 0 where
  pub now : Now
  pub reads : ℕ
  pub state : S

-- How the time goes on: the times that `gettimeofday` gives, and their texts.
pub record Clock : Type 0 where
  pub times : ℕ → Timeval
  pub local_text : ℕ → Option (List ℕ)

-- `Now::Update` in a thread.
unfoldable pub now_update : {S : Type 0} → Clock → Env S → Env S
unfolding update
now_update clock e = record e {
  now = update clock.local_text e.now (clock.times e.reads);
  reads = suc e.reads;
}

-- The virtual functions of `BaseThread` that its loop calls.
pub record Tasks (S : Type 0) : Type 0 where
  pub proc : Env S → Env S
  pub tick : Env S → Env S
  pub tick1s : Env S → Env S
  pub tick5s : Env S → Env S
  pub tick10s : Env S → Env S
  pub tick20s : Env S → Env S

-- The five ticks.
pub data Kind : Type 0 where
  every_interval : Kind
  every_1s : Kind
  every_5s : Kind
  every_10s : Kind
  every_20s : Kind

-- When each tick ran last, and what it works on.
pub record Thread (S : Type 0) : Type 0 where
  pub tick_interval : ℕ
  pub last_tick_time : ℕ
  pub last_tick_time1s : ℕ
  pub last_tick_time5s : ℕ
  pub last_tick_time10s : ℕ
  pub last_tick_time20s : ℕ
  pub env : Env S

-- `BASE_THREAD_TICK_INTERVAL`.
abbrev pub base_tick_interval : ℕ
base_tick_interval = 100

-- The constructor and `ThreadMainFunc` up to `Run`: a new thread's clock has not been updated.
unfoldable pub new_thread : {S : Type 0} → S → Thread S
new_thread s =
    let e : Env _ = record { now = new_now; reads = 0; state = s } in
    record {
      tick_interval = base_tick_interval;
      last_tick_time = e.now.millisecond;
      last_tick_time1s = e.now.millisecond;
      last_tick_time5s = e.now.millisecond;
      last_tick_time10s = e.now.millisecond;
      last_tick_time20s = e.now.millisecond;
      env = e;
    }

-- `Now::TimeStampMS() - last`: the times are unsigned there.
unfoldable pub elapsed : ℕ → ℕ → ℕ
elapsed now last = (now + 2 ^ 64 - last) % 2 ^ 64

-- A tick that ran, and the time at which the loop called it.
abbrev pub Ran : Type 0
Ran = Kind × ℕ

-- What a check of the loop leaves: the time of the last run, what ran, and the state.
pub record Checked (S : Type 0) : Type 0 where
  pub last : ℕ
  pub ran : List Ran
  pub env : Env S

module _ {S : Type 0} where
  -- One check of the loop: the tick runs if more than `limit` milliseconds have passed.
  unfoldable pub check_tick : Kind → ℕ → ℕ → (Env S → Env S) → Env S → Checked S
  check_tick kind limit last task e =
      if ltb limit (elapsed e.now.millisecond last)
      then (let e1 = task e in
          record { last = e1.now.millisecond; ran = (kind, e.now.millisecond) ∷ []; env = e1 })
      else record { last = last; ran = []; env = e }

  -- The body of the loop of `Run`; `Idle` only sleeps.
  unfoldable pub run_round : Clock → Tasks S → Thread S → Thread S × List Ran
  run_round clock tasks t =
      let e1 = tasks.proc (now_update clock t.env) in
      let c0 = check_tick every_interval t.tick_interval t.last_tick_time tasks.tick e1 in
      let c1 = check_tick every_1s 1000 t.last_tick_time1s tasks.tick1s c0.env in
      let c5 = check_tick every_5s 5000 t.last_tick_time5s tasks.tick5s c1.env in
      let c10 = check_tick every_10s 10000 t.last_tick_time10s tasks.tick10s c5.env in
      let c20 = check_tick every_20s 20000 t.last_tick_time20s tasks.tick20s c10.env in
      (
        record t {
          last_tick_time = c0.last;
          last_tick_time1s = c1.last;
          last_tick_time5s = c5.last;
          last_tick_time10s = c10.last;
          last_tick_time20s = c20.last;
          env = c20.env;
        },
        c0.ran ++ (c1.ran ++ (c5.ran ++ (c10.ran ++ c20.ran))),
      )

  -- `Run` for a number of rounds, until another thread clears `m_bActive`: what ran in each.
  unfoldable pub run : Clock → Tasks S → ℕ → Thread S → Thread S × List (List Ran)
  run clock tasks zero t = (t, [])
  run clock tasks (suc n) t =
      let (t1, ran) = run_round clock tasks t in
      let (t2, rest) = run clock tasks n t1 in (t2, ran ∷ rest)
