-- ===== src/Thread/Net.antt =====
-- src/net/NetThread.cpp and `NetMgr::Proc`, `Tick1S`, `Tick20S` of src/net/NetMgr.cpp: what the network
-- thread does in a round, with all components behind it.
use ttserver.Base.{ℕ, ◌<◌, ◌≡◌, List, [], ◌∷◌, Option, none, some, arith, map}
use ttserver.Library.{Library}
use ttserver.Ring.Defs.{RingQueue}
use ttserver.Cookie.{tick20s}
use ttserver.Net.{World}
use ttserver.Net.Manager
use ttserver.Mgr.Work.{proc_m2n_msg}
use ttserver.System.Calls.{Os}
use ttserver.System.Poll.{EpollMgr, Ready}
use ttserver.System.NetWorks.{NetWorkMgr}
use ttserver.System.Proc.{SocketIo, Running}
use ttserver.System.Proc
use ttserver.Thread.{
  to_ms, Now, Clock, now_update, Tasks, every_interval, every_1s, every_5s, every_10s, every_20s,
  new_thread, run_round, run,
}
use ttserver.Thread.Ticks.{IsClock, IsTimed, IsTimely, AreTimely, now_update-IsTimely}
use ttserver.Thread.Spaced.{IsSpaced, IsThread, all_times_1s, run-IsSpaced}
use ttserver.Thread.First.{run_round-new_thread}

-- What the thread's functions share: the sockets' world, the events, and the ring of messages from the
-- business thread.
pub record Server (K : Type 0) : Type 0 where
  pub running : Running K
  pub poll : EpollMgr
  pub m2n : RingQueue

-- What comes from outside in one round: the events, the sockets, and what the business thread has done
-- to the ring since the last round.
pub record Input : Type 0 where
  pub answer : Option (List Ready)
  pub io : ℕ → SocketIo
  pub arrive : RingQueue → RingQueue

module _ {K : Type 0} where
  -- The connections read the time of `Now`.
  abbrev pub with_time : Now → World K → World K
  with_time n w = record w { host = record w.host { now = n.sec; now_ms = n.millisecond } }

  abbrev pub put_world : Server K → World K → Server K
  put_world s w = record s { running = record s.running { world = w } }

  abbrev pub tick_done : Server K → Option (World K) → Option (Server K)
  tick_done s none = none
  tick_done s (some w) = some (put_world s w)

module _ {K : Type 0} (lib : Library K) (os : Os) (m : NetWorkMgr) (fuel : ℕ) where
  -- `NetConnectMgr::Proc` behind `ProcM2NMsg`.
  abbrev pub conns_done : Server K → Option (ℕ × RingQueue × World K) → Option (Server K)
  conns_done s none = none
  conns_done s (some (num, q, w)) = tick_done (record s { m2n = q }) (Manager.proc lib fuel w)

  -- `ProcM2NMsg` behind `NetWorkMgr::Proc`.
  abbrev pub events_done :
      Server K → (RingQueue → RingQueue) → Option (EpollMgr × Running K) → Option (Server K)
  events_done s arrive none = none
  events_done s arrive (some (p, r)) =
      conns_done (record s { running = r; poll = p })
        (proc_m2n_msg lib fuel 0 (arrive s.m2n) r.world)

  -- `NetMgr::Proc`: the events, the messages of the business thread, the connections.
  unfoldable pub net_mgr_proc : Now → Input → Server K → Option (Server K)
  net_mgr_proc n input s =
      let timed = put_world s (with_time n s.running.world) in
      events_done s input.arrive
        (Proc.proc lib os m n.millisecond input.answer input.io s.poll timed.running)

  -- `NetMgr::Tick1S`.
  unfoldable pub net_mgr_tick1s : Now → Server K → Option (Server K)
  net_mgr_tick1s n s = tick_done s (Manager.tick1s lib (with_time n s.running.world))

  -- `NetMgr::Tick20S`.
  unfoldable pub net_mgr_tick20s : Now → Server K → Option (Server K)
  net_mgr_tick20s n s =
      let w = s.running.world in
      some (put_world s (record w { cookie_mgr = tick20s w.cookie_mgr n.sec }))

  abbrev pub on_server : (Server K → Option (Server K)) → Option (Server K) → Option (Server K)
  on_server f none = none
  on_server f (some s) = f s

  -- `NetThread`'s functions; the state is `none` once a call has read freed memory or has not
  -- returned. `inputs` gives what comes from outside, by the readings of the clock.
  unfoldable pub net_tasks : Clock → (ℕ → Input) → Tasks (Option (Server K))
  net_tasks clock inputs = record {
    proc = λ e.
        now_update clock
          (record e { state = on_server (net_mgr_proc e.now (inputs e.reads)) e.state });
    tick = λ e. e;
    tick1s = λ e. record e { state = on_server (net_mgr_tick1s e.now) e.state };
    tick5s = λ e. e;
    tick10s = λ e. e;
    tick20s = λ e. record e { state = on_server (net_mgr_tick20s e.now) e.state };
  }

  module _ (clock : Clock) (inputs : ℕ → Input) where
    net_tasks-AreTimely : IsClock clock → AreTimely clock (net_tasks clock inputs)
    unfolding net_tasks IsTimely IsTimed
    net_tasks-AreTimely steady = record {
      proc = λ e timed. now_update-IsTimely _ clock steady _ timed;
      tick = λ e timed. (timed, omega arith);
      tick1s = λ e timed. (timed, omega arith);
      tick5s = λ e timed. (timed, omega arith);
      tick10s = λ e timed. (timed, omega arith);
      tick20s = λ e timed. (timed, omega arith);
    }

    -- With a clock that does not go back and whose milliseconds fit 64 bits, in every number of
    -- rounds of a new network thread: each run of Tick1S starts more than 1000 ms after the start
    -- of the one before.
    pub net_tasks-IsSpaced :
        IsClock clock
        → (n : ℕ) (s : Option (Server K))
        → IsSpaced 0 (all_times_1s (run clock (net_tasks clock inputs) n (new_thread s)).1)
    unfolding IsThread IsTimed new_thread
    net_tasks-IsSpaced steady n s =
        let start : IsThread clock (new_thread s) = (
          (omega arith, omega arith),
          omega arith,
          omega arith,
          omega arith,
          omega arith,
          omega arith,
        ) in
        run-IsSpaced clock steady (net_tasks clock inputs) (net_tasks-AreTimely steady) n
          (new_thread s) start

    -- With a clock that does not go back, whose milliseconds fit 64 bits and whose first reading
    -- is more than 20 seconds after 0: the first round of a new network thread runs all five
    -- ticks, since its last ticks are taken from the thread's own clock before its first update,
    -- which shows 0.
    pub run_round-net_tasks :
        (s : Option (Server K))
        → IsClock clock
        → 20000 < to_ms (clock.times 0)
        → map (λ (kind, at). kind) (run_round clock (net_tasks clock inputs) (new_thread s)).1
          ≡ every_interval ∷ every_1s ∷ every_5s ∷ every_10s ∷ every_20s ∷ []
    run_round-net_tasks s steady h =
        run_round-new_thread clock (net_tasks clock inputs) s steady (net_tasks-AreTimely steady) h
