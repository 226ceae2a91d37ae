-- ===== src/Tests/Thread.antt =====
-- The theorems on the threads, with a clock that shows one more second at each reading.
use ttserver.Base.{ℕ, ◌+◌, ◌≡◌, arith, true, Bool, List, [], ◌∷◌, none, some, ltb, min, map, lt→ltb}
use ttserver.Ring.Defs.{new_ring}
use ttserver.Thread.{
  Clock, every_interval, every_1s, every_5s, every_10s, every_20s, new_thread, new_now, now_update,
  run_round, run,
}
use ttserver.Thread.Ticks.{IsClock}
use ttserver.Thread.Spaced.{IsSpaced, all_times_1s}
use ttserver.Thread.Net.{Server, Input, net_tasks, net_tasks-IsSpaced, run_round-net_tasks}
use ttserver.Thread.Client.{Asked, connect, is_over, IsApart, connect-is_over}
use ttserver.Tests.Demo.{demo_library, zero_mem}
use ttserver.Tests.System.{demo_os, demo_networks, demo_io, demo_poll, demo_running}

abbrev demo_clock : Clock
demo_clock = record {
  times = λ n. record { sec = min (100 + n) 1000; usec = 0 };
  local_text = λ s. none;
}

demo_clock-IsClock : IsClock demo_clock
unfolding IsClock
demo_clock-IsClock = (λ n. omega arith, λ n. omega arith)

abbrev demo_server : Server ℕ
demo_server = record { running = demo_running; poll = demo_poll; m2n = new_ring zero_mem 64 }

abbrev inputs : ℕ → Input
inputs n = record { answer = none; io = demo_io; arrive = λ q. q }

net_tasks-IsSpaced_example : IsSpaced 0 (
    all_times_1s
      (run demo_clock
        (net_tasks demo_library demo_os demo_networks 100 demo_clock inputs)
        5
        (new_thread (some demo_server))).1)
net_tasks-IsSpaced_example =
    net_tasks-IsSpaced demo_library demo_os demo_networks 100 demo_clock inputs demo_clock-IsClock 5
      (some demo_server)

run_round-net_tasks_example :
    map
      (λ (kind, at). kind)
      (run_round demo_clock
        (net_tasks demo_library demo_os demo_networks 100 demo_clock inputs)
        (new_thread (some demo_server))).1
    ≡ every_interval ∷ every_1s ∷ every_5s ∷ every_10s ∷ every_20s ∷ []
run_round-net_tasks_example =
    run_round-net_tasks demo_library demo_os demo_networks 100 demo_clock inputs (some demo_server)
      demo_clock-IsClock (omega arith)

abbrev client : Asked
client = record { now = new_now; reads = 0; state = 0 }

-- The connection is there from the fourth question on.
abbrev says_yes : ℕ → Bool
says_yes n = ltb 2 n

connect-is_over_example :
    let sent = connect demo_clock says_yes 4 client in
    (is_over sent ≡ true)
    × (secs : List ℕ) × (sent.0 ≡ 0 ∷ secs)
    × IsApart 5 (now_update demo_clock client).now.sec secs
connect-is_over_example =
    connect-is_over demo_clock says_yes 3 3 client (λ n h. lt→ltb 2 n (omega arith)) (omega arith)
