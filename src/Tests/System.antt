-- ===== src/Tests/System.antt =====
-- The theorems on the sockets and on the loop over their events.
use ttserver.Base.{ℕ, ◌≡◌, arith, List, [], ◌∷◌, some, pos, negsuc, ℤ}
use ttserver.System.Calls.{SysCall, socket, bind, Trace, Os}
use ttserver.System.Poll.{Ready, EpollMgr}
use ttserver.System.NetWorks.{NetWorkMgr, create_network}
use ttserver.System.Proc.{SocketIo, Running, proc}
use ttserver.System.Leaks.{IsOpened, create_network-IsOpened}
use ttserver.System.Events.{at_event, handle_all, polled_to, proc-handle_all}
use ttserver.Tests.Demo.{demo_library}
use ttserver.Tests.Net.{demo_world}

-- A system in which the port is taken.
abbrev taken : Trace → SysCall → ℤ
taken t socket = pos 7
taken t (bind fd ip port) = negsuc 0
taken t _ = pos 0

abbrev pub demo_os : Os
demo_os = record { result = taken; value = λ t c. 0 }

abbrev pub demo_networks : NetWorkMgr
demo_networks = record { port = 10000; map_network = 7 ∷ [] }

create_network-IsOpened_example :
    IsOpened
      ((socket, pos 7) ∷ [])
      demo_networks
      (create_network demo_os demo_networks 0 ((socket, pos 7) ∷ []))
create_network-IsOpened_example =
    create_network-IsOpened demo_os demo_networks 0 ((socket, pos 7) ∷ [])

abbrev pub demo_io : ℕ → SocketIo
demo_io i = record { datagrams = []; answers = [] }

abbrev pub demo_poll : EpollMgr
demo_poll = record { event_idx = 0; event_num = pos 0; epoll_wait_time = 0; events = [] }

abbrev pub demo_running : Running ℕ
demo_running = record { world = demo_world; trace = []; sent = [] }

-- The socket 7 can be read and written, the socket 9 has no network.
abbrev demo_events : List Ready
demo_events = record { fd = 7; events = 5 } ∷ record { fd = 9; events = 1 } ∷ []

proc-handle_all_example :
    proc demo_library demo_os demo_networks 10 (some demo_events) demo_io demo_poll demo_running
    ≡ polled_to demo_library demo_os demo_networks demo_io
        (at_event 10 2 2 demo_events)
        (handle_all demo_library demo_os demo_networks demo_io demo_events 0 demo_running)
proc-handle_all_example =
    proc-handle_all demo_library demo_os demo_networks demo_io 10 (record { fd = 7; events = 5 })
      (record { fd = 9; events = 1 } ∷ []) demo_poll demo_running (omega arith)
