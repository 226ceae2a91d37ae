-- ===== src/System/Proc.antt =====
-- The events of the sockets: `NetWorkMgr::Proc` of src/net/NetWorkMgr.cpp and `ProcIOEvent` of
-- src/net/NetWork.cpp. The number of packets is not kept: `NetThread::Proc` drops it.
use ttserver.Base.{
  ℕ, zero, suc, ◌/◌, ◌%◌, Bool, true, false, not, List, [], ◌∷◌, ◌++◌, Option, none, some, ◌==◌,
  if◌then◌else◌, mem, ltb, ℤ, pos, negsuc,
}
use ttserver.Library.{Library, SockAddr}
use ttserver.Host.{Ret}
use ttserver.Net.{World}
use ttserver.Net.Client.{send_handshake1_msg, send_heart_beat}
use ttserver.Net.Io.{Datagram, SendAnswer, do_io_read, do_io_write}
use ttserver.System.Calls.{Trace, close, Os, call}
use ttserver.System.Poll.{EpollMgr, Ready, poll_del, poll_wait, poll_event}
use ttserver.System.NetWorks.{NetWorkMgr, epollin, epollout}

abbrev pub has_bit : ℕ → ℕ → Bool
has_bit bits bit = (bits / bit) % 2 == 1

-- What the socket holds and answers while one event is handled.
pub record SocketIo : Type 0 where
  pub datagrams : List Datagram
  pub answers : List SendAnswer

-- The world, the calls so far, and the datagrams that left.
pub record Running (K : Type 0) : Type 0 where
  pub world : World K
  pub trace : Trace
  pub sent : List Datagram

module _ {K : Type 0} where
  abbrev pub was_read : Running K → Option (List Datagram × World K) → Option (Running K)
  was_read s none = none
  was_read s (some (ds, w)) = some (record s { world = w })

  abbrev pub was_written : Running K → Option (List Datagram × World K) → Option (Running K)
  was_written s none = none
  was_written s (some (ds, w)) = some (record s { world = w; sent = s.sent ++ ds })

  abbrev pub write_if : Bool → List SendAnswer → Option (Running K) → Option (Running K)
  write_if b answers none = none
  write_if true answers (some s) = was_written s (do_io_write answers s.world)
  write_if false answers (some s) = some s

module _ {K : Type 0} (lib : Library K) where
  abbrev pub read_if : Bool → List Datagram → Running K → Option (Running K)
  read_if true ds s = was_read s (do_io_read lib ds s.world)
  read_if false ds s = some s

  -- `ProcIOEvent`: reads, then writes.
  unfoldable pub proc_io_event : ℕ → SocketIo → Running K → Option (Running K)
  proc_io_event events io s =
      write_if (has_bit events epollout) io.answers
        (read_if (has_bit events epollin) io.datagrams s)

  module _ (os : Os) (m : NetWorkMgr) where
    -- A descriptor without a `NetWork` is no longer watched, and closed.
    unfoldable pub forget_fd : ℕ → Running K → Running K
    forget_fd fd s =
        let (_, t1) = poll_del os fd s.trace in
        let (_, t2) = call os (close fd) t1 in record s { trace = t2 }

    -- The body of the loop of `Proc`.
    unfoldable pub handle_event : Ready → SocketIo → Running K → Option (Running K)
    handle_event e io s =
        if not (mem e.fd m.map_network)
        then some (forget_fd e.fd s)
        else proc_io_event e.events io s

    -- The loop; `io i` is what the sockets hold at the event `i`. `none` stands for a run that reads
    -- freed memory, or for too little fuel.
    unfoldable pub proc_events :
        ℕ → (ℕ → SocketIo) → EpollMgr → Running K → Option (EpollMgr × Running K)
    proc_events zero io p s = none
    proc_events (suc fuel) io p s = elim (poll_event p) [
      | none ↦ some (p, s)
      | some next ↦ elim (handle_event next.0 (io p.event_idx) s) [
        | none ↦ none
        | some s1 ↦ proc_events fuel io next.1 s1
      ]
    ]

    abbrev pub polled : (ℕ → SocketIo) → ℤ × EpollMgr → Running K → Option (EpollMgr × Running K)
    polled io (negsuc _, p) s = some (p, s)
    polled io (pos zero, p) s = some (p, s)
    polled io (pos (suc n), p) s = proc_events (suc (suc n)) io p s

    -- `Proc` at the time `now`, where `epoll_wait` gives `answer` if it is called.
    unfoldable pub proc :
        ℕ
        → Option (List Ready)
        → (ℕ → SocketIo)
        → EpollMgr
        → Running K
        → Option (EpollMgr × Running K)
    proc now answer io p s = polled io (poll_wait p now answer) s

-- `SendHandShake1Msg`, `SendHeartBeat` and `ClientConnected` through the first `NetWork` of the map;
-- `none`: the map is empty, and its end is read.
abbrev pub first_network : {A : Type 0} → NetWorkMgr → Option A → Option A
first_network m a = elim m.map_network [ [] ↦ none | fd ∷ fds ↦ a ]

abbrev pub world_after : {K : Type 0} → Option (Ret × World K) → Option (World K)
world_after none = none
world_after (some (r, w)) = some w

unfoldable pub client_connected : {K : Type 0} → NetWorkMgr → World K → Option Bool
client_connected m w = first_network m (some (ltb 0 w.conn_id))

unfoldable pub send_handshake1 : {K : Type 0} → NetWorkMgr → World K → SockAddr → Option (World K)
send_handshake1 m w addr = first_network m (some (send_handshake1_msg w addr).1)

unfoldable pub send_heartbeat : {K : Type 0} → NetWorkMgr → World K → SockAddr → Option (World K)
send_heartbeat m w addr = first_network m (world_after (send_heart_beat w addr))
