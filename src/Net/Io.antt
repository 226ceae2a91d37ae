-- ===== src/Net/Io.antt =====
-- `DoIORead` and `DoIOWrite` of src/net/NetWork.cpp, over what the socket answers.
use ttserver.Base.{
  ℕ, zero, suc, List, [], ◌∷◌, Option, none, some, ◌==◌, if◌then◌else◌, length, take,
}
use ttserver.Config.{max_net_recv_buf_len}
use ttserver.Library.{Library, SockAddr}
use ttserver.Msg.Decode.{Msg, decode_msg}
use ttserver.Host.{Packet, Ret, Ptr}
use ttserver.Conn.{NetConnect}
use ttserver.Conn.Packets.{on_io_write}
use ttserver.Net.{World, conn_at, put_conn}
use ttserver.Net.Serve.{handle_net_msg}

-- The answer of `sendto`: a number of bytes, `EAGAIN`, or another error.
pub data SendAnswer : Type 0 where
  sent again failed : SendAnswer

-- A datagram as it leaves or arrives.
pub record Datagram : Type 0 where
  pub addr : SockAddr
  pub bytes : List ℕ

-- What `sendto` is called with.
abbrev pub sent_datagram : Packet → Datagram
sent_datagram p = record { addr = p.client_addr; bytes = take p.buff_len p.buff }

-- The datagrams that left, and the world after.
abbrev pub Written : Type 0 → Type 0
Written K = List Datagram × World K

module _ {K : Type 0} where
  abbrev pub put_queue : World K → List Packet → World K
  put_queue w q = record w { host = record w.host { send_queue = q } }

  abbrev pub count_write : World K → Packet → Ptr → Option (NetConnect K) → Option (World K)
  count_write w p i none = none
  count_write w p i (some c) = some (record w { conns = put_conn i (on_io_write c p) w.conns })

  -- `OnIOWrite` through the packet's pointer.
  unfoldable pub written_to : World K → Packet → Option Ptr → Option (World K)
  written_to w p none = some w
  written_to w p (some i) = count_write w p i (conn_at i w.conns)

  abbrev pub and_sent : Packet → Option (Written K) → Option (Written K)
  and_sent p none = none
  and_sent p (some (ds, w)) = some (sent_datagram p ∷ ds, w)

  -- `DoIOWrite` on the packets of the queue; the socket answers each call in order, and `EAGAIN`
  -- where the list of its answers ends.
  unfoldable pub write_queue : List SendAnswer → List Packet → World K → Option (Written K)
  write_queue answers [] w = some ([], put_queue w [])
  write_queue [] (p ∷ q) w = some ([], put_queue w (p ∷ q))
  write_queue (again ∷ answers) (p ∷ q) w = some ([], put_queue w (p ∷ q))
  write_queue (failed ∷ answers) (p ∷ q) w = some ([], put_queue w q)
  write_queue (sent ∷ answers) (p ∷ q) w = elim (written_to w p p.conn) [
    | none ↦ none
    | some w1 ↦ and_sent p (write_queue answers q w1)
  ]

  unfoldable pub do_io_write : List SendAnswer → World K → Option (Written K)
  do_io_write answers w = write_queue answers w.host.send_queue w

-- The number of datagrams that one call reads at most.
abbrev pub max_recv_num : ℕ
max_recv_num = 1000

module _ {K : Type 0} (lib : Library K) where
  abbrev pub world_of : Option (Ret × World K) → Option (World K)
  world_of none = none
  world_of (some (r, w)) = some w

  -- What one call of `recvfrom` hands on: a longer datagram is cut.
  abbrev pub received : Datagram → List ℕ
  received d = take max_net_recv_buf_len d.bytes

  abbrev pub handle_decoded : World K → SockAddr → Option Msg → Option (World K)
  handle_decoded w addr none = some w
  handle_decoded w addr (some m) = world_of (handle_net_msg lib w m addr)

  -- `DecodeMsg` and `HandleNetMsg` for one datagram.
  unfoldable pub handle_datagram : World K → Datagram → Option (World K)
  handle_datagram w d =
      let bytes = received d in handle_decoded w d.addr (decode_msg bytes (length bytes))

  -- The loop of `DoIORead` on the datagrams that wait in the socket, with what still waits after it.
  -- An empty datagram is read, and ends the loop as an error does.
  unfoldable pub read_datagrams : ℕ → List Datagram → World K → Option (List Datagram × World K)
  read_datagrams zero ds w = some (ds, w)
  read_datagrams (suc n) [] w = some ([], w)
  read_datagrams (suc n) (d ∷ ds) w =
      if length d.bytes == 0
      then some (ds, w)
      else elim (handle_datagram w d) [ none ↦ none | some w1 ↦ read_datagrams n ds w1 ]

  -- `DoIORead`.
  unfoldable pub do_io_read : List Datagram → World K → Option (List Datagram × World K)
  do_io_read ds w = read_datagrams max_recv_num ds w
