-- ===== src/Tests/Net.antt =====
-- The theorems on the network thread's loops, in a world with one connection.
use ttserver.Base.{
  ℕ, ◌≡◌, ◌≤◌, inl, refl, arith, true, List, [], ◌∷◌, ◌++◌, none, some, length, map,
}
use ttserver.Kcp
use ttserver.Cookie.{init_cookies}
use ttserver.Msg.Decode.{Msg}
use ttserver.Msg.PacketType
use ttserver.Msg.Packets.{Body}
use ttserver.Host.{Packet, sockaddr_to_id, map_find}
use ttserver.Conn.{established}
use ttserver.Conn.Setup.{reconnect, zero_encypt_data}
use ttserver.Security.Agreement.{IsDh, IsSameKey, server_side, client_end, client_end-IsSameKey}
use ttserver.Security.Dh
use ttserver.Net.{World, conn_at, kept}
use ttserver.Net.Manager.{free_conn, proc_closed_conn, tick1s}
use ttserver.Net.Serve.{handle_net_data}
use ttserver.Net.Io.{Datagram, sent, again, sent_datagram, do_io_write}
use ttserver.Net.Live.{IsLive, all_live, has_conn}
use ttserver.Net.Sockets.{all_sendable, do_io_write-IsFifo}
use ttserver.Net.Ends.{tick1s-IsLive, all_keyed}
use ttserver.Net.Closing.{proc_closed_conn-IsLive, all_closed, all_gone, is_absent}
use ttserver.Net.Unsent.{proc_closed_conn-dangling}
use ttserver.Net.Dangling.{reconnect-dangling}
use ttserver.Tests.Demo.{demo_library, demo_host, demo_connect, addr_of}

-- Connection 5 at the address 1, found under the port 80.
abbrev pub demo_world : World ℕ
demo_world = record {
  host = record (demo_host 200) { map_conn = (sockaddr_to_id (addr_of 80), 1) ∷ [] };
  ids = record { exist_id = 5 ∷ []; cur_id = 5 };
  conns = (1, demo_connect established) ∷ [];
  next_conn = 2;
  memory = λ p. record { ikcp = 0; need_recv = true };
  cookie_mgr = init_cookies;
  draws = 0;
  conn_id = 0;
  encypt_data = zero_encypt_data;
  last_update = 0;
}

demo_world-IsLive : IsLive demo_world
unfolding all_live has_conn conn_at
demo_world-IsLive = refl

demo_library-IsDh : IsDh demo_library
demo_library-IsDh = record { agree = λ d1 d2 p1 s1 p2 s2 g1 g2. refl; survives = λ n. refl }

client_end-IsSameKey_example :
    IsSameKey (server_side demo_library 0 1) (client_end demo_library 0 1)
unfolding Dh.handle_handshake1_ack Dh.handle_handshake2
client_end-IsSameKey_example = client_end-IsSameKey demo_library demo_library-IsDh 0 1 refl refl

-- An unreliable message from the port 80, and an empty datagram.
abbrev demo_datagrams : List Datagram
demo_datagrams =
    record { addr = addr_of 80; bytes = 5 ∷ 2 ∷ 0 ∷ 0 ∷ 9 ∷ [] }
    ∷ record { addr = addr_of 81; bytes = [] }
    ∷ []

-- A packet of the connection, and one that has none.
abbrev own_packet : Packet
own_packet = record {
  id = 0;
  client_addr = addr_of 80;
  connect_id = 5;
  conn = some 1;
  data_len = 2;
  buff_len = 2;
  buff = 1 ∷ 2 ∷ [];
}

abbrev lone_packet : Packet
lone_packet = record {
  id = 1;
  client_addr = addr_of 81;
  connect_id = 0;
  conn = none;
  data_len = 1;
  buff_len = 1;
  buff = 3 ∷ [];
}

abbrev demo_queue : List Packet
demo_queue = own_packet ∷ lone_packet ∷ []

abbrev busy_world : World ℕ
busy_world = record demo_world { host = record demo_world.host { send_queue = demo_queue } }

do_io_write-IsFifo_example :
    (out : List Packet) × (dropped : List Packet) × (w1 : World ℕ) × (do_io_write
        (sent ∷ again ∷ [])
        busy_world
      ≡ some (map sent_datagram out, w1))
    × (demo_queue ≡ out ++ (dropped ++ w1.host.send_queue))
    × (length dropped ≤ 1)
    × IsLive w1
unfolding all_sendable has_conn conn_at
do_io_write-IsFifo_example =
    do_io_write-IsFifo (sent ∷ again ∷ []) busy_world refl demo_world-IsLive

tick1s-IsLive_example : (w1 : World ℕ) × (tick1s demo_library demo_world ≡ some w1) × IsLive w1
tick1s-IsLive_example = tick1s-IsLive demo_library demo_world demo_world-IsLive

-- Connection 5 waits in the map of closed ones.
abbrev closed_world : World ℕ
closed_world = record demo_world { host = record demo_world.host { map_closed = (5, 1) ∷ [] } }

proc_closed_conn-IsLive_example :
    (w1 : World ℕ) × (proc_closed_conn closed_world ≡ some w1)
    × (w1.host.map_closed ≡ [])
    × (all_gone ((5, 1) ∷ []) w1.conns ≡ true)
    × IsLive w1
unfolding all_closed is_absent all_keyed conn_at sockaddr_to_id
proc_closed_conn-IsLive_example = proc_closed_conn-IsLive closed_world refl demo_world-IsLive

-- A packet of connection 5 waits behind one without a connection.
abbrev unsent_world : World ℕ
unsent_world = record closed_world {
  host = record closed_world.host { send_queue = lone_packet ∷ own_packet ∷ [] };
}

proc_closed_conn-dangling_example :
    (w1 : World ℕ) × (proc_closed_conn unsent_world ≡ some w1)
    × (do_io_write (sent ∷ sent ∷ []) w1 ≡ none)
unfolding all_closed is_absent all_keyed conn_at sockaddr_to_id map_find
proc_closed_conn-dangling_example =
    proc_closed_conn-dangling unsent_world 5 1 (lone_packet ∷ []) own_packet [] [] refl
      demo_world-IsLive refl refl refl

abbrev demo_message : Msg
demo_message = record {
  head = record { kind = PacketType.data_packet; is_reliable = 0 };
  body = Body.payload (record { buff = 2 ∷ 0 ∷ 0 ∷ 9 ∷ []; data_len = 4 });
  net_size = 5;
}

reconnect-dangling_example :
    (w1 : World ℕ) × (free_conn
        (kept demo_world 1
          (reconnect demo_library (demo_connect established) demo_world.host (addr_of 81))).1
        1
      ≡ some w1)
    × (tick1s demo_library w1 ≡ none)
    × (handle_net_data demo_library w1 demo_message (addr_of 80) ≡ none)
unfolding conn_at map_find sockaddr_to_id Kcp.reconnect Kcp.init
reconnect-dangling_example =
    reconnect-dangling demo_library demo_world 1 (demo_connect established) (addr_of 81)
      demo_message refl refl (inl refl) refl (ground arith) refl
