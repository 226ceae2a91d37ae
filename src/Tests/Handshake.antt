-- ===== src/Tests/Handshake.antt =====
-- The theorems on handshakes and on Reconnect, in a world with one connection.
use ttserver.Base.{ℕ, ◌≡◌, ◌⊎◌, refl, arith, [], ◌∷◌, some, replicate}
use ttserver.Kcp
use ttserver.Cookie.{create_cookie}
use ttserver.Ids.{alloc_id, search_id, set_find, set_insert}
use ttserver.Msg.Packets.{HandShake, Reconnect}
use ttserver.Host.{Ret, succ, sockaddr_to_id, map_find}
use ttserver.Conn.{NetConnect, established}
use ttserver.Conn.Setup.{copied_cookie}
use ttserver.Security.Dh
use ttserver.Net.{World, conn_at, get_conn_by_addr, get_conn_by_id, scan_id}
use ttserver.Net.Handshake.{
  handle_handshake2, accept_handshake2, new_handshake2, new_secrets, is_same,
}
use ttserver.Net.Serve.{handle_reconnect, reconnect_at, rejected}
use ttserver.Net.Admission.{IsGenuine, IsUnchanged, handle_handshake2-IsGenuine}
use ttserver.Net.Welcome.{handle_handshake2-established}
use ttserver.Net.Resume.{IsOwner, last_byte, reconnect_at-copied_cookie, handle_reconnect-IsOwner}
use ttserver.Tests.Demo.{demo_library, demo_connect, addr_of}
use ttserver.Tests.Net.{demo_world}

-- A second handshake from the port 81.
abbrev demo_request : HandShake
demo_request = record {
  time_stamp = 190;
  screte_key = 0;
  conn_id = 0;
  is_key = 1;
  encrypt_data_len = 1;
  ext_data = 0;
  encrypt_data = 5 ∷ replicate 15 0;
  cookies = replicate 20 7;
}

demo_request-IsGenuine : IsGenuine demo_library demo_world demo_request (addr_of 81)
unfolding get_conn_by_addr map_find sockaddr_to_id create_cookie
demo_request-IsGenuine = record {
  new_addr = refl;
  in_time = refl;
  has_number = omega arith;
  own = refl;
}

handle_handshake2-established_example :
    (w1 : World ℕ) × (c : NetConnect ℕ) × (handle_handshake2 demo_library demo_world demo_request
        (addr_of 81)
      ≡ some (succ, w1))
    × (get_conn_by_addr w1 (addr_of 81) ≡ some 2)
    × (conn_at 2 w1.conns ≡ some c)
    × (c.state ≡ established)
    × (c.conn_id ≡ 6)
    × (c.client_addr ≡ addr_of 81)
    × (c.encypt_data ≡ new_secrets demo_library demo_world demo_request)
    × (w1.ids ≡ record { exist_id = 6 ∷ 5 ∷ []; cur_id = 6 })
    × (w1.host.overrun ≡ demo_world.host.overrun)
unfolding new_secrets Dh.handle_handshake2 alloc_id search_id set_find set_insert Kcp.init
    Kcp.mem_init
handle_handshake2-established_example =
    handle_handshake2-established demo_library demo_world demo_request (addr_of 81) 6
      (record { exist_id = 6 ∷ 5 ∷ []; cur_id = 6 }) demo_request-IsGenuine (omega arith) refl refl
      refl

abbrev demo_accepted : Ret × World ℕ
demo_accepted = accept_handshake2 demo_library demo_world demo_request (addr_of 81)

handle_handshake2-IsGenuine_example :
    IsUnchanged demo_world demo_accepted.1
    ⊎ IsGenuine demo_library demo_world demo_request (addr_of 81)
unfolding handle_handshake2 new_handshake2 get_conn_by_addr map_find sockaddr_to_id create_cookie
    is_same
handle_handshake2-IsGenuine_example =
    handle_handshake2-IsGenuine demo_library demo_world demo_request (addr_of 81) demo_accepted.0
      demo_accepted.1 refl

-- The connection's id and cookie, from the port 81.
abbrev demo_return : Reconnect
demo_return = record { conn_id = 5; cookies = replicate 20 7 }

abbrev demo_returned : Ret × World ℕ
demo_returned =
    reconnect_at demo_library demo_world demo_return (addr_of 81) 1 (demo_connect established)

handle_reconnect-IsOwner_example :
    IsUnchanged demo_world demo_returned.1 ⊎ IsOwner demo_library demo_world demo_return
unfolding handle_reconnect get_conn_by_addr get_conn_by_id scan_id map_find sockaddr_to_id conn_at
handle_reconnect-IsOwner_example =
    handle_reconnect-IsOwner demo_library demo_world demo_return (addr_of 81) demo_returned.0
      demo_returned.1 refl

reconnect_at-copied_cookie_example :
    reconnect_at demo_library demo_world demo_return
      (addr_of 81)
      1
      (record (demo_connect established) { cookies = copied_cookie (replicate 20 7) })
    ≡ rejected demo_world (addr_of 81)
unfolding last_byte
reconnect_at-copied_cookie_example =
    reconnect_at-copied_cookie demo_library demo_world demo_return (addr_of 81) 1
      (record (demo_connect established) { cookies = copied_cookie (replicate 20 7) })
      (replicate 20 7) refl refl (ground arith)
