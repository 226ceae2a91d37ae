-- ===== src/Conn/Setup.antt =====
-- The start of a connection, and its return from another address.
use ttserver.Base.{
  ℕ, ◌-◌, Bool, true, false, ◌||◌, List, ◌++◌, none, some, ◌==◌, if◌then◌else◌, length, replicate,
}
use ttserver.Config.{event_reconnect}
use ttserver.Library.{Library, SockAddr}
use ttserver.Kcp.{Kcp}
use ttserver.Kcp
use ttserver.Host.{Host, Ret, succ, fail, Ptr}
use ttserver.Host.Packets.{zero_addr}
use ttserver.Host.Events.{notify_conn_event, set_conn_addr}
use ttserver.Conn.{
  NetConnect, StatData, EncyptData, Result, closed, established, is_established, is_disconnect,
}

abbrev pub zero_stat : StatData
zero_stat = record {
  refresh_time = 0;
  max_wait_send = 0;
  recv_cnt = 0;
  recv_size = 0;
  send_cnt = 0;
  send_size = 0;
}

abbrev pub zero_encypt_data : EncyptData
zero_encypt_data = record {
  is_dh_key = false;
  key_len = 0;
  key = replicate 16 0;
  num_a_len = 0;
  num_a = replicate 16 0;
  num_b_len = 0;
  num_b = replicate 16 0;
}

-- `snprintf(dst, 20, "%s", src)`: up to the first zero byte, 19 bytes at most, and zeros behind in a
-- field that was zero.
unfoldable pub c_string : ℕ → List ℕ → List ℕ
c_string ℕ.zero src = List.[]
c_string (ℕ.suc n) List.[] = List.[]
c_string (ℕ.suc n) (List.◌∷◌ b src) =
    let rest = c_string n src in if b == 0 then List.[] else List.◌∷◌ b rest

unfoldable pub copied_cookie : List ℕ → List ℕ
copied_cookie src = let s = c_string 19 src in s ++ replicate (20 - length s) 0

module _ {K : Type 0} where
  -- The constructor; `mem` is what the memory of the KCP wrapper holds, which it does not write.
  unfoldable pub new_connect : Ptr → Kcp K → NetConnect K
  new_connect self mem = record {
    self = self;
    conn_id = 0;
    state = closed;
    client_addr = zero_addr;
    create_time = 0;
    bind_data = 0;
    stat = zero_stat;
    kcp = mem;
    merge_packet = none;
    encypt_data = zero_encypt_data;
    cookies = replicate 20 0;
    last_heartbeat = 0;
    disconnect_time = 0;
    fin_begin = 0;
    send_fin_time = 0;
    time_wait_time = 0;
    close_time = 0;
    network_syn = 0;
    close_reason = 0;
  }

module _ {K : Type 0} (lib : Library K) where
  -- The fields that `InitConnect` sets before it can fail.
  abbrev pub prepared : NetConnect K → Host → ℕ → SockAddr → List ℕ → EncyptData → NetConnect K
  prepared c h conn_id addr cookies encypt_data = record c {
    conn_id = conn_id;
    state = established;
    client_addr = addr;
    create_time = h.now;
    last_heartbeat = h.now;
    bind_data = 0;
    stat = record zero_stat { refresh_time = h.now };
    encypt_data = encypt_data;
    cookies = copied_cookie cookies;
  }

  abbrev pub with_kcp : NetConnect K → Bool × Kcp K → Ret × NetConnect K
  with_kcp c (true, k) = (succ, record c { kcp = k })
  with_kcp c (false, k) = (fail, record c { kcp = k })

  -- `InitConnect`: -1 for a key of another length, and where KCP cannot start.
  unfoldable pub init_connect :
      NetConnect K → Host → ℕ → SockAddr → List ℕ → EncyptData → Ret × NetConnect K
  init_connect c h conn_id addr cookies encypt_data =
      let c1 = prepared c h conn_id addr cookies encypt_data in
      if encypt_data.key_len == 16
      then with_kcp c1 (Kcp.init lib conn_id (Kcp.mem_init lib c1.kcp))
      else (fail, c1)

  -- What `Reconnect` does once KCP is ready. `stOldAddr` is a reference to `m_stClientAddr`, which
  -- has been overwritten by the time the maps are told: both addresses are the new one.
  abbrev pub moved : NetConnect K → Host → SockAddr → NetConnect K × Host
  moved c h addr =
      let c1 = record c { state = established; client_addr = addr; last_heartbeat = h.now } in
      let old_addr = c1.client_addr in
      (
        c1,
        (notify_conn_event (set_conn_addr h c.self c1.client_addr (some old_addr)) event_reconnect
            c.conn_id 0 c.bind_data (some addr) none).1,
      )

  abbrev pub reconnected : NetConnect K → Host → SockAddr → Bool × Kcp K → Result K
  reconnected c h addr (true, k) =
      let (c1, h1) = moved (record c { kcp = k }) h addr in (succ, c1, h1)
  reconnected c h addr (false, k) = (fail, record c { kcp = k }, h)

  -- `Reconnect`.
  unfoldable pub reconnect : NetConnect K → Host → SockAddr → Result K
  reconnect c h addr =
      if is_disconnect c.state || is_established c.state
      then reconnected c h addr (Kcp.reconnect lib c.conn_id c.kcp)
      else (fail, c, h)
