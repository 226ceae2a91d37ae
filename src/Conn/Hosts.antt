-- ===== src/Conn/Hosts.antt =====
-- Handling a packet keeps a connection's address in memory, its client's address and the manager's
-- map of connections.
use ttserver.Base.{ℕ, zero, suc, ◌≡◌, refl, arith, List, Option, none, some, ◌∙◌, ℤ, to_size}
use ttserver.Config.{
  event_disconnect, event_close, disconnect_dead_link, close_client_fin, close_bind_timeout,
  close_disconnet_timeout, close_fin_timeout, close_none, disconnect_heartbeat, event_network,
  close_flow_control, rst_disconnect, rst_close,
}
use ttserver.Library.{Library}
use ttserver.Msg.Packets.{Head, Body, HeartBeat, Fin}
use ttserver.Msg.Reader.{Reader, peek_unreliable}
use ttserver.Msg.Decode.{Msg}
use ttserver.Security.{set_enc_key}
use ttserver.Host.{Host}
use ttserver.Host.Packets.{new_packet, send_fin_msg, send_rst_msg}
use ttserver.Host.Events.{move_to_closed_map, send_n2m_msg}
use ttserver.Host.Kept.{notify_conn_event-map_conn, send_rst_msg-map_conn}
use ttserver.Conn.{
  NetConnect, Result, ConnState, established, disconnet, closed, fin_wait1, fin_wait2, time_wait,
  reconneting, close_wait, last_ack, handshake1, handshake2,
}
use ttserver.Conn.Life.{
  tick_state, tick_in, after_call, tick_bind, tick_stat, tick1s, dis_connect, clear_conn_data,
  close_connect,
}
use ttserver.Conn.Receive.{
  recv_one_msg, recv_reliable, recv_unreliable, recv_unreliable_loop, recv_round, next_round,
}
use ttserver.Conn.Handle.{handle_heartbeat, handle_fin, handle_body, handle_net_msg, counted}

module _ {K : Type 0} where
  -- What a method that keeps all three leaves.
  unfoldable pub IsHeld : NetConnect K → Host → Result K → Type 0
  IsHeld c h x =
      (x.1.self ≡ c.self) × (x.1.client_addr ≡ c.client_addr) × (x.2.map_conn ≡ h.map_conn)

  pub dis_connect-IsHeld :
      (c : NetConnect K) (h : Host) (reason : ℕ) → IsHeld c h (dis_connect c h reason)
  unfolding dis_connect IsHeld
  dis_connect-IsHeld c h reason =
      let n =
        notify_conn_event-map_conn h event_disconnect c.conn_id reason c.bind_data none none in
      ground (arith, n)

  handle_heartbeat-IsHeld :
      (c : NetConnect K) (h : Host) (b : HeartBeat) → IsHeld c h (handle_heartbeat c h b)
  unfolding handle_heartbeat IsHeld new_packet
  handle_heartbeat-IsHeld c h b = ground arith

  handle_fin-IsHeld : (c : NetConnect K) (h : Host) (p : Fin) → IsHeld c h (handle_fin c h p)
  unfolding handle_fin IsHeld send_fin_msg new_packet
  handle_fin-IsHeld c h p =
      let n =
        notify_conn_event-map_conn h event_close c.conn_id c.close_reason c.bind_data none none in
      ground (arith, n)

module _ {K : Type 0} (lib : Library K) where
  pub close_connect-IsHeld :
      (c : NetConnect K) (h : Host) (reason : ℕ) → IsHeld c h (close_connect lib c h reason)
  unfolding close_connect IsHeld clear_conn_data move_to_closed_map
  close_connect-IsHeld c h reason =
      let n = notify_conn_event-map_conn h event_close c.conn_id reason c.bind_data none none in
      ground (arith, n)

  recv_one_msg-map_conn :
      (c : NetConnect K) (h : Host) (msg : List ℕ) (len : ℕ)
      → (recv_one_msg lib c h msg len).1.map_conn ≡ h.map_conn
  unfolding recv_one_msg set_enc_key send_n2m_msg
  recv_one_msg-map_conn c h msg len = ground arith

  recv_round-map_conn :
      (c : NetConnect K) (h : Host) (o : ℤ × Option (List ℕ) × Reader)
      → (recv_round lib c h o).1.map_conn ≡ h.map_conn
  recv_round-map_conn c h (result, none, r) = refl
  recv_round-map_conn c h (result, some msg, r) =
      let n = recv_one_msg-map_conn c h msg (to_size result) in ground (arith, n)

  next_round-map_conn :
      (rest : Host → Reader → Host) (h : Host) (o : Option Reader × Host)
      → ((h1 : Host) (r : Reader) → (rest h1 r).map_conn ≡ h1.map_conn)
      → o.1.map_conn ≡ h.map_conn
      → (next_round lib rest o).map_conn ≡ h.map_conn
  next_round-map_conn rest h (none, h1) f e = e
  next_round-map_conn rest h (some r, h1) f e = f h1 r ∙ e

  recv_unreliable_loop-map_conn :
      (n : ℕ) (c : NetConnect K) (h : Host) (r : Reader)
      → (recv_unreliable_loop lib n c h r).map_conn ≡ h.map_conn
  unfolding recv_unreliable_loop
  recv_unreliable_loop-map_conn zero c h r = refl
  recv_unreliable_loop-map_conn (suc n) c h r =
      let o = recv_round lib c h (peek_unreliable r) in
      let e =
        next_round-map_conn (recv_unreliable_loop lib n c) h o (recv_unreliable_loop-map_conn n c)
          (recv_round-map_conn c h (peek_unreliable r)) in
      ground (arith, e)

  recv_reliable-IsHeld :
      (c : NetConnect K) (h : Host) (bytes : List ℕ) (len : ℕ)
      → IsHeld c h (recv_reliable lib c h bytes len)
  unfolding recv_reliable IsHeld clear_conn_data dis_connect send_rst_msg new_packet
  recv_reliable-IsHeld c h bytes len =
      let n =
        notify_conn_event-map_conn h event_disconnect c.conn_id disconnect_dead_link c.bind_data
          none none in
      ground (arith, n)

  handle_body-IsHeld :
      (c : NetConnect K) (h : Host) (head : Head) (b : Body)
      → IsHeld c h (handle_body lib c h head b)
  unfolding handle_body recv_unreliable IsHeld
  handle_body-IsHeld c h head (Body.payload d) =
      let u =
        recv_unreliable_loop-map_conn (suc d.data_len) c h
          (record { buff = d.buff; size = d.data_len }) in
      let (s, a, m) = recv_reliable-IsHeld c h d.buff d.data_len in ground (arith, u, s, a, m)
  handle_body-IsHeld c h head (Body.heartbeat b) = handle_heartbeat-IsHeld c h b
  handle_body-IsHeld c h head (Body.fin p) =
      let (s, a, m) = handle_fin-IsHeld c h p in
      let (s2, a2, m2) = close_connect-IsHeld c h close_client_fin in
      ground (arith, s, a, m, s2, a2, m2)
  handle_body-IsHeld c h head (Body.handshake b) = (refl, refl, refl)
  handle_body-IsHeld c h head (Body.reconnect b) = (refl, refl, refl)
  handle_body-IsHeld c h head (Body.rst b) = (refl, refl, refl)

  -- The whole of `HandleNetMsg`.
  pub handle_net_msg-IsHeld :
      (c : NetConnect K) (h : Host) (m : Msg) → IsHeld c h (handle_net_msg lib c h m)
  unfolding handle_net_msg IsHeld clear_conn_data
  handle_net_msg-IsHeld c h m =
      let (s, a, e) = handle_body-IsHeld (counted c m.net_size) h m.head m.body in
      let r1 = send_rst_msg-map_conn h rst_disconnect c.conn_id c.client_addr in
      let r2 = send_rst_msg-map_conn h rst_close c.conn_id c.client_addr in
      ground (arith, s, a, e, r1, r2)

  -- The ticks: what is left is a connection and a host.
  unfoldable pub IsKept : NetConnect K → Host → NetConnect K × Host → Type 0
  IsKept c h x = (x.0.self ≡ c.self) × (x.1.map_conn ≡ h.map_conn)

  tick_in-IsKept : (s : ConnState) (c : NetConnect K) (h : Host) → IsKept c h (tick_in lib s c h)
  unfolding IsKept IsHeld tick_in
  tick_in-IsKept established c h =
      let x = after_call (dis_connect c h disconnect_heartbeat) in
      let (s, a, m) = dis_connect-IsHeld c h disconnect_heartbeat in
      let n1 =
        notify_conn_event-map_conn h event_network c.conn_id 0 (lib.ikcp_srtt c.kcp.ikcp) none
          none in
      let n2 =
        notify_conn_event-map_conn x.1 event_network x.0.conn_id 0 (lib.ikcp_srtt x.0.kcp.ikcp) none
          none in
      ground (arith, s, m, n1, n2)
  tick_in-IsKept disconnet c h =
      let (s, a, m) = close_connect-IsHeld c h close_disconnet_timeout in ground (arith, s, m)
  tick_in-IsKept fin_wait1 c h =
      let (s, a, m) = close_connect-IsHeld c h close_fin_timeout in ground (arith, s, m)
  tick_in-IsKept fin_wait2 c h =
      let (s, a, m) = close_connect-IsHeld c h close_fin_timeout in ground (arith, s, m)
  tick_in-IsKept time_wait c h =
      let (s, a, m) = close_connect-IsHeld c h close_none in ground (arith, s, m)
  tick_in-IsKept closed c h = (refl, refl)
  tick_in-IsKept reconneting c h = (refl, refl)
  tick_in-IsKept close_wait c h = (refl, refl)
  tick_in-IsKept last_ack c h = (refl, refl)
  tick_in-IsKept handshake1 c h = (refl, refl)
  tick_in-IsKept handshake2 c h = (refl, refl)

  tick_bind-IsKept : (c : NetConnect K) (h : Host) → IsKept c h (tick_bind lib (c, h))
  unfolding IsKept IsHeld tick_bind
  tick_bind-IsKept c h =
      let (s, a, m) = close_connect-IsHeld c h close_bind_timeout in ground (arith, s, m)

  tick_stat-IsKept : (c : NetConnect K) (h : Host) → IsKept c h (tick_stat lib (c, h))
  unfolding IsKept IsHeld tick_stat
  tick_stat-IsKept c h =
      let (s, a, m) = close_connect-IsHeld c h close_flow_control in ground (arith, s, m)

  -- The whole of `Tick1S`.
  pub tick1s-IsKept : (c : NetConnect K) (h : Host) → IsKept c h (tick1s lib c h)
  unfolding IsKept tick1s tick_state
  tick1s-IsKept c h =
      let x = tick_state lib c h in
      let y = tick_bind lib x in
      let (s1, m1) = tick_in-IsKept c.state c h in
      let (s2, m2) = tick_bind-IsKept x.0 x.1 in
      let (s3, m3) = tick_stat-IsKept y.0 y.1 in (s3 ∙ s2 ∙ s1, m3 ∙ m2 ∙ m1)
